-- ===== src/Discovery/Tasks/Patience.antt =====
-- How long a publisher may be silent before `Discovery::RunActivityTask` of src/Discovery.cc forgets it.
use ign_transport_git.Base.{
  ℕ, true, false, ◌+◌, ◌-◌, ◌*◌, ◌^◌, ◌≤◌, ◌≡◌, ◌⊎◌, inl, inr, Bool-cases, arith,
}
use ign_transport_git.Discovery.{Discovery}
use ign_transport_git.Discovery.Elapsed.Error.{elapsed_ms_lem}
use ign_transport_git.Discovery.Tasks.{is_expired}

-- For times up to 4 * 10 ^ 15 nanoseconds, 46 days, the test that a publisher has expired is right but for
-- the rounding of doubles. One that expires was silent for the interval and one millisecond more, but for
-- one nanosecond; one that does not was silent for at most the interval and one millisecond more.
pub is_expired_lem :
    (now last : ℕ) (d : Discovery)
    → now - last ≤ 4 * 10 ^ 15
    → ((is_expired now last d ≡ true) × (10 ^ 6 * (d.silence_interval + 1) ≤ (now - last) + 1))
      ⊎ ((is_expired now last d ≡ false) × (now - last ≤ 10 ^ 6 * (d.silence_interval + 1)))
is_expired_lem now last d small =
    let h = elapsed_ms_lem (now - last) small in
    elim (Bool-cases (is_expired now last d)) [
      | inl e ↦ inl (e, ground (arith, h.0, h.1, e))
      | inr e ↦ inr (e, ground (arith, h.0, h.1, e))
    ]
