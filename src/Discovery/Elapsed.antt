-- ===== src/Discovery/Elapsed.antt =====
-- The elapsed time in `Discovery::RunActivityTask` of src/Discovery.cc: a difference of two times of the
-- steady clock, in nanoseconds, becomes a `duration<double>` in seconds, and that is cast to whole
-- milliseconds. The numbers are IEEE doubles, rounded to nearest, ties to even; each is written here as
-- an integer over a power of two, so that every step is exact.
pub mod Error
use ign_transport_git.Base.{ℕ, zero, suc, ◌+◌, ◌*◌, ◌/◌, ◌%◌, ◌^◌, ◌==◌, ◌&&◌, ltb, if◌then◌else◌}

-- The integer nearest to `a / b`; of two, the even one.
unfoldable pub near : ℕ → ℕ → ℕ
near a b =
    let q = a / b in
    let twice = 2 * (a % b) in
    if ltb twice b then q else if twice == b && q % 2 == 0 then q else q + 1

-- The distance of the doubles around `n`, from 1 on: `n` takes at most 53 bits at it. For the values of
-- an `int64_t`, ten doublings are enough.
unfoldable pub unit_of : ℕ → ℕ → ℕ → ℕ
unit_of zero unit n = unit
unit_of (suc fuel) unit n =
    let wider = unit_of fuel (2 * unit) n in if ltb n (2 ^ 53 * unit) then unit else wider

-- The double nearest to an integer.
unfoldable pub round : ℕ → ℕ
round n = near n (unit_of 10 1 n) * unit_of 10 1 n

-- The largest power of two by which `n / 10 ^ 9` can be multiplied to have at most 53 bits before the
-- point, up to 2 ^ 83.
unfoldable pub scale_of : ℕ → ℕ → ℕ → ℕ
scale_of zero scale n = scale
scale_of (suc fuel) scale n =
    let finer = scale_of fuel (2 * scale) n in
    if ltb (n * (2 * scale)) (2 ^ 53 * 10 ^ 9) then finer else scale

-- The seconds are `near (n * scale) (10 ^ 9) / scale`; the cast multiplies by 1000 and drops what is
-- behind the point.
unfoldable pub elapsed_ms : ℕ → ℕ
elapsed_ms ns =
    let n = round ns in
    let scale = scale_of 83 1 n in round (near (n * scale) (10 ^ 9) * 1000) / scale
