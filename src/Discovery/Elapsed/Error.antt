-- ===== src/Discovery/Elapsed/Error.antt =====
-- How far the milliseconds of src/Discovery.cc can be from the elapsed time.
use native.Mathlib.Nat.{
  div-add-mod, mod-lt, mul_comm, mul-le-mul_left, lt_of_mul-lt-mul_left, le_of_mul-le-mul_left,
  div-mul-le_self, pow-suc,
}
use ign_transport_git.Base.{
  ℕ, zero, suc, ◌+◌, ◌*◌, ◌/◌, ◌%◌, ◌^◌, ◌≤◌, ◌<◌, ◌≡◌, ◌⊎◌, refl, true, ◌==◌, ◌&&◌, ltb,
  Bool-cases, inl, inr, arith,
}
use ign_transport_git.Discovery.Elapsed.{near, unit_of, round, scale_of, elapsed_ms}

near_cases :
    (a b : ℕ)
    → 0 < b
    → ((near a b ≡ a / b) × (2 * (a % b) ≤ b)) ⊎ ((near a b ≡ a / b + 1) × (b ≤ 2 * (a % b)))
unfolding near
near_cases a b pos = elim (Bool-cases (ltb (2 * (a % b)) b)) [
  | inl e ↦ inl (rw e refl, ground arith)
  | inr e ↦ elim (Bool-cases (2 * (a % b) == b && (a / b) % 2 == 0)) [
    | inl f ↦ inl (rw (e, f) refl, ground arith)
    | inr f ↦ inr (rw (e, f) refl, ground arith)
  ]
]

near_lem : (a b : ℕ) → 0 < b → (2 * (b * near a b) ≤ 2 * a + b) × (2 * a ≤ 2 * (b * near a b) + b)
near_lem a b pos =
    let whole = div-add-mod a b in
    let part = mod-lt a pos in
    elim (near_cases a b pos) [
      | inl (e, h) ↦ rw e (omega arith, omega arith)
      | inr (e, h) ↦ rw e (omega arith, omega arith)
    ]

unit_of_pos : (fuel unit n : ℕ) → 0 < unit → 0 < unit_of fuel unit n
unfolding unit_of
unit_of_pos zero unit n pos = pos
unit_of_pos (suc fuel) unit n pos = elim (Bool-cases (ltb n (2 ^ 53 * unit))) [
  | inl e ↦ rw e pos
  | inr e ↦ rw e (unit_of_pos fuel (2 * unit) n (omega arith))
]

unit_of-le : (n : ℕ) → unit_of 10 1 n ≤ 1024
unfolding unit_of
unit_of-le n = ground arith

round_lem : (n : ℕ) → (2 * round n ≤ 2 * n + 1024) × (2 * n ≤ 2 * round n + 1024)
unfolding round
round_lem n =
    let u = unit_of 10 1 n in
    let h = near_lem n u (unit_of_pos 10 1 n (omega arith)) in
    rw (mul_comm (near n u) u) (omega (arith, h.0, unit_of-le n), omega (arith, h.1, unit_of-le n))

near_one : (n : ℕ) → near n 1 ≡ n
near_one n = let h = near_lem n 1 (omega arith) in omega (arith, h.0, h.1)

round_small : (n : ℕ) → n < 2 ^ 53 → round n ≡ n
unfolding round unit_of
round_small n small =
    let e : ltb n (2 ^ 53 * 1) ≡ true = ground arith in rw (e, near_one n) (omega arith)

scale_of_upper :
    (fuel scale n : ℕ) → n * scale < 2 ^ 53 * 10 ^ 9 → n * scale_of fuel scale n < 2 ^ 53 * 10 ^ 9
unfolding scale_of
scale_of_upper zero scale n h = h
scale_of_upper (suc fuel) scale n h = elim (Bool-cases (ltb (n * (2 * scale)) (2 ^ 53 * 10 ^ 9))) [
  | inl e ↦ rw e (scale_of_upper fuel (2 * scale) n (ground arith))
  | inr e ↦ rw e h
]

-- Where the numbers stay below 2 ^ 52, the scale is not too small.
scale_of_lower :
    (fuel scale n : ℕ)
    → (2 ^ 53 * 10 ^ 9 ≤ n * (2 * scale_of fuel scale n))
      ⊎ (scale_of fuel scale n ≡ scale * 2 ^ fuel)
unfolding scale_of
scale_of_lower zero scale n = inr (omega arith)
scale_of_lower (suc fuel) scale n = elim (Bool-cases (ltb (n * (2 * scale)) (2 ^ 53 * 10 ^ 9))) [
  | inl e ↦ rw e (elim (scale_of_lower fuel (2 * scale) n) [
    | inl h ↦ inl h
    | inr h ↦ inr (rw (h, pow-suc) (grind arith))
  ])
  | inr e ↦ rw e (inl (ground arith))
]

scale_of-le : (n : ℕ) → n ≤ 4 * 10 ^ 15 → 1012000000 ≤ scale_of 83 1 n
scale_of-le n small = elim (scale_of_lower 83 1 n) [
  | inl h ↦
      let most = mul-le-mul_left (2 * scale_of 83 1 n) small in
      omega (arith, h, most, mul_comm n (2 * scale_of 83 1 n))
  | inr h ↦ rw h (omega arith)
]

-- The rounded milliseconds over their scale, next to the nanoseconds over the same scale.
rounded_lem :
    (n : ℕ)
    → n ≤ 4 * 10 ^ 15
    → let scale = scale_of 83 1 n in
      let ms = round (near (n * scale) (10 ^ 9) * 1000) in
      (10 ^ 6 * ms ≤ n * scale + scale) × (n * scale ≤ 10 ^ 6 * ms + scale)
rounded_lem n small =
    let scale = scale_of 83 1 n in
    let h = near_lem (n * scale) (10 ^ 9) (omega arith) in
    let r = round_lem (near (n * scale) (10 ^ 9) * 1000) in
    let enough = scale_of-le n small in
    (omega (arith, h.0, r.0, enough), omega (arith, h.1, r.1, enough))

div_upper :
    (ms scale n : ℕ) → 0 < scale → 10 ^ 6 * ms ≤ n * scale + scale → 10 ^ 6 * (ms / scale) ≤ n + 1
div_upper ms scale n pos h =
    let whole = div-mul-le_self ms scale in
    le_of_mul-le-mul_left {k = scale} (grind (arith, whole, h)) pos

div_lower :
    (ms scale n : ℕ)
    → 0 < scale
    → n * scale ≤ 10 ^ 6 * ms + scale
    → n < 10 ^ 6 * (ms / scale + 1) + 1
div_lower ms scale n pos h =
    let whole = div-add-mod ms scale in
    let part = mod-lt ms pos in lt_of_mul-lt-mul_left scale (grind (arith, whole, part, h))

pub elapsed_ms_lem :
    (ns : ℕ)
    → ns ≤ 4 * 10 ^ 15
    → (10 ^ 6 * elapsed_ms ns ≤ ns + 1) × (ns < 10 ^ 6 * (elapsed_ms ns + 1) + 1)
unfolding elapsed_ms
elapsed_ms_lem ns small =
    let r = rounded_lem ns small in
    let pos : 0 < scale_of 83 1 ns = omega (arith, scale_of-le ns small) in
    rw (round_small ns (omega arith)) (div_upper _ _ ns pos r.0, div_lower _ _ ns pos r.1)
