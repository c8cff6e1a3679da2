-- ===== src/Base/Decimal.antt =====
-- `std::stoi` and `std::to_string`, as the C++ standard defines them: src/NodeShared.cc and src/Node.cc
-- write the type of a control message in decimal digits and read it back.
use Prim.Native.Nat.{ℕ, ◌+◌, ◌*◌, ◌-◌, ◌/◌, ◌%◌, ◌^◌}
use mathlib.Core.Bool.{Bool, true, false, not, ◌&&◌, ◌||◌}
use mathlib.Core.List.{[], ◌∷◌}
use mathlib.Core.Option.{Option, none, some}
use ign_transport_git.Base.Tests.{◌==◌, ltb, if◌then◌else◌}
use ign_transport_git.Base.Str.{Text}

-- `std::isspace` in the C locale.
abbrev pub is_space : ℕ → Bool
is_space c = c == b' ' || (ltb 8 c && ltb c 14)

abbrev pub is_digit : ℕ → Bool
is_digit c = not (ltb c b'0') && not (ltb b'9' c)

unfoldable pub skip_space : Text → Text
skip_space [] = []
skip_space (c ∷ s) = let rest = skip_space s in if is_space c then rest else c ∷ s

-- The value of the leading digits, behind those that gave `acc`.
unfoldable pub read_digits : ℕ → Text → ℕ
read_digits acc [] = acc
read_digits acc (c ∷ s) =
    let rest = read_digits (acc * 10 + (c - b'0')) s in if is_digit c then rest else acc

-- Digits with a sign: whether it was a minus, and the value. `none` is `std::invalid_argument` or
-- `std::out_of_range`; an `int` has 32 bits.
unfoldable pub read_int : Bool → Text → Option (Bool × ℕ)
read_int negative [] = none
read_int negative (c ∷ s) =
    if is_digit c
    then if ltb (read_digits 0 (c ∷ s)) (if negative then 2 ^ 31 + 1 else 2 ^ 31)
      then some (negative, read_digits 0 (c ∷ s))
      else none
    else none

unfoldable pub read_sign : Text → Option (Bool × ℕ)
read_sign [] = none
read_sign (c ∷ s) =
    if c == b'-'
    then read_int true s
    else if c == b'+'
    then read_int false s
    else read_int false (c ∷ s)

-- `std::stoi`.
unfoldable pub stoi : Text → Option (Bool × ℕ)
stoi s = read_sign (skip_space s)

-- `std::to_string` of a `uint8_t`.
unfoldable pub to_string : ℕ → Text
to_string n =
    if ltb n 10
    then (b'0' + n) ∷ []
    else if ltb n 100
    then (b'0' + n / 10) ∷ (b'0' + n % 10) ∷ []
    else (b'0' + n / 100) ∷ (b'0' + n / 10 % 10) ∷ (b'0' + n % 10) ∷ []
