-- ===== src/Uuid/Distinct.antt =====
-- The texts of identifiers of src/Uuid.cc, as keys.
use ign_transport_git.Base.{
  ℕ, zero, suc, ◌+◌, ◌*◌, ◌/◌, ◌%◌, ◌<◌, ◌^◌, ◌≡◌, ◌↔◌, refl, sym, ap, ◌∙◌, List, [], ◌∷◌, ◌++◌,
  length, length-append, Text, arith,
}
use ign_transport_git.Uuid.{hex_digit, hex_byte, dash_before, format_from, to_string}

abbrev pub AreBytes : List ℕ → Type 0
AreBytes [] = Unit
AreBytes (b ∷ bs) = (b < 2 ^ 8) × AreBytes bs

hex_digit-injective : (a b : ℕ) → a < 16 → b < 16 → hex_digit a ≡ hex_digit b → a ≡ b
unfolding hex_digit
hex_digit-injective a b ha hb h = ground arith

pub head_of : (x y : ℕ) (s t : Text) → (x ∷ s) ≡ (y ∷ t) → (x ≡ y) × (s ≡ t)
head_of x y s t h = (cc, cc)

byte-injective :
    (a b : ℕ) (s t : Text)
    → a < 2 ^ 8
    → b < 2 ^ 8
    → hex_byte a ++ s ≡ hex_byte b ++ t
    → (a ≡ b) × (s ≡ t)
unfolding hex_byte
byte-injective a b s t ha hb h =
    let (high, rest) = head_of _ _ _ _ h in
    let (low, same) = head_of _ _ _ _ rest in
    let e = hex_digit-injective (a / 16) (b / 16) (omega arith) (omega arith) high in
    let f = hex_digit-injective (a % 16) (b % 16) (omega arith) (omega arith) low in
    (omega arith, same)

drop_prefix : (p s t : Text) → p ++ s ≡ p ++ t → s ≡ t
drop_prefix [] s t h = h
drop_prefix (x ∷ p) s t h = drop_prefix p s t (head_of x x _ _ h).1

format_from-injective :
    (i : ℕ) (u v : List ℕ)
    → length u ≡ length v
    → AreBytes u
    → AreBytes v
    → format_from i u ≡ format_from i v
    → u ≡ v
unfolding format_from
format_from-injective i [] [] e hu hv h = refl
format_from-injective i [] (b ∷ v) e hu hv h = absurd (omega arith)
format_from-injective i (a ∷ u) [] e hu hv h = absurd (omega arith)
format_from-injective i (a ∷ u) (b ∷ v) e hu hv h =
    let (same, rest) = byte-injective a b _ _ hu.0 hv.0 (drop_prefix (dash_before i) _ _ h) in
    let tail = format_from-injective (suc i) u v (omega arith) hu.1 hv.1 rest in cc

abbrev dashes : ℕ → ℕ → ℕ
dashes i zero = 0
dashes i (suc n) = length (dash_before i) + dashes (suc i) n

length-format_from :
    (i : ℕ) (u : List ℕ) → length (format_from i u) ≡ dashes i (length u) + 2 * length u
unfolding format_from hex_byte
length-format_from i [] = refl
length-format_from i (b ∷ u) =
    let tail = length-format_from (suc i) u in
    let whole = length-append (dash_before i) (hex_byte b ++ format_from (suc i) u) in
    omega (arith, tail, whole)

-- The text of an identifier has 36 characters, and the texts of two identifiers are equal only if the
-- identifiers are; an identifier has 16 bytes.
pub to_string-injective :
    (u v : List ℕ)
    → length u ≡ 16
    → length v ≡ 16
    → AreBytes u
    → AreBytes v
    → (length (to_string u) ≡ 36) × ((to_string u ≡ to_string v) ↔ (u ≡ v))
unfolding to_string
to_string-injective u v lu lv hu hv = (
  length-format_from 0 u ∙ ap (λ n. dashes 0 n + 2 * n) lu,
  (λ h. format_from-injective 0 u v (lu ∙ sym lv) hu hv h, λ e. ap to_string e),
)
