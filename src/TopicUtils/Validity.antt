-- ===== src/TopicUtils/Validity.antt =====
-- What the tests of src/TopicUtils.cc mean, and how they distribute over a concatenation.
use ign_transport_git.Base.{
  ℕ, Bool, true, false, ◌&&◌, ◌||◌, ◌==◌, ==_iff, ◌≡◌, ◌≢◌, ◌↔◌, refl, sym, ap, ◌∙◌, [], ◌∷◌, ◌++◌,
  All, Text, text_eq, text_eq_iff, bytes, arith, Bool-cases, inl, inr,
}
use ign_transport_git.TopicUtils.{
  has_char, has_double_slash, is_valid_namespace, starts_with_slash, ends_with_slash, pop_back,
}

pub has_char-append : (c : ℕ) (s t : Text) → has_char c (s ++ t) ≡ (has_char c s || has_char c t)
unfolding has_char
has_char-append c [] t = refl
has_char-append c (x ∷ s) t = ground (arith, has_char-append c s t)

-- Whether a slash stands last, where `after` says it of the character before the text.
unfoldable pub slash_last : Bool → Text → Bool
slash_last after [] = after
slash_last after (x ∷ s) = slash_last (x == b'/') s

pub has_double_slash-append :
    (after : Bool) (s t : Text)
    → has_double_slash after (s ++ t)
      ≡ (has_double_slash after s || has_double_slash (slash_last after s) t)
unfolding has_double_slash slash_last
has_double_slash-append after [] t = refl
has_double_slash-append after (x ∷ s) t = ground (arith, has_double_slash-append (x == b'/') s t)

pub has_double_slash_after :
    (s : Text) → has_double_slash true s ≡ (starts_with_slash s || has_double_slash false s)
unfolding has_double_slash starts_with_slash
has_double_slash_after [] = refl
has_double_slash_after (x ∷ s) = ground arith

pub ends_with_slash-cons : (x : ℕ) (s : Text) → ends_with_slash (x ∷ s) ≡ slash_last (x == b'/') s
unfolding ends_with_slash slash_last
ends_with_slash-cons x [] = refl
ends_with_slash-cons x (y ∷ s) = ends_with_slash-cons y s

pub ends_with_slash_lem : (s : Text) → ends_with_slash s ≡ slash_last false s
unfolding slash_last
ends_with_slash_lem [] = unfold ends_with_slash in refl
ends_with_slash_lem (x ∷ s) = ends_with_slash-cons x s

pub slash_last-append :
    (after : Bool) (s t : Text) → slash_last after (s ++ t) ≡ slash_last (slash_last after s) t
unfolding slash_last
slash_last-append after [] t = refl
slash_last-append after (x ∷ s) t = slash_last-append (x == b'/') s t

pub append-pop_back : (s : Text) → ends_with_slash s ≡ true → pop_back s ++ b'/' ∷ [] ≡ s
unfolding ends_with_slash pop_back
append-pop_back [] h = cc
append-pop_back (x ∷ []) h = ap (λ c. c ∷ []) (sym ((==_iff x b'/').0 h))
append-pop_back (x ∷ y ∷ s) h = ap (◌∷◌ x) (append-pop_back (y ∷ s) h)

-- No character of the text is one of the three that the source excludes.
abbrev pub IsPlain : Text → Type 0
IsPlain = All (λ x. (x ≢ b'~') × (x ≢ b' ') × (x ≢ b'@'))

-- Nowhere in the text do two slashes stand side by side.
abbrev pub HasNoDoubleSlash : Text → Type 0
HasNoDoubleSlash s = (pre post : Text) → s ≢ (pre ++ (b'/' ∷ (b'/' ∷ post)))

pub All-IsPlain :
    (s : Text)
    → has_char b'~' s ≡ false
    → has_char b' ' s ≡ false
    → has_char b'@' s ≡ false
    → IsPlain s
unfolding has_char
All-IsPlain [] a b c = tt
All-IsPlain (x ∷ s) a b c = ground (arith, All-IsPlain s)

pub plain_none :
    (s : Text)
    → IsPlain s
    → (has_char b'~' s ≡ false) × (has_char b' ' s ≡ false) × (has_char b'@' s ≡ false)
unfolding has_char
plain_none [] p = (refl, refl, refl)
plain_none (x ∷ s) p = ground (arith, plain_none s p.1)

no_double_slash : (s : Text) → has_double_slash false s ≡ false → HasNoDoubleSlash s
unfolding has_double_slash
no_double_slash s h pre post e =
    let two : Text = b'/' ∷ b'/' ∷ post in
    let clear : has_double_slash false (pre ++ two) ≡ false =
      ap (has_double_slash false) (sym e) ∙ h in
    ground (arith, has_double_slash-append false pre two)

find_double_slash :
    (s : Text)
    → has_double_slash false s ≡ true
    → (pre : Text) × (post : Text) × (s ≡ pre ++ (b'/' ∷ (b'/' ∷ post)))
unfolding has_double_slash
find_double_slash [] h = cc
find_double_slash (x ∷ []) h = ground arith
find_double_slash (x ∷ y ∷ s) h = elim (Bool-cases (x == b'/' && y == b'/')) [
  | inl here ↦ ([], s, ground arith)
  | inr later ↦
      let (pre, post, e) = find_double_slash (y ∷ s) (ground arith) in (x ∷ pre, post, ap (◌∷◌ x) e)
]

double_slash_free : (s : Text) → HasNoDoubleSlash s → has_double_slash false s ≡ false
double_slash_free s h = elim (Bool-cases (has_double_slash false s)) [
  | inl found ↦ let (pre, post, e) = find_double_slash s found in absurd (h pre post e)
  | inr free ↦ free
]

pub namespace_tests :
    (ns : Text)
    → is_valid_namespace ns ≡ true
    → (text_eq ns (bytes "/") ≡ false)
      × (has_char b'~' ns ≡ false)
      × (has_char b' ' ns ≡ false)
      × (has_double_slash false ns ≡ false)
      × (has_char b'@' ns ≡ false)
unfolding is_valid_namespace
namespace_tests ns h = ground arith

pub is_valid_namespace_of :
    (ns : Text)
    → text_eq ns (bytes "/") ≡ false
    → has_char b'~' ns ≡ false
    → has_char b' ' ns ≡ false
    → has_double_slash false ns ≡ false
    → has_char b'@' ns ≡ false
    → is_valid_namespace ns ≡ true
unfolding is_valid_namespace
is_valid_namespace_of ns a b c d e = rw (a, b, c, d, e)

-- `IsValidNamespace` accepts a text exactly when it is not the root alone, holds no tilde, space or at
-- sign, and has no two slashes side by side. So it accepts every other byte, also those that are neither
-- alphanumeric nor a slash, which the comment in the header leaves out.
pub is_valid_namespace_iff :
    (ns : Text)
    → (is_valid_namespace ns ≡ true) ↔ ((ns ≢ bytes "/") × IsPlain ns × HasNoDoubleSlash ns)
is_valid_namespace_iff ns = (
  λ h.
      let t = namespace_tests ns h in
      (
        λ e. ground (arith, text_eq_iff ns (bytes "/")),
        All-IsPlain ns t.1 t.2 t.4,
        no_double_slash ns t.3,
      ),
  λ h.
      let p = plain_none ns h.1 in
      is_valid_namespace_of ns (ground (arith, text_eq_iff ns (bytes "/"))) p.0 p.1
        (double_slash_free ns h.2) p.2,
)
