-- ===== src/TopicUtils/Names.antt =====
-- The shape of the full names that `TopicUtils::GetFullyQualifiedName` puts together.
use ign_transport_git.Base.{
  true, false, ◌&&◌, ◌≡◌, refl, [], ◌∷◌, ◌++◌, Text, arith, Bool-cases, inl, inr,
}
use ign_transport_git.TopicUtils.{
  has_char, has_double_slash, is_valid_namespace, starts_with_slash, ends_with_slash, pop_back,
  drop_trailing_slash, normal_ns, add_leading_slash, add_trailing_slash,
}
use ign_transport_git.TopicUtils.Validity.{
  has_char-append, has_double_slash-append, has_double_slash_after, slash_last, slash_last-append,
  ends_with_slash_lem, append-pop_back, namespace_tests,
}

-- No excluded character, and no two slashes side by side.
pub record IsClean (s : Text) : Type 0 where
  pub tilde : has_char b'~' s ≡ false
  pub space : has_char b' ' s ≡ false
  pub at_sign : has_char b'@' s ≡ false
  pub slashes : has_double_slash false s ≡ false

pub IsClean-is_valid_namespace : (s : Text) → is_valid_namespace s ≡ true → IsClean s
IsClean-is_valid_namespace s h =
    let t = namespace_tests s h in record { tilde = t.1; space = t.2; at_sign = t.4; slashes = t.3 }

-- Two clean texts join to one where not both of the facing characters are slashes.
pub append-IsClean :
    (s t : Text)
    → IsClean s
    → IsClean t
    → (ends_with_slash s && starts_with_slash t) ≡ false
    → IsClean (s ++ t)
append-IsClean s t cs ct apart = record {
  tilde = ground (arith, has_char-append b'~' s t);
  space = ground (arith, has_char-append b' ' s t);
  at_sign = ground (arith, has_char-append b'@' s t);
  slashes =
      ground
        (arith, has_double_slash-append false s t, has_double_slash_after t, ends_with_slash_lem s);
}

-- A part in front of anything clean is clean.
prefix-IsClean : (s t : Text) → IsClean (s ++ t) → IsClean s
prefix-IsClean s t c = record {
  tilde = ground (arith, has_char-append b'~' s t);
  space = ground (arith, has_char-append b' ' s t);
  at_sign = ground (arith, has_char-append b'@' s t);
  slashes = ground (arith, has_double_slash-append false s t);
}

pub slash_starts : starts_with_slash (b'/' ∷ []) ≡ true
unfolding starts_with_slash
slash_starts = refl

pub slash-IsClean : IsClean (b'/' ∷ [])
unfolding has_char has_double_slash
slash-IsClean = record { tilde = refl; space = refl; at_sign = refl; slashes = refl }

pub drop_trailing_slash-IsClean : (s : Text) → IsClean s → IsClean (drop_trailing_slash s)
unfolding drop_trailing_slash
drop_trailing_slash-IsClean s c = elim (Bool-cases (ends_with_slash s)) [
  | inl e ↦ rw e (prefix-IsClean (pop_back s) (b'/' ∷ []) (rw (append-pop_back s e) c))
  | inr e ↦ rw e c
]

-- A clean text has one slash at its end at most.
pub ends-drop_trailing_slash :
    (s : Text) → IsClean s → ends_with_slash (drop_trailing_slash s) ≡ false
unfolding drop_trailing_slash
ends-drop_trailing_slash s c = elim (Bool-cases (ends_with_slash s)) [
  | inl e ↦ rw e (alone e)
  | inr e ↦ rw e e
]
  where
    alone : ends_with_slash s ≡ true → ends_with_slash (pop_back s) ≡ false
    alone e =
        let whole : has_double_slash false (pop_back s ++ b'/' ∷ []) ≡ false =
          rw (append-pop_back s e) c.slashes in
        ground (
          arith,
          has_double_slash-append false (pop_back s) (b'/' ∷ []),
          has_double_slash_after (b'/' ∷ []),
          ends_with_slash_lem (pop_back s),
          slash_starts,
        )

add_trailing_slash-IsClean : (ns : Text) → IsClean ns → IsClean (add_trailing_slash ns)
unfolding add_trailing_slash
add_trailing_slash-IsClean ns c = elim (Bool-cases (ends_with_slash ns)) [
  | inl e ↦ rw e c
  | inr e ↦ rw e (append-IsClean ns (b'/' ∷ []) c slash-IsClean (rw e))
]

pub add_leading_slash-IsClean : (ns : Text) → IsClean ns → IsClean (add_leading_slash ns)
unfolding add_leading_slash
add_leading_slash-IsClean ns c = elim (Bool-cases (starts_with_slash ns)) [
  | inl e ↦ rw e c
  | inr e ↦ rw e (append-IsClean (b'/' ∷ []) ns slash-IsClean c (ground (arith, e)))
]

pub normal_ns-IsClean : (ns : Text) → IsClean ns → IsClean (normal_ns ns)
unfolding normal_ns
normal_ns-IsClean ns c = add_leading_slash-IsClean _ (add_trailing_slash-IsClean ns c)

ends-add_trailing_slash : (ns : Text) → ends_with_slash (add_trailing_slash ns) ≡ true
unfolding add_trailing_slash
ends-add_trailing_slash ns = elim (Bool-cases (ends_with_slash ns)) [
  | inl e ↦ rw e e
  | inr e ↦
      rw (e, ends_with_slash_lem, slash_last-append false ns (b'/' ∷ []))
        (unfold slash_last in refl)
]

ends-add_leading_slash :
    (ns : Text) → ends_with_slash ns ≡ true → ends_with_slash (add_leading_slash ns) ≡ true
unfolding add_leading_slash ends_with_slash
ends-add_leading_slash [] h = cc
ends-add_leading_slash (x ∷ ns) h = ground arith

starts-add_leading_slash : (ns : Text) → starts_with_slash (add_leading_slash ns) ≡ true
unfolding add_leading_slash starts_with_slash
starts-add_leading_slash ns = ground arith

pub normal_ns_slashes :
    (ns : Text)
    → (starts_with_slash (normal_ns ns) ≡ true) × (ends_with_slash (normal_ns ns) ≡ true)
unfolding normal_ns
normal_ns_slashes ns =
    (starts-add_leading_slash _, ends-add_leading_slash _ (ends-add_trailing_slash ns))
