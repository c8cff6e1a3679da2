-- ===== src/TopicUtils/FullNames.antt =====
-- The results of `TopicUtils::GetFullyQualifiedName`.
use mathlib.Core.Path.{ap₂}
use ign_transport_git.Base.{
  true, false, ◌||◌, ◌==◌, ◌≡◌, refl, sym, ap, ◌∙◌, [], ◌∷◌, ◌++◌, some, is_empty, Text, text_eq,
  bytes, arith, Bool-cases, inl, inr,
}
use ign_transport_git.TopicUtils.{
  is_valid_namespace, is_valid_topic, starts_with_slash, ends_with_slash, pop_back,
  drop_trailing_slash, normal_partition, normal_ns, relative_name, root_partition,
  get_fully_qualified_name,
}
use ign_transport_git.TopicUtils.Validity.{
  slash_last, slash_last-append, ends_with_slash_lem, ends_with_slash-cons, is_valid_namespace_of,
}
use ign_transport_git.TopicUtils.Names.{
  IsClean, IsClean-is_valid_namespace, append-IsClean, drop_trailing_slash-IsClean,
  ends-drop_trailing_slash, normal_ns-IsClean, normal_ns_slashes, slash-IsClean,
}

-- Starts with a slash, ends with none, holds nothing that is excluded.
pub record IsAbsolute (s : Text) : Type 0 where
  pub clean : IsClean s
  pub starts : starts_with_slash s ≡ true
  pub ends : ends_with_slash s ≡ false

ends-append : (s t : Text) → is_empty t ≡ false → ends_with_slash (s ++ t) ≡ ends_with_slash t
ends-append s [] h = cc
ends-append s (x ∷ t) h =
    ends_with_slash_lem (s ++ x ∷ t)
    ∙ slash_last-append false s (x ∷ t)
    ∙ (unfold slash_last in sym (ends_with_slash-cons x t))

starts-append : (s t : Text) → starts_with_slash s ≡ true → starts_with_slash (s ++ t) ≡ true
unfolding starts_with_slash
starts-append [] t h = cc
starts-append (x ∷ s) t h = h

topic-IsClean : (t : Text) → is_valid_topic t ≡ true → IsClean t
unfolding is_valid_topic
topic-IsClean t h = IsClean-is_valid_namespace t (ground arith)

-- A valid topic is more than slashes.
drop_trailing_slash_nonempty :
    (t : Text) → is_valid_topic t ≡ true → is_empty (drop_trailing_slash t) ≡ false
unfolding is_valid_topic is_valid_namespace drop_trailing_slash ends_with_slash pop_back text_eq
drop_trailing_slash_nonempty [] h = ground arith
drop_trailing_slash_nonempty (x ∷ []) h = ground arith
drop_trailing_slash_nonempty (x ∷ y ∷ t) h = ground arith

starts-drop_trailing_slash :
    (t : Text)
    → is_empty (drop_trailing_slash t) ≡ false
    → starts_with_slash (drop_trailing_slash t) ≡ starts_with_slash t
unfolding drop_trailing_slash ends_with_slash pop_back starts_with_slash
starts-drop_trailing_slash [] h = refl
starts-drop_trailing_slash (x ∷ []) h = ground arith
starts-drop_trailing_slash (x ∷ y ∷ t) h = ground arith

-- The part behind the partition is absolute, whatever the namespace and the topic.
pub relative_name-IsAbsolute :
    (ns t : Text)
    → is_valid_namespace ns ≡ true
    → is_valid_topic t ≡ true
    → IsAbsolute (relative_name (normal_ns ns) (drop_trailing_slash t))
unfolding relative_name
relative_name-IsAbsolute ns t hn ht =
    let c : IsClean (drop_trailing_slash t) = drop_trailing_slash-IsClean t (topic-IsClean t ht) in
    let e : ends_with_slash (drop_trailing_slash t) ≡ false =
      ends-drop_trailing_slash t (topic-IsClean t ht) in
    let full = drop_trailing_slash_nonempty t ht in
    let cn : IsClean (normal_ns ns) = normal_ns-IsClean ns (IsClean-is_valid_namespace ns hn) in
    elim (Bool-cases (starts_with_slash (drop_trailing_slash t))) [
      | inl a ↦ rw a (record { clean = c; starts = a; ends = e })
      | inr r ↦ rw r (record {
        clean = append-IsClean (normal_ns ns) _ cn c (ground arith);
        starts = starts-append (normal_ns ns) _ (normal_ns_slashes ns).0;
        ends = ends-append (normal_ns ns) _ full ∙ e;
      })
    ]

not_root : (s : Text) → ends_with_slash s ≡ false → text_eq s (bytes "/") ≡ false
unfolding ends_with_slash text_eq
not_root [] e = refl
not_root (x ∷ []) e = ground arith
not_root (x ∷ y ∷ s) e = ground arith

pub clean_valid : (s : Text) → IsClean s → ends_with_slash s ≡ false → is_valid_namespace s ≡ true
clean_valid s c e = is_valid_namespace_of s (not_root s e) c.tilde c.space c.slashes c.at_sign

pub is_valid_topic-IsAbsolute : (s : Text) → IsAbsolute s → is_valid_topic s ≡ true
unfolding is_valid_topic starts_with_slash
is_valid_topic-IsAbsolute [] a = ground (arith, a.starts)
is_valid_topic-IsAbsolute (x ∷ s) a = rw (clean_valid (x ∷ s) a.clean a.ends)

-- The partition part is empty or absolute.
pub record IsPartition (s : Text) : Type 0 where
  pub clean : IsClean s
  pub starts : (is_empty s || starts_with_slash s) ≡ true
  pub ends : ends_with_slash s ≡ false

root_partition-IsClean : (p : Text) → IsClean p → IsClean (root_partition p)
unfolding root_partition starts_with_slash
root_partition-IsClean [] c = c
root_partition-IsClean (x ∷ p) c = elim (Bool-cases (x == b'/')) [
  | inl e ↦ rw e c
  | inr e ↦ rw e (append-IsClean (b'/' ∷ []) (x ∷ p) slash-IsClean c (ground arith))
]

root_partition_starts :
    (p : Text) → (is_empty (root_partition p) || starts_with_slash (root_partition p)) ≡ true
unfolding root_partition starts_with_slash
root_partition_starts [] = refl
root_partition_starts (x ∷ p) = ground arith

drop_trailing_slash_starts :
    (q : Text)
    → (is_empty q || starts_with_slash q) ≡ true
    → (is_empty (drop_trailing_slash q) || starts_with_slash (drop_trailing_slash q)) ≡ true
unfolding drop_trailing_slash ends_with_slash pop_back starts_with_slash
drop_trailing_slash_starts [] h = refl
drop_trailing_slash_starts (x ∷ []) h = ground arith
drop_trailing_slash_starts (x ∷ y ∷ q) h = ground arith

pub normal_partition-IsPartition :
    (p : Text) → is_valid_namespace p ≡ true → IsPartition (normal_partition p)
unfolding normal_partition
normal_partition-IsPartition p h =
    let c : IsClean (root_partition p) =
      root_partition-IsClean p (IsClean-is_valid_namespace p h) in
    record {
      clean = drop_trailing_slash-IsClean _ c;
      starts = drop_trailing_slash_starts _ (root_partition_starts p);
      ends = ends-drop_trailing_slash _ c;
    }

-- The two parts of a full name, and how it is put together.
abbrev pub join : Text → Text → Text
join partition topic = (b'@' ∷ partition ++ b'@' ∷ []) ++ topic

pub valid_all :
    (p ns t : Text) {name : Text}
    → get_fully_qualified_name p ns t ≡ some name
    → (is_valid_namespace p ≡ true)
      × (is_valid_namespace ns ≡ true)
      × (is_valid_topic t ≡ true)
      × (name ≡ join (normal_partition p) (relative_name (normal_ns ns) (drop_trailing_slash t)))
unfolding get_fully_qualified_name
valid_all p ns t h = ground arith

pub valid_name :
    (p ns t : Text)
    → is_valid_namespace p ≡ true
    → is_valid_namespace ns ≡ true
    → is_valid_topic t ≡ true
    → get_fully_qualified_name p ns t
      ≡ some (join (normal_partition p) (relative_name (normal_ns ns) (drop_trailing_slash t)))
unfolding get_fully_qualified_name
valid_name p ns t a b c = rw (a, b, c)

-- Every full name is `@partition@topic`, with a partition that is empty or absolute and a topic
-- that is absolute and valid; neither holds an at sign, a space, a tilde or a double slash.
pub get_fully_qualified_name_shape :
    (p ns t : Text) {name : Text}
    → get_fully_qualified_name p ns t ≡ some name
    → (partition : Text) × (topic : Text) × (name ≡ (b'@' ∷ partition ++ b'@' ∷ []) ++ topic)
      × IsPartition partition
      × IsAbsolute topic
      × (is_valid_topic topic ≡ true)
get_fully_qualified_name_shape p ns t h =
    let v = valid_all p ns t h in
    let a = relative_name-IsAbsolute ns t v.1 v.2 in
    (
      normal_partition p,
      relative_name (normal_ns ns) (drop_trailing_slash t),
      v.3,
      normal_partition-IsPartition p v.0,
      a,
      is_valid_topic-IsAbsolute _ a,
    )

pub relative_name_fixed :
    (ns s : Text) → IsAbsolute s → relative_name ns (drop_trailing_slash s) ≡ s
unfolding relative_name drop_trailing_slash
relative_name_fixed ns s a = rw (a.ends, a.starts)

pub normal_partition_fixed : (s : Text) → IsPartition s → normal_partition s ≡ s
unfolding normal_partition drop_trailing_slash root_partition starts_with_slash
normal_partition_fixed [] h = unfold ends_with_slash in refl
normal_partition_fixed (x ∷ s) h = ground (arith, h.starts, h.ends)

-- A full name's own parts give the name again, in every valid namespace.
pub get_fully_qualified_name_fixed :
    (p ns t ns' : Text) {name : Text}
    → get_fully_qualified_name p ns t ≡ some name
    → is_valid_namespace ns' ≡ true
    → get_fully_qualified_name
        (normal_partition p)
        ns'
        (relative_name (normal_ns ns) (drop_trailing_slash t))
      ≡ some name
get_fully_qualified_name_fixed p ns t ns' h valid =
    let v = valid_all p ns t h in
    let a = relative_name-IsAbsolute ns t v.1 v.2 in
    let part = normal_partition-IsPartition p v.0 in
    valid_name _ ns' _ (clean_valid _ part.clean part.ends) valid (is_valid_topic-IsAbsolute _ a)
    ∙ ap some (ap₂ join (normal_partition_fixed _ part) (relative_name_fixed _ _ a) ∙ sym v.3)
