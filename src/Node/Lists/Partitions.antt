-- ===== src/Node/Lists/Partitions.antt =====
-- Which of the full names that discovery knows `GetTopicList` and `GetServiceList` of src/Node.cc give.
use ign_transport_git.Base.{
  ℕ, false, not, ◌&&◌, ◌==◌, ◌≡◌, ◌≢◌, refl, ap, ◌∙◌, some, List, [], ◌∷◌, ◌++◌, map, drop, length,
  length-drop, if◌then◌else◌, Text, text_eq, text_eq_iff, text_eq_refl, arith, ==_iff, Bool-cases,
  inl, inr,
}
use ign_transport_git.TopicUtils.{
  has_char, starts_with_slash, ends_with_slash, normal_partition, root_partition,
  drop_trailing_slash, pop_back, get_fully_qualified_name,
}
use ign_transport_git.TopicUtils.FullNames.{valid_all, relative_name-IsAbsolute}
use ign_transport_git.Handlers.{topic_name}
use ign_transport_git.Handlers.Names.{has_char_middle}
use ign_transport_git.Discovery.Settings
use ign_transport_git.NodeShared.{NodeShared}
use ign_transport_git.Node.{Node}
use ign_transport_git.Node.Lists.{before_last, partition_of, own_names, get_topic_list}

before_last-append :
    (c : ℕ) (s t : Text) → has_char c t ≡ false → before_last c ((s ++ c ∷ []) ++ t) ≡ s
unfolding before_last
before_last-append c [] t h = ground (arith, ==_iff c c)
before_last-append c (x ∷ s) t h = rw (has_char_middle c s t, before_last-append c s t h)

-- The partition of a full name, as the lists read it.
pub partition_of-get_fully_qualified_name :
    (p ns t : Text) {name : Text}
    → get_fully_qualified_name p ns t ≡ some name
    → partition_of name ≡ some (drop 1 (normal_partition p))
unfolding partition_of
partition_of-get_fully_qualified_name p ns t h =
    let v = valid_all p ns t h in
    let a = relative_name-IsAbsolute ns t v.1 v.2 in
    ap partition_of v.3 ∙ ap (λ s. some (drop 1 s)) (before_last-append b'@' _ _ a.clean.at_sign)

-- Every name is a full name in the partition.
abbrev pub AreIn : Text → List Text → Type 0
AreIn p [] = Unit
AreIn p (name ∷ names) =
    ((ns : Text) × (t : Text) × (get_fully_qualified_name p ns t ≡ some name)) × AreIn p names

own_names-cons :
    (p q name : Text) (names : List Text) {r : List Text}
    → partition_of name ≡ some q
    → own_names p names ≡ some r
    → own_names p (name ∷ names) ≡ some (if text_eq q p then topic_name name ∷ r else r)
unfolding own_names
own_names-cons p q name names e f = rw (e, own_names) (rw f)

own_names_lem :
    (p : Text) (names : List Text)
    → AreIn p names
    → own_names p names
      ≡ some (if text_eq (drop 1 (normal_partition p)) p then map topic_name names else [])
unfolding own_names
own_names_lem p [] h = elim (Bool-cases (text_eq (drop 1 (normal_partition p)) p)) [
  | inl e ↦ rw e
  | inr e ↦ rw e
]
own_names_lem p (name ∷ names) ((ns, t, h), hs) =
    own_names-cons p _ name names (partition_of-get_fully_qualified_name p ns t h)
      (own_names_lem p names hs)
    ∙ elim (Bool-cases (text_eq (drop 1 (normal_partition p)) p)) [ inl e ↦ rw e | inr e ↦ rw e ]

length-pop_back : (x : ℕ) (s : Text) → length (pop_back (x ∷ s)) ≡ length s
unfolding pop_back
length-pop_back x [] = refl
length-pop_back x (y ∷ s) = ground (arith, length-pop_back y s)

longer : (s t : Text) → length s ≢ length t → text_eq s t ≡ false
longer s t h = elim (Bool-cases (text_eq s t)) [
  | inl e ↦ absurd (h (ap length ((text_eq_iff s t).0 e)))
  | inr e ↦ e
]

-- A partition is what its full names hold if it was given without slashes at its ends.
plain_lem :
    (p : Text)
    → text_eq (drop 1 (normal_partition p)) p
      ≡ (not (starts_with_slash p) && not (ends_with_slash p))
unfolding normal_partition drop_trailing_slash root_partition starts_with_slash ends_with_slash
    text_eq
plain_lem [] = refl
plain_lem (x ∷ p) = elim (Bool-cases (x == b'/')) [
  | inl e ↦ elim (Bool-cases (ends_with_slash (x ∷ p))) [
    | inl f ↦
        rw (e, f)
          (longer _ (x ∷ p) (omega (arith, length-drop 1 (pop_back (x ∷ p)), length-pop_back x p)))
    | inr f ↦ rw (e, f) (longer p (x ∷ p) (omega arith))
  ]
  | inr e ↦ elim (Bool-cases (ends_with_slash (x ∷ p))) [
    | inl f ↦
        rw (e, f)
          (longer _ (x ∷ p)
            (omega (arith, length-drop 1 (pop_back (b'/' ∷ x ∷ p)), length-pop_back b'/' (x ∷ p))))
    | inr f ↦ rw (e, f) (text_eq_refl (x ∷ p))
  ]
]

module _ {Msg : Type 0} where
  -- Where all topics that discovery knows have full names in the partition of the node, `GetTopicList`
  -- gives them all if the node's partition was given without a leading and without a trailing slash,
  -- and none if it was given with one of them.
  pub get_topic_list_of_partition :
      (n : Node) (s : NodeShared Msg)
      → AreIn n.partition (Settings.get_topic_list [] s.discovery)
      → get_topic_list n s
        ≡ some (
            if not (starts_with_slash n.partition) && not (ends_with_slash n.partition)
            then map topic_name (Settings.get_topic_list [] s.discovery)
            else [])
  unfolding get_topic_list
  get_topic_list_of_partition n s h =
      own_names_lem n.partition _ h
      ∙ ap (λ b. some (if b then map topic_name (Settings.get_topic_list [] s.discovery) else []))
          (plain_lem n.partition)
