-- ===== src/Node/Lifetime/Names.antt =====
-- The names that a node of src/Node.cc keeps.
use ign_transport_git.Base.{
  ◌≡◌, refl, ap, ◌∙◌, some, List, [], ◌∷◌, Text, text_eq_refl, arith, Option-cases, inl, inr,
}
use ign_transport_git.Base.Map.{Map, find, insert, insert_new, erase, keys}
use ign_transport_git.Handlers.{topic_name}
use ign_transport_git.Handlers.Names.{get_fully_qualified_name-topic_name}
use ign_transport_git.Node.{Node, full_name}

-- Every key satisfies the predicate.
module _ {V : Type 0} where
  abbrev pub Keys : (Text → Type 0) → Map V → Type 0
  Keys P [] = Unit
  Keys P ((k, v) ∷ m) = P k × Keys P m

  -- Erasing one key after another.
  abbrev pub erase_all : List Text → Map V → Map V
  erase_all [] m = m
  erase_all (k ∷ ks) m = erase_all ks (erase k m)

module _ {V : Type 0} (P : Text → Type 0) where
  insert-Keys : (k : Text) (v : V) (m : Map V) → P k → Keys P m → Keys P (insert k v m)
  unfolding insert
  insert-Keys k v [] p h = (p, tt)
  insert-Keys k v ((j, w) ∷ m) p h = ground (arith, insert-Keys k v m p h.1)

  pub insert_new-Keys : (k : Text) (v : V) (m : Map V) → P k → Keys P m → Keys P (insert_new k v m)
  unfolding insert_new
  insert_new-Keys k v m p h = elim (Option-cases (find k m)) [
    | inl e ↦ rw e (insert-Keys k v m p h)
    | inr (w, e) ↦ rw e h
  ]

  pub erase-Keys : (k : Text) (m : Map V) → Keys P m → Keys P (erase k m)
  unfolding erase
  erase-Keys k [] h = tt
  erase-Keys k ((j, w) ∷ m) h = ground (arith, erase-Keys k m h.1)

module _ {V : Type 0} where
  erase-erase : (j k : Text) (m : Map V) → erase j (erase k m) ≡ erase k (erase j m)
  unfolding erase
  erase-erase j k [] = refl
  erase-erase j k ((i, v) ∷ m) = ground (arith, erase-erase j k m)

  erase_all-erase :
      (k : Text) (ks : List Text) (m : Map V) → erase_all ks (erase k m) ≡ erase k (erase_all ks m)
  erase_all-erase k [] m = refl
  erase_all-erase k (j ∷ ks) m =
      ap (erase_all ks) (erase-erase j k m) ∙ erase_all-erase k ks (erase j m)

  erase_head : (k : Text) (v : V) (m : Map V) → erase k ((k, v) ∷ m) ≡ erase k m
  unfolding erase
  erase_head k v m = rw (text_eq_refl k)

  pub erase_all-keys : (m : Map V) → erase_all (keys m) m ≡ []
  unfolding erase
  erase_all-keys [] = refl
  erase_all-keys ((k, v) ∷ m) =
      ap (erase_all (keys m)) (erase_head k v m)
      ∙ erase_all-erase k (keys m) m
      ∙ ap (erase k) (erase_all-keys m)

-- The name without its partition stands for the full name, in this node.
abbrev pub IsOwn : Node → Text → Type 0
IsOwn n k = full_name (topic_name k) n ≡ some k

abbrev pub AreOwn : Node → Type 0
AreOwn n =
    Keys (IsOwn n) n.topics_subscribed
    × Keys (IsOwn n) n.topics_advertised
    × Keys (IsOwn n) n.srvs_advertised

pub full_name-IsOwn :
    (topic : Text) (n : Node) {full : Text} → full_name topic n ≡ some full → IsOwn n full
full_name-IsOwn topic n h = get_fully_qualified_name-topic_name n.partition n.ns topic h
