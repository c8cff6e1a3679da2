-- ===== src/Base/Map.antt =====
-- `std::map<std::string, V>`: the entries in the order of their keys.
use mathlib.Core.Bool.{Bool, true, false}
use mathlib.Core.List.{List, [], ◌∷◌, map}
use mathlib.Core.Option.{Option, none, some}
use mathlib.Core.Logic.{inl, inr}
use mathlib.Core.Path.{◌≡◌, refl, subst}
use native.Mathlib.Omega.{arith}
use ign_transport_git.Base.Tests.{if◌then◌else◌, is_some, get_or, Bool-cases, Option-cases}
use ign_transport_git.Base.Lists.{is_empty}
use ign_transport_git.Base.Str.{
  Text, text_eq, text_lt, text_eq_iff, text_lt_irrefl, text_lt_trans, text_lt_connex,
}

abbrev pub Map {ℓ} : Type ℓ → Type ℓ
Map V = List (Text × V)

module _ {ℓ} {V : Type ℓ} where
  unfoldable pub find : Text → Map V → Option V
  find k [] = none
  find k ((j, v) ∷ m) = if text_eq j k then some v else find k m

  -- `m.find(k) != m.end()`.
  abbrev pub contains : Text → Map V → Bool
  contains k m = is_some (find k m)

  -- `m[k] = v`.
  unfoldable pub insert : Text → V → Map V → Map V
  insert k v [] = (k, v) ∷ []
  insert k v ((j, w) ∷ m) =
      let rest = insert k v m in
      if text_eq j k then (k, v) ∷ m else if text_lt k j then (k, v) ∷ (j, w) ∷ m else (j, w) ∷ rest

  -- `m.insert(std::make_pair(k, v))`, which leaves an entry that is there already.
  unfoldable pub insert_new : Text → V → Map V → Map V
  insert_new k v m = if contains k m then m else insert k v m

  -- `m.erase(k)`.
  unfoldable pub erase : Text → Map V → Map V
  erase k [] = []
  erase k ((j, v) ∷ m) = let rest = erase k m in if text_eq j k then rest else (j, v) ∷ rest

  abbrev pub keys : Map V → List Text
  keys = map (λ e. e.0)

  abbrev pub Above : Text → Map V → Type 0
  Above k [] = Unit
  Above k ((j, v) ∷ m) = (text_lt k j ≡ true) × Above k m

  -- The keys rise strictly.
  abbrev pub IsSorted : Map V → Type 0
  IsSorted [] = Unit
  IsSorted ((k, v) ∷ m) = Above k m × IsSorted m

  -- Every value satisfies the predicate.
  abbrev pub Values {κ} : (V → Type κ) → Map V → Type κ
  Values P [] = Unit
  Values P ((k, v) ∷ m) = P v × Values P m

module _ {ℓ} {V : Type ℓ} where
  pub find-insert :
      (j k : Text) (v : V) (m : Map V)
      → find j (insert k v m) ≡ (if text_eq k j then some v else find j m)
  unfolding find insert
  find-insert j k v [] = refl
  find-insert j k v ((i, w) ∷ m) =
      ground (arith, text_eq_iff k j, text_eq_iff i k, text_eq_iff i j, find-insert j k v m)

  pub find-erase :
      (j k : Text) (m : Map V) → find j (erase k m) ≡ (if text_eq k j then none else find j m)
  unfolding find erase
  find-erase j k [] = ground arith
  find-erase j k ((i, w) ∷ m) =
      ground (arith, text_eq_iff k j, text_eq_iff i k, text_eq_iff i j, find-erase j k m)

  Above-trans : (j k : Text) (m : Map V) → text_lt j k ≡ true → Above k m → Above j m
  Above-trans j k [] h a = tt
  Above-trans j k ((i, w) ∷ m) h a = (text_lt_trans j k i h a.0, Above-trans j k m h a.1)

  Above-insert :
      (j k : Text) (v : V) (m : Map V) → text_lt j k ≡ true → Above j m → Above j (insert k v m)
  unfolding insert
  Above-insert j k v [] h a = (h, tt)
  Above-insert j k v ((i, w) ∷ m) h a = ground (arith, Above-insert j k v m h a.1)

  pub insert-IsSorted : (k : Text) (v : V) (m : Map V) → IsSorted m → IsSorted (insert k v m)
  unfolding insert
  insert-IsSorted k v [] s = (tt, tt)
  insert-IsSorted k v ((i, w) ∷ m) s = ground (
    arith,
    text_eq_iff i k,
    text_lt_connex i k,
    text_lt_connex k i,
    text_eq_iff k i,
    Above-insert i k v m,
    Above-trans k i m,
    insert-IsSorted k v m s.1,
  )

  Above-erase : (j k : Text) (m : Map V) → Above j m → Above j (erase k m)
  unfolding erase
  Above-erase j k [] a = tt
  Above-erase j k ((i, w) ∷ m) a = ground (arith, Above-erase j k m a.1)

  pub erase-IsSorted : (k : Text) (m : Map V) → IsSorted m → IsSorted (erase k m)
  unfolding erase
  erase-IsSorted k [] s = tt
  erase-IsSorted k ((i, w) ∷ m) s = ground (arith, Above-erase i k m s.0, erase-IsSorted k m s.1)

  pub find-Above : (k : Text) (m : Map V) → Above k m → find k m ≡ none
  unfolding find
  find-Above k [] a = refl
  find-Above k ((i, w) ∷ m) a =
      ground (arith, text_eq_iff i k, text_lt_irrefl k, find-Above k m a.1)

  pub insert-Values {κ} :
      (P : V → Type κ) (k : Text) (v : V) (m : Map V) → P v → Values P m → Values P (insert k v m)
  unfolding insert
  insert-Values P k v [] p h = (p, tt)
  insert-Values P k v ((i, w) ∷ m) p h = ground (arith, insert-Values P k v m p h.1)

  pub erase-Values {κ} : (P : V → Type κ) (k : Text) (m : Map V) → Values P m → Values P (erase k m)
  unfolding erase
  erase-Values P k [] h = tt
  erase-Values P k ((i, w) ∷ m) h = ground (arith, erase-Values P k m h.1)

  pub find-Values {κ} :
      (P : V → Type κ) (k : Text) (m : Map V) {v : V} → Values P m → find k m ≡ some v → P v
  unfolding find
  find-Values P k [] h e = cc
  find-Values P k ((i, w) ∷ m) h e = elim (Bool-cases (text_eq i k)) [
    | inl same ↦ subst P (ground arith) h.0
    | inr other ↦ find-Values P k m h.1 (ground arith)
  ]

  pub erase-insert : (k : Text) (v : V) (m : Map V) → erase k (insert k v m) ≡ erase k m
  unfolding erase insert
  erase-insert k v [] = ground (arith, text_eq_iff k k)
  erase-insert k v ((i, w) ∷ m) = ground (arith, text_eq_iff k k, erase-insert k v m)

  pub insert-insert : (k : Text) (v w : V) (m : Map V) → insert k v (insert k w m) ≡ insert k v m
  unfolding insert
  insert-insert k v w [] = ground (arith, text_eq_iff k k)
  insert-insert k v w ((i, x) ∷ m) =
      ground (arith, text_eq_iff k k, text_lt_irrefl k, insert-insert k v w m)

  pub insert_nonempty : (k : Text) (v : V) (m : Map V) → is_empty (insert k v m) ≡ false
  unfolding insert
  insert_nonempty k v [] = refl
  insert_nonempty k v ((i, w) ∷ m) = ground arith

  pub find-insert_new :
      (j k : Text) (v : V) (m : Map V)
      → find j (insert_new k v m) ≡ (if text_eq k j then some (get_or (find k m) v) else find j m)
  unfolding insert_new
  find-insert_new j k v m = elim (Option-cases (find k m)) [
    | inl e ↦ rw (e, find-insert)
    | inr (w, e) ↦ rw e (elim (Bool-cases (text_eq k j)) [
      | inl same ↦ rw (same, ← (text_eq_iff k j).0 same, e)
      | inr other ↦ rw other
    ])
  ]

-- Maps whose values are lists: the entry of a key, empty where there is none.
module _ {ℓ} {A : Type ℓ} where
  abbrev pub entry : Text → Map (List A) → List A
  entry k m = get_or (find k m) []

  pub entry-insert :
      (k k' : Text) (v : List A) (m : Map (List A))
      → entry k' (insert k v m) ≡ (if text_eq k k' then v else entry k' m)
  entry-insert k k' v m = rw find-insert (ground arith)

  -- `if (m.find(k) == m.end()) m[k] = {};`
  abbrev pub create : Text → Map (List A) → Map (List A)
  create k m = if contains k m then m else insert k [] m

  pub insert-create :
      (k : Text) (v : List A) (m : Map (List A)) → insert k v (create k m) ≡ insert k v m
  insert-create k v m = elim (Option-cases (find k m)) [
    | inl e ↦ rw (e, insert-insert)
    | inr (w, e) ↦ rw e
  ]

  pub entry-create : (k k' : Text) (m : Map (List A)) → entry k' (create k m) ≡ entry k' m
  entry-create k k' m = elim (Option-cases (find k m)) [
    | inl e ↦
        rw (e, entry-insert k k' [] m)
          (elim (Bool-cases (text_eq k k')) [
            | inl same ↦ rw (same, ← (text_eq_iff k k').0 same, e)
            | inr other ↦ rw other
          ])
    | inr (w, e) ↦ rw e
  ]
