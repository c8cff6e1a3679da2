-- ===== src/TopicStorage/Invariant.antt =====
-- The well-formedness of a storage of src/TopicStorage.cc, and its operations: keys in order and met
-- once, no topic without a process, no process without a publisher, no publisher twice.
use ign_transport_git.Base.{
  ℕ, ◌≡◌, refl, Bool, true, false, none, List, [], ◌∷◌, ◌++◌, is_empty, get_or, find_if, remove_if,
  All, All-remove_if, All-append, Text, text_eq_refl, text_eq_comm, arith, Bool-cases, Option-cases,
  inl, inr,
}
use ign_transport_git.Base.Map.{
  Map, find, insert, erase, Above, IsSorted, Values, insert-IsSorted, erase-IsSorted, insert-Values,
  erase-Values, find-Values, erase-insert, find-insert, insert-insert, insert_nonempty,
}
use ign_transport_git.TransportTypes.{Scope, Address, Addresses}
use ign_transport_git.TopicStorage.Spec.{created, is_known, add_address_cases}
use ign_transport_git.TopicStorage.{
  TopicStorage, same_publisher, push_address, add_address, put_back, del_from, del_address_by_node,
  erase_count, del_loop, del_addresses_by_proc,
}

-- No two publishers with the same address and node.
abbrev pub IsDistinct : List Address → Type 0
IsDistinct [] = Unit
IsDistinct (x ∷ v) = All (λ y. same_publisher x.addr x.n_uuid y ≡ false) v × IsDistinct v

abbrev pub IsValidList : List Address → Type 0
IsValidList v = (is_empty v ≡ false) × IsDistinct v

abbrev pub IsValidProcs : Addresses → Type 0
IsValidProcs m = IsSorted m × Values IsValidList m

abbrev pub IsValidEntry : Addresses → Type 0
IsValidEntry m = (is_empty m ≡ false) × IsValidProcs m

abbrev pub IsValid : TopicStorage → Type 0
IsValid s = IsSorted s × Values IsValidEntry s

remove_if-IsDistinct :
    (q : Address → Bool) (v : List Address) → IsDistinct v → IsDistinct (remove_if q v)
unfolding remove_if
remove_if-IsDistinct q [] d = tt
remove_if-IsDistinct q (x ∷ v) d = elim (Bool-cases (q x)) [
  | inl e ↦ rw e (remove_if-IsDistinct q v d.1)
  | inr e ↦ rw e (All-remove_if _ q v d.0, remove_if-IsDistinct q v d.1)
]

push_back-IsDistinct :
    (info : Address) (v : List Address)
    → find_if (same_publisher info.addr info.n_uuid) v ≡ none
    → IsDistinct v
    → IsDistinct (v ++ info ∷ [])
unfolding find_if
push_back-IsDistinct info [] e d = (tt, tt)
push_back-IsDistinct info (x ∷ v) e d =
    (All-append _ v (info ∷ []) d.0 (apart, tt), push_back-IsDistinct info v (ground arith) d.1)
  where
    apart : same_publisher x.addr x.n_uuid info ≡ false
    apart = ground (arith, text_eq_comm x.addr info.addr, text_eq_comm x.n_uuid info.n_uuid)

-- A map of lists in order, none of them empty and each with the property.
abbrev Filled : {A : Type 0} → (List A → Type 0) → Map (List A) → Type 0
Filled P m = IsSorted m × Values (λ w. (is_empty w ≡ false) × P w) m

put_back-Filled :
    {A : Type 0} (P : List A → Type 0) (k : Text) (v : List A) (m : Map (List A))
    → P v
    → Filled P m
    → Filled P (put_back k v m)
unfolding put_back
put_back-Filled P k [] m p h = rw erase-insert (erase-IsSorted k m h.0, erase-Values _ k m h.1)
put_back-Filled P k (x ∷ v) m p h = (insert-IsSorted k _ m h.0, insert-Values _ k _ m (refl, p) h.1)

insert-Filled :
    {A : Type 0} (P : List A → Type 0) (k : Text) (v : List A) (m : Map (List A))
    → is_empty v ≡ false
    → P v
    → Filled P m
    → Filled P (insert k v m)
insert-Filled P k v m e p h = (insert-IsSorted k v m h.0, insert-Values _ k v m (e, p) h.1)

-- The entry of a key, or nothing, has the property if the empty list has it.
entry-Filled :
    {A : Type 0} (P : List A → Type 0) (k : Text) (m : Map (List A))
    → P []
    → Filled P m
    → P (get_or (find k m) [])
entry-Filled P k m p h = elim (Option-cases (find k m)) [
  | inl e ↦ rw e p
  | inr (v, e) ↦ rw e (find-Values _ k m h.1 e).1
]

push_back_nonempty : (v : List Address) (x : Address) → is_empty (v ++ x ∷ []) ≡ false
push_back_nonempty [] x = refl
push_back_nonempty (y ∷ v) x = refl

push_address-IsValid :
    (t p : Text) (info : Address) (s : TopicStorage)
    → find_if (same_publisher info.addr info.n_uuid) (get_or (find p (get_or (find t s) [])) [])
      ≡ none
    → IsValid s
    → IsValid (push_address t p info s)
unfolding push_address
push_address-IsValid t p info s fresh h =
    let m : Addresses = get_or (find t s) [] in
    let procs : IsValidProcs m = entry-Filled IsValidProcs t s (tt, tt) h in
    let v : List Address = get_or (find p m) [] in
    let list : IsDistinct v = entry-Filled IsDistinct p m tt procs in
    insert-Filled IsValidProcs t _ s (insert_nonempty p _ m)
      (insert-Filled IsDistinct p _ m (push_back_nonempty v info)
        (push_back-IsDistinct info v fresh list) procs)
      h

push_address-created :
    (t p : Text) (info : Address) (s : TopicStorage)
    → push_address t p info (created t s) ≡ push_address t p info s
unfolding push_address
push_address-created t p info s = elim (Option-cases (find t s)) [
  | inl e ↦ rw (e, find-insert, text_eq_refl, insert-insert)
  | inr (m, e) ↦ simp e
]

known_topic :
    (t p addr n : Text) (s : TopicStorage) → is_known t p addr n s ≡ true → created t s ≡ s
unfolding find_if find
known_topic t p addr n s h = ground arith

-- `AddAddress` keeps a storage well formed.
pub add_address-IsValid :
    (t addr ctrl p n : Text) (sc : Scope) (s : TopicStorage)
    → IsValid s
    → IsValid (add_address t addr ctrl p n sc s).0
add_address-IsValid t addr ctrl p n sc s h =
    rw (add_address_cases t addr ctrl p n sc s) (elim (Bool-cases (is_known t p addr n s)) [
      | inl e ↦ rw e (rw (known_topic t p addr n s e) h)
      | inr e ↦
          rw e (rw (push_address-created t p _ s) (push_address-IsValid t p _ s (ground arith) h))
    ])

-- `DelAddressByNode` keeps a storage well formed.
pub del_address_by_node-IsValid :
    (t p n : Text) (s : TopicStorage) → IsValid s → IsValid (del_address_by_node t p n s).0
unfolding del_address_by_node del_from
del_address_by_node-IsValid t p n s h = elim (Option-cases (find t s)) [
  | inl e ↦ rw (e, del_address_by_node) h
  | inr (m, e) ↦
      let procs : IsValidProcs m = (find-Values _ t s h.1 e).1 in
      elim (Option-cases (find p m)) [
        | inl f ↦ rw (e, del_address_by_node) (rw f h)
        | inr (v, f) ↦
            let list : IsDistinct v = (find-Values _ p m procs.1 f).1 in
            rw (e, del_address_by_node)
              (rw f (
                put_back-Filled IsValidProcs t _ s
                  (put_back-Filled IsDistinct p _ m (remove_if-IsDistinct _ v list) procs) h))
      ]
]

del_loop-Above : (j p : Text) (s : TopicStorage) (c : ℕ) → Above j s → Above j (del_loop p s c).0
unfolding del_loop
del_loop-Above j p [] c a = tt
del_loop-Above j p ((t, m) ∷ s) c a = ground (arith, del_loop-Above j p s (erase_count p m) a.1)

del_loop-IsValid : (p : Text) (s : TopicStorage) (c : ℕ) → IsValid s → IsValid (del_loop p s c).0
unfolding del_loop
del_loop-IsValid p [] c h = (tt, tt)
del_loop-IsValid p ((t, m) ∷ s) c h =
    let rest = del_loop-IsValid p s (erase_count p m) (h.0.1, h.1.1) in
    elim (Bool-cases (is_empty (erase p m))) [
      | inl e ↦ rw e rest
      | inr e ↦ rw e (
        (del_loop-Above t p s (erase_count p m) h.0.0, rest.0),
        ((e, (erase-IsSorted p m h.1.0.1.0, erase-Values _ p m h.1.0.1.1)), rest.1),
      )
    ]

-- `DelAddressesByProc` keeps a storage well formed.
pub del_addresses_by_proc-IsValid :
    (p : Text) (s : TopicStorage) → IsValid s → IsValid (del_addresses_by_proc p s).0
unfolding del_addresses_by_proc
del_addresses_by_proc-IsValid p s h = del_loop-IsValid p s 0 h
