-- ===== src/TopicStorage/Spec.antt =====
-- The storage seen as a function from a topic and a process to the list of its publishers, and
-- the operations of src/TopicStorage.cc on that function.
use mathlib.Core.List.{append-nil, append_assoc}
use ign_transport_git.Base.{
  ℕ, ◌-◌, ◌%◌, ◌^◌, ◌≡◌, refl, Bool, true, false, not, ◌&&◌, Option, none, some, List, [], ◌∷◌,
  ◌++◌, length, is_some, get_or, ltb, find_if, remove_if, is_empty-nil, if◌then◌else◌, Text,
  text_eq, text_eq_iff, arith, Bool-cases, Option-cases, inl, inr,
}
use ign_transport_git.Base.Map.{
  Map, find, contains, insert, erase, IsSorted, find-insert, find-erase, find-Above,
}
use ign_transport_git.TransportTypes.{Scope, Address, Addresses}
use ign_transport_git.TopicStorage.{
  TopicStorage, same_publisher, same_node, push_address, add_address, put_back, del_from,
  del_address_by_node, erase_count, del_loop, del_addresses_by_proc, push_all, by_proc_loop,
  get_addresses_by_proc,
}

-- The publishers of a topic in a process, oldest first.
abbrev pub publishers : Text → Text → TopicStorage → List Address
publishers topic p_uuid s = get_or (find p_uuid (get_or (find topic s) [])) []

-- Writing one entry, seen through `get_or`.
entry-insert {ℓ} :
    {A : Type ℓ} (k k' : Text) (v : List A) (m : Map (List A))
    → get_or (find k' (insert k v m)) [] ≡ (if text_eq k k' then v else get_or (find k' m) [])
entry-insert k k' v m = rw find-insert (ground arith)

entry-put_back :
    {A : Type 0} (k k' : Text) (v : List A) (m : Map (List A))
    → get_or (find k' (put_back k v m)) [] ≡ (if text_eq k k' then v else get_or (find k' m) [])
unfolding put_back
entry-put_back k k' [] m = rw (find-erase, find-insert) (ground arith)
entry-put_back k k' (x ∷ v) m = rw find-insert (ground arith)

-- Two nested entries, the outer one rewritten by what its inner map became.
nested :
    (t p t' p' : Text) (v : List Address) (m' : Addresses) (s s' : TopicStorage)
    → get_or (find t' s') [] ≡ (if text_eq t t' then m' else get_or (find t' s) [])
    → get_or (find p' m') []
      ≡ (if text_eq p p' then v else get_or (find p' (get_or (find t s) [])) [])
    → publishers t' p' s' ≡ (if text_eq t t' && text_eq p p' then v else publishers t' p' s)
nested t p t' p' v m' s s' outer inner = rw outer (elim (Bool-cases (text_eq t t')) [
  | inl e ↦ let same : t ≡ t' = (text_eq_iff t t').0 e in rw (e, inner) (rw same)
  | inr e ↦ rw e
])

-- `push_back` changes one list only.
publishers-push_address :
    (t p t' p' : Text) (info : Address) (s : TopicStorage)
    → publishers t' p' (push_address t p info s)
      ≡ (if text_eq t t' && text_eq p p' then publishers t p s ++ info ∷ [] else publishers t' p' s)
unfolding push_address
publishers-push_address t p t' p' info s =
    nested t p t' p' _ _ s _ (entry-insert t t' _ s) (entry-insert p p' _ _)

-- The empty entry that `AddAddress` makes for a new topic is not seen.
publishers-create :
    (t t' p' : Text) (s : TopicStorage)
    → publishers t' p' (if contains t s then s else insert t [] s) ≡ publishers t' p' s
publishers-create t t' p' s = elim (Option-cases (find t s)) [
  | inl e ↦
      rw (e, entry-insert t t' [] s)
        (elim (Bool-cases (text_eq t t')) [
          | inl same ↦ rw (same, ← (text_eq_iff t t').0 same, e)
          | inr other ↦ rw other
        ])
  | inr (m, e) ↦ rw e
]

-- Whether `AddAddress` finds the publisher.
abbrev pub is_known : Text → Text → Text → Text → TopicStorage → Bool
is_known t p addr n s = is_some (find_if (same_publisher addr n) (publishers t p s))

known_lem :
    (q : Address → Bool) (o : Option (List Address))
    → (is_some o && is_some (find_if q (get_or o []))) ≡ is_some (find_if q (get_or o []))
unfolding find_if
known_lem q none = refl
known_lem q (some v) = refl

abbrev pub created : Text → TopicStorage → TopicStorage
created t s = if contains t s then s else insert t [] s

pub add_address_cases :
    (t addr ctrl p n : Text) (sc : Scope) (s : TopicStorage)
    → add_address t addr ctrl p n sc s ≡ (
        if is_known t p addr n s then (created t s, false) else (
          push_address t p
              (record { addr = addr; ctrl = ctrl; n_uuid = n; scope = sc })
              (created t s),
          true,
        ))
unfolding add_address
add_address_cases t addr ctrl p n sc s = rw (
  known_lem (same_publisher addr n) (find p (get_or (find t (created t s)) [])),
  publishers-create t t p s,
)

-- `AddAddress` appends the publisher to the list of its topic and process, unless one with the same
-- address and node is there already, and says which; it changes no other list.
pub publishers-add_address :
    (t addr ctrl p n : Text) (sc : Scope) (t' p' : Text) (s : TopicStorage)
    → ((add_address t addr ctrl p n sc s).1 ≡ not (is_known t p addr n s))
      × (publishers t' p' (add_address t addr ctrl p n sc s).0 ≡ (
          if (text_eq t t' && text_eq p p') && not (is_known t p addr n s)
          then publishers t p s ++ record { addr = addr; ctrl = ctrl; n_uuid = n; scope = sc } ∷ []
          else publishers t' p' s))
publishers-add_address t addr ctrl p n sc t' p' s =
    rw (add_address_cases t addr ctrl p n sc s) (elim (Bool-cases (is_known t p addr n s)) [
      | inl e ↦ rw e (refl, rw (publishers-create t t' p' s) (ground arith))
      | inr e ↦ rw e (
        refl,
        rw
            (
              publishers-push_address t p t' p' _ (created t s),
              publishers-create t t p s,
              publishers-create t t' p' s,
            )
            (ground arith),
      )
    ])

-- What `DelAddressByNode` promises of the storage and the result that it returns.
abbrev pub DelSpec : Text → Text → Text → Text → Text → TopicStorage → TopicStorage × Bool → Type 0
DelSpec t p n t' p' s r =
    (publishers t' p' r.0 ≡ (
      if text_eq t t' && text_eq p p'
      then remove_if (same_node n) (publishers t p s)
      else publishers t' p' s))
    × (r.1
        ≡ ltb 0 (
            (length (publishers t p s) - length (remove_if (same_node n) (publishers t p s)))
            % 2 ^ 32))

empty_entry : (p : Text) → get_or {A = List Address} (find p []) [] ≡ []
unfolding find
empty_entry p = refl

del_absent :
    (t p n t' p' : Text) (s : TopicStorage)
    → publishers t p s ≡ []
    → DelSpec t p n t' p' s (s, false)
unfolding remove_if
del_absent t p n t' p' s e = elim (Bool-cases (text_eq t t' && text_eq p p')) [
  | inl both ↦
      let here : publishers t' p' s ≡ [] =
        rw (← (text_eq_iff t t').0 (ground arith), ← (text_eq_iff p p').0 (ground arith)) e in
      (rw (both, e) here, rw e)
  | inr other ↦ (rw other, rw e)
]

del_present :
    (t p n t' p' : Text) (m : Addresses) (v : List Address) (s : TopicStorage)
    → find t s ≡ some m
    → find p m ≡ some v
    → DelSpec t p n t' p' s (del_from t p n m v s)
unfolding del_from
del_present t p n t' p' m v s e f =
    let held : publishers t p s ≡ v = rw (e, f) in
    rw held (
      nested t p t' p' _ _ s _ (entry-put_back t t' _ s)
          (rw e (entry-put_back p p' (remove_if (same_node n) v) m)),
      refl,
    )

-- `DelAddressByNode` takes the node's publishers out of one list, keeps the order of the others, and
-- changes no other list. It returns whether it took any out, counted modulo 2 ^ 32.
pub publishers-del_address_by_node :
    (t p n t' p' : Text) (s : TopicStorage) → DelSpec t p n t' p' s (del_address_by_node t p n s)
unfolding del_address_by_node
publishers-del_address_by_node t p n t' p' s = elim (Option-cases (find t s)) [
  | inl e ↦
      let r : del_address_by_node t p n s ≡ (s, false) = rw (e, del_address_by_node) in
      rw r (del_absent t p n t' p' s (rw (e, empty_entry)))
  | inr (m, e) ↦ elim (Option-cases (find p m)) [
    | inl f ↦
        let r : del_address_by_node t p n s ≡ (s, false) = rw (e, del_address_by_node) (rw f) in
        rw r (del_absent t p n t' p' s (rw (e, f)))
    | inr (v, f) ↦
        let r : del_address_by_node t p n s ≡ del_from t p n m v s =
          rw (e, del_address_by_node) (rw f) in
        rw r (del_present t p n t' p' m v s e f)
  ]
]

find-del_loop :
    (p t : Text) (s : TopicStorage) (c : ℕ)
    → IsSorted s
    → get_or (find t (del_loop p s c).0) [] ≡ erase p (get_or (find t s) [])
unfolding del_loop find erase
find-del_loop p t [] c h = refl
find-del_loop p t ((t0, m) ∷ s) c h = ground (
  arith,
  text_eq_iff t0 t,
  find-Above t0 s h.0,
  is_empty-nil (erase p m),
  find-del_loop p t s (erase_count p m) h.1,
)

-- On a storage whose topics are in order, `DelAddressesByProc` forgets the process in every topic,
-- and nothing else.
pub publishers-del_addresses_by_proc :
    (p t' p' : Text) (s : TopicStorage)
    → IsSorted s
    → publishers t' p' (del_addresses_by_proc p s).0
      ≡ (if text_eq p p' then [] else publishers t' p' s)
unfolding del_addresses_by_proc
publishers-del_addresses_by_proc p t' p' s h =
    rw (find-del_loop p t' s 0 h, find-erase p' p (get_or (find t' s) [])) (ground arith)

entry-push_all :
    (t t' : Text) (v : List Address) (nodes : Map (List Address))
    → get_or (find t' (push_all t v nodes)) []
      ≡ (if text_eq t t' then get_or (find t' nodes) [] ++ v else get_or (find t' nodes) [])
unfolding push_all
entry-push_all t t' [] nodes = rw append-nil (ground arith)
entry-push_all t t' (info ∷ v) nodes = elim (Bool-cases (text_eq t t')) [
  | inl e ↦
      rw (entry-push_all t t' v _, entry-insert t t' _ nodes, e, append_assoc)
        (rw ((text_eq_iff t t').0 e))
  | inr e ↦ rw (entry-push_all t t' v _, entry-insert t t' _ nodes, e)
]

entry-by_proc_loop :
    (p t : Text) (s : TopicStorage) (nodes : Map (List Address))
    → IsSorted s
    → get_or (find t (by_proc_loop p s nodes)) [] ≡ get_or (find t nodes) [] ++ publishers t p s
unfolding by_proc_loop find
entry-by_proc_loop p t [] nodes h = rw append-nil
entry-by_proc_loop p t ((t0, m) ∷ s) nodes h = elim (Bool-cases (text_eq t0 t)) [
  | inl here ↦
      let absent : find t s ≡ none = rw (← (text_eq_iff t0 t).0 here) (find-Above t0 s h.0) in
      rw
        (
          entry-by_proc_loop p t s (push_all t0 (get_or (find p m) []) nodes) h.1,
          entry-push_all t0 t (get_or (find p m) []) nodes,
          here,
          absent,
        )
        (append-nil _)
  | inr there ↦ rw (
    entry-by_proc_loop p t s (push_all t0 (get_or (find p m) []) nodes) h.1,
    entry-push_all t0 t (get_or (find p m) []) nodes,
    there,
  )
]

-- On a storage whose topics are in order, `GetAddressesByProc` collects, for each topic, the
-- publishers of the process.
pub publishers-get_addresses_by_proc :
    (p t : Text) (s : TopicStorage)
    → IsSorted s
    → get_or (find t (get_addresses_by_proc p s)) [] ≡ publishers t p s
unfolding get_addresses_by_proc find
publishers-get_addresses_by_proc p t s h = entry-by_proc_loop p t s [] h
