-- ===== src/TopicStorage/Queries.antt =====
-- The operations of src/TopicStorage.cc that read a storage.
use ign_transport_git.Base.{
  ℕ, ◌≡◌, ◌≢◌, ◌↔◌, refl, sym, ◌∙◌, Bool, true, false, not, ◌||◌, List, [], ◌∷◌, ◌++◌, is_empty,
  is_some, get_or, find_if, All, Text, text_eq, text_lt, text_eq_iff, text_eq_refl, arith,
  Bool-cases, Option-cases, inl, inr,
}
use ign_transport_git.Base.Map.{Map, find, contains, keys, Above, IsSorted, find-Values, find-Above}
use ign_transport_git.TransportTypes.{Address, Addresses}
use ign_transport_git.TopicStorage.Invariant.{IsValid, IsValidEntry, IsValidProcs}
use ign_transport_git.TopicStorage.Spec.{publishers}
use ign_transport_git.TopicStorage.{
  TopicStorage, same_node, has_topic, has_any_addresses, any_address, any_process, has_address,
  get_address, del_loop, del_addresses_by_proc, erase_count, get_topic_list,
}

-- On a well-formed storage, `HasAnyAddresses` says whether the process has a publisher of the
-- topic.
pub has_any_addresses_lem :
    (t p : Text) (s : TopicStorage)
    → IsValid s
    → has_any_addresses t p s ≡ not (is_empty (publishers t p s))
unfolding has_any_addresses find
has_any_addresses_lem t p s h = elim (Option-cases (find t s)) [
  | inl e ↦ rw e
  | inr (m, e) ↦
      let procs : IsValidProcs m = (find-Values _ t s h.1 e).1 in
      elim (Option-cases (find p m)) [
        | inl f ↦ rw (e, f)
        | inr (v, f) ↦ rw (e, f, (find-Values _ p m procs.1 f).0)
      ]
]

-- `GetAddress` finds the node's oldest publisher in the topic and process.
pub get_address_lem :
    (t p n : Text) (s : TopicStorage)
    → get_address t p n s ≡ find_if (same_node n) (publishers t p s)
unfolding get_address find find_if
get_address_lem t p n s = elim (Option-cases (find t s)) [
  | inl e ↦ rw (e, get_address)
  | inr (m, e) ↦ elim (Option-cases (find p m)) [
    | inl f ↦ rw (e, get_address) (rw f)
    | inr (v, f) ↦ rw (e, get_address) (rw f)
  ]
]

first_process : (m : Addresses) → IsValidEntry m → (p : Text) × (get_or (find p m) [] ≢ [])
unfolding find
first_process [] h = absurd (cc (h.0))
first_process ((p, []) ∷ m) h = absurd (cc (h.1.1.0.0))
first_process ((p, x ∷ v) ∷ m) h = (p, rw text_eq_refl (λ e. cc))

no_process : (t p : Text) (s : TopicStorage) → publishers t p s ≢ [] → has_topic t s ≡ true
unfolding has_topic find
no_process t p s h = ground arith

-- On a well-formed storage, `HasTopic` says whether some process has a publisher of the topic.
pub has_topic_iff :
    (t : Text) (s : TopicStorage)
    → IsValid s
    → (has_topic t s ≡ true) ↔ ((p : Text) × (publishers t p s ≢ []))
unfolding has_topic
has_topic_iff t s h = (λ e. some_process e, λ e. no_process t e.0 s e.1)
  where
    some_process : is_some (find t s) ≡ true → (p : Text) × (publishers t p s ≢ [])
    some_process e = elim (Option-cases (find t s)) [
      | inl f ↦ absurd (ground arith)
      | inr (m, f) ↦ rw f (first_process m (find-Values _ t s h.1 f))
    ]

-- The texts rise strictly.
abbrev pub Rising : List Text → Type 0
Rising [] = Unit
Rising (x ∷ xs) = All (λ y. text_lt x y ≡ true) xs × Rising xs

abbrev pub listed : Text → List Text → Bool
listed t [] = false
listed t (x ∷ xs) = text_eq x t || listed t xs

All-keys : {V : Type 0} (k : Text) (m : Map V) → Above k m → All (λ y. text_lt k y ≡ true) (keys m)
All-keys k [] a = tt
All-keys k ((j, v) ∷ m) a = (a.0, All-keys k m a.1)

Rising-keys : {V : Type 0} (m : Map V) → IsSorted m → Rising (keys m)
Rising-keys [] h = tt
Rising-keys ((k, v) ∷ m) h = (All-keys k m h.0, Rising-keys m h.1)

listed-keys : {V : Type 0} (t : Text) (m : Map V) → listed t (keys m) ≡ contains t m
unfolding find
listed-keys t [] = refl
listed-keys t ((k, v) ∷ m) = ground (arith, listed-keys t m)

-- On a well-formed storage and with an empty vector, `GetTopicList` lists exactly the topics of the
-- storage, each once and in order.
pub get_topic_list_lem :
    (s : TopicStorage)
    → IsValid s
    → Rising (get_topic_list [] s) × ((t : Text) → listed t (get_topic_list [] s) ≡ has_topic t s)
unfolding get_topic_list has_topic
get_topic_list_lem s h = (Rising-keys s h.0, λ t. listed-keys t s)

del_loop_last :
    (p : Text) (s : TopicStorage) (t : Text) (m : Addresses) (c : ℕ)
    → (del_loop p (s ++ (t, m) ∷ []) c).1 ≡ erase_count p m
unfolding del_loop
del_loop_last p [] t m c = refl
del_loop_last p ((t0, m0) ∷ s) t m c = del_loop_last p s t m (erase_count p m0)

-- What `DelAddressesByProc` returns is whether the last topic of the storage had the process,
-- whatever the topics before it held.
pub del_addresses_by_proc_last :
    (p : Text) (s : TopicStorage) (t : Text) (m : Addresses)
    → (del_addresses_by_proc p (s ++ (t, m) ∷ [])).1 ≡ contains p m
unfolding del_addresses_by_proc
del_addresses_by_proc_last p s t m = rw (del_loop_last p s t m 0) (ground arith)

any_address_lem :
    (a : Text) (v : List Address)
    → any_address a v ≡ is_some (find_if (λ info. text_eq info.addr a) v)
unfolding any_address find_if
any_address_lem a [] = refl
any_address_lem a (x ∷ v) = ground (arith, any_address_lem a v)

process_at :
    (a : Text) (m : Addresses)
    → IsSorted m
    → any_process a m ≡ true
    → (p : Text) × (any_address a (get_or (find p m) []) ≡ true)
unfolding any_process find any_address
process_at a [] h e = cc
process_at a ((p, v) ∷ m) h e = elim (Bool-cases (any_address a v)) [
  | inl here ↦ (p, rw text_eq_refl here)
  | inr there ↦
      let (q, f) = process_at a m h.1 (ground arith) in
      (q, ground (arith, text_eq_iff p q, find-Above p m h.0))
]

process_found :
    (a p : Text) (m : Addresses)
    → any_address a (get_or (find p m) []) ≡ true
    → any_process a m ≡ true
unfolding any_process find any_address
process_found a p [] e = e
process_found a p ((q, v) ∷ m) e = ground (arith, process_found a p m)

topic_at :
    (a : Text) (s : TopicStorage)
    → IsValid s
    → has_address a s ≡ true
    → (t : Text) × (p : Text) × (any_address a (publishers t p s) ≡ true)
unfolding has_address find any_address
topic_at a [] h e = cc
topic_at a ((t, m) ∷ s) h e = elim (Bool-cases (any_process a m)) [
  | inl here ↦ let (p, f) = process_at a m h.1.0.1.0 here in (t, p, rw text_eq_refl f)
  | inr there ↦
      let (u, p, f) = topic_at a s (h.0.1, h.1.1) (ground arith) in
      (u, p, ground (arith, text_eq_iff t u, find-Above t s h.0.0))
]

topic_found :
    (a t p : Text) (s : TopicStorage)
    → any_address a (publishers t p s) ≡ true
    → has_address a s ≡ true
unfolding has_address find any_address
topic_found a t p [] e = e
topic_found a t p ((u, m) ∷ s) e = ground (arith, topic_found a t p s, process_found a p m)

-- On a well-formed storage, `HasAddress` says whether some publisher, of any topic and process, has
-- the address.
pub has_address_iff :
    (a : Text) (s : TopicStorage)
    → IsValid s
    → (has_address a s ≡ true) ↔ (
        (t : Text) × (p : Text) × (is_some
            (find_if (λ info. text_eq info.addr a) (publishers t p s))
          ≡ true))
has_address_iff a s h = (
  λ e. let (t, p, f) = topic_at a s h e in (t, p, sym (any_address_lem a (publishers t p s)) ∙ f),
  λ e. topic_found a e.0 e.1 s (any_address_lem a (publishers e.0 e.1 s) ∙ e.2),
)
