-- ===== src/NodeShared/Connections/Subscribers.antt =====
-- The control messages of src/NodeShared.cc, from `OnNewConnection` in the process of the subscribers to
-- `RecvControlUpdate` in the process of the publisher, and from `Unsubscribe` of src/Node.cc.
use ign_transport_git.Base.{
  Bool, true, ◌||◌, ◌≡◌, refl, List, [], ◌∷◌, ◌++◌, is_some, find_if, Text, text_eq_refl, arith,
  Bool-cases, Option-cases, inl, inr,
}
use ign_transport_git.Base.Map.{find, find-insert}
use ign_transport_git.TransportTypes.{Scope, all}
use ign_transport_git.TopicStorage.{
  TopicStorage, add_address, push_address, has_topic, same_publisher,
}
use ign_transport_git.TopicStorage.Spec.{
  is_known, created, add_address_cases, publishers-add_address,
}

find_if-append :
    {A : Type 0} (q : A → Bool) (xs ys : List A)
    → is_some (find_if q (xs ++ ys)) ≡ (is_some (find_if q xs) || is_some (find_if q ys))
unfolding find_if
find_if-append q [] ys = refl
find_if-append q (x ∷ xs) ys = ground (arith, find_if-append q xs ys)

same_publisher_refl :
    (addr ctrl n : Text) (scope : Scope)
    → same_publisher addr n (record { addr = addr; ctrl = ctrl; n_uuid = n; scope = scope }) ≡ true
same_publisher_refl addr ctrl n scope = rw (text_eq_refl addr, text_eq_refl n)

-- `AddAddress` makes its publisher known, and forgets none.
known-add_address :
    (t addr ctrl p n : Text) (scope : Scope) (s : TopicStorage)
    → is_known t p addr n (add_address t addr ctrl p n scope s).0 ≡ true
unfolding find_if
known-add_address t addr ctrl p n scope s =
    rw ((publishers-add_address t addr ctrl p n scope t p s).1, text_eq_refl t, text_eq_refl p)
      (elim (Bool-cases (is_known t p addr n s)) [
        | inl e ↦ rw (e, e)
        | inr e ↦ rw (e, find_if-append, same_publisher_refl addr ctrl n scope) (ground arith)
      ])

add_address_keeps_known :
    (t addr ctrl p n n' : Text) (scope : Scope) (s : TopicStorage)
    → is_known t p addr n' s ≡ true
    → is_known t p addr n' (add_address t addr ctrl p n scope s).0 ≡ true
add_address_keeps_known t addr ctrl p n n' scope s h =
    rw ((publishers-add_address t addr ctrl p n scope t p s).1, text_eq_refl t, text_eq_refl p)
      (elim (Bool-cases (is_known t p addr n s)) [
        | inl e ↦ rw (e, h)
        | inr e ↦ rw (e, find_if-append, h)
      ])

has_topic-created : (t : Text) (s : TopicStorage) → has_topic t (created t s) ≡ true
unfolding has_topic
has_topic-created t s = elim (Option-cases (find t s)) [
  | inl e ↦ rw (e, find-insert, text_eq_refl t)
  | inr (m, e) ↦ rw (e, e)
]

has_topic-add_address :
    (t addr ctrl p n : Text) (scope : Scope) (s : TopicStorage)
    → has_topic t (add_address t addr ctrl p n scope s).0 ≡ true
unfolding has_topic push_address
has_topic-add_address t addr ctrl p n scope s =
    rw (add_address_cases t addr ctrl p n scope s) (elim (Bool-cases (is_known t p addr n s)) [
      | inl e ↦ rw e (has_topic-created t s)
      | inr e ↦ rw (e, find-insert, text_eq_refl t)
    ])

-- The remote subscribers once all the nodes of a process have registered.
unfoldable pub register : Text → Text → List Text → TopicStorage → TopicStorage
register t p [] s = s
register t p (n ∷ ns) s = register t p ns (add_address t [] [] p n all s).0

abbrev pub AreKnown : Text → Text → List Text → TopicStorage → Type 0
AreKnown t p [] s = Unit
AreKnown t p (n ∷ ns) s = (is_known t p [] n s ≡ true) × AreKnown t p ns s

register_keeps_known :
    (t p n : Text) (ns : List Text) (s : TopicStorage)
    → is_known t p [] n s ≡ true
    → is_known t p [] n (register t p ns s) ≡ true
unfolding register
register_keeps_known t p n [] s h = h
register_keeps_known t p n (n' ∷ ns) s h =
    register_keeps_known t p n ns _ (add_address_keeps_known t [] [] p n' n all s h)

pub known-register :
    (t p : Text) (ns : List Text) (s : TopicStorage) → AreKnown t p ns (register t p ns s)
unfolding register
known-register t p [] s = tt
known-register t p (n ∷ ns) s =
    (register_keeps_known t p n ns _ (known-add_address t [] [] p n all s), known-register t p ns _)

pub has_topic-register :
    (t p n : Text) (ns : List Text) (s : TopicStorage)
    → has_topic t (register t p (n ∷ ns) s) ≡ true
unfolding register
has_topic-register t p n [] s = has_topic-add_address t [] [] p n all s
has_topic-register t p n (n' ∷ ns) s = has_topic-register t p n' ns _
