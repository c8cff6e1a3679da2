-- ===== src/HandlerStorage/Invariant.antt =====
-- The well-formedness of the storage of include/ignition/transport/HandlerStorage.hh, and its
-- operations.
use ign_transport_git.Base.{
  ◌≡◌, ◌⊎◌, refl, true, false, none, some, [], ◌∷◌, is_empty, Text, text_eq_refl, Bool-cases,
  Option-cases, inl, inr,
}
use ign_transport_git.Base.Map.{
  Map, find, insert_new, erase, IsSorted, Values, insert-IsSorted, erase-IsSorted, insert-Values,
  erase-Values, find-Values, erase-insert, entry, insert_nonempty,
}
use ign_transport_git.HandlerStorage.{
  HandlerStorage, Nodes, get_handler, add_handler, has_handlers_for_topic, remove_in_nodes,
  put_topic, remove_handler, remove_handlers_for_node,
}
use ign_transport_git.HandlerStorage.Laws.{add_handler_lem, handler_at}

module _ {T : Type 0} where
  -- Every topic has a node, every node a handler, and all keys are in order.
  abbrev pub IsValidNode : Map T → Type 0
  IsValidNode handlers = (is_empty handlers ≡ false) × IsSorted handlers

  abbrev pub IsValidNodes : Nodes T → Type 0
  IsValidNodes nodes = IsSorted nodes × Values IsValidNode nodes

  abbrev pub IsValidTopic : Nodes T → Type 0
  IsValidTopic nodes = (is_empty nodes ≡ false) × IsValidNodes nodes

  abbrev pub IsValid : HandlerStorage T → Type 0
  IsValid s = IsSorted s × Values IsValidTopic s

  find_nonempty :
      (h : Text) (handlers : Map T) {y : T} → find h handlers ≡ some y → is_empty handlers ≡ false
  unfolding find
  find_nonempty h [] e = cc
  find_nonempty h (x ∷ handlers) e = refl

  insert_new-IsValidNode :
      (h : Text) (x : T) (handlers : Map T)
      → IsSorted handlers
      → IsValidNode (insert_new h x handlers)
  unfolding insert_new
  insert_new-IsValidNode h x handlers s = elim (Option-cases (find h handlers)) [
    | inl e ↦ rw e (insert_nonempty h x handlers, insert-IsSorted h x handlers s)
    | inr (y, e) ↦ rw e (find_nonempty h handlers e, s)
  ]

  entry-IsSorted : (n : Text) (nodes : Nodes T) → IsValidNodes nodes → IsSorted (entry n nodes)
  entry-IsSorted n nodes v = elim (Option-cases (find n nodes)) [
    | inl e ↦ rw e tt
    | inr (m, e) ↦ rw e (find-Values _ n nodes v.1 e).1
  ]

  entry-IsValidNodes : (t : Text) (s : HandlerStorage T) → IsValid s → IsValidNodes (entry t s)
  entry-IsValidNodes t s v = elim (Option-cases (find t s)) [
    | inl e ↦ rw e (tt, tt)
    | inr (m, e) ↦ rw e (find-Values _ t s v.1 e).1
  ]

  -- `AddHandler` keeps a storage well formed.
  pub add_handler-IsValid :
      (t n h : Text) (x : T) (s : HandlerStorage T) → IsValid s → IsValid (add_handler t n h x s)
  add_handler-IsValid t n h x s v =
      let nodes : Nodes T = entry t s in
      let vn : IsValidNodes nodes = entry-IsValidNodes t s v in
      rw (add_handler_lem t n h x s) (
        insert-IsSorted t _ s v.0,
        insert-Values _ t _ s
            (
              insert_nonempty n _ nodes,
              (
                insert-IsSorted n _ nodes vn.0,
                insert-Values _ n _ nodes (insert_new-IsValidNode h x _ (entry-IsSorted n nodes vn))
                    vn.1,
              ),
            )
            v.1,
      )

  put_topic-IsValid :
      (t : Text) (nodes : Nodes T) (s : HandlerStorage T)
      → IsValidNodes nodes
      → IsValid s
      → IsValid (put_topic t nodes s)
  unfolding put_topic
  put_topic-IsValid t [] s vn v = rw erase-insert (erase-IsSorted t s v.0, erase-Values _ t s v.1)
  put_topic-IsValid t (e ∷ nodes) s vn v =
      (insert-IsSorted t _ s v.0, insert-Values _ t _ s (refl, vn) v.1)

  remove_in_nodes-IsValid :
      (n r : Text) (handlers : Map T) (nodes : Nodes T)
      → IsSorted handlers
      → IsValidNodes nodes
      → IsValidNodes (remove_in_nodes n r handlers nodes).0
  unfolding remove_in_nodes
  remove_in_nodes-IsValid n r handlers nodes sorted v =
      elim (Bool-cases (is_empty (erase r handlers))) [
        | inl e ↦ rw (e, erase-insert) (erase-IsSorted n nodes v.0, erase-Values _ n nodes v.1)
        | inr e ↦ rw e (
          insert-IsSorted n _ nodes v.0,
          insert-Values _ n _ nodes (e, erase-IsSorted r handlers sorted) v.1,
        )
      ]

  -- `RemoveHandler` keeps a storage well formed.
  pub remove_handler-IsValid :
      (t n r : Text) (s : HandlerStorage T) → IsValid s → IsValid (remove_handler t n r s).0
  unfolding remove_handler
  remove_handler-IsValid t n r s v = elim (Option-cases (find t s)) [
    | inl e ↦ rw (e, remove_handler) v
    | inr (nodes, e) ↦
        let vn : IsValidNodes nodes = (find-Values _ t s v.1 e).1 in
        elim (Option-cases (find n nodes)) [
          | inl f ↦ rw (e, remove_handler) (rw f v)
          | inr (handlers, f) ↦
              let sorted : IsSorted handlers = (find-Values _ n nodes vn.1 f).1 in
              rw (e, remove_handler)
                (rw f (
                  put_topic-IsValid t _ s (remove_in_nodes-IsValid n r handlers nodes sorted vn) v))
        ]
  ]

  -- `RemoveHandlersForNode` keeps a storage well formed.
  pub remove_handlers_for_node-IsValid :
      (t n : Text) (s : HandlerStorage T) → IsValid s → IsValid (remove_handlers_for_node t n s).0
  unfolding remove_handlers_for_node
  remove_handlers_for_node-IsValid t n s v = elim (Option-cases (find t s)) [
    | inl e ↦ rw (e, remove_handlers_for_node) v
    | inr (nodes, e) ↦
        let vn : IsValidNodes nodes = (find-Values _ t s v.1 e).1 in
        rw (e, remove_handlers_for_node)
          (put_topic-IsValid t _ s (erase-IsSorted n nodes vn.0, erase-Values _ n nodes vn.1) v)
  ]

  first_handler :
      (t : Text) (s : HandlerStorage T) (nodes : Nodes T)
      → find t s ≡ some nodes
      → IsValidTopic nodes
      → (n : Text) × (h : Text) × (x : T) × (handlers : Map T) × (others : Nodes T) × (find t s
          ≡ some ((n, (h, x) ∷ handlers) ∷ others))
        × (has_handlers_for_topic t s ≡ true)
        × (get_handler t s ≡ some (some x))
        × (handler_at t n h s ≡ some x)
        × IsSorted ((n, (h, x) ∷ handlers) ∷ others)
        × IsSorted ((h, x) ∷ handlers)
  unfolding has_handlers_for_topic get_handler find
  first_handler t s [] e v = absurd (cc v.0)
  first_handler t s ((n, []) ∷ nodes) e v = absurd (cc v.1.1.0.0)
  first_handler t s ((n, (h, x) ∷ handlers) ∷ nodes) e v = (
    n,
    h,
    x,
    handlers,
    nodes,
    e,
    rw (e, has_handlers_for_topic),
    rw (e, get_handler),
    rw (e, text_eq_refl, text_eq_refl),
    v.1.0,
    v.1.1.0.1,
  )

  -- On a well-formed storage `GetHandler` never looks into an empty map: it says no exactly when the
  -- topic has no handlers, and otherwise returns the handler with the smallest UUID of the node with the
  -- smallest UUID, the first entry of the first entry of the topic, which stands under both.
  pub get_handler_lem :
      (t : Text) (s : HandlerStorage T)
      → IsValid s
      → ((has_handlers_for_topic t s ≡ false) × (get_handler t s ≡ some none))
        ⊎ ((n : Text) × (h : Text) × (x : T) × (handlers : Map T) × (others : Nodes T) × (find t s
              ≡ some ((n, (h, x) ∷ handlers) ∷ others))
            × (has_handlers_for_topic t s ≡ true)
            × (get_handler t s ≡ some (some x))
            × (handler_at t n h s ≡ some x)
            × IsSorted ((n, (h, x) ∷ handlers) ∷ others)
            × IsSorted ((h, x) ∷ handlers))
  unfolding has_handlers_for_topic get_handler
  get_handler_lem t s v = elim (Option-cases (find t s)) [
    | inl e ↦ inl (rw (e, has_handlers_for_topic), rw (e, get_handler))
    | inr (nodes, e) ↦ inr (first_handler t s nodes e (find-Values _ t s v.1 e))
  ]
