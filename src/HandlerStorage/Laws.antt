-- ===== src/HandlerStorage/Laws.antt =====
-- The storage of include/ignition/transport/HandlerStorage.hh seen as a function from a topic, a node
-- and a handler UUID to a handler, and its operations.
use ign_transport_git.Base.{
  ◌≡◌, refl, Bool, false, not, ◌&&◌, Option, none, some, [], ◌∷◌, is_empty, is_empty-nil, get_or,
  if◌then◌else◌, Text, text_eq, text_eq_iff, text_eq_refl, arith, Bool-cases, Option-cases, inl,
  inr,
}
use ign_transport_git.Base.Map.{
  Map, find, contains, insert, insert_new, erase, find-insert, find-erase, entry, entry-insert,
  entry-create, insert-create, find-insert_new,
}
use ign_transport_git.HandlerStorage.{
  HandlerStorage, Nodes, get_handler_of, add_handler, has_handlers_for_node, remove_in_nodes,
  put_topic, remove_handler, remove_handlers_for_node,
}

module _ {T : Type 0} where
  -- The handler under a topic, a node and a handler UUID.
  abbrev pub handler_at : Text → Text → Text → HandlerStorage T → Option T
  handler_at t n h s = find h (get_or (find n (get_or (find t s) [])) [])

  pub get_handler_of_lem :
      (t n h : Text) (s : HandlerStorage T) → get_handler_of t n h s ≡ handler_at t n h s
  unfolding get_handler_of find
  get_handler_of_lem t n h s = elim (Option-cases (find t s)) [
    | inl e ↦ rw (e, get_handler_of)
    | inr (nodes, e) ↦ elim (Option-cases (find n nodes)) [
      | inl f ↦ rw (e, get_handler_of) (rw f)
      | inr (handlers, f) ↦ rw (e, get_handler_of) (rw f)
    ]
  ]

  pub add_handler_lem :
      (t n h : Text) (x : T) (s : HandlerStorage T)
      → add_handler t n h x s
        ≡ insert t (insert n (insert_new h x (entry n (entry t s))) (entry t s)) s
  unfolding add_handler
  add_handler_lem t n h x s =
      rw (entry-create t t s, entry-create n n (entry t s), insert-create, insert-create)

  -- `AddHandler` stores the handler under its keys, unless one is there already, which it leaves;
  -- it changes nothing under other keys.
  pub handler_at-add_handler :
      (t n h t' n' h' : Text) (x : T) (s : HandlerStorage T)
      → handler_at t' n' h' (add_handler t n h x s) ≡ (
          if (text_eq t t' && text_eq n n') && text_eq h h'
          then some (get_or (handler_at t n h s) x)
          else handler_at t' n' h' s)
  handler_at-add_handler t n h t' n' h' x s =
      rw (add_handler_lem t n h x s, entry-insert t t' _ s)
        (elim (Bool-cases (text_eq t t')) [
          | inr e ↦ rw e
          | inl e ↦
              rw (e, entry-insert n n' _ (entry t s))
                (elim (Bool-cases (text_eq n n')) [
                  | inr f ↦ rw (f, (text_eq_iff t t').0 e)
                  | inl f ↦
                      rw (f, find-insert_new h' h x, (text_eq_iff t t').0 e, (text_eq_iff n n').0 f)
                ])
        ])

  entry-put_topic :
      (t t' : Text) (nodes : Nodes T) (s : HandlerStorage T)
      → entry t' (put_topic t nodes s) ≡ (if text_eq t t' then nodes else entry t' s)
  unfolding put_topic
  entry-put_topic t t' [] s = rw (find-erase, find-insert) (ground arith)
  entry-put_topic t t' (e ∷ nodes) s = rw find-insert (ground arith)

  entry-remove_in_nodes :
      (n r n' : Text) (handlers : Map T) (nodes : Nodes T)
      → entry n' (remove_in_nodes n r handlers nodes).0
        ≡ (if text_eq n n' then erase r handlers else entry n' nodes)
  unfolding remove_in_nodes
  entry-remove_in_nodes n r n' handlers nodes = elim (Bool-cases (is_empty (erase r handlers))) [
    | inl e ↦ rw (e, find-erase, find-insert, is_empty-nil (erase r handlers) e) (ground arith)
    | inr e ↦ rw (e, find-insert) (ground arith)
  ]

  pub has_handlers_for_node_lem :
      (t n : Text) (s : HandlerStorage T) → has_handlers_for_node t n s ≡ contains n (entry t s)
  unfolding has_handlers_for_node find
  has_handlers_for_node_lem t n s = elim (Option-cases (find t s)) [
    | inl e ↦ rw (e, has_handlers_for_node)
    | inr (nodes, e) ↦ rw (e, has_handlers_for_node)
  ]

  contains-remove_in_nodes :
      (n r : Text) (handlers : Map T) (nodes : Nodes T)
      → contains n (remove_in_nodes n r handlers nodes).0
        ≡ not (remove_in_nodes n r handlers nodes).1
  unfolding remove_in_nodes
  contains-remove_in_nodes n r handlers nodes = elim (Bool-cases (is_empty (erase r handlers))) [
    | inl e ↦ rw (e, find-erase, text_eq_refl)
    | inr e ↦ rw (e, find-insert, text_eq_refl)
  ]

  -- What `RemoveHandler` does under each triple of keys, and what it returns.
  abbrev RemoveSpec :
      Text → Text → Text → Text → Text → Text → HandlerStorage T → HandlerStorage T × Bool → Type 0
  RemoveSpec t n r t' n' h' s result =
      (handler_at t' n' h' result.0
        ≡ (if (text_eq t t' && text_eq n n') && text_eq r h' then none else handler_at t' n' h' s))
      × (result.1 ≡ (has_handlers_for_node t n s && not (has_handlers_for_node t n result.0)))

  remove_absent :
      (t n r t' n' h' : Text) (s : HandlerStorage T)
      → find n (entry t s) ≡ none
      → RemoveSpec t n r t' n' h' s (s, false)
  unfolding find
  remove_absent t n r t' n' h' s e = (
    elim (Bool-cases (text_eq t t' && text_eq n n')) [
      | inl both ↦
          let here : find n' (entry t' s) ≡ none =
            rw (← (text_eq_iff t t').0 (ground arith), ← (text_eq_iff n n').0 (ground arith)) e in
          rw (both, here) (ground arith)
      | inr other ↦ rw other
    ],
    rw (has_handlers_for_node_lem t n s, e),
  )

  remove_present :
      (t n r t' n' h' : Text) (nodes : Nodes T) (handlers : Map T) (s : HandlerStorage T)
      → find t s ≡ some nodes
      → find n nodes ≡ some handlers
      → RemoveSpec t n r t' n' h' s (
        put_topic t (remove_in_nodes n r handlers nodes).0 s,
        (remove_in_nodes n r handlers nodes).1,
      )
  remove_present t n r t' n' h' nodes handlers s e f = (
    rw (entry-put_topic t t' _ s) (elim (Bool-cases (text_eq t t')) [
      | inr a ↦ rw a
      | inl a ↦
          rw (a, entry-remove_in_nodes n r n' handlers nodes, ← (text_eq_iff t t').0 a, e)
            (elim (Bool-cases (text_eq n n')) [
              | inr b ↦ rw b
              | inl b ↦ rw (b, ← (text_eq_iff n n').0 b, f, find-erase)
            ])
    ]),
    rw
        (
          has_handlers_for_node_lem t n s,
          has_handlers_for_node_lem t n (put_topic t _ s),
          e,
          entry-put_topic t t _ s,
          text_eq_refl,
          f,
          contains-remove_in_nodes n r handlers nodes,
        )
        (ground arith),
  )

  -- `RemoveHandler` removes the handler under its keys and no other. It returns whether the node had
  -- handlers for the topic and has none left: not whether a handler was removed.
  pub handler_at-remove_handler :
      (t n r t' n' h' : Text) (s : HandlerStorage T)
      → (handler_at t' n' h' (remove_handler t n r s).0 ≡ (
          if (text_eq t t' && text_eq n n') && text_eq r h' then none else handler_at t' n' h' s))
        × ((remove_handler t n r s).1 ≡ (
            has_handlers_for_node t n s
            && not (has_handlers_for_node t n (remove_handler t n r s).0)))
  unfolding remove_handler
  handler_at-remove_handler t n r t' n' h' s = elim (Option-cases (find t s)) [
    | inl e ↦
        let q : remove_handler t n r s ≡ (s, false) = rw (e, remove_handler) in
        rw q (remove_absent t n r t' n' h' s (unfold find in rw e))
    | inr (nodes, e) ↦ elim (Option-cases (find n nodes)) [
      | inl f ↦
          let q : remove_handler t n r s ≡ (s, false) = rw (e, remove_handler) (rw f) in
          rw q (remove_absent t n r t' n' h' s (rw e f))
      | inr (handlers, f) ↦
          let q : remove_handler t n r s ≡ (
            put_topic t (remove_in_nodes n r handlers nodes).0 s,
            (remove_in_nodes n r handlers nodes).1,
          ) =
            rw (e, remove_handler) (rw f) in
          rw q (remove_present t n r t' n' h' nodes handlers s e f)
    ]
  ]

  handler_at-erase_node :
      (t n t' n' h' : Text) (nodes : Nodes T) (s : HandlerStorage T)
      → entry t s ≡ nodes
      → handler_at t' n' h' (put_topic t (erase n nodes) s)
        ≡ (if text_eq t t' && text_eq n n' then none else handler_at t' n' h' s)
  unfolding find
  handler_at-erase_node t n t' n' h' nodes s e =
      rw (entry-put_topic t t' (erase n nodes) s) (elim (Bool-cases (text_eq t t')) [
        | inr a ↦ rw a
        | inl a ↦ rw (a, ← (text_eq_iff t t').0 a, e, find-erase) (ground arith)
      ])

  handler_at_absent :
      (t n t' n' h' : Text) (s : HandlerStorage T)
      → find t s ≡ none
      → handler_at t' n' h' s
        ≡ (if text_eq t t' && text_eq n n' then none else handler_at t' n' h' s)
  unfolding find
  handler_at_absent t n t' n' h' s e = elim (Bool-cases (text_eq t t')) [
    | inr a ↦ rw a
    | inl a ↦ rw (a, ← (text_eq_iff t t').0 a, e) (ground arith)
  ]

  -- `RemoveHandlersForNode` removes the node's handlers for the topic and no others, and returns
  -- whether there were any.
  pub handler_at-remove_handlers_for_node :
      (t n t' n' h' : Text) (s : HandlerStorage T)
      → (handler_at t' n' h' (remove_handlers_for_node t n s).0
          ≡ (if text_eq t t' && text_eq n n' then none else handler_at t' n' h' s))
        × ((remove_handlers_for_node t n s).1 ≡ has_handlers_for_node t n s)
  unfolding remove_handlers_for_node
  handler_at-remove_handlers_for_node t n t' n' h' s = elim (Option-cases (find t s)) [
    | inl e ↦
        let q : remove_handlers_for_node t n s ≡ (s, false) = rw (e, remove_handlers_for_node) in
        rw q (
          handler_at_absent t n t' n' h' s e,
          rw (has_handlers_for_node_lem t n s, e) (unfold find in refl),
        )
    | inr (nodes, e) ↦
        let q : remove_handlers_for_node t n s ≡ (put_topic t (erase n nodes) s, contains n nodes) =
          rw (e, remove_handlers_for_node) in
        rw q (
          handler_at-erase_node t n t' n' h' nodes s (rw e),
          rw (has_handlers_for_node_lem t n s, e),
        )
  ]
