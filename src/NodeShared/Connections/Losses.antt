-- ===== src/NodeShared/Connections/Losses.antt =====
-- `OnNewDisconnection` of src/NodeShared.cc: what a process forgets of another one.
use ign_transport_git.Base.{
  Bool-cases, text_eq_iff, if◌then◌else◌, ◌&&◌, text_eq, Bool, true, false, ◌≡◌, refl, sym, ◌∙◌,
  none, some, List, [], ◌∷◌, is_empty, find_if, remove_if, Text, arith, Option-cases, inl, inr,
}
use ign_transport_git.Base.Map.{find}
use ign_transport_git.TopicStorage.{
  TopicStorage, same_node, get_address, get_addresses, del_address_by_node, del_addresses_by_proc,
}
use ign_transport_git.TopicStorage.Spec.{publishers, publishers-del_address_by_node}
use ign_transport_git.TopicStorage.Queries.{get_address_lem}
use ign_transport_git.Zmq.{Call, disconnect, subscriber}
use ign_transport_git.NodeShared.{NodeShared, zmqs}
use ign_transport_git.NodeShared.Connections.{
  disconnect_all, drop_node, drop_proc, on_new_disconnection,
}

remove_none : {A : Type 0} (q : A → Bool) (xs : List A) → find_if q xs ≡ none → remove_if q xs ≡ xs
unfolding find_if remove_if
remove_none q [] h = refl
remove_none q (x ∷ xs) h = ground (arith, remove_none q xs)

-- The node's publishers are taken out of one list.
abbrev pub Loses : Text → Text → Text → TopicStorage → TopicStorage → Type 0
Loses t p n before after =
    (t' p' : Text)
    → publishers t' p' after ≡ (
        if text_eq t t' && text_eq p p'
        then remove_if (same_node n) (publishers t p before)
        else publishers t' p' before)

del-Loses :
    (t p n : Text) (before : TopicStorage) → Loses t p n before (del_address_by_node t p n before).0
del-Loses t p n before t' p' = (publishers-del_address_by_node t p n t' p' before).0

absent-Loses :
    (t p n : Text) (before : TopicStorage)
    → get_address t p n before ≡ none
    → Loses t p n before before
absent-Loses t p n before e t' p' =
    let none_there : find_if (same_node n) (publishers t p before) ≡ none =
      sym (get_address_lem t p n before) ∙ e in
    let kept = remove_none (same_node n) (publishers t p before) none_there in
    elim (Bool-cases (text_eq t t' && text_eq p p')) [
      | inl both ↦ rw both (
          rw (← (text_eq_iff t t').0 (ground arith), ← (text_eq_iff p p').0 (ground arith), kept)
            refl)
      | inr other ↦ rw other refl
    ]

module _ {Msg : Type 0} where
  -- A disconnection of a node's publisher, with no call of 0MQ that throws. If a connection to the node
  -- is stored for the topic, the subscriber socket disconnects from its address, once, whether or not
  -- other connections to that address are stored; otherwise no call is made. After it neither the
  -- connections nor the remote subscribers have the node under the topic and the process, and every
  -- other list of both storages, and the other nodes in that one, are as before.
  pub on_new_disconnection_lem :
      (ok : Call → Bool) (t p n : Text) (s : NodeShared Msg)
      → ((c : Call) → ok c ≡ true)
      → is_empty t ≡ false
      → is_empty n ≡ false
      → (s' : NodeShared Msg) × (on_new_disconnection ok t p n s
          ≡ some (
            s',
            elim (find_if (same_node n) (publishers t p s.connections)) [
              | none ↦ []
              | some c ↦ zmqs (disconnect subscriber c.addr ∷ [])
            ],
          ))
        × Loses t p n s.connections s'.connections
        × Loses t p n s.remote_subscribers s'.remote_subscribers
  unfolding on_new_disconnection drop_node disconnect_all
  on_new_disconnection_lem ok t p n s fine ht hn =
      rw (ht, hn, on_new_disconnection, ← get_address_lem t p n s.connections)
        (elim (Option-cases (get_address t p n s.connections)) [
          | inl e ↦ (
            record s { remote_subscribers = (del_address_by_node t p n s.remote_subscribers).0 },
            rw (e, drop_node),
            absent-Loses t p n s.connections e,
            del-Loses t p n s.remote_subscribers,
          )
          | inr (c, e) ↦ (
            record s {
              remote_subscribers = (del_address_by_node t p n s.remote_subscribers).0;
              connections = (del_address_by_node t p n s.connections).0;
            },
            rw (e, drop_node) (rw (fine (disconnect subscriber c.addr))),
            del-Loses t p n s.connections,
            del-Loses t p n s.remote_subscribers,
          )
        ])

  -- A process that says goodbye, or that was silent for too long, is reported with an empty topic. No
  -- connection is stored under an empty topic; then its connections stay as they are, no socket is
  -- disconnected, and only its remote subscribers are forgotten.
  pub on_new_disconnection_without_topic :
      (ok : Call → Bool) (p n : Text) (s : NodeShared Msg)
      → find [] s.connections ≡ none
      → on_new_disconnection ok [] p n s
        ≡ some
            (record s { remote_subscribers = (del_addresses_by_proc p s.remote_subscribers).0 }, [])
  unfolding on_new_disconnection drop_proc get_addresses
  on_new_disconnection_without_topic ok p n s e = rw (e, drop_proc)
