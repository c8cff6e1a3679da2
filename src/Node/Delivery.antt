-- ===== src/Node/Delivery.antt =====
-- `Node::Publish` of src/Node.cc, `NodeShared::Publish` and `NodeShared::RecvMsgUpdate` of
-- src/NodeShared.cc: a message on its way to the subscribers of its own process and of another one.
use mathlib.Core.Path.{subst}
use ign_transport_git.Base.{
  if◌then◌else◌, Bool, true, ◌≡◌, refl, ap, some, [], ◌∷◌, ◌++◌, get_or, Text, Option-cases, inl,
  inr,
}
use ign_transport_git.Base.Map.{Map, find, contains, entry, Values}
use ign_transport_git.TopicStorage.{has_topic}
use ign_transport_git.HandlerStorage.{Nodes, get_handlers}
use ign_transport_git.Zmq.{Call, publisher, send_all, attempt}
use ign_transport_git.Handlers.{SubscriptionHandler, run_callback, run_local_callback}
use ign_transport_git.NodeShared.{NodeShared, zmqs, notices}
use ign_transport_git.NodeShared.Receive.{data_frames, run_node, run_nodes, recv_msg_update}
use ign_transport_git.NodeShared.Receive
use ign_transport_git.Node.{
  Node, full_name, publish, run_local_node, run_local_nodes, local_notices,
}

module _ {Msg : Type 0} where
  -- Every handler of the topic parses the bytes to the message.
  abbrev pub Parse : Text → Msg → Nodes (SubscriptionHandler Msg) → Type 0
  Parse bytes m nodes = Values (λ handlers. Values (λ h. h.create_msg bytes ≡ m) handlers) nodes

  run_callback_lem :
      (h : SubscriptionHandler Msg) (topic bytes : Text) {m : Msg}
      → h.create_msg bytes ≡ m
      → run_callback h topic bytes ≡ run_local_callback h topic m
  unfolding run_callback run_local_callback
  run_callback_lem h topic bytes e = rw e

  run_node_lem :
      (topic bytes : Text) (m : Msg) (handlers : Map (SubscriptionHandler Msg))
      → Values (λ h. h.create_msg bytes ≡ m) handlers
      → run_node topic bytes handlers ≡ run_local_node topic m handlers
  unfolding run_node run_local_node
  run_node_lem topic bytes m [] v = refl
  run_node_lem topic bytes m ((u, h) ∷ handlers) v =
      rw (run_callback_lem h topic bytes v.0, run_node_lem topic bytes m handlers v.1)

  run_nodes_lem :
      (topic bytes : Text) (m : Msg) (nodes : Nodes (SubscriptionHandler Msg))
      → Parse bytes m nodes
      → run_nodes topic bytes nodes ≡ run_local_nodes topic m nodes
  unfolding run_nodes run_local_nodes
  run_nodes_lem topic bytes m [] v = refl
  run_nodes_lem topic bytes m ((u, handlers) ∷ nodes) v =
      rw (run_node_lem topic bytes m handlers v.0, run_nodes_lem topic bytes m nodes v.1)

  -- What a process shows for a data message is what it would show for a local publication.
  recv_msg_update_lem :
      (topic bytes : Text) (m : Msg) (a b : NodeShared Msg)
      → Parse bytes m (entry topic b.local_subscriptions)
      → recv_msg_update (data_frames topic bytes a) b ≡ some (notices (local_notices topic m b))
  unfolding recv_msg_update local_notices get_handlers
  recv_msg_update_lem topic bytes m a b v = elim (Option-cases (find topic b.local_subscriptions)) [
    | inl e ↦ rw (e, recv_msg_update, local_notices)
    | inr (nodes, e) ↦
        rw (e, recv_msg_update, local_notices)
          (ap (λ ns. some (notices ns))
            (run_nodes_lem topic bytes m nodes (subst (λ o. Parse bytes m (get_or o [])) e v)))
  ]

  -- A message that a node publishes on a topic it has advertised goes to the local subscribers, whether
  -- or not the topic has remote ones and whether or not a call of 0MQ throws, and `Publish` returns true.
  -- If the topic has remote subscribers, the message's frames go to the publisher socket, up to the first
  -- that throws, and otherwise no call of 0MQ is made. A process that gets these frames calls the
  -- handlers it has for the topic, on the same message, as it would for a local publication, if they
  -- parse what was serialized to the message.
  pub publish-recv_msg_update :
      (ok : Call → Bool) (serialize : Msg → Text) (topic full : Text) (m : Msg) (n : Node)
      (a b : NodeShared Msg)
      → full_name topic n ≡ some full
      → contains full n.topics_advertised ≡ true
      → Parse (serialize m) m (entry full b.local_subscriptions)
      → (publish ok serialize topic m n a
          ≡ some (
            n,
            a,
            true,
            notices (local_notices full m a)
                ++ (if has_topic full a.remote_subscribers
                    then zmqs (attempt ok (send_all publisher (data_frames full (serialize m) a))).0
                    else []),
          ))
        × (recv_msg_update (data_frames full (serialize m) a) b
            ≡ some (notices (local_notices full m b)))
  unfolding publish Receive.publish
  publish-recv_msg_update ok serialize topic full m n a b name mine v =
      (rw (name, mine) refl, recv_msg_update_lem full (serialize m) m a b v)
