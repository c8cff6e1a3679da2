-- ===== src/NodeShared/Connections/Greetings.antt =====
-- `OnNewConnection` of src/NodeShared.cc in the process of the subscribers, and `RecvControlUpdate` in
-- the process of the publisher.
use ign_transport_git.Base.{
  if◌then◌else◌, Bool, true, false, ◌≡◌, refl, ap, ◌∙◌, Option, some, List, [], ◌∷◌, ◌++◌, map,
  is_empty, ◌>>=◌, Text, text_eq, arith, Option-cases, inl, inr,
}
use mathlib.Core.List.{append_assoc}
use ign_transport_git.Base.Map.{Map, find, entry, find-Values, Values}
use ign_transport_git.TransportTypes.{Scope, all}
use ign_transport_git.TopicStorage.{add_address, has_address, has_topic}
use ign_transport_git.HandlerStorage.{Nodes, has_handlers_for_topic, get_handlers}
use ign_transport_git.HandlerStorage.Invariant
use ign_transport_git.Packet.Header
use ign_transport_git.Zmq.{
  Socket, Call, subscriber, subscribe, dealer, connect, send_all, attempt-all,
}
use ign_transport_git.Handlers.{SubscriptionHandler}
use ign_transport_git.NodeShared.{NodeShared, zmqs}
use ign_transport_git.NodeShared.Receive.{to_string, recv_control_update, control_update}
use ign_transport_git.NodeShared.Receive.Numbers.{stoi-to_string}
use ign_transport_git.NodeShared.Connections.{
  control_frames, greet_node, greet_nodes, greetings, open_calls, connect_publisher,
  on_new_connection,
}
use ign_transport_git.NodeShared.Connections.Subscribers.{
  register, AreKnown, known-register, has_topic-register,
}

-- One message after another on a socket.
abbrev pub send_each : Socket → List (List Text) → List Call
send_each socket [] = []
send_each socket (frames ∷ messages) = send_all socket frames ++ send_each socket messages

-- The messages for several nodes of a process.
abbrev pub control_messages : Text → Text → Text → List Text → List (List Text)
control_messages topic p_uuid bytes = map (λ n. control_frames topic p_uuid n bytes)

send_each-append :
    (socket : Socket) (ms ms' : List (List Text))
    → send_each socket (ms ++ ms') ≡ send_each socket ms ++ send_each socket ms'
send_each-append socket [] ms' = refl
send_each-append socket (m ∷ ms) ms' = rw (send_each-append socket ms ms', append_assoc)

map-append : {A B : Type 0} (f : A → B) (xs ys : List A) → map f (xs ++ ys) ≡ map f xs ++ map f ys
map-append f [] ys = refl
map-append f (x ∷ xs) ys = rw (map-append f xs ys)

module _ {Msg : Type 0} where
  -- The nodes of the handlers.
  abbrev pub node_uuids : Nodes (SubscriptionHandler Msg) → List Text
  node_uuids [] = []
  node_uuids ((u, handlers) ∷ nodes) = map (λ e. e.1.n_uuid) handlers ++ node_uuids nodes

  abbrev pub subscribers : Text → NodeShared Msg → List Text
  subscribers topic s = node_uuids (entry topic s.local_subscriptions)

  -- Control messages, one after another.
  abbrev pub recv_controls : List (List Text) → NodeShared Msg → Option (NodeShared Msg)
  recv_controls [] s = some s
  recv_controls (frames ∷ messages) s = recv_control_update frames s >>= recv_controls messages

  greet_node_lem :
      (ctrl topic p : Text) (handlers : Map (SubscriptionHandler Msg))
      → greet_node ctrl topic p handlers
        ≡ send_each (dealer ctrl) (
            control_messages topic p
              (to_string Header.new_connection)
              (map (λ e. e.1.n_uuid) handlers))
  unfolding greet_node
  greet_node_lem ctrl topic p [] = refl
  greet_node_lem ctrl topic p ((u, h) ∷ handlers) = rw (greet_node_lem ctrl topic p handlers)

  greet_nodes_lem :
      (ctrl topic p : Text) (nodes : Nodes (SubscriptionHandler Msg))
      → greet_nodes ctrl topic p nodes
        ≡ send_each
            (dealer ctrl)
            (control_messages topic p (to_string Header.new_connection) (node_uuids nodes))
  unfolding greet_nodes
  greet_nodes_lem ctrl topic p [] = refl
  greet_nodes_lem ctrl topic p ((u, handlers) ∷ nodes) = rw (
    greet_node_lem ctrl topic p handlers,
    greet_nodes_lem ctrl topic p nodes,
    map-append,
    send_each-append,
  )

  greetings_lem :
      (ctrl topic : Text) (s : NodeShared Msg)
      → greetings ctrl topic s
        ≡ send_each (dealer ctrl) (
            control_messages topic s.p_uuid (to_string Header.new_connection) (subscribers topic s))
  unfolding greetings get_handlers
  greetings_lem ctrl topic s = elim (Option-cases (find topic s.local_subscriptions)) [
    | inl e ↦ rw (e, greetings)
    | inr (nodes, e) ↦ rw (e, greetings) (greet_nodes_lem ctrl topic s.p_uuid nodes)
  ]

  pub control_new_connection :
      (topic p n : Text) (s : NodeShared Msg)
      → recv_control_update (control_frames topic p n (to_string Header.new_connection)) s
        ≡ some (record s {
          remote_subscribers = (add_address topic [] [] p n all s.remote_subscribers).0;
        })
  unfolding recv_control_update control_update
  control_new_connection topic p n s =
      rw (stoi-to_string Header.new_connection (omega arith), recv_control_update, control_update)

  recv_controls_lem :
      (topic p : Text) (ns : List Text) (s : NodeShared Msg)
      → recv_controls (control_messages topic p (to_string Header.new_connection) ns) s
        ≡ some (record s { remote_subscribers = register topic p ns s.remote_subscribers })
  unfolding register
  recv_controls_lem topic p [] s = refl
  recv_controls_lem topic p (n ∷ ns) s =
      ap (λ o. o >>= recv_controls (control_messages topic p (to_string Header.new_connection) ns))
        (control_new_connection topic p n s)
      ∙ recv_controls_lem topic p ns _

  node_uuids_nonempty :
      (nodes : Nodes (SubscriptionHandler Msg))
      → is_empty nodes ≡ false
      → Values Invariant.IsValidNode nodes
      → is_empty (node_uuids nodes) ≡ false
  node_uuids_nonempty [] h v = cc
  node_uuids_nonempty ((u, []) ∷ nodes) h v = absurd (ground (arith, v.0.0))
  node_uuids_nonempty ((u, x ∷ handlers) ∷ nodes) h v = refl

  subscribers_nonempty :
      (topic : Text) (s : NodeShared Msg)
      → Invariant.IsValid s.local_subscriptions
      → has_handlers_for_topic topic s.local_subscriptions ≡ true
      → is_empty (subscribers topic s) ≡ false
  unfolding has_handlers_for_topic
  subscribers_nonempty topic s v h = elim (Option-cases (find topic s.local_subscriptions)) [
    | inl e ↦
        let no : has_handlers_for_topic topic s.local_subscriptions ≡ false =
          rw (e, has_handlers_for_topic) in
        cc
    | inr (nodes, e) ↦
        let w = find-Values _ topic _ v.1 e in rw e (node_uuids_nonempty nodes w.0 w.1.1)
  ]

  registered :
      (topic p : Text) (ns : List Text) (b : NodeShared Msg)
      → is_empty ns ≡ false
      → (b' : NodeShared Msg) × (recv_controls
            (control_messages topic p (to_string Header.new_connection) ns)
            b
          ≡ some b')
        × (has_topic topic b'.remote_subscribers ≡ true)
        × AreKnown topic p ns b'.remote_subscribers
  registered topic p [] b h = cc
  registered topic p (n ∷ ns) b h = (
    _,
    recv_controls_lem topic p (n ∷ ns) b,
    has_topic-register topic p n ns b.remote_subscribers,
    known-register topic p (n ∷ ns) b.remote_subscribers,
  )

  -- `OnNewConnection` in a process with handlers of the topic, for a publisher in another process and
  -- with no call of 0MQ that throws: the connection is registered, the subscriber socket connects to the
  -- publisher's address, unless a connection with that address is stored already, and filters for the
  -- topic, and the publisher's control address gets a message for each handler, in this order. When
  -- the publisher's process has received these, the topic has remote subscribers there, so that
  -- `Publish` sends, and every node of a handler is one of them. The handlers are well formed.
  pub on_new_connection-recv_control_update :
      (ok : Call → Bool) (topic addr ctrl p_uuid n_uuid : Text) (scope : Scope)
      (a b : NodeShared Msg)
      → ((c : Call) → ok c ≡ true)
      → Invariant.IsValid a.local_subscriptions
      → has_handlers_for_topic topic a.local_subscriptions ≡ true
      → text_eq a.p_uuid p_uuid ≡ false
      → (on_new_connection ok topic addr ctrl p_uuid n_uuid scope a
          ≡ some (
            record a {
              connections = (add_address topic addr ctrl p_uuid n_uuid scope a.connections).0;
            },
            zmqs (
                ((if has_address addr a.connections then [] else connect subscriber addr ∷ [])
                  ++ subscribe topic ∷ [])
                ++ (connect (dealer ctrl) ctrl
                    ∷ send_each (dealer ctrl) (
                        control_messages topic a.p_uuid
                          (to_string Header.new_connection)
                          (subscribers topic a)))),
          ))
        × (b' : NodeShared Msg) × (recv_controls
              (control_messages topic a.p_uuid
                (to_string Header.new_connection)
                (subscribers topic a))
              b
            ≡ some b')
        × (has_topic topic b'.remote_subscribers ≡ true)
        × AreKnown topic a.p_uuid (subscribers topic a) b'.remote_subscribers
  unfolding on_new_connection connect_publisher open_calls
  on_new_connection-recv_control_update ok topic addr ctrl p n scope a b fine v h other =
      let r =
        registered topic a.p_uuid (subscribers topic a) b (subscribers_nonempty topic a v h) in
      (
        rw (
          h,
          other,
          attempt-all ok (open_calls topic addr a) fine,
          attempt-all ok (connect (dealer ctrl) ctrl ∷ greetings ctrl topic a) fine,
          greetings_lem ctrl topic a,
        ),
        r.0,
        r.1,
        r.2,
        r.3,
      )
