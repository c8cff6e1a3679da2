-- ===== src/Node/Handshake.antt =====
-- How a publisher's process comes to know the subscribers of another one: from `Node::Advertise` of
-- src/Node.cc over a datagram of src/Discovery.cc to `OnNewConnection` of src/NodeShared.cc, and back
-- over control messages to `RecvControlUpdate`.
use ign_transport_git.Base.{
  if◌then◌else◌, length, drop, ◌≤◌, ℕ, Bool, true, false, ◌≡◌, ap, ◌∙◌, some, List, [], ◌∷◌, ◌++◌,
  Text, text_eq,
}
use ign_transport_git.Base.Map.{insert_new}
use ign_transport_git.TransportTypes.{Scope, msg}
use ign_transport_git.TopicStorage.{has_address, add_address, has_topic}
use ign_transport_git.HandlerStorage.{has_handlers_for_topic}
use ign_transport_git.HandlerStorage.Invariant as Handlers
use ign_transport_git.Packet.Header
use ign_transport_git.Packet.Advertise.Msg.RoundTrip as MsgTrip
use ign_transport_git.Zmq.{subscriber, subscribe, Call, dealer, connect}
use ign_transport_git.Discovery.{Discovery, sent, called, connection}
use ign_transport_git.Discovery.Send.{make_advertise}
use ign_transport_git.Discovery.Local.{Step}
use ign_transport_git.Discovery.Local
use ign_transport_git.Discovery.{out_of_scope}
use ign_transport_git.Discovery.Protocol.{visible, sent_advertise, dispatch-encode_msg}
use ign_transport_git.Discovery.Reception.{max_rcv_str}
use ign_transport_git.Discovery.Reception.Fits.{recv_discovery_update_lem}
use ign_transport_git.Discovery.Dispatch.Wire.{touched}
use ign_transport_git.NodeShared.{Effect, NodeShared, ◌>>◌, zmqs, broadcast}
use ign_transport_git.NodeShared.Receive.{to_string}
use ign_transport_git.NodeShared.Connections.{on_new_connection, open_calls}
use ign_transport_git.NodeShared.Connections.Subscribers.{AreKnown}
use ign_transport_git.NodeShared.Connections.Greetings.{
  send_each, control_messages, subscribers, recv_controls, on_new_connection-recv_control_update,
}
use ign_transport_git.NodeShared.Callbacks.{
  run_callback, run_event, run_events, recv_discovery_update,
}
use ign_transport_git.NodeShared.Callbacks.Events.{with_discovery_lem, run_events_called}
use ign_transport_git.Node.{Node, full_name, advertise}

module _ {Msg : Type 0} where
  advertise_lem :
      (ok : Call → Bool) (scope : Scope) (topic full : Text) (n : Node) (a : NodeShared Msg)
      {d : Discovery} {datagram : Text}
      → full_name topic n ≡ some full
      → Local.advertise msg full a.my_address a.my_control_address n.n_uuid scope a.discovery
        ≡ some (d, sent datagram ∷ [])
      → advertise ok topic scope n a
        ≡ some (
          record n { topics_advertised = insert_new full tt n.topics_advertised },
          record a { discovery = d },
          true,
          broadcast datagram ∷ [],
        )
  unfolding advertise run_events run_event ◌>>◌
  advertise_lem ok scope topic full n a name e = rw name (rw (with_discovery_lem ok _ a e))

  -- A process that hears of a new publisher.
  abbrev informed :
      Scope → Text → Text → Text → Text → ℕ → Discovery → NodeShared Msg → NodeShared Msg
  informed scope full addr ctrl n_uuid now a b = record b {
    discovery = record (touched a.p_uuid now b.discovery) {
      info_msg = (add_address full addr ctrl a.p_uuid n_uuid scope b.discovery.info_msg).0;
    };
  }

  recv_discovery_update_new :
      (ok : Call → Bool) (scope : Scope) (full addr ctrl n_uuid from_ip buffer : Text) (now : ℕ)
      (a : Discovery) (b : NodeShared Msg) {s' : NodeShared Msg} {effects : List (Effect Msg)}
      → MsgTrip.IsPackable (make_advertise a Header.adv_type full addr ctrl n_uuid scope 0)
      → length (MsgTrip.encode_msg (make_advertise a Header.adv_type full addr ctrl n_uuid scope 0))
        ≤ max_rcv_str
      → out_of_scope scope from_ip b.discovery ≡ false
      → text_eq a.p_uuid b.discovery.p_uuid ≡ false
      → b.discovery.connection_cb ≡ true
      → (add_address full addr ctrl a.p_uuid n_uuid scope b.discovery.info_msg).1 ≡ true
      → on_new_connection ok full addr ctrl a.p_uuid n_uuid scope
          (informed scope full addr ctrl n_uuid now a b)
        ≡ some (s', effects)
      → recv_discovery_update ok
          (some (
            from_ip,
            MsgTrip.encode_msg (make_advertise a Header.adv_type full addr ctrl n_uuid scope 0),
          ))
          buffer
          now
          b
        ≡ some (s', effects ++ [])
  unfolding recv_discovery_update run_callback run_events
  recv_discovery_update_new ok scope full addr ctrl n_uuid from_ip buffer now a b pack room vis
        other cb fresh e =
      let datagram : Text =
        MsgTrip.encode_msg (make_advertise a Header.adv_type full addr ctrl n_uuid scope 0) in
      let b1 : NodeShared Msg = informed scope full addr ctrl n_uuid now a b in
      with_discovery_lem ok _ b
        {events = called (connection msg) full addr ctrl a.p_uuid n_uuid scope ∷ []}
        (recv_discovery_update_lem from_ip datagram buffer now b.discovery room
          ∙ dispatch-encode_msg msg full addr ctrl n_uuid scope a b.discovery from_ip
              (drop (length datagram) buffer) now pack vis other
          ∙ ap (λ x. some (b1.discovery, x)) (rw (fresh, cb)))
      ∙ run_events_called ok (connection msg) full addr ctrl a.p_uuid n_uuid scope [] b1 e

  -- `Advertise` reaches the subscribers of another process. The name of the topic is valid, the
  -- publisher's data is complete and its message fits the buffer of a receiver, no call of 0MQ throws,
  -- and process `b` is another one, in the scope of the advertisement: the scope is not `Process`, nor
  -- `Host` with a datagram that comes from another address than the host address of `b`. It has
  -- well-formed handlers of the topic, has its connection callback set, and does not know this
  -- publisher. Then `Advertise` at `a` sends one datagram. When `b` receives that datagram, whatever its
  -- buffer held, its subscriber socket connects to the publisher's address, unless a connection with
  -- that address is stored already, filters for the topic, and it sends a control message for each of
  -- its handlers. When `a` has received these, it has remote subscribers of the topic, among them the
  -- node of every handler of `b`.
  pub advertise-recv_discovery_update :
      (ok : Call → Bool) (scope : Scope) (topic full : Text) (n : Node) (a b : NodeShared Msg)
      (from_ip buffer : Text) (now : ℕ)
      → ((c : Call) → ok c ≡ true)
      → full_name topic n ≡ some full
      → MsgTrip.IsPackable (
          make_advertise a.discovery Header.adv_type full a.my_address a.my_control_address n.n_uuid
            scope 0)
      → length (
          MsgTrip.encode_msg (
            make_advertise a.discovery Header.adv_type full a.my_address a.my_control_address
              n.n_uuid scope 0))
        ≤ max_rcv_str
      → out_of_scope scope from_ip b.discovery ≡ false
      → text_eq a.discovery.p_uuid b.discovery.p_uuid ≡ false
      → text_eq b.p_uuid a.discovery.p_uuid ≡ false
      → b.discovery.connection_cb ≡ true
      → (add_address full a.my_address a.my_control_address a.discovery.p_uuid n.n_uuid scope
          b.discovery.info_msg).1
        ≡ true
      → Handlers.IsValid b.local_subscriptions
      → has_handlers_for_topic full b.local_subscriptions ≡ true
      → let ctrl : Text = a.my_control_address in
        let messages : List (List Text) =
          control_messages full b.p_uuid (to_string Header.new_connection) (subscribers full b) in
        (datagram : Text) × (a' : NodeShared Msg) × (b' : NodeShared Msg) × (a'' : NodeShared Msg)
        × (advertise ok topic scope n a
            ≡ some (
              record n { topics_advertised = insert_new full tt n.topics_advertised },
              a',
              true,
              broadcast datagram ∷ [],
            ))
        × (recv_discovery_update ok (some (from_ip, datagram)) buffer now b
            ≡ some (
              b',
              zmqs (
                    ((if has_address a.my_address b.connections
                        then []
                        else connect subscriber a.my_address ∷ [])
                      ++ subscribe full ∷ [])
                    ++ (connect (dealer ctrl) ctrl ∷ send_each (dealer ctrl) messages))
                  ++ [],
            ))
        × (recv_controls messages a' ≡ some a'')
        × (has_topic full a''.remote_subscribers ≡ true)
        × AreKnown full b.p_uuid (subscribers full b) a''.remote_subscribers
  unfolding open_calls
  advertise-recv_discovery_update ok scope topic full n a b from_ip buffer now fine name pack room
        vis other apart cb fresh v has =
      let a' : NodeShared Msg = record a {
        discovery = record a.discovery {
          info_msg =
              (add_address full a.my_address a.my_control_address a.discovery.p_uuid n.n_uuid scope
                a.discovery.info_msg).0;
        };
      } in
      let g =
        on_new_connection-recv_control_update ok full a.my_address a.my_control_address
          a.discovery.p_uuid n.n_uuid scope
          (informed scope full a.my_address a.my_control_address n.n_uuid now a.discovery b) a' fine
          v has apart in
      (
        _,
        a',
        _,
        g.1,
        advertise_lem ok scope topic full n a name (
            sent_advertise msg full a.my_address a.my_control_address n.n_uuid scope a.discovery
              pack (visible scope from_ip b.discovery vis)),
        recv_discovery_update_new ok scope full a.my_address a.my_control_address n.n_uuid from_ip
            buffer now a.discovery b pack room vis other cb fresh g.0,
        g.2,
        g.3,
        g.4,
      )
