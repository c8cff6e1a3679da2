-- ===== src/Tests/Handshakes.antt =====
-- Processes that greet each other and say goodbye, from src/Node.cc over src/Discovery.cc to the
-- callbacks of src/NodeShared.cc.
use ign_transport_git.Base.{
  length, ◌≤◌, ℕ, true, ◌<◌, ◌≡◌, refl, some, [], ◌∷◌, ◌++◌, List, Text, text_eq, bytes, arith,
  find_if, remove_if,
}
use ign_transport_git.Base.Map.{find, insert, insert_new}
use ign_transport_git.TransportTypes.{all}
use ign_transport_git.TopicStorage.{
  has_address, add_address, push_address, has_topic, del_addresses_by_proc,
}
use ign_transport_git.HandlerStorage.{has_handlers_for_topic}
use ign_transport_git.Packet.Bytes.{le, encode_text}
use ign_transport_git.Packet.Header
use ign_transport_git.Packet.Header.RoundTrip as HeaderTrip
use ign_transport_git.Packet.Advertise.Base.{intscope, scope_of}
use ign_transport_git.Packet.Advertise.Base.Laws as Shared
use ign_transport_git.Packet.Advertise.Msg.RoundTrip as MsgTrip
use ign_transport_git.Discovery.{Discovery, init, sent}
use ign_transport_git.Discovery.Send.{make_advertise, make_header}
use ign_transport_git.Discovery.Reception.{max_rcv_str, destroy}
use ign_transport_git.Discovery.Withdrawal.{Forgotten}
use ign_transport_git.Base.{if◌then◌else◌}
use ign_transport_git.Zmq.{subscriber, subscribe, dealer, connect}
use ign_transport_git.NodeShared.{NodeShared, zmqs, broadcast}
use ign_transport_git.NodeShared.Receive.{to_string}
use ign_transport_git.NodeShared.Connections.Subscribers.{AreKnown}
use ign_transport_git.NodeShared.Connections.Greetings.{
  send_each, control_messages, subscribers, recv_controls,
}
use ign_transport_git.NodeShared.Callbacks.{recv_discovery_update}
use ign_transport_git.NodeShared.Callbacks.Goodbye.{bye-recv_discovery_update}
use ign_transport_git.Node.{advertise}
use ign_transport_git.Node.Handshake.{advertise-recv_discovery_update}
use ign_transport_git.Tests.Nodes.{returning, full, full_lem, process, node, receiver}

abbrev ip : Text
ip = bytes "10.0.0.1"

abbrev offering : NodeShared Text
offering = process (bytes "p1") (bytes "a1")

-- A subscriber that has not heard of the publisher.
abbrev unaware : NodeShared Text
unaware = record receiver { discovery = record (init (bytes "p2") ip) { connection_cb = true } }

offer-IsPackable : MsgTrip.IsPackable (
    make_advertise offering.discovery Header.adv_type full
      (bytes "a1")
      (bytes "c")
      (bytes "n1")
      all
      0)
unfolding init Header.is_incomplete scope_of intscope MsgTrip.encode_msg HeaderTrip.encode le
    encode_text Shared.encode_body MsgTrip.encode_names
offer-IsPackable = record {
  base-IsPackable = record {
    header-IsValid = record {
      version-lt = omega arith;
      type-lt = omega arith;
      flags-lt = omega arith;
      length-lt = omega arith;
    };
    header_complete = refl;
    body_complete = refl;
    scope-byte = refl;
    total = omega arith;
  };
  names_given = refl;
  total = omega arith;
}

offer-fits :
    length (
      MsgTrip.encode_msg (
        make_advertise offering.discovery Header.adv_type full
          (bytes "a1")
          (bytes "c")
          (bytes "n1")
          all
          0))
    ≤ max_rcv_str
unfolding init Header.is_incomplete scope_of intscope MsgTrip.encode_msg HeaderTrip.encode le
    encode_text Shared.encode_body MsgTrip.encode_names
offer-fits = omega arith

advertise-recv_discovery_update_example :
    let messages : List (List Text) =
      control_messages full
        (bytes "p2")
        (to_string Header.new_connection)
        (subscribers full unaware) in
    (datagram : Text) × (a' : NodeShared Text) × (b' : NodeShared Text) × (a'' : NodeShared Text)
    × (advertise returning (bytes "t") all node offering
        ≡ some (
          record node { topics_advertised = insert_new full tt node.topics_advertised },
          a',
          true,
          broadcast datagram ∷ [],
        ))
    × (recv_discovery_update returning (some (ip, datagram)) (bytes "junk") 5 unaware
        ≡ some (
          b',
          zmqs (
                ((if has_address (bytes "a1") unaware.connections
                    then []
                    else connect subscriber (bytes "a1") ∷ [])
                  ++ subscribe full ∷ [])
                ++ (connect (dealer (bytes "c")) (bytes "c")
                    ∷ send_each (dealer (bytes "c")) messages))
              ++ [],
        ))
    × (recv_controls messages a' ≡ some a'')
    × (has_topic full a''.remote_subscribers ≡ true)
    × AreKnown full (bytes "p2") (subscribers full unaware) a''.remote_subscribers
unfolding init text_eq find has_handlers_for_topic add_address push_address find_if insert
advertise-recv_discovery_update_example =
    advertise-recv_discovery_update returning all (bytes "t") full node offering unaware ip
      (bytes "junk") 5 (λ c. refl) full_lem offer-IsPackable offer-fits refl refl refl refl refl
      ((tt, tt), ((refl, ((tt, tt), ((refl, (tt, tt)), tt))), tt)) refl

abbrev listening : NodeShared Text
listening = record receiver {
  discovery = record receiver.discovery { disconnection_cb = true; disconnection_srv_cb = true };
  connections = receiver.discovery.info_msg;
}

header-IsValid :
    (type : ℕ) → type < 256 → HeaderTrip.IsValid (make_header offering.discovery type 0)
unfolding init
header-IsValid type small = record {
  version-lt = omega arith;
  type-lt = omega arith;
  flags-lt = omega arith;
  length-lt = omega arith;
}

bye-recv_discovery_update_example :
    (datagram : Text) × (d' : Discovery) × (destroy (init (bytes "p1") ip)
      ≡ some (record (init (bytes "p1") ip) { exit = true }, sent datagram ∷ []))
    × (recv_discovery_update returning (some (ip, datagram)) (bytes "junk") 5 listening
        ≡ some (
          record listening {
            discovery = d';
            remote_subscribers = (del_addresses_by_proc (bytes "p1") []).0;
            srv_connections = [];
          },
          [],
        ))
    × Forgotten (bytes "p1") listening.discovery d'
unfolding init text_eq Header.is_incomplete find remove_if
bye-recv_discovery_update_example =
    bye-recv_discovery_update returning (init (bytes "p1") ip) listening ip (bytes "junk") 5
      (header-IsValid Header.bye_type (omega arith)) refl (omega arith) refl (tt, tt) tt refl refl
      refl
