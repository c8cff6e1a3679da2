-- ===== src/Tests/Broadcasts.antt =====
-- Runs of src/Discovery.cc that send several datagrams.
use mathlib.Core.Path.{◌≡◌}
use ign_transport_git.Base.{
  refl, ◌++◌, some, [], ◌∷◌, arith, if◌then◌else◌, find_if, Text, text_eq, text_lt, bytes,
}
use ign_transport_git.Base.Map.{entry, find, insert}
use ign_transport_git.TransportTypes.{all, process, msg, srv, Address}
use ign_transport_git.TopicStorage.{
  add_address, push_address, push_all, by_proc_loop, get_addresses_by_proc,
}
use ign_transport_git.TopicStorage.Spec.{publishers}
use ign_transport_git.TopicStorage.Invariant.{add_address-IsValid}
use ign_transport_git.Packet.Bytes.{le, encode_text}
use ign_transport_git.Packet.Header
use ign_transport_git.Packet.Header.RoundTrip as HeaderTrip
use ign_transport_git.Packet.Advertise.Base.{intscope, scope_of}
use ign_transport_git.Packet.Advertise.Base.Laws as Shared
use ign_transport_git.Packet.Advertise.Msg.RoundTrip as MsgTrip
use ign_transport_git.Discovery.{Discovery, init, sent, storage, connection_set}
use ign_transport_git.Discovery.Send.{make_header, send_msg}
use ign_transport_git.Discovery.Send.Safety.{send_msg_returns}
use ign_transport_git.Discovery.Local.{discover}
use ign_transport_git.Discovery.Dispatch.{dispatch_discovery_msg}
use ign_transport_git.Discovery.Dispatch.Wire.{touched}
use ign_transport_git.Discovery.Announce.{IsAnnounceable}
use ign_transport_git.Discovery.Answers.{introductions, answers, discover-dispatch}
use ign_transport_git.Discovery.Tasks.{run_heartbeat_round}
use ign_transport_git.Discovery.Tasks.Heartbeat.{announced_topics, run_heartbeat_round_lem}

abbrev topic : Text
topic = bytes "t"

abbrev ip : Text
ip = bytes "10.0.0.1"

-- A publisher that only its own process is to see.
abbrev hidden : Address
hidden = record { addr = bytes "a1"; ctrl = bytes "c1"; n_uuid = bytes "n1"; scope = process }

abbrev alice : Discovery
alice = record (init (bytes "p1") ip) {
  info_msg = (add_address topic (bytes "a1") (bytes "c1") (bytes "p1") (bytes "n1") process []).0;
}

abbrev bob : Discovery
bob = init (bytes "p2") (bytes "10.0.0.2")

hidden-IsAnnounceable : IsAnnounceable msg topic hidden alice
unfolding init Header.is_incomplete scope_of intscope MsgTrip.encode_msg HeaderTrip.encode le
    encode_text Shared.encode_body MsgTrip.encode_names
hidden-IsAnnounceable = record {
  base-IsPackable = record {
    header-IsValid = record {
      version-lt = omega arith;
      type-lt = omega arith;
      flags-lt = omega arith;
      length-lt = omega arith;
    };
    header_complete = refl;
    body_complete = refl;
    scope-byte = refl;
    total = omega arith;
  };
  names_given = refl;
  total = omega arith;
}

-- The heartbeat of alice advertises it to all.
run_heartbeat_round_lem_example :
    run_heartbeat_round alice
    ≡ some (
        sent (HeaderTrip.encode (make_header alice Header.heartbeat_type 0))
        ∷ (announced_topics msg (get_addresses_by_proc alice.p_uuid alice.info_msg) alice
            ++ announced_topics srv (get_addresses_by_proc alice.p_uuid alice.info_srv) alice))
unfolding init Header.is_incomplete get_addresses_by_proc by_proc_loop push_all add_address
    push_address find_if find insert text_eq text_lt
run_heartbeat_round_lem_example =
    run_heartbeat_round_lem alice
      (record {
        version-lt = omega arith;
        type-lt = omega arith;
        flags-lt = omega arith;
        length-lt = omega arith;
      })
      refl ((hidden-IsAnnounceable, tt), tt) tt

-- Her answer to a subscription of bob does not.
discover-dispatch_example :
    (datagram : Text) × (discover msg topic bob
      ≡ some (
        bob,
        sent datagram
            ∷ (if connection_set msg bob
                then introductions msg topic (entry topic (storage msg bob))
                else []),
      ))
    × (dispatch_discovery_msg (bytes "10.0.0.2") (datagram ++ bytes "junk") 5 alice
        ≡ some (
          touched bob.p_uuid 5 alice,
          answers msg
              (bytes "10.0.0.2")
              topic
              (publishers topic alice.p_uuid (storage msg alice))
              alice,
        ))
unfolding init Header.is_incomplete add_address push_address find_if find insert text_eq text_lt
discover-dispatch_example =
    discover-dispatch msg topic (bytes "10.0.0.2") (bytes "junk") 5 bob alice
      (record {
        header-IsValid = record {
          version-lt = omega arith;
          type-lt = omega arith;
          flags-lt = omega arith;
          length-lt = omega arith;
        };
        header_complete = refl;
        topic_given = refl;
        total = omega arith;
      })
      refl
      (add_address-IsValid topic (bytes "a1") (bytes "c1") (bytes "p1") (bytes "n1") process []
        (tt, tt))
      (hidden-IsAnnounceable, tt)

-- An advertisement without a topic is sent all the same.
send_msg_returns_example :
    (datagram : Text) × (send_msg bob Header.adv_type [] [] [] [] all 0 ≡ some (sent datagram ∷ []))
unfolding init
send_msg_returns_example = send_msg_returns bob Header.adv_type [] [] [] [] all 0 (omega arith)
