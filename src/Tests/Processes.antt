-- ===== src/Tests/Processes.antt =====
-- Two discovery services of src/Discovery.cc that exchange datagrams.
use mathlib.Core.Path.{◌≡◌}
use ign_transport_git.Base.{
  ◌*◌, ◌^◌, ◌+◌, ◌≤◌, ◌⊎◌, ℕ, ◌<◌, refl, true, false, find_if, text_lt, ◌++◌, ◌&&◌, none, some, [],
  ◌∷◌, arith, if◌then◌else◌, Text, text_eq, bytes,
}
use ign_transport_git.Base.Map.{find, insert}
use ign_transport_git.TransportTypes.{all, MsgType, msg, srv, Address}
use ign_transport_git.TopicStorage.{add_address, push_address, get_address, del_address_by_node}
use ign_transport_git.TopicStorage.Spec.{publishers}
use ign_transport_git.Packet.Bytes.{le, encode_text}
use ign_transport_git.Packet.Header
use ign_transport_git.Packet.Header.{Header}
use ign_transport_git.Packet.Header.RoundTrip as HeaderTrip
use ign_transport_git.Packet.Advertise.Base.{intscope, scope_of}
use ign_transport_git.Packet.Advertise.Base.Laws as Shared
use ign_transport_git.Packet.Advertise.Msg.RoundTrip as MsgTrip
use ign_transport_git.Discovery.{
  Discovery, init, sent, called, connection, disconnection, storage, set_storage, connection_set,
}
use ign_transport_git.Discovery.Send.{make_advertise, make_header}
use ign_transport_git.Discovery.Local.{advertise, unadvertise}
use ign_transport_git.Discovery.Dispatch.{call_gone, dispatch_discovery_msg}
use ign_transport_git.Discovery.Dispatch.Wire.{touched}
use ign_transport_git.Discovery.Protocol.{advertise-dispatch}
use ign_transport_git.Discovery.Withdrawal.{Forgotten, unadvertise-dispatch}
use ign_transport_git.Discovery.Reception.{run_reception_round, destroy}
use ign_transport_git.Discovery.Reception.Leaving.{destroy-run_reception_round}
use ign_transport_git.Discovery.Reachable.{
  IsValid, started, callbacks_set, received, Reachable-IsValid,
}
use ign_transport_git.Discovery.Ownership.{dispatch_keeps_own}
use ign_transport_git.Discovery.Elapsed.{elapsed_ms, round, near, unit_of, scale_of}
use ign_transport_git.Discovery.Tasks.{is_expired, run_activity_round}
use ign_transport_git.Discovery.Tasks.Patience.{is_expired_lem}
use ign_transport_git.Discovery.Tasks.Expiry.{silent, farewells, is_among, run_activity_round_lem}
use ign_transport_git.Tests.Storages.{two, two-IsValid}

abbrev topic : Text
topic = bytes "t"

abbrev ip : Text
ip = bytes "10.0.0.1"

-- A process with a publisher of the topic.
abbrev alice : Discovery
alice = record (init (bytes "p1") ip) {
  info_msg = (add_address topic (bytes "a1") (bytes "c1") (bytes "p1") (bytes "n1") all []).0;
}

-- A process with both callbacks of topics set.
abbrev bob : Discovery
bob = record (init (bytes "p2") (bytes "10.0.0.2")) {
  connection_cb = true;
  disconnection_cb = true;
}

hello-IsPackable :
    MsgTrip.IsPackable
      (make_advertise alice Header.adv_type topic (bytes "a1") (bytes "c1") (bytes "n1") all 0)
unfolding init Header.is_incomplete scope_of intscope MsgTrip.encode_msg HeaderTrip.encode le
    encode_text Shared.encode_body MsgTrip.encode_names
hello-IsPackable = record {
  base-IsPackable = record {
    header-IsValid = record {
      version-lt = omega arith;
      type-lt = omega arith;
      flags-lt = omega arith;
      length-lt = omega arith;
    };
    header_complete = refl;
    body_complete = refl;
    scope-byte = refl;
    total = omega arith;
  };
  names_given = refl;
  total = omega arith;
}

advertise-dispatch_example :
    (datagram : Text) × (advertise msg topic (bytes "a1") (bytes "c1") (bytes "n1") all alice
      ≡ some (
        set_storage msg
            (add_address topic
              (bytes "a1")
              (bytes "c1")
              alice.p_uuid
              (bytes "n1")
              all
              (storage msg alice)).0
            alice,
        sent datagram ∷ [],
      ))
    × (dispatch_discovery_msg ip (datagram ++ bytes "junk") 5 bob
        ≡ some (
          set_storage msg
              (add_address topic
                (bytes "a1")
                (bytes "c1")
                alice.p_uuid
                (bytes "n1")
                all
                (storage msg bob)).0
              (touched alice.p_uuid 5 bob),
          if (add_address topic
                  (bytes "a1")
                  (bytes "c1")
                  alice.p_uuid
                  (bytes "n1")
                  all
                  (storage msg bob)).1
                && connection_set msg bob
              then called
                  (connection msg)
                  topic
                  (bytes "a1")
                  (bytes "c1")
                  alice.p_uuid
                  (bytes "n1")
                  all
                ∷ []
              else [],
        ))
unfolding init text_eq
advertise-dispatch_example =
    advertise-dispatch msg topic (bytes "a1") (bytes "c1") (bytes "n1") all alice bob ip
      (bytes "junk") 5 hello-IsPackable refl refl

bye-IsPackable :
    MsgTrip.IsPackable
      (make_advertise alice Header.unadv_type topic (bytes "a1") (bytes "c1") (bytes "n1") all 0)
unfolding init Header.is_incomplete scope_of intscope MsgTrip.encode_msg HeaderTrip.encode le
    encode_text Shared.encode_body MsgTrip.encode_names
bye-IsPackable = record {
  base-IsPackable = record {
    header-IsValid = record {
      version-lt = omega arith;
      type-lt = omega arith;
      flags-lt = omega arith;
      length-lt = omega arith;
    };
    header_complete = refl;
    body_complete = refl;
    scope-byte = refl;
    total = omega arith;
  };
  names_given = refl;
  total = omega arith;
}

abbrev offered : Address
offered = record { addr = bytes "a1"; ctrl = bytes "c1"; n_uuid = bytes "n1"; scope = all }

offered_found : get_address topic alice.p_uuid (bytes "n1") (storage msg alice) ≡ some offered
unfolding init get_address add_address push_address find_if find insert text_eq text_lt
offered_found = refl

unadvertise-dispatch_example :
    (datagram : Text) × (unadvertise msg topic (bytes "n1") alice
      ≡ some (
        set_storage msg
            (del_address_by_node topic alice.p_uuid (bytes "n1") (storage msg alice)).0
            alice,
        sent datagram ∷ [],
      ))
    × (dispatch_discovery_msg ip (datagram ++ []) 5 bob
        ≡ some (
          set_storage msg
              (del_address_by_node topic alice.p_uuid (bytes "n1") (storage msg bob)).0
              (touched alice.p_uuid 5 bob),
          called (disconnection msg) topic (bytes "a1") (bytes "c1") alice.p_uuid (bytes "n1") all
              ∷ [],
        ))
unfolding init text_eq
unadvertise-dispatch_example =
    unadvertise-dispatch msg topic (bytes "n1") offered alice bob ip [] 5 offered_found
      bye-IsPackable refl refl

header-IsValid : (type : ℕ) → type < 256 → HeaderTrip.IsValid (make_header alice type 0)
unfolding init
header-IsValid type small = record {
  version-lt = omega arith;
  type-lt = omega arith;
  flags-lt = omega arith;
  length-lt = omega arith;
}

-- The buffer holds what an earlier datagram left.
destroy-run_reception_round_example :
    (datagram : Text) × (b' : Discovery) × (destroy alice
      ≡ some (record alice { exit = true }, sent datagram ∷ []))
    × (run_reception_round (some (some (ip, datagram))) (bytes "an earlier datagram") 5 bob
        ≡ some (b', call_gone msg alice.p_uuid bob ++ call_gone srv alice.p_uuid bob))
    × Forgotten alice.p_uuid bob b'
unfolding init text_eq Header.is_incomplete
destroy-run_reception_round_example =
    destroy-run_reception_round alice bob ip (bytes "an earlier datagram") 5
      (header-IsValid Header.bye_type (omega arith)) refl (omega arith) refl tt tt

-- A process that offers a topic, knows of another's, and has heard of two processes, the first of
-- them eight seconds before the second.
abbrev carol : Discovery
carol = record (init (bytes "p2") ip) {
  disconnection_cb = true;
  info_msg = two;
  activity = insert (bytes "p3") 8000000000 (insert (bytes "p1") 0 []);
}

carol-IsValid : IsValid carol
unfolding init find insert text_eq text_lt
carol-IsValid = record { msg_storage = two-IsValid; srv_storage = (tt, tt); not_watched = refl }

-- The first is silent for too long, the second is not.
run_activity_round_lem_example :
    let gone = silent 9000000000 carol.activity carol in
    (d' : Discovery) × (run_activity_round 9000000000 carol ≡ some (d', farewells gone))
    × ((kind : MsgType) (t p' : Text)
        → publishers t p' (storage kind d')
          ≡ (if is_among p' gone then [] else publishers t p' (storage kind carol)))
    × ((p' : Text)
        → find p' d'.activity ≡ (if is_among p' gone then none else find p' carol.activity))
unfolding init
run_activity_round_lem_example =
    run_activity_round_lem 9000000000 carol (elim [ msg ↦ two-IsValid | srv ↦ (tt, tt) ]) refl

silent-carol : silent 9000000000 carol.activity carol ≡ bytes "p1" ∷ []
unfolding init silent insert text_eq text_lt elapsed_ms round near unit_of scale_of
silent-carol = refl

-- The double nearest to 1.001 is below it.
elapsed_1001 : elapsed_ms 1001000000 ≡ 1000
unfolding elapsed_ms round near unit_of scale_of
elapsed_1001 = refl

is_expired_lem_example :
    ((is_expired 9000000000 8000000000 carol ≡ true) × (10 ^ 6 * (3000 + 1) ≤ 1000000000 + 1))
    ⊎ ((is_expired 9000000000 8000000000 carol ≡ false) × (1000000000 ≤ 10 ^ 6 * (3000 + 1)))
unfolding init
is_expired_lem_example = is_expired_lem 9000000000 8000000000 carol (omega arith)

-- What carol makes of the advertisement of alice.
abbrev carol_after : Discovery
carol_after =
    set_storage msg
      (add_address topic (bytes "a1") (bytes "c1") alice.p_uuid (bytes "n1") all
        (storage msg carol)).0
      (touched alice.p_uuid 5 carol)

dispatch_keeps_own_example :
    publishers topic carol.p_uuid carol_after.info_msg
    ≡ publishers topic carol.p_uuid carol.info_msg
unfolding init text_eq
dispatch_keeps_own_example =
    dispatch_keeps_own ip _ 5 carol carol_after _ carol-IsValid
      (advertise-dispatch msg topic (bytes "a1") (bytes "c1") (bytes "n1") all alice carol ip
        (bytes "junk") 5 hello-IsPackable refl refl).2
      msg topic

-- What bob makes of it.
abbrev bob_after : Discovery
bob_after =
    set_storage msg
      (add_address topic (bytes "a1") (bytes "c1") alice.p_uuid (bytes "n1") all
        (storage msg bob)).0
      (touched alice.p_uuid 5 bob)

Reachable-IsValid_example : IsValid bob_after
unfolding init text_eq
Reachable-IsValid_example = Reachable-IsValid (bytes "p2") (bytes "10.0.0.2") bob_after (
    received ip _ 5 (callbacks_set true true false false started)
      (advertise-dispatch msg topic (bytes "a1") (bytes "c1") (bytes "n1") all alice bob ip
        (bytes "junk") 5 hello-IsPackable refl refl).2)
