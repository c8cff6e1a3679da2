-- ===== src/NodeShared/Callbacks/Goodbye.antt =====
-- The goodbye of a process, from the destructor of src/Discovery.cc to the callbacks of
-- src/NodeShared.cc in another process.
use ign_transport_git.Base.{
  length, ◌+◌, ◌≤◌, ℕ, Bool, true, false, ◌≡◌, refl, ap, ◌∙◌, none, some, [], ◌∷◌, remove_if, Text,
  text_eq,
}
use ign_transport_git.Base.Map.{find, IsSorted}
use ign_transport_git.TransportTypes.{all, msg, srv}
use ign_transport_git.TopicStorage.{del_addresses_by_proc}
use ign_transport_git.Packet.Header
use ign_transport_git.Packet.Header.RoundTrip as HeaderTrip
use ign_transport_git.Discovery.{Discovery, sent, called, disconnection}
use ign_transport_git.Discovery.Send.{make_header}
use ign_transport_git.Discovery.Local.{Step}
use ign_transport_git.Discovery.Withdrawal.{Forgotten}
use ign_transport_git.Discovery.Reception.{max_rcv_str, run_reception_round, destroy}
use ign_transport_git.Discovery.Reception.Leaving.{destroy-run_reception_round}
use ign_transport_git.Zmq.{Call}
use ign_transport_git.NodeShared.{NodeShared, ◌>>◌, with_effects}
use ign_transport_git.NodeShared.Connections.{on_new_srv_disconnection}
use ign_transport_git.NodeShared.Connections.Losses.{on_new_disconnection_without_topic}
use ign_transport_git.NodeShared.Callbacks.{
  run_callback, run_event, run_events, with_discovery, recv_discovery_update,
}
use ign_transport_git.NodeShared.Callbacks.Events.{with_discovery_lem, run_events_called}

module _ {Msg : Type 0} where
  with_discovery_gone :
      (ok : Call → Bool) (step : Discovery → Step) (p : Text) (b : NodeShared Msg) {d : Discovery}
      → find [] b.connections ≡ none
      → step b.discovery
        ≡ some (
          d,
          called (disconnection msg) [] [] [] p [] all
              ∷ called (disconnection srv) [] [] [] p [] all
              ∷ [],
        )
      → with_discovery ok step b
        ≡ some (
          record b {
            discovery = d;
            remote_subscribers = (del_addresses_by_proc p b.remote_subscribers).0;
            srv_connections = remove_if (λ x. text_eq x []) b.srv_connections;
          },
          [],
        )
  unfolding with_discovery run_events run_event run_callback ◌>>◌ on_new_srv_disconnection
  with_discovery_gone ok step p b {d} absent e =
      with_discovery_lem ok step b e
      ∙ run_events_called ok (disconnection msg) [] [] [] p [] all
          (called (disconnection srv) [] [] [] p [] all ∷ []) (record b { discovery = d })
          (on_new_disconnection_without_topic ok p [] (record b { discovery = d }) absent)
      ∙ ap (with_effects []) (run_events_called ok (disconnection srv) [] [] [] p [] all [] _ refl)

  -- A process that ends is forgotten by the discovery service of another one, and is no remote
  -- subscriber there any more, but the connections to its publishers stay and no socket is
  -- disconnected: the storages of the other process in discovery are in order, both of its
  -- disconnection callbacks are set, as the constructor of `NodeShared` does, no connection is stored
  -- under an empty topic, and the UUID of the process that ends is another one, not empty, and leaves a
  -- header that fits the buffer of the receiver, whatever that held.
  pub bye-recv_discovery_update :
      (ok : Call → Bool) (a : Discovery) (b : NodeShared Msg) (from_ip buffer : Text) (now : ℕ)
      → HeaderTrip.IsValid (make_header a Header.bye_type 0)
      → Header.is_incomplete (make_header a Header.bye_type 0) ≡ false
      → length a.p_uuid + 13 ≤ max_rcv_str
      → text_eq a.p_uuid b.discovery.p_uuid ≡ false
      → IsSorted b.discovery.info_msg
      → IsSorted b.discovery.info_srv
      → b.discovery.disconnection_cb ≡ true
      → b.discovery.disconnection_srv_cb ≡ true
      → find [] b.connections ≡ none
      → (datagram : Text) × (d' : Discovery) × (destroy a
          ≡ some (record a { exit = true }, sent datagram ∷ []))
        × (recv_discovery_update ok (some (from_ip, datagram)) buffer now b
            ≡ some (
              record b {
                discovery = d';
                remote_subscribers = (del_addresses_by_proc a.p_uuid b.remote_subscribers).0;
                srv_connections = remove_if (λ x. text_eq x []) b.srv_connections;
              },
              [],
            ))
        × Forgotten a.p_uuid b.discovery d'
  unfolding recv_discovery_update run_reception_round
  bye-recv_discovery_update ok a b from_ip buffer now v c room other hm hs cb cb_srv absent =
      let p = destroy-run_reception_round a b.discovery from_ip buffer now v c room other hm hs in
      (
        p.0,
        p.1,
        p.2,
        with_discovery_gone ok _ a.p_uuid b absent
            (p.3 ∙ ap (λ x. some (p.1, x)) (rw (cb, cb_srv))),
        p.4,
      )
