-- ===== src/NodeShared/Callbacks.antt =====
-- The discovery service of src/Discovery.cc with the callbacks that the constructor of `NodeShared`
-- sets. Its callbacks run where it calls them; none of them changes the service's state, and those of a
-- goodbye do not read it, so they are run behind the operation, in their order.
pub mod Events
pub mod Goodbye
use ign_transport_git.Base.{Option, ℕ, Bool, true, none, some, List, [], ◌∷◌, Text}
use ign_transport_git.TransportTypes.{Scope, msg, srv}
use ign_transport_git.Discovery.{
  Discovery, init, Callback, Event, sent, called, connection, disconnection,
}
use ign_transport_git.Discovery.Settings.{
  set_connections_cb, set_disconnections_cb, set_connections_srv_cb, set_disconnections_srv_cb,
}
use ign_transport_git.Discovery.Local.{Step}
use ign_transport_git.Zmq.{Call}
use ign_transport_git.Discovery.Reception
use ign_transport_git.NodeShared.{NodeShared, Action, ◌>>◌, broadcast, skip}
use ign_transport_git.NodeShared.Connections.{
  on_new_connection, on_new_disconnection, on_new_srv_connection, on_new_srv_disconnection,
}

module _ {Msg : Type 0} where
  -- The constructor: the UUIDs, `determineHost()` and the endpoints that 0MQ bound are arguments.
  unfoldable pub init_shared :
      Text → Text → Text → Text → Text → Text → Text → Text → NodeShared Msg
  init_shared p_uuid host_addr data_ep control_ep requester_ep replier_ep receiver_id replier_id =
      record {
        my_address = data_ep;
        my_control_address = control_ep;
        my_requester_address = requester_ep;
        my_replier_address = replier_ep;
        host_addr = host_addr;
        p_uuid = p_uuid;
        response_receiver_id = receiver_id;
        replier_id = replier_id;
        discovery = set_disconnections_srv_cb true (
            set_connections_srv_cb true
              (set_disconnections_cb true (set_connections_cb true (init p_uuid host_addr))));
        connections = [];
        srv_connections = [];
        remote_subscribers = [];
        local_subscriptions = [];
        repliers = [];
        requests = [];
      }

  unfoldable pub run_callback :
      (Call → Bool) → Callback → Text → Text → Text → Text → Text → Scope → Action Msg
  run_callback ok (connection msg) topic addr ctrl p_uuid n_uuid scope =
      on_new_connection ok topic addr ctrl p_uuid n_uuid scope
  run_callback ok (connection srv) topic addr ctrl p_uuid n_uuid scope =
      on_new_srv_connection ok topic addr
  run_callback ok (disconnection msg) topic addr ctrl p_uuid n_uuid scope =
      on_new_disconnection ok topic p_uuid n_uuid
  run_callback ok (disconnection srv) topic addr ctrl p_uuid n_uuid scope =
      on_new_srv_disconnection addr

  unfoldable pub run_event : (Call → Bool) → Event → Action Msg
  run_event ok (sent datagram) = λ s. some (s, broadcast datagram ∷ [])
  run_event ok (called cb topic addr ctrl p_uuid n_uuid scope) =
      run_callback ok cb topic addr ctrl p_uuid n_uuid scope

  unfoldable pub run_events : (Call → Bool) → List Event → Action Msg
  run_events ok [] = skip
  run_events ok (e ∷ events) = do run_event ok e; run_events ok events

  -- A call of the discovery service, with its callbacks.
  unfoldable pub with_discovery : (Call → Bool) → (Discovery → Step) → Action Msg
  with_discovery ok step s = elim (step s.discovery) [
    | none ↦ none
    | some (d, events) ↦ run_events ok events (record s { discovery = d })
  ]

  -- `Discovery::RecvDiscoveryUpdate` in the discovery service of the process, with the sender and the
  -- datagram that `recvfrom` gave and what stood in the buffer.
  unfoldable pub recv_discovery_update :
      (Call → Bool) → Option (Text × Text) → Text → ℕ → Action Msg
  recv_discovery_update ok received buffer now =
      with_discovery ok (Reception.recv_discovery_update received buffer now)
