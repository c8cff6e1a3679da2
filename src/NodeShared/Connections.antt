-- ===== src/NodeShared/Connections.antt =====
-- `NodeShared::OnNewConnection`, `OnNewDisconnection`, `OnNewSrvConnection` and
-- `OnNewSrvDisconnection`: what the discovery service calls.
pub mod Subscribers
pub mod Greetings
pub mod Losses
use ign_transport_git.Base.{
  Bool, true, false, not, ◌&&◌, Option, none, some, List, [], ◌∷◌, ◌++◌, is_empty, get_or,
  remove_if, if◌then◌else◌, Text, text_eq,
}
use ign_transport_git.Base.Map.{Map, find}
use ign_transport_git.TransportTypes.{Scope, Address, Addresses}
use ign_transport_git.TopicStorage.{
  add_address, has_address, get_address, get_addresses, del_address_by_node, del_addresses_by_proc,
}
use ign_transport_git.HandlerStorage.{Nodes, get_handlers, has_handlers_for_topic}
use ign_transport_git.Packet.Header
use ign_transport_git.Zmq.{
  Call, subscriber, requester, dealer, connect, disconnect, subscribe, send_all, attempt,
}
use ign_transport_git.Handlers.{SubscriptionHandler}
use ign_transport_git.NodeShared.{NodeShared, Effect, Action, ◌>>◌, zmqs}
use ign_transport_git.NodeShared.Receive.{to_string}
use ign_transport_git.NodeShared.Services.{is_listed, send_pending_remote_reqs}

-- The frames that tell a publisher of a subscriber.
abbrev pub control_frames : Text → Text → Text → Text → List Text
control_frames topic p_uuid node_uuid bytes = topic ∷ p_uuid ∷ node_uuid ∷ bytes ∷ []

-- `disconnect` of one connection after another, outside any `try` block: `none` if one throws.
unfoldable pub disconnect_all : (Call → Bool) → List Address → Option (List Call)
disconnect_all ok [] = some []
disconnect_all ok (c ∷ v) =
    if ok (disconnect subscriber c.addr)
    then elim (disconnect_all ok v) [
      | none ↦ none
      | some calls ↦ some (disconnect subscriber c.addr ∷ calls)
    ]
    else none

module _ {Msg : Type 0} where
  -- One message for each handler of the topic, on the new DEALER socket.
  unfoldable pub greet_node : Text → Text → Text → Map (SubscriptionHandler Msg) → List Call
  greet_node ctrl topic p_uuid [] = []
  greet_node ctrl topic p_uuid ((h_uuid, h) ∷ m) =
      send_all (dealer ctrl)
        (control_frames topic p_uuid h.n_uuid (to_string Header.new_connection))
      ++ greet_node ctrl topic p_uuid m

  unfoldable pub greet_nodes : Text → Text → Text → Nodes (SubscriptionHandler Msg) → List Call
  greet_nodes ctrl topic p_uuid [] = []
  greet_nodes ctrl topic p_uuid ((n_uuid, m) ∷ nodes) =
      greet_node ctrl topic p_uuid m ++ greet_nodes ctrl topic p_uuid nodes

  unfoldable pub greetings : Text → Text → NodeShared Msg → List Call
  greetings ctrl topic s = elim (get_handlers topic s.local_subscriptions) [
    | none ↦ []
    | some handlers ↦ greet_nodes ctrl topic s.p_uuid handlers
  ]

  -- The calls before the connection is registered.
  unfoldable pub open_calls : Text → Text → NodeShared Msg → List Call
  open_calls topic addr s =
      (if has_address addr s.connections then [] else connect subscriber addr ∷ [])
      ++ subscribe topic ∷ []

  -- The `try` block. It catches every exception of 0MQ.
  unfoldable pub connect_publisher :
      (Call → Bool) → Text → Text → Text → Text → Text → Scope → Action Msg
  connect_publisher ok topic addr ctrl p_uuid n_uuid scope s =
      let (opened, fine) = attempt ok (open_calls topic addr s) in
      if fine
      then some (
        record s {
          connections = (add_address topic addr ctrl p_uuid n_uuid scope s.connections).0;
        },
        zmqs (opened ++ (attempt ok (connect (dealer ctrl) ctrl ∷ greetings ctrl topic s)).0),
      )
      else some (s, zmqs opened)

  unfoldable pub on_new_connection :
      (Call → Bool) → Text → Text → Text → Text → Text → Scope → Action Msg
  on_new_connection ok topic addr ctrl p_uuid n_uuid scope s =
      if has_handlers_for_topic topic s.local_subscriptions && not (text_eq s.p_uuid p_uuid)
      then connect_publisher ok topic addr ctrl p_uuid n_uuid scope s
      else some (s, [])

  -- With a topic and a node.
  unfoldable pub drop_node : (Call → Bool) → Text → Text → Text → Action Msg
  drop_node ok topic p_uuid n_uuid s =
      let s' : NodeShared Msg = record s {
        remote_subscribers = (del_address_by_node topic p_uuid n_uuid s.remote_subscribers).0;
      } in
      elim (get_address topic p_uuid n_uuid s.connections) [
        | none ↦ some (s', [])
        | some c ↦ elim (disconnect_all ok (c ∷ [])) [
          | none ↦ none
          | some calls ↦ some (
            record s' { connections = (del_address_by_node topic p_uuid n_uuid s.connections).0 },
            zmqs calls,
          )
        ]
      ]

  -- Without a topic or without a node.
  unfoldable pub drop_proc : (Call → Bool) → Text → Text → Action Msg
  drop_proc ok topic p_uuid s =
      let s' : NodeShared Msg = record s {
        remote_subscribers = (del_addresses_by_proc p_uuid s.remote_subscribers).0;
      } in
      elim (get_addresses topic s.connections) [
        | none ↦ some (s', [])
        | some info ↦ elim (disconnect_all ok (get_or (find p_uuid info) [])) [
          | none ↦ none
          | some calls ↦ some (
            record s' { connections = (del_addresses_by_proc p_uuid s.connections).0 },
            zmqs calls,
          )
        ]
      ]

  unfoldable pub on_new_disconnection : (Call → Bool) → Text → Text → Text → Action Msg
  on_new_disconnection ok topic p_uuid n_uuid s =
      if not (is_empty topic) && not (is_empty n_uuid)
      then drop_node ok topic p_uuid n_uuid s
      else drop_proc ok topic p_uuid s

  -- The connection for service requests; the `connect` stands outside any `try` block.
  unfoldable pub connect_responser : (Call → Bool) → Text → Action Msg
  connect_responser ok addr s =
      if is_listed addr s.srv_connections
      then some (s, [])
      else if ok (connect requester addr)
      then some (
        record s { srv_connections = s.srv_connections ++ addr ∷ [] },
        zmqs (connect requester addr ∷ []),
      )
      else none

  unfoldable pub on_new_srv_connection : (Call → Bool) → Text → Text → Action Msg
  on_new_srv_connection ok topic addr = do
    connect_responser ok addr
    send_pending_remote_reqs ok topic

  unfoldable pub on_new_srv_disconnection : Text → Action Msg
  on_new_srv_disconnection addr s =
      some (record s { srv_connections = remove_if (λ x. text_eq x addr) s.srv_connections }, [])
