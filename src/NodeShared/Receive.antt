-- ===== src/NodeShared/Receive.antt =====
-- `NodeShared::Publish`, `RecvMsgUpdate` and `RecvControlUpdate`: data and control messages. A `recv`
-- takes the first frame that waits at the socket and blocks where there is none: the argument holds the
-- frames that wait, and `none` says that the call does not return, or ends by an exception.
pub mod Numbers
unfoldable pub use ign_transport_git.Base.Decimal.{
  skip_space, read_digits, read_int, read_sign, stoi, to_string,
}
use ign_transport_git.Base.{
  ℕ, zero, suc, ◌+◌, ◌*◌, ◌-◌, ◌/◌, ◌%◌, ◌^◌, Bool, true, false, not, ◌&&◌, ◌||◌, ◌==◌, ltb, Option,
  none, some, List, [], ◌∷◌, ◌++◌, if◌then◌else◌, Text,
}
use ign_transport_git.Base.Map.{Map}
use ign_transport_git.TransportTypes.{all}
use ign_transport_git.TopicStorage.{add_address, del_address_by_node}
use ign_transport_git.HandlerStorage.{Nodes, get_handlers}
use ign_transport_git.Zmq.{Call, publisher, send_all, attempt}
use ign_transport_git.Handlers.{SubscriptionHandler, Notice, run_callback}
use ign_transport_git.Packet.Header
use ign_transport_git.NodeShared.{NodeShared, Effect, zmqs, notices}

-- Whether an `int` is the number.
abbrev pub is_number : ℕ → Bool × ℕ → Bool
is_number n (negative, v) = v == n && (not negative || n == 0)

module _ {Msg : Type 0} where
  -- The frames of a data message.
  abbrev pub data_frames : Text → Text → NodeShared Msg → List Text
  data_frames topic bytes s = topic ∷ s.my_address ∷ bytes ∷ []

  -- The calls that returned, and the result.
  unfoldable pub publish : (Call → Bool) → Text → Text → NodeShared Msg → List Call × Bool
  publish ok topic bytes s = attempt ok (send_all publisher (data_frames topic bytes s))

  -- The callbacks of one node, and of all.
  unfoldable pub run_node : Text → Text → Map (SubscriptionHandler Msg) → List (Notice Msg)
  run_node topic bytes [] = []
  run_node topic bytes ((h_uuid, h) ∷ m) = (run_callback h topic bytes).0 ++ run_node topic bytes m

  unfoldable pub run_nodes : Text → Text → Nodes (SubscriptionHandler Msg) → List (Notice Msg)
  run_nodes topic bytes [] = []
  run_nodes topic bytes ((n_uuid, m) ∷ nodes) =
      run_node topic bytes m ++ run_nodes topic bytes nodes

  -- The state does not change.
  unfoldable pub recv_msg_update : List Text → NodeShared Msg → Option (List (Effect Msg))
  recv_msg_update [] s = none
  recv_msg_update (topic ∷ []) s = none
  recv_msg_update (topic ∷ sender ∷ []) s = none
  recv_msg_update (topic ∷ sender ∷ bytes ∷ rest) s =
      elim (get_handlers topic s.local_subscriptions) [
        | none ↦ some []
        | some handlers ↦ some (notices (run_nodes topic bytes handlers))
      ]

  -- The control message behind its `recv` calls.
  unfoldable pub control_update :
      Text → Text → Text → Text → NodeShared Msg → Option (NodeShared Msg)
  control_update topic proc_uuid node_uuid bytes s = elim (stoi bytes) [
    | none ↦ none
    | some v ↦
        if is_number Header.new_connection v
        then some (record s {
          remote_subscribers =
              (add_address topic [] [] proc_uuid node_uuid all s.remote_subscribers).0;
        })
        else if is_number Header.end_connection v
        then some (record s {
          remote_subscribers =
              (del_address_by_node topic proc_uuid node_uuid s.remote_subscribers).0;
        })
        else some s
  ]

  unfoldable pub recv_control_update : List Text → NodeShared Msg → Option (NodeShared Msg)
  recv_control_update [] s = none
  recv_control_update (topic ∷ []) s = none
  recv_control_update (topic ∷ proc_uuid ∷ []) s = none
  recv_control_update (topic ∷ proc_uuid ∷ node_uuid ∷ []) s = none
  recv_control_update (topic ∷ proc_uuid ∷ node_uuid ∷ bytes ∷ rest) s =
      control_update topic proc_uuid node_uuid bytes s
