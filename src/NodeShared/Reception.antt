-- ===== src/NodeShared/Reception.antt =====
-- `NodeShared::RunReceptionTask`: a round of the loop, from one `poll` to the next.
use ign_transport_git.Base.{Bool, Option, none, some, List, [], Text}
use ign_transport_git.Zmq.{Call}
use ign_transport_git.NodeShared.{Action, ◌>>◌, skip}
use ign_transport_git.NodeShared.Receive.{recv_msg_update, recv_control_update}
use ign_transport_git.NodeShared.Services.{recv_srv_request, recv_srv_response}

module _ {Msg : Type 0} where
  -- `items[0].revents & ZMQ_POLLIN`: the frames that wait at the subscriber, if it is readable.
  unfoldable pub poll_msg : Option (List Text) → Action Msg
  poll_msg none s = some (s, [])
  poll_msg (some frames) s = elim (recv_msg_update frames s) [
    | none ↦ none
    | some effects ↦ some (s, effects)
  ]

  unfoldable pub poll_control : Option (List Text) → Action Msg
  poll_control none s = some (s, [])
  poll_control (some frames) s = elim (recv_control_update frames s) [
    | none ↦ none
    | some s' ↦ some (s', [])
  ]

  unfoldable pub poll_request : (Call → Bool) → Option (List Text) → Action Msg
  poll_request ok none = skip
  poll_request ok (some frames) = recv_srv_request ok frames

  unfoldable pub poll_response : Option (List Text) → Action Msg
  poll_response none = skip
  poll_response (some frames) = recv_srv_response frames

  -- The four sockets in the order of the code.
  unfoldable pub run_reception_round :
      (Call → Bool)
      → Option (List Text)
      → Option (List Text)
      → Option (List Text)
      → Option (List Text)
      → Action Msg
  run_reception_round ok msgs controls requests responses = do
    poll_msg msgs
    poll_control controls
    poll_request ok requests
    poll_response responses
