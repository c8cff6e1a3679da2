-- ===== src/NodeShared/Services.antt =====
-- `NodeShared::RecvSrvRequest`, `RecvSrvResponse` and `SendPendingRemoteReqs`: service calls. The
-- frames that wait at a socket are an argument, as for data messages.
pub mod Pending
pub mod Exchange
use ign_transport_git.Base.{
  Bool, true, false, ◌||◌, Option, none, some, List, [], ◌∷◌, ◌++◌, is_empty, if◌then◌else◌, Text,
  text_eq, bytes,
}
use ign_transport_git.Base.Map.{Map, insert}
use ign_transport_git.TransportTypes.{Address, Addresses}
use ign_transport_git.HandlerStorage.{
  Nodes, HandlerStorage, get_handlers, get_handler, get_handler_of, remove_handler,
}
use ign_transport_git.Zmq.{Call, requester, replier, connect, send_all, attempt}
use ign_transport_git.Handlers.{
  RepHandler, ReqHandler, Notice, run_service, serialize_request, set_requested, notify_result,
}
use ign_transport_git.Discovery.Settings.{get_srv_addresses}
use ign_transport_git.NodeShared.{NodeShared, Effect, Action, zmqs, notices}

-- `std::find(v.begin(), v.end(), x) != v.end()`.
unfoldable pub is_listed : Text → List Text → Bool
is_listed x [] = false
is_listed x (y ∷ v) = text_eq y x || is_listed x v

-- The text of a result on the wire.
abbrev pub result_str : Bool → Text
result_str result = if result then bytes "1" else bytes "0"

-- The frames of a response.
abbrev pub response_frames : Text → Text → Text → Text → Text → Bool → List Text
response_frames dst_id topic node_uuid req_uuid rep result =
    dst_id ∷ topic ∷ node_uuid ∷ req_uuid ∷ rep ∷ result_str result ∷ []

module _ {Msg : Type 0} where
  -- Connect for the response if that was not done yet, and send it. The `connect` stands outside the
  -- `try` block.
  unfoldable pub send_response : (Call → Bool) → Text → List Text → List (Notice Msg) → Action Msg
  send_response ok sender frames called s =
      if is_listed sender s.srv_connections
      then some (s, notices called ++ zmqs (attempt ok (send_all replier frames)).0)
      else if ok (connect replier sender)
      then some (
        record s { srv_connections = s.srv_connections ++ sender ∷ [] },
        notices called ++ zmqs (connect replier sender ∷ (attempt ok (send_all replier frames)).0),
      )
      else none

  -- The request behind its `recv` calls.
  unfoldable pub serve_request :
      (Call → Bool) → Text → Text → Text → Text → Text → Text → Action Msg
  serve_request ok topic sender dst_id node_uuid req_uuid req s =
      elim (get_handler topic s.repliers) [
        | none ↦ none
        | some none ↦ some (s, [])
        | some (some h) ↦
            let (rep, result, called) = run_service h topic req in
            send_response ok sender (response_frames dst_id topic node_uuid req_uuid rep result)
              called s
      ]

  -- The first frame is what the ROUTER socket puts before each message; it is dropped.
  unfoldable pub recv_srv_request : (Call → Bool) → List Text → Action Msg
  recv_srv_request ok [] s = none
  recv_srv_request ok (from ∷ []) s = none
  recv_srv_request ok (from ∷ topic ∷ []) s = none
  recv_srv_request ok (from ∷ topic ∷ sender ∷ []) s = none
  recv_srv_request ok (from ∷ topic ∷ sender ∷ dst_id ∷ []) s = none
  recv_srv_request ok (from ∷ topic ∷ sender ∷ dst_id ∷ node_uuid ∷ []) s = none
  recv_srv_request ok (from ∷ topic ∷ sender ∷ dst_id ∷ node_uuid ∷ req_uuid ∷ []) s = none
  recv_srv_request ok (from ∷ topic ∷ sender ∷ dst_id ∷ node_uuid ∷ req_uuid ∷ req ∷ rest) s =
      serve_request ok topic sender dst_id node_uuid req_uuid req s

  -- The response behind its `recv` calls.
  unfoldable pub take_response : Text → Text → Text → Text → Bool → Action Msg
  take_response topic node_uuid req_uuid rep result s =
      elim (get_handler_of topic node_uuid req_uuid s.requests) [
        | none ↦ some (s, [])
        | some h ↦ some (
          record s { requests = (remove_handler topic node_uuid req_uuid s.requests).0 },
          notices (notify_result h topic rep result).1,
        )
      ]

  unfoldable pub recv_srv_response : List Text → Action Msg
  recv_srv_response [] s = none
  recv_srv_response (from ∷ []) s = none
  recv_srv_response (from ∷ topic ∷ []) s = none
  recv_srv_response (from ∷ topic ∷ node_uuid ∷ []) s = none
  recv_srv_response (from ∷ topic ∷ node_uuid ∷ req_uuid ∷ []) s = none
  recv_srv_response (from ∷ topic ∷ node_uuid ∷ req_uuid ∷ rep ∷ []) s = none
  recv_srv_response (from ∷ topic ∷ node_uuid ∷ req_uuid ∷ rep ∷ result ∷ rest) s =
      take_response topic node_uuid req_uuid rep (text_eq result (bytes "1")) s

  -- The frames of a request for the service at the ROUTER identity.
  abbrev pub request_frames : Text → Text → ReqHandler Msg → NodeShared Msg → List Text
  request_frames responser_id topic h s =
      responser_id
      ∷ topic
      ∷ s.my_requester_address
      ∷ s.response_receiver_id
      ∷ h.n_uuid
      ∷ h.h_uuid
      ∷ serialize_request h
      ∷ []

  -- One pass of the inner loop: each request in a `try` block of its own.
  unfoldable pub request_node :
      (Call → Bool) → Text → Text → Map (ReqHandler Msg) → NodeShared Msg → List Call
  request_node ok responser_id topic [] s = []
  request_node ok responser_id topic ((h_uuid, h) ∷ m) s =
      let rest = request_node ok responser_id topic m s in
      if h.requested
      then rest
      else (attempt ok (send_all requester (request_frames responser_id topic h s))).0 ++ rest

  unfoldable pub request_nodes :
      (Call → Bool) → Text → Text → Nodes (ReqHandler Msg) → NodeShared Msg → List Call
  request_nodes ok responser_id topic [] s = []
  request_nodes ok responser_id topic ((n_uuid, m) ∷ nodes) s =
      request_node ok responser_id topic m s ++ request_nodes ok responser_id topic nodes s

  -- What the loop does to the objects that the storage points to.
  unfoldable pub mark_node : Map (ReqHandler Msg) → Map (ReqHandler Msg)
  mark_node [] = []
  mark_node ((h_uuid, h) ∷ m) = (h_uuid, set_requested true h) ∷ mark_node m

  unfoldable pub mark_nodes : Nodes (ReqHandler Msg) → Nodes (ReqHandler Msg)
  mark_nodes [] = []
  mark_nodes ((n_uuid, m) ∷ nodes) = (n_uuid, mark_node m) ∷ mark_nodes nodes

  -- The rest of the call, once the identity of the first responser is known.
  unfoldable pub request_all : (Call → Bool) → Text → Text → Action Msg
  request_all ok responser_id topic s = elim (get_handlers topic s.requests) [
    | none ↦ some (s, [])
    | some reqs ↦ some (
      record s { requests = insert topic (mark_nodes reqs) s.requests },
      zmqs (request_nodes ok responser_id topic reqs s),
    )
  ]

  -- `addresses.begin()->second` and `v.at(0).ctrl`; `at` throws on an empty vector.
  unfoldable pub send_to_first : (Call → Bool) → Text → Addresses → Action Msg
  send_to_first ok topic [] s = some (s, [])
  send_to_first ok topic ((p_uuid, []) ∷ addresses) s = none
  send_to_first ok topic ((p_uuid, responser ∷ v) ∷ addresses) s =
      request_all ok responser.ctrl topic s

  unfoldable pub send_pending_remote_reqs : (Call → Bool) → Text → Action Msg
  send_pending_remote_reqs ok topic s = elim (get_srv_addresses topic s.discovery) [
    | none ↦ some (s, [])
    | some addresses ↦ send_to_first ok topic addresses s
  ]
