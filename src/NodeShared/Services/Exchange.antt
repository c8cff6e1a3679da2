-- ===== src/NodeShared/Services/Exchange.antt =====
-- A service call between two processes: the request of `SendPendingRemoteReqs` of src/NodeShared.cc,
-- `RecvSrvRequest` in the process of the service, and `RecvSrvResponse` back in that of the client.
use ign_transport_git.Base.{
  Bool, true, false, ◌≡◌, refl, ap, ◌∙◌, some, List, [], ◌∷◌, ◌++◌, drop, if◌then◌else◌, Text,
  text_eq, text_eq_refl, arith, Bool-cases, bytes, inl, inr,
}
use ign_transport_git.HandlerStorage.{get_handler, get_handler_of, remove_handler}
use ign_transport_git.Zmq.{Call, replier, connect, send_all, attempt-all}
use ign_transport_git.Handlers.{
  RepHandler, ReqHandler, Notice, served, topic_name, run_service, serialize_request, notify_result,
}
use ign_transport_git.NodeShared.{NodeShared, zmqs, notices}
use ign_transport_git.NodeShared.Services.{
  is_listed, result_str, request_frames, response_frames, send_response, serve_request,
  recv_srv_request, take_response, recv_srv_response,
}

is_listed-append : (x : Text) (v : List Text) → is_listed x (v ++ x ∷ []) ≡ true
unfolding is_listed
is_listed-append x [] = rw (text_eq_refl x)
is_listed-append x (y ∷ v) = ground (arith, is_listed-append x v)

result_str_lem : (result : Bool) → text_eq (result_str result) (bytes "1") ≡ result
unfolding text_eq
result_str_lem true = refl
result_str_lem false = refl

module _ {Msg : Type 0} where
  -- Where no call throws, a response is sent, and its receiver is connected to afterwards.
  pub send_response_cases :
      (ok : Call → Bool) (sender : Text) (frames : List Text) (called : List (Notice Msg))
      (s : NodeShared Msg)
      → ((c : Call) → ok c ≡ true)
      → (s' : NodeShared Msg) × (send_response ok sender frames called s
          ≡ some (
            s',
            notices called
                ++ zmqs (
                    (if is_listed sender s.srv_connections then [] else connect replier sender ∷ [])
                    ++ send_all replier frames),
          ))
        × (is_listed sender s'.srv_connections ≡ true)
  unfolding send_response
  send_response_cases ok sender frames called s fine =
      elim (Bool-cases (is_listed sender s.srv_connections)) [
        | inl e ↦ (s, rw (e, attempt-all ok (send_all replier frames) fine), e)
        | inr e ↦ (
          record s { srv_connections = s.srv_connections ++ sender ∷ [] },
          rw (e, fine (connect replier sender), attempt-all ok (send_all replier frames) fine),
          is_listed-append sender s.srv_connections,
        )
      ]

  run_service_lem :
      (r : RepHandler Msg) (topic req : Text) {cb : Text → Msg → Msg → Msg × Bool}
      → r.cb ≡ some cb
      → run_service r topic req ≡ (
        r.serialize (cb (topic_name topic) (r.create_msg req) r.new_rep).0,
        (cb (topic_name topic) (r.create_msg req) r.new_rep).1,
        served r.h_uuid (topic_name topic) (r.create_msg req) ∷ [],
      )
  unfolding run_service
  run_service_lem r topic req e = rw (e, run_service)

  recv_response_lem :
      (from topic n u rep : Text) (result : Bool) (s : NodeShared Msg)
      → recv_srv_response (from ∷ topic ∷ n ∷ u ∷ rep ∷ result_str result ∷ []) s
        ≡ take_response topic n u rep result s
  unfolding recv_srv_response
  recv_response_lem from topic n u rep result s =
      ap (λ v. take_response topic n u rep v s) (result_str_lem result)

  take_response_lem :
      (topic rep : Text) (result : Bool) (h : ReqHandler Msg) (s : NodeShared Msg)
      → get_handler_of topic h.n_uuid h.h_uuid s.requests ≡ some h
      → take_response topic h.n_uuid h.h_uuid rep result s
        ≡ some (
          record s { requests = (remove_handler topic h.n_uuid h.h_uuid s.requests).0 },
          notices (notify_result h topic rep result).1,
        )
  unfolding take_response
  take_response_lem topic rep result h s e = rw (e, take_response)

  -- A request that a client's process sends is answered. The process of the service, in which
  -- `GetHandler` finds the handler and the handler has a callback, calls it on the request that it
  -- parses, and sends the response and the result to the identity and the address that the request
  -- names; and the client's process, when it has this response, gives both to the handler of the
  -- request and removes the handler. No call of 0MQ throws; a ROUTER socket puts its own first frame
  -- in place of the one that a message was sent with.
  pub recv_srv_response-recv_srv_request :
      (ok : Call → Bool) (ident from from' topic : Text) (h : ReqHandler Msg) (r : RepHandler Msg)
      (a b : NodeShared Msg) {cb : Text → Msg → Msg → Msg × Bool}
      → ((c : Call) → ok c ≡ true)
      → get_handler topic b.repliers ≡ some (some r)
      → r.cb ≡ some cb
      → get_handler_of topic h.n_uuid h.h_uuid a.requests ≡ some h
      → let out : Msg × Bool =
          cb (topic_name topic) (r.create_msg (serialize_request h)) r.new_rep in
        let frames : List Text =
          response_frames a.response_receiver_id topic h.n_uuid h.h_uuid
            (r.serialize out.0)
            out.1 in
        (b' : NodeShared Msg) × (recv_srv_request ok
            (from ∷ drop 1 (request_frames ident topic h a))
            b
          ≡ some (
            b',
            notices (served r.h_uuid (topic_name topic) (r.create_msg (serialize_request h)) ∷ [])
                ++ zmqs (
                    (if is_listed a.my_requester_address b.srv_connections
                      then []
                      else connect replier a.my_requester_address ∷ [])
                    ++ send_all replier frames),
          ))
        × (is_listed a.my_requester_address b'.srv_connections ≡ true)
        × (recv_srv_response (from' ∷ drop 1 frames) a
            ≡ some (
              record a { requests = (remove_handler topic h.n_uuid h.h_uuid a.requests).0 },
              notices (notify_result h topic (r.serialize out.0) out.1).1,
            ))
  unfolding recv_srv_request serve_request recv_srv_response take_response
  recv_srv_response-recv_srv_request ok ident from from' topic h r a b {cb} fine found set stored =
      let out : Msg × Bool = cb (topic_name topic) (r.create_msg (serialize_request h)) r.new_rep in
      let sent =
        send_response_cases ok a.my_requester_address
          (response_frames a.response_receiver_id topic h.n_uuid h.h_uuid (r.serialize out.0) out.1)
          (served r.h_uuid (topic_name topic) (r.create_msg (serialize_request h)) ∷ []) b fine in
      (
        sent.0,
        rw (found, recv_srv_request, serve_request)
            (rw (run_service_lem r topic (serialize_request h) set) sent.1),
        sent.2,
        recv_response_lem from' topic h.n_uuid h.h_uuid (r.serialize out.0) out.1 a
            ∙ take_response_lem topic (r.serialize out.0) out.1 h a stored,
      )
