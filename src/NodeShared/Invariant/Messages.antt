-- ===== src/NodeShared/Invariant/Messages.antt =====
-- The receiving functions of src/NodeShared.cc and the well-formedness of the shared state.
use mathlib.Core.Path.{subst}
use ign_transport_git.Base.{
  Bool, true, false, Option, none, some, List, [], ◌∷◌, if◌then◌else◌, Text, text_eq, bytes,
  Option-cases, inl, inr,
}
use ign_transport_git.TransportTypes.{all}
use ign_transport_git.TopicStorage.Invariant.{add_address-IsValid, del_address_by_node-IsValid}
use ign_transport_git.HandlerStorage.{get_handler, get_handler_of}
use ign_transport_git.HandlerStorage.Invariant.{remove_handler-IsValid}
use ign_transport_git.Zmq.{Call, replier, connect}
use ign_transport_git.Handlers.{Notice, run_service}
use ign_transport_git.Packet.Header
use ign_transport_git.NodeShared.{NodeShared}
use ign_transport_git.NodeShared.Receive.{
  is_number, stoi, control_update, recv_control_update, recv_msg_update,
}
use ign_transport_git.NodeShared.Services.{
  is_listed, response_frames, send_response, serve_request, recv_srv_request, take_response,
  recv_srv_response,
}
use ign_transport_git.NodeShared.Reception.{
  poll_msg, poll_control, poll_request, poll_response, run_reception_round,
}
use ign_transport_git.NodeShared.Invariant.{IsValid, Keeps, Leaves-if, Keeps->>}

module _ {Msg : Type 0} where
  Keeps-send_response :
      (ok : Call → Bool) (sender : Text) (frames : List Text) (called : List (Notice Msg))
      → Keeps {Msg = Msg} (send_response ok sender frames called)
  unfolding send_response
  Keeps-send_response ok sender frames called s v =
      Leaves-if (is_listed sender s.srv_connections) _ _ v
        (Leaves-if (ok (connect replier sender)) _ none v tt)

  Keeps-serve_request :
      (ok : Call → Bool) (topic sender dst node_uuid req_uuid req : Text)
      → Keeps {Msg = Msg} (serve_request ok topic sender dst node_uuid req_uuid req)
  unfolding serve_request
  Keeps-serve_request ok topic sender dst node_uuid req_uuid req s v =
      elim (Option-cases (get_handler topic s.repliers)) [
        | inl e ↦ rw (e, serve_request) tt
        | inr (none, e) ↦ rw (e, serve_request) v
        | inr (some h, e) ↦
            let out = run_service h topic req in
            rw (e, serve_request)
              (Keeps-send_response ok sender
                (response_frames dst topic node_uuid req_uuid out.0 out.1) out.2 s v)
      ]

  Keeps-recv_srv_request :
      (ok : Call → Bool) (frames : List Text) → Keeps {Msg = Msg} (recv_srv_request ok frames)
  unfolding recv_srv_request
  Keeps-recv_srv_request ok [] s v = tt
  Keeps-recv_srv_request ok (a ∷ []) s v = tt
  Keeps-recv_srv_request ok (a ∷ b ∷ []) s v = tt
  Keeps-recv_srv_request ok (a ∷ b ∷ c ∷ []) s v = tt
  Keeps-recv_srv_request ok (a ∷ b ∷ c ∷ d ∷ []) s v = tt
  Keeps-recv_srv_request ok (a ∷ b ∷ c ∷ d ∷ e ∷ []) s v = tt
  Keeps-recv_srv_request ok (a ∷ b ∷ c ∷ d ∷ e ∷ f ∷ []) s v = tt
  Keeps-recv_srv_request ok (a ∷ b ∷ c ∷ d ∷ e ∷ f ∷ g ∷ rest) s v =
      Keeps-serve_request ok b c d e f g s v

  Keeps-take_response :
      (topic node_uuid req_uuid rep : Text) (result : Bool)
      → Keeps {Msg = Msg} (take_response topic node_uuid req_uuid rep result)
  unfolding take_response
  Keeps-take_response topic node_uuid req_uuid rep result s v =
      elim (Option-cases (get_handler_of topic node_uuid req_uuid s.requests)) [
        | inl e ↦ rw (e, take_response) v
        | inr (h, e) ↦
            rw (e, take_response)
              (
                v.0,
                v.1,
                v.2,
                v.3,
                remove_handler-IsValid topic node_uuid req_uuid s.requests v.4,
                v.5,
              )
      ]

  Keeps-recv_srv_response : (frames : List Text) → Keeps {Msg = Msg} (recv_srv_response frames)
  unfolding recv_srv_response
  Keeps-recv_srv_response [] s v = tt
  Keeps-recv_srv_response (a ∷ []) s v = tt
  Keeps-recv_srv_response (a ∷ b ∷ []) s v = tt
  Keeps-recv_srv_response (a ∷ b ∷ c ∷ []) s v = tt
  Keeps-recv_srv_response (a ∷ b ∷ c ∷ d ∷ []) s v = tt
  Keeps-recv_srv_response (a ∷ b ∷ c ∷ d ∷ e ∷ []) s v = tt
  Keeps-recv_srv_response (a ∷ b ∷ c ∷ d ∷ e ∷ f ∷ rest) s v =
      Keeps-take_response b c d e (text_eq f (bytes "1")) s v

  -- A control message.
  abbrev LeavesOne : Option (NodeShared Msg) → Type 0
  LeavesOne none = Unit
  LeavesOne (some s) = IsValid s

  LeavesOne-if :
      (b : Bool) (x y : Option (NodeShared Msg))
      → LeavesOne x
      → LeavesOne y
      → LeavesOne (if b then x else y)
  LeavesOne-if true x y kx ky = kx
  LeavesOne-if false x y kx ky = ky

  control_update-IsValid :
      (topic p n bytes : Text) (s : NodeShared Msg)
      → IsValid s
      → LeavesOne (control_update topic p n bytes s)
  unfolding control_update
  control_update-IsValid topic p n bytes s v = elim (Option-cases (stoi bytes)) [
    | inl e ↦ rw (e, control_update) tt
    | inr (x, e) ↦
        rw (e, control_update)
          (LeavesOne-if (is_number Header.new_connection x) _ _
            (
              v.0,
              add_address-IsValid topic [] [] p n all s.remote_subscribers v.1,
              v.2,
              v.3,
              v.4,
              v.5,
            )
            (LeavesOne-if (is_number Header.end_connection x) _ _
              (
                v.0,
                del_address_by_node-IsValid topic p n s.remote_subscribers v.1,
                v.2,
                v.3,
                v.4,
                v.5,
              )
              v))
  ]

  recv_control_update-IsValid :
      (frames : List Text) (s : NodeShared Msg)
      → IsValid s
      → LeavesOne (recv_control_update frames s)
  unfolding recv_control_update
  recv_control_update-IsValid [] s v = tt
  recv_control_update-IsValid (a ∷ []) s v = tt
  recv_control_update-IsValid (a ∷ b ∷ []) s v = tt
  recv_control_update-IsValid (a ∷ b ∷ c ∷ []) s v = tt
  recv_control_update-IsValid (a ∷ b ∷ c ∷ d ∷ rest) s v = control_update-IsValid a b c d s v

  pub Keeps-poll_msg : (frames : Option (List Text)) → Keeps {Msg = Msg} (poll_msg frames)
  unfolding poll_msg
  Keeps-poll_msg none s v = v
  Keeps-poll_msg (some frames) s v = elim (Option-cases (recv_msg_update frames s)) [
    | inl e ↦ rw (e, poll_msg) tt
    | inr (effects, e) ↦ rw (e, poll_msg) v
  ]

  pub Keeps-poll_control : (frames : Option (List Text)) → Keeps {Msg = Msg} (poll_control frames)
  unfolding poll_control
  Keeps-poll_control none s v = v
  Keeps-poll_control (some frames) s v = elim (Option-cases (recv_control_update frames s)) [
    | inl e ↦ rw (e, poll_control) tt
    | inr (s', e) ↦
        rw (e, poll_control) (subst LeavesOne e (recv_control_update-IsValid frames s v))
  ]

  pub Keeps-poll_request :
      (ok : Call → Bool) (frames : Option (List Text)) → Keeps {Msg = Msg} (poll_request ok frames)
  unfolding poll_request
  Keeps-poll_request ok none s v = v
  Keeps-poll_request ok (some frames) s v = Keeps-recv_srv_request ok frames s v

  pub Keeps-poll_response : (frames : Option (List Text)) → Keeps {Msg = Msg} (poll_response frames)
  unfolding poll_response
  Keeps-poll_response none s v = v
  Keeps-poll_response (some frames) s v = Keeps-recv_srv_response frames s v

  -- A round of the reception task, whatever the four sockets have.
  pub Keeps-run_reception_round :
      (ok : Call → Bool) (msgs controls requests responses : Option (List Text))
      → Keeps {Msg = Msg} (run_reception_round ok msgs controls requests responses)
  unfolding run_reception_round
  Keeps-run_reception_round ok msgs controls requests responses =
      Keeps->> _ _ (Keeps-poll_msg msgs) (
        Keeps->> _ _ (Keeps-poll_control controls)
          (Keeps->> _ _ (Keeps-poll_request ok requests) (Keeps-poll_response responses)))
