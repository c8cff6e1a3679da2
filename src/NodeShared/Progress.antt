-- ===== src/NodeShared/Progress.antt =====
-- `RunReceptionTask` of src/NodeShared.cc: the end of a round.
use ign_transport_git.Base.{
  ℕ, ◌≤◌, Bool, true, false, ◌≡◌, refl, ap, ◌∙◌, Option, none, some, List, [], ◌∷◌, ◌++◌, length,
  is_some, if◌then◌else◌, Text, text_eq, bytes, arith, Option-cases, inl, inr,
}
use ign_transport_git.HandlerStorage.{get_handlers, get_handler, get_handler_of, remove_handler}
use ign_transport_git.HandlerStorage.Invariant.{get_handler_lem}
use ign_transport_git.Zmq.{Call}
use ign_transport_git.Handlers.{RepHandler, run_service, notify_result}
use ign_transport_git.Packet.Header
use ign_transport_git.NodeShared.{NodeShared, Effect, Action, ◌>>◌, with_effects, notices}
use ign_transport_git.NodeShared.Receive.{
  stoi, is_number, run_nodes, recv_msg_update, control_update, recv_control_update,
}
use ign_transport_git.NodeShared.Services.{
  response_frames, send_response, serve_request, recv_srv_request, take_response, recv_srv_response,
}
use ign_transport_git.NodeShared.Services.Exchange.{send_response_cases}
use ign_transport_git.NodeShared.Reception.{
  poll_msg, poll_control, poll_request, poll_response, run_reception_round,
}
use ign_transport_git.NodeShared.Invariant.{IsValid, Keeps, Leaves-some}
use ign_transport_git.NodeShared.Invariant.Messages.{
  Keeps-poll_msg, Keeps-poll_control, Keeps-poll_request,
}

-- Where a socket has something, it has a whole message of so many frames.
abbrev pub HasFrames : ℕ → Option (List Text) → Type 0
HasFrames n none = Unit
HasFrames n (some frames) = n ≤ length frames

-- And the last frame of a control message holds a number.
abbrev pub HasControl : Option (List Text) → Type 0
HasControl none = Unit
HasControl (some []) = ⊥
HasControl (some (a ∷ [])) = ⊥
HasControl (some (a ∷ b ∷ [])) = ⊥
HasControl (some (a ∷ b ∷ c ∷ [])) = ⊥
HasControl (some (a ∷ b ∷ c ∷ d ∷ rest)) = is_some (stoi d) ≡ true

some_if :
    {A : Type 0} (b : Bool) (x y : Option A)
    → ((a : A) × (x ≡ some a))
    → ((a : A) × (y ≡ some a))
    → (a : A) × ((if b then x else y) ≡ some a)
some_if true x y p q = p
some_if false x y p q = q

module _ {Msg : Type 0} where
  -- An action that returns from every well-formed state.
  abbrev pub Returns : Action Msg → Type 0
  Returns a =
      (s : NodeShared Msg)
      → IsValid s
      → (s' : NodeShared Msg) × (effects : List (Effect Msg)) × (a s ≡ some (s', effects))

  Returns->> : (v w : Action Msg) → Returns v → Keeps v → Returns w → Returns (v >> w)
  unfolding ◌>>◌
  Returns->> v w rv kv returned_w s h =
      let (s', effects, e) = rv s h in
      let (s'', more, f) = returned_w s' (Leaves-some (v s) (kv s h) e) in
      (s'', effects ++ more, rw (e, ◌>>◌) (ap (with_effects effects) f))

  recv_msg_update_returns :
      (a b c : Text) (rest : List Text) (s : NodeShared Msg)
      → (effects : List (Effect Msg)) × (recv_msg_update (a ∷ b ∷ c ∷ rest) s ≡ some effects)
  unfolding recv_msg_update
  recv_msg_update_returns a b c rest s =
      elim (Option-cases (get_handlers a s.local_subscriptions)) [
        | inl e ↦ ([], rw (e, recv_msg_update))
        | inr (handlers, e) ↦ (notices (run_nodes a c handlers), rw (e, recv_msg_update))
      ]

  Returns-poll_msg : (frames : Option (List Text)) → HasFrames 3 frames → Returns (poll_msg frames)
  unfolding poll_msg
  Returns-poll_msg none has s v = (s, [], refl)
  Returns-poll_msg (some []) has s v = absurd (omega arith)
  Returns-poll_msg (some (a ∷ [])) has s v = absurd (omega arith)
  Returns-poll_msg (some (a ∷ b ∷ [])) has s v = absurd (omega arith)
  Returns-poll_msg (some (a ∷ b ∷ c ∷ rest)) has s v =
      let (effects, e) = recv_msg_update_returns a b c rest s in (s, effects, rw (e, poll_msg))

  control_update_returns :
      (topic p n number : Text) (s : NodeShared Msg)
      → is_some (stoi number) ≡ true
      → (s' : NodeShared Msg) × (control_update topic p n number s ≡ some s')
  unfolding control_update
  control_update_returns topic p n number s has = elim (Option-cases (stoi number)) [
    | inl e ↦ let no : is_some (stoi number) ≡ false = ap is_some e in cc
    | inr (x, e) ↦
        rw (e, control_update)
          (some_if (is_number Header.new_connection x) _ _ (_, refl)
            (some_if (is_number Header.end_connection x) _ _ (_, refl) (_, refl)))
  ]

  Returns-poll_control :
      (frames : Option (List Text)) → HasControl frames → Returns (poll_control frames)
  unfolding poll_control recv_control_update
  Returns-poll_control none has s v = (s, [], refl)
  Returns-poll_control (some []) has s v = absurd has
  Returns-poll_control (some (a ∷ [])) has s v = absurd has
  Returns-poll_control (some (a ∷ b ∷ [])) has s v = absurd has
  Returns-poll_control (some (a ∷ b ∷ c ∷ [])) has s v = absurd has
  Returns-poll_control (some (a ∷ b ∷ c ∷ d ∷ rest)) has s v =
      let (s', e) = control_update_returns a b c d s has in (s', [], rw (e, poll_control))

  serve_request_found :
      (ok : Call → Bool) (topic sender dst n u req : Text) (h : RepHandler Msg) (s : NodeShared Msg)
      → get_handler topic s.repliers ≡ some (some h)
      → let out = run_service h topic req in
        serve_request ok topic sender dst n u req s
        ≡ send_response ok sender (response_frames dst topic n u out.0 out.1) out.2 s
  unfolding serve_request
  serve_request_found ok topic sender dst n u req h s e = rw (e, serve_request)

  Returns-serve_request :
      (ok : Call → Bool) (topic sender dst n u req : Text)
      → ((c : Call) → ok c ≡ true)
      → Returns (serve_request ok topic sender dst n u req)
  unfolding serve_request
  Returns-serve_request ok topic sender dst n u req fine s v =
      elim (get_handler_lem topic s.repliers v.3) [
        | inl (absent, e) ↦ (s, [], rw (e, serve_request))
        | inr (n', u', h, handlers, others, stored, has, e, at, sorted, sorted') ↦
            let out = run_service h topic req in
            let r =
              send_response_cases ok sender (response_frames dst topic n u out.0 out.1) out.2 s
                fine in
            (r.0, _, serve_request_found ok topic sender dst n u req h s e ∙ r.1)
      ]

  Returns-poll_request :
      (ok : Call → Bool) (frames : Option (List Text))
      → ((c : Call) → ok c ≡ true)
      → HasFrames 7 frames
      → Returns (poll_request ok frames)
  unfolding poll_request recv_srv_request
  Returns-poll_request ok none fine has s v = (s, [], refl)
  Returns-poll_request ok (some []) fine has s v = absurd (omega arith)
  Returns-poll_request ok (some (a ∷ [])) fine has s v = absurd (omega arith)
  Returns-poll_request ok (some (a ∷ b ∷ [])) fine has s v = absurd (omega arith)
  Returns-poll_request ok (some (a ∷ b ∷ c ∷ [])) fine has s v = absurd (omega arith)
  Returns-poll_request ok (some (a ∷ b ∷ c ∷ d ∷ [])) fine has s v = absurd (omega arith)
  Returns-poll_request ok (some (a ∷ b ∷ c ∷ d ∷ e ∷ [])) fine has s v = absurd (omega arith)
  Returns-poll_request ok (some (a ∷ b ∷ c ∷ d ∷ e ∷ f ∷ [])) fine has s v = absurd (omega arith)
  Returns-poll_request ok (some (a ∷ b ∷ c ∷ d ∷ e ∷ f ∷ g ∷ rest)) fine has s v =
      Returns-serve_request ok b c d e f g fine s v

  Returns-take_response :
      (topic n u rep : Text) (result : Bool) → Returns (take_response topic n u rep result)
  unfolding take_response
  Returns-take_response topic n u rep result s v =
      elim (Option-cases (get_handler_of topic n u s.requests)) [
        | inl e ↦ (s, [], rw (e, take_response))
        | inr (h, e) ↦ (
          record s { requests = (remove_handler topic n u s.requests).0 },
          notices (notify_result h topic rep result).1,
          rw (e, take_response),
        )
      ]

  Returns-poll_response :
      (frames : Option (List Text)) → HasFrames 6 frames → Returns (poll_response frames)
  unfolding poll_response recv_srv_response
  Returns-poll_response none has s v = (s, [], refl)
  Returns-poll_response (some []) has s v = absurd (omega arith)
  Returns-poll_response (some (a ∷ [])) has s v = absurd (omega arith)
  Returns-poll_response (some (a ∷ b ∷ [])) has s v = absurd (omega arith)
  Returns-poll_response (some (a ∷ b ∷ c ∷ [])) has s v = absurd (omega arith)
  Returns-poll_response (some (a ∷ b ∷ c ∷ d ∷ [])) has s v = absurd (omega arith)
  Returns-poll_response (some (a ∷ b ∷ c ∷ d ∷ e ∷ [])) has s v = absurd (omega arith)
  Returns-poll_response (some (a ∷ b ∷ c ∷ d ∷ e ∷ f ∷ rest)) has s v =
      Returns-take_response b c d e (text_eq f (bytes "1")) s v

  -- A round of the reception task comes to its end from every well-formed state, if each socket that
  -- has something has a whole message, the control message's last frame holds a number that `stoi`
  -- reads, and no call of 0MQ throws.
  pub run_reception_round_returns :
      (ok : Call → Bool) (msgs controls requests responses : Option (List Text))
      (s : NodeShared Msg)
      → ((c : Call) → ok c ≡ true)
      → HasFrames 3 msgs
      → HasControl controls
      → HasFrames 7 requests
      → HasFrames 6 responses
      → IsValid s
      → (s' : NodeShared Msg) × (effects : List (Effect Msg)) × (run_reception_round ok msgs
            controls requests responses s
          ≡ some (s', effects))
  unfolding run_reception_round
  run_reception_round_returns ok msgs controls requests responses s fine hm hc hq hr v =
      Returns->> _ _ (Returns-poll_msg msgs hm) (Keeps-poll_msg msgs)
        (Returns->> _ _ (Returns-poll_control controls hc) (Keeps-poll_control controls) (
          Returns->> _ _ (Returns-poll_request ok requests fine hq) (Keeps-poll_request ok requests)
            (Returns-poll_response responses hr)))
        s v
