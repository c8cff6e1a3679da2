-- ===== src/Node/Running/Calls.antt =====
-- The calls of src/Node.cc and include/ignition/transport/Node.hh that do more than read lists, as one
-- type, and the well-formedness of the shared state.
use mathlib.Core.Path.{subst}
use ign_transport_git.Base.Map.{contains}
use ign_transport_git.Base.{
  Bool-cases, Bool, ◌≡◌, Option, none, some, List, [], ◌++◌, Text, Option-cases, inl, inr,
}
use ign_transport_git.TransportTypes.{Scope, MsgType, msg, srv}
use ign_transport_git.HandlerStorage.{get_handler, add_handler}
use ign_transport_git.HandlerStorage.Invariant.{
  add_handler-IsValid, remove_handlers_for_node-IsValid,
}
use ign_transport_git.Zmq.{Call}
use ign_transport_git.Handlers.{SubscriptionHandler, RepHandler, ReqHandler}
use ign_transport_git.Discovery.{Discovery}
use ign_transport_git.Discovery.Local.{discover, sub_type_of}
use ign_transport_git.Discovery.Send.{send_msg}
use ign_transport_git.TransportTypes.{all}
use ign_transport_git.Discovery.Settings.{get_msg_addresses, get_srv_addresses}
use ign_transport_git.Discovery.Reachable
use ign_transport_git.Discovery.Dispatch.Rule as Rule
use ign_transport_git.NodeShared.{NodeShared, Effect}
use ign_transport_git.NodeShared.Invariant.{IsValid, Leaves, Keeps}
use ign_transport_git.NodeShared.Invariant.Callbacks.{Keeps-with_discovery}
use ign_transport_git.NodeShared.Invariant.Requests.{Keeps-send_pending_remote_reqs}
use ign_transport_git.Node.{
  Node, Reply, full_name, all_calls, returning, with_name, advertise, unadvertise, subscribe,
  publish, farewells, filter_calls, leave, unsubscribe_from,
}
use ign_transport_git.Node.Services.{
  advertise_srv, unadvertise_srv, request_remote, request_named, request, start_request,
}

-- The calls with their arguments.
pub data NodeCall (Msg : Type 0) : Type 0 where
  advertise_call : Text → Scope → NodeCall Msg
  unadvertise_call unsubscribe_call unadvertise_srv_call : Text → NodeCall Msg
  subscribe_call : Text → SubscriptionHandler Msg → NodeCall Msg
  advertise_srv_call : Text → RepHandler Msg → Scope → NodeCall Msg
  request_call : Text → Msg → ReqHandler Msg → Msg → NodeCall Msg
  timed_request_call : Text → Msg → ReqHandler Msg → Msg → NodeCall Msg
  publish_call : (Msg → Text) → Text → Msg → NodeCall Msg

discover-IsValid :
    (kind : MsgType) (topic : Text) (d : Discovery)
    → Reachable.IsValid d
    → Rule.Keeps Reachable.IsValid (discover kind topic d)
unfolding discover
discover-IsValid kind topic d v =
    elim (Option-cases (send_msg d (sub_type_of kind) topic [] [] [] all 0)) [
      | inl e ↦ rw e (Rule.keep_none Reachable.IsValid)
      | inr (events, e) ↦ rw e (Rule.keep Reachable.IsValid d _ v)
    ]

module _ {Msg : Type 0} where
  -- What a timed request does to the state it does before the wait; `finish_request` reads its handler.
  abbrev pub reply_of : Option (Option (Msg × Bool) × Reply Msg) → Reply Msg
  reply_of none = none
  reply_of (some (at_once, reply)) = reply

  unfoldable pub run_call : (Call → Bool) → NodeCall Msg → Node → NodeShared Msg → Reply Msg
  run_call ok (advertise_call topic scope) = advertise ok topic scope
  run_call ok (unadvertise_call topic) = unadvertise ok topic
  run_call ok (unsubscribe_call topic) = unsubscribe_from ok topic
  run_call ok (unadvertise_srv_call topic) = unadvertise_srv ok topic
  run_call ok (subscribe_call topic h) = subscribe ok topic h
  run_call ok (advertise_srv_call topic h scope) = advertise_srv ok topic h scope
  run_call ok (request_call topic req h rep) = request ok topic req h rep
  run_call ok (timed_request_call topic req h rep) =
      λ n s. reply_of (start_request ok topic req h rep n s)
  run_call ok (publish_call serialize topic m) = publish ok serialize topic m

  abbrev Returns : Reply Msg → Type 0
  Returns none = Unit
  Returns (some (n, s, result, effects)) = IsValid s

  Returns-returning :
      (n : Node) (r : Option (NodeShared Msg × List (Effect Msg)))
      → Leaves r
      → Returns (returning n r)
  Returns-returning n none k = k
  Returns-returning n (some (s, effects)) k = k

  Returns-with_name :
      (name : Option Text) (n : Node) (s : NodeShared Msg) (go : Text → Reply Msg)
      → IsValid s
      → ((full : Text) → Returns (go full))
      → Returns (with_name name n s go)
  Returns-with_name none n s go v k = v
  Returns-with_name (some full) n s go v k = k full

  leave-IsValid :
      (ok : Call → Bool) (full : Text) (n : Node) (s : NodeShared Msg)
      → IsValid s
      → Returns (leave ok full n s)
  unfolding leave
  leave-IsValid ok full n s v = elim (Option-cases (get_msg_addresses full s.discovery)) [
    | inl e ↦ elim (Option-cases (all_calls ok (filter_calls full s))) [
      | inl f ↦ rw (e, leave) (rw f tt)
      | inr (calls, f) ↦ rw (e, leave) (rw f v)
    ]
    | inr (addresses, e) ↦
        elim (Option-cases
          (all_calls ok (filter_calls full s ++ farewells full s.my_address n.n_uuid addresses))) [
            | inl f ↦ rw (e, leave) (rw f tt)
            | inr (calls, f) ↦ rw (e, leave) (rw f v)
          ]
  ]

  request_remote-IsValid :
      (ok : Call → Bool) (full : Text) (h : ReqHandler Msg) (n_uuid : Text)
      → Keeps {Msg = Msg} (request_remote ok full h n_uuid)
  unfolding request_remote
  request_remote-IsValid ok full h n_uuid s v =
      let w : IsValid (record s { requests = add_handler full n_uuid h.h_uuid h s.requests }) =
        (v.0, v.1, v.2, v.3, add_handler-IsValid full n_uuid h.h_uuid h s.requests v.4, v.5) in
      elim (Option-cases (get_srv_addresses full s.discovery)) [
        | inl e ↦
            rw (e, request_remote)
              (Keeps-with_discovery ok (discover srv full) (discover-IsValid srv full) _ w)
        | inr (addresses, e) ↦ rw (e, request_remote) (Keeps-send_pending_remote_reqs ok full _ w)
      ]

  request-IsValid :
      (ok : Call → Bool) (full : Text) (req : Msg) (h : ReqHandler Msg) (rep : Msg) (n : Node)
      (s : NodeShared Msg)
      → IsValid s
      → Returns (request_named ok full req h rep n s)
  unfolding request_named
  request-IsValid ok full req h rep n s v = elim (Option-cases (get_handler full s.repliers)) [
    | inl e ↦ rw (e, request_named) tt
    | inr (none, e) ↦
        rw (e, request_named)
          (Returns-returning n _ (request_remote-IsValid ok full h n.n_uuid s v))
    | inr (some replier, e) ↦ rw (e, request_named) v
  ]

  start_request-Returns :
      (ok : Call → Bool) (topic : Text) (req : Msg) (h : ReqHandler Msg) (rep : Msg) (n : Node)
      (s : NodeShared Msg)
      → IsValid s
      → Returns (reply_of (start_request ok topic req h rep n s))
  unfolding start_request
  start_request-Returns ok topic req h rep n s v = elim (Option-cases (full_name topic n)) [
    | inl e ↦ rw (e, start_request) v
    | inr (full, e) ↦ elim (Option-cases (get_handler full s.repliers)) [
      | inl f ↦ rw (e, start_request) (rw f tt)
      | inr (none, f) ↦
          rw (e, start_request)
            (rw f (Returns-returning n _ (request_remote-IsValid ok full h n.n_uuid s v)))
      | inr (some replier, f) ↦ rw (e, start_request) (rw f v)
    ]
  ]

  publish-Returns :
      (ok : Call → Bool) (serialize : Msg → Text) (topic : Text) (m : Msg) (n : Node)
      (s : NodeShared Msg)
      → IsValid s
      → Returns (publish ok serialize topic m n s)
  unfolding publish
  publish-Returns ok serialize topic m n s v =
      Returns-with_name (full_name topic n) n s _ v (λ full.
        elim (Bool-cases (contains full n.topics_advertised)) [ inl e ↦ rw e v | inr e ↦ rw e v ])

  run_call-Returns :
      (ok : Call → Bool) (c : NodeCall Msg) (n : Node) (s : NodeShared Msg)
      → IsValid s
      → Returns (run_call ok c n s)
  unfolding run_call advertise unadvertise unsubscribe_from unadvertise_srv subscribe advertise_srv
      request
  run_call-Returns ok (advertise_call topic scope) n s v =
      Returns-with_name (full_name topic n) n s _ v (λ full. Returns-returning _ _ (
        Keeps-with_discovery ok _
          (λ d.
            Reachable.advertise-IsValid msg full s.my_address s.my_control_address n.n_uuid scope d)
          s v))
  run_call-Returns ok (unadvertise_call topic) n s v =
      Returns-with_name (full_name topic n) n s _ v (λ full.
        Returns-returning _ _
          (Keeps-with_discovery ok _ (λ d. Reachable.unadvertise-IsValid msg full n.n_uuid d) s v))
  run_call-Returns ok (unsubscribe_call topic) n s v =
      Returns-with_name (full_name topic n) n s _ v (λ full. leave-IsValid ok full _ _ (
        v.0,
        v.1,
        remove_handlers_for_node-IsValid full n.n_uuid s.local_subscriptions v.2,
        v.3,
        v.4,
        v.5,
      ))
  run_call-Returns ok (unadvertise_srv_call topic) n s v =
      Returns-with_name (full_name topic n) n s _ v (λ full. Returns-returning _ _ (
        Keeps-with_discovery ok _ (λ d. Reachable.unadvertise-IsValid msg full n.n_uuid d) _
          (v.0, v.1, v.2, remove_handlers_for_node-IsValid full n.n_uuid s.repliers v.3, v.4, v.5)))
  run_call-Returns ok (subscribe_call topic h) n s v =
      Returns-with_name (full_name topic n) n s _ v (λ full. Returns-returning _ _ (
        Keeps-with_discovery ok _ (λ d. discover-IsValid msg full d) _
          (
            v.0,
            v.1,
            add_handler-IsValid full n.n_uuid h.h_uuid h s.local_subscriptions v.2,
            v.3,
            v.4,
            v.5,
          )))
  run_call-Returns ok (advertise_srv_call topic h scope) n s v =
      Returns-with_name (full_name topic n) n s _ v (λ full. Returns-returning _ _ (
        Keeps-with_discovery ok _
          (λ d.
            Reachable.advertise-IsValid srv full s.my_replier_address s.replier_id n.n_uuid scope d)
          _ (v.0, v.1, v.2, add_handler-IsValid full n.n_uuid h.h_uuid h s.repliers v.3, v.4, v.5)))
  run_call-Returns ok (request_call topic req h rep) n s v =
      Returns-with_name (full_name topic n) n s _ v
        (λ full. request-IsValid ok full req h rep n s v)
  run_call-Returns ok (timed_request_call topic req h rep) n s v =
      start_request-Returns ok topic req h rep n s v
  run_call-Returns ok (publish_call serialize topic m) n s v =
      publish-Returns ok serialize topic m n s v

  pub run_call-IsValid :
      (ok : Call → Bool) (c : NodeCall Msg) (n : Node) (s : NodeShared Msg) {n' : Node}
      {s' : NodeShared Msg} {result : Bool} {effects : List (Effect Msg)}
      → IsValid s
      → run_call ok c n s ≡ some (n', s', result, effects)
      → IsValid s'
  run_call-IsValid ok c n s v e = subst Returns e (run_call-Returns ok c n s v)
