-- ===== src/Node/Services.antt =====
-- include/ignition/transport/Node.hh and src/Node.cc: the calls about services.
use ign_transport_git.Base.{
  Bool, true, false, Option, none, some, [], ◌∷◌, ◌++◌, if◌then◌else◌, Text,
}
use ign_transport_git.Base.Map.{insert_new, erase}
use ign_transport_git.TransportTypes.{Scope, msg, srv}
use ign_transport_git.HandlerStorage.{get_handler, add_handler, remove_handlers_for_node}
use ign_transport_git.Zmq.{Call}
use ign_transport_git.Handlers.{RepHandler, ReqHandler, answered, topic_name, run_local_service}
use ign_transport_git.Discovery.Local
use ign_transport_git.Discovery.Local.{discover}
use ign_transport_git.Discovery.Settings.{get_srv_addresses}
use ign_transport_git.NodeShared.{NodeShared, Action, notices}
use ign_transport_git.NodeShared.Services.{send_pending_remote_reqs}
use ign_transport_git.NodeShared.Callbacks.{with_discovery}
use ign_transport_git.Node.{Node, Reply, full_name, with_name, returning}

module _ {Msg : Type 0} where
  -- Both overloads of the `Advertise` of a service; `h` is the new handler with the callback in it.
  unfoldable pub advertise_srv :
      (Call → Bool) → Text → RepHandler Msg → Scope → Node → NodeShared Msg → Reply Msg
  advertise_srv ok topic h scope n s = with_name (full_name topic n) n s (λ full.
      returning (record n { srvs_advertised = insert_new full tt n.srvs_advertised })
        (with_discovery ok
          (Local.advertise srv full s.my_replier_address s.replier_id n.n_uuid scope)
          (record s { repliers = add_handler full n.n_uuid h.h_uuid h s.repliers })))

  -- The service is withdrawn with `MsgType::Msg`, as the code has it.
  unfoldable pub unadvertise_srv : (Call → Bool) → Text → Node → NodeShared Msg → Reply Msg
  unadvertise_srv ok topic n s = with_name (full_name topic n) n s (λ full.
      returning (record n { srvs_advertised = erase full n.srvs_advertised })
        (with_discovery ok (Local.unadvertise msg full n.n_uuid)
          (record s { repliers = (remove_handlers_for_node full n.n_uuid s.repliers).0 })))

  -- The handler is stored, and the request is made if a responser is known, or one is looked for.
  unfoldable pub request_remote : (Call → Bool) → Text → ReqHandler Msg → Text → Action Msg
  request_remote ok full h n_uuid s =
      let s' : NodeShared Msg = record s {
        requests = add_handler full n_uuid h.h_uuid h s.requests;
      } in
      elim (get_srv_addresses full s'.discovery) [
        | none ↦ with_discovery ok (discover srv full) s'
        | some addresses ↦ send_pending_remote_reqs ok full s'
      ]

  -- Both overloads of `Request` with a callback, once the full name is known: `h` is the handler that is
  -- made for a remote request, and `rep` a default response. A local response goes to the client's
  -- callback with no handler in between, so the notice has an empty handler UUID.
  unfoldable pub request_named :
      (Call → Bool) → Text → Msg → ReqHandler Msg → Msg → Node → NodeShared Msg → Reply Msg
  request_named ok full req h rep n s = elim (get_handler full s.repliers) [
    | none ↦ none
    | some none ↦ returning n (request_remote ok full h n.n_uuid s)
    | some (some replier) ↦
        let (rep', result, called) = run_local_service replier full req rep in
        some (n, s, true, notices (called ++ answered [] (topic_name full) rep' result ∷ []))
  ]

  unfoldable pub request :
      (Call → Bool) → Text → Msg → ReqHandler Msg → Msg → Node → NodeShared Msg → Reply Msg
  request ok topic req h rep n s =
      with_name (full_name topic n) n s (λ full. request_named ok full req h rep n s)

  -- `Request` with a timeout, up to the wait. Done at once: the response and the result. Otherwise the
  -- thread waits for the handler.
  unfoldable pub start_request :
      (Call → Bool)
      → Text
      → Msg
      → ReqHandler Msg
      → Msg
      → Node
      → NodeShared Msg
      → Option (Option (Msg × Bool) × Reply Msg)
  start_request ok topic req h rep n s = elim (full_name topic n) [
    | none ↦ some (none, some (n, s, false, []))
    | some full ↦ elim (get_handler full s.repliers) [
      | none ↦ none
      | some none ↦ some (none, returning n (request_remote ok full h n.n_uuid s))
      | some (some replier) ↦
          let (rep', result, called) = run_local_service replier full req rep in
          some (some (rep', result), some (n, s, true, notices called))
    ]
  ]

  -- What is left behind the wait: `h` is the object when `WaitUntil` returns, which is when its
  -- response is there or the time is over. The response, the result, and what the call returns.
  unfoldable pub finish_request : Msg → Bool → ReqHandler Msg → Msg × Bool × Bool
  finish_request rep result h =
      if h.rep_available
      then (if h.result then h.create_msg h.rep else rep, h.result, true)
      else (rep, result, false)
