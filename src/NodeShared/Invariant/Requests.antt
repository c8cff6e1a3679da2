-- ===== src/NodeShared/Invariant/Requests.antt =====
-- `SendPendingRemoteReqs` of src/NodeShared.cc and the well-formedness of the shared state.
use ign_transport_git.Base.{Bool, ◌≡◌, refl, ◌∙◌, [], ◌∷◌, is_empty, Text, Option-cases, inl, inr}
use ign_transport_git.Base.Map.{
  Map, IsSorted, Above, find, find-Values, insert-IsSorted, insert-Values,
}
use ign_transport_git.TransportTypes.{Addresses}
use ign_transport_git.HandlerStorage.{Nodes, get_handlers}
use ign_transport_git.HandlerStorage.Invariant as Handlers
use ign_transport_git.HandlerStorage.Invariant.{remove_handler-IsValid}
use ign_transport_git.Zmq.{Call}
use ign_transport_git.Handlers.{ReqHandler}
use ign_transport_git.Discovery.Settings.{get_srv_addresses}
use ign_transport_git.NodeShared.Services.{
  mark_node, mark_nodes, request_all, send_to_first, send_pending_remote_reqs,
}
use ign_transport_git.NodeShared.Invariant.{Keeps}

module _ {Msg : Type 0} where
  -- Marking requests changes no key.
  mark_node-Above : (k : Text) (m : Map (ReqHandler Msg)) → Above k m → Above k (mark_node m)
  unfolding mark_node
  mark_node-Above k [] a = tt
  mark_node-Above k ((u, h) ∷ m) a = (a.0, mark_node-Above k m a.1)

  mark_node-IsSorted : (m : Map (ReqHandler Msg)) → IsSorted m → IsSorted (mark_node m)
  unfolding mark_node
  mark_node-IsSorted [] s = tt
  mark_node-IsSorted ((u, h) ∷ m) s = (mark_node-Above u m s.0, mark_node-IsSorted m s.1)

  mark_node-IsValid :
      (m : Map (ReqHandler Msg)) → Handlers.IsValidNode m → Handlers.IsValidNode (mark_node m)
  unfolding mark_node
  mark_node-IsValid [] v = (v.0, tt)
  mark_node-IsValid ((u, h) ∷ m) v = (refl, mark_node-IsSorted ((u, h) ∷ m) v.1)

  mark_nodes-Above :
      (k : Text) (nodes : Nodes (ReqHandler Msg)) → Above k nodes → Above k (mark_nodes nodes)
  unfolding mark_nodes
  mark_nodes-Above k [] a = tt
  mark_nodes-Above k ((u, m) ∷ nodes) a = (a.0, mark_nodes-Above k nodes a.1)

  mark_nodes-IsValidNodes :
      (nodes : Nodes (ReqHandler Msg))
      → Handlers.IsValidNodes nodes
      → Handlers.IsValidNodes (mark_nodes nodes)
  unfolding mark_nodes
  mark_nodes-IsValidNodes [] v = (tt, tt)
  mark_nodes-IsValidNodes ((u, m) ∷ nodes) v =
      let rest = mark_nodes-IsValidNodes nodes (v.0.1, v.1.1) in
      ((mark_nodes-Above u nodes v.0.0, rest.0), (mark_node-IsValid m v.1.0, rest.1))

  mark_nodes_nonempty :
      (nodes : Nodes (ReqHandler Msg)) → is_empty (mark_nodes nodes) ≡ is_empty nodes
  unfolding mark_nodes
  mark_nodes_nonempty [] = refl
  mark_nodes_nonempty ((u, m) ∷ nodes) = refl

  Keeps-request_all :
      (ok : Call → Bool) (id topic : Text) → Keeps {Msg = Msg} (request_all ok id topic)
  unfolding request_all get_handlers
  Keeps-request_all ok id topic s v = elim (Option-cases (find topic s.requests)) [
    | inl e ↦ rw (e, request_all) v
    | inr (reqs, e) ↦
        let w = find-Values _ topic s.requests v.4.1 e in
        rw (e, request_all)
          (
            v.0,
            v.1,
            v.2,
            v.3,
            (
              insert-IsSorted topic _ s.requests v.4.0,
              insert-Values _ topic _ s.requests
                  (mark_nodes_nonempty reqs ∙ w.0, mark_nodes-IsValidNodes reqs w.1) v.4.1,
            ),
            v.5,
          )
  ]

  Keeps-send_to_first :
      (ok : Call → Bool) (topic : Text) (addresses : Addresses)
      → Keeps {Msg = Msg} (send_to_first ok topic addresses)
  unfolding send_to_first
  Keeps-send_to_first ok topic [] s v = v
  Keeps-send_to_first ok topic ((p, []) ∷ addresses) s v = tt
  Keeps-send_to_first ok topic ((p, responser ∷ rest) ∷ addresses) s v =
      Keeps-request_all ok responser.ctrl topic s v

  pub Keeps-send_pending_remote_reqs :
      (ok : Call → Bool) (topic : Text) → Keeps {Msg = Msg} (send_pending_remote_reqs ok topic)
  unfolding send_pending_remote_reqs
  Keeps-send_pending_remote_reqs ok topic s v =
      elim (Option-cases (get_srv_addresses topic s.discovery)) [
        | inl e ↦ rw (e, send_pending_remote_reqs) v
        | inr (addresses, e) ↦
            rw (e, send_pending_remote_reqs) (Keeps-send_to_first ok topic addresses s v)
      ]
