-- ===== src/NodeShared/Services/Pending.antt =====
-- `SendPendingRemoteReqs` of src/NodeShared.cc: the requests that are waiting for a service.
use ign_transport_git.Base.{
  ap, map, concat_map, true, ◌++◌, if◌then◌else◌, Bool-cases, Bool, ◌≡◌, refl, ◌∙◌, some, List, [],
  ◌∷◌, Text, text_eq_refl, Option-cases, inl, inr,
}
use ign_transport_git.Base.Map.{entry, Map, find, insert, find-insert, insert-insert}
use ign_transport_git.TransportTypes.{Address, Addresses}
use mathlib.Core.List.{append_assoc}
use ign_transport_git.Discovery.Settings.{get_srv_addresses}
use ign_transport_git.HandlerStorage.{Nodes, get_handlers}
use ign_transport_git.Zmq.{Call, requester, send_all, attempt}
use ign_transport_git.Handlers.{ReqHandler, set_requested}
use ign_transport_git.NodeShared.{NodeShared, zmqs}
use ign_transport_git.NodeShared.Services.{
  request_frames, request_node, request_nodes, mark_node, mark_nodes, request_all, send_to_first,
  send_pending_remote_reqs,
}

concat_map-append :
    {A B : Type 0} (f : A → List B) (xs ys : List A)
    → concat_map f (xs ++ ys) ≡ concat_map f xs ++ concat_map f ys
concat_map-append f [] ys = refl
concat_map-append f (x ∷ xs) ys = rw (concat_map-append f xs ys, append_assoc)

module _ {Msg : Type 0} where
  -- The requests that were not sent yet, of one node and for a service.
  abbrev pub unsent : Map (ReqHandler Msg) → List (ReqHandler Msg)
  unsent [] = []
  unsent ((u, h) ∷ m) = if h.requested then unsent m else h ∷ unsent m

  abbrev pub waiting : Text → NodeShared Msg → List (ReqHandler Msg)
  waiting topic s = concat_map (λ e. unsent e.1) (entry topic s.requests)

  -- Every request as it was, but marked as sent.
  abbrev pub marked : Nodes (ReqHandler Msg) → Nodes (ReqHandler Msg)
  marked = map (λ e. (e.0, map (λ f. (f.0, set_requested true f.1)) e.1))

  -- What is sent of a request to the identity of a service: its frames, up to the first that throws.
  abbrev pub request_calls :
      (Call → Bool) → Text → Text → NodeShared Msg → ReqHandler Msg → List Call
  request_calls ok id topic s h = (attempt ok (send_all requester (request_frames id topic h s))).0

  mark_node_lem :
      (m : Map (ReqHandler Msg)) → mark_node m ≡ map (λ f. (f.0, set_requested true f.1)) m
  unfolding mark_node
  mark_node_lem [] = refl
  mark_node_lem ((u, h) ∷ m) = rw (mark_node_lem m)

  mark_nodes_lem : (nodes : Nodes (ReqHandler Msg)) → mark_nodes nodes ≡ marked nodes
  unfolding mark_nodes
  mark_nodes_lem [] = refl
  mark_nodes_lem ((u, m) ∷ nodes) = rw (mark_node_lem m, mark_nodes_lem nodes)

  request_node_lem :
      (ok : Call → Bool) (id topic : Text) (m : Map (ReqHandler Msg)) (s : NodeShared Msg)
      → request_node ok id topic m s ≡ concat_map (request_calls ok id topic s) (unsent m)
  unfolding request_node
  request_node_lem ok id topic [] s = refl
  request_node_lem ok id topic ((u, h) ∷ m) s =
      rw (request_node_lem ok id topic m s)
        (elim (Bool-cases h.requested) [ inl e ↦ rw e refl | inr e ↦ rw e refl ])

  request_nodes_lem :
      (ok : Call → Bool) (id topic : Text) (nodes : Nodes (ReqHandler Msg)) (s : NodeShared Msg)
      → request_nodes ok id topic nodes s
        ≡ concat_map (request_calls ok id topic s) (concat_map (λ e. unsent e.1) nodes)
  unfolding request_nodes
  request_nodes_lem ok id topic [] s = refl
  request_nodes_lem ok id topic ((u, m) ∷ nodes) s =
      rw
        (request_node_lem ok id topic m s, request_nodes_lem ok id topic nodes s, concat_map-append)

  mark_node_twice : (m : Map (ReqHandler Msg)) → mark_node (mark_node m) ≡ mark_node m
  unfolding mark_node
  mark_node_twice [] = refl
  mark_node_twice ((u, h) ∷ m) = rw (mark_node_twice m)

  mark_nodes_twice :
      (nodes : Nodes (ReqHandler Msg)) → mark_nodes (mark_nodes nodes) ≡ mark_nodes nodes
  unfolding mark_nodes
  mark_nodes_twice [] = refl
  mark_nodes_twice ((u, m) ∷ nodes) = rw (mark_node_twice m, mark_nodes_twice nodes)

  request-mark_node :
      (ok : Call → Bool) (id topic : Text) (m : Map (ReqHandler Msg)) (s : NodeShared Msg)
      → request_node ok id topic (mark_node m) s ≡ []
  unfolding request_node mark_node
  request-mark_node ok id topic [] s = refl
  request-mark_node ok id topic ((u, h) ∷ m) s = request-mark_node ok id topic m s

  request-mark_nodes :
      (ok : Call → Bool) (id topic : Text) (nodes : Nodes (ReqHandler Msg)) (s : NodeShared Msg)
      → request_nodes ok id topic (mark_nodes nodes) s ≡ []
  unfolding request_nodes mark_nodes
  request-mark_nodes ok id topic [] s = refl
  request-mark_nodes ok id topic ((u, m) ∷ nodes) s =
      rw (request-mark_node ok id topic m s, request-mark_nodes ok id topic nodes s)

  request_all_found :
      (ok : Call → Bool) (id topic : Text) (reqs : Nodes (ReqHandler Msg)) (s : NodeShared Msg)
      → find topic s.requests ≡ some reqs
      → request_all ok id topic s
        ≡ some (
          record s { requests = insert topic (mark_nodes reqs) s.requests },
          zmqs (request_nodes ok id topic reqs s),
        )
  unfolding request_all get_handlers
  request_all_found ok id topic reqs s e = rw (e, request_all)

  -- What `request_all` does, after which it does nothing more.
  request_all_lem :
      (ok : Call → Bool) (id topic : Text) (s : NodeShared Msg)
      → (s' : NodeShared Msg) × (request_all ok id topic s
          ≡ some (s', zmqs (concat_map (request_calls ok id topic s) (waiting topic s))))
        × (entry topic s'.requests ≡ marked (entry topic s.requests))
        × (s'.discovery ≡ s.discovery)
        × ((ok' : Call → Bool) (id' : Text) → request_all ok' id' topic s' ≡ some (s', []))
  unfolding request_all get_handlers
  request_all_lem ok id topic s = elim (Option-cases (find topic s.requests)) [
    | inl e ↦ (s, rw (e, request_all), rw e refl, refl, λ ok' id'. rw (e, request_all))
    | inr (reqs, e) ↦ (
      record s { requests = insert topic (mark_nodes reqs) s.requests },
      request_all_found ok id topic reqs s e ∙ rw (e, request_nodes_lem ok id topic reqs s) refl,
      rw (find-insert, text_eq_refl topic, e) (mark_nodes_lem reqs),
      refl,
      λ ok' id'.
          request_all_found ok' id' topic (mark_nodes reqs) _ (rw (find-insert, text_eq_refl topic))
          ∙ rw (mark_nodes_twice reqs, insert-insert, request-mark_nodes ok' id' topic reqs _),
    )
  ]

  send_to_known :
      (ok : Call → Bool) (topic : Text) (s : NodeShared Msg) {p : Text} {responser : Address}
      {others : List Address} {addresses : Addresses}
      → get_srv_addresses topic s.discovery ≡ some ((p, responser ∷ others) ∷ addresses)
      → send_pending_remote_reqs ok topic s ≡ request_all ok responser.ctrl topic s
  unfolding send_to_first send_pending_remote_reqs
  send_to_known ok topic s known = rw (known, send_pending_remote_reqs) refl

  -- The requests that wait for a known service are sent, once each. Where discovery knows publishers of
  -- the service, `SendPendingRemoteReqs` sends, for each request of the service that was not sent yet, in
  -- the order of the storage, its frames to the first publisher of the first process, up to the first
  -- frame that throws, and marks every request of the service as sent, those that threw too. After it a
  -- second call for the service makes no call of 0MQ and changes nothing, so that a request that threw is
  -- not sent again.
  pub send_pending_remote_reqs_once :
      (ok : Call → Bool) (topic : Text) (s : NodeShared Msg) {p : Text} {responser : Address}
      {others : List Address} {addresses : Addresses}
      → get_srv_addresses topic s.discovery ≡ some ((p, responser ∷ others) ∷ addresses)
      → (s' : NodeShared Msg) × (send_pending_remote_reqs ok topic s
          ≡ some
              (s', zmqs (concat_map (request_calls ok responser.ctrl topic s) (waiting topic s))))
        × (entry topic s'.requests ≡ marked (entry topic s.requests))
        × ((ok' : Call → Bool) → send_pending_remote_reqs ok' topic s' ≡ some (s', []))
  send_pending_remote_reqs_once ok topic s {responser = responser} known =
      let r = request_all_lem ok responser.ctrl topic s in
      (
        r.0,
        send_to_known ok topic s known ∙ r.1,
        r.2,
        λ ok'.
            send_to_known ok' topic r.0 (ap (get_srv_addresses topic) r.3 ∙ known)
            ∙ r.4 ok' responser.ctrl,
      )
