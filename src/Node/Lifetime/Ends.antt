-- ===== src/Node/Lifetime/Ends.antt =====
-- The calls that the destructor of `Node` in src/Node.cc makes.
use mathlib.Core.Path.{subst}
use ign_transport_git.Base.{
  Bool, true, false, ◌≡◌, refl, some, List, [], ◌∷◌, ◌++◌, Text, Option-cases, inl, inr,
}
use ign_transport_git.Base.Map.{erase}
use ign_transport_git.TransportTypes.{msg}
use ign_transport_git.HandlerStorage.{remove_handlers_for_node}
use ign_transport_git.Zmq.{Call}
use ign_transport_git.Discovery.{Discovery, Event, sent, called}
use ign_transport_git.Discovery.Local.{Step}
use ign_transport_git.Discovery.Local
use ign_transport_git.Discovery.Settings.{get_msg_addresses}
use ign_transport_git.NodeShared.{NodeShared, Effect, ◌>>◌, broadcast, zmqs}
use ign_transport_git.NodeShared.Callbacks.{run_event, run_events, with_discovery}
use ign_transport_git.Node.{
  Node, Reply, full_name, unadvertise, unsubscribe_from, leave, filter_calls, farewells,
}
use ign_transport_git.Node.Farewell.{all_calls-all}
use ign_transport_git.Node.Services.{unadvertise_srv}
use ign_transport_git.Node.Lifetime.Withdrawals.{Fits, AreSent, Withdrawn, unadvertise_returns}

abbrev pub drop_subscribed : Text → Node → Node
drop_subscribed full n = record n { topics_subscribed = erase full n.topics_subscribed }

abbrev pub drop_advertised : Text → Node → Node
drop_advertised full n = record n { topics_advertised = erase full n.topics_advertised }

abbrev pub drop_service : Text → Node → Node
drop_service full n = record n { srvs_advertised = erase full n.srvs_advertised }

module _ {Msg : Type 0} where
  run_events_sent :
      (ok : Call → Bool) (events : List Event) (s : NodeShared Msg)
      → AreSent events
      → (effects : List (Effect Msg)) × (run_events ok events s ≡ some (s, effects))
  unfolding run_events run_event ◌>>◌
  run_events_sent ok [] s h = ([], refl)
  run_events_sent ok (sent datagram ∷ events) s h =
      let r = run_events_sent ok events s h in (broadcast datagram ∷ r.0, rw r.1)
  run_events_sent ok (called cb topic addr ctrl p n scope ∷ events) s h = absurd h

  with_discovery_returns :
      (ok : Call → Bool) (step : Discovery → Step) (n : Text) (s : NodeShared Msg)
      → Withdrawn n s.discovery.info_srv (step s.discovery)
      → (s' : NodeShared Msg) × (effects : List (Effect Msg)) × (with_discovery ok step s
          ≡ some (s', effects))
        × Fits n s'.discovery
        × (s'.discovery.info_srv ≡ s.discovery.info_srv)
        × (s'.repliers ≡ s.repliers)
  unfolding with_discovery
  with_discovery_returns ok step n s h = elim (Option-cases (step s.discovery)) [
    | inl e ↦ absurd (subst (Withdrawn n s.discovery.info_srv) e h)
    | inr ((d, events), e) ↦
        let w : Withdrawn n s.discovery.info_srv (some (d, events)) =
          subst (Withdrawn n s.discovery.info_srv) e h in
        let r = run_events_sent ok events (record s { discovery = d }) w.1 in
        (record s { discovery = d }, r.0, rw (e, with_discovery) r.1, w.0, w.2, refl)
  ]

  -- A call that ends one name of the node: it returns, and it drops that name.
  abbrev pub Ends : (Text → Node → NodeShared Msg → Reply Msg) → (Text → Node → Node) → Type 0
  Ends call drop =
      (topic full : Text) (n : Node) (s : NodeShared Msg)
      → full_name topic n ≡ some full
      → Fits n.n_uuid s.discovery
      → (s' : NodeShared Msg) × (result : Bool) × (effects : List (Effect Msg)) × (call topic n s
          ≡ some (drop full n, s', result, effects))
        × Fits n.n_uuid s'.discovery

  pub Ends-unadvertise : (ok : Call → Bool) → Ends (unadvertise ok) drop_advertised
  unfolding unadvertise
  Ends-unadvertise ok topic full n s name fits =
      let r =
        with_discovery_returns ok (Local.unadvertise msg full n.n_uuid) n.n_uuid s
          (unadvertise_returns full n.n_uuid s.discovery fits) in
      (r.0, true, r.1, rw (name, r.2), r.3)

  pub Ends-unadvertise_srv : (ok : Call → Bool) → Ends (unadvertise_srv ok) drop_service
  unfolding unadvertise_srv
  Ends-unadvertise_srv ok topic full n s name fits =
      let s1 : NodeShared Msg = record s {
        repliers = (remove_handlers_for_node full n.n_uuid s.repliers).0;
      } in
      let r =
        with_discovery_returns ok (Local.unadvertise msg full n.n_uuid) n.n_uuid s1
          (unadvertise_returns full n.n_uuid s.discovery fits) in
      (r.0, true, r.1, rw (name, r.2), r.3)

  pub Ends-unsubscribe_from :
      (ok : Call → Bool) → ((c : Call) → ok c ≡ true) → Ends (unsubscribe_from ok) drop_subscribed
  unfolding unsubscribe_from leave
  Ends-unsubscribe_from ok fine topic full n s name fits =
      let s1 : NodeShared Msg = record s {
        local_subscriptions = (remove_handlers_for_node full n.n_uuid s.local_subscriptions).0;
      } in
      elim (Option-cases (get_msg_addresses full s.discovery)) [
        | inl e ↦ (
          s1,
          false,
          zmqs (filter_calls full s1),
          rw name (rw (e, leave) (rw (all_calls-all ok _ fine))),
          fits,
        )
        | inr (addresses, e) ↦ (
          s1,
          true,
          zmqs (filter_calls full s1 ++ farewells full s.my_address n.n_uuid addresses),
          rw name (rw (e, leave) (rw (all_calls-all ok _ fine))),
          fits,
        )
      ]

  -- `UnadvertiseSrv` on a name that is valid, where the node's topics in discovery fit into a message:
  -- the call returns true, the node forgets the service and the process its handlers of it, but no
  -- service is taken out of those that the process advertises.
  pub unadvertise_srv_leaves_services :
      (ok : Call → Bool) (topic full : Text) (n : Node) (s : NodeShared Msg)
      → full_name topic n ≡ some full
      → Fits n.n_uuid s.discovery
      → (s' : NodeShared Msg) × (effects : List (Effect Msg)) × (unadvertise_srv ok topic n s
          ≡ some (drop_service full n, s', true, effects))
        × (s'.repliers ≡ (remove_handlers_for_node full n.n_uuid s.repliers).0)
        × (s'.discovery.info_srv ≡ s.discovery.info_srv)
  unfolding unadvertise_srv
  unadvertise_srv_leaves_services ok topic full n s name fits =
      let s1 : NodeShared Msg = record s {
        repliers = (remove_handlers_for_node full n.n_uuid s.repliers).0;
      } in
      let r =
        with_discovery_returns ok (Local.unadvertise msg full n.n_uuid) n.n_uuid s1
          (unadvertise_returns full n.n_uuid s.discovery fits) in
      (r.0, r.1, rw (name, r.2), r.5, r.4)
