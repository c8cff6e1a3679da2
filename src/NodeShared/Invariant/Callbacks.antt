-- ===== src/NodeShared/Invariant/Callbacks.antt =====
-- The discovery callbacks of src/NodeShared.cc and the well-formedness of the shared state.
use ign_transport_git.Base.{
  Bool, not, ◌&&◌, none, List, [], ◌∷◌, is_empty, get_or, Text, text_eq, Option-cases, inl, inr,
}
use ign_transport_git.Base.Map.{find}
use ign_transport_git.TransportTypes.{Scope, msg, srv}
use ign_transport_git.TopicStorage.{get_address, get_addresses}
use ign_transport_git.TopicStorage.Invariant.{
  add_address-IsValid, del_address_by_node-IsValid, del_addresses_by_proc-IsValid,
}
use ign_transport_git.HandlerStorage.{has_handlers_for_topic}
use ign_transport_git.Zmq.{Call, requester, connect, attempt}
use ign_transport_git.Discovery.{
  Discovery, Callback, Event, sent, called, connection, disconnection,
}
use ign_transport_git.Discovery.Local.{Step}
use ign_transport_git.Discovery.Reachable
use ign_transport_git.Discovery.Dispatch.Rule as Rule
use ign_transport_git.NodeShared.Services.{is_listed}
use ign_transport_git.NodeShared.Connections.{
  open_calls, connect_publisher, on_new_connection, disconnect_all, drop_node, drop_proc,
  on_new_disconnection, connect_responser, on_new_srv_connection, on_new_srv_disconnection,
}
use ign_transport_git.NodeShared.Callbacks.{run_callback, run_event, run_events, with_discovery}
use ign_transport_git.NodeShared.Invariant.{Keeps, Leaves-if, Keeps->>}
use ign_transport_git.NodeShared.Invariant.Requests.{Keeps-send_pending_remote_reqs}

module _ {Msg : Type 0} where
  Keeps-on_new_connection :
      (ok : Call → Bool) (topic addr ctrl p n : Text) (scope : Scope)
      → Keeps {Msg = Msg} (on_new_connection ok topic addr ctrl p n scope)
  unfolding on_new_connection connect_publisher
  Keeps-on_new_connection ok topic addr ctrl p n scope s v =
      Leaves-if (has_handlers_for_topic topic s.local_subscriptions && not (text_eq s.p_uuid p)) _ _
        (Leaves-if (attempt ok (open_calls topic addr s)).1 _ _
          (add_address-IsValid topic addr ctrl p n scope s.connections v.0, v.1, v.2, v.3, v.4, v.5)
          v)
        v

  Keeps-drop_node : (ok : Call → Bool) (t p n : Text) → Keeps {Msg = Msg} (drop_node ok t p n)
  unfolding drop_node
  Keeps-drop_node ok t p n s v =
      let w = del_address_by_node-IsValid t p n s.remote_subscribers v.1 in
      elim (Option-cases (get_address t p n s.connections)) [
        | inl e ↦ rw (e, drop_node) (v.0, w, v.2, v.3, v.4, v.5)
        | inr (c, e) ↦ elim (Option-cases (disconnect_all ok (c ∷ []))) [
          | inl f ↦ rw (e, drop_node) (rw f tt)
          | inr (calls, f) ↦
              rw (e, drop_node)
                (rw f (del_address_by_node-IsValid t p n s.connections v.0, w, v.2, v.3, v.4, v.5))
        ]
      ]

  Keeps-drop_proc : (ok : Call → Bool) (t p : Text) → Keeps {Msg = Msg} (drop_proc ok t p)
  unfolding drop_proc
  Keeps-drop_proc ok t p s v =
      let w = del_addresses_by_proc-IsValid p s.remote_subscribers v.1 in
      elim (Option-cases (get_addresses t s.connections)) [
        | inl e ↦ rw (e, drop_proc) (v.0, w, v.2, v.3, v.4, v.5)
        | inr (info, e) ↦ elim (Option-cases (disconnect_all ok (get_or (find p info) []))) [
          | inl f ↦ rw (e, drop_proc) (rw f tt)
          | inr (calls, f) ↦
              rw (e, drop_proc)
                (rw f (del_addresses_by_proc-IsValid p s.connections v.0, w, v.2, v.3, v.4, v.5))
        ]
      ]

  Keeps-on_new_disconnection :
      (ok : Call → Bool) (t p n : Text) → Keeps {Msg = Msg} (on_new_disconnection ok t p n)
  unfolding on_new_disconnection
  Keeps-on_new_disconnection ok t p n s v =
      Leaves-if (not (is_empty t) && not (is_empty n)) _ _ (Keeps-drop_node ok t p n s v)
        (Keeps-drop_proc ok t p s v)

  Keeps-connect_responser :
      (ok : Call → Bool) (addr : Text) → Keeps {Msg = Msg} (connect_responser ok addr)
  unfolding connect_responser
  Keeps-connect_responser ok addr s v =
      Leaves-if (is_listed addr s.srv_connections) _ _ v
        (Leaves-if (ok (connect requester addr)) _ none v tt)

  Keeps-on_new_srv_connection :
      (ok : Call → Bool) (t addr : Text) → Keeps {Msg = Msg} (on_new_srv_connection ok t addr)
  unfolding on_new_srv_connection
  Keeps-on_new_srv_connection ok t addr =
      Keeps->> _ _ (Keeps-connect_responser ok addr) (Keeps-send_pending_remote_reqs ok t)

  Keeps-run_callback :
      (ok : Call → Bool) (cb : Callback) (t addr ctrl p n : Text) (scope : Scope)
      → Keeps {Msg = Msg} (run_callback ok cb t addr ctrl p n scope)
  unfolding run_callback on_new_srv_disconnection
  Keeps-run_callback ok (connection msg) t addr ctrl p n scope =
      Keeps-on_new_connection ok t addr ctrl p n scope
  Keeps-run_callback ok (connection srv) t addr ctrl p n scope =
      Keeps-on_new_srv_connection ok t addr
  Keeps-run_callback ok (disconnection msg) t addr ctrl p n scope =
      Keeps-on_new_disconnection ok t p n
  Keeps-run_callback ok (disconnection srv) t addr ctrl p n scope = λ s v. v

  Keeps-run_events :
      (ok : Call → Bool) (events : List Event) → Keeps {Msg = Msg} (run_events ok events)
  unfolding run_events run_event
  Keeps-run_events ok [] = λ s v. v
  Keeps-run_events ok (sent datagram ∷ events) =
      Keeps->> _ _ (λ s v. v) (Keeps-run_events ok events)
  Keeps-run_events ok (called cb t addr ctrl p n scope ∷ events) =
      Keeps->> _ _ (Keeps-run_callback ok cb t addr ctrl p n scope) (Keeps-run_events ok events)

  -- A call of the discovery service, with the callbacks that it makes.
  pub Keeps-with_discovery :
      (ok : Call → Bool) (step : Discovery → Step)
      → ((d : Discovery) → Reachable.IsValid d → Rule.Keeps Reachable.IsValid (step d))
      → Keeps {Msg = Msg} (with_discovery ok step)
  unfolding with_discovery
  Keeps-with_discovery ok step k s v = elim (Option-cases (step s.discovery)) [
    | inl e ↦ rw (e, with_discovery) tt
    | inr ((d, events), e) ↦
        rw (e, with_discovery)
          (Keeps-run_events ok events (record s { discovery = d })
            (
              v.0,
              v.1,
              v.2,
              v.3,
              v.4,
              Rule.Keeps-some Reachable.IsValid _ d events (k s.discovery v.5) e,
            ))
  ]
