-- ===== src/NodeShared/Callbacks/Events.antt =====
-- How the callbacks of src/NodeShared.cc run behind a call of the discovery service.
use ign_transport_git.Base.{Bool, ◌≡◌, some, List, ◌∷◌, Text}
use ign_transport_git.TransportTypes.{Scope}
use ign_transport_git.Zmq.{Call}
use ign_transport_git.Discovery.{Discovery, Callback, Event, called}
use ign_transport_git.Discovery.Local.{Step}
use ign_transport_git.NodeShared.{NodeShared, Effect, ◌>>◌, with_effects}
use ign_transport_git.NodeShared.Callbacks.{run_callback, run_event, run_events, with_discovery}

module _ {Msg : Type 0} where
  pub with_discovery_lem :
      (ok : Call → Bool) (step : Discovery → Step) (s : NodeShared Msg) {d : Discovery}
      {events : List Event}
      → step s.discovery ≡ some (d, events)
      → with_discovery ok step s ≡ run_events ok events (record s { discovery = d })
  unfolding with_discovery
  with_discovery_lem ok step s e = rw (e, with_discovery)

  pub run_events_called :
      (ok : Call → Bool) (cb : Callback) (t addr ctrl p n : Text) (scope : Scope)
      (events : List Event) (s : NodeShared Msg) {s' : NodeShared Msg} {effects : List (Effect Msg)}
      → run_callback ok cb t addr ctrl p n scope s ≡ some (s', effects)
      → run_events ok (called cb t addr ctrl p n scope ∷ events) s
        ≡ with_effects effects (run_events ok events s')
  unfolding run_events run_event ◌>>◌
  run_events_called ok cb t addr ctrl p n scope events s e = rw (e, ◌>>◌)
