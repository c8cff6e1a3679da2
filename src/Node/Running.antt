-- ===== src/Node/Running.antt =====
-- The states that the shared part of a process can be in: the calls of src/Node.cc, the reception task
-- of src/NodeShared.cc and the discovery service of src/Discovery.cc in any order.
pub mod Calls
pub mod Names
use mathlib.Core.Path.{subst}
use ign_transport_git.Base.{ℕ, Bool, true, ◌≡◌, refl, sym, Option, some, List, [], ◌∷◌, Text}
use ign_transport_git.TransportTypes.{Scope}
use ign_transport_git.Zmq.{Call}
use ign_transport_git.Handlers.{SubscriptionHandler, RepHandler, ReqHandler}
use ign_transport_git.Discovery.{init}
use ign_transport_git.Discovery.Reachable
use ign_transport_git.Discovery.Tasks.{run_activity_round, activity_loop}
use ign_transport_git.NodeShared.{NodeShared, Effect}
use ign_transport_git.Discovery.Reception.Safety.{recv_discovery_update-IsValid}
use ign_transport_git.NodeShared.Callbacks.{init_shared, with_discovery, recv_discovery_update}
use ign_transport_git.NodeShared.Reception.{run_reception_round}
use ign_transport_git.NodeShared.Invariant.{IsValid, Leaves-some}
use ign_transport_git.NodeShared.Invariant.Callbacks.{Keeps-with_discovery}
use ign_transport_git.NodeShared.Invariant.Messages.{Keeps-run_reception_round}
use ign_transport_git.Node.{Node, Reply}
use ign_transport_git.Node.Running.Calls.{NodeCall, run_call, run_call-IsValid}

module _ {Msg : Type 0} where
  -- The shared states of a process, from the constructor on.
  pub data Running : NodeShared Msg → Type 0 where
    started :
        (p_uuid host_addr data_ep control_ep requester_ep replier_ep receiver_id replier_id : Text)
        → Running (
            init_shared p_uuid host_addr data_ep control_ep requester_ep replier_ep receiver_id
              replier_id)
    called :
        {s s' : NodeShared Msg} (n n' : Node) (result : Bool) (effects : List (Effect Msg))
        (ok : Call → Bool) (c : NodeCall Msg)
        → Running s
        → run_call ok c n s ≡ some (n', s', result, effects)
        → Running s'
    received :
        {s s' : NodeShared Msg} (effects : List (Effect Msg)) (ok : Call → Bool)
        (msgs controls requests responses : Option (List Text))
        → Running s
        → run_reception_round ok msgs controls requests responses s ≡ some (s', effects)
        → Running s'
    discovered :
        {s s' : NodeShared Msg} (effects : List (Effect Msg)) (ok : Call → Bool)
        (from : Option (Text × Text)) (buffer : Text) (now : ℕ)
        → Running s
        → recv_discovery_update ok from buffer now s ≡ some (s', effects)
        → Running s'
    checked :
        {s s' : NodeShared Msg} (effects : List (Effect Msg)) (ok : Call → Bool) (now : ℕ)
        → Running s
        → with_discovery ok (run_activity_round now) s ≡ some (s', effects)
        → Running s'

  init_shared-IsValid :
      (p_uuid host_addr data_ep control_ep requester_ep replier_ep receiver_id replier_id : Text)
      (s : NodeShared Msg)
      → s
        ≡ init_shared p_uuid host_addr data_ep control_ep requester_ep replier_ep receiver_id
            replier_id
      → IsValid s
  unfolding init_shared
  init_shared-IsValid p h data_ep control_ep requester_ep replier_ep receiver_id replier_id s e =
      subst IsValid (sym e) (
        (tt, tt),
        (tt, tt),
        (tt, tt),
        (tt, tt),
        (tt, tt),
        Reachable.Reachable-IsValid p h _
            (Reachable.callbacks_set true true true true Reachable.started),
      )

  -- In every state that a process reaches by calls of its nodes, by messages of any content at its four
  -- sockets, by datagrams of any content and by the timer of its discovery service, whichever calls of
  -- 0MQ throw, as long as no exception leaves a call or ends a task, all seven storages are well formed: keys in order and each once, no topic or service
  -- without a process or a node in it, none of these without an entry, no publisher twice.
  pub Running-IsValid : (s : NodeShared Msg) → Running s → IsValid s
  unfolding recv_discovery_update run_activity_round
  Running-IsValid s (started p h a b c d e f) = init_shared-IsValid p h a b c d e f _ refl
  Running-IsValid s' (called n n' result effects ok c r e) =
      run_call-IsValid ok c _ _ (Running-IsValid _ r) e
  Running-IsValid s' (received effects ok msgs controls requests responses r e) =
      Leaves-some _
        (Keeps-run_reception_round ok msgs controls requests responses _ (Running-IsValid _ r)) e
  Running-IsValid s' (discovered effects ok from buffer now r e) =
      Leaves-some _
        (Keeps-with_discovery ok _ (λ d w. recv_discovery_update-IsValid from buffer now d w) _
          (Running-IsValid _ r))
        e
  Running-IsValid s' (checked effects ok now r e) =
      Leaves-some _
        (Keeps-with_discovery ok _ (λ d w. Reachable.activity_loop-IsValid now d.activity d w) _
          (Running-IsValid _ r))
        e
