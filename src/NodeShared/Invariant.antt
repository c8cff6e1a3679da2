-- ===== src/NodeShared/Invariant.antt =====
-- What holds of the shared state of src/NodeShared.cc between its functions.
pub mod Messages
pub mod Requests
pub mod Callbacks
use mathlib.Core.Path.{subst}
use ign_transport_git.Base.{
  Bool, true, false, ◌≡◌, Option, none, some, List, if◌then◌else◌, Option-cases, inl, inr,
}
use ign_transport_git.TopicStorage.Invariant as Store
use ign_transport_git.HandlerStorage.Invariant as Handlers
use ign_transport_git.Discovery.Reachable
use ign_transport_git.NodeShared.{NodeShared, Effect, Action, ◌>>◌, with_effects}

module _ {Msg : Type 0} where
  -- All storages are well formed, those of the discovery service too.
  abbrev pub IsValid : NodeShared Msg → Type 0
  IsValid s =
      Store.IsValid s.connections
      × Store.IsValid s.remote_subscribers
      × Handlers.IsValid s.local_subscriptions
      × Handlers.IsValid s.repliers
      × Handlers.IsValid s.requests
      × Reachable.IsValid s.discovery

  -- The state that a call leaves is well formed, if it leaves one.
  abbrev pub Leaves : Option (NodeShared Msg × List (Effect Msg)) → Type 0
  Leaves none = Unit
  Leaves (some (s, effects)) = IsValid s

  -- An action that keeps the state well formed.
  abbrev pub Keeps : Action Msg → Type 0
  Keeps a = (s : NodeShared Msg) → IsValid s → Leaves (a s)

  pub Leaves-some :
      (r : Option (NodeShared Msg × List (Effect Msg))) {s : NodeShared Msg}
      {effects : List (Effect Msg)}
      → Leaves r
      → r ≡ some (s, effects)
      → IsValid s
  Leaves-some r k e = subst Leaves e k

  pub Leaves-if :
      (b : Bool) (x y : Option (NodeShared Msg × List (Effect Msg)))
      → Leaves x
      → Leaves y
      → Leaves (if b then x else y)
  Leaves-if true x y kx ky = kx
  Leaves-if false x y kx ky = ky

  pub Leaves-with_effects :
      (before : List (Effect Msg)) (r : Option (NodeShared Msg × List (Effect Msg)))
      → Leaves r
      → Leaves (with_effects before r)
  Leaves-with_effects before none k = k
  Leaves-with_effects before (some (s, effects)) k = k

  pub Keeps->> : (v w : Action Msg) → Keeps v → Keeps w → Keeps (v >> w)
  unfolding ◌>>◌
  Keeps->> v w kv kw s h = elim (Option-cases (v s)) [
    | inl e ↦ rw (e, ◌>>◌) tt
    | inr ((s', effects), e) ↦
        rw (e, ◌>>◌) (Leaves-with_effects effects (w s') (kw s' (Leaves-some (v s) (kv s h) e)))
  ]
