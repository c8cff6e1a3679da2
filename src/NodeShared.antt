-- ===== src/NodeShared.antt =====
-- src/NodeShared.cc: the state that the nodes of a process share, and how its functions are composed.
pub mod Receive
pub mod Services
pub mod Connections
pub mod Callbacks
pub mod Reception
pub mod Invariant
pub mod Progress
use ign_transport_git.Base.{Bool, Option, none, some, List, [], ◌++◌, map, Text}
use ign_transport_git.TopicStorage.{TopicStorage}
use ign_transport_git.HandlerStorage.{HandlerStorage}
use ign_transport_git.Zmq.{Call}
use ign_transport_git.Handlers.{SubscriptionHandler, RepHandler, ReqHandler, Notice}
use ign_transport_git.Discovery.{Discovery}

-- `NodeShared`, without `verbose`, the sockets, the threads and the mutexes. The two identities are
-- the texts of `responseReceiverId` and `replierId`. Pointers to handlers are never null, and addresses
-- hold no NUL byte, so that `c_str()` is the whole text.
pub record NodeShared (Msg : Type 0) : Type 0 where
  pub my_address : Text
  pub my_control_address : Text
  pub my_requester_address : Text
  pub my_replier_address : Text
  pub host_addr : Text
  pub p_uuid : Text
  pub response_receiver_id : Text
  pub replier_id : Text
  pub discovery : Discovery
  pub connections : TopicStorage
  pub srv_connections : List Text
  pub remote_subscribers : TopicStorage
  pub local_subscriptions : HandlerStorage (SubscriptionHandler Msg)
  pub repliers : HandlerStorage (RepHandler Msg)
  pub requests : HandlerStorage (ReqHandler Msg)

-- What a call shows to the outside: a call of 0MQ that returned, what a client sees, or a datagram of
-- the discovery service.
pub data Effect (Msg : Type 0) : Type 0 where
  zmq : Call → Effect Msg
  notice : Notice Msg → Effect Msg
  broadcast : Text → Effect Msg

-- The state after a call and its effects; `none` is an exception that nothing catches, or undefined
-- behaviour.
abbrev pub Action : Type 0 → Type 0
Action Msg = NodeShared Msg → Option (NodeShared Msg × List (Effect Msg))

module _ {Msg : Type 0} where
  abbrev pub zmqs : List Call → List (Effect Msg)
  zmqs calls = map zmq calls

  abbrev pub notices : List (Notice Msg) → List (Effect Msg)
  notices ns = map notice ns

  abbrev pub with_effects :
      List (Effect Msg)
      → Option (NodeShared Msg × List (Effect Msg))
      → Option (NodeShared Msg × List (Effect Msg))
  with_effects before none = none
  with_effects before (some (s, after)) = some (s, before ++ after)

  -- One call after another.
  infixr 5 ◌>>◌
  unfoldable pub ◌>>◌ : Action Msg → Action Msg → Action Msg
  ◌>>◌ v w s = elim (v s) [ none ↦ none | some (s', effects) ↦ with_effects effects (w s') ]

  abbrev pub skip : Action Msg
  skip s = some (s, [])
