-- ===== src/Node/Lifetime.antt =====
-- The destructor of `Node` in src/Node.cc.
pub mod Names
pub mod Withdrawals
pub mod Ends
pub mod Destructor
use ign_transport_git.Base.{Bool, Option, none, some, List, [], ◌∷◌, ◌++◌, Text}
use ign_transport_git.Zmq.{Call}
use ign_transport_git.NodeShared.{NodeShared, Effect}
use ign_transport_git.Node.{Node, Reply, unadvertise, unsubscribe_from}
use ign_transport_git.Node.Services.{unadvertise_srv}
use ign_transport_git.Node.Lists.{advertised_topics, subscribed_topics, advertised_services}

-- The node and the shared state after several calls, and their effects.
abbrev pub Left : Type 0 → Type 0
Left Msg = Option (Node × NodeShared Msg × List (Effect Msg))

module _ {Msg : Type 0} where
  -- One call for each name.
  unfoldable pub each :
      (Text → Node → NodeShared Msg → Reply Msg) → List Text → Node → NodeShared Msg → Left Msg
  each call [] n s = some (n, s, [])
  each call (topic ∷ topics) n s = elim (call topic n s) [
    | none ↦ none
    | some (n', s', result, effects) ↦ elim (each call topics n' s') [
      | none ↦ none
      | some (n'', s'', more) ↦ some (n'', s'', effects ++ more)
    ]
  ]

  -- Two loops in a row.
  unfoldable pub in_turn : Left Msg → (Node → NodeShared Msg → Left Msg) → Left Msg
  in_turn none next = none
  in_turn (some (n, s, effects)) next = elim (next n s) [
    | none ↦ none
    | some (n', s', more) ↦ some (n', s', effects ++ more)
  ]

  -- The destructor, without its assertions.
  unfoldable pub destroy : (Call → Bool) → Node → NodeShared Msg → Left Msg
  destroy ok n s = in_turn (each (unsubscribe_from ok) (subscribed_topics n) n s) (λ n1 s1.
      in_turn (each (unadvertise ok) (advertised_topics n1) n1 s1)
        (λ n2 s2. each (unadvertise_srv ok) (advertised_services n2) n2 s2))
