-- ===== src/Node.antt =====
-- include/ignition/transport/Node.hh and src/Node.cc: the state of a node, and the calls about topics.
pub mod Services
pub mod Lists
pub mod Lifetime
pub mod Delivery
pub mod Farewell
pub mod Running
pub mod Handshake
use ign_transport_git.Base.{
  Bool, true, false, Option, none, some, List, [], ◌∷◌, ◌++◌, map, if◌then◌else◌, Text, bytes,
}
use ign_transport_git.Base.Map.{Map, contains, insert_new, erase, keys}
use ign_transport_git.TransportTypes.{Scope, MsgType, msg, srv, Address, Addresses}
use ign_transport_git.TopicUtils.{is_valid_namespace, get_fully_qualified_name}
use ign_transport_git.TopicStorage.{has_topic}
use ign_transport_git.HandlerStorage.{
  Nodes, get_handlers, add_handler, has_handlers_for_topic, remove_handlers_for_node,
}
use ign_transport_git.Packet.Header
use ign_transport_git.Zmq.{Call, dealer, connect, unsubscribe, send_all, attempt}
use ign_transport_git.Handlers.{SubscriptionHandler, Notice, run_local_callback}
use ign_transport_git.Discovery.Local
use ign_transport_git.Discovery.Local.{discover}
use ign_transport_git.Discovery.Settings.{get_msg_addresses}
use ign_transport_git.NodeShared.{NodeShared, Effect, zmqs, notices}
use ign_transport_git.NodeShared.Receive.{to_string}
use ign_transport_git.NodeShared.Receive
use ign_transport_git.NodeShared.Connections.{control_frames}
use ign_transport_git.NodeShared.Callbacks.{with_discovery}

-- `NodePrivate`, without the pointer to the shared state. A set of names is a map to nothing; the order
-- of an `unordered_set` is not specified, that of the model is the order of the names.
pub record Node : Type 0 where
  pub topics_subscribed : Map (Unit {0})
  pub topics_advertised : Map (Unit {0})
  pub srvs_advertised : Map (Unit {0})
  pub n_uuid : Text
  pub partition : Text
  pub ns : Text

-- The constructor without arguments; `IGN_PARTITION` is an argument.
unfoldable pub init : Option Text → Text → Node
init ign_partition n_uuid = record {
  topics_subscribed = [];
  topics_advertised = [];
  srvs_advertised = [];
  n_uuid = n_uuid;
  partition = elim ign_partition [ none ↦ [] | some p ↦ if is_valid_namespace p then p else [] ];
  ns = [];
}

-- The constructor with a partition and a namespace.
unfoldable pub init_in : Option Text → Text → Text → Text → Node
init_in ign_partition partition ns n_uuid =
    let n : Node = init ign_partition n_uuid in
    record n {
      ns = if is_valid_namespace ns then ns else n.ns;
      partition = if is_valid_namespace partition then partition else n.partition;
    }

abbrev pub full_name : Text → Node → Option Text
full_name topic n = get_fully_qualified_name n.partition n.ns topic

-- The node and the shared state after a call, what it returned, and its effects.
abbrev pub Reply : Type 0 → Type 0
Reply Msg = Option (Node × NodeShared Msg × Bool × List (Effect Msg))

-- Calls outside any `try` block: `none` if one throws.
unfoldable pub all_calls : (Call → Bool) → List Call → Option (List Call)
all_calls ok calls = let (made, fine) = attempt ok calls in if fine then some made else none

-- The messages to the publishers of one process, and of all.
unfoldable pub farewell_proc : Text → Text → Text → List Address → List Call
farewell_proc topic my_address n_uuid [] = []
farewell_proc topic my_address n_uuid (node ∷ v) =
    (connect (dealer node.ctrl) node.ctrl
      ∷ send_all (dealer node.ctrl)
          (control_frames topic my_address n_uuid (to_string Header.end_connection)))
    ++ farewell_proc topic my_address n_uuid v

unfoldable pub farewells : Text → Text → Text → Addresses → List Call
farewells topic my_address n_uuid [] = []
farewells topic my_address n_uuid ((p_uuid, v) ∷ addresses) =
    farewell_proc topic my_address n_uuid v ++ farewells topic my_address n_uuid addresses

module _ {Msg : Type 0} where
  -- A call that returns true once the shared state has done its part.
  abbrev pub returning : Node → Option (NodeShared Msg × List (Effect Msg)) → Reply Msg
  returning n none = none
  returning n (some (s, effects)) = some (n, s, true, effects)

  -- With the full name of a topic or a service, or false if it is not valid.
  abbrev pub with_name : Option Text → Node → NodeShared Msg → (Text → Reply Msg) → Reply Msg
  with_name none n s go = some (n, s, false, [])
  with_name (some full) n s go = go full

  unfoldable pub advertise : (Call → Bool) → Text → Scope → Node → NodeShared Msg → Reply Msg
  advertise ok topic scope n s = with_name (full_name topic n) n s (λ full.
      returning (record n { topics_advertised = insert_new full tt n.topics_advertised })
        (with_discovery ok
          (Local.advertise msg full s.my_address s.my_control_address n.n_uuid scope) s))

  unfoldable pub unadvertise : (Call → Bool) → Text → Node → NodeShared Msg → Reply Msg
  unadvertise ok topic n s = with_name (full_name topic n) n s (λ full.
      returning (record n { topics_advertised = erase full n.topics_advertised })
        (with_discovery ok (Local.unadvertise msg full n.n_uuid) s))

  -- The loop over the local subscribers.
  unfoldable pub run_local_node : Text → Msg → Map (SubscriptionHandler Msg) → List (Notice Msg)
  run_local_node topic m [] = []
  run_local_node topic m ((h_uuid, h) ∷ handlers) =
      (run_local_callback h topic m).0 ++ run_local_node topic m handlers

  unfoldable pub run_local_nodes : Text → Msg → Nodes (SubscriptionHandler Msg) → List (Notice Msg)
  run_local_nodes topic m [] = []
  run_local_nodes topic m ((n_uuid, handlers) ∷ nodes) =
      run_local_node topic m handlers ++ run_local_nodes topic m nodes

  unfoldable pub local_notices : Text → Msg → NodeShared Msg → List (Notice Msg)
  local_notices topic m s = elim (get_handlers topic s.local_subscriptions) [
    | none ↦ []
    | some handlers ↦ run_local_nodes topic m handlers
  ]

  -- `serialize` is the message's `SerializeToString`.
  unfoldable pub publish :
      (Call → Bool) → (Msg → Text) → Text → Msg → Node → NodeShared Msg → Reply Msg
  publish ok serialize topic m n s = with_name (full_name topic n) n s (λ full.
      if contains full n.topics_advertised
      then some (
        n,
        s,
        true,
        notices (local_notices full m s)
            ++ (if has_topic full s.remote_subscribers
                then zmqs (Receive.publish ok full (serialize m) s).0
                else []),
      )
      else some (n, s, false, []))

  -- Both overloads; `h` is the new handler with the callback in it.
  unfoldable pub subscribe :
      (Call → Bool) → Text → SubscriptionHandler Msg → Node → NodeShared Msg → Reply Msg
  subscribe ok topic h n s = with_name (full_name topic n) n s (λ full.
      returning (record n { topics_subscribed = insert_new full tt n.topics_subscribed })
        (with_discovery ok (discover msg full) (record s {
          local_subscriptions = add_handler full n.n_uuid h.h_uuid h s.local_subscriptions;
        })))

  -- The filter of the subscriber socket goes with the last handler.
  abbrev pub filter_calls : Text → NodeShared Msg → List Call
  filter_calls full s =
      if has_handlers_for_topic full s.local_subscriptions then [] else unsubscribe full ∷ []

  -- The rest of `Unsubscribe`, once the handlers are removed.
  unfoldable pub leave : (Call → Bool) → Text → Node → NodeShared Msg → Reply Msg
  leave ok full n s = elim (get_msg_addresses full s.discovery) [
    | none ↦ elim (all_calls ok (filter_calls full s)) [
      | none ↦ none
      | some calls ↦ some (n, s, false, zmqs calls)
    ]
    | some addresses ↦
        elim (all_calls ok
          (filter_calls full s ++ farewells full s.my_address n.n_uuid addresses)) [
            | none ↦ none
            | some calls ↦ some (n, s, true, zmqs calls)
          ]
  ]

  unfoldable pub unsubscribe_from : (Call → Bool) → Text → Node → NodeShared Msg → Reply Msg
  unsubscribe_from ok topic n s = with_name (full_name topic n) n s (λ full.
      leave ok full (record n { topics_subscribed = erase full n.topics_subscribed })
        (record s {
          local_subscriptions = (remove_handlers_for_node full n.n_uuid s.local_subscriptions).0;
        }))
