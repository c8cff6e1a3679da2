-- ===== src/Node/Running/Names.antt =====
-- The names of a node through the calls of src/Node.cc.
use mathlib.Core.Path.{subst}
use ign_transport_git.Base.Map.{contains}
use ign_transport_git.Base.{
  Bool-cases, Bool, ◌≡◌, refl, Option, none, some, List, ◌++◌, Text, Option-cases, inl, inr,
}
use ign_transport_git.HandlerStorage.{get_handler}
use ign_transport_git.Zmq.{Call}
use ign_transport_git.Handlers.{ReqHandler}
use ign_transport_git.Discovery.Settings.{get_msg_addresses}
use ign_transport_git.NodeShared.{NodeShared, Effect}
use ign_transport_git.Node.{
  publish, init, init_in, Node, Reply, full_name, all_calls, returning, with_name, filter_calls,
  farewells, leave, advertise, unadvertise, subscribe, unsubscribe_from,
}
use ign_transport_git.Node.Services.{
  start_request, advertise_srv, unadvertise_srv, request_named, request,
}
use ign_transport_git.Node.Lifetime.Names.{
  IsOwn, AreOwn, full_name-IsOwn, insert_new-Keys, erase-Keys,
}
use ign_transport_git.Node.Running.Calls.{
  NodeCall, advertise_call, unadvertise_call, unsubscribe_call, unadvertise_srv_call,
  subscribe_call, advertise_srv_call, request_call, timed_request_call, publish_call, reply_of,
  run_call,
}

module _ {Msg : Type 0} where
  abbrev Keeps : Reply Msg → Type 0
  Keeps none = Unit
  Keeps (some (n, s, result, effects)) = AreOwn n

  Keeps-returning :
      (n : Node) (r : Option (NodeShared Msg × List (Effect Msg)))
      → AreOwn n
      → Keeps (returning n r)
  Keeps-returning n none own = tt
  Keeps-returning n (some (s, effects)) own = own

  Keeps-with_name :
      (name : Option Text) (n : Node) (s : NodeShared Msg) (go : Text → Reply Msg)
      → AreOwn n
      → ((full : Text) → name ≡ some full → Keeps (go full))
      → Keeps (with_name name n s go)
  Keeps-with_name none n s go own k = own
  Keeps-with_name (some full) n s go own k = k full refl

  Keeps-leave :
      (ok : Call → Bool) (full : Text) (n : Node) (s : NodeShared Msg)
      → AreOwn n
      → Keeps (leave ok full n s)
  unfolding leave
  Keeps-leave ok full n s own = elim (Option-cases (get_msg_addresses full s.discovery)) [
    | inl e ↦ elim (Option-cases (all_calls ok (filter_calls full s))) [
      | inl f ↦ rw (e, leave) (rw f tt)
      | inr (calls, f) ↦ rw (e, leave) (rw f own)
    ]
    | inr (addresses, e) ↦
        elim (Option-cases
          (all_calls ok (filter_calls full s ++ farewells full s.my_address n.n_uuid addresses))) [
            | inl f ↦ rw (e, leave) (rw f tt)
            | inr (calls, f) ↦ rw (e, leave) (rw f own)
          ]
  ]

  Keeps-request_named :
      (ok : Call → Bool) (full : Text) (req : Msg) (h : ReqHandler Msg) (rep : Msg) (n : Node)
      (s : NodeShared Msg)
      → AreOwn n
      → Keeps (request_named ok full req h rep n s)
  unfolding request_named
  Keeps-request_named ok full req h rep n s own =
      elim (Option-cases (get_handler full s.repliers)) [
        | inl e ↦ rw (e, request_named) tt
        | inr (none, e) ↦ rw (e, request_named) (Keeps-returning n _ own)
        | inr (some replier, e) ↦ rw (e, request_named) own
      ]

  Keeps-start_request :
      (ok : Call → Bool) (topic : Text) (req : Msg) (h : ReqHandler Msg) (rep : Msg) (n : Node)
      (s : NodeShared Msg)
      → AreOwn n
      → Keeps (reply_of (start_request ok topic req h rep n s))
  unfolding start_request
  Keeps-start_request ok topic req h rep n s own = elim (Option-cases (full_name topic n)) [
    | inl e ↦ rw (e, start_request) own
    | inr (full, e) ↦ elim (Option-cases (get_handler full s.repliers)) [
      | inl f ↦ rw (e, start_request) (rw f tt)
      | inr (none, f) ↦ rw (e, start_request) (rw f (Keeps-returning n _ own))
      | inr (some replier, f) ↦ rw (e, start_request) (rw f own)
    ]
  ]

  Keeps-publish :
      (ok : Call → Bool) (serialize : Msg → Text) (topic : Text) (m : Msg) (n : Node)
      (s : NodeShared Msg)
      → AreOwn n
      → Keeps (publish ok serialize topic m n s)
  unfolding publish
  Keeps-publish ok serialize topic m n s own =
      Keeps-with_name (full_name topic n) n s _ own (λ full named.
        elim (Bool-cases (contains full n.topics_advertised)) [
          | inl e ↦ rw e own
          | inr e ↦ rw e own
        ])

  Keeps-run_call :
      (ok : Call → Bool) (c : NodeCall Msg) (n : Node) (s : NodeShared Msg)
      → AreOwn n
      → Keeps (run_call ok c n s)
  unfolding run_call advertise unadvertise unsubscribe_from unadvertise_srv subscribe advertise_srv
      request
  Keeps-run_call ok (advertise_call topic scope) n s own =
      Keeps-with_name (full_name topic n) n s _ own (λ full e.
        Keeps-returning _ _
          (own.0, insert_new-Keys (IsOwn n) full tt _ (full_name-IsOwn topic n e) own.1, own.2))
  Keeps-run_call ok (unadvertise_call topic) n s own =
      Keeps-with_name (full_name topic n) n s _ own
        (λ full e. Keeps-returning _ _ (own.0, erase-Keys (IsOwn n) full _ own.1, own.2))
  Keeps-run_call ok (unsubscribe_call topic) n s own =
      Keeps-with_name (full_name topic n) n s _ own
        (λ full e. Keeps-leave ok full _ _ (erase-Keys (IsOwn n) full _ own.0, own.1, own.2))
  Keeps-run_call ok (unadvertise_srv_call topic) n s own =
      Keeps-with_name (full_name topic n) n s _ own
        (λ full e. Keeps-returning _ _ (own.0, own.1, erase-Keys (IsOwn n) full _ own.2))
  Keeps-run_call ok (subscribe_call topic h) n s own =
      Keeps-with_name (full_name topic n) n s _ own (λ full e.
        Keeps-returning _ _
          (insert_new-Keys (IsOwn n) full tt _ (full_name-IsOwn topic n e) own.0, own.1, own.2))
  Keeps-run_call ok (advertise_srv_call topic h scope) n s own =
      Keeps-with_name (full_name topic n) n s _ own (λ full e.
        Keeps-returning _ _
          (own.0, own.1, insert_new-Keys (IsOwn n) full tt _ (full_name-IsOwn topic n e) own.2))
  Keeps-run_call ok (request_call topic req h rep) n s own =
      Keeps-with_name (full_name topic n) n s _ own
        (λ full e. Keeps-request_named ok full req h rep n s own)
  Keeps-run_call ok (timed_request_call topic req h rep) n s own =
      Keeps-start_request ok topic req h rep n s own
  Keeps-run_call ok (publish_call serialize topic m) n s own =
      Keeps-publish ok serialize topic m n s own

  run_call-AreOwn :
      (ok : Call → Bool) (c : NodeCall Msg) (n : Node) (s : NodeShared Msg) {n' : Node}
      {s' : NodeShared Msg} {result : Bool} {effects : List (Effect Msg)}
      → AreOwn n
      → run_call ok c n s ≡ some (n', s', result, effects)
      → AreOwn n'
  run_call-AreOwn ok c n s own e = subst Keeps e (Keeps-run_call ok c n s own)

-- The states of a node, from its constructors on, by calls in any shared state.
pub data Living (Msg : Type 0) : Node → Type 0 where
  created : (ign_partition : Option Text) (n_uuid : Text) → Living Msg (init ign_partition n_uuid)
  created_in :
      (ign_partition : Option Text) (partition ns n_uuid : Text)
      → Living Msg (init_in ign_partition partition ns n_uuid)
  called :
      {n n' : Node} (s s' : NodeShared Msg) (result : Bool) (effects : List (Effect Msg))
      (ok : Call → Bool) (c : NodeCall Msg)
      → Living Msg n
      → run_call ok c n s ≡ some (n', s', result, effects)
      → Living Msg n'

-- In every state that a node reaches from one of its constructors by calls, whatever their arguments
-- and the shared state at each, and whichever calls of 0MQ throw, as long as no exception leaves a
-- call, it holds full names of its own only: for every topic it subscribes to or advertises, and every
-- service, the name that it gives out, which has no partition, stands for that full name.
pub Living-AreOwn : {Msg : Type 0} (n : Node) → Living Msg n → AreOwn n
unfolding init init_in
Living-AreOwn n (created ign_partition n_uuid) = (tt, tt, tt)
Living-AreOwn n (created_in ign_partition partition ns n_uuid) = (tt, tt, tt)
Living-AreOwn n' (called s s' result effects ok c l e) =
    run_call-AreOwn ok c _ s (Living-AreOwn _ l) e
