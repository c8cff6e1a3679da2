-- ===== src/Node/Lifetime/Destructor.antt =====
-- The destructor of `Node` in src/Node.cc, its loops and its assertions.
use mathlib.Core.Path.{subst}
use ign_transport_git.Base.{
  Bool, true, ◌≡◌, refl, sym, ap, ◌∙◌, some, List, [], ◌∷◌, ◌++◌, map, Text,
}
use ign_transport_git.Base.Map.{Map, keys}
use ign_transport_git.Zmq.{Call}
use ign_transport_git.Handlers.{topic_name}
use ign_transport_git.NodeShared.{NodeShared, Effect}
use ign_transport_git.Node.{Node, Reply, full_name, unadvertise, unsubscribe_from}
use ign_transport_git.Node.Services.{unadvertise_srv}
use ign_transport_git.Node.Lists.{advertised_topics, subscribed_topics, advertised_services}
use ign_transport_git.Node.Lifetime.{Left, each, in_turn, destroy}
use ign_transport_git.Node.Lifetime.Names.{Keys, erase_all, erase_all-keys, IsOwn, AreOwn}
use ign_transport_git.Node.Lifetime.Withdrawals.{Fits}
use ign_transport_git.Node.Lifetime.Ends.{
  Ends, drop_subscribed, drop_advertised, drop_service, Ends-unadvertise, Ends-unadvertise_srv,
  Ends-unsubscribe_from,
}

-- One name after another.
abbrev drop_all : (Text → Node → Node) → List Text → Node → Node
drop_all drop [] n = n
drop_all drop (full ∷ fulls) n = drop_all drop fulls (drop full n)

Keys-same :
    (n n' : Node) (m : Map (Unit {0}))
    → ((t : Text) → full_name t n' ≡ full_name t n)
    → Keys (IsOwn n) m
    → Keys (IsOwn n') m
Keys-same n n' [] same h = tt
Keys-same n n' ((k, v) ∷ m) same h = (same (topic_name k) ∙ h.0, Keys-same n n' m same h.1)

drop_all_subscribed :
    (ks : List Text) (n : Node)
    → drop_all drop_subscribed ks n
      ≡ record n { topics_subscribed = erase_all ks n.topics_subscribed }
drop_all_subscribed [] n = refl
drop_all_subscribed (k ∷ ks) n = drop_all_subscribed ks _

drop_all_advertised :
    (ks : List Text) (n : Node)
    → drop_all drop_advertised ks n
      ≡ record n { topics_advertised = erase_all ks n.topics_advertised }
drop_all_advertised [] n = refl
drop_all_advertised (k ∷ ks) n = drop_all_advertised ks _

drop_all_services :
    (ks : List Text) (n : Node)
    → drop_all drop_service ks n ≡ record n { srvs_advertised = erase_all ks n.srvs_advertised }
drop_all_services [] n = refl
drop_all_services (k ∷ ks) n = drop_all_services ks _

module _ {Msg : Type 0} where
  each_cons :
      (call : Text → Node → NodeShared Msg → Reply Msg) (topic : Text) (topics : List Text)
      (n : Node) (s : NodeShared Msg) {n' n'' : Node} {s' s'' : NodeShared Msg} {result : Bool}
      {effects more : List (Effect Msg)}
      → call topic n s ≡ some (n', s', result, effects)
      → each call topics n' s' ≡ some (n'', s'', more)
      → each call (topic ∷ topics) n s ≡ some (n'', s'', effects ++ more)
  unfolding each
  each_cons call topic topics n s e f = rw (e, each) (rw f)

  -- The call once for each name, where the call leaves the node's UUID and what its names mean.
  each_lem :
      (call : Text → Node → NodeShared Msg → Reply Msg) (drop : Text → Node → Node)
      → Ends call drop
      → ((full t : Text) (n : Node) → full_name t (drop full n) ≡ full_name t n)
      → ((full : Text) (n : Node) → (drop full n).n_uuid ≡ n.n_uuid)
      → (m : Map (Unit {0})) (n : Node) (s : NodeShared Msg) → Keys (IsOwn n) m
      → Fits n.n_uuid s.discovery
      → (s' : NodeShared Msg) × (effects : List (Effect Msg)) × (each call
            (map topic_name (keys m))
            n
            s
          ≡ some (drop_all drop (keys m) n, s', effects))
        × Fits n.n_uuid s'.discovery
  unfolding each
  each_lem call drop ends same uuid [] n s own fits = (s, [], refl, fits)
  each_lem call drop ends same uuid ((k, v) ∷ m) n s own fits =
      let r = ends (topic_name k) k n s own.0 fits in
      let n' : Node = drop k n in
      let rest =
        each_lem call drop ends same uuid m n' r.0 (Keys-same n n' m (λ t. same k t n) own.1)
          (subst (λ u. Fits u r.0.discovery) (sym (uuid k n)) r.4) in
      (
        rest.0,
        r.2 ++ rest.1,
        each_cons call (topic_name k) (map topic_name (keys m)) n s r.3 rest.2,
        subst (λ u. Fits u rest.0.discovery) (uuid k n) rest.3,
      )

  unsubscribe_all :
      (ok : Call → Bool) (n : Node) (s : NodeShared Msg)
      → ((c : Call) → ok c ≡ true)
      → Keys (IsOwn n) n.topics_subscribed
      → Fits n.n_uuid s.discovery
      → (s' : NodeShared Msg) × (effects : List (Effect Msg)) × (each
            (unsubscribe_from ok)
            (map topic_name (keys n.topics_subscribed))
            n
            s
          ≡ some (record n { topics_subscribed = [] }, s', effects))
        × Fits n.n_uuid s'.discovery
  unsubscribe_all ok n s fine own fits =
      let r =
        each_lem (unsubscribe_from ok) drop_subscribed (Ends-unsubscribe_from ok fine)
          (λ full t n. refl) (λ full n. refl) n.topics_subscribed n s own fits in
      (
        r.0,
        r.1,
        r.2
            ∙ ap (λ m. some (m, r.0, r.1))
                (drop_all_subscribed (keys n.topics_subscribed) n
                  ∙ ap (λ m. record n { topics_subscribed = m })
                      (erase_all-keys n.topics_subscribed)),
        r.3,
      )

  unadvertise_all :
      (ok : Call → Bool) (n : Node) (s : NodeShared Msg)
      → Keys (IsOwn n) n.topics_advertised
      → Fits n.n_uuid s.discovery
      → (s' : NodeShared Msg) × (effects : List (Effect Msg)) × (each
            (unadvertise ok)
            (map topic_name (keys n.topics_advertised))
            n
            s
          ≡ some (record n { topics_advertised = [] }, s', effects))
        × Fits n.n_uuid s'.discovery
  unadvertise_all ok n s own fits =
      let r =
        each_lem (unadvertise ok) drop_advertised (Ends-unadvertise ok) (λ full t n. refl)
          (λ full n. refl) n.topics_advertised n s own fits in
      (
        r.0,
        r.1,
        r.2
            ∙ ap (λ m. some (m, r.0, r.1))
                (drop_all_advertised (keys n.topics_advertised) n
                  ∙ ap (λ m. record n { topics_advertised = m })
                      (erase_all-keys n.topics_advertised)),
        r.3,
      )

  unadvertise_srv_all :
      (ok : Call → Bool) (n : Node) (s : NodeShared Msg)
      → Keys (IsOwn n) n.srvs_advertised
      → Fits n.n_uuid s.discovery
      → (s' : NodeShared Msg) × (effects : List (Effect Msg)) × (each
            (unadvertise_srv ok)
            (map topic_name (keys n.srvs_advertised))
            n
            s
          ≡ some (record n { srvs_advertised = [] }, s', effects))
        × Fits n.n_uuid s'.discovery
  unadvertise_srv_all ok n s own fits =
      let r =
        each_lem (unadvertise_srv ok) drop_service (Ends-unadvertise_srv ok) (λ full t n. refl)
          (λ full n. refl) n.srvs_advertised n s own fits in
      (
        r.0,
        r.1,
        r.2
            ∙ ap (λ m. some (m, r.0, r.1))
                (drop_all_services (keys n.srvs_advertised) n
                  ∙ ap (λ m. record n { srvs_advertised = m }) (erase_all-keys n.srvs_advertised)),
        r.3,
      )

  in_turn_lem :
      (first : Left Msg) (next : Node → NodeShared Msg → Left Msg) {n n' : Node}
      {s s' : NodeShared Msg} {effects more : List (Effect Msg)}
      → first ≡ some (n, s, effects)
      → next n s ≡ some (n', s', more)
      → in_turn first next ≡ some (n', s', effects ++ more)
  unfolding in_turn
  in_turn_lem first next e f = rw (e, in_turn) (rw (f, in_turn))

  -- The destructor returns, where no call of 0MQ throws and the node's entries in discovery fit into a
  -- message; and when it does, the node has no topic that it subscribes to, none that it advertises and
  -- no service, as the destructor asserts after each loop. The names of the node are full names of its
  -- own, which every call of the node keeps.
  pub destroy_returns :
      (ok : Call → Bool) (n : Node) (s : NodeShared Msg)
      → ((c : Call) → ok c ≡ true)
      → AreOwn n
      → Fits n.n_uuid s.discovery
      → (n' : Node) × (s' : NodeShared Msg) × (effects : List (Effect Msg)) × (destroy ok n s
          ≡ some (n', s', effects))
        × (subscribed_topics n' ≡ [])
        × (advertised_topics n' ≡ [])
        × (advertised_services n' ≡ [])
  unfolding destroy subscribed_topics advertised_topics advertised_services
  destroy_returns ok n s fine own fits =
      let a = unsubscribe_all ok n s fine own.0 fits in
      let n1 : Node = record n { topics_subscribed = [] } in
      let b =
        unadvertise_all ok n1 a.0 (Keys-same n n1 n.topics_advertised (λ t. refl) own.1) a.3 in
      let n2 : Node = record n1 { topics_advertised = [] } in
      let c =
        unadvertise_srv_all ok n2 b.0 (Keys-same n n2 n.srvs_advertised (λ t. refl) own.2) b.3 in
      (
        record n2 { srvs_advertised = [] },
        c.0,
        a.1 ++ (b.1 ++ c.1),
        in_turn_lem _ _ a.2 (in_turn_lem _ _ b.2 c.2),
        refl,
        refl,
        refl,
      )
