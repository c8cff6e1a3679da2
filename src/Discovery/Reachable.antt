-- ===== src/Discovery/Reachable.antt =====
-- The states that a discovery service of src/Discovery.cc can be in, and what holds in all of them.
use ign_transport_git.Base.{
  ℕ, Bool, ◌≡◌, refl, false, none, some, [], ◌∷◌, List, arith, Option-cases, inl, inr, Text,
  text_eq,
}
use ign_transport_git.Base.Map.{Map, find, find-insert, find-erase}
use ign_transport_git.TransportTypes.{Scope, MsgType, msg, srv, Address}
use ign_transport_git.TopicStorage.{TopicStorage, add_address, get_address, del_address_by_node}
use ign_transport_git.TopicStorage.Invariant as Store
use ign_transport_git.TopicStorage.Invariant.{
  add_address-IsValid, del_address_by_node-IsValid, del_addresses_by_proc-IsValid,
}
use ign_transport_git.Discovery.{Discovery, init, Event, storage, set_storage, is_process}
use ign_transport_git.Discovery.Send.{send_msg}
use ign_transport_git.Discovery.Settings.{
  set_activity_interval, set_heartbeat_interval, set_advertise_interval, set_silence_interval,
  set_connections_cb, set_disconnections_cb, set_connections_srv_cb, set_disconnections_srv_cb,
}
use ign_transport_git.Discovery.Local.{adv_type_of, unadv_type_of, advertise, withdraw, unadvertise}
use ign_transport_git.Discovery.Dispatch.{dispatch_discovery_msg}
use ign_transport_git.Discovery.Dispatch.Wire.{touched}
use ign_transport_git.Discovery.Dispatch.Rule.{
  Keeps, keep, keep_none, Keeps-some, Keeps-if, farewelled, Keeps-dispatch,
}
use ign_transport_git.Discovery.Tasks.{is_expired, expire, activity_loop, run_activity_round}

-- The storages are well formed, and the process does not watch itself.
pub record IsValid (d : Discovery) : Type 0 where
  pub msg_storage : Store.IsValid d.info_msg
  pub srv_storage : Store.IsValid d.info_srv
  pub not_watched : find d.p_uuid d.activity ≡ none

storage-IsValid : (kind : MsgType) (d : Discovery) → IsValid d → Store.IsValid (storage kind d)
storage-IsValid msg d v = v.msg_storage
storage-IsValid srv d v = v.srv_storage

set_storage-IsValid :
    (kind : MsgType) (s : TopicStorage) (d : Discovery)
    → Store.IsValid s
    → IsValid d
    → IsValid (set_storage kind s d)
set_storage-IsValid msg s d v h = record {
  msg_storage = v;
  srv_storage = h.srv_storage;
  not_watched = h.not_watched;
}
set_storage-IsValid srv s d v h = record {
  msg_storage = h.msg_storage;
  srv_storage = v;
  not_watched = h.not_watched;
}

touched-IsValid :
    (p : Text) (now : ℕ) (d : Discovery)
    → text_eq p d.p_uuid ≡ false
    → IsValid d
    → IsValid (touched p now d)
touched-IsValid p now d other v = record {
  msg_storage = v.msg_storage;
  srv_storage = v.srv_storage;
  not_watched = rw (find-insert d.p_uuid p now d.activity, other) v.not_watched;
}

farewelled-IsValid : (p : Text) (d : Discovery) → IsValid d → IsValid (farewelled p d)
farewelled-IsValid p d v = record {
  msg_storage = del_addresses_by_proc-IsValid p d.info_msg v.msg_storage;
  srv_storage = del_addresses_by_proc-IsValid p d.info_srv v.srv_storage;
  not_watched = rw (find-erase d.p_uuid p d.activity, v.not_watched) (ground arith);
}

pub dispatch-IsValid :
    (from_ip datagram : Text) (now : ℕ) (d : Discovery)
    → IsValid d
    → Keeps IsValid (dispatch_discovery_msg from_ip datagram now d)
dispatch-IsValid from_ip datagram now d v =
    Keeps-dispatch IsValid from_ip datagram now d v (λ p other. touched-IsValid p now d other v)
      (λ p other kind t addr ctrl n sc.
        set_storage-IsValid kind _ _
          (add_address-IsValid t addr ctrl p n sc _
            (storage-IsValid kind _ (touched-IsValid p now d other v)))
          (touched-IsValid p now d other v))
      (λ p other kind t n.
        set_storage-IsValid kind _ _
          (del_address_by_node-IsValid t p n _
            (storage-IsValid kind _ (touched-IsValid p now d other v)))
          (touched-IsValid p now d other v))
      (λ p other. farewelled-IsValid p _ (touched-IsValid p now d other v))

pub advertise-IsValid :
    (kind : MsgType) (t addr ctrl n : Text) (sc : Scope) (d : Discovery)
    → IsValid d
    → Keeps IsValid (advertise kind t addr ctrl n sc d)
unfolding advertise
advertise-IsValid kind t addr ctrl n sc d v =
    let s = (add_address t addr ctrl d.p_uuid n sc (storage kind d)).0 in
    let d' : Discovery = set_storage kind s d in
    let v' : IsValid d' =
      set_storage-IsValid kind s d
        (add_address-IsValid t addr ctrl d.p_uuid n sc _ (storage-IsValid kind d v)) v in
    Keeps-if IsValid (is_process sc) _ _ (keep IsValid d' [] v')
      (elim (Option-cases (send_msg d' (adv_type_of kind) t addr ctrl n sc 0)) [
        | inl e ↦ rw e (keep_none IsValid)
        | inr (events, e) ↦ rw e (keep IsValid d' events v')
      ])

withdraw-IsValid :
    (kind : MsgType) (t n : Text) (inf : Address) (d : Discovery)
    → IsValid d
    → Keeps IsValid (withdraw kind t n inf d)
unfolding withdraw
withdraw-IsValid kind t n inf d v =
    let s = (del_address_by_node t d.p_uuid n (storage kind d)).0 in
    let d' : Discovery = set_storage kind s d in
    let v' : IsValid d' =
      set_storage-IsValid kind s d
        (del_address_by_node-IsValid t d.p_uuid n _ (storage-IsValid kind d v)) v in
    Keeps-if IsValid (is_process inf.scope) _ _ (keep IsValid d' [] v')
      (elim (Option-cases (send_msg d' (unadv_type_of kind) t inf.addr inf.ctrl n inf.scope 0)) [
        | inl e ↦ rw e (keep_none IsValid)
        | inr (events, e) ↦ rw e (keep IsValid d' events v')
      ])

pub unadvertise-IsValid :
    (kind : MsgType) (t n : Text) (d : Discovery)
    → IsValid d
    → Keeps IsValid (unadvertise kind t n d)
unfolding unadvertise
unadvertise-IsValid kind t n d v = elim (Option-cases (get_address t d.p_uuid n (storage kind d))) [
  | inl e ↦ rw (e, unadvertise) (keep IsValid d [] v)
  | inr (inf, e) ↦ rw (e, unadvertise) (withdraw-IsValid kind t n inf d v)
]

expire-IsValid : (p : Text) (d : Discovery) → IsValid d → Keeps IsValid (expire p d)
unfolding expire
expire-IsValid p d v =
    Keeps-if IsValid d.disconnection_cb _ _ (keep IsValid _ _ (farewelled-IsValid p d v))
      (keep_none IsValid)

pub activity_loop-IsValid :
    (now : ℕ) (entries : Map ℕ) (d : Discovery)
    → IsValid d
    → Keeps IsValid (activity_loop now entries d)
unfolding activity_loop
activity_loop-IsValid now [] d v = keep IsValid d [] v
activity_loop-IsValid now ((p, last) ∷ entries) d v =
    Keeps-if IsValid (is_expired now last d) _ _
      (elim (Option-cases (expire p d)) [
        | inl e ↦ rw e (keep_none IsValid)
        | inr ((d', events), e) ↦
            let v' : IsValid d' = Keeps-some IsValid _ d' events (expire-IsValid p d v) e in
            let rest = activity_loop-IsValid now entries d' v' in
            elim (Option-cases (activity_loop now entries d')) [
              | inl f ↦ rw e (rw f (keep_none IsValid))
              | inr ((d'', more), f) ↦
                  rw e (rw f (keep IsValid d'' _ (Keeps-some IsValid _ d'' more rest f)))
            ]
      ])
      (activity_loop-IsValid now entries d v)

-- The states that a process can reach from its constructor by its own calls, by datagrams of any
-- content and by its timer. `Discover` and the heartbeats leave the state as it is.
pub data Reachable (p_uuid host_addr : Text) : Discovery → Type 0 where
  started : Reachable p_uuid host_addr (init p_uuid host_addr)
  callbacks_set :
      {d : Discovery} (connection disconnection connection_srv disconnection_srv : Bool)
      → Reachable p_uuid host_addr d
      → Reachable p_uuid host_addr (
          set_disconnections_srv_cb disconnection_srv (
            set_connections_srv_cb connection_srv
              (set_disconnections_cb disconnection (set_connections_cb connection d))))
  intervals_set :
      {d : Discovery} (activity heartbeat advertise silence : ℕ)
      → Reachable p_uuid host_addr d
      → Reachable p_uuid host_addr (
          set_silence_interval silence (
            set_advertise_interval advertise
              (set_heartbeat_interval heartbeat (set_activity_interval activity d))))
  advertised :
      {d d' : Discovery} {events : List Event} (kind : MsgType) (t addr ctrl n : Text) (sc : Scope)
      → Reachable p_uuid host_addr d
      → advertise kind t addr ctrl n sc d ≡ some (d', events)
      → Reachable p_uuid host_addr d'
  unadvertised :
      {d d' : Discovery} {events : List Event} (kind : MsgType) (t n : Text)
      → Reachable p_uuid host_addr d
      → unadvertise kind t n d ≡ some (d', events)
      → Reachable p_uuid host_addr d'
  received :
      {d d' : Discovery} {events : List Event} (from_ip datagram : Text) (now : ℕ)
      → Reachable p_uuid host_addr d
      → dispatch_discovery_msg from_ip datagram now d ≡ some (d', events)
      → Reachable p_uuid host_addr d'
  checked :
      {d d' : Discovery} {events : List Event} (now : ℕ)
      → Reachable p_uuid host_addr d
      → run_activity_round now d ≡ some (d', events)
      → Reachable p_uuid host_addr d'

-- In every state that a process can reach by its own calls, by its timer and by datagrams of any
-- content from anyone, both storages are well formed (keys in order, each once; no topic without a
-- process, no process without a publisher, no publisher twice), and its own UUID has no entry in the
-- activity map.
pub Reachable-IsValid :
    (p_uuid host_addr : Text) (d : Discovery) → Reachable p_uuid host_addr d → IsValid d
unfolding init run_activity_round find
Reachable-IsValid p h _ started = record {
  msg_storage = (tt, tt);
  srv_storage = (tt, tt);
  not_watched = refl;
}
Reachable-IsValid p h _ (callbacks_set a b c e r) =
    let v = Reachable-IsValid p h _ r in
    record { msg_storage = v.msg_storage; srv_storage = v.srv_storage; not_watched = v.not_watched }
Reachable-IsValid p h _ (intervals_set a b c e r) =
    let v = Reachable-IsValid p h _ r in
    record { msg_storage = v.msg_storage; srv_storage = v.srv_storage; not_watched = v.not_watched }
Reachable-IsValid p h d' (advertised kind t addr ctrl n sc r e) =
    Keeps-some IsValid _ d' _
      (advertise-IsValid kind t addr ctrl n sc _ (Reachable-IsValid p h _ r)) e
Reachable-IsValid p h d' (unadvertised kind t n r e) =
    Keeps-some IsValid _ d' _ (unadvertise-IsValid kind t n _ (Reachable-IsValid p h _ r)) e
Reachable-IsValid p h d' (received from_ip datagram now r e) =
    Keeps-some IsValid _ d' _ (dispatch-IsValid from_ip datagram now _ (Reachable-IsValid p h _ r))
      e
Reachable-IsValid p h d' (checked now r e) =
    Keeps-some IsValid _ d' _ (activity_loop-IsValid now _ _ (Reachable-IsValid p h _ r)) e
