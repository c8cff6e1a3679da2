-- ===== src/Discovery/Dispatch/Rule.antt =====
-- What is true of the state after a received datagram, whatever its bytes are: a rule for
-- predicates that each registration, deletion and goodbye of another process keeps.
use mathlib.Core.Path.{subst}
use ign_transport_git.Base.{
  ℕ, Bool, ◌≡◌, true, false, ◌==◌, none, some, [], List, drop, get_or, Bool-cases, Option-cases,
  inl, inr, if◌then◌else◌, Text, text_eq,
}
use ign_transport_git.Base.Map.{find, erase}
use ign_transport_git.TransportTypes.{Scope, MsgType, msg, srv}
use ign_transport_git.TopicStorage.{
  add_address, has_any_addresses, get_addresses, del_address_by_node, del_addresses_by_proc,
}
use ign_transport_git.Packet.Header
use ign_transport_git.Packet.Header.{Header, get_header_length}
use ign_transport_git.Packet.Subscription
use ign_transport_git.Packet.Subscription.{SubscriptionMsg}
use ign_transport_git.Packet.Advertise.Msg
use ign_transport_git.Packet.Advertise.Msg.{AdvertiseMsg}
use ign_transport_git.Discovery.{Discovery, Event, storage, set_storage}
use ign_transport_git.Discovery.Local.{Step}
use ign_transport_git.Discovery.Dispatch.{
  recv_advertise, answer_all, recv_subscribe, recv_bye, recv_unadvertise, with_advertise,
  with_subscription, dispatch_type, dispatch_discovery_msg,
}
use ign_transport_git.Discovery.Dispatch.Wire.{touched}

-- The state that a call leaves, where it leaves one.
pub Keeps : (Discovery → Type 0) → Step → Type 0
Keeps P none = Unit
Keeps P (some (d, events)) = P d

-- A call that returns leaves what the predicate says.
pub Keeps-some :
    (P : Discovery → Type 0) (s : Step) (d' : Discovery) (events : List Event)
    → Keeps P s
    → s ≡ some (d', events)
    → P d'
unfolding Keeps
Keeps-some P s d' events k e = subst (λ x. Keeps P x) e k

pub keep :
    (P : Discovery → Type 0) (d : Discovery) (events : List Event)
    → P d
    → Keeps P (some (d, events))
unfolding Keeps
keep P d events k = k

pub keep_none : (P : Discovery → Type 0) → Keeps P none
unfolding Keeps
keep_none P = tt

pub Keeps-if :
    (P : Discovery → Type 0) (b : Bool) (x y : Step)
    → Keeps P x
    → Keeps P y
    → Keeps P (if b then x else y)
Keeps-if P true x y kx ky = kx
Keeps-if P false x y kx ky = ky

-- The state after a goodbye.
abbrev pub farewelled : Text → Discovery → Discovery
farewelled p d = record d {
  activity = erase p d.activity;
  info_msg = (del_addresses_by_proc p d.info_msg).0;
  info_srv = (del_addresses_by_proc p d.info_srv).0;
}

Keeps-with_advertise :
    (P : Discovery → Type 0) (body : Text) (go : AdvertiseMsg → Step)
    → ((m : AdvertiseMsg) → Keeps P (go m))
    → Keeps P (with_advertise body go)
unfolding with_advertise
Keeps-with_advertise P body go k = elim (Option-cases (Msg.unpack_body Msg.default (some body))) [
  | inl e ↦ rw (e, with_advertise) (keep_none P)
  | inr ((m, n), e) ↦ rw (e, with_advertise) (k m)
]

Keeps-with_subscription :
    (P : Discovery → Type 0) (body : Text) (go : SubscriptionMsg → Step)
    → ((m : SubscriptionMsg) → Keeps P (go m))
    → Keeps P (with_subscription body go)
unfolding with_subscription
Keeps-with_subscription P body go k =
    elim (Option-cases (Subscription.unpack_body Subscription.default (some body))) [
      | inl e ↦ rw (e, with_subscription) (keep_none P)
      | inr ((m, n), e) ↦ rw (e, with_subscription) (k m)
    ]

Keeps-recv_subscribe :
    (P : Discovery → Type 0) (kind : MsgType) (from_ip : Text) (m : SubscriptionMsg) (d : Discovery)
    → P d
    → Keeps P (recv_subscribe kind from_ip m d)
unfolding recv_subscribe
Keeps-recv_subscribe P kind from_ip m d k =
    elim (Bool-cases (has_any_addresses m.topic d.p_uuid (storage kind d))) [
      | inl e ↦
          elim (Option-cases (
            answer_all kind from_ip m.topic
              (get_or (find d.p_uuid (get_or (get_addresses m.topic (storage kind d)) [])) []) d)) [
                | inl f ↦ rw e (rw f (keep_none P))
                | inr (events, f) ↦ rw e (rw f (keep P d events k))
              ]
      | inr e ↦ rw e (keep P d [] k)
    ]

-- A predicate of the state that each of these changes keeps is kept by any datagram.
module _ (P : Discovery → Type 0) (p : Text) (d : Discovery) (heard : P d)
    (added : (kind : MsgType) (t addr ctrl n : Text) (sc : Scope)
      → P (set_storage kind (add_address t addr ctrl p n sc (storage kind d)).0 d))
    (deleted : (kind : MsgType) (t n : Text)
      → P (set_storage kind (del_address_by_node t p n (storage kind d)).0 d))
    (left : P (farewelled p d)) where
  Keeps-recv_advertise :
      (kind : MsgType) (from_ip : Text) (m : AdvertiseMsg)
      → Keeps P (recv_advertise kind from_ip p m d)
  unfolding recv_advertise
  Keeps-recv_advertise kind from_ip m =
      Keeps-if P _ _ _ (keep P d [] heard) (keep P _ _ (added kind _ _ _ _ _))

  Keeps-recv_unadvertise :
      (kind : MsgType) (from_ip : Text) (m : AdvertiseMsg)
      → Keeps P (recv_unadvertise kind from_ip p m d)
  unfolding recv_unadvertise
  Keeps-recv_unadvertise kind from_ip m =
      Keeps-if P _ _ _ (keep P d [] heard) (keep P _ _ (deleted kind _ _))

  pub Keeps-dispatch_type :
      (type : ℕ) (from_ip body : Text) → Keeps P (dispatch_type type from_ip p body d)
  unfolding dispatch_type recv_bye
  Keeps-dispatch_type type from_ip body =
      Keeps-if P (type == Header.adv_type) _ _
        (Keeps-with_advertise P body _ (Keeps-recv_advertise msg from_ip))
        (Keeps-if P (type == Header.adv_srv_type) _ _
          (Keeps-with_advertise P body _ (Keeps-recv_advertise srv from_ip))
          (Keeps-if P (type == Header.sub_type) _ _
            (Keeps-with_subscription P body _ (λ m. Keeps-recv_subscribe P msg from_ip m d heard))
            (Keeps-if P (type == Header.sub_srv_type) _ _
              (Keeps-with_subscription P body _ (λ m. Keeps-recv_subscribe P srv from_ip m d heard))
              (Keeps-if P (type == Header.heartbeat_type) _ _ (keep P d [] heard) (
                Keeps-if P (type == Header.bye_type) _ _ (keep P _ _ left) (
                  Keeps-if P (type == Header.unadv_type) _ _
                    (Keeps-with_advertise P body _ (Keeps-recv_unadvertise msg from_ip))
                    (Keeps-if P (type == Header.unadv_srv_type) _ _
                      (Keeps-with_advertise P body _ (Keeps-recv_unadvertise srv from_ip))
                      (keep P d [] heard))))))))

-- The whole of `DispatchDiscoveryMsg`.
pub Keeps-dispatch :
    (P : Discovery → Type 0) (from_ip datagram : Text) (now : ℕ) (d : Discovery)
    → P d
    → ((p : Text) → text_eq p d.p_uuid ≡ false → P (touched p now d))
    → ((p : Text)
        → text_eq p d.p_uuid ≡ false
        → (kind : MsgType) (t addr ctrl n : Text) (sc : Scope)
        → P (
            set_storage kind
              (add_address t addr ctrl p n sc (storage kind (touched p now d))).0
              (touched p now d)))
    → ((p : Text)
        → text_eq p d.p_uuid ≡ false
        → (kind : MsgType) (t n : Text)
        → P (
            set_storage kind
              (del_address_by_node t p n (storage kind (touched p now d))).0
              (touched p now d)))
    → ((p : Text) → text_eq p d.p_uuid ≡ false → P (farewelled p (touched p now d)))
    → Keeps P (dispatch_discovery_msg from_ip datagram now d)
unfolding dispatch_discovery_msg
Keeps-dispatch P from_ip datagram now d same heard added deleted left =
    elim (Option-cases (Header.unpack Header.default (some datagram))) [
      | inl e ↦ rw (e, dispatch_discovery_msg) (keep_none P)
      | inr ((h, n), e) ↦ elim (Bool-cases (text_eq h.p_uuid d.p_uuid)) [
        | inl own ↦ rw (e, dispatch_discovery_msg) (rw own (keep P d [] same))
        | inr other ↦
            rw (e, dispatch_discovery_msg)
              (rw other (
                Keeps-dispatch_type P h.p_uuid (touched h.p_uuid now d) (heard h.p_uuid other)
                  (added h.p_uuid other) (deleted h.p_uuid other) (left h.p_uuid other) h.type
                  from_ip (drop (get_header_length h) datagram)))
      ]
    ]
