-- ===== src/Discovery/Ownership.antt =====
-- Who may change what: `DispatchDiscoveryMsg` of src/Discovery.cc and the publishers of the
-- receiving process.
use ign_transport_git.Base.{ℕ, ◌≡◌, refl, false, some, List, arith, Text, text_eq}
use ign_transport_git.TransportTypes.{Scope, MsgType, msg, srv}
use ign_transport_git.TopicStorage.{TopicStorage, add_address, del_address_by_node}
use ign_transport_git.TopicStorage.Spec.{
  publishers, publishers-add_address, publishers-del_address_by_node,
  publishers-del_addresses_by_proc,
}
use ign_transport_git.Discovery.{Discovery, Event, storage, set_storage}
use ign_transport_git.Discovery.Dispatch.{dispatch_discovery_msg}
use ign_transport_git.Discovery.Dispatch.Rule.{Keeps-some, Keeps-dispatch, farewelled}
use ign_transport_git.Discovery.Dispatch.Wire.{touched}
use ign_transport_git.Discovery.Reachable.{IsValid}

-- The publishers of `p` in both storages are those that `d` has.
abbrev SamePublishers : Text → Discovery → Discovery → Type 0
SamePublishers p d d' =
    (kind : MsgType) (t : Text) → publishers t p (storage kind d') ≡ publishers t p (storage kind d)

added_by_another :
    (t addr ctrl p n own t' : Text) (sc : Scope) (s : TopicStorage)
    → text_eq p own ≡ false
    → publishers t' own (add_address t addr ctrl p n sc s).0 ≡ publishers t' own s
added_by_another t addr ctrl p n own t' sc s other =
    rw ((publishers-add_address t addr ctrl p n sc t' own s).1, other) (ground arith)

deleted_by_another :
    (t p n own t' : Text) (s : TopicStorage)
    → text_eq p own ≡ false
    → publishers t' own (del_address_by_node t p n s).0 ≡ publishers t' own s
deleted_by_another t p n own t' s other =
    rw ((publishers-del_address_by_node t p n t' own s).0, other) (ground arith)

-- Another process is heard of, and a storage is replaced by one with the same publishers of `own`.
replaced :
    (own p : Text) (now : ℕ) (kind : MsgType) (s : TopicStorage) (d : Discovery)
    → ((t : Text) → publishers t own s ≡ publishers t own (storage kind d))
    → SamePublishers own d (set_storage kind s (touched p now d))
replaced own p now msg s d e msg t = e t
replaced own p now msg s d e srv t = refl
replaced own p now srv s d e msg t = refl
replaced own p now srv s d e srv t = e t

-- No datagram changes what a process offers. Where the state is valid, whatever bytes come from
-- whatever address, the publishers of the process itself on every topic and service are after
-- `DispatchDiscoveryMsg` what they were before it.
pub dispatch_keeps_own :
    (from_ip datagram : Text) (now : ℕ) (d d' : Discovery) (events : List Event)
    → IsValid d
    → dispatch_discovery_msg from_ip datagram now d ≡ some (d', events)
    → (kind : MsgType) (t : Text)
    → publishers t d.p_uuid (storage kind d') ≡ publishers t d.p_uuid (storage kind d)
dispatch_keeps_own from_ip datagram now d d' events v e =
    Keeps-some (SamePublishers d.p_uuid d) _ d' events
      (Keeps-dispatch (SamePublishers d.p_uuid d) from_ip datagram now d (λ kind t. refl) by_kind
        (λ p other kind t addr ctrl n sc. added p other kind t addr ctrl n sc)
        (λ p other kind t n. deleted p other kind t n) left)
      e
  where
    by_kind : (p : Text) → text_eq p d.p_uuid ≡ false → SamePublishers d.p_uuid d (touched p now d)
    by_kind p other msg t = refl
    by_kind p other srv t = refl

    added :
        (p : Text)
        → text_eq p d.p_uuid ≡ false
        → (kind : MsgType) (t addr ctrl n : Text) (sc : Scope)
        → SamePublishers d.p_uuid d (
            set_storage kind
              (add_address t addr ctrl p n sc (storage kind (touched p now d))).0
              (touched p now d))
    added p other msg t addr ctrl n sc =
        replaced d.p_uuid p now msg _ d
          (λ t'. added_by_another t addr ctrl p n d.p_uuid t' sc d.info_msg other)
    added p other srv t addr ctrl n sc =
        replaced d.p_uuid p now srv _ d
          (λ t'. added_by_another t addr ctrl p n d.p_uuid t' sc d.info_srv other)

    deleted :
        (p : Text)
        → text_eq p d.p_uuid ≡ false
        → (kind : MsgType) (t n : Text)
        → SamePublishers d.p_uuid d (
            set_storage kind
              (del_address_by_node t p n (storage kind (touched p now d))).0
              (touched p now d))
    deleted p other msg t n =
        replaced d.p_uuid p now msg _ d
          (λ t'. deleted_by_another t p n d.p_uuid t' d.info_msg other)
    deleted p other srv t n =
        replaced d.p_uuid p now srv _ d
          (λ t'. deleted_by_another t p n d.p_uuid t' d.info_srv other)

    left :
        (p : Text)
        → text_eq p d.p_uuid ≡ false
        → SamePublishers d.p_uuid d (farewelled p (touched p now d))
    left p other msg t =
        rw (publishers-del_addresses_by_proc p t d.p_uuid d.info_msg v.msg_storage.0, other) refl
    left p other srv t =
        rw (publishers-del_addresses_by_proc p t d.p_uuid d.info_srv v.srv_storage.0, other) refl
