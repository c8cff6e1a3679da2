-- ===== src/Discovery/Withdrawal.antt =====
-- Two processes: what `Unadvertise` and the destructor of src/Discovery.cc do to the state of
-- another process that receives their datagram.
use ign_transport_git.Base.{
  ℕ, ◌≡◌, refl, true, false, ◌++◌, ◌∙◌, none, some, [], ◌∷◌, arith, if◌then◌else◌, Text, text_eq,
}
use ign_transport_git.Base.Map.{find, erase, insert, find-insert, find-erase, IsSorted}
use ign_transport_git.TransportTypes.{Scope, all, MsgType, msg, srv, Address}
use ign_transport_git.TopicStorage.{get_address, del_address_by_node, del_addresses_by_proc}
use ign_transport_git.TopicStorage.Spec.{publishers, publishers-del_addresses_by_proc}
use ign_transport_git.Packet.Header
use ign_transport_git.Packet.Header.{Header}
use ign_transport_git.Packet.Header.RoundTrip as HeaderTrip
use ign_transport_git.Packet.Advertise.Msg
use ign_transport_git.Packet.Advertise.Msg.{AdvertiseMsg}
use ign_transport_git.Packet.Advertise.Msg.RoundTrip as MsgTrip
use ign_transport_git.Discovery.{
  Discovery, sent, called, disconnection, storage, set_storage, disconnection_set, is_process,
  out_of_scope,
}
use ign_transport_git.Discovery.Send.{make_advertise, make_header, send_msg}
use ign_transport_git.Discovery.Send.Laws.{send_msg_advertise, send_msg_header}
use ign_transport_git.Discovery.Local.{unadv_type_of, withdraw, unadvertise}
use ign_transport_git.Discovery.Dispatch.{
  recv_unadvertise, recv_bye, call_gone, dispatch_discovery_msg,
}
use ign_transport_git.Discovery.Dispatch.Wire.{touched, dispatch-unadvertise, dispatch-bye}

-- A scope that reaches another process is not the process's own.
visible :
    (scope : Scope) (from_ip : Text) (d : Discovery)
    → out_of_scope scope from_ip d ≡ false
    → is_process scope ≡ false
visible scope from_ip d e = ground arith

-- The state of the one that withdraws.
sent_unadvertise :
    (kind : MsgType) (topic n_uuid : Text) (inf : Address) (a : Discovery)
    → MsgTrip.IsPackable
        (make_advertise a (unadv_type_of kind) topic inf.addr inf.ctrl n_uuid inf.scope 0)
    → is_process inf.scope ≡ false
    → withdraw kind topic n_uuid inf a
      ≡ some (
        set_storage kind (del_address_by_node topic a.p_uuid n_uuid (storage kind a)).0 a,
        sent (
              MsgTrip.encode_msg
                (make_advertise a (unadv_type_of kind) topic inf.addr inf.ctrl n_uuid inf.scope 0))
            ∷ [],
      )
unfolding withdraw
sent_unadvertise msg topic n_uuid inf a v vis =
    let s = (del_address_by_node topic a.p_uuid n_uuid (storage msg a)).0 in
    let a' : Discovery = set_storage msg s a in
    rw (
      vis,
      send_msg_advertise a' Header.unadv_type topic inf.addr inf.ctrl n_uuid inf.scope 0 refl v,
    )
sent_unadvertise srv topic n_uuid inf a v vis =
    let s = (del_address_by_node topic a.p_uuid n_uuid (storage srv a)).0 in
    let a' : Discovery = set_storage srv s a in
    rw (
      vis,
      send_msg_advertise a' Header.unadv_srv_type topic inf.addr inf.ctrl n_uuid inf.scope 0 refl v,
    )

-- The state of the one that hears it.
heard_unadvertise :
    (kind : MsgType) (from_ip p_uuid : Text) (m : AdvertiseMsg) (d : Discovery)
    → out_of_scope m.scope from_ip d ≡ false
    → recv_unadvertise kind from_ip p_uuid m d
      ≡ some (
        set_storage kind (del_address_by_node m.topic p_uuid m.n_uuid (storage kind d)).0 d,
        if disconnection_set kind d
            then called (disconnection kind) m.topic m.addr m.ctrl p_uuid m.n_uuid m.scope ∷ []
            else [],
      )
unfolding recv_unadvertise
heard_unadvertise kind from_ip p_uuid m d e = rw e

-- A withdrawal is understood by every process in scope. Where the storage of `a` has a publisher `inf` of the
-- node on the topic, its data is complete and small enough, and process `b` is another one that its
-- scope allows, `Unadvertise` at `a` deletes the node's publishers and sends one datagram, and
-- `DispatchDiscoveryMsg` at `b` takes it, whatever follows it in the buffer: the same deletion under
-- the UUID of `a`, with the disconnection callback called when one is set.
pub unadvertise-dispatch :
    (kind : MsgType) (topic n_uuid : Text) (inf : Address) (a b : Discovery) (from_ip rest : Text)
    (now : ℕ)
    → get_address topic a.p_uuid n_uuid (storage kind a) ≡ some inf
    → MsgTrip.IsPackable
        (make_advertise a (unadv_type_of kind) topic inf.addr inf.ctrl n_uuid inf.scope 0)
    → out_of_scope inf.scope from_ip b ≡ false
    → text_eq a.p_uuid b.p_uuid ≡ false
    → (datagram : Text) × (unadvertise kind topic n_uuid a
        ≡ some (
          set_storage kind (del_address_by_node topic a.p_uuid n_uuid (storage kind a)).0 a,
          sent datagram ∷ [],
        ))
      × (dispatch_discovery_msg from_ip (datagram ++ rest) now b
          ≡ some (
            set_storage kind
                (del_address_by_node topic a.p_uuid n_uuid (storage kind b)).0
                (touched a.p_uuid now b),
            if disconnection_set kind b
                then called (disconnection kind) topic inf.addr inf.ctrl a.p_uuid n_uuid inf.scope
                  ∷ []
                else [],
          ))
unfolding unadvertise
unadvertise-dispatch kind topic n_uuid inf a b from_ip rest now found v vis other =
    let m : AdvertiseMsg =
      make_advertise a (unadv_type_of kind) topic inf.addr inf.ctrl n_uuid inf.scope 0 in
    (
      MsgTrip.encode_msg m,
      rw (found, unadvertise)
          (sent_unadvertise kind topic n_uuid inf a v (visible inf.scope from_ip b vis)),
      dispatch-unadvertise kind m from_ip rest now b v refl other ∙ at_kind kind,
    )
  where
    at_kind :
        (k : MsgType)
        → recv_unadvertise k from_ip a.p_uuid
            (MsgTrip.with_body Msg.default
              (make_advertise a (unadv_type_of kind) topic inf.addr inf.ctrl n_uuid inf.scope 0))
            (touched a.p_uuid now b)
          ≡ some (
            set_storage k
                (del_address_by_node topic a.p_uuid n_uuid (storage k b)).0
                (touched a.p_uuid now b),
            if disconnection_set k b
                then called (disconnection k) topic inf.addr inf.ctrl a.p_uuid n_uuid inf.scope ∷ []
                else [],
          )
    at_kind msg = heard_unadvertise msg from_ip a.p_uuid _ (touched a.p_uuid now b) vis
    at_kind srv = heard_unadvertise srv from_ip a.p_uuid _ (touched a.p_uuid now b) vis

-- What is forgotten, in a storage and in the activity.
abbrev pub Forgotten : Text → Discovery → Discovery → Type 0
Forgotten p d d' =
    ((kind : MsgType) (t p' : Text)
      → publishers t p' (storage kind d')
        ≡ (if text_eq p p' then [] else publishers t p' (storage kind d)))
    × ((p' : Text) → find p' d'.activity ≡ (if text_eq p p' then none else find p' d.activity))

-- What the message of the destructor at `a` does to another process: no publisher of `a` and no
-- activity of `a` is left, those of all others are kept, and each disconnection callback that is set
-- is called once, for `a`.
pub bye_heard :
    (a b : Discovery) (from_ip rest : Text) (now : ℕ)
    → HeaderTrip.IsValid (make_header a Header.bye_type 0)
    → text_eq a.p_uuid b.p_uuid ≡ false
    → IsSorted b.info_msg
    → IsSorted b.info_srv
    → (b' : Discovery) × (dispatch_discovery_msg from_ip
          (HeaderTrip.encode (make_header a Header.bye_type 0) ++ rest)
          now
          b
        ≡ some (b', call_gone msg a.p_uuid b ++ call_gone srv a.p_uuid b))
      × Forgotten a.p_uuid b b'
unfolding recv_bye
bye_heard a b from_ip rest now v other hm hs = (
  _,
  dispatch-bye (make_header a Header.bye_type 0) from_ip rest now b v refl other,
  (
    gone,
    λ p'.
        rw (find-erase p' a.p_uuid (insert a.p_uuid now b.activity))
          (rw (find-insert p' a.p_uuid now b.activity) (ground arith)),
  ),
)
  where
    gone :
        (kind : MsgType) (t p' : Text)
        → publishers t p' (
            storage kind (record b {
              activity = erase a.p_uuid (insert a.p_uuid now b.activity);
              info_msg = (del_addresses_by_proc a.p_uuid b.info_msg).0;
              info_srv = (del_addresses_by_proc a.p_uuid b.info_srv).0;
            }))
          ≡ (if text_eq a.p_uuid p' then [] else publishers t p' (storage kind b))
    gone msg t p' = publishers-del_addresses_by_proc a.p_uuid t p' b.info_msg hm
    gone srv t p' = publishers-del_addresses_by_proc a.p_uuid t p' b.info_srv hs

-- A goodbye clears the receiver of the sender. Where the storages of `b` are in order and `b` is another process than `a`,
-- whose UUID is not empty and fits an `int`, the message of the destructor at `a` is one datagram,
-- after which `b` has no publisher of `a` on any topic or service and no activity of `a`, keeps
-- those of all others, and has called each disconnection callback that is set once, for `a`.
pub bye-dispatch :
    (a b : Discovery) (from_ip rest : Text) (now : ℕ)
    → HeaderTrip.IsValid (make_header a Header.bye_type 0)
    → Header.is_incomplete (make_header a Header.bye_type 0) ≡ false
    → text_eq a.p_uuid b.p_uuid ≡ false
    → IsSorted b.info_msg
    → IsSorted b.info_srv
    → (datagram : Text) × (b' : Discovery) × (send_msg a Header.bye_type [] [] [] [] all 0
        ≡ some (sent datagram ∷ []))
      × (dispatch_discovery_msg from_ip (datagram ++ rest) now b
          ≡ some (b', call_gone msg a.p_uuid b ++ call_gone srv a.p_uuid b))
      × Forgotten a.p_uuid b b'
bye-dispatch a b from_ip rest now v c other hm hs =
    let p = bye_heard a b from_ip rest now v other hm hs in
    (
      HeaderTrip.encode (make_header a Header.bye_type 0),
      p.0,
      send_msg_header a Header.bye_type [] [] [] [] all 0 refl refl refl v c,
      p.1,
      p.2,
    )

-- A process ignores what it sent itself: where the UUID of the header is its own, the state is
-- unchanged and nothing is sent or called, whatever the type and the body are.
pub own_message_ignored :
    (h : Header) (from_ip body : Text) (now : ℕ) (d : Discovery)
    → HeaderTrip.IsValid h
    → text_eq h.p_uuid d.p_uuid ≡ true
    → dispatch_discovery_msg from_ip (HeaderTrip.encode h ++ body) now d ≡ some (d, [])
unfolding dispatch_discovery_msg
own_message_ignored h from_ip body now d v own =
    rw (HeaderTrip.unpack-encode h Header.default body v, dispatch_discovery_msg) (rw own)
