-- ===== src/Discovery/Protocol.antt =====
-- Two processes: what a call of src/Discovery.cc in one does to the state of another that receives
-- the datagram, whatever bytes its receive buffer holds behind it.
use ign_transport_git.Base.{
  ℕ, ◌≡◌, refl, false, ◌&&◌, ◌++◌, ◌∙◌, some, [], ◌∷◌, arith, if◌then◌else◌, Text, text_eq,
}
use ign_transport_git.TransportTypes.{Scope, MsgType, msg, srv}
use ign_transport_git.TopicStorage.{add_address}
use ign_transport_git.Packet.Header
use ign_transport_git.Packet.Header.{Header}
use ign_transport_git.Packet.Advertise.Msg
use ign_transport_git.Packet.Advertise.Msg.{AdvertiseMsg}
use ign_transport_git.Packet.Advertise.Msg.RoundTrip as MsgTrip
use ign_transport_git.Discovery.{
  Discovery, sent, called, connection, storage, set_storage, connection_set, is_process,
  out_of_scope,
}
use ign_transport_git.Discovery.Send.{make_advertise}
use ign_transport_git.Discovery.Send.Laws.{send_msg_advertise}
use ign_transport_git.Discovery.Local.{adv_type_of, advertise}
use ign_transport_git.Discovery.Dispatch.{recv_advertise, dispatch_discovery_msg}
use ign_transport_git.Discovery.Dispatch.Wire.{touched, dispatch-advertise}

-- A scope that reaches another process is not the process's own.
pub visible :
    (scope : Scope) (from_ip : Text) (d : Discovery)
    → out_of_scope scope from_ip d ≡ false
    → is_process scope ≡ false
visible scope from_ip d e = ground arith

-- The state of the one that advertises.
pub sent_advertise :
    (kind : MsgType) (topic addr ctrl n_uuid : Text) (scope : Scope) (a : Discovery)
    → MsgTrip.IsPackable (make_advertise a (adv_type_of kind) topic addr ctrl n_uuid scope 0)
    → is_process scope ≡ false
    → advertise kind topic addr ctrl n_uuid scope a
      ≡ some (
        set_storage kind (add_address topic addr ctrl a.p_uuid n_uuid scope (storage kind a)).0 a,
        sent (
              MsgTrip.encode_msg
                (make_advertise a (adv_type_of kind) topic addr ctrl n_uuid scope 0))
            ∷ [],
      )
unfolding advertise
sent_advertise msg topic addr ctrl n_uuid scope a v vis =
    let s = (add_address topic addr ctrl a.p_uuid n_uuid scope (storage msg a)).0 in
    let a' : Discovery = set_storage msg s a in
    rw (vis, send_msg_advertise a' Header.adv_type topic addr ctrl n_uuid scope 0 refl v)
sent_advertise srv topic addr ctrl n_uuid scope a v vis =
    let s = (add_address topic addr ctrl a.p_uuid n_uuid scope (storage srv a)).0 in
    let a' : Discovery = set_storage srv s a in
    rw (vis, send_msg_advertise a' Header.adv_srv_type topic addr ctrl n_uuid scope 0 refl v)

-- The state of the one that hears it.
heard_advertise :
    (kind : MsgType) (from_ip p_uuid : Text) (m : AdvertiseMsg) (d : Discovery)
    → out_of_scope m.scope from_ip d ≡ false
    → recv_advertise kind from_ip p_uuid m d
      ≡ some (
        set_storage kind
            (add_address m.topic m.addr m.ctrl p_uuid m.n_uuid m.scope (storage kind d)).0
            d,
        if (add_address m.topic m.addr m.ctrl p_uuid m.n_uuid m.scope (storage kind d)).1
              && connection_set kind d
            then called (connection kind) m.topic m.addr m.ctrl p_uuid m.n_uuid m.scope ∷ []
            else [],
      )
unfolding recv_advertise
heard_advertise kind from_ip p_uuid m d e = rw e

-- What a process in scope makes of the datagram of an advertisement.
pub dispatch-encode_msg :
    (kind : MsgType) (topic addr ctrl n_uuid : Text) (scope : Scope) (a b : Discovery)
    (from_ip rest : Text) (now : ℕ)
    → MsgTrip.IsPackable (make_advertise a (adv_type_of kind) topic addr ctrl n_uuid scope 0)
    → out_of_scope scope from_ip b ≡ false
    → text_eq a.p_uuid b.p_uuid ≡ false
    → dispatch_discovery_msg from_ip
        (MsgTrip.encode_msg (make_advertise a (adv_type_of kind) topic addr ctrl n_uuid scope 0)
          ++ rest)
        now
        b
      ≡ some (
        set_storage kind
            (add_address topic addr ctrl a.p_uuid n_uuid scope (storage kind b)).0
            (touched a.p_uuid now b),
        if (add_address topic addr ctrl a.p_uuid n_uuid scope (storage kind b)).1
              && connection_set kind b
            then called (connection kind) topic addr ctrl a.p_uuid n_uuid scope ∷ []
            else [],
      )
dispatch-encode_msg kind topic addr ctrl n_uuid scope a b from_ip rest now v vis other =
    let m : AdvertiseMsg = make_advertise a (adv_type_of kind) topic addr ctrl n_uuid scope 0 in
    dispatch-advertise kind m from_ip rest now b v refl other ∙ at_kind kind
  where
    at_kind :
        (k : MsgType)
        → recv_advertise k from_ip a.p_uuid
            (MsgTrip.with_body Msg.default
              (make_advertise a (adv_type_of kind) topic addr ctrl n_uuid scope 0))
            (touched a.p_uuid now b)
          ≡ some (
            set_storage k
                (add_address topic addr ctrl a.p_uuid n_uuid scope (storage k b)).0
                (touched a.p_uuid now b),
            if (add_address topic addr ctrl a.p_uuid n_uuid scope (storage k b)).1
                  && connection_set k b
                then called (connection k) topic addr ctrl a.p_uuid n_uuid scope ∷ []
                else [],
          )
    at_kind msg = heard_advertise msg from_ip a.p_uuid _ (touched a.p_uuid now b) vis
    at_kind srv = heard_advertise srv from_ip a.p_uuid _ (touched a.p_uuid now b) vis

-- An advertisement is understood by every process in scope. Where the publisher's data is complete and small
-- enough, and process `b` is another one that the scope allows, `Advertise` at `a` registers the
-- publisher and sends one datagram. `DispatchDiscoveryMsg` at `b` takes that datagram, whatever
-- follows it in the buffer: it records the activity of `a`, makes the same registration under the
-- UUID of `a`, and calls the connection callback exactly when one is set and the publisher is new.
pub advertise-dispatch :
    (kind : MsgType) (topic addr ctrl n_uuid : Text) (scope : Scope) (a b : Discovery)
    (from_ip rest : Text) (now : ℕ)
    → MsgTrip.IsPackable (make_advertise a (adv_type_of kind) topic addr ctrl n_uuid scope 0)
    → out_of_scope scope from_ip b ≡ false
    → text_eq a.p_uuid b.p_uuid ≡ false
    → (datagram : Text) × (advertise kind topic addr ctrl n_uuid scope a
        ≡ some (
          set_storage kind (add_address topic addr ctrl a.p_uuid n_uuid scope (storage kind a)).0 a,
          sent datagram ∷ [],
        ))
      × (dispatch_discovery_msg from_ip (datagram ++ rest) now b
          ≡ some (
            set_storage kind
                (add_address topic addr ctrl a.p_uuid n_uuid scope (storage kind b)).0
                (touched a.p_uuid now b),
            if (add_address topic addr ctrl a.p_uuid n_uuid scope (storage kind b)).1
                  && connection_set kind b
                then called (connection kind) topic addr ctrl a.p_uuid n_uuid scope ∷ []
                else [],
          ))
advertise-dispatch kind topic addr ctrl n_uuid scope a b from_ip rest now v vis other = (
  MsgTrip.encode_msg (make_advertise a (adv_type_of kind) topic addr ctrl n_uuid scope 0),
  sent_advertise kind topic addr ctrl n_uuid scope a v (visible scope from_ip b vis),
  dispatch-encode_msg kind topic addr ctrl n_uuid scope a b from_ip rest now v vis other,
)
