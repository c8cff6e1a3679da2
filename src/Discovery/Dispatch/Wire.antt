-- ===== src/Discovery/Dispatch/Wire.antt =====
-- What `DispatchDiscoveryMsg` does about the encoding of a message of another process, whatever
-- bytes follow it in the receive buffer.
use ign_transport_git.Base.{
  ℕ, ◌≡◌, sym, ◌∙◌, ap, false, ◌++◌, [], some, drop-append, length, Text, text_eq,
}
use mathlib.Core.List.{append_assoc}
use ign_transport_git.Base.Map.{insert}
use ign_transport_git.TransportTypes.{MsgType, msg, srv}
use ign_transport_git.Packet.Header
use ign_transport_git.Packet.Header.{Header, get_header_length}
use ign_transport_git.Packet.Header.RoundTrip.{
  encode, IsValid, get_header_length_lem, length-encode, unpack-encode,
}
use ign_transport_git.Packet.Advertise.Base.Laws.{encode_body}
use ign_transport_git.Packet.Advertise.Msg
use ign_transport_git.Packet.Advertise.Msg.{AdvertiseMsg}
use ign_transport_git.Packet.Advertise.Msg.RoundTrip as MsgTrip
use ign_transport_git.Packet.Advertise.Msg.RoundTrip.{encode_names, encode_msg}
use ign_transport_git.Discovery.{Discovery}
use ign_transport_git.Discovery.Local.{Step, adv_type_of, unadv_type_of}
use ign_transport_git.Discovery.Dispatch.{
  recv_advertise, recv_bye, recv_unadvertise, with_advertise, dispatch_type, dispatch_discovery_msg,
}

-- The state once a process was heard of.
abbrev pub touched : Text → ℕ → Discovery → Discovery
touched p_uuid now d = record d { activity = insert p_uuid now d.activity }

-- The header is read, and the type decides.
pub dispatch-encode :
    (h : Header) (from_ip body : Text) (now : ℕ) (d : Discovery)
    → IsValid h
    → text_eq h.p_uuid d.p_uuid ≡ false
    → dispatch_discovery_msg from_ip (encode h ++ body) now d
      ≡ dispatch_type h.type from_ip h.p_uuid body (touched h.p_uuid now d)
unfolding dispatch_discovery_msg
dispatch-encode h from_ip body now d v other =
    let size : get_header_length h ≡ length (encode h) =
      get_header_length_lem h v ∙ sym (length-encode h) in
    rw (unpack-encode h Header.default body v, dispatch_discovery_msg)
      (rw (other, size, drop-append (encode h) body))

with_advertise-encode :
    (m : AdvertiseMsg) (rest : Text) (go : AdvertiseMsg → Step)
    → MsgTrip.IsPackable m
    → with_advertise (encode_body m.base ++ (encode_names m ++ rest)) go
      ≡ go (MsgTrip.with_body Msg.default m)
unfolding with_advertise
with_advertise-encode m rest go v =
    rw (MsgTrip.unpack_body-encode_body Msg.default m rest v, with_advertise)

split :
    (m : AdvertiseMsg) (rest : Text)
    → encode_msg m ++ rest ≡ encode m.header ++ (encode_body m.base ++ (encode_names m ++ rest))
unfolding encode_msg
split m rest = simp append_assoc

-- An advertisement of a topic or a service.
pub dispatch-advertise :
    (kind : MsgType) (m : AdvertiseMsg) (from_ip rest : Text) (now : ℕ) (d : Discovery)
    → MsgTrip.IsPackable m
    → m.header.type ≡ adv_type_of kind
    → text_eq m.header.p_uuid d.p_uuid ≡ false
    → dispatch_discovery_msg from_ip (encode_msg m ++ rest) now d
      ≡ recv_advertise kind from_ip m.header.p_uuid
          (MsgTrip.with_body Msg.default m)
          (touched m.header.p_uuid now d)
unfolding dispatch_type
dispatch-advertise kind m from_ip rest now d v t other =
    let body : Text = encode_body m.base ++ (encode_names m ++ rest) in
    let seen : Discovery = touched m.header.p_uuid now d in
    ap (λ b. dispatch_discovery_msg from_ip b now d) (split m rest)
    ∙ dispatch-encode m.header from_ip body now d v.base-IsPackable.header-IsValid other
    ∙ ap (λ k. dispatch_type k from_ip m.header.p_uuid body seen) t
    ∙ by_kind kind
  where
    by_kind :
        (k : MsgType)
        → dispatch_type
            (adv_type_of k)
            from_ip
            m.header.p_uuid
            (encode_body m.base ++ (encode_names m ++ rest))
            (touched m.header.p_uuid now d)
          ≡ recv_advertise k from_ip m.header.p_uuid
              (MsgTrip.with_body Msg.default m)
              (touched m.header.p_uuid now d)
    by_kind msg = with_advertise-encode m rest _ v
    by_kind srv = with_advertise-encode m rest _ v

-- The withdrawal of a topic or a service.
pub dispatch-unadvertise :
    (kind : MsgType) (m : AdvertiseMsg) (from_ip rest : Text) (now : ℕ) (d : Discovery)
    → MsgTrip.IsPackable m
    → m.header.type ≡ unadv_type_of kind
    → text_eq m.header.p_uuid d.p_uuid ≡ false
    → dispatch_discovery_msg from_ip (encode_msg m ++ rest) now d
      ≡ recv_unadvertise kind from_ip m.header.p_uuid
          (MsgTrip.with_body Msg.default m)
          (touched m.header.p_uuid now d)
unfolding dispatch_type
dispatch-unadvertise kind m from_ip rest now d v t other =
    let body : Text = encode_body m.base ++ (encode_names m ++ rest) in
    let seen : Discovery = touched m.header.p_uuid now d in
    ap (λ b. dispatch_discovery_msg from_ip b now d) (split m rest)
    ∙ dispatch-encode m.header from_ip body now d v.base-IsPackable.header-IsValid other
    ∙ ap (λ k. dispatch_type k from_ip m.header.p_uuid body seen) t
    ∙ by_kind kind
  where
    by_kind :
        (k : MsgType)
        → dispatch_type
            (unadv_type_of k)
            from_ip
            m.header.p_uuid
            (encode_body m.base ++ (encode_names m ++ rest))
            (touched m.header.p_uuid now d)
          ≡ recv_unadvertise k from_ip m.header.p_uuid
              (MsgTrip.with_body Msg.default m)
              (touched m.header.p_uuid now d)
    by_kind msg = with_advertise-encode m rest _ v
    by_kind srv = with_advertise-encode m rest _ v

-- A goodbye.
pub dispatch-bye :
    (h : Header) (from_ip rest : Text) (now : ℕ) (d : Discovery)
    → IsValid h
    → h.type ≡ Header.bye_type
    → text_eq h.p_uuid d.p_uuid ≡ false
    → dispatch_discovery_msg from_ip (encode h ++ rest) now d
      ≡ recv_bye h.p_uuid (touched h.p_uuid now d)
unfolding dispatch_type
dispatch-bye h from_ip rest now d v t other =
    dispatch-encode h from_ip rest now d v other
    ∙ ap (λ k. dispatch_type k from_ip h.p_uuid rest (touched h.p_uuid now d)) t

-- A heartbeat.
pub dispatch-heartbeat :
    (h : Header) (from_ip rest : Text) (now : ℕ) (d : Discovery)
    → IsValid h
    → h.type ≡ Header.heartbeat_type
    → text_eq h.p_uuid d.p_uuid ≡ false
    → dispatch_discovery_msg from_ip (encode h ++ rest) now d ≡ some (touched h.p_uuid now d, [])
unfolding dispatch_type
dispatch-heartbeat h from_ip rest now d v t other =
    dispatch-encode h from_ip rest now d v other
    ∙ ap (λ k. dispatch_type k from_ip h.p_uuid rest (touched h.p_uuid now d)) t
