-- ===== src/Discovery/Send/Laws.antt =====
-- What `Discovery::SendMsg` puts on the wire.
use ign_transport_git.Base.{
  ℕ, ◌+◌, ◌≤◌, ◌<◌, ◌^◌, ◌≡◌, true, false, ◌++◌, some, [], ◌∷◌, arith, length, drop, drop_all,
  replicate, length-replicate, length-append, Text,
}
use ign_transport_git.TransportTypes.{Scope}
use ign_transport_git.Packet.Bytes.{through_int_small, take_bytes-append}
use ign_transport_git.Packet.Header
use ign_transport_git.Packet.Header.{Header}
use ign_transport_git.Packet.Header.RoundTrip as HeaderTrip
use ign_transport_git.Packet.Subscription
use ign_transport_git.Packet.Subscription.RoundTrip as SubTrip
use ign_transport_git.Packet.Advertise.Msg.RoundTrip as MsgTrip
use ign_transport_git.Discovery.{Discovery, sent}
use ign_transport_git.Discovery.Send.{
  transmit, make_header, make_advertise, make_subscription, is_advertise_type, is_subscribe_type,
  is_header_type, send_msg,
}

-- The buffer that is allocated has room for what it is allocated for.
fresh_room : (n : ℕ) → length (replicate {A = ℕ} n 0) ≡ n
fresh_room n = length-replicate n 0

-- A buffer that the packed bytes fill goes out as it is.
transmit_full :
    (out : Text) (n : ℕ)
    → length out < 2 ^ 31
    → transmit (length out) (some (n, some (out ++ drop (length out) (replicate (length out) 0))))
      ≡ some (sent out ∷ [])
unfolding transmit
transmit_full out n small =
    let full : drop (length out) (replicate {A = ℕ} (length out) 0) ≡ [] =
      drop_all (length out) _ (omega (arith, fresh_room (length out))) in
    rw full (rw (through_int_small (length out) small, take_bytes-append out [], transmit))

-- A complete advertise message goes out as its encoding.
pub send_msg_advertise :
    (d : Discovery) (type : ℕ) (topic addr ctrl n_uuid : Text) (scope : Scope) (flags : ℕ)
    → is_advertise_type type ≡ true
    → MsgTrip.IsPackable (make_advertise d type topic addr ctrl n_uuid scope flags)
    → send_msg d type topic addr ctrl n_uuid scope flags
      ≡ some (
          sent (MsgTrip.encode_msg (make_advertise d type topic addr ctrl n_uuid scope flags)) ∷ [])
unfolding send_msg
send_msg_advertise d type topic addr ctrl n_uuid scope flags t v =
    let m = make_advertise d type topic addr ctrl n_uuid scope flags in
    let out = MsgTrip.encode_msg m in
    let room : length out ≤ length (replicate {A = ℕ} (length out) 0) =
      omega (arith, fresh_room (length out)) in
    rw (t, MsgTrip.get_msg_length_lem m v, MsgTrip.pack_lem m (replicate (length out) 0) v room)
      (transmit_full out (length out) v.total)

-- A subscription to a topic goes out as its encoding.
pub send_msg_subscription :
    (d : Discovery) (type : ℕ) (topic addr ctrl n_uuid : Text) (scope : Scope) (flags : ℕ)
    → is_advertise_type type ≡ false
    → is_subscribe_type type ≡ true
    → SubTrip.IsPackable (make_subscription d type topic flags)
    → let m = make_subscription d type topic flags in
      send_msg d type topic addr ctrl n_uuid scope flags
      ≡ some (sent (HeaderTrip.encode m.header ++ SubTrip.encode_body m) ∷ [])
unfolding send_msg
send_msg_subscription d type topic addr ctrl n_uuid scope flags nt t v =
    let m = make_subscription d type topic flags in
    let out = HeaderTrip.encode m.header ++ SubTrip.encode_body m in
    let size : Subscription.get_msg_length m ≡ length out = omega (
      arith,
      SubTrip.get_msg_length_lem m v,
      length-append (HeaderTrip.encode m.header) (SubTrip.encode_body m),
      HeaderTrip.length-encode m.header,
      SubTrip.length-encode_body m,
    ) in
    let room : length (HeaderTrip.encode m.header) + length (SubTrip.encode_body m)
        ≤ length (replicate {A = ℕ} (length out) 0) =
      omega (
        arith,
        fresh_room (length out),
        length-append (HeaderTrip.encode m.header) (SubTrip.encode_body m),
      ) in
    rw (nt, t, size, SubTrip.pack_lem m (replicate (length out) 0) v room)
      (transmit_full out _ (omega (arith, v.total, size, SubTrip.get_msg_length_lem m v)))

-- A heartbeat and a goodbye go out as the encoding of their header.
pub send_msg_header :
    (d : Discovery) (type : ℕ) (topic addr ctrl n_uuid : Text) (scope : Scope) (flags : ℕ)
    → is_advertise_type type ≡ false
    → is_subscribe_type type ≡ false
    → is_header_type type ≡ true
    → HeaderTrip.IsValid (make_header d type flags)
    → Header.is_incomplete (make_header d type flags) ≡ false
    → send_msg d type topic addr ctrl n_uuid scope flags
      ≡ some (sent (HeaderTrip.encode (make_header d type flags)) ∷ [])
unfolding send_msg
send_msg_header d type topic addr ctrl n_uuid scope flags na ns t v c =
    let h = make_header d type flags in
    let out = HeaderTrip.encode h in
    let size : Header.get_header_length h ≡ length out =
      omega (arith, HeaderTrip.get_header_length_lem h v, HeaderTrip.length-encode h) in
    let room : length out ≤ length (replicate {A = ℕ} (length out) 0) =
      omega (arith, fresh_room (length out)) in
    rw (na, ns, t, size, HeaderTrip.pack_lem h (replicate (length out) 0) v c room)
      (transmit_full out _ (omega (arith, v.length-lt, HeaderTrip.length-encode h)))
