-- ===== src/Discovery/Send/Safety.antt =====
-- `Discovery::SendMsg` and the bounds of its buffer.
use ign_transport_git.Base.{
  ℕ, zero, suc, ◌+◌, ◌≤◌, ◌<◌, ◌^◌, ◌≡◌, ◌||◌, refl, Option, some, [], ◌∷◌, arith, length,
  replicate, length-replicate, Bool-cases, inl, inr, if◌then◌else◌, Text,
}
use ign_transport_git.TransportTypes.{Scope}
use ign_transport_git.Packet.Bytes.{through_int, through_int_small, take_bytes}
use ign_transport_git.Packet.Header
use ign_transport_git.Packet.Header.{Header, Buffer, get_header_length, is_incomplete, store_from}
use ign_transport_git.Packet.Subscription
use ign_transport_git.Packet.Subscription.{SubscriptionMsg}
use ign_transport_git.Packet.Advertise.Base
use ign_transport_git.Packet.Advertise.Base.{AdvertiseBase}
use ign_transport_git.Packet.Advertise.Msg
use ign_transport_git.Packet.Advertise.Msg.{AdvertiseMsg}
use ign_transport_git.Discovery.{Discovery, sent}
use ign_transport_git.Discovery.Send.{
  transmit, fresh_buffer, make_header, make_advertise, make_subscription, is_advertise_type,
  is_subscribe_type, is_header_type, send_msg,
}
use ign_transport_git.Packet.Stays.{
  Stays, advertise_size, header-Stays, subscription-Stays, advertise-Stays,
}

take_bytes-some :
    (n : ℕ) (mem : Text)
    → n ≤ length mem
    → (taken : Text) × (rest : Text) × (take_bytes n mem ≡ some (taken, rest))
unfolding take_bytes
take_bytes-some zero mem h = ([], mem, refl)
take_bytes-some (suc n) [] h = absurd (omega arith)
take_bytes-some (suc n) (m ∷ mem) h =
    let (taken, rest, e) = take_bytes-some n mem (omega arith) in (m ∷ taken, rest, rw e)

transmit_returns :
    (n len bound : ℕ) (r : Option (ℕ × Buffer))
    → Stays len bound r
    → n ≤ len
    → n < 2 ^ 31
    → (datagram : Text) × (transmit n r ≡ some (sent datagram ∷ []))
unfolding transmit
transmit_returns n len bound r s room fits =
    let (taken, rest, e) =
      take_bytes-some (through_int n) s.memory (omega (arith, s.kept, through_int_small n fits)) in
    (taken, rw (s.result, transmit) (rw e))

get_msg_length-size :
    (m : AdvertiseMsg) → advertise_size m < 2 ^ 31 → Msg.get_msg_length m ≡ advertise_size m
unfolding Msg.get_msg_length Base.get_msg_length get_header_length
get_msg_length-size m fits =
    omega (arith, through_int_small (2 + 8 + length m.header.p_uuid + 1 + 2) (omega arith))

advertise_sent :
    (m : AdvertiseMsg)
    → advertise_size m < 2 ^ 31
    → (datagram : Text) × (transmit
          (Msg.get_msg_length m)
          (Msg.pack m (fresh_buffer (Msg.get_msg_length m)))
        ≡ some (sent datagram ∷ []))
advertise_sent m fits =
    let n = Msg.get_msg_length m in
    let size = get_msg_length-size m fits in
    let mem : Text = replicate n 0 in
    let whole : length mem ≡ n = length-replicate n 0 in
    transmit_returns n (length mem) (advertise_size m) _
      (advertise-Stays m mem (omega (arith, whole, size)) fits) (omega (arith, whole))
      (omega (arith, size))

subscription_sent :
    (m : SubscriptionMsg)
    → length m.header.p_uuid + 21 + length m.topic < 2 ^ 31
    → (datagram : Text) × (transmit
          (Subscription.get_msg_length m)
          (Subscription.pack m (fresh_buffer (Subscription.get_msg_length m)))
        ≡ some (sent datagram ∷ []))
unfolding Subscription.get_msg_length get_header_length
subscription_sent m fits =
    let n = Subscription.get_msg_length m in
    let size : n ≡ length m.header.p_uuid + 21 + length m.topic =
      omega (arith, through_int_small (2 + 8 + length m.header.p_uuid + 1 + 2) (omega arith)) in
    let mem : Text = replicate n 0 in
    let whole : length mem ≡ n = length-replicate n 0 in
    transmit_returns n (length mem) _ _ (subscription-Stays m mem (omega (arith, whole, size)) fits)
      (omega (arith, whole)) (omega (arith, size))

header_sent :
    (h : Header)
    → length h.p_uuid + 13 < 2 ^ 31
    → (datagram : Text) × (transmit
          (get_header_length h)
          (Header.pack h (fresh_buffer (get_header_length h)))
        ≡ some (sent datagram ∷ []))
unfolding get_header_length
header_sent h fits =
    let n = get_header_length h in
    let size : n ≡ length h.p_uuid + 13 =
      omega (arith, through_int_small (2 + 8 + length h.p_uuid + 1 + 2) (omega arith)) in
    let mem : Text = replicate n 0 in
    let whole : length mem ≡ n = length-replicate n 0 in
    transmit_returns n (length mem) _ _ (header-Stays h mem (omega (arith, whole, size)) fits)
      (omega (arith, whole)) (omega (arith, size))

-- `SendMsg` stays inside the buffer that it allocates, complete message or not: where the texts
-- together are shorter than 2 ^ 31 bytes less the fixed fields, the call returns for every type, and
-- it has sent one datagram if the type is one of the eight that it knows, and none otherwise.
pub send_msg_returns :
    (d : Discovery) (type : ℕ) (topic addr ctrl n_uuid : Text) (scope : Scope) (flags : ℕ)
    → length d.p_uuid + 62 + length topic + length addr + length ctrl + length n_uuid < 2 ^ 31
    → (datagram : Text) × (send_msg d type topic addr ctrl n_uuid scope flags
        ≡ some (
            if is_advertise_type type || is_subscribe_type type || is_header_type type
            then sent datagram ∷ []
            else []))
unfolding send_msg
send_msg_returns d type topic addr ctrl n_uuid scope flags fits =
    elim (Bool-cases (is_advertise_type type)) [
      | inl a ↦
          let (out, e) =
            advertise_sent (make_advertise d type topic addr ctrl n_uuid scope flags)
              (omega arith) in
          (out, rw a e)
      | inr a ↦ elim (Bool-cases (is_subscribe_type type)) [
        | inl s ↦
            let (out, e) = subscription_sent (make_subscription d type topic flags) (omega arith) in
            (out, rw a (rw s e))
        | inr s ↦ elim (Bool-cases (is_header_type type)) [
          | inl h ↦
              let (out, e) = header_sent (make_header d type flags) (omega arith) in
              (out, rw a (rw s (rw h e)))
          | inr h ↦ ([], rw a (rw s (rw h)))
        ]
      ]
    ]
