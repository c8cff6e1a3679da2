-- ===== src/Discovery/Send.antt =====
-- `Discovery::SendMsg`.
pub mod Laws
pub mod Safety
use ign_transport_git.Base.{
  ℕ, Bool, ◌%◌, ◌^◌, ◌==◌, ◌||◌, Option, none, some, [], ◌∷◌, List, replicate, if◌then◌else◌, Text,
  bytes,
}
use ign_transport_git.TransportTypes.{Scope}
use ign_transport_git.Packet.Bytes.{take_bytes, through_int}
use ign_transport_git.Packet.Header
use ign_transport_git.Packet.Header.{Header, Buffer}
use ign_transport_git.Packet.Subscription
use ign_transport_git.Packet.Subscription.{SubscriptionMsg}
use ign_transport_git.Packet.Advertise.Msg
use ign_transport_git.Packet.Advertise.Msg.{AdvertiseMsg}
use ign_transport_git.Discovery.{Discovery, Event, sent}

-- `DiscoveryPrivate::Version`.
abbrev pub version : ℕ
version = 1

-- `buffer.resize(length)`: the bytes are zero.
abbrev pub fresh_buffer : ℕ → Buffer
fresh_buffer len = some (replicate len 0)

-- `sendto` of `msgLength` bytes of the buffer, whatever `Pack` returned; `msgLength` is an `int`.
unfoldable pub transmit : ℕ → Option (ℕ × Buffer) → Option (List Event)
transmit len none = none
transmit len (some (packed, none)) = none
transmit len (some (packed, some mem)) = elim (take_bytes (through_int len) mem) [
  | none ↦ none
  | some (datagram, rest) ↦ some (sent datagram ∷ [])
]

abbrev pub make_header : Discovery → ℕ → ℕ → Header
make_header d type flags = record {
  version = version;
  p_uuid = d.p_uuid;
  type = type;
  flags = flags % 2 ^ 16;
}

abbrev pub make_advertise : Discovery → ℕ → Text → Text → Text → Text → Scope → ℕ → AdvertiseMsg
make_advertise d type topic addr ctrl n_uuid scope flags = record {
  base = record {
    header = make_header d type flags;
    topic = topic;
    addr = addr;
    ctrl = ctrl;
    n_uuid = n_uuid;
    scope = scope;
  };
  msg_type_name = bytes "not used";
}

abbrev pub make_subscription : Discovery → ℕ → Text → ℕ → SubscriptionMsg
make_subscription d type topic flags = record { header = make_header d type flags; topic = topic }

abbrev pub is_advertise_type : ℕ → Bool
is_advertise_type type =
    type == Header.adv_type
    || type == Header.unadv_type
    || type == Header.adv_srv_type
    || type == Header.unadv_srv_type

abbrev pub is_subscribe_type : ℕ → Bool
is_subscribe_type type = type == Header.sub_type || type == Header.sub_srv_type

abbrev pub is_header_type : ℕ → Bool
is_header_type type = type == Header.heartbeat_type || type == Header.bye_type

-- What the call sends; `none` is a buffer overrun. An unknown type sends nothing.
unfoldable pub send_msg :
    Discovery → ℕ → Text → Text → Text → Text → Scope → ℕ → Option (List Event)
send_msg d type topic addr ctrl n_uuid scope flags =
    let adv : AdvertiseMsg = make_advertise d type topic addr ctrl n_uuid scope flags in
    let sub : SubscriptionMsg = make_subscription d type topic flags in
    let header : Header = make_header d type flags in
    if is_advertise_type type
    then transmit (Msg.get_msg_length adv) (Msg.pack adv (fresh_buffer (Msg.get_msg_length adv)))
    else if is_subscribe_type type
    then transmit (Subscription.get_msg_length sub)
        (Subscription.pack sub (fresh_buffer (Subscription.get_msg_length sub)))
    else if is_header_type type
    then transmit (Header.get_header_length header)
        (Header.pack header (fresh_buffer (Header.get_header_length header)))
    else some []
