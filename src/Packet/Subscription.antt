-- ===== src/Packet/Subscription.antt =====
-- The class `SubscriptionMsg` of src/Packet.cc.
pub mod RoundTrip
use ign_transport_git.Base.{
  ℕ, ◌+◌, ◌%◌, ◌^◌, ◌==◌, Option, none, some, [], length, is_empty, if◌then◌else◌, Text,
}
use ign_transport_git.Packet.Bytes.{emit_text, load_text}
use ign_transport_git.Packet.Header
use ign_transport_git.Packet.Header.{Header, Buffer, get_header_length, store_from}

pub record SubscriptionMsg : Type 0 where
  pub header : Header
  pub topic : Text

-- `SubscriptionMsg() = default`.
abbrev pub default : SubscriptionMsg
default = record { header = Header.default; topic = [] }

unfoldable pub get_msg_length : SubscriptionMsg → ℕ
get_msg_length m = (get_header_length m.header + 8 + length m.topic) % 2 ^ 64

unfoldable pub pack : SubscriptionMsg → Buffer → Option (ℕ × Buffer)
pack m buffer = elim (Header.pack m.header buffer) [
  | none ↦ none
  | some (header_len, buffer') ↦
      if header_len == 0
      then some (0, buffer')
      else if is_empty m.topic
      then some (0, buffer')
      else store_from header_len (emit_text m.topic) (get_msg_length m) buffer'
]

unfoldable pub unpack_body : SubscriptionMsg → Buffer → Option (SubscriptionMsg × ℕ)
unpack_body m none = some (m, 0)
unpack_body m (some mem) = elim (load_text mem) [
  | none ↦ none
  | some (topic, rest) ↦ some (record m { topic = topic }, (8 + length topic) % 2 ^ 64)
]
