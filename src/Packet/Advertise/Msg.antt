-- ===== src/Packet/Advertise/Msg.antt =====
-- The class `AdvertiseMsg` of src/Packet.cc.
pub mod RoundTrip
use ign_transport_git.Base.{
  ℕ, ◌+◌, ◌-◌, ◌%◌, ◌^◌, ◌==◌, Option, none, some, [], length, is_empty, if◌then◌else◌, Text,
}
use ign_transport_git.Packet.Bytes.{
  Writer, emit_text, Reader, load_text, load_at, ◌>>◌, ◌>>=◌, return,
}
use ign_transport_git.Packet.Header.{Buffer, get_header_length, store_from}
use ign_transport_git.Packet.Advertise.Base
use ign_transport_git.Packet.Advertise.Base.{AdvertiseBase}

pub record AdvertiseMsg : Type 0 where
  pub base : AdvertiseBase
  pub open base use *
  pub msg_type_name : Text

-- `AdvertiseMsg() = default`.
abbrev pub default : AdvertiseMsg
default = record { base = Base.default; msg_type_name = [] }

unfoldable pub get_msg_length : AdvertiseMsg → ℕ
get_msg_length m = (Base.get_msg_length m.base + 8 + length m.msg_type_name) % 2 ^ 64

unfoldable pub store_names : AdvertiseMsg → Writer
store_names m = emit_text m.msg_type_name

unfoldable pub pack : AdvertiseMsg → Buffer → Option (ℕ × Buffer)
pack m buffer = elim (Base.pack m.base buffer) [
  | none ↦ none
  | some (len, buffer') ↦
      if len == 0
      then some (0, buffer')
      else if is_empty m.msg_type_name
      then some (0, buffer')
      else store_from len (store_names m) (get_msg_length m) buffer'
]

unfoldable pub load_names : AdvertiseMsg → Reader AdvertiseMsg
load_names m = do msg_type_name ← load_text; return (record m { msg_type_name = msg_type_name })

-- The rest of `UnpackBody`, where the shared part took `adv_common_len` bytes.
unfoldable pub unpack_names : AdvertiseMsg → ℕ → Buffer → Option (AdvertiseMsg × ℕ)
unpack_names m adv_common_len none = none
unpack_names m adv_common_len (some mem) = elim (load_at adv_common_len (load_names m) mem) [
  | none ↦ none
  | some m' ↦ some (m', (get_msg_length m' + 2 ^ 64 - get_header_length m'.header) % 2 ^ 64)
]

unfoldable pub unpack_body : AdvertiseMsg → Buffer → Option (AdvertiseMsg × ℕ)
unpack_body m buffer = elim (Base.unpack_body m.base buffer) [
  | none ↦ none
  | some (b, adv_common_len) ↦
      if adv_common_len == 0
      then some (record m { base = b }, 0)
      else unpack_names (record m { base = b }) adv_common_len buffer
]
