-- ===== src/Packet/Advertise/Srv.antt =====
-- The class `AdvertiseSrv` of src/Packet.cc.
pub mod RoundTrip
use ign_transport_git.Base.{
  ℕ, ◌+◌, ◌-◌, ◌%◌, ◌^◌, ◌==◌, ◌||◌, Option, none, some, [], length, is_empty, if◌then◌else◌, Text,
}
use ign_transport_git.Packet.Bytes.{
  Writer, emit_text, Reader, load_text, load_at, ◌>>◌, ◌>>=◌, return,
}
use ign_transport_git.Packet.Header.{Buffer, get_header_length, store_from}
use ign_transport_git.Packet.Advertise.Base
use ign_transport_git.Packet.Advertise.Base.{AdvertiseBase}

pub record AdvertiseSrv : Type 0 where
  pub base : AdvertiseBase
  pub open base use *
  pub req_type_name : Text
  pub rep_type_name : Text

-- `AdvertiseSrv() = default`.
abbrev pub default : AdvertiseSrv
default = record { base = Base.default; req_type_name = []; rep_type_name = [] }

unfoldable pub get_msg_length : AdvertiseSrv → ℕ
get_msg_length m =
    (Base.get_msg_length m.base + 8 + length m.req_type_name + 8 + length m.rep_type_name) % 2 ^ 64

unfoldable pub store_names : AdvertiseSrv → Writer
store_names m = do emit_text m.req_type_name; emit_text m.rep_type_name

unfoldable pub pack : AdvertiseSrv → Buffer → Option (ℕ × Buffer)
pack m buffer = elim (Base.pack m.base buffer) [
  | none ↦ none
  | some (len, buffer') ↦
      if len == 0
      then some (0, buffer')
      else if is_empty m.req_type_name || is_empty m.rep_type_name
      then some (0, buffer')
      else store_from len (store_names m) (get_msg_length m) buffer'
]

unfoldable pub load_names : AdvertiseSrv → Reader AdvertiseSrv
load_names m = do
  req_type_name ← load_text
  rep_type_name ← load_text
  return (record m { req_type_name = req_type_name; rep_type_name = rep_type_name })

-- The rest of `UnpackBody`, where the shared part took `adv_common_len` bytes.
unfoldable pub unpack_names : AdvertiseSrv → ℕ → Buffer → Option (AdvertiseSrv × ℕ)
unpack_names m adv_common_len none = none
unpack_names m adv_common_len (some mem) = elim (load_at adv_common_len (load_names m) mem) [
  | none ↦ none
  | some m' ↦ some (m', (get_msg_length m' + 2 ^ 64 - get_header_length m'.header) % 2 ^ 64)
]

unfoldable pub unpack_body : AdvertiseSrv → Buffer → Option (AdvertiseSrv × ℕ)
unpack_body m buffer = elim (Base.unpack_body m.base buffer) [
  | none ↦ none
  | some (b, adv_common_len) ↦
      if adv_common_len == 0
      then some (record m { base = b }, 0)
      else unpack_names (record m { base = b }) adv_common_len buffer
]
