-- ===== src/Packet/Advertise/Base.antt =====
-- The class `AdvertiseBase` of src/Packet.cc: what all advertise messages share.
pub mod Laws
use ign_transport_git.Base.{
  ℕ, ◌+◌, ◌%◌, ◌^◌, ◌==◌, ◌||◌, Option, none, some, [], length, is_empty, if◌then◌else◌, Text,
}
use ign_transport_git.TransportTypes.{Scope, process, host, all, unnamed}
use ign_transport_git.Packet.Bytes.{
  le, Writer, emit, emit_text, Reader, load, load_text, ◌>>◌, ◌>>=◌, return,
}
use ign_transport_git.Packet.Header
use ign_transport_git.Packet.Header.{Header, Buffer, get_header_length, store_from}

-- `static_cast<uint8_t>(scope)`.
unfoldable pub intscope : Scope → ℕ
intscope process = 0
intscope host = 1
intscope all = 2
intscope (unnamed v) = v % 2 ^ 8

-- `static_cast<Scope>(intscope)`.
unfoldable pub scope_of : ℕ → Scope
scope_of v = if v == 0 then process else if v == 1 then host else if v == 2 then all else unnamed v

pub record AdvertiseBase : Type 0 where
  pub header : Header
  pub topic : Text
  pub addr : Text
  pub ctrl : Text
  pub n_uuid : Text
  pub scope : Scope

-- `AdvertiseBase() = default`, with the initializers of the class.
abbrev pub default : AdvertiseBase
default = record {
  header = Header.default;
  topic = [];
  addr = [];
  ctrl = [];
  n_uuid = [];
  scope = all;
}

unfoldable pub get_msg_length : AdvertiseBase → ℕ
get_msg_length m =
    (get_header_length m.header
      + 8
      + length m.topic
      + 8
      + length m.addr
      + 8
      + length m.ctrl
      + 8
      + length m.n_uuid
      + 1)
    % 2 ^ 64

unfoldable pub store_body : AdvertiseBase → Writer
store_body m = do
  emit_text m.topic
  emit_text m.addr
  emit_text m.ctrl
  emit_text m.n_uuid
  emit (le 1 (intscope m.scope))

unfoldable pub pack : AdvertiseBase → Buffer → Option (ℕ × Buffer)
pack m buffer = elim (Header.pack m.header buffer) [
  | none ↦ none
  | some (header_len, buffer') ↦
      if header_len == 0
      then some (0, buffer')
      else if is_empty m.topic || is_empty m.addr || is_empty m.n_uuid
      then some (0, buffer')
      else store_from header_len (store_body m) (get_msg_length m) buffer'
]

unfoldable pub load_body : AdvertiseBase → Reader AdvertiseBase
load_body m = do
  topic ← load_text
  addr ← load_text
  ctrl ← load_text
  n_uuid ← load_text
  scope ← load 1
  return (record m {
    topic = topic;
    addr = addr;
    ctrl = ctrl;
    n_uuid = n_uuid;
    scope = scope_of scope;
  })

unfoldable pub unpack_body : AdvertiseBase → Buffer → Option (AdvertiseBase × ℕ)
unpack_body m none = some (m, 0)
unpack_body m (some mem) = elim (load_body m mem) [
  | none ↦ none
  | some (m', rest) ↦ some (
    m',
    (8 + length m'.topic + 8 + length m'.addr + 8 + length m'.ctrl + 8 + length m'.n_uuid + 1)
        % 2 ^ 64,
  )
]
