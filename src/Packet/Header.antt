-- ===== src/Packet/Header.antt =====
-- The class `Header` of src/Packet.cc, its message types, `Pack` and `Unpack`.
pub mod RoundTrip
pub mod Overrun
use ign_transport_git.Base.{
  ℕ, ◌+◌, Option, none, some, Bool, ◌||◌, ◌==◌, [], length, is_empty, if◌then◌else◌, Text,
}
use ign_transport_git.Packet.Bytes.{
  le, through_int, Writer, emit, emit_text, store_at, Reader, load, load_text, ◌>>◌, ◌>>=◌, return,
}

-- A `char *` and what it points to; `none` is the null pointer.
abbrev pub Buffer : Type 0
Buffer = Option Text

abbrev pub uninitialized : ℕ
uninitialized = 0

abbrev pub adv_type : ℕ
adv_type = 1

abbrev pub sub_type : ℕ
sub_type = 2

abbrev pub unadv_type : ℕ
unadv_type = 3

abbrev pub heartbeat_type : ℕ
heartbeat_type = 4

abbrev pub bye_type : ℕ
bye_type = 5

abbrev pub adv_srv_type : ℕ
adv_srv_type = 6

abbrev pub sub_srv_type : ℕ
sub_srv_type = 7

abbrev pub unadv_srv_type : ℕ
unadv_srv_type = 8

abbrev pub new_connection : ℕ
new_connection = 9

abbrev pub end_connection : ℕ
end_connection = 10

pub record Header : Type 0 where
  pub version : ℕ
  pub p_uuid : Text
  pub type : ℕ
  pub flags : ℕ

-- `Header() = default`, with the initializers of the class.
abbrev pub default : Header
default = record { version = 0; p_uuid = []; type = uninitialized; flags = 0 }

-- `int Header::GetHeaderLength()`, as the callers read it, widened to `size_t`.
unfoldable pub get_header_length : Header → ℕ
get_header_length h = through_int (2 + 8 + length h.p_uuid + 1 + 2)

unfoldable pub is_incomplete : Header → Bool
is_incomplete h = h.version == 0 || is_empty h.p_uuid || h.type == uninitialized

unfoldable pub store_fields : Header → Writer
store_fields h = do
  emit (le 2 h.version)
  emit_text h.p_uuid
  emit (le 1 h.type)
  emit (le 2 h.flags)

-- The stores at `_buffer + n`, then `return result`.
unfoldable pub store_from : ℕ → Writer → ℕ → Buffer → Option (ℕ × Buffer)
store_from n w result none = none
store_from n w result (some mem) = elim (store_at n w mem) [
  | none ↦ none
  | some mem' ↦ some (result, some mem')
]

-- The bytes written and the buffer after the call; `none` is a write past the buffer's end.
unfoldable pub pack : Header → Buffer → Option (ℕ × Buffer)
pack h none = some (0, none)
pack h (some mem) =
    if is_incomplete h
    then some (0, some mem)
    else store_from 0 (store_fields h) (get_header_length h) (some mem)

unfoldable pub load_fields : Reader Header
load_fields = do
  version ← load 2
  p_uuid ← load_text
  type ← load 1
  flags ← load 2
  return (record { version = version; p_uuid = p_uuid; type = type; flags = flags })

-- The header after the call and the bytes read; `none` is a read past the buffer's end.
unfoldable pub unpack : Header → Buffer → Option (Header × ℕ)
unpack h none = some (h, 0)
unpack h (some mem) = elim (load_fields mem) [
  | none ↦ none
  | some (h', rest) ↦ some (h', get_header_length h')
]
