-- ===== src/Uuid.antt =====
-- src/Uuid.cc: the text of an identifier, on a system with libuuid. The 16 bytes come from
-- `uuid_generate`.
pub mod Distinct
use ign_transport_git.Base.{
  ℕ, suc, ◌+◌, ◌-◌, ◌/◌, ◌%◌, Bool, ◌||◌, ◌==◌, ltb, List, [], ◌∷◌, ◌++◌, if◌then◌else◌, Text,
}

unfoldable pub hex_digit : ℕ → ℕ
hex_digit n = if ltb n 10 then b'0' + n else b'a' + (n - 10)

-- `%02x` of a byte.
unfoldable pub hex_byte : ℕ → Text
hex_byte b = hex_digit (b / 16) ∷ hex_digit (b % 16) ∷ []

-- The dashes of the format stand before the bytes 4, 6, 8 and 10.
abbrev pub dash_before : ℕ → Text
dash_before i = if i == 4 || i == 6 || i == 8 || i == 10 then b'-' ∷ [] else []

-- The format from the byte `i` on.
unfoldable pub format_from : ℕ → List ℕ → Text
format_from i [] = []
format_from i (b ∷ data_bytes) = dash_before i ++ (hex_byte b ++ format_from (suc i) data_bytes)

-- `Uuid::ToString`; the buffer has room for the 36 characters and the final NUL.
unfoldable pub to_string : List ℕ → Text
to_string data_bytes = format_from 0 data_bytes
