-- ===== src/Packet/Header/Overrun.antt =====
-- `Header::Unpack` and the length field of the process UUID.
use ign_transport_git.Base.{ℕ, ◌<◌, ◌^◌, ◌≡◌, ◌++◌, none, some, length, Text}
use ign_transport_git.Packet.Bytes.{le, load-Reads, load_text_short, ◌>>=◌}
use ign_transport_git.Packet.Header.{Header, load_fields, unpack}

-- For every header object, version and length field that fit their types: where fewer bytes follow the length field than
-- it says, the call reads past the end of the memory.
pub unpack_overrun :
    (h0 : Header) (version n : ℕ) (rest : Text)
    → version < 2 ^ 16
    → n < 2 ^ 64
    → length rest < n
    → unpack h0 (some (le 2 version ++ (le 8 n ++ rest))) ≡ none
unfolding unpack load_fields ◌>>=◌
unpack_overrun h0 version n rest v fits short =
    rw ((load-Reads 2 version v).loads (le 8 n ++ rest), unpack, load_fields, ◌>>=◌)
      (rw (load_text_short n rest fits short, ◌>>=◌))
