-- ===== src/Packet/Header/RoundTrip.antt =====
-- The layout of the class `Header` of src/Packet.cc on the wire, between `Pack` and `Unpack`.
use ign_transport_git.Base.{
  ℕ, ◌+◌, ◌≤◌, ◌<◌, ◌^◌, ◌≡◌, [], ◌++◌, some, false, arith, length, drop, length-append, Text,
}
use ign_transport_git.Packet.Bytes.{
  le, encode_text, length-encode_text, Writer, through_int_small, Emits, Reads, emit-Emits,
  emit_text-Emits, >>-Emits, store_at_after, load-Reads, load_text-Reads, >>=-Reads, return-Reads,
  length-le,
}
use ign_transport_git.Packet.Header.{
  Header, get_header_length, is_incomplete, store_fields, store_from, pack, load_fields, unpack,
}

-- The layout of the header on the wire, said without pointers.
unfoldable pub encode : Header → Text
encode h = le 2 h.version ++ (encode_text h.p_uuid ++ (le 1 h.type ++ le 2 h.flags))

-- The fields fit their types, and the length fits an `int`.
pub record IsValid (h : Header) : Type 0 where
  pub version-lt : h.version < 2 ^ 16
  pub type-lt : h.type < 2 ^ 8
  pub flags-lt : h.flags < 2 ^ 16
  pub length-lt : length h.p_uuid + 13 < 2 ^ 31

pub store_fields-Emits : (h : Header) → Emits (store_fields h) (encode h)
unfolding store_fields encode
store_fields-Emits h =
    >>-Emits (emit-Emits _) (>>-Emits (emit_text-Emits _) (>>-Emits (emit-Emits _) (emit-Emits _)))

pub load_fields-Reads : (h : Header) → IsValid h → Reads load_fields (encode h) h
unfolding load_fields encode
load_fields-Reads h v = >>=-Reads _ (load-Reads 2 h.version (omega arith)) (
    >>=-Reads _ (load_text-Reads h.p_uuid (omega arith)) (
      >>=-Reads _ (load-Reads 1 h.type (omega arith))
        (return-Reads _ (load-Reads 2 h.flags (omega arith)))))

pub length-encode : (h : Header) → length (encode h) ≡ length h.p_uuid + 13
unfolding encode
length-encode h = simp (length-append, length-le, length-encode_text) (omega arith)

pub get_header_length_lem : (h : Header) → IsValid h → get_header_length h ≡ length h.p_uuid + 13
unfolding get_header_length
get_header_length_lem h v =
    rw (through_int_small (2 + 8 + length h.p_uuid + 1 + 2) (omega arith)) (omega arith)

-- A store behind what earlier calls left in the buffer.
pub store_from-after :
    {w : Writer} {bs : Text} (pre mem : Text) (result : ℕ)
    → Emits w bs
    → length pre + length bs ≤ length mem
    → store_from (length pre) w result (some (pre ++ drop (length pre) mem))
      ≡ some (result, some ((pre ++ bs) ++ drop (length (pre ++ bs)) mem))
unfolding store_from
store_from-after pre mem result e room = rw (store_at_after pre mem e room, store_from)

-- In a buffer that is long enough the packed header is its encoding, and the rest is untouched.
pub pack_lem :
    (h : Header) (mem : Text)
    → IsValid h
    → is_incomplete h ≡ false
    → length (encode h) ≤ length mem
    → pack h (some mem) ≡ some (length (encode h), some (encode h ++ drop (length (encode h)) mem))
unfolding pack
pack_lem h mem v c room =
    rw (c, get_header_length_lem h v, ← length-encode h)
      (store_from-after [] mem (length (encode h)) (store_fields-Emits h) (omega arith))

-- At any object, unpacking an encoding followed by anything gives the header back.
pub unpack-encode :
    (h h0 : Header) (rest : Text)
    → IsValid h
    → unpack h0 (some (encode h ++ rest)) ≡ some (h, length (encode h))
unfolding unpack
unpack-encode h h0 rest v =
    rw ((load_fields-Reads h v).loads rest, unpack, get_header_length_lem h v, length-encode h)

-- A complete header whose fields fit their types survives the wire: packed into a buffer with room
-- for it, it is unpacked from that buffer into any object, and both calls return its length.
pub unpack-pack :
    (h h0 : Header) (mem : Text)
    → IsValid h
    → is_incomplete h ≡ false
    → length h.p_uuid + 13 ≤ length mem
    → (mem' : Text) × (pack h (some mem) ≡ some (length h.p_uuid + 13, some mem'))
      × (unpack h0 (some mem') ≡ some (h, length h.p_uuid + 13))
unpack-pack h h0 mem v c room = (
  encode h ++ drop (length (encode h)) mem,
  rw (← length-encode h) (pack_lem h mem v c (omega (arith, length-encode h))),
  rw (← length-encode h) (unpack-encode h h0 _ v),
)
