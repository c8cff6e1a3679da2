-- ===== src/Packet/Advertise/Srv/RoundTrip.antt =====
-- The layout of the class `AdvertiseSrv` of src/Packet.cc on the wire, between `Pack` and
-- `UnpackBody`.
use mathlib.Core.List.{append_assoc}
use ign_transport_git.Base.{
  ◌+◌, ◌≤◌, ◌<◌, ◌^◌, ◌%◌, ◌-◌, ◌≡◌, ◌==◌, ◌||◌, ◌++◌, some, false, arith, length, drop, is_empty,
  length-append, drop-append, Text,
}
use ign_transport_git.Packet.Bytes.{
  encode_text, length-encode_text, through_int-lt, load_at-Reads, Emits, Reads, emit_text-Emits,
  >>-Emits, load_text-Reads, >>=-Reads, return-Reads,
}
use ign_transport_git.Packet.Header
use ign_transport_git.Packet.Header.{Header, get_header_length}
use ign_transport_git.Packet.Header.RoundTrip.{
  encode, length-encode, unpack-encode, store_from-after,
}
use ign_transport_git.Packet.Advertise.Base
use ign_transport_git.Packet.Advertise.Base.{AdvertiseBase}
use ign_transport_git.Packet.Advertise.Base.Laws as Shared
use ign_transport_git.Packet.Advertise.Base.Laws.{encode_body, length-encode_body}
use ign_transport_git.Packet.Advertise.Srv.{
  AdvertiseSrv, get_msg_length, store_names, pack, load_names, unpack_names, unpack_body,
}

unfoldable pub encode_names : AdvertiseSrv → Text
encode_names m = encode_text m.req_type_name ++ encode_text m.rep_type_name

-- The layout of the whole message on the wire.
unfoldable pub encode_msg : AdvertiseSrv → Text
encode_msg m = (encode m.header ++ encode_body m.base) ++ encode_names m

pub record IsPackable (m : AdvertiseSrv) : Type 0 where
  pub base-IsPackable : Shared.IsPackable m.base
  pub names_given : (is_empty m.req_type_name || is_empty m.rep_type_name) ≡ false
  pub total : length (encode_msg m) < 2 ^ 31

length-encode_names :
    (m : AdvertiseSrv)
    → length (encode_names m) ≡ 16 + length m.req_type_name + length m.rep_type_name
unfolding encode_names
length-encode_names m = simp (length-append, length-encode_text) (omega arith)

-- The length of the layout.
pub length-encode_msg :
    (m : AdvertiseSrv)
    → length (encode_msg m)
      ≡ length (encode m.header) + length (encode_body m.base) + length (encode_names m)
unfolding encode_msg
length-encode_msg m = omega (
  arith,
  length-append (encode m.header) (encode_body m.base),
  length-append (encode m.header ++ encode_body m.base) (encode_names m),
)

pub get_msg_length_lem :
    (m : AdvertiseSrv) → IsPackable m → get_msg_length m ≡ length (encode_msg m)
unfolding get_msg_length
get_msg_length_lem m v =
    rw (Shared.get_msg_length_lem m.base v.base-IsPackable)
      (omega (arith, v.total, length-encode_msg m, length-encode_names m))

store_names-Emits : (m : AdvertiseSrv) → Emits (store_names m) (encode_names m)
unfolding store_names encode_names
store_names-Emits m = >>-Emits (emit_text-Emits _) (emit_text-Emits _)

load_names-Reads :
    (m0 m : AdvertiseSrv)
    → length m.req_type_name < 2 ^ 64
    → length m.rep_type_name < 2 ^ 64
    → Reads
        (load_names m0)
        (encode_names m)
        (record m0 { req_type_name = m.req_type_name; rep_type_name = m.rep_type_name })
unfolding load_names encode_names
load_names-Reads m0 m a b =
    >>=-Reads _ (load_text-Reads m.req_type_name a)
      (return-Reads _ (load_text-Reads m.rep_type_name b))

-- In a buffer that is long enough: the encoding, and the rest untouched.
pub pack_lem :
    (m : AdvertiseSrv) (mem : Text)
    → IsPackable m
    → length (encode_msg m) ≤ length mem
    → pack m (some mem)
      ≡ some (length (encode_msg m), some (encode_msg m ++ drop (length (encode_msg m)) mem))
unfolding pack encode_msg
pack_lem m mem v room =
    rw (Shared.pack_lem m.base mem v.base-IsPackable shared, pack)
      (rw (nonzero, v.names_given, get_msg_length_lem m v)
        (store_from-after (encode m.header ++ encode_body m.base) mem _ (store_names-Emits m) fits))
  where
    shared : length (encode m.header) + length (encode_body m.base) ≤ length mem
    shared = omega (arith, length-encode_msg m)

    nonzero : (length (encode m.header ++ encode_body m.base) == 0) ≡ false
    nonzero =
        ground (arith, length-append (encode m.header) (encode_body m.base), length-encode m.header)

    fits : length (encode m.header ++ encode_body m.base) + length (encode_names m) ≤ length mem
    fits = omega (arith, length-append (encode m.header ++ encode_body m.base) (encode_names m))

-- The object that an unpacking into `m0` leaves: the body of `m`, and `m0`'s header.
abbrev pub with_body : AdvertiseSrv → AdvertiseSrv → AdvertiseSrv
with_body m0 m = record m { base = Shared.with_body m0.base m.base }

get_msg_length-with_body :
    (m0 m : AdvertiseSrv)
    → IsPackable m
    → (get_msg_length (with_body m0 m) + 2 ^ 64 - get_header_length m0.header) % 2 ^ 64
      ≡ length (encode_body m.base) + length (encode_names m)
unfolding get_msg_length Base.get_msg_length get_header_length
get_msg_length-with_body m0 m v = omega (
  arith,
  v.total,
  length-encode_msg m,
  length-encode_names m,
  length-encode_body m.base,
  through_int-lt (2 + 8 + length m0.header.p_uuid + 1 + 2),
)

pub unpack_body-encode_body :
    (m0 m : AdvertiseSrv) (rest : Text)
    → IsPackable m
    → unpack_body m0 (some (encode_body m.base ++ (encode_names m ++ rest)))
      ≡ some (with_body m0 m, length (encode_body m.base) + length (encode_names m))
unfolding unpack_body unpack_names
unpack_body-encode_body m0 m rest v =
    rw
      (
        Shared.unpack_body-encode_body m0.base m.base (encode_names m ++ rest) v.base-IsPackable,
        unpack_body,
      )
      (rw (
        nonzero,
        load_at-Reads (encode_body m.base) rest names,
        unpack_names,
        get_msg_length-with_body m0 m v,
      ))
  where
    b : AdvertiseBase
    b = Shared.with_body m0.base m.base

    nonzero : (length (encode_body m.base) == 0) ≡ false
    nonzero = ground (arith, length-encode_body m.base)

    names : Reads (load_names (record m0 { base = b })) (encode_names m) (with_body m0 m)
    names =
        load_names-Reads (record m0 { base = b }) m
          (omega (arith, v.total, length-encode_msg m, length-encode_names m))
          (omega (arith, v.total, length-encode_msg m, length-encode_names m))

-- A valid message survives the wire: packed into a buffer with room for it, it is unpacked from
-- that buffer into any objects, and every length that is returned is the layout's.
pub service_unpack_body-pack :
    (m m0 : AdvertiseSrv) (h0 : Header) (mem : Text)
    → IsPackable m
    → length (encode_msg m) ≤ length mem
    → (mem' : Text) × (pack m (some mem) ≡ some (length (encode_msg m), some mem'))
      × (Header.unpack h0 (some mem') ≡ some (m.header, length (encode m.header)))
      × (unpack_body m0 (some (drop (length (encode m.header)) mem'))
          ≡ some (with_body m0 m, length (encode_body m.base) + length (encode_names m)))
service_unpack_body-pack m m0 h0 mem v room = (
  encode_msg m ++ rest,
  pack_lem m mem v room,
  rw split (unpack-encode m.header h0 _ v.base-IsPackable.header-IsValid),
  rw (split, drop-append (encode m.header) (encode_body m.base ++ (encode_names m ++ rest)))
      (unpack_body-encode_body m0 m rest v),
)
  where
    rest : Text
    rest = drop (length (encode_msg m)) mem

    split :
        encode_msg m ++ rest ≡ encode m.header ++ (encode_body m.base ++ (encode_names m ++ rest))
    split = unfold encode_msg in simp append_assoc
