-- ===== src/Packet/Advertise/Base/Laws.antt =====
-- The bytes of the part that the advertise messages share.
use mathlib.Core.Path.{subst}
use ign_transport_git.Base.{
  ◌+◌, ◌≤◌, ◌<◌, ◌^◌, ◌≡◌, ◌==◌, ◌||◌, ◌++◌, ap, some, false, arith, length, drop, is_empty,
  length-append, Text,
}
use ign_transport_git.TransportTypes.{Scope, process, host, all, unnamed}
use ign_transport_git.Packet.Bytes.{
  le, encode_text, length-encode_text, length-le, Emits, Reads, emit-Emits, emit_text-Emits,
  >>-Emits, load-Reads, load_text-Reads, >>=-Reads, return-Reads,
}
use ign_transport_git.Packet.Header.{is_incomplete}
use ign_transport_git.Packet.Header.RoundTrip.{
  encode, IsValid, get_header_length_lem, length-encode, pack_lem as Header_pack_lem,
  store_from-after,
}
use ign_transport_git.Packet.Advertise.Base.{
  AdvertiseBase, intscope, scope_of, get_msg_length, store_body, pack, load_body, unpack_body,
}

unfoldable pub encode_body : AdvertiseBase → Text
encode_body m =
    encode_text m.topic
    ++ (encode_text m.addr
        ++ (encode_text m.ctrl ++ (encode_text m.n_uuid ++ le 1 (intscope m.scope))))

-- The message is complete, its scope is a byte, and the shared part fits an `int`.
pub record IsPackable (m : AdvertiseBase) : Type 0 where
  pub header-IsValid : IsValid m.header
  pub header_complete : is_incomplete m.header ≡ false
  pub body_complete : (is_empty m.topic || is_empty m.addr || is_empty m.n_uuid) ≡ false
  pub scope-byte : scope_of (intscope m.scope) ≡ m.scope
  pub total :
      length m.header.p_uuid + 46 + length m.topic + length m.addr + length m.ctrl + length m.n_uuid
      < 2 ^ 31

intscope-lt : (s : Scope) → intscope s < 256
unfolding intscope
intscope-lt process = omega arith
intscope-lt host = omega arith
intscope-lt all = omega arith
intscope-lt (unnamed v) = omega arith

pub get_msg_length_lem :
    (m : AdvertiseBase)
    → IsPackable m
    → get_msg_length m ≡ length (encode m.header) + length (encode_body m)
unfolding get_msg_length encode_body
get_msg_length_lem m v =
    rw (get_header_length_lem m.header v.header-IsValid, length-encode m.header)
      (simp (length-append, length-le, length-encode_text) (omega arith))

pub store_body-Emits : (m : AdvertiseBase) → Emits (store_body m) (encode_body m)
unfolding store_body encode_body
store_body-Emits m = >>-Emits (emit_text-Emits _) (
    >>-Emits (emit_text-Emits _)
      (>>-Emits (emit_text-Emits _) (>>-Emits (emit_text-Emits _) (emit-Emits _))))

-- The object that an unpacking into `m0` leaves: the body of `m`, and `m0`'s header.
abbrev pub with_body : AdvertiseBase → AdvertiseBase → AdvertiseBase
with_body m0 m = record m { header = m0.header }

load_body-Reads :
    (m0 m : AdvertiseBase) → IsPackable m → Reads (load_body m0) (encode_body m) (with_body m0 m)
unfolding load_body encode_body
load_body-Reads m0 m v =
    subst (λ s. Reads (load_body m0) (encode_body m) (record (with_body m0 m) { scope = s }))
      v.scope-byte
      (>>=-Reads _ (load_text-Reads m.topic (omega arith)) (
        >>=-Reads _ (load_text-Reads m.addr (omega arith)) (
          >>=-Reads _ (load_text-Reads m.ctrl (omega arith)) (
            >>=-Reads _ (load_text-Reads m.n_uuid (omega arith))
              (return-Reads _ (load-Reads 1 (intscope m.scope) (intscope-lt m.scope)))))))

pub pack_lem :
    (m : AdvertiseBase) (mem : Text)
    → IsPackable m
    → length (encode m.header) + length (encode_body m) ≤ length mem
    → let out = encode m.header ++ encode_body m in
      pack m (some mem) ≡ some (length out, some (out ++ drop (length out) mem))
unfolding pack
pack_lem m mem v room =
    rw (Header_pack_lem m.header mem v.header-IsValid v.header_complete (omega arith), pack)
      (rw
        (
          nonzero,
          v.body_complete,
          get_msg_length_lem m v,
          ← length-append (encode m.header) (encode_body m),
        )
        (store_from-after (encode m.header) mem _ (store_body-Emits m) room))
  where
    nonzero : (length (encode m.header) == 0) ≡ false
    nonzero = ground (arith, length-encode m.header)

pub length-encode_body :
    (m : AdvertiseBase)
    → length (encode_body m) ≡ 33 + length m.topic + length m.addr + length m.ctrl + length m.n_uuid
unfolding encode_body
length-encode_body m = simp (length-append, length-le, length-encode_text) (omega arith)

pub unpack_body-encode_body :
    (m0 m : AdvertiseBase) (rest : Text)
    → IsPackable m
    → unpack_body m0 (some (encode_body m ++ rest)) ≡ some (with_body m0 m, length (encode_body m))
unfolding unpack_body
unpack_body-encode_body m0 m rest v =
    rw ((load_body-Reads m0 m v).loads rest, unpack_body, length-encode_body m)
      (ap (λ n. some (with_body m0 m, n)) (omega arith))
