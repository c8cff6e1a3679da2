-- ===== src/Packet/Subscription/RoundTrip.antt =====
-- The layout of the class `SubscriptionMsg` of src/Packet.cc on the wire, between `Pack` and
-- `UnpackBody`.
use ign_transport_git.Base.{
  ◌+◌, ◌≤◌, ◌<◌, ◌^◌, ◌≡◌, ◌++◌, ap, some, false, arith, length, drop, is_empty, drop-append, ◌==◌,
  Text,
}
use mathlib.Core.List.{append_assoc}
use ign_transport_git.Packet.Bytes.{
  encode_text, length-encode_text, emit_text-Emits, load_text-Reads,
}
use ign_transport_git.Packet.Header
use ign_transport_git.Packet.Header.{Header, get_header_length, is_incomplete, store_from}
use ign_transport_git.Packet.Header.RoundTrip.{
  encode, IsValid, get_header_length_lem, length-encode, pack_lem as Header_pack_lem, unpack-encode,
  store_from-after,
}
use ign_transport_git.Packet.Subscription.{SubscriptionMsg, get_msg_length, pack, unpack_body}

unfoldable pub encode_body : SubscriptionMsg → Text
encode_body m = encode_text m.topic

-- The header is valid, the topic is there, and the whole message fits an `int`.
pub record IsPackable (m : SubscriptionMsg) : Type 0 where
  pub header-IsValid : IsValid m.header
  pub header_complete : is_incomplete m.header ≡ false
  pub topic_given : is_empty m.topic ≡ false
  pub total : length m.header.p_uuid + 21 + length m.topic < 2 ^ 31

pub get_msg_length_lem :
    (m : SubscriptionMsg)
    → IsPackable m
    → get_msg_length m ≡ length m.header.p_uuid + 21 + length m.topic
unfolding get_msg_length
get_msg_length_lem m v = rw (get_header_length_lem m.header v.header-IsValid) (omega arith)

pub length-encode_body : (m : SubscriptionMsg) → length (encode_body m) ≡ 8 + length m.topic
unfolding encode_body
length-encode_body m = length-encode_text m.topic

-- In a buffer that is long enough: the header's encoding, the topic's, the rest untouched.
pub pack_lem :
    (m : SubscriptionMsg) (mem : Text)
    → IsPackable m
    → length (encode m.header) + length (encode_body m) ≤ length mem
    → let out = encode m.header ++ encode_body m in
      pack m (some mem) ≡ some (get_msg_length m, some (out ++ drop (length out) mem))
unfolding pack encode_body
pack_lem m mem v room =
    rw (Header_pack_lem m.header mem v.header-IsValid v.header_complete (omega arith), pack)
      (rw (nonzero, v.topic_given)
        (store_from-after (encode m.header) mem _ (emit_text-Emits m.topic) room))
  where
    nonzero : (length (encode m.header) == 0) ≡ false
    nonzero = ground (arith, length-encode m.header)

pub unpack_body-encode_body :
    (m0 m : SubscriptionMsg) (rest : Text)
    → length m.topic + 8 < 2 ^ 64
    → unpack_body m0 (some (encode_body m ++ rest))
      ≡ some (record m0 { topic = m.topic }, length (encode_body m))
unfolding unpack_body encode_body
unpack_body-encode_body m0 m rest fits =
    rw ((load_text-Reads m.topic (omega arith)).loads rest, unpack_body, length-encode_text m.topic)
      (ap (λ n. some (record m0 { topic = m.topic }, n)) (omega arith))

-- A valid subscription survives the wire: packed into a buffer with room for it, it is unpacked
-- from that buffer into any objects, and every length that is returned is the layout's.
pub subscription_unpack_body-pack :
    (m m0 : SubscriptionMsg) (h0 : Header) (mem : Text)
    → IsPackable m
    → length m.header.p_uuid + 21 + length m.topic ≤ length mem
    → (mem' : Text) × (pack m (some mem)
        ≡ some (length m.header.p_uuid + 21 + length m.topic, some mem'))
      × (Header.unpack h0 (some mem') ≡ some (m.header, length m.header.p_uuid + 13))
      × (unpack_body m0 (some (drop (length m.header.p_uuid + 13) mem'))
          ≡ some (record m0 { topic = m.topic }, 8 + length m.topic))
subscription_unpack_body-pack m m0 h0 mem v room = (
  (encode m.header ++ encode_body m) ++ rest,
  rw (← get_msg_length_lem m v)
      (pack_lem m mem v (omega (arith, length-encode m.header, length-encode_body m))),
  rw (append_assoc, ← length-encode m.header) (unpack-encode m.header h0 _ v.header-IsValid),
  rw
      (
        append_assoc,
        ← length-encode m.header,
        drop-append (encode m.header) (encode_body m ++ rest),
        ← length-encode_body m,
      )
      (unpack_body-encode_body m0 m rest (omega (arith, v.total))),
)
  where
    rest : Text
    rest = drop (length (encode m.header ++ encode_body m)) mem
