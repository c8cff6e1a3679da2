-- ===== src/Packet/Stays.antt =====
-- The `Pack` functions of src/Packet.cc and the bounds of the buffer that they are given.
use ign_transport_git.Base.{
  ℕ, Bool, ◌∙◌, zero, suc, ◌+◌, ◌≤◌, ◌<◌, ◌^◌, ◌≡◌, ◌==◌, ◌||◌, refl, ◌++◌, Option, some, [], ◌∷◌,
  arith, length, drop, length-append, length-drop, is_empty, Bool-cases, inl, inr, if◌then◌else◌,
  Text,
}
use ign_transport_git.Packet.Bytes.{
  Writer, Emits, store_at, length-encode_text, emit_text-Emits, through_int_small,
}
use ign_transport_git.Packet.Header
use ign_transport_git.Packet.Header.{Header, Buffer, get_header_length, is_incomplete, store_from}
use ign_transport_git.Packet.Header.RoundTrip as HeaderTrip
use ign_transport_git.Packet.Subscription
use ign_transport_git.Packet.Subscription.{SubscriptionMsg}
use ign_transport_git.Packet.Advertise.Base
use ign_transport_git.Packet.Advertise.Base.{AdvertiseBase}
use ign_transport_git.Packet.Advertise.Base.Laws as Shared
use ign_transport_git.Packet.Advertise.Msg
use ign_transport_git.Packet.Advertise.Msg.{AdvertiseMsg}
use ign_transport_git.Packet.Advertise.Msg.RoundTrip as MsgTrip

-- The call stays in a memory of the length, and returns no more than the bound.
pub record Stays (len bound : ℕ) (r : Option (ℕ × Buffer)) : Type 0 where
  pub count : ℕ
  pub memory : Text
  pub result : r ≡ some (count, some memory)
  pub kept : length memory ≡ len
  pub small : count ≤ bound

store_at_stays :
    {w : Writer} {bs : Text} (n : ℕ) (mem : Text)
    → Emits w bs
    → n + length bs ≤ length mem
    → (mem' : Text) × (store_at n w mem ≡ some mem') × (length mem' ≡ length mem)
unfolding store_at
store_at_stays {w} {bs} zero mem e h = (
  bs ++ drop (length bs) mem,
  rw (e.stores mem (omega arith), store_at),
  omega (arith, length-append bs (drop (length bs) mem), length-drop (length bs) mem),
)
store_at_stays (suc n) [] e h = absurd (omega arith)
store_at_stays (suc n) (m ∷ mem) e h =
    let (mem', stored, kept) = store_at_stays n mem e (omega arith) in
    (m ∷ mem', rw (stored, store_at), omega arith)

store_from-Stays :
    {w : Writer} {bs : Text} (n result bound : ℕ) (mem : Text)
    → Emits w bs
    → n + length bs ≤ length mem
    → result ≤ bound
    → Stays (length mem) bound (store_from n w result (some mem))
unfolding store_from
store_from-Stays n result bound mem e h le =
    let (mem', stored, kept) = store_at_stays n mem e h in
    record {
      count = result;
      memory = mem';
      result = rw (stored, store_from);
      kept = kept;
      small = le;
    }

pub header-Stays :
    (h : Header) (mem : Text)
    → length h.p_uuid + 13 ≤ length mem
    → length h.p_uuid + 13 < 2 ^ 31
    → Stays (length mem) (length h.p_uuid + 13) (Header.pack h (some mem))
unfolding Header.pack get_header_length
header-Stays h mem room fits = elim (Bool-cases (is_incomplete h)) [
  | inl e ↦
      rw e (record { count = 0; memory = mem; result = refl; kept = refl; small = omega arith })
  | inr e ↦ rw e (
      store_from-Stays 0 _ _ mem (HeaderTrip.store_fields-Emits h)
        (omega (arith, HeaderTrip.length-encode h))
        (omega (arith, through_int_small (2 + 8 + length h.p_uuid + 1 + 2) (omega arith))))
]

-- A packing that goes on behind the header, if that was written and the fields are given.
body-Stays :
    {w : Writer} {bs : Text} (n : ℕ) (missing : Bool) (result bound len : ℕ) (mem : Text)
    → Emits w bs
    → length mem ≡ len
    → n + length bs ≤ len
    → result ≤ bound
    → Stays len bound (
        if n == 0
        then some (0, some mem)
        else if missing
        then some (0, some mem)
        else store_from n w result (some mem))
body-Stays n missing result bound len mem e k room le = elim (Bool-cases (n == 0)) [
  | inl z ↦ rw z (record { count = 0; memory = mem; result = refl; kept = k; small = omega arith })
  | inr z ↦ elim (Bool-cases missing) [
    | inl f ↦
        rw z
          (rw f (record { count = 0; memory = mem; result = refl; kept = k; small = omega arith }))
    | inr f ↦
        let s = store_from-Stays n result bound mem e (omega (arith, k)) le in
        rw z (
          rw f (record {
            count = s.count;
            memory = s.memory;
            result = s.result;
            kept = s.kept ∙ k;
            small = s.small;
          }))
  ]
]

pub subscription-Stays :
    (m : SubscriptionMsg) (mem : Text)
    → length m.header.p_uuid + 21 + length m.topic ≤ length mem
    → length m.header.p_uuid + 21 + length m.topic < 2 ^ 31
    → Stays
        (length mem)
        (length m.header.p_uuid + 21 + length m.topic)
        (Subscription.pack m (some mem))
unfolding Subscription.pack Subscription.get_msg_length get_header_length
subscription-Stays m mem room fits =
    let h = header-Stays m.header mem (omega arith) (omega arith) in
    rw (h.result, Subscription.pack)
      (body-Stays h.count (is_empty m.topic) _ _ _ h.memory (emit_text-Emits m.topic) h.kept
        (omega (arith, h.small, length-encode_text m.topic))
        (omega (arith, through_int_small (2 + 8 + length m.header.p_uuid + 1 + 2) (omega arith))))

pub base-Stays :
    (m : AdvertiseBase) (mem : Text)
    → length m.header.p_uuid + 46 + length m.topic + length m.addr + length m.ctrl + length m.n_uuid
      ≤ length mem
    → length m.header.p_uuid + 46 + length m.topic + length m.addr + length m.ctrl + length m.n_uuid
      < 2 ^ 31
    → Stays
        (length mem)
        (length m.header.p_uuid
          + 46
          + length m.topic
          + length m.addr
          + length m.ctrl
          + length m.n_uuid)
        (Base.pack m (some mem))
unfolding Base.pack Base.get_msg_length get_header_length
base-Stays m mem room fits =
    let h = header-Stays m.header mem (omega arith) (omega arith) in
    rw (h.result, Base.pack)
      (body-Stays h.count (is_empty m.topic || is_empty m.addr || is_empty m.n_uuid) _ _ _ h.memory
        (Shared.store_body-Emits m) h.kept (omega (arith, h.small, Shared.length-encode_body m))
        (omega (arith, through_int_small (2 + 8 + length m.header.p_uuid + 1 + 2) (omega arith))))

abbrev pub advertise_size : AdvertiseMsg → ℕ
advertise_size m =
    length m.header.p_uuid
    + 46
    + length m.topic
    + length m.addr
    + length m.ctrl
    + length m.n_uuid
    + 8
    + length m.msg_type_name

pub advertise-Stays :
    (m : AdvertiseMsg) (mem : Text)
    → advertise_size m ≤ length mem
    → advertise_size m < 2 ^ 31
    → Stays (length mem) (advertise_size m) (Msg.pack m (some mem))
unfolding Msg.pack Msg.get_msg_length Base.get_msg_length get_header_length
advertise-Stays m mem room fits =
    let b = base-Stays m.base mem (omega arith) (omega arith) in
    rw (b.result, Msg.pack)
      (body-Stays b.count (is_empty m.msg_type_name) _ _ _ b.memory (MsgTrip.store_names-Emits m)
        b.kept (omega (arith, b.small, MsgTrip.length-encode_names m))
        (omega (arith, through_int_small (2 + 8 + length m.header.p_uuid + 1 + 2) (omega arith))))
