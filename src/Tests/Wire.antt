-- ===== src/Tests/Wire.antt =====
-- Concrete messages of src/Packet.cc.
use ign_transport_git.Base.{
  ◌+◌, ◌≡◌, refl, none, some, ◌++◌, arith, length, drop, replicate, Text, bytes,
}
use ign_transport_git.TransportTypes.{all}
use ign_transport_git.Packet.Bytes.{le, encode_text}
use ign_transport_git.Packet.Header
use ign_transport_git.Packet.Header.{Header}
use ign_transport_git.Packet.Header.RoundTrip as HeaderTrip
use ign_transport_git.Packet.Header.Overrun.{unpack_overrun}
use ign_transport_git.Packet.Subscription
use ign_transport_git.Packet.Subscription.{SubscriptionMsg}
use ign_transport_git.Packet.Subscription.RoundTrip as SubTrip
use ign_transport_git.Packet.Advertise.Base.{AdvertiseBase, intscope, scope_of}
use ign_transport_git.Packet.Advertise.Base.Laws as Shared
use ign_transport_git.Packet.Advertise.Msg
use ign_transport_git.Packet.Advertise.Msg.{AdvertiseMsg}
use ign_transport_git.Packet.Advertise.Msg.RoundTrip as MsgTrip
use ign_transport_git.Packet.Advertise.Srv
use ign_transport_git.Packet.Advertise.Srv.{AdvertiseSrv}
use ign_transport_git.Packet.Advertise.Srv.RoundTrip as SrvTrip

abbrev header : Header
header = record { version = 1; p_uuid = bytes "p1"; type = Header.adv_type; flags = 0 }

pub header-IsValid : HeaderTrip.IsValid header
header-IsValid = record {
  version-lt = omega arith;
  type-lt = omega arith;
  flags-lt = omega arith;
  length-lt = omega arith;
}

unpack-pack_example :
    (mem' : Text) × (Header.pack header (some (replicate 20 0)) ≡ some (15, some mem'))
    × (Header.unpack Header.default (some mem') ≡ some (header, 15))
unfolding Header.is_incomplete
unpack-pack_example =
    HeaderTrip.unpack-pack header Header.default (replicate 20 0) header-IsValid refl (omega arith)

unpack_overrun_example :
    Header.unpack Header.default (some (le 2 1 ++ (le 8 1000 ++ bytes "p1"))) ≡ none
unpack_overrun_example =
    unpack_overrun Header.default 1 1000 (bytes "p1") (omega arith) (omega arith) (omega arith)

abbrev base : AdvertiseBase
base = record {
  header = header;
  topic = bytes "/foo";
  addr = bytes "tcp://a:1";
  ctrl = bytes "tcp://a:2";
  n_uuid = bytes "n1";
  scope = all;
}

base-IsPackable : Shared.IsPackable base
unfolding Header.is_incomplete scope_of intscope
base-IsPackable = record {
  header-IsValid = header-IsValid;
  header_complete = refl;
  body_complete = refl;
  scope-byte = refl;
  total = omega arith;
}

abbrev adv : AdvertiseMsg
adv = record { base = base; msg_type_name = bytes "msgs.Int32" }

adv-IsPackable : MsgTrip.IsPackable adv
unfolding MsgTrip.encode_msg HeaderTrip.encode le encode_text Shared.encode_body
    MsgTrip.encode_names
adv-IsPackable = record {
  base-IsPackable = base-IsPackable;
  names_given = refl;
  total = omega arith;
}

-- A buffer with room for all of it, with old contents.
abbrev memory : Text
memory = replicate 200 7

advertise_unpack_body-pack_example :
    (mem' : Text) × (Msg.pack adv (some memory) ≡ some (length (MsgTrip.encode_msg adv), some mem'))
    × (Header.unpack Header.default (some mem') ≡ some (header, length (HeaderTrip.encode header)))
    × (Msg.unpack_body Msg.default (some (drop (length (HeaderTrip.encode header)) mem'))
        ≡ some (
          MsgTrip.with_body Msg.default adv,
          length (Shared.encode_body base) + length (MsgTrip.encode_names adv),
        ))
unfolding MsgTrip.encode_msg HeaderTrip.encode le encode_text Shared.encode_body
    MsgTrip.encode_names
advertise_unpack_body-pack_example =
    MsgTrip.advertise_unpack_body-pack adv Msg.default Header.default memory adv-IsPackable
      (omega arith)

abbrev offer : AdvertiseSrv
offer = record { base = base; req_type_name = bytes "Req"; rep_type_name = bytes "Rep" }

offer-IsPackable : SrvTrip.IsPackable offer
unfolding SrvTrip.encode_msg HeaderTrip.encode le encode_text Shared.encode_body
    SrvTrip.encode_names
offer-IsPackable = record {
  base-IsPackable = base-IsPackable;
  names_given = refl;
  total = omega arith;
}

service_unpack_body-pack_example :
    (mem' : Text) × (Srv.pack offer (some memory)
      ≡ some (length (SrvTrip.encode_msg offer), some mem'))
    × (Header.unpack Header.default (some mem') ≡ some (header, length (HeaderTrip.encode header)))
    × (Srv.unpack_body Srv.default (some (drop (length (HeaderTrip.encode header)) mem'))
        ≡ some (
          SrvTrip.with_body Srv.default offer,
          length (Shared.encode_body base) + length (SrvTrip.encode_names offer),
        ))
unfolding SrvTrip.encode_msg HeaderTrip.encode le encode_text Shared.encode_body
    SrvTrip.encode_names
service_unpack_body-pack_example =
    SrvTrip.service_unpack_body-pack offer Srv.default Header.default memory offer-IsPackable
      (omega arith)

abbrev sub : SubscriptionMsg
sub = record { header = header; topic = bytes "/foo" }

sub-IsPackable : SubTrip.IsPackable sub
unfolding Header.is_incomplete
sub-IsPackable = record {
  header-IsValid = header-IsValid;
  header_complete = refl;
  topic_given = refl;
  total = omega arith;
}

subscription_unpack_body-pack_example :
    (mem' : Text) × (Subscription.pack sub (some memory) ≡ some (27, some mem'))
    × (Header.unpack Header.default (some mem') ≡ some (header, 15))
    × (Subscription.unpack_body Subscription.default (some (drop 15 mem'))
        ≡ some (record Subscription.default { topic = bytes "/foo" }, 12))
subscription_unpack_body-pack_example =
    SubTrip.subscription_unpack_body-pack sub Subscription.default Header.default memory
      sub-IsPackable (omega arith)
