-- ===== src/Discovery/Announce.antt =====
-- The advertisement of a publisher of the process itself, as src/Discovery.cc sends it in answers
-- and with heartbeats.
use ign_transport_git.Base.{◌≡◌, refl, true, some, [], ◌∷◌, Text}
use ign_transport_git.TransportTypes.{MsgType, msg, srv, Address}
use ign_transport_git.Packet.Advertise.Msg.{AdvertiseMsg}
use ign_transport_git.Packet.Advertise.Msg.RoundTrip as MsgTrip
use ign_transport_git.Discovery.{Discovery, Event, sent}
use ign_transport_git.Discovery.Send.{is_advertise_type, make_advertise, send_msg}
use ign_transport_git.Discovery.Send.Laws.{send_msg_advertise}
use ign_transport_git.Discovery.Local.{adv_type_of}

abbrev pub announcement : MsgType → Text → Address → Discovery → AdvertiseMsg
announcement kind topic node d =
    make_advertise d (adv_type_of kind) topic node.addr node.ctrl node.n_uuid node.scope 0

-- The advertisement is complete and small enough.
abbrev pub IsAnnounceable : MsgType → Text → Address → Discovery → Type 0
IsAnnounceable kind topic node d = MsgTrip.IsPackable (announcement kind topic node d)

-- The datagram of the advertisement.
unfoldable pub announced : MsgType → Text → Address → Discovery → Event
announced kind topic node d = sent (MsgTrip.encode_msg (announcement kind topic node d))

adv_type_of_kind : (kind : MsgType) → is_advertise_type (adv_type_of kind) ≡ true
adv_type_of_kind msg = refl
adv_type_of_kind srv = refl

pub send_msg-announced :
    (kind : MsgType) (topic : Text) (node : Address) (d : Discovery)
    → IsAnnounceable kind topic node d
    → send_msg d (adv_type_of kind) topic node.addr node.ctrl node.n_uuid node.scope 0
      ≡ some (announced kind topic node d ∷ [])
unfolding announced
send_msg-announced kind topic node d v =
    send_msg_advertise d (adv_type_of kind) topic node.addr node.ctrl node.n_uuid node.scope 0
      (adv_type_of_kind kind) v
