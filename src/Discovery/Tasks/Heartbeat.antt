-- ===== src/Discovery/Tasks/Heartbeat.antt =====
-- The rounds of `Discovery::RunHeartbeatTask`: what is sent.
use ign_transport_git.Base.{◌≡◌, refl, false, some, [], ◌∷◌, ◌++◌, List, All, Text}
use ign_transport_git.Base.Map.{Map}
use ign_transport_git.TransportTypes.{all, MsgType, msg, srv, Address}
use ign_transport_git.TopicStorage.{get_addresses_by_proc}
use ign_transport_git.Packet.Header
use ign_transport_git.Packet.Header.RoundTrip as HeaderTrip
use ign_transport_git.Discovery.{Discovery, Event, sent}
use ign_transport_git.Discovery.Send.{make_header}
use ign_transport_git.Discovery.Send.Laws.{send_msg_header}
use ign_transport_git.Discovery.Announce.{IsAnnounceable, announced, send_msg-announced}
use ign_transport_git.Discovery.Tasks.{advertise_nodes, advertise_topics, run_heartbeat_round}

-- One advertisement for each publisher, topic by topic, whatever its scope is.
unfoldable pub announced_nodes : MsgType → Text → List Address → Discovery → List Event
announced_nodes kind topic [] d = []
announced_nodes kind topic (node ∷ v) d =
    announced kind topic node d ∷ announced_nodes kind topic v d

unfoldable pub announced_topics : MsgType → Map (List Address) → Discovery → List Event
announced_topics kind [] d = []
announced_topics kind ((topic, v) ∷ nodes) d =
    announced_nodes kind topic v d ++ announced_topics kind nodes d

abbrev pub AreAnnounceable : MsgType → Map (List Address) → Discovery → Type 0
AreAnnounceable kind [] d = Unit
AreAnnounceable kind ((topic, v) ∷ nodes) d =
    All (λ node. IsAnnounceable kind topic node d) v × AreAnnounceable kind nodes d

advertise_nodes_lem :
    (kind : MsgType) (topic : Text) (v : List Address) (d : Discovery)
    → All (λ node. IsAnnounceable kind topic node d) v
    → advertise_nodes kind topic v d ≡ some (announced_nodes kind topic v d)
unfolding advertise_nodes announced_nodes
advertise_nodes_lem kind topic [] d h = refl
advertise_nodes_lem kind topic (node ∷ v) d h =
    rw (send_msg-announced kind topic node d h.0, advertise_nodes)
      (rw (advertise_nodes_lem kind topic v d h.1))

advertise_topics_lem :
    (kind : MsgType) (nodes : Map (List Address)) (d : Discovery)
    → AreAnnounceable kind nodes d
    → advertise_topics kind nodes d ≡ some (announced_topics kind nodes d)
unfolding advertise_topics announced_topics
advertise_topics_lem kind [] d h = refl
advertise_topics_lem kind ((topic, v) ∷ nodes) d h =
    rw (advertise_nodes_lem kind topic v d h.0, advertise_topics)
      (rw (advertise_topics_lem kind nodes d h.1))

-- A round sends one heartbeat, and then one advertisement for each publisher of the process itself,
-- first of its topics and then of its services, whatever the publisher's scope is. This is so where
-- the process UUID is given and fits an `int`, and each advertisement is complete and small enough.
pub run_heartbeat_round_lem :
    (d : Discovery)
    → HeaderTrip.IsValid (make_header d Header.heartbeat_type 0)
    → Header.is_incomplete (make_header d Header.heartbeat_type 0) ≡ false
    → AreAnnounceable msg (get_addresses_by_proc d.p_uuid d.info_msg) d
    → AreAnnounceable srv (get_addresses_by_proc d.p_uuid d.info_srv) d
    → run_heartbeat_round d
      ≡ some (
          sent (HeaderTrip.encode (make_header d Header.heartbeat_type 0))
          ∷ (announced_topics msg (get_addresses_by_proc d.p_uuid d.info_msg) d
              ++ announced_topics srv (get_addresses_by_proc d.p_uuid d.info_srv) d))
unfolding run_heartbeat_round
run_heartbeat_round_lem d v c msgs srvs = rw (
  send_msg_header d Header.heartbeat_type [] [] [] [] all 0 refl refl refl v c,
  advertise_topics_lem msg _ d msgs,
  advertise_topics_lem srv _ d srvs,
)
