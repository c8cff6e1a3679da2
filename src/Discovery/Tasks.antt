-- ===== src/Discovery/Tasks.antt =====
-- The rounds of `Discovery::RunActivityTask` and `Discovery::RunHeartbeatTask`, under their lock.
pub mod Expiry
pub mod Heartbeat
pub mod Patience
use ign_transport_git.Base.{
  ℕ, Bool, ◌-◌, ◌/◌, Option, none, some, ◌>>=◌, List, [], ◌∷◌, ◌++◌, ltb, if◌then◌else◌, Text,
}
use ign_transport_git.Base.Map.{Map, erase}
use ign_transport_git.TransportTypes.{all, MsgType, msg, srv, Address}
use ign_transport_git.TopicStorage.{del_addresses_by_proc, get_addresses_by_proc}
use ign_transport_git.Packet.Header
use ign_transport_git.Discovery.{Discovery, Event, called, disconnection, storage}
use ign_transport_git.Discovery.Elapsed.{elapsed_ms}
use ign_transport_git.Discovery.Send.{send_msg}
use ign_transport_git.Discovery.Local.{Step, adv_type_of}

-- The elapsed time, cast to milliseconds, is above the silence interval.
abbrev pub is_expired : ℕ → ℕ → Discovery → Bool
is_expired now last d = ltb d.silence_interval (elapsed_ms (now - last))

-- What the round does about one expired publisher; `none` is the exception of a call through an
-- empty `disconnectionCb`, which is not tested here.
unfoldable pub expire : Text → Discovery → Step
expire p_uuid d =
    if d.disconnection_cb
    then some (
      record d {
        info_msg = (del_addresses_by_proc p_uuid d.info_msg).0;
        info_srv = (del_addresses_by_proc p_uuid d.info_srv).0;
        activity = erase p_uuid d.activity;
      },
      called (disconnection msg) [] [] [] p_uuid [] all ∷ [],
    )
    else none

-- The loop over the entries of `activity`.
unfoldable pub activity_loop : ℕ → Map ℕ → Discovery → Step
activity_loop now [] d = some (d, [])
activity_loop now ((p_uuid, last) ∷ entries) d =
    if is_expired now last d
    then elim (expire p_uuid d) [
      | none ↦ none
      | some (d', events) ↦ elim (activity_loop now entries d') [
        | none ↦ none
        | some (d'', more) ↦ some (d'', events ++ more)
      ]
    ]
    else activity_loop now entries d

unfoldable pub run_activity_round : ℕ → Discovery → Step
run_activity_round now d = activity_loop now d.activity d

unfoldable pub advertise_nodes : MsgType → Text → List Address → Discovery → Option (List Event)
advertise_nodes kind topic [] d = some []
advertise_nodes kind topic (node ∷ v) d =
    elim (send_msg d (adv_type_of kind) topic node.addr node.ctrl node.n_uuid node.scope 0) [
      | none ↦ none
      | some events ↦ elim (advertise_nodes kind topic v d) [
        | none ↦ none
        | some more ↦ some (events ++ more)
      ]
    ]

unfoldable pub advertise_topics : MsgType → Map (List Address) → Discovery → Option (List Event)
advertise_topics kind [] d = some []
advertise_topics kind ((topic, v) ∷ nodes) d = elim (advertise_nodes kind topic v d) [
  | none ↦ none
  | some events ↦ elim (advertise_topics kind nodes d) [
    | none ↦ none
    | some more ↦ some (events ++ more)
  ]
]

unfoldable pub run_heartbeat_round : Discovery → Option (List Event)
run_heartbeat_round d = do
  beat ← send_msg d Header.heartbeat_type [] [] [] [] all 0
  msgs ← advertise_topics msg (get_addresses_by_proc d.p_uuid d.info_msg) d
  srvs ← advertise_topics srv (get_addresses_by_proc d.p_uuid d.info_srv) d
  some (beat ++ (msgs ++ srvs))
