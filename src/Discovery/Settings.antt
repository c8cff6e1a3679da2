-- ===== src/Discovery/Settings.antt =====
-- The accessors of src/Discovery.cc: intervals, callbacks and lists. Of a callback only whether it
-- can be called is given.
use ign_transport_git.Base.{ℕ, Bool, Option, List, Text}
use ign_transport_git.TransportTypes.{Addresses}
use ign_transport_git.TopicStorage
use ign_transport_git.TopicStorage.{get_addresses}
use ign_transport_git.Discovery.{Discovery}

abbrev pub get_msg_addresses : Text → Discovery → Option Addresses
get_msg_addresses topic d = get_addresses topic d.info_msg

abbrev pub get_srv_addresses : Text → Discovery → Option Addresses
get_srv_addresses topic d = get_addresses topic d.info_srv

abbrev pub get_host_addr : Discovery → Text
get_host_addr d = d.host_addr

abbrev pub get_activity_interval : Discovery → ℕ
get_activity_interval d = d.activity_interval

abbrev pub get_heartbeat_interval : Discovery → ℕ
get_heartbeat_interval d = d.heartbeat_interval

abbrev pub get_advertise_interval : Discovery → ℕ
get_advertise_interval d = d.advertise_interval

abbrev pub get_silence_interval : Discovery → ℕ
get_silence_interval d = d.silence_interval

abbrev pub set_activity_interval : ℕ → Discovery → Discovery
set_activity_interval ms d = record d { activity_interval = ms }

abbrev pub set_heartbeat_interval : ℕ → Discovery → Discovery
set_heartbeat_interval ms d = record d { heartbeat_interval = ms }

abbrev pub set_advertise_interval : ℕ → Discovery → Discovery
set_advertise_interval ms d = record d { advertise_interval = ms }

abbrev pub set_silence_interval : ℕ → Discovery → Discovery
set_silence_interval ms d = record d { silence_interval = ms }

abbrev pub set_connections_cb : Bool → Discovery → Discovery
set_connections_cb cb d = record d { connection_cb = cb }

abbrev pub set_disconnections_cb : Bool → Discovery → Discovery
set_disconnections_cb cb d = record d { disconnection_cb = cb }

abbrev pub set_connections_srv_cb : Bool → Discovery → Discovery
set_connections_srv_cb cb d = record d { connection_srv_cb = cb }

abbrev pub set_disconnections_srv_cb : Bool → Discovery → Discovery
set_disconnections_srv_cb cb d = record d { disconnection_srv_cb = cb }

-- The vector after the call, which appends to what it holds.
abbrev pub get_topic_list : List Text → Discovery → List Text
get_topic_list topics d = TopicStorage.get_topic_list topics d.info_msg

abbrev pub get_service_list : List Text → Discovery → List Text
get_service_list services d = TopicStorage.get_topic_list services d.info_srv
