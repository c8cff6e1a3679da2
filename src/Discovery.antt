-- ===== src/Discovery.antt =====
-- src/Discovery.cc: the state of the discovery service, and what it shows to the outside.
pub mod Settings
pub mod Elapsed
pub mod Send
pub mod Local
pub mod Dispatch
pub mod Tasks
pub mod Protocol
pub mod Withdrawal
pub mod Reachable
pub mod Ownership
pub mod Announce
pub mod Answers
pub mod Reception
use ign_transport_git.Base.{
  ℕ, Bool, true, false, not, ◌&&◌, ◌||◌, Option, none, some, [], Text, text_eq, if◌then◌else◌,
}
use ign_transport_git.Base.Map.{Map}
use ign_transport_git.TransportTypes.{Scope, process, host, all, unnamed, MsgType, msg, srv}
use ign_transport_git.TopicStorage.{TopicStorage}

-- `DiscoveryPrivate`: its data without the socket, the threads, the mutexes, `verbose` and the two
-- storages that no code uses. Of a callback the state keeps whether one is set; a call of it is an
-- event. The intervals are in milliseconds, the times of `activity` in nanoseconds.
pub record Discovery : Type 0 where
  pub host_addr : Text
  pub p_uuid : Text
  pub silence_interval : ℕ
  pub activity_interval : ℕ
  pub advertise_interval : ℕ
  pub heartbeat_interval : ℕ
  pub connection_cb : Bool
  pub disconnection_cb : Bool
  pub connection_srv_cb : Bool
  pub disconnection_srv_cb : Bool
  pub info_msg : TopicStorage
  pub info_srv : TopicStorage
  pub activity : Map ℕ
  pub exit : Bool

-- The constructor; `host_addr` is what `determineHost()` returns.
unfoldable pub init : Text → Text → Discovery
init p_uuid host_addr = record {
  host_addr = host_addr;
  p_uuid = p_uuid;
  silence_interval = 3000;
  activity_interval = 100;
  advertise_interval = 1000;
  heartbeat_interval = 1000;
  connection_cb = false;
  disconnection_cb = false;
  connection_srv_cb = false;
  disconnection_srv_cb = false;
  info_msg = [];
  info_srv = [];
  activity = [];
  exit = false;
}

pub data Callback : Type 0 where
  connection disconnection : MsgType → Callback

-- A datagram handed to the multicast socket, or a call of a client's callback with its topic,
-- address, control address, process UUID, node UUID and scope.
pub data Event : Type 0 where
  sent : Text → Event
  called : Callback → Text → Text → Text → Text → Text → Scope → Event

-- `storage = &this->dataPtr->infoMsg` or `infoSrv`.
abbrev pub storage : MsgType → Discovery → TopicStorage
storage msg d = d.info_msg
storage srv d = d.info_srv

abbrev pub set_storage : MsgType → TopicStorage → Discovery → Discovery
set_storage msg s d = record d { info_msg = s }
set_storage srv s d = record d { info_srv = s }

abbrev pub connection_set : MsgType → Discovery → Bool
connection_set msg d = d.connection_cb
connection_set srv d = d.connection_srv_cb

abbrev pub disconnection_set : MsgType → Discovery → Bool
disconnection_set msg d = d.disconnection_cb
disconnection_set srv d = d.disconnection_srv_cb

abbrev pub is_process : Scope → Bool
is_process process = true
is_process host = false
is_process all = false
is_process (unnamed v) = false

abbrev pub is_host : Scope → Bool
is_host process = false
is_host host = true
is_host all = false
is_host (unnamed v) = false

-- The test on the scope of a received advertisement, and on that of an answer.
abbrev pub out_of_scope : Scope → Text → Discovery → Bool
out_of_scope scope from_ip d =
    is_process scope || (is_host scope && not (text_eq from_ip d.host_addr))
