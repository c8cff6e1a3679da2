-- ===== src/Discovery/Local.antt =====
-- The calls of src/Discovery.cc that this process makes: `Advertise`, `Unadvertise`, `Discover`.
use ign_transport_git.Base.{
  ℕ, ◌&&◌, Option, none, some, ◌>>=◌, List, [], ◌∷◌, ◌++◌, get_or, if◌then◌else◌, Text,
}
use ign_transport_git.TransportTypes.{Scope, all, MsgType, msg, srv, Address, Addresses}
use ign_transport_git.TopicStorage.{
  add_address, get_address, get_addresses, has_topic, del_address_by_node,
}
use ign_transport_git.Packet.Header
use ign_transport_git.Discovery.{
  Discovery, Event, called, connection, storage, set_storage, connection_set, is_process,
}
use ign_transport_git.Discovery.Send.{send_msg}

abbrev pub adv_type_of : MsgType → ℕ
adv_type_of msg = Header.adv_type
adv_type_of srv = Header.adv_srv_type

abbrev pub unadv_type_of : MsgType → ℕ
unadv_type_of msg = Header.unadv_type
unadv_type_of srv = Header.unadv_srv_type

abbrev pub sub_type_of : MsgType → ℕ
sub_type_of msg = Header.sub_type
sub_type_of srv = Header.sub_srv_type

-- The state after the call, and what it showed to the outside.
abbrev pub Step : Type 0
Step = Option (Discovery × List Event)

unfoldable pub advertise : MsgType → Text → Text → Text → Text → Scope → Discovery → Step
advertise kind topic addr ctrl n_uuid scope d =
    let s = (add_address topic addr ctrl d.p_uuid n_uuid scope (storage kind d)).0 in
    let d' : Discovery = set_storage kind s d in
    if is_process scope then some (d', []) else do
      events ← send_msg d' (adv_type_of kind) topic addr ctrl n_uuid scope 0
      some (d', events)

-- The rest of `Unadvertise`, once the node's publisher is found.
unfoldable pub withdraw : MsgType → Text → Text → Address → Discovery → Step
withdraw kind topic n_uuid inf d =
    let s = (del_address_by_node topic d.p_uuid n_uuid (storage kind d)).0 in
    let d' : Discovery = set_storage kind s d in
    if is_process inf.scope then some (d', []) else do
      events ← send_msg d' (unadv_type_of kind) topic inf.addr inf.ctrl n_uuid inf.scope 0
      some (d', events)

unfoldable pub unadvertise : MsgType → Text → Text → Discovery → Step
unadvertise kind topic n_uuid d = elim (get_address topic d.p_uuid n_uuid (storage kind d)) [
  | none ↦ some (d, [])
  | some inf ↦ withdraw kind topic n_uuid inf d
]

unfoldable pub call_nodes : MsgType → Text → Text → List Address → List Event
call_nodes kind topic p_uuid [] = []
call_nodes kind topic p_uuid (node ∷ v) =
    called (connection kind) topic node.addr node.ctrl p_uuid node.n_uuid node.scope
    ∷ call_nodes kind topic p_uuid v

unfoldable pub call_processes : MsgType → Text → Addresses → List Event
call_processes kind topic [] = []
call_processes kind topic ((p, v) ∷ m) = call_nodes kind topic p v ++ call_processes kind topic m

unfoldable pub discover : MsgType → Text → Discovery → Step
discover kind topic d = do
  events ← send_msg d (sub_type_of kind) topic [] [] [] all 0
  let known : List Event =
      if has_topic topic (storage kind d) && connection_set kind d
      then call_processes kind topic (get_or (get_addresses topic (storage kind d)) [])
      else []
  some (d, events ++ known)
