-- ===== src/Discovery/Dispatch.antt =====
-- `Discovery::DispatchDiscoveryMsg`: what a received datagram does.
pub mod Wire
pub mod Rule
use ign_transport_git.Base.{
  ℕ, Bool, true, false, ◌&&◌, ◌||◌, ◌==◌, Option, none, some, List, [], ◌∷◌, ◌++◌, drop, get_or,
  if◌then◌else◌, Text, text_eq,
}
use ign_transport_git.Base.Map.{find, insert, erase}
use ign_transport_git.TransportTypes.{Scope, all, MsgType, msg, srv, Address, Addresses}
use ign_transport_git.TopicStorage.{
  add_address, get_addresses, has_any_addresses, del_address_by_node, del_addresses_by_proc,
}
use ign_transport_git.Packet.Header
use ign_transport_git.Packet.Header.{Header, get_header_length}
use ign_transport_git.Packet.Subscription
use ign_transport_git.Packet.Subscription.{SubscriptionMsg}
use ign_transport_git.Packet.Advertise.Msg
use ign_transport_git.Packet.Advertise.Msg.{AdvertiseMsg}
use ign_transport_git.Discovery.{
  Discovery, Event, called, connection, disconnection, storage, set_storage, connection_set,
  disconnection_set, out_of_scope,
}
use ign_transport_git.Discovery.Send.{send_msg}
use ign_transport_git.Discovery.Local.{Step, adv_type_of}

-- The cases `AdvType` and `AdvSrvType`, once the body is unpacked.
unfoldable pub recv_advertise : MsgType → Text → Text → AdvertiseMsg → Discovery → Step
recv_advertise kind from_ip recv_p_uuid m d =
    if out_of_scope m.scope from_ip d
    then some (d, [])
    else let (s, added) =
        add_address m.topic m.addr m.ctrl recv_p_uuid m.n_uuid m.scope (storage kind d) in
      some (
        set_storage kind s d,
        if added && connection_set kind d
            then called (connection kind) m.topic m.addr m.ctrl recv_p_uuid m.n_uuid m.scope ∷ []
            else [],
      )

-- The loop over the publishers of the topic in this process.
unfoldable pub answer_all : MsgType → Text → Text → List Address → Discovery → Option (List Event)
answer_all kind from_ip topic [] d = some []
answer_all kind from_ip topic (node ∷ v) d = elim (answer_all kind from_ip topic v d) [
  | none ↦ none
  | some later ↦
      if out_of_scope node.scope from_ip d
      then some later
      else elim (send_msg d (adv_type_of kind) topic node.addr node.ctrl node.n_uuid node.scope 0) [
        | none ↦ none
        | some answer ↦ some (answer ++ later)
      ]
]

-- The cases `SubType` and `SubSrvType`, once the body is unpacked.
unfoldable pub recv_subscribe : MsgType → Text → SubscriptionMsg → Discovery → Step
recv_subscribe kind from_ip m d =
    if has_any_addresses m.topic d.p_uuid (storage kind d)
    then elim (answer_all kind from_ip m.topic
        (get_or (find d.p_uuid (get_or (get_addresses m.topic (storage kind d)) [])) []) d) [
          | none ↦ none
          | some events ↦ some (d, events)
        ]
    else some (d, [])

-- The callback of one kind for a process that is gone.
abbrev pub call_gone : MsgType → Text → Discovery → List Event
call_gone kind recv_p_uuid d =
    if disconnection_set kind d
    then called (disconnection kind) [] [] [] recv_p_uuid [] all ∷ []
    else []

-- The case `ByeType`.
unfoldable pub recv_bye : Text → Discovery → Step
recv_bye recv_p_uuid d = some (
  record d {
    activity = erase recv_p_uuid d.activity;
    info_msg = (del_addresses_by_proc recv_p_uuid d.info_msg).0;
    info_srv = (del_addresses_by_proc recv_p_uuid d.info_srv).0;
  },
  call_gone msg recv_p_uuid d ++ call_gone srv recv_p_uuid d,
)

-- The cases `UnadvType` and `UnadvSrvType`, once the body is unpacked.
unfoldable pub recv_unadvertise : MsgType → Text → Text → AdvertiseMsg → Discovery → Step
recv_unadvertise kind from_ip recv_p_uuid m d =
    if out_of_scope m.scope from_ip d
    then some (d, [])
    else some (
      set_storage kind (del_address_by_node m.topic recv_p_uuid m.n_uuid (storage kind d)).0 d,
      if disconnection_set kind d
          then called (disconnection kind) m.topic m.addr m.ctrl recv_p_uuid m.n_uuid m.scope ∷ []
          else [],
    )

-- `advMsg.UnpackBody(pBody)` into a default object, and what follows.
unfoldable pub with_advertise : Text → (AdvertiseMsg → Step) → Step
with_advertise body go = elim (Msg.unpack_body Msg.default (some body)) [
  | none ↦ none
  | some (m, n) ↦ go m
]

unfoldable pub with_subscription : Text → (SubscriptionMsg → Step) → Step
with_subscription body go = elim (Subscription.unpack_body Subscription.default (some body)) [
  | none ↦ none
  | some (m, n) ↦ go m
]

-- The `switch` on the type, where the header is another process's.
unfoldable pub dispatch_type : ℕ → Text → Text → Text → Discovery → Step
dispatch_type type from_ip recv_p_uuid body d =
    if type == Header.adv_type
    then with_advertise body (λ m. recv_advertise msg from_ip recv_p_uuid m d)
    else if type == Header.adv_srv_type
    then with_advertise body (λ m. recv_advertise srv from_ip recv_p_uuid m d)
    else if type == Header.sub_type
    then with_subscription body (λ m. recv_subscribe msg from_ip m d)
    else if type == Header.sub_srv_type
    then with_subscription body (λ m. recv_subscribe srv from_ip m d)
    else if type == Header.heartbeat_type
    then some (d, [])
    else if type == Header.bye_type
    then recv_bye recv_p_uuid d
    else if type == Header.unadv_type
    then with_advertise body (λ m. recv_unadvertise msg from_ip recv_p_uuid m d)
    else if type == Header.unadv_srv_type
    then with_advertise body (λ m. recv_unadvertise srv from_ip recv_p_uuid m d)
    else some (d, [])

-- `datagram` is the receive buffer; `now` is `steady_clock::now()`. `none` is a read past the
-- buffer's end, or a write past that of an answer.
unfoldable pub dispatch_discovery_msg : Text → Text → ℕ → Discovery → Step
dispatch_discovery_msg from_ip datagram now d =
    elim (Header.unpack Header.default (some datagram)) [
      | none ↦ none
      | some (header, n) ↦
          if text_eq header.p_uuid d.p_uuid
          then some (d, [])
          else dispatch_type header.type from_ip header.p_uuid
              (drop (get_header_length header) datagram)
              (record d { activity = insert header.p_uuid now d.activity })
    ]
