-- ===== src/Node/Farewell.antt =====
-- `Node::Unsubscribe` of src/Node.cc, and `RecvControlUpdate` of src/NodeShared.cc in the processes of
-- the publishers.
use ign_transport_git.Base.{
  refl, concat_map, Bool, true, false, ◌≡◌, some, List, [], ◌∷◌, ◌++◌, if◌then◌else◌, Text, text_eq,
  arith,
}
use ign_transport_git.Base.Map.{erase}
use ign_transport_git.TransportTypes.{Address, Addresses}
use ign_transport_git.TopicStorage.{del_address_by_node}
use ign_transport_git.TopicStorage.Spec.{publishers, publishers-del_address_by_node}
use ign_transport_git.HandlerStorage.{has_handlers_for_topic, remove_handlers_for_node}
use ign_transport_git.Packet.Header
use ign_transport_git.Zmq.{dealer, connect, send_all, Call, unsubscribe, attempt-all}
use ign_transport_git.Discovery.Settings.{get_msg_addresses}
use ign_transport_git.NodeShared.{NodeShared, zmqs}
use ign_transport_git.NodeShared.Receive.{to_string, recv_control_update, control_update}
use ign_transport_git.NodeShared.Receive.Numbers.{stoi-to_string}
use ign_transport_git.NodeShared.Connections.{control_frames}
use ign_transport_git.Node.{
  Node, full_name, farewell_proc, farewells, leave, unsubscribe_from, all_calls,
}

pub all_calls-all :
    (ok : Call → Bool) (calls : List Call)
    → ((c : Call) → ok c ≡ true)
    → all_calls ok calls ≡ some calls
unfolding all_calls
all_calls-all ok calls fine = rw (attempt-all ok calls fine)

-- To the control address of each publisher a connection is made and one message sent.
abbrev pub messages_to : List Text → Addresses → List Call
messages_to frames = concat_map (λ e.
    concat_map (λ node. connect (dealer node.ctrl) node.ctrl ∷ send_all (dealer node.ctrl) frames)
      e.1)

farewell_proc_lem :
    (full my_address n_uuid : Text) (v : List Address)
    → farewell_proc full my_address n_uuid v
      ≡ concat_map
          (λ node.
            connect (dealer node.ctrl) node.ctrl
            ∷ send_all
                (dealer node.ctrl)
                (control_frames full my_address n_uuid (to_string Header.end_connection)))
          v
unfolding farewell_proc
farewell_proc_lem full my_address n_uuid [] = refl
farewell_proc_lem full my_address n_uuid (node ∷ v) =
    rw (farewell_proc_lem full my_address n_uuid v)

farewells_lem :
    (full my_address n_uuid : Text) (addresses : Addresses)
    → farewells full my_address n_uuid addresses
      ≡ messages_to
          (control_frames full my_address n_uuid (to_string Header.end_connection))
          addresses
unfolding farewells
farewells_lem full my_address n_uuid [] = refl
farewells_lem full my_address n_uuid ((p, v) ∷ addresses) =
    rw (farewell_proc_lem full my_address n_uuid v, farewells_lem full my_address n_uuid addresses)

module _ {Msg : Type 0} where
  pub control_end_connection :
      (topic p n : Text) (s : NodeShared Msg)
      → recv_control_update (control_frames topic p n (to_string Header.end_connection)) s
        ≡ some (record s {
          remote_subscribers = (del_address_by_node topic p n s.remote_subscribers).0;
        })
  unfolding recv_control_update control_update
  control_end_connection topic p n s =
      rw (stoi-to_string Header.end_connection (omega arith), recv_control_update, control_update)

  -- `Unsubscribe` where publishers of the topic are known and no call of 0MQ throws: the node's handlers
  -- and its subscription are removed, the filter is, if no other node of the process has handlers, and
  -- at the control address of each publisher a connection is made and one message sent, whose frames
  -- are the full name, the process's data address, the node's UUID and the number of `EndConnection`.
  -- `RecvControlUpdate` reads the second frame as a process UUID. So this message makes the publisher's
  -- process forget no subscriber of a process whose UUID is not that address.
  pub unsubscribe_from-recv_control_update :
      (ok : Call → Bool) (topic full t p : Text) (n : Node) (a b : NodeShared Msg)
      {addresses : Addresses}
      → ((c : Call) → ok c ≡ true)
      → full_name topic n ≡ some full
      → get_msg_addresses full a.discovery ≡ some addresses
      → text_eq a.my_address p ≡ false
      → (unsubscribe_from ok topic n a
          ≡ some (
            record n { topics_subscribed = erase full n.topics_subscribed },
            record a {
              local_subscriptions =
                  (remove_handlers_for_node full n.n_uuid a.local_subscriptions).0;
            },
            true,
            zmqs (
                (if has_handlers_for_topic full
                    (remove_handlers_for_node full n.n_uuid a.local_subscriptions).0
                  then []
                  else unsubscribe full ∷ [])
                ++ messages_to
                    (full ∷ a.my_address ∷ n.n_uuid ∷ to_string Header.end_connection ∷ [])
                    addresses),
          ))
        × (b' : NodeShared Msg) × (recv_control_update
              (full ∷ a.my_address ∷ n.n_uuid ∷ to_string Header.end_connection ∷ [])
              b
            ≡ some b')
        × (publishers t p b'.remote_subscribers ≡ publishers t p b.remote_subscribers)
  unfolding unsubscribe_from leave
  unsubscribe_from-recv_control_update ok topic full t p n a b {addresses} fine name known other = (
    rw name (
        rw (known, leave)
          (rw (all_calls-all ok _ fine, farewells_lem full a.my_address n.n_uuid addresses))),
    _,
    control_end_connection full a.my_address n.n_uuid b,
    rw
        (
          (publishers-del_address_by_node full a.my_address n.n_uuid t p b.remote_subscribers).0,
          other,
        )
        (ground arith),
  )
