-- ===== src/Tests/Nodes.antt =====
-- Two processes with nodes of src/Node.cc, over src/NodeShared.cc.
use ign_transport_git.Base.{
  Bool, true, ◌≡◌, refl, some, [], ◌∷◌, ◌++◌, if◌then◌else◌, Text, text_eq, bytes,
}
use ign_transport_git.Base.Map.{find, erase}
use ign_transport_git.TransportTypes.{all, Address}
use ign_transport_git.TopicUtils.{
  is_valid_namespace, is_valid_topic, get_fully_qualified_name, normal_partition, normal_ns,
  relative_name, drop_trailing_slash, has_char, has_double_slash, ends_with_slash,
  starts_with_slash, root_partition, pop_back, add_trailing_slash, add_leading_slash,
}
use ign_transport_git.TopicStorage.{has_address, add_address, has_topic, get_addresses}
use ign_transport_git.TopicStorage.Spec.{publishers}
use ign_transport_git.HandlerStorage.{has_handlers_for_topic, remove_handlers_for_node}
use ign_transport_git.Packet.Header
use ign_transport_git.Discovery.{init}
use ign_transport_git.Zmq.{
  attempt, subscriber, subscribe, Call, publisher, dealer, connect, unsubscribe, send_all,
}
use ign_transport_git.Handlers.{SubscriptionHandler}
use ign_transport_git.NodeShared.{NodeShared, zmqs, notices}
use ign_transport_git.NodeShared.Receive.{
  data_frames, recv_msg_update, recv_control_update, to_string,
}
use ign_transport_git.NodeShared.Connections.{on_new_connection}
use ign_transport_git.NodeShared.Connections.Subscribers.{AreKnown}
use ign_transport_git.NodeShared.Connections.Greetings.{
  send_each, control_messages, subscribers, recv_controls, on_new_connection-recv_control_update,
}
use ign_transport_git.Node.{Node, publish, local_notices, unsubscribe_from}
use ign_transport_git.Node.Delivery.{publish-recv_msg_update}
use ign_transport_git.Node.Farewell.{messages_to, unsubscribe_from-recv_control_update}

-- No call of 0MQ throws.
abbrev pub returning : Call → Bool
returning c = true

-- The name that a node in no partition gives to `t`.
abbrev pub full : Text
full = bytes "@@/t"

pub full_lem : get_fully_qualified_name [] [] (bytes "t") ≡ some full
unfolding get_fully_qualified_name is_valid_namespace text_eq has_char has_double_slash
    is_valid_topic normal_partition drop_trailing_slash ends_with_slash root_partition
    starts_with_slash relative_name pop_back normal_ns add_trailing_slash add_leading_slash
full_lem = refl

-- Messages are texts, and serialized as they are.
abbrev handler : SubscriptionHandler Text
handler = record { h_uuid = bytes "h"; n_uuid = bytes "n2"; cb = true; create_msg = λ x. x }

abbrev pub process : Text → Text → NodeShared Text
process p_uuid data_ep = record {
  my_address = data_ep;
  my_control_address = bytes "c";
  my_requester_address = bytes "q";
  my_replier_address = bytes "r";
  host_addr = bytes "10.0.0.1";
  p_uuid = p_uuid;
  response_receiver_id = bytes "id1";
  replier_id = bytes "id2";
  discovery = init p_uuid (bytes "10.0.0.1");
  connections = [];
  srv_connections = [];
  remote_subscribers = [];
  local_subscriptions = [];
  repliers = [];
  requests = [];
}

abbrev subscriber_address : Address
subscriber_address = record { addr = []; ctrl = []; n_uuid = bytes "n2"; scope = all }

-- The process of the publisher, which knows the subscriber.
abbrev sender : NodeShared Text
sender = record (process (bytes "p1") (bytes "a1")) {
  remote_subscribers = (full, (bytes "p2", subscriber_address ∷ []) ∷ []) ∷ [];
}

abbrev publisher_address : Address
publisher_address = record {
  addr = bytes "a1";
  ctrl = bytes "c1";
  n_uuid = bytes "n1";
  scope = all;
}

-- The process of the subscriber, which knows the publisher.
abbrev pub receiver : NodeShared Text
receiver = record (process (bytes "p2") (bytes "a2")) {
  local_subscriptions = (full, (bytes "n2", (bytes "h", handler) ∷ []) ∷ []) ∷ [];
  discovery = record (init (bytes "p2") (bytes "10.0.0.1")) {
    info_msg = (full, (bytes "p1", publisher_address ∷ []) ∷ []) ∷ [];
  };
}

abbrev pub node : Node
node = record {
  topics_subscribed = [];
  topics_advertised = (full, tt) ∷ [];
  srvs_advertised = [];
  n_uuid = bytes "n1";
  partition = [];
  ns = [];
}

publish-recv_msg_update_example :
    (publish returning (λ m. m) (bytes "t") (bytes "hi") node sender
      ≡ some (
        node,
        sender,
        true,
        notices (local_notices full (bytes "hi") sender)
            ++ (if has_topic full sender.remote_subscribers
                then zmqs
                    (attempt returning
                      (send_all publisher (data_frames full (bytes "hi") sender))).0
                else []),
      ))
    × (recv_msg_update (data_frames full (bytes "hi") sender) receiver
        ≡ some (notices (local_notices full (bytes "hi") receiver)))
unfolding find text_eq
publish-recv_msg_update_example =
    publish-recv_msg_update returning (λ m. m) (bytes "t") full (bytes "hi") node sender receiver
      full_lem refl ((refl, tt), tt)

on_new_connection-recv_control_update_example :
    (on_new_connection returning full
        (bytes "a1")
        (bytes "c1")
        (bytes "p1")
        (bytes "n1")
        all
        receiver
      ≡ some (
        record receiver {
          connections =
              (add_address full (bytes "a1") (bytes "c1") (bytes "p1") (bytes "n1") all []).0;
        },
        zmqs (
            ((if has_address (bytes "a1") receiver.connections
                then []
                else connect subscriber (bytes "a1") ∷ [])
              ++ subscribe full ∷ [])
            ++ (connect (dealer (bytes "c1")) (bytes "c1")
                ∷ send_each (dealer (bytes "c1")) (
                    control_messages full
                      (bytes "p2")
                      (to_string Header.new_connection)
                      (subscribers full receiver)))),
      ))
    × (b' : NodeShared Text) × (recv_controls
          (control_messages full
            (bytes "p2")
            (to_string Header.new_connection)
            (subscribers full receiver))
          (process (bytes "p1") (bytes "a1"))
        ≡ some b')
    × (has_topic full b'.remote_subscribers ≡ true)
    × AreKnown full (bytes "p2") (subscribers full receiver) b'.remote_subscribers
unfolding find text_eq has_handlers_for_topic
on_new_connection-recv_control_update_example =
    on_new_connection-recv_control_update returning full (bytes "a1") (bytes "c1") (bytes "p1")
      (bytes "n1") all receiver (process (bytes "p1") (bytes "a1")) (λ c. refl)
      ((tt, tt), ((refl, ((tt, tt), ((refl, (tt, tt)), tt))), tt)) refl refl

-- The publisher's process keeps the subscriber that said goodbye.
unsubscribe_from-recv_control_update_example :
    (unsubscribe_from returning (bytes "t") node receiver
      ≡ some (
        record node { topics_subscribed = erase full [] },
        record receiver {
          local_subscriptions =
              (remove_handlers_for_node full (bytes "n1") receiver.local_subscriptions).0;
        },
        true,
        zmqs (
            (if has_handlers_for_topic full
                (remove_handlers_for_node full (bytes "n1") receiver.local_subscriptions).0
              then []
              else unsubscribe full ∷ [])
            ++ messages_to
                (full ∷ bytes "a2" ∷ bytes "n1" ∷ to_string Header.end_connection ∷ [])
                ((bytes "p1", publisher_address ∷ []) ∷ [])),
      ))
    × (b' : NodeShared Text) × (recv_control_update
          (full ∷ bytes "a2" ∷ bytes "n1" ∷ to_string Header.end_connection ∷ [])
          sender
        ≡ some b')
    × (publishers full (bytes "p2") b'.remote_subscribers
        ≡ publishers full (bytes "p2") sender.remote_subscribers)
unfolding find text_eq get_addresses init
unsubscribe_from-recv_control_update_example =
    unsubscribe_from-recv_control_update returning (bytes "t") full full (bytes "p2") node receiver
      sender (λ c. refl) full_lem refl refl
