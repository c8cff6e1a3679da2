-- ===== src/Tests/Lifetimes.antt =====
-- Nodes of src/Node.cc from their first call to their destructor.
use ign_transport_git.Base.{
  none, true, not, ◌&&◌, ◌≡◌, refl, some, [], ◌∷◌, List, if◌then◌else◌, Text, text_eq, bytes,
}
use ign_transport_git.Base.Map.{find, insert, insert_new}
use ign_transport_git.TransportTypes as Types
use ign_transport_git.TransportTypes.{all, Address}
use ign_transport_git.TopicUtils.{
  is_valid_namespace, is_valid_topic, get_fully_qualified_name, normal_partition, normal_ns,
  relative_name, drop_trailing_slash, has_char, has_double_slash, ends_with_slash,
  starts_with_slash, root_partition, pop_back, add_trailing_slash, add_leading_slash,
}
use ign_transport_git.TopicStorage.{add_address, get_address, get_topic_list}
use ign_transport_git.HandlerStorage.{remove_handlers_for_node}
use ign_transport_git.Handlers.{topic_name, after_last}
use ign_transport_git.Handlers.Names.{get_fully_qualified_name-topic_name}
use ign_transport_git.Discovery.{init}
use ign_transport_git.Discovery.Local
use ign_transport_git.NodeShared.{NodeShared, Effect}
use ign_transport_git.NodeShared.Callbacks.{init_shared, with_discovery, run_events}
use ign_transport_git.NodeShared.Invariant.{IsValid}
use ign_transport_git.Node
use ign_transport_git.Node.{Node, advertise}
use ign_transport_git.Node.Services.{unadvertise_srv}
use ign_transport_git.Node.Lists
use ign_transport_git.Node.Lists.{subscribed_topics, advertised_topics, advertised_services}
use ign_transport_git.Node.Lists.Partitions.{get_topic_list_of_partition}
use ign_transport_git.Node.Lifetime.{destroy}
use ign_transport_git.Node.Lifetime.Names.{AreOwn, full_name-IsOwn}
use ign_transport_git.Node.Lifetime.Withdrawals.{Fits}
use ign_transport_git.Node.Lifetime.Ends.{drop_service, unadvertise_srv_leaves_services}
use ign_transport_git.Node.Lifetime.Destructor.{destroy_returns}
use ign_transport_git.Node.Running
use ign_transport_git.Node.Running.{Running-IsValid}
use ign_transport_git.Node.Running.Calls.{advertise_call, run_call}
use ign_transport_git.Node.Running.Names.{created, called, Living-AreOwn}
use ign_transport_git.Tests.Nodes.{returning, full, full_lem, process, node}

get_fully_qualified_name-topic_name_example :
    get_fully_qualified_name [] [] (bytes "/t") ≡ some full
unfolding topic_name after_last has_char
get_fully_qualified_name-topic_name_example =
    get_fully_qualified_name-topic_name [] [] (bytes "t") full_lem

link : Address
link = record { addr = bytes "a1"; ctrl = bytes "c1"; n_uuid = bytes "n1"; scope = all }

-- A process that knows of the topic.
abbrev informed : NodeShared Text
informed = record (process (bytes "p1") (bytes "a1")) {
  discovery = record (init (bytes "p1") (bytes "10.0.0.1")) {
    info_msg = (full, (bytes "p2", link ∷ []) ∷ []) ∷ [];
  };
}

get_topic_list_of_partition_example :
    Lists.get_topic_list node informed
    ≡ some (
        if not (starts_with_slash []) && not (ends_with_slash []) then topic_name full ∷ [] else [])
unfolding get_topic_list
get_topic_list_of_partition_example =
    get_topic_list_of_partition node informed (([], bytes "t", full_lem), tt)

own : AreOwn node
own = (tt, (full_name-IsOwn (bytes "t") node full_lem, tt), tt)

fits : Fits (bytes "n1") (init (bytes "p1") (bytes "10.0.0.1"))
unfolding init get_address find
fits t inf h = cc

destroy_returns_example :
    (n' : Node) × (s' : NodeShared Text) × (effects : List (Effect Text)) × (destroy returning node
        (process (bytes "p1") (bytes "a1"))
      ≡ some (n', s', effects))
    × (subscribed_topics n' ≡ [])
    × (advertised_topics n' ≡ [])
    × (advertised_services n' ≡ [])
destroy_returns_example =
    destroy_returns returning node (process (bytes "p1") (bytes "a1")) (λ c. refl) own fits

unadvertise_srv_leaves_services_example :
    (s' : NodeShared Text) × (effects : List (Effect Text)) × (unadvertise_srv returning
        (bytes "t")
        node
        (process (bytes "p1") (bytes "a1"))
      ≡ some (drop_service full node, s', true, effects))
    × (s'.repliers ≡ (remove_handlers_for_node full (bytes "n1") []).0)
    × (s'.discovery.info_srv ≡ (init (bytes "p1") (bytes "10.0.0.1")).info_srv)
unadvertise_srv_leaves_services_example =
    unadvertise_srv_leaves_services returning (bytes "t") full node
      (process (bytes "p1") (bytes "a1")) full_lem fits

-- A node that has not called anything yet advertises a topic within its process.
abbrev fresh : Node
fresh = record node { topics_advertised = [] }

abbrev begun : NodeShared Text
begun =
    init_shared (bytes "p1") (bytes "10.0.0.1") (bytes "a1") (bytes "c") (bytes "q") (bytes "r")
      (bytes "id1") (bytes "id2")

abbrev registered : NodeShared Text
registered = record begun {
  discovery = record begun.discovery {
    info_msg =
        (add_address full begun.my_address begun.my_control_address begun.discovery.p_uuid
          (bytes "n1") Types.process []).0;
  };
}

call_returns :
    run_call returning (advertise_call (bytes "t") Types.process) fresh begun
    ≡ some (node, registered, true, [])
unfolding run_call advertise with_discovery Local.advertise run_events init_shared init
    get_fully_qualified_name is_valid_namespace text_eq has_char has_double_slash is_valid_topic
    normal_partition drop_trailing_slash ends_with_slash root_partition starts_with_slash
    relative_name pop_back normal_ns add_trailing_slash add_leading_slash insert_new insert find
call_returns = refl

-- The node as its constructor leaves it.
fresh-init : Node.init none (bytes "n1") ≡ fresh
unfolding Node.init
fresh-init = refl

Living-AreOwn_example : AreOwn node
unfolding Node.init
Living-AreOwn_example = Living-AreOwn {Msg = Text} node (
    called begun registered true [] returning (advertise_call (bytes "t") Types.process)
      (created none (bytes "n1")) call_returns)

Running-IsValid_example : IsValid registered
Running-IsValid_example = Running-IsValid registered (
    Running.called fresh node true [] returning (advertise_call (bytes "t") Types.process)
      (Running.started (bytes "p1") (bytes "10.0.0.1") (bytes "a1") (bytes "c") (bytes "q")
        (bytes "r") (bytes "id1") (bytes "id2"))
      call_returns)
