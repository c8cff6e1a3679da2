-- ===== src/Node/Lists.antt =====
-- src/Node.cc: the lists of topics and services that a node gives out.
pub mod Partitions
use ign_transport_git.Base.{
  ℕ, Bool, Option, none, some, List, [], ◌∷◌, ◌==◌, drop, map, if◌then◌else◌, Text, text_eq,
}
use ign_transport_git.Base.Map.{keys}
use ign_transport_git.TopicUtils.{has_char}
use ign_transport_git.Handlers.{topic_name}
use ign_transport_git.Discovery.Settings
use ign_transport_git.NodeShared.{NodeShared}
use ign_transport_git.Node.{Node}

unfoldable pub advertised_topics : Node → List Text
advertised_topics n = map topic_name (keys n.topics_advertised)

unfoldable pub subscribed_topics : Node → List Text
subscribed_topics n = map topic_name (keys n.topics_subscribed)

unfoldable pub advertised_services : Node → List Text
advertised_services n = map topic_name (keys n.srvs_advertised)

-- What stands before the last `c`, or all of it if there is none.
unfoldable pub before_last : ℕ → Text → Text
before_last c [] = []
before_last c (x ∷ s) =
    let rest = before_last c s in if has_char c s then x ∷ rest else if x == c then [] else x ∷ s

-- `topic.substr(1, topic.find_last_of("@") - 1)`, then without the front slash. The length is that of
-- the rest if the topic has an at sign at the front only or none at all, since the difference wraps.
-- `none` is `std::out_of_range` on an empty text.
unfoldable pub partition_of : Text → Option Text
partition_of [] = none
partition_of (x ∷ s) = some (drop 1 (before_last b'@' s))

-- The loop over the full names.
unfoldable pub own_names : Text → List Text → Option (List Text)
own_names partition [] = some []
own_names partition (topic ∷ topics) = elim (partition_of topic) [
  | none ↦ none
  | some p ↦ elim (own_names partition topics) [
    | none ↦ none
    | some names ↦ some (if text_eq p partition then topic_name topic ∷ names else names)
  ]
]

module _ {Msg : Type 0} where
  unfoldable pub get_topic_list : Node → NodeShared Msg → Option (List Text)
  get_topic_list n s = own_names n.partition (Settings.get_topic_list [] s.discovery)

  unfoldable pub get_service_list : Node → NodeShared Msg → Option (List Text)
  get_service_list n s = own_names n.partition (Settings.get_service_list [] s.discovery)
