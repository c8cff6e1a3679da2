-- ===== src/TopicStorage.antt =====
-- src/TopicStorage.cc: the known publishers by topic and process.
pub mod Spec
pub mod Invariant
pub mod Queries
use ign_transport_git.Base.{
  ℕ, zero, suc, ◌-◌, ◌%◌, ◌^◌, ◌+◌, Bool, true, false, ◌&&◌, ◌||◌, Option, none, some, List, [],
  ◌∷◌, ◌++◌, length, is_empty, is_some, get_or, ltb, find_if, remove_if, if◌then◌else◌, Text,
  text_eq,
}
use ign_transport_git.Base.Map.{Map, find, contains, insert, erase, keys}
use ign_transport_git.TransportTypes.{Scope, Address, Addresses}

-- The member `data`: the publishers by topic.
abbrev pub TopicStorage : Type 0
TopicStorage = Map Addresses

-- The test of `AddAddress`.
abbrev pub same_publisher : Text → Text → Address → Bool
same_publisher addr n_uuid info = text_eq info.addr addr && text_eq info.n_uuid n_uuid

abbrev pub same_node : Text → Address → Bool
same_node n_uuid info = text_eq info.n_uuid n_uuid

-- `m[_pUuid].push_back(...)`, with `m` the entry of the topic.
unfoldable pub push_address : Text → Text → Address → TopicStorage → TopicStorage
push_address topic p_uuid info s =
    let m : Addresses = get_or (find topic s) [] in
    insert topic (insert p_uuid (get_or (find p_uuid m) [] ++ info ∷ []) m) s

-- The storage after the call, and its result.
unfoldable pub add_address :
    Text → Text → Text → Text → Text → Scope → TopicStorage → TopicStorage × Bool
add_address topic addr ctrl p_uuid n_uuid scope s =
    let created : TopicStorage = if contains topic s then s else insert topic [] s in
    let m : Addresses = get_or (find topic created) [] in
    let info : Address = record { addr = addr; ctrl = ctrl; n_uuid = n_uuid; scope = scope } in
    if contains p_uuid m
      && is_some (find_if (same_publisher addr n_uuid) (get_or (find p_uuid m) []))
    then (created, false)
    else (push_address topic p_uuid info created, true)

unfoldable pub has_topic : Text → TopicStorage → Bool
has_topic topic s = contains topic s

unfoldable pub has_any_addresses : Text → Text → TopicStorage → Bool
has_any_addresses topic p_uuid s =
    if contains topic s then contains p_uuid (get_or (find topic s) []) else false

unfoldable pub any_address : Text → List Address → Bool
any_address addr [] = false
any_address addr (info ∷ v) = text_eq info.addr addr || any_address addr v

unfoldable pub any_process : Text → Addresses → Bool
any_process addr [] = false
any_process addr ((p, v) ∷ m) = any_address addr v || any_process addr m

unfoldable pub has_address : Text → TopicStorage → Bool
has_address addr [] = false
has_address addr ((t, m) ∷ s) = any_process addr m || has_address addr s

-- `none` where the call returns false; `_info` is not written then.
unfoldable pub get_address : Text → Text → Text → TopicStorage → Option Address
get_address topic p_uuid n_uuid s = elim (find topic s) [
  | none ↦ none
  | some m ↦ elim (find p_uuid m) [ none ↦ none | some v ↦ find_if (same_node n_uuid) v ]
]

unfoldable pub get_addresses : Text → TopicStorage → Option Addresses
get_addresses topic s = find topic s

-- `if (c.empty()) owner.erase(k)`, after the entry of `k` became `c`.
unfoldable pub put_back : {V : Type 0} → Text → List V → Map (List V) → Map (List V)
put_back k c owner = if is_empty c then erase k (insert k c owner) else insert k c owner

-- The storage without the process's addresses `v` that belong to the node.
unfoldable pub del_from :
    Text → Text → Text → Addresses → List Address → TopicStorage → TopicStorage × Bool
del_from topic p_uuid n_uuid m v s =
    let kept : List Address = remove_if (same_node n_uuid) v in
    (put_back topic (put_back p_uuid kept m) s, ltb 0 ((length v - length kept) % 2 ^ 32))

unfoldable pub del_address_by_node : Text → Text → Text → TopicStorage → TopicStorage × Bool
del_address_by_node topic p_uuid n_uuid s = elim (find topic s) [
  | none ↦ (s, false)
  | some m ↦ elim (find p_uuid m) [
    | none ↦ (s, false)
    | some v ↦ del_from topic p_uuid n_uuid m v s
  ]
]

-- The count that `m.erase(_pUuid)` returns.
abbrev pub erase_count : Text → Addresses → ℕ
erase_count p_uuid m = if contains p_uuid m then 1 else 0

-- The loop of `DelAddressesByProc`; the counter is assigned anew in each round.
unfoldable pub del_loop : Text → TopicStorage → ℕ → TopicStorage × ℕ
del_loop p_uuid [] counter = ([], counter)
del_loop p_uuid ((t, m) ∷ s) counter =
    let (rest, last) = del_loop p_uuid s (erase_count p_uuid m) in
    (if is_empty (erase p_uuid m) then rest else (t, erase p_uuid m) ∷ rest, last)

unfoldable pub del_addresses_by_proc : Text → TopicStorage → TopicStorage × Bool
del_addresses_by_proc p_uuid s = let (s', counter) = del_loop p_uuid s 0 in (s', ltb 0 counter)

-- `for (auto &info : v) _nodes[topic].push_back(info);`
unfoldable pub push_all : Text → List Address → Map (List Address) → Map (List Address)
push_all topic [] nodes = nodes
push_all topic (info ∷ v) nodes =
    push_all topic v (insert topic (get_or (find topic nodes) [] ++ info ∷ []) nodes)

unfoldable pub by_proc_loop : Text → TopicStorage → Map (List Address) → Map (List Address)
by_proc_loop p_uuid [] nodes = nodes
by_proc_loop p_uuid ((t, m) ∷ s) nodes =
    by_proc_loop p_uuid s (push_all t (get_or (find p_uuid m) []) nodes)

-- The map that the call leaves in `_nodes`.
unfoldable pub get_addresses_by_proc : Text → TopicStorage → Map (List Address)
get_addresses_by_proc p_uuid s = by_proc_loop p_uuid s []

-- The vector that the call leaves in `_topics`.
unfoldable pub get_topic_list : List Text → TopicStorage → List Text
get_topic_list topics s = topics ++ keys s
