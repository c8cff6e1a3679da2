-- ===== src/HandlerStorage.antt =====
-- include/ignition/transport/HandlerStorage.hh: the handlers by topic, node and handler UUID.
pub mod Laws
pub mod Invariant
use ign_transport_git.Base.{
  ℕ, Bool, true, false, not, Option, none, some, [], ◌∷◌, is_empty, get_or, ltb, if◌then◌else◌,
  Text,
}
use ign_transport_git.Base.Map.{Map, find, contains, insert, insert_new, erase}

-- `UUIDHandler_Collection_M`: the handlers of one topic.
abbrev pub Nodes : Type 0 → Type 0
Nodes T = Map (Map T)

-- The member `data`.
abbrev pub HandlerStorage : Type 0 → Type 0
HandlerStorage T = Map (Nodes T)

-- `begin()->second`, which is undefined on an empty map.
abbrev pub first : {V : Type 0} → Map V → Option V
first [] = none
first ((k, v) ∷ m) = some v

module _ {T : Type 0} where
  -- `none` where the call returns false.
  unfoldable pub get_handlers : Text → HandlerStorage T → Option (Nodes T)
  get_handlers topic s = find topic s

  -- The outer `none` is the use of `begin()` on an empty map; the inner one says that the call
  -- returns false.
  unfoldable pub get_handler : Text → HandlerStorage T → Option (Option T)
  get_handler topic s = elim (find topic s) [
    | none ↦ some none
    | some nodes ↦ elim (first nodes) [
      | none ↦ none
      | some handlers ↦ elim (first handlers) [ none ↦ none | some h ↦ some (some h) ]
    ]
  ]

  -- `GetHandler` with a node and a handler UUID; `none` where it returns false.
  unfoldable pub get_handler_of : Text → Text → Text → HandlerStorage T → Option T
  get_handler_of topic n_uuid h_uuid s = elim (find topic s) [
    | none ↦ none
    | some nodes ↦ elim (find n_uuid nodes) [ none ↦ none | some handlers ↦ find h_uuid handlers ]
  ]

  -- `h_uuid` is `_handler->GetHandlerUuid()`.
  unfoldable pub add_handler : Text → Text → Text → T → HandlerStorage T → HandlerStorage T
  add_handler topic n_uuid h_uuid handler s =
      let s1 : HandlerStorage T = if contains topic s then s else insert topic [] s in
      let nodes : Nodes T = get_or (find topic s1) [] in
      let nodes1 : Nodes T = if contains n_uuid nodes then nodes else insert n_uuid [] nodes in
      let handlers : Map T = get_or (find n_uuid nodes1) [] in
      insert topic (insert n_uuid (insert_new h_uuid handler handlers) nodes1) s1

  unfoldable pub has_handlers_for_topic : Text → HandlerStorage T → Bool
  has_handlers_for_topic topic s = elim (find topic s) [
    | none ↦ false
    | some nodes ↦ not (is_empty nodes)
  ]

  unfoldable pub has_handlers_for_node : Text → Text → HandlerStorage T → Bool
  has_handlers_for_node topic n_uuid s = elim (find topic s) [
    | none ↦ false
    | some nodes ↦ contains n_uuid nodes
  ]

  -- The node without the handler, its entry erased if none is left; whether that was so.
  unfoldable pub remove_in_nodes : Text → Text → Map T → Nodes T → Nodes T × Bool
  remove_in_nodes n_uuid req_uuid handlers nodes =
      let kept : Map T = erase req_uuid handlers in
      let nodes1 : Nodes T = insert n_uuid kept nodes in
      if is_empty kept then (erase n_uuid nodes1, true) else (nodes1, false)

  -- `if (this->data[_topic].empty()) this->data.erase(_topic)`.
  unfoldable pub put_topic : Text → Nodes T → HandlerStorage T → HandlerStorage T
  put_topic topic nodes s =
      if is_empty nodes then erase topic (insert topic nodes s) else insert topic nodes s

  unfoldable pub remove_handler : Text → Text → Text → HandlerStorage T → HandlerStorage T × Bool
  remove_handler topic n_uuid req_uuid s = elim (find topic s) [
    | none ↦ (s, false)
    | some nodes ↦ elim (find n_uuid nodes) [
      | none ↦ (s, false)
      | some handlers ↦
          let (nodes', emptied) = remove_in_nodes n_uuid req_uuid handlers nodes in
          (put_topic topic nodes' s, emptied)
    ]
  ]

  unfoldable pub remove_handlers_for_node : Text → Text → HandlerStorage T → HandlerStorage T × Bool
  remove_handlers_for_node topic n_uuid s = elim (find topic s) [
    | none ↦ (s, false)
    | some nodes ↦ (put_topic topic (erase n_uuid nodes) s, contains n_uuid nodes)
  ]
