-- ===== src/Tests/Storages.antt =====
-- Concrete storages of src/TopicStorage.cc and include/ignition/transport/HandlerStorage.hh.
use ign_transport_git.Base.{
  ℕ, ◌≡◌, ◌⊎◌, true, false, not, ◌&&◌, none, some, [], ◌∷◌, ◌++◌, find_if, Text, text_eq, text_lt,
  bytes,
}
use ign_transport_git.HandlerStorage.{Nodes}
use ign_transport_git.Base.Map.{Map, IsSorted, find, insert, insert_new}
use ign_transport_git.TransportTypes.{host, all}
use ign_transport_git.TopicStorage.{
  TopicStorage, push_address, add_address, del_address_by_node, del_addresses_by_proc,
}
use ign_transport_git.TopicStorage.Spec.{
  publishers, DelSpec, publishers-add_address, publishers-del_address_by_node,
}
use ign_transport_git.TopicStorage.Invariant as Topics
use ign_transport_git.TopicStorage.Invariant.{
  add_address-IsValid, del_address_by_node-IsValid, del_addresses_by_proc-IsValid,
}
use ign_transport_git.TopicStorage.Queries.{del_addresses_by_proc_last}
use ign_transport_git.HandlerStorage.{
  HandlerStorage, get_handler, add_handler, has_handlers_for_topic, has_handlers_for_node,
  remove_handler,
}
use ign_transport_git.HandlerStorage.Laws.{
  handler_at, handler_at-add_handler, handler_at-remove_handler,
}
use ign_transport_git.HandlerStorage.Invariant as Handlers
use ign_transport_git.HandlerStorage.Invariant.{
  add_handler-IsValid, remove_handler-IsValid, remove_handlers_for_node-IsValid, get_handler_lem,
}

abbrev topic : Text
topic = bytes "t"

abbrev one : TopicStorage
one = (add_address topic (bytes "a1") (bytes "c1") (bytes "p1") (bytes "n1") all []).0

-- Two processes on the topic.
abbrev pub two : TopicStorage
two = (add_address topic (bytes "a2") (bytes "c2") (bytes "p2") (bytes "n2") host one).0

one-IsValid : Topics.IsValid one
one-IsValid =
    add_address-IsValid topic (bytes "a1") (bytes "c1") (bytes "p1") (bytes "n1") all [] (tt, tt)

pub two-IsValid : Topics.IsValid two
two-IsValid =
    add_address-IsValid topic (bytes "a2") (bytes "c2") (bytes "p2") (bytes "n2") host one
      one-IsValid

-- The second registration of the same publisher is not made.
publishers-add_address_example :
    ((add_address topic (bytes "a2") [] (bytes "p2") (bytes "n2") all two).1 ≡ false)
    × (publishers topic
          (bytes "p2")
          (add_address topic (bytes "a2") [] (bytes "p2") (bytes "n2") all two).0
        ≡ publishers topic (bytes "p2") two)
unfolding find_if find text_eq add_address insert push_address text_lt
publishers-add_address_example =
    publishers-add_address topic (bytes "a2") [] (bytes "p2") (bytes "n2") all topic (bytes "p2")
      two

publishers-del_address_by_node_example :
    DelSpec topic
      (bytes "p1")
      (bytes "n1")
      topic
      (bytes "p1")
      two
      (del_address_by_node topic (bytes "p1") (bytes "n1") two)
publishers-del_address_by_node_example =
    publishers-del_address_by_node topic (bytes "p1") (bytes "n1") topic (bytes "p1") two

-- The process is removed from the first topic, and the call returns false.
del_addresses_by_proc_last_example :
    (del_addresses_by_proc (bytes "p1") (one ++ (bytes "u", []) ∷ [])).1 ≡ false
unfolding find
del_addresses_by_proc_last_example = del_addresses_by_proc_last (bytes "p1") one (bytes "u") []

-- Handlers of two nodes on one topic; a handler is a number.
abbrev first_only : HandlerStorage ℕ
first_only = add_handler topic (bytes "n1") (bytes "h1") 1 []

abbrev both : HandlerStorage ℕ
both = add_handler topic (bytes "n2") (bytes "h2") 2 first_only

both-IsValid : Handlers.IsValid both
both-IsValid =
    add_handler-IsValid topic (bytes "n2") (bytes "h2") 2 first_only
      (add_handler-IsValid topic (bytes "n1") (bytes "h1") 1 [] (tt, tt))

-- A handler with the UUID of another does not replace it.
handler_at-add_handler_example :
    handler_at topic (bytes "n1") (bytes "h1") (add_handler topic (bytes "n1") (bytes "h1") 9 both)
    ≡ some 1
unfolding add_handler text_eq find insert text_lt insert_new
handler_at-add_handler_example =
    handler_at-add_handler topic (bytes "n1") (bytes "h1") topic (bytes "n1") (bytes "h1") 9 both

handler_at-remove_handler_example :
    (handler_at topic
        (bytes "n1")
        (bytes "h1")
        (remove_handler topic (bytes "n1") (bytes "h1") both).0
      ≡ none)
    × ((remove_handler topic (bytes "n1") (bytes "h1") both).1 ≡ (
        has_handlers_for_node topic (bytes "n1") both
        && not (
            has_handlers_for_node topic
              (bytes "n1")
              (remove_handler topic (bytes "n1") (bytes "h1") both).0)))
unfolding text_eq
handler_at-remove_handler_example =
    handler_at-remove_handler topic (bytes "n1") (bytes "h1") topic (bytes "n1") (bytes "h1") both

get_handler_lem_example :
    ((has_handlers_for_topic topic both ≡ false) × (get_handler topic both ≡ some none))
    ⊎ ((n : Text) × (h : Text) × (x : ℕ) × (handlers : Map ℕ) × (others : Nodes ℕ) × (find topic
            both
          ≡ some ((n, (h, x) ∷ handlers) ∷ others))
        × (has_handlers_for_topic topic both ≡ true)
        × (get_handler topic both ≡ some (some x))
        × (handler_at topic n h both ≡ some x)
        × IsSorted ((n, (h, x) ∷ handlers) ∷ others)
        × IsSorted ((h, x) ∷ handlers))
get_handler_lem_example = get_handler_lem topic both both-IsValid
