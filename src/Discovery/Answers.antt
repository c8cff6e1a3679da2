-- ===== src/Discovery/Answers.antt =====
-- Two processes: the call of `Discover` in one, and how another answers its subscription.
use mathlib.Core.List.{append_assoc}
use ign_transport_git.Base.{
  Bool, true, Option-cases, concat_map, map, ℕ, ◌≡◌, refl, false, ◌∙◌, ap, ◌&&◌, ◌++◌, some, [],
  ◌∷◌, List, All, arith, get_or, Bool-cases, inl, inr, if◌then◌else◌, Text, text_eq, is_empty-nil,
}
use ign_transport_git.Base.Map.{find, entry}
use ign_transport_git.TransportTypes.{Addresses, all, MsgType, msg, srv, Address}
use ign_transport_git.TopicStorage.{TopicStorage, has_topic, has_any_addresses, get_addresses}
use ign_transport_git.TopicStorage.Spec.{publishers}
use ign_transport_git.TopicStorage.Invariant as Store
use ign_transport_git.TopicStorage.Queries.{has_any_addresses_lem}
use ign_transport_git.Packet.Header
use ign_transport_git.Packet.Header.RoundTrip as HeaderTrip
use ign_transport_git.Packet.Subscription
use ign_transport_git.Packet.Subscription.{SubscriptionMsg}
use ign_transport_git.Packet.Subscription.RoundTrip as SubTrip
use ign_transport_git.Discovery.{
  called, connection, Discovery, Event, sent, storage, connection_set, out_of_scope,
}
use ign_transport_git.Discovery.Send.{make_subscription, send_msg}
use ign_transport_git.Discovery.Send.Laws.{send_msg_subscription}
use ign_transport_git.Discovery.Local.{Step, sub_type_of, call_nodes, call_processes, discover}
use ign_transport_git.Discovery.Dispatch.{
  answer_all, recv_subscribe, with_subscription, dispatch_type, dispatch_discovery_msg,
}
use ign_transport_git.Discovery.Dispatch.Wire.{touched, dispatch-encode}
use ign_transport_git.Discovery.Announce.{IsAnnounceable, announced, send_msg-announced}

-- One advertisement for each publisher that the scope lets the asking address see.
unfoldable pub answers : MsgType → Text → Text → List Address → Discovery → List Event
answers kind from_ip topic [] d = []
answers kind from_ip topic (node ∷ v) d =
    if out_of_scope node.scope from_ip d
    then answers kind from_ip topic v d
    else announced kind topic node d ∷ answers kind from_ip topic v d

answer_all_lem :
    (kind : MsgType) (from_ip topic : Text) (v : List Address) (d : Discovery)
    → All (λ node. IsAnnounceable kind topic node d) v
    → answer_all kind from_ip topic v d ≡ some (answers kind from_ip topic v d)
unfolding answer_all answers
answer_all_lem kind from_ip topic [] d h = refl
answer_all_lem kind from_ip topic (node ∷ v) d h =
    rw (answer_all_lem kind from_ip topic v d h.1, answer_all)
      (elim (Bool-cases (out_of_scope node.scope from_ip d)) [
        | inl e ↦ rw e
        | inr e ↦ rw e (rw (send_msg-announced kind topic node d h.0))
      ])

recv_subscribe_lem :
    (kind : MsgType) (from_ip : Text) (m : SubscriptionMsg) (d : Discovery)
    → Store.IsValid (storage kind d)
    → All
        (λ node. IsAnnounceable kind m.topic node d)
        (publishers m.topic d.p_uuid (storage kind d))
    → recv_subscribe kind from_ip m d
      ≡ some (d, answers kind from_ip m.topic (publishers m.topic d.p_uuid (storage kind d)) d)
unfolding recv_subscribe get_addresses
recv_subscribe_lem kind from_ip m d v h =
    elim (Bool-cases (has_any_addresses m.topic d.p_uuid (storage kind d))) [
      | inl e ↦ rw e (rw (answer_all_lem kind from_ip m.topic _ d h))
      | inr e ↦
          let none_there : publishers m.topic d.p_uuid (storage kind d) ≡ [] =
            is_empty-nil _
              (ground (arith, has_any_addresses_lem m.topic d.p_uuid (storage kind d) v)) in
          rw e (rw none_there (unfold answers in refl))
    ]

-- That the process heard of another does not change its answers.
answers-touched :
    (kind : MsgType) (from_ip topic p : Text) (now : ℕ) (v : List Address) (d : Discovery)
    → answers kind from_ip topic v (touched p now d) ≡ answers kind from_ip topic v d
unfolding answers announced
answers-touched kind from_ip topic p now [] d = refl
answers-touched kind from_ip topic p now (node ∷ v) d =
    rw (answers-touched kind from_ip topic p now v d)

with_subscription-encode :
    (m : SubscriptionMsg) (rest : Text) (go : SubscriptionMsg → Step)
    → SubTrip.IsPackable m
    → with_subscription (SubTrip.encode_body m ++ rest) go
      ≡ go (record Subscription.default { topic = m.topic })
unfolding with_subscription
with_subscription-encode m rest go v =
    let fits =
      SubTrip.unpack_body-encode_body Subscription.default m rest (omega (arith, v.total)) in
    rw (fits, with_subscription)

dispatch-subscription :
    (kind : MsgType) (topic from_ip rest : Text) (now : ℕ) (a b : Discovery)
    → SubTrip.IsPackable (make_subscription a (sub_type_of kind) topic 0)
    → text_eq a.p_uuid b.p_uuid ≡ false
    → Store.IsValid (storage kind b)
    → All (λ node. IsAnnounceable kind topic node b) (publishers topic b.p_uuid (storage kind b))
    → let m = make_subscription a (sub_type_of kind) topic 0 in
      dispatch_discovery_msg from_ip
        (HeaderTrip.encode m.header ++ (SubTrip.encode_body m ++ rest))
        now
        b
      ≡ some (
        touched a.p_uuid now b,
        answers kind from_ip topic (publishers topic b.p_uuid (storage kind b)) b,
      )
unfolding dispatch_type
dispatch-subscription msg topic from_ip rest now a b v other valid h =
    let m = make_subscription a Header.sub_type topic 0 in
    dispatch-encode m.header from_ip (SubTrip.encode_body m ++ rest) now b v.header-IsValid other
    ∙ with_subscription-encode m rest _ v
    ∙ recv_subscribe_lem msg from_ip _ (touched a.p_uuid now b) valid h
    ∙ ap (λ e. some (touched a.p_uuid now b, e))
        (answers-touched msg from_ip topic a.p_uuid now _ b)
dispatch-subscription srv topic from_ip rest now a b v other valid h =
    let m = make_subscription a Header.sub_srv_type topic 0 in
    dispatch-encode m.header from_ip (SubTrip.encode_body m ++ rest) now b v.header-IsValid other
    ∙ with_subscription-encode m rest _ v
    ∙ recv_subscribe_lem srv from_ip _ (touched a.p_uuid now b) valid h
    ∙ ap (λ e. some (touched a.p_uuid now b, e))
        (answers-touched srv from_ip topic a.p_uuid now _ b)

sent_subscription :
    (kind : MsgType) (topic : Text) (a : Discovery)
    → SubTrip.IsPackable (make_subscription a (sub_type_of kind) topic 0)
    → let m = make_subscription a (sub_type_of kind) topic 0 in
      send_msg a (sub_type_of kind) topic [] [] [] all 0
      ≡ some (sent (HeaderTrip.encode m.header ++ SubTrip.encode_body m) ∷ [])
sent_subscription msg topic a v =
    send_msg_subscription a Header.sub_type topic [] [] [] all 0 refl refl v
sent_subscription srv topic a v =
    send_msg_subscription a Header.sub_srv_type topic [] [] [] all 0 refl refl v

-- One call of the connection callback for each publisher, process by process.
abbrev pub introductions : MsgType → Text → Addresses → List Event
introductions kind topic = concat_map (λ e.
    map (λ node. called (connection kind) topic node.addr node.ctrl e.0 node.n_uuid node.scope) e.1)

call_nodes_lem :
    (kind : MsgType) (topic p : Text) (v : List Address)
    → call_nodes kind topic p v
      ≡ map (λ node. called (connection kind) topic node.addr node.ctrl p node.n_uuid node.scope) v
unfolding call_nodes
call_nodes_lem kind topic p [] = refl
call_nodes_lem kind topic p (node ∷ v) = rw (call_nodes_lem kind topic p v)

call_processes_lem :
    (kind : MsgType) (topic : Text) (m : Addresses)
    → call_processes kind topic m ≡ introductions kind topic m
unfolding call_processes
call_processes_lem kind topic [] = refl
call_processes_lem kind topic ((p, v) ∷ m) =
    rw (call_nodes_lem kind topic p v, call_processes_lem kind topic m)

known_lem :
    (set : Bool) (kind : MsgType) (topic : Text) (s : TopicStorage)
    → (if has_topic topic s && set
        then call_processes kind topic (get_or (get_addresses topic s) [])
        else [])
      ≡ (if set then introductions kind topic (entry topic s) else [])
unfolding has_topic get_addresses
known_lem true kind topic s = elim (Option-cases (find topic s)) [
  | inl e ↦ rw (e, has_topic)
  | inr (m, e) ↦ rw (e, has_topic, get_addresses) (call_processes_lem kind topic m)
]
known_lem false kind topic s = ground arith

-- A subscription is answered. Where the topic is given and small enough and process `b` is another
-- one, with a well-formed storage whose own publishers of the topic can be advertised, `Discover` at
-- `a` sends one datagram and then calls the connection callback, if one is set, once for each publisher
-- of the topic that `a` knows already, with that publisher's addresses and UUIDs, in their order.
-- `DispatchDiscoveryMsg` at `b` takes that datagram, whatever follows it in the buffer, and sends one
-- advertisement for each publisher of its own on the topic that the scope lets the asking address
-- see, in their order, and nothing else.
pub discover-dispatch :
    (kind : MsgType) (topic from_ip rest : Text) (now : ℕ) (a b : Discovery)
    → SubTrip.IsPackable (make_subscription a (sub_type_of kind) topic 0)
    → text_eq a.p_uuid b.p_uuid ≡ false
    → Store.IsValid (storage kind b)
    → All (λ node. IsAnnounceable kind topic node b) (publishers topic b.p_uuid (storage kind b))
    → (datagram : Text) × (discover kind topic a
        ≡ some (
          a,
          sent datagram
              ∷ (if connection_set kind a
                  then introductions kind topic (entry topic (storage kind a))
                  else []),
        ))
      × (dispatch_discovery_msg from_ip (datagram ++ rest) now b
          ≡ some (
            touched a.p_uuid now b,
            answers kind from_ip topic (publishers topic b.p_uuid (storage kind b)) b,
          ))
unfolding discover
discover-dispatch kind topic from_ip rest now a b v other valid h =
    let m = make_subscription a (sub_type_of kind) topic 0 in
    (
      HeaderTrip.encode m.header ++ SubTrip.encode_body m,
      rw
          (
            sent_subscription kind topic a v,
            ← known_lem (connection_set kind a) kind topic (storage kind a),
          )
          refl,
      ap (λ bytes. dispatch_discovery_msg from_ip bytes now b)
            (append_assoc (HeaderTrip.encode m.header) (SubTrip.encode_body m) rest)
          ∙ dispatch-subscription kind topic from_ip rest now a b v other valid h,
    )
