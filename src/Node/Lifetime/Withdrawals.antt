-- ===== src/Node/Lifetime/Withdrawals.antt =====
-- `Discovery::Unadvertise` of src/Discovery.cc, as the destructor of `Node` in src/Node.cc uses it.
use ign_transport_git.Base.{
  ◌+◌, ◌<◌, ◌^◌, Bool, ◌≡◌, refl, sym, ap, ◌∙◌, none, some, List, [], ◌∷◌, length, find_if,
  remove_if, Text, text_eq, text_eq_refl, arith, Bool-cases, Option-cases, inl, inr,
}
use ign_transport_git.TransportTypes.{Address, msg}
use ign_transport_git.TopicStorage.{TopicStorage, get_address, del_address_by_node, same_node}
use ign_transport_git.TopicStorage.Spec.{publishers, publishers-del_address_by_node}
use ign_transport_git.TopicStorage.Queries.{get_address_lem}
use ign_transport_git.Packet.Header
use ign_transport_git.Discovery.{Discovery, Event, sent, called, is_process}
use ign_transport_git.Discovery.Send.Safety.{send_msg_returns}
use ign_transport_git.Discovery.Local.{Step, withdraw}
use ign_transport_git.Discovery.Local

-- The publishers of the node fit into a message of discovery.
abbrev pub Fits : Text → Discovery → Type 0
Fits n d =
    (t : Text) (inf : Address)
    → get_address t d.p_uuid n d.info_msg ≡ some inf
    → length d.p_uuid + 62 + length t + length inf.addr + length inf.ctrl + length n < 2 ^ 31

remove_then_find : {A : Type 0} (q : A → Bool) (xs : List A) → find_if q (remove_if q xs) ≡ none
unfolding find_if remove_if
remove_then_find q [] = refl
remove_then_find q (x ∷ xs) = ground (arith, remove_then_find q xs)

-- Of the node's publishers, a deletion leaves those of other topics.
get-del_address_by_node :
    (t t' p n : Text) (s : TopicStorage) {inf : Address}
    → get_address t' p n (del_address_by_node t p n s).0 ≡ some inf
    → get_address t' p n s ≡ some inf
get-del_address_by_node t t' p n s {inf} h =
    let e : find_if (same_node n) (publishers t' p (del_address_by_node t p n s).0) ≡ some inf =
      sym (get_address_lem t' p n (del_address_by_node t p n s).0) ∙ h in
    let f = (publishers-del_address_by_node t p n t' p s).0 in
    get_address_lem t' p n s ∙ elim (Bool-cases (text_eq t t')) [
      | inl same ↦
          let g : publishers t' p (del_address_by_node t p n s).0
              ≡ remove_if (same_node n) (publishers t p s) =
            f ∙ rw (same, text_eq_refl p) in
          let no : some inf ≡ none =
            sym e ∙ ap (find_if (same_node n)) g ∙ remove_then_find _ (publishers t p s) in
          cc
      | inr other ↦
          let g : publishers t' p (del_address_by_node t p n s).0 ≡ publishers t' p s =
            f ∙ rw other in
          sym (ap (find_if (same_node n)) g) ∙ e
    ]

-- Datagrams only.
abbrev pub AreSent : List Event → Type 0
AreSent [] = Unit
AreSent (sent datagram ∷ events) = AreSent events
AreSent (called cb topic addr ctrl p n scope ∷ events) = ⊥

-- The call returns; it leaves the services as they are.
abbrev pub Withdrawn : Text → TopicStorage → Step → Type 0
Withdrawn n srvs none = ⊥
Withdrawn n srvs (some (d, events)) = Fits n d × AreSent events × (d.info_srv ≡ srvs)

withdraw_returns :
    (t n : Text) (inf : Address) (d : Discovery)
    → Fits n d
    → get_address t d.p_uuid n d.info_msg ≡ some inf
    → Withdrawn n d.info_srv (withdraw msg t n inf d)
unfolding withdraw
withdraw_returns t n inf d fits e =
    let s : TopicStorage = (del_address_by_node t d.p_uuid n d.info_msg).0 in
    let d' : Discovery = record d { info_msg = s } in
    let fits' : Fits n d' =
      λ t' inf' h. fits t' inf' (get-del_address_by_node t t' d.p_uuid n d.info_msg h) in
    let r =
      send_msg_returns d' Header.unadv_type t inf.addr inf.ctrl n inf.scope 0 (fits t inf e) in
    elim (Bool-cases (is_process inf.scope)) [
      | inl p ↦ rw p (fits', tt, refl)
      | inr p ↦ rw (p, r.1) (fits', tt, refl)
    ]

pub unadvertise_returns :
    (t n : Text) (d : Discovery) → Fits n d → Withdrawn n d.info_srv (Local.unadvertise msg t n d)
unfolding Local.unadvertise
unadvertise_returns t n d fits = elim (Option-cases (get_address t d.p_uuid n d.info_msg)) [
  | inl e ↦ rw (e, Local.unadvertise) (fits, tt, refl)
  | inr (inf, e) ↦ rw (e, Local.unadvertise) (withdraw_returns t n inf d fits e)
]
