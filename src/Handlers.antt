-- ===== src/Handlers.antt =====
-- include/ignition/transport/SubscriptionHandler.hh, RepHandler.hh and ReqHandler.hh: the wrappers of
-- the clients' callbacks. The type of protobuf messages and what protobuf does with them, parsing and
-- serialization, are parameters: a type, and function fields of each handler.
pub mod Names
use ign_transport_git.Base.{
  ℕ, Bool, true, false, Option, none, some, List, [], ◌∷◌, ◌==◌, if◌then◌else◌, Text,
}
use ign_transport_git.TopicUtils.{has_char}

-- `s.erase(0, s.find_last_of(c) + 1)`: what follows the last `c`, or all of it if there is none.
unfoldable pub after_last : ℕ → Text → Text
after_last c [] = []
after_last c (x ∷ s) =
    let rest = after_last c s in if has_char c s then rest else if x == c then s else x ∷ s

-- The topic that a callback is told: the full name without the partition.
unfoldable pub topic_name : Text → Text
topic_name topic = after_last b'@' topic

-- `SubscriptionHandler<T>`. Of the callback it is kept whether it is set; `create_msg` is the member
-- `CreateMsg`, the object that `ParseFromString` makes of the bytes.
pub record SubscriptionHandler (Msg : Type 0) : Type 0 where
  pub h_uuid : Text
  pub n_uuid : Text
  pub cb : Bool
  pub create_msg : Text → Msg

-- `RepHandler<Req, Rep>`. The callback gets the topic, the request and the response to fill, and gives
-- the response and the result; `new_rep` is a default `Rep`.
pub record RepHandler (Msg : Type 0) : Type 0 where
  pub h_uuid : Text
  pub cb : Option (Text → Msg → Msg → Msg × Bool)
  pub create_msg : Text → Msg
  pub new_rep : Msg
  pub serialize : Msg → Text

-- `ReqHandler<Req, Rep>`, with the data of `IReqHandler`.
pub record ReqHandler (Msg : Type 0) : Type 0 where
  pub h_uuid : Text
  pub n_uuid : Text
  pub req_msg : Msg
  pub cb : Bool
  pub create_msg : Text → Msg
  pub serialize_req : Msg → Text
  pub rep : Text
  pub result : Bool
  pub requested : Bool
  pub rep_available : Bool

-- What a client sees: its callback for a topic, for a service or for a response is called on an
-- object; or the thread that waits for the object's response is woken.
pub data Notice (Msg : Type 0) : Type 0 where
  delivered : Text → Text → Msg → Notice Msg
  served : Text → Text → Msg → Notice Msg
  answered : Text → Text → Msg → Bool → Notice Msg
  woken : ReqHandler Msg → Notice Msg

module _ {Msg : Type 0} where
  -- `SubscriptionHandler::RunLocalCallback`, with what the client sees.
  unfoldable pub run_local_callback :
      SubscriptionHandler Msg → Text → Msg → List (Notice Msg) × Bool
  run_local_callback h topic msg =
      if h.cb then (delivered h.h_uuid (topic_name topic) msg ∷ [], true) else ([], false)

  -- `SubscriptionHandler::RunCallback`.
  unfoldable pub run_callback : SubscriptionHandler Msg → Text → Text → List (Notice Msg) × Bool
  run_callback h topic bytes =
      let msg : Msg = h.create_msg bytes in
      if h.cb then (delivered h.h_uuid (topic_name topic) msg ∷ [], true) else ([], false)

  -- `RepHandler::RunLocalCallback`: the response object after the call, the result, what was called.
  unfoldable pub run_local_service :
      RepHandler Msg → Text → Msg → Msg → Msg × Bool × List (Notice Msg)
  run_local_service h topic req rep = elim h.cb [
    | none ↦ (rep, false, [])
    | some cb ↦
        let (rep', result) = cb (topic_name topic) req rep in
        (rep', result, served h.h_uuid (topic_name topic) req ∷ [])
  ]

  -- `RepHandler::RunCallback` with an empty `_rep`.
  unfoldable pub run_service : RepHandler Msg → Text → Text → Text × Bool × List (Notice Msg)
  run_service h topic bytes = elim h.cb [
    | none ↦ ([], false, [])
    | some cb ↦
        let (rep, result) = cb (topic_name topic) (h.create_msg bytes) h.new_rep in
        (h.serialize rep, result, served h.h_uuid (topic_name topic) (h.create_msg bytes) ∷ [])
  ]

  -- The constructor, `SetMessage` and `SetCallback`; `h_uuid` is a new UUID.
  unfoldable pub new_request :
      Text → Text → Msg → Bool → (Text → Msg) → (Msg → Text) → ReqHandler Msg
  new_request h_uuid n_uuid req_msg cb create_msg serialize = record {
    h_uuid = h_uuid;
    n_uuid = n_uuid;
    req_msg = req_msg;
    cb = cb;
    create_msg = create_msg;
    serialize_req = serialize;
    rep = [];
    result = false;
    requested = false;
    rep_available = false;
  }

  -- `ReqHandler::Serialize`.
  abbrev pub serialize_request : ReqHandler Msg → Text
  serialize_request h = h.serialize_req h.req_msg

  abbrev pub set_requested : Bool → ReqHandler Msg → ReqHandler Msg
  set_requested value h = record h { requested = value }

  -- `ReqHandler::NotifyResult`: the object after the call, and what the client sees.
  unfoldable pub notify_result :
      ReqHandler Msg → Text → Text → Bool → ReqHandler Msg × List (Notice Msg)
  notify_result h topic rep result =
      let told : ReqHandler Msg = record h { rep_available = true } in
      let kept : ReqHandler Msg = record told { rep = rep; result = result } in
      if h.cb
      then (told, answered h.h_uuid (topic_name topic) (h.create_msg rep) result ∷ woken told ∷ [])
      else (kept, woken kept ∷ [])
