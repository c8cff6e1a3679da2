-- ===== src/Zmq.antt =====
-- The calls of the 0MQ library that src/NodeShared.cc and src/Node.cc make. What a call does is the
-- library's affair: whether it returns or throws is a parameter `ok` of the code that makes it.
use ign_transport_git.Base.{Bool, ◌≡◌, refl, true, false, List, [], ◌∷◌, if◌then◌else◌, Text}

-- The sockets of `NodeShared`, and a new DEALER socket connected to a control address.
pub data Socket : Type 0 where
  publisher subscriber control requester response_receiver replier : Socket
  dealer : Text → Socket

-- `send` has a frame and whether more frames of its message follow (`ZMQ_SNDMORE`). `subscribe` and
-- `unsubscribe` set the options of these names on the subscriber.
pub data Call : Type 0 where
  connect disconnect : Socket → Text → Call
  subscribe unsubscribe : Text → Call
  send : Socket → Text → Bool → Call

-- The `send` calls of one message, frame by frame.
unfoldable pub send_all : Socket → List Text → List Call
send_all s [] = []
send_all s (frame ∷ []) = send s frame false ∷ []
send_all s (frame ∷ next ∷ frames) = send s frame true ∷ send_all s (next ∷ frames)

-- Calls in a `try` block: those that returned before one threw, and whether all did.
unfoldable pub attempt : (Call → Bool) → List Call → List Call × Bool
attempt ok [] = ([], true)
attempt ok (c ∷ calls) =
    let rest = attempt ok calls in if ok c then (c ∷ rest.0, rest.1) else ([], false)

-- Where no call throws, all are made.
pub attempt-all :
    (ok : Call → Bool) (calls : List Call)
    → ((c : Call) → ok c ≡ true)
    → attempt ok calls ≡ (calls, true)
unfolding attempt
attempt-all ok [] h = refl
attempt-all ok (c ∷ calls) h = rw (h c, attempt-all ok calls h)
