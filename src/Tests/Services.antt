-- ===== src/Tests/Services.antt =====
-- A service call between two processes of src/NodeShared.cc.
use ign_transport_git.TopicStorage.{get_addresses}
use ign_transport_git.Base.Map.{entry}
use ign_transport_git.Zmq.{disconnect, subscriber}
use ign_transport_git.Base.{
  find_if, concat_map, Bool, true, false, ◌≡◌, refl, some, none, [], ◌∷◌, ◌++◌, List, drop,
  if◌then◌else◌, Text, text_eq, bytes, arith,
}
use ign_transport_git.Base.Map.{find}
use ign_transport_git.TransportTypes.{all, Address}
use ign_transport_git.TopicStorage.{same_node}
use ign_transport_git.TopicStorage.Spec.{publishers}
use ign_transport_git.HandlerStorage.{get_handler, get_handler_of, remove_handler}
use ign_transport_git.Discovery.{init}
use ign_transport_git.Discovery.Reachable
use ign_transport_git.Zmq.{Call, replier, connect, send_all}
use ign_transport_git.Handlers.{RepHandler, ReqHandler, served, topic_name, notify_result}
use ign_transport_git.NodeShared.{NodeShared, Effect, notices, zmqs}
use ign_transport_git.NodeShared.Receive.{stoi, skip_space, read_sign, read_int, read_digits}
use ign_transport_git.NodeShared.Services.{
  is_listed, request_frames, response_frames, recv_srv_request, recv_srv_response,
  send_pending_remote_reqs,
}
use ign_transport_git.NodeShared.Services.Exchange.{recv_srv_response-recv_srv_request}
use ign_transport_git.NodeShared.Services.Pending.{
  waiting, marked, request_calls, send_pending_remote_reqs_once,
}
use ign_transport_git.NodeShared.Connections.{on_new_disconnection}
use ign_transport_git.NodeShared.Connections.Losses.{Loses, on_new_disconnection_lem}
use ign_transport_git.NodeShared.Reception.{run_reception_round}
use ign_transport_git.NodeShared.Progress.{run_reception_round_returns}
use ign_transport_git.Tests.Storages.{two}
use ign_transport_git.Tests.Nodes.{returning, full, process}

-- A request that waits, and a service that adds an exclamation mark.
abbrev waiting_one : ReqHandler Text
waiting_one = record {
  h_uuid = bytes "u1";
  n_uuid = bytes "n1";
  req_msg = bytes "hi";
  cb = true;
  create_msg = λ x. x;
  serialize_req = λ x. x;
  rep = [];
  result = false;
  requested = false;
  rep_available = false;
}

abbrev shout : Text → Text → Text → Text × Bool
shout topic req rep = (req ++ bytes "!", true)

abbrev service : RepHandler Text
service = record {
  h_uuid = bytes "h";
  cb = some shout;
  create_msg = λ x. x;
  new_rep = [];
  serialize = λ x. x;
}

abbrev client : NodeShared Text
client = record (process (bytes "p1") (bytes "a1")) {
  requests = (full, (bytes "n1", (bytes "u1", waiting_one) ∷ []) ∷ []) ∷ [];
}

abbrev server : NodeShared Text
server = record (process (bytes "p2") (bytes "a2")) {
  repliers = (full, (bytes "n2", (bytes "h", service) ∷ []) ∷ []) ∷ [];
}

recv_srv_response-recv_srv_request_example :
    let frames : List Text =
      response_frames (bytes "id1") full (bytes "n1") (bytes "u1") (bytes "hi!") true in
    (b' : NodeShared Text) × (recv_srv_request returning
        (bytes "x" ∷ drop 1 (request_frames (bytes "id2") full waiting_one client))
        server
      ≡ some (
        b',
        notices (served (bytes "h") (topic_name full) (bytes "hi") ∷ [])
            ++ zmqs (
                (if is_listed (bytes "q") [] then [] else connect replier (bytes "q") ∷ [])
                ++ send_all replier frames),
      ))
    × (is_listed (bytes "q") b'.srv_connections ≡ true)
    × (recv_srv_response (bytes "y" ∷ drop 1 frames) client
        ≡ some (
          record client {
            requests = (remove_handler full (bytes "n1") (bytes "u1") client.requests).0;
          },
          notices (notify_result waiting_one full (bytes "hi!") true).1,
        ))
unfolding find text_eq get_handler get_handler_of
recv_srv_response-recv_srv_request_example =
    recv_srv_response-recv_srv_request returning (bytes "id2") (bytes "x") (bytes "y") full
      waiting_one service client server (λ c. refl) refl refl refl

abbrev link : Address
link = record { addr = bytes "a1"; ctrl = bytes "c1"; n_uuid = bytes "n1"; scope = all }

-- The service is known, and the request waits.
abbrev informed : NodeShared Text
informed = record client {
  discovery = record (init (bytes "p1") (bytes "10.0.0.1")) {
    info_srv = (full, (bytes "p2", link ∷ []) ∷ []) ∷ [];
  };
}

waiting-informed : waiting full informed ≡ waiting_one ∷ []
unfolding find text_eq
waiting-informed = refl

send_pending_remote_reqs_once_example :
    (s' : NodeShared Text) × (send_pending_remote_reqs returning full informed
      ≡ some (
        s',
        zmqs (
            concat_map
              (request_calls returning (bytes "c1") full informed)
              (waiting full informed)),
      ))
    × (entry full s'.requests ≡ marked (entry full informed.requests))
    × ((ok' : Call → Bool) → send_pending_remote_reqs ok' full s' ≡ some (s', []))
unfolding find text_eq get_addresses
send_pending_remote_reqs_once_example = send_pending_remote_reqs_once returning full informed refl

-- A process that is connected to a publisher.
abbrev connected : NodeShared Text
connected = record (process (bytes "p2") (bytes "a2")) { connections = two }

on_new_disconnection_lem_example :
    (s' : NodeShared Text) × (on_new_disconnection returning
        (bytes "t")
        (bytes "p1")
        (bytes "n1")
        connected
      ≡ some (
        s',
        elim (find_if (same_node (bytes "n1")) (publishers (bytes "t") (bytes "p1") two)) [
          | none ↦ []
          | some c ↦ zmqs (disconnect subscriber c.addr ∷ [])
        ],
      ))
    × Loses (bytes "t") (bytes "p1") (bytes "n1") two s'.connections
    × Loses (bytes "t") (bytes "p1") (bytes "n1") [] s'.remote_subscribers
on_new_disconnection_lem_example =
    on_new_disconnection_lem returning (bytes "t") (bytes "p1") (bytes "n1") connected (λ c. refl)
      refl refl

abbrev hello : List Text
hello = full ∷ bytes "p2" ∷ bytes "n2" ∷ bytes "9" ∷ []

run_reception_round_returns_example :
    (s' : NodeShared Text) × (effects : List (Effect Text)) × (run_reception_round returning
        (some (full ∷ bytes "a" ∷ bytes "b" ∷ []))
        (some hello)
        none
        none
        (process (bytes "p1") (bytes "a1"))
      ≡ some (s', effects))
unfolding stoi skip_space read_sign read_int read_digits
run_reception_round_returns_example =
    run_reception_round_returns returning (some (full ∷ bytes "a" ∷ bytes "b" ∷ [])) (some hello)
      none none (process (bytes "p1") (bytes "a1")) (λ c. refl) (omega arith) refl tt tt
      (
        (tt, tt),
        (tt, tt),
        (tt, tt),
        (tt, tt),
        (tt, tt),
        Reachable.Reachable-IsValid (bytes "p1") (bytes "10.0.0.1") _ Reachable.started,
      )
