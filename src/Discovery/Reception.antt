-- ===== src/Discovery/Reception.antt =====
-- A round of `Discovery::RunReceptionTask`, and `~Discovery`, of src/Discovery.cc. The socket is not
-- under src/: what `poll` and `recvfrom` give is an argument.
pub mod Fits
pub mod Leaving
pub mod Safety
use ign_transport_git.Base.{ℕ, zero, suc, true, Option, none, some, [], ◌∷◌, drop, Text}
use ign_transport_git.TransportTypes.{all}
use ign_transport_git.Packet.Header
use ign_transport_git.Discovery.{Discovery}
use ign_transport_git.Discovery.Send.{send_msg}
use ign_transport_git.Discovery.Local.{Step}
use ign_transport_git.Discovery.Dispatch.{dispatch_discovery_msg}

-- `DiscoveryPrivate::MaxRcvStr`.
abbrev pub max_rcv_str : ℕ
max_rcv_str = 65536

-- `recvfrom` writes at most that many bytes of the datagram over the start of the buffer and leaves
-- the rest of the buffer as it was.
unfoldable pub fill : ℕ → Text → Text → Text
fill zero datagram buffer = buffer
fill (suc n) [] buffer = buffer
fill (suc n) (byte ∷ datagram) buffer = byte ∷ fill n datagram (drop 1 buffer)

-- `Discovery::RecvDiscoveryUpdate`: `received` is the sender's address and the datagram, or `none`
-- where `recvfrom` fails, and `buffer` is what stood in `rcvStr`, which is not initialized.
unfoldable pub recv_discovery_update : Option (Text × Text) → Text → ℕ → Discovery → Step
recv_discovery_update none buffer now d = some (d, [])
recv_discovery_update (some (from_ip, datagram)) buffer now d =
    dispatch_discovery_msg from_ip (fill max_rcv_str datagram buffer) now d

-- A round of the loop: `none` where the poll of the socket timed out.
unfoldable pub run_reception_round : Option (Option (Text × Text)) → Text → ℕ → Discovery → Step
run_reception_round none buffer now d = some (d, [])
run_reception_round (some received) buffer now d = recv_discovery_update received buffer now d

-- `~Discovery`, after which the three loops end.
unfoldable pub destroy : Discovery → Step
destroy d = elim (send_msg (record d { exit = true }) Header.bye_type [] [] [] [] all 0) [
  | none ↦ none
  | some events ↦ some (record d { exit = true }, events)
]
