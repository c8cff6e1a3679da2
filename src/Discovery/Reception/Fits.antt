-- ===== src/Discovery/Reception/Fits.antt =====
-- `Discovery::RecvDiscoveryUpdate` of src/Discovery.cc, for datagrams that its buffer can hold.
use ign_transport_git.Base.{
  ℕ, zero, suc, ◌≤◌, ◌≡◌, refl, ap, ◌∙◌, some, [], ◌∷◌, ◌++◌, length, drop, drop-nil, arith, Text,
}
use ign_transport_git.Discovery.{Discovery}
use ign_transport_git.Discovery.Dispatch.{dispatch_discovery_msg}
use ign_transport_git.Discovery.Reception.{max_rcv_str, fill, recv_discovery_update}

-- A datagram that the buffer can hold arrives whole, before what was left in the buffer.
fill_lem :
    (n : ℕ) (datagram buffer : Text)
    → length datagram ≤ n
    → fill n datagram buffer ≡ datagram ++ drop (length datagram) buffer
unfolding fill
fill_lem zero [] buffer h = refl
fill_lem zero (byte ∷ datagram) buffer h = absurd (omega arith)
fill_lem (suc n) [] buffer h = refl
fill_lem (suc n) (byte ∷ datagram) [] h =
    ap (λ x. byte ∷ x)
      (fill_lem n datagram [] (omega arith) ∙ ap (λ x. datagram ++ x) (drop-nil (length datagram)))
fill_lem (suc n) (byte ∷ datagram) (old ∷ buffer) h =
    ap (λ x. byte ∷ x) (fill_lem n datagram buffer (omega arith))

-- Such a datagram is dispatched with the old bytes of the buffer behind it.
pub recv_discovery_update_lem :
    (from_ip datagram buffer : Text) (now : ℕ) (d : Discovery)
    → length datagram ≤ max_rcv_str
    → recv_discovery_update (some (from_ip, datagram)) buffer now d
      ≡ dispatch_discovery_msg from_ip (datagram ++ drop (length datagram) buffer) now d
unfolding recv_discovery_update
recv_discovery_update_lem from_ip datagram buffer now d room =
    rw (fill_lem max_rcv_str datagram buffer room) refl
