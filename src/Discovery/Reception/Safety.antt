-- ===== src/Discovery/Reception/Safety.antt =====
-- The storages of src/Discovery.cc when `Discovery::RecvDiscoveryUpdate` has run.
use ign_transport_git.Base.{ℕ, Option, none, some, [], Text}
use ign_transport_git.Discovery.{Discovery}
use ign_transport_git.Discovery.Dispatch.Rule.{Keeps, keep}
use ign_transport_git.Discovery.Reachable.{IsValid, dispatch-IsValid}
use ign_transport_git.Discovery.Reception.{recv_discovery_update}

pub recv_discovery_update-IsValid :
    (received : Option (Text × Text)) (buffer : Text) (now : ℕ) (d : Discovery)
    → IsValid d
    → Keeps IsValid (recv_discovery_update received buffer now d)
unfolding recv_discovery_update
recv_discovery_update-IsValid none buffer now d v = keep IsValid d [] v
recv_discovery_update-IsValid (some (from_ip, datagram)) buffer now d v =
    dispatch-IsValid from_ip _ now d v
