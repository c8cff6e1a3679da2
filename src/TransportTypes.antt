-- ===== src/TransportTypes.antt =====
-- include/ignition/transport/TransportTypes.hh: the types that the components share.
use ign_transport_git.Base.{ℕ, List, Text}
use ign_transport_git.Base.Map.{Map}

-- `enum class Scope`; a byte from the wire may stand for no enumerator.
pub data Scope : Type 0 where
  process host all : Scope
  unnamed : ℕ → Scope

pub data MsgType : Type 0 where
  msg srv : MsgType

-- `Address_t`: one publisher.
pub record Address : Type 0 where
  pub addr : Text
  pub ctrl : Text
  pub n_uuid : Text
  pub scope : Scope

-- `Addresses_M`: the publishers of a topic by process UUID.
abbrev pub Addresses : Type 0
Addresses = Map (List Address)
