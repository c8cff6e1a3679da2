-- ===== src/Packet.antt =====
-- src/Packet.cc and include/ignition/transport/Packet.hh: the discovery messages and their bytes.
pub mod Bytes
pub mod Header
pub mod Subscription
pub mod Advertise
pub mod Stays
