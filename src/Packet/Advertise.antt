-- ===== src/Packet/Advertise.antt =====
-- The classes `AdvertiseBase`, `AdvertiseMsg` and `AdvertiseSrv` of src/Packet.cc.
pub mod Base
pub mod Msg
pub mod Srv
