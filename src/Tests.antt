-- ===== src/Tests.antt =====
-- Runs of the definitions at concrete inputs, by the part of the program they are about.
mod Wire
mod Storages
mod Names
mod Processes
mod Broadcasts
mod Nodes
mod Services
mod Lifetimes
mod Hosts
mod Handshakes
