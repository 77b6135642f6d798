-- ===== src/Host.antt =====
-- The host library, runtime_lib/airhost.
pub mod Packets
pub mod AirQueue
pub mod Memory
pub mod DevMem
mod Tests
