-- ===== src/Controller.antt =====
-- The controller firmware, runtime_lib/controller/main.cpp.
pub mod Decode
pub mod State
pub mod ShimDma
pub mod NdMemcpy
pub mod Barrier
pub mod Init
pub mod Lock
pub mod Cdma
pub mod Dispatch
pub mod Uart
pub mod QueueCreate
mod Tests
