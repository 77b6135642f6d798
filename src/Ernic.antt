-- ===== src/Ernic.antt =====
-- The library of the RDMA card ERNIC over PCIe: runtime_lib/airhost/pcie-ernic.cpp.
pub mod State
pub mod Log
pub mod Registers
pub mod Doorbell
pub mod Wqe
pub mod Buffer
pub mod Qp
pub mod Region
pub mod Advertise
pub mod Mac
pub mod Open
mod Tests
