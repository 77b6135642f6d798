-- ===== src/AirToAie.antt =====
-- The lowering of DMA copies and locks in mlir/lib/Conversion/AIRToAIEPass.cpp. The operations of a
-- module are lists of what the code reads of them.
pub mod DmaAllocator
pub mod TileDma
pub mod Locks
pub mod BdProgram
mod Tests
