-- ===== src/Ernic/Buffer.antt =====
-- `pcie_ernic_malloc` of runtime_lib/airhost/pcie-ernic.cpp, for a device that is not null and a host
-- that has memory for the struct. Freeing a buffer gives nothing back to the device.
pub mod Page
use mlir_air_mirror.Prelude.{ℕ, Bool, true, false, Option, none, some}
use mlir_air_mirror.Host.DevMem.{Block, dev_mem_alloc}
use mlir_air_mirror.Ernic.State.{Buff, ok, M}

-- What the block holds; without a block the pointer is null, and `pa` is what the struct held before.
abbrev pub fill : ℕ → ℕ → Option Block → Buff
fill junk size none = record { buff = 0; pa = junk; size = size; on_device = true }
fill junk size (some b) = record { buff = b.user_ptr; pa = b.pa; size = size; on_device = true }

-- `junk` is what fresh memory holds.
unfoldable pub pcie_ernic_malloc : ℕ → ℕ → Bool → M (Option Buff)
pcie_ernic_malloc junk size false c = ok none c
pcie_ernic_malloc junk size true c =
    let r = dev_mem_alloc c.allocator size in
    ok (some (fill junk size r.1)) (record c { allocator = r.0 })
