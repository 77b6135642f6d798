-- ===== src/Host/DevMem.antt =====
-- The allocators of device memory: runtime_lib/airhost/pcie-ernic-dev-mem-allocator.cpp, and that of
-- runtime_lib/airhost/memory.cpp. A pointer into the mapped memory is its 64-bit address.
pub mod Stack
pub mod Physical
use mlir_air_mirror.Prelude.{
  ℕ, ◌+◌, ◌^◌, ◌%◌, u64, sub64, Bool, ltb, if◌then◌else◌, Option, none, some, List, [], ◌∷◌,
}

-- `pcie_ernic_dev_mem_allocator`.
pub record Allocator : Type 0 where
  pub dev_mem : ℕ
  pub dev_mem_ptr : ℕ
  pub dev_mem_size : ℕ
  pub partition_offset : ℕ
  pub global_offset : ℕ

-- What `dev_mem_alloc` answers: the user's pointer and `*pa`.
pub record Block : Type 0 where
  pub user_ptr : ℕ
  pub pa : ℕ

abbrev pub take_block : Allocator → ℕ → Allocator
take_block a size = record {
  dev_mem = a.dev_mem;
  dev_mem_ptr = u64 (a.dev_mem_ptr + size);
  dev_mem_size = a.dev_mem_size;
  partition_offset = a.partition_offset;
  global_offset = a.global_offset;
}

-- For an allocator that is not null; a `pa` that is null gets nothing.
unfoldable pub dev_mem_alloc : Allocator → ℕ → Allocator × Option Block
dev_mem_alloc a size =
    if ltb a.dev_mem_size (u64 (size + a.dev_mem_ptr + a.partition_offset)) then (a, none) else (
      take_block a size,
      some (record {
        user_ptr = u64 (a.dev_mem + a.partition_offset + a.dev_mem_ptr);
        pa = u64 (a.dev_mem_ptr + a.partition_offset + a.global_offset);
      }),
    )

-- `dev_mem_allocator` of memory.cpp, which may be null.
pub record AirAllocator : Type 0 where
  pub dev_mem : ℕ
  pub dev_mem_ptr : ℕ
  pub dev_mem_size : ℕ

-- Without AIR_PCIE.
abbrev pub air_bbuff_base : ℕ
air_bbuff_base = 0x81c000000

abbrev pub air_take_block : AirAllocator → ℕ → AirAllocator
air_take_block a size = record {
  dev_mem = a.dev_mem;
  dev_mem_ptr = u64 (a.dev_mem_ptr + size);
  dev_mem_size = a.dev_mem_size;
}

-- A null pointer is none.
unfoldable pub air_dev_mem_alloc : Option AirAllocator → ℕ → Option AirAllocator × Option ℕ
air_dev_mem_alloc none size = (none, none)
air_dev_mem_alloc (some a) size =
    if ltb a.dev_mem_size (u64 (size + a.dev_mem_ptr))
    then (some a, none)
    else (some (air_take_block a size), some (u64 (a.dev_mem + a.dev_mem_ptr)))

unfoldable pub air_dev_mem_get_pa : Option AirAllocator → ℕ → ℕ
air_dev_mem_get_pa none buff_va = 0
air_dev_mem_get_pa (some a) buff_va = u64 (sub64 buff_va a.dev_mem + air_bbuff_base)
