-- ===== src/Host/Tests.antt =====
-- A copy of three planes, and two allocators.
use mlir_air_mirror.Prelude.{ℕ, ◌+◌, ◌*◌, ◌≤◌, ◌≡◌, refl, arith, u64, some, [], ◌∷◌, length}
use mlir_air_mirror.Controller.NdMemcpy.Address.{all_rows}
use mlir_air_mirror.Host.Memory.{Copy, copy_all, sum_4d, tensor_offset}
use mlir_air_mirror.Host.Memory.Rows.{paddrs, as_command, Packed, elements, copy_all-all_rows}
use mlir_air_mirror.Host.DevMem.{
  Allocator, AirAllocator, air_bbuff_base, air_take_block, air_dev_mem_alloc, air_dev_mem_get_pa,
  dev_mem_alloc,
}
use mlir_air_mirror.Host.DevMem.Stack.{alloc_all, Stacked, alloc_all-Stacked}
use mlir_air_mirror.Host.DevMem.Physical.{air_dev_mem_get_pa-air_dev_mem_alloc}

abbrev three_planes : Copy
three_planes = record {
  size = 4;
  length_1d = 8;
  length_2d = 2;
  length_3d = 3;
  length_4d = 1;
  stride_2d = 16;
  stride_3d = 64;
  stride_4d = 1;
}

copy_all_test : paddrs (copy_all three_planes 1000 0) ≡ 1000 ∷ 1064 ∷ 1256 ∷ 1320 ∷ 1512 ∷ 1576 ∷ []
unfolding copy_all
copy_all_test = refl

tensor_offset_test : tensor_offset 4 (2 ∷ 1 ∷ []) (10 ∷ 5 ∷ []) 1 0 ≡ 48
unfolding tensor_offset
tensor_offset_test = refl

copy_all-all_rows_example :
    (paddrs (copy_all three_planes 1000 0) ≡ all_rows (as_command three_planes) 1000)
    × ((e : ℕ) × Packed (8 * 4) (8 * 4) 0 (copy_all three_planes 1000 0) e)
    × (sum_4d three_planes 1 0 ≡ elements 8 (copy_all three_planes 1000 0) 0)
copy_all-all_rows_example =
    copy_all-all_rows three_planes 1000 0 (omega arith) refl (omega arith) (omega arith)
      (omega arith) (omega arith)

abbrev sample_allocator : Allocator
sample_allocator = record {
  dev_mem = 4096;
  dev_mem_ptr = 0;
  dev_mem_size = 1000;
  partition_offset = 100;
  global_offset = 70000;
}

alloc_all_test : length (alloc_all sample_allocator (500 ∷ 500 ∷ 300 ∷ [])) ≡ 2
unfolding dev_mem_alloc
alloc_all_test = refl

alloc_all-Stacked_example :
    Stacked 4096 70000 100 1000 (alloc_all sample_allocator (500 ∷ 500 ∷ 300 ∷ []))
alloc_all-Stacked_example =
    alloc_all-Stacked (500 ∷ 500 ∷ 300 ∷ []) sample_allocator
      (omega arith, (omega arith, (omega arith, tt))) (omega arith) (omega arith)

abbrev air_allocator : AirAllocator
air_allocator = record { dev_mem = 4096; dev_mem_ptr = 32; dev_mem_size = 1000 }

air_granted :
    air_dev_mem_alloc (some air_allocator) 500
    ≡ (some (air_take_block air_allocator 500), some 4128)
unfolding air_dev_mem_alloc
air_granted = refl

air_dev_mem_get_pa-air_dev_mem_alloc_example :
    (air_dev_mem_get_pa (some (air_take_block air_allocator 500)) 4128 ≡ u64 (32 + air_bbuff_base))
    × (32 + 500 ≤ 1000)
air_dev_mem_get_pa-air_dev_mem_alloc_example =
    air_dev_mem_get_pa-air_dev_mem_alloc air_allocator (some (air_take_block air_allocator 500)) 500
      4128 (omega arith) (omega arith) (omega arith) air_granted
