-- ===== src/Ernic/Buffer/Page.antt =====
-- Pages of device memory, one behind the other.
use mlir_air_mirror.Prelude.{
  ℕ, ◌+◌, ◌*◌, ◌^◌, ◌≤◌, ◌<◌, ◌≡◌, refl, arith, true, false, ◌==◌, ltb, u64, some,
}
use mlir_air_mirror.Host.DevMem.{Allocator, dev_mem_alloc}
use mlir_air_mirror.Ernic.State.{Buff, Card, ok}
use mlir_air_mirror.Ernic.Buffer.{pcie_ernic_malloc}

-- The allocator has room for `n` pages, and no address wraps around.
pub record HasRoom (n : ℕ) (a : Allocator) : Type 0 where
  pub room : a.dev_mem_ptr + a.partition_offset + 4096 * n ≤ a.dev_mem_size
  pub mapped : 0 < a.dev_mem
  pub virtual : a.dev_mem + a.dev_mem_size < 2 ^ 64
  pub physical : a.global_offset + a.dev_mem_size < 2 ^ 64

-- The page at the allocator's pointer.
abbrev pub page_at : Allocator → Buff
page_at a = record {
  buff = a.dev_mem + a.partition_offset + a.dev_mem_ptr;
  pa = a.dev_mem_ptr + a.partition_offset + a.global_offset;
  size = 4096;
  on_device = true;
}

abbrev pub next_page : Allocator → Allocator
next_page a = record a { dev_mem_ptr = a.dev_mem_ptr + 4096 }

pub HasRoom-next_page : (n : ℕ) (a : Allocator) → HasRoom (n + 1) a → HasRoom n (next_page a)
HasRoom-next_page n a h = record {
  room = omega (arith, h.room);
  mapped = h.mapped;
  virtual = h.virtual;
  physical = h.physical;
}

pub page_at-mapped : (n : ℕ) (a : Allocator) → HasRoom (n + 1) a → ((page_at a).buff == 0) ≡ false
page_at-mapped n a h = let m : 0 < a.dev_mem = h.mapped in ground arith

pub pcie_ernic_malloc-page_at :
    (n junk : ℕ) (c : Card)
    → HasRoom (n + 1) c.allocator
    → pcie_ernic_malloc junk 4096 true c
      ≡ ok (some (page_at c.allocator)) (record c { allocator = next_page c.allocator })
unfolding pcie_ernic_malloc dev_mem_alloc
pcie_ernic_malloc-page_at n junk c h =
    let a : Allocator = c.allocator in
    let r : a.dev_mem_ptr + a.partition_offset + 4096 * (n + 1) ≤ a.dev_mem_size = h.room in
    let v : a.dev_mem + a.dev_mem_size < 2 ^ 64 = h.virtual in
    let p : a.global_offset + a.dev_mem_size < 2 ^ 64 = h.physical in
    let fits : ltb a.dev_mem_size (u64 (4096 + a.dev_mem_ptr + a.partition_offset)) ≡ false =
      ground arith in
    let va : u64 (a.dev_mem + a.partition_offset + a.dev_mem_ptr)
        ≡ a.dev_mem + a.partition_offset + a.dev_mem_ptr =
      omega arith in
    let pa : u64 (a.dev_mem_ptr + a.partition_offset + a.global_offset)
        ≡ a.dev_mem_ptr + a.partition_offset + a.global_offset =
      omega arith in
    let ptr : u64 (a.dev_mem_ptr + 4096) ≡ a.dev_mem_ptr + 4096 = omega arith in
    rw (pcie_ernic_malloc, dev_mem_alloc, fits, va, pa, ptr) refl
