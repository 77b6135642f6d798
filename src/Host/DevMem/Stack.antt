-- ===== src/Host/DevMem/Stack.antt =====
-- Blocks of device memory do not overlap.
use mathlib.Core.Path.{subst}
use mlir_air_mirror.Prelude.{
  ℕ, ◌+◌, ◌^◌, ◌<◌, ◌≤◌, ◌≡◌, ◌∙◌, refl, sym, ap, arith, u64, false, Bool-cases, inl, inr, ltb,
  Option, none, some, List, [], ◌∷◌,
}
use mlir_air_mirror.Host.DevMem.{Allocator, Block, take_block, dev_mem_alloc}

-- The blocks that a sequence of requests gets, with their sizes.
abbrev pub granted : ℕ → Option Block → List (Block × ℕ) → List (Block × ℕ)
granted size none blocks = blocks
granted size (some b) blocks = (b, size) ∷ blocks

abbrev pub alloc_all : Allocator → List ℕ → List (Block × ℕ)
alloc_all a [] = []
alloc_all a (size ∷ sizes) = let r = dev_mem_alloc a size in granted size r.1 (alloc_all r.0 sizes)

abbrev pub AllSizes : List ℕ → Type 0
AllSizes [] = Unit
AllSizes (s ∷ ss) = (s < 2 ^ 32) × AllSizes ss

-- The blocks lie one behind the other between the offsets lo and hi of the device memory.
abbrev pub Stacked : ℕ → ℕ → ℕ → ℕ → List (Block × ℕ) → Type 0
Stacked dev_mem global lo hi [] = Unit
Stacked dev_mem global lo hi ((b, size) ∷ blocks) =
    (offset : ℕ) × (lo ≤ offset)
    × (offset + size ≤ hi)
    × (b.user_ptr ≡ u64 (dev_mem + offset))
    × (b.pa ≡ u64 (offset + global))
    × Stacked dev_mem global (offset + size) hi blocks

-- The test does not wrap around.
no_wrap :
    (a : Allocator) (size : ℕ)
    → size < 2 ^ 32
    → a.dev_mem_ptr + a.partition_offset ≤ a.dev_mem_size
    → a.dev_mem_size + 2 ^ 32 ≤ 2 ^ 64
    → ltb a.dev_mem_size (u64 (size + a.dev_mem_ptr + a.partition_offset)) ≡ false
    → a.dev_mem_ptr + a.partition_offset + size ≤ a.dev_mem_size
no_wrap a size s h k e =
    let same : u64 (size + a.dev_mem_ptr + a.partition_offset)
        ≡ size + a.dev_mem_ptr + a.partition_offset =
      omega (arith, s, h, k) in
    let e' : ltb a.dev_mem_size (size + a.dev_mem_ptr + a.partition_offset) ≡ false =
      sym (ap (ltb a.dev_mem_size) same) ∙ e in
    let le : size + a.dev_mem_ptr + a.partition_offset ≤ a.dev_mem_size = ground arith in
    omega (arith, le)

-- The requests of a sequence of 32-bit sizes get blocks one behind the other, so that no two share a
-- byte, between the allocator's pointer in its partition and the end of the device memory, with the
-- physical addresses at the same offsets from the global one, if the memory ends 2^32 bytes before the
-- end of the 64-bit range and the pointer is not behind the memory.
pub alloc_all-Stacked :
    (sizes : List ℕ) (a : Allocator)
    → AllSizes sizes
    → a.dev_mem_ptr + a.partition_offset ≤ a.dev_mem_size
    → a.dev_mem_size + 2 ^ 32 ≤ 2 ^ 64
    → Stacked a.dev_mem a.global_offset
        (a.dev_mem_ptr + a.partition_offset)
        a.dev_mem_size
        (alloc_all a sizes)
unfolding dev_mem_alloc
alloc_all-Stacked [] a s h k = tt
alloc_all-Stacked (size ∷ sizes) a s h k =
    elim (Bool-cases (ltb a.dev_mem_size (u64 (size + a.dev_mem_ptr + a.partition_offset)))) [
      | inl e ↦ rw (e) (alloc_all-Stacked sizes a s.1 h k)
      | inr e ↦
          let fits : a.dev_mem_ptr + a.partition_offset + size ≤ a.dev_mem_size =
            no_wrap a size s.0 h k e in
          let next : u64 (a.dev_mem_ptr + size) + a.partition_offset
              ≡ a.dev_mem_ptr + a.partition_offset + size =
            omega (arith, fits, k) in
          rw (e) (
            a.dev_mem_ptr + a.partition_offset,
            omega arith,
            fits,
            ap u64 (omega arith),
            refl,
            subst
                (λ lo.
                  Stacked a.dev_mem a.global_offset lo a.dev_mem_size
                    (alloc_all (take_block a size) sizes))
                next
                (alloc_all-Stacked sizes (take_block a size) s.1 (omega (arith, next, fits)) k),
          )
    ]
