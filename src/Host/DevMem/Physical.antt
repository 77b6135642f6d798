-- ===== src/Host/DevMem/Physical.antt =====
-- The physical addresses of runtime_lib/airhost/memory.cpp.
use mathlib.Core.Option.{none-ne-some, some-injective}
use mlir_air_mirror.Prelude.{
  ℕ, ◌+◌, ◌^◌, ◌<◌, ◌≤◌, ◌≡◌, ◌∙◌, sym, ap, arith, u64, sub64, false, Bool-cases, inl, inr, ltb,
  if-true, if-false, Option, none, some,
}
use mlir_air_mirror.Host.DevMem.{
  AirAllocator, air_bbuff_base, air_dev_mem_alloc, air_dev_mem_get_pa,
}

-- `air_dev_mem_get_pa` answers the base of the device memory plus the allocator's pointer for the
-- address that `air_dev_mem_alloc` has just given at that pointer, all in 64 bits. The address is given
-- only if the block ends in the memory, for 32-bit sizes and a pointer 2^32 below the end of the range.
pub air_dev_mem_get_pa-air_dev_mem_alloc :
    (a : AirAllocator) (s : Option AirAllocator) (size va : ℕ)
    → a.dev_mem < 2 ^ 64
    → a.dev_mem_ptr + 2 ^ 32 ≤ 2 ^ 64
    → size < 2 ^ 32
    → air_dev_mem_alloc (some a) size ≡ (s, some va)
    → (air_dev_mem_get_pa s va ≡ u64 (a.dev_mem_ptr + air_bbuff_base))
      × (a.dev_mem_ptr + size ≤ a.dev_mem_size)
unfolding air_dev_mem_alloc air_dev_mem_get_pa
air_dev_mem_get_pa-air_dev_mem_alloc a s size va hm hp hs e =
    elim (Bool-cases (ltb a.dev_mem_size (u64 (size + a.dev_mem_ptr)))) [
      | inl t ↦
          let r : (some a, none) ≡ (s, some va) =
            sym (if-true {b = ltb a.dev_mem_size (u64 (size + a.dev_mem_ptr))} _ _ t) ∙ e in
          absurd (none-ne-some va (ap (λ (x : Option AirAllocator × Option ℕ). x.1) r))
      | inr t ↦
          let r =
            sym (if-false {b = ltb a.dev_mem_size (u64 (size + a.dev_mem_ptr))} (some a, none) _ t)
            ∙ e in
          let state = ap (λ (x : Option AirAllocator × Option ℕ). x.0) r in
          let given = some-injective _ va (ap (λ (x : Option AirAllocator × Option ℕ). x.1) r) in
          (
            ap (λ x. air_dev_mem_get_pa x va) (sym state)
                ∙ ap (λ x. u64 (sub64 x a.dev_mem + air_bbuff_base)) (sym given)
                ∙ omega (arith, hm, hp),
            fits t,
          )
    ]
  where
    fits :
        ltb a.dev_mem_size (u64 (size + a.dev_mem_ptr)) ≡ false
        → a.dev_mem_ptr + size ≤ a.dev_mem_size
    fits t =
        let same : u64 (size + a.dev_mem_ptr) ≡ size + a.dev_mem_ptr = omega (arith, hp, hs) in
        let t' : ltb a.dev_mem_size (size + a.dev_mem_ptr) ≡ false =
          sym (ap (ltb a.dev_mem_size) same) ∙ t in
        let le : size + a.dev_mem_ptr ≤ a.dev_mem_size = ground arith in omega (arith, le)
