-- ===== src/Host/Memory/Rows.antt =====
-- The memory that runtime_lib/airhost/memory.cpp copies against the rows of an ND copy of the controller.
use mathlib.Core.Path.{subst}
use mathlib.Core.List.{map-append}
use mlir_air_mirror.Prelude.{
  ℕ, zero, suc, ◌+◌, ◌*◌, ◌^◌, ◌<◌, ◌≡◌, ◌∙◌, refl, sym, ap, arith, u64, List, [], ◌∷◌, ◌++◌, map,
}
use mlir_air_mirror.Controller.Decode.{NdCommand}
use mlir_air_mirror.Controller.NdMemcpy.Address.{address, row, plane, volume, all_rows}
use mlir_air_mirror.Host.Memory.{
  Chunk, Copy, copy_2d, copy_3d, copy_4d, copy_all, sum_2d, sum_3d, sum_4d,
}

-- The command that copies the same memory, with lengths and strides in bytes.
abbrev pub as_command : Copy → NdCommand
as_command c = record {
  memory_space = 2;
  channel = 0;
  col = 0;
  direction = 0;
  length_1d = c.length_1d * c.size;
  length_2d = c.length_2d;
  stride_2d = c.stride_2d * c.size;
  length_3d = c.length_3d;
  stride_3d = c.stride_3d * c.size;
  length_4d = c.length_4d;
  stride_4d = c.stride_4d * c.size;
}

abbrev pub paddrs : List Chunk → List ℕ
paddrs cs = map (λ (x : Chunk). x.paddr) cs

module _ (c : Copy) (base : ℕ) where
  paddrs-copy_2d :
      (n i4 i3 i2 p b : ℕ)
      → p ≡ address (as_command c) base i4 i3 i2
      → paddrs (copy_2d c n p b).0 ≡ row (as_command c) base n i4 i3 i2
  unfolding copy_2d row
  paddrs-copy_2d zero i4 i3 i2 p b h = refl
  paddrs-copy_2d (suc n) i4 i3 i2 p b h =
      let rest =
        paddrs-copy_2d n i4 i3 (i2 + 1) (u64 (p + c.stride_2d * c.size)) (u64 (b + c.length_1d * 4))
          (omega (arith, h)) in
      ap
        (λ x.
          x ∷ paddrs (copy_2d c n (u64 (p + c.stride_2d * c.size)) (u64 (b + c.length_1d * 4))).0)
        h
      ∙ ap (λ l. address (as_command c) base i4 i3 i2 ∷ l) rest

  paddrs-copy_3d :
      (n i4 i3 p b : ℕ)
      → p ≡ address (as_command c) base i4 i3 0
      → paddrs (copy_3d c n p b).0 ≡ plane (as_command c) base n i4 i3
  unfolding copy_3d plane
  paddrs-copy_3d zero i4 i3 p b h = refl
  paddrs-copy_3d (suc n) i4 i3 p b h =
      let inner = copy_2d c (c.length_2d) p b in
      let outer = copy_3d c n (u64 (p + c.stride_3d * c.size)) inner.1 in
      map-append (λ (x : Chunk). x.paddr) inner.0 outer.0
      ∙ ap (λ l. l ++ paddrs outer.0) (paddrs-copy_2d (c.length_2d) i4 i3 0 p b h)
      ∙ ap (λ l. row (as_command c) base (c.length_2d) i4 i3 0 ++ l)
          (paddrs-copy_3d n i4 (i3 + 1) (u64 (p + c.stride_3d * c.size)) inner.1 (omega (arith, h)))

  paddrs-copy_4d :
      (n i4 p b : ℕ)
      → p ≡ address (as_command c) base i4 0 0
      → paddrs (copy_4d c n p b).0 ≡ volume (as_command c) base n i4
  unfolding copy_4d volume
  paddrs-copy_4d zero i4 p b h = refl
  paddrs-copy_4d (suc n) i4 p b h =
      let inner = copy_3d c (c.length_3d) p b in
      let outer = copy_4d c n (u64 (p + c.stride_4d * c.size)) inner.1 in
      map-append (λ (x : Chunk). x.paddr) inner.0 outer.0
      ∙ ap (λ l. l ++ paddrs outer.0) (paddrs-copy_3d (c.length_3d) i4 0 p b h)
      ∙ ap (λ l. plane (as_command c) base (c.length_3d) i4 0 ++ l)
          (paddrs-copy_4d n (i4 + 1) (u64 (p + c.stride_4d * c.size)) inner.1 (omega (arith, h)))

-- The chunks lie in the buffer from b to e, each where the one before ends, and move `bytes` each.
abbrev pub Packed : ℕ → ℕ → ℕ → List Chunk → ℕ → Type 0
Packed step bytes b [] e = b ≡ e
Packed step bytes b (x ∷ xs) e =
    (x.bounce ≡ b) × (x.bytes ≡ bytes) × Packed step bytes (u64 (b + step)) xs e

Packed-append :
    (step bytes b m e : ℕ) (xs ys : List Chunk)
    → Packed step bytes b xs m
    → Packed step bytes m ys e
    → Packed step bytes b (xs ++ ys) e
Packed-append step bytes b m e [] ys p q = subst (λ k. Packed step bytes k ys e) (sym p) q
Packed-append step bytes b m e (x ∷ xs) ys p q =
    (p.0, p.1, Packed-append step bytes (u64 (b + step)) m e xs ys p.2 q)

-- `length`, counted by the chunks.
abbrev pub elements : ℕ → List Chunk → ℕ → ℕ
elements n [] acc = acc
elements n (x ∷ xs) acc = elements n xs (u64 (acc + n))

elements-append :
    (n acc : ℕ) (xs ys : List Chunk) → elements n (xs ++ ys) acc ≡ elements n ys (elements n xs acc)
elements-append n acc [] ys = refl
elements-append n acc (x ∷ xs) ys = elements-append n (u64 (acc + n)) xs ys

module _ (c : Copy) where
  copy_2d-Packed :
      (n p b : ℕ)
      → Packed (c.length_1d * 4) (c.length_1d * c.size) b (copy_2d c n p b).0 (copy_2d c n p b).1
  unfolding copy_2d
  copy_2d-Packed zero p b = refl
  copy_2d-Packed (suc n) p b =
      (refl, refl, copy_2d-Packed n (u64 (p + c.stride_2d * c.size)) (u64 (b + c.length_1d * 4)))

  copy_3d-Packed :
      (n p b : ℕ)
      → Packed (c.length_1d * 4) (c.length_1d * c.size) b (copy_3d c n p b).0 (copy_3d c n p b).1
  unfolding copy_3d
  copy_3d-Packed zero p b = refl
  copy_3d-Packed (suc n) p b =
      let inner = copy_2d c (c.length_2d) p b in
      let outer = copy_3d c n (u64 (p + c.stride_3d * c.size)) inner.1 in
      Packed-append (c.length_1d * 4) (c.length_1d * c.size) b inner.1 outer.1 inner.0 outer.0
        (copy_2d-Packed (c.length_2d) p b)
        (copy_3d-Packed n (u64 (p + c.stride_3d * c.size)) inner.1)

  copy_4d-Packed :
      (n p b : ℕ)
      → Packed (c.length_1d * 4) (c.length_1d * c.size) b (copy_4d c n p b).0 (copy_4d c n p b).1
  unfolding copy_4d
  copy_4d-Packed zero p b = refl
  copy_4d-Packed (suc n) p b =
      let inner = copy_3d c (c.length_3d) p b in
      let outer = copy_4d c n (u64 (p + c.stride_4d * c.size)) inner.1 in
      Packed-append (c.length_1d * 4) (c.length_1d * c.size) b inner.1 outer.1 inner.0 outer.0
        (copy_3d-Packed (c.length_3d) p b)
        (copy_4d-Packed n (u64 (p + c.stride_4d * c.size)) inner.1)

  sum_2d-elements :
      (n p b acc : ℕ) → sum_2d c n acc ≡ elements (c.length_1d) (copy_2d c n p b).0 acc
  unfolding sum_2d copy_2d
  sum_2d-elements zero p b acc = refl
  sum_2d-elements (suc n) p b acc =
      sum_2d-elements n (u64 (p + c.stride_2d * c.size)) (u64 (b + c.length_1d * 4))
        (u64 (acc + c.length_1d))

  sum_3d-elements :
      (n p b acc : ℕ) → sum_3d c n acc ≡ elements (c.length_1d) (copy_3d c n p b).0 acc
  unfolding sum_3d copy_3d
  sum_3d-elements zero p b acc = refl
  sum_3d-elements (suc n) p b acc =
      let inner = copy_2d c (c.length_2d) p b in
      let outer = copy_3d c n (u64 (p + c.stride_3d * c.size)) inner.1 in
      ap (sum_3d c n) (sum_2d-elements (c.length_2d) p b acc)
      ∙ sum_3d-elements n (u64 (p + c.stride_3d * c.size)) inner.1
          (elements (c.length_1d) inner.0 acc)
      ∙ sym (elements-append (c.length_1d) acc inner.0 outer.0)

  sum_4d-elements :
      (n p b acc : ℕ) → sum_4d c n acc ≡ elements (c.length_1d) (copy_4d c n p b).0 acc
  unfolding sum_4d copy_4d
  sum_4d-elements zero p b acc = refl
  sum_4d-elements (suc n) p b acc =
      let inner = copy_3d c (c.length_3d) p b in
      let outer = copy_4d c n (u64 (p + c.stride_4d * c.size)) inner.1 in
      ap (sum_4d c n) (sum_3d-elements (c.length_3d) p b acc)
      ∙ sum_4d-elements n (u64 (p + c.stride_4d * c.size)) inner.1
          (elements (c.length_1d) inner.0 acc)
      ∙ sym (elements-append (c.length_1d) acc inner.0 outer.0)

-- The host's copies between a tensor at a 64-bit address and the bounce buffer touch, in order, the
-- rows that the controller's ND copy of the same lengths and byte strides would, for lengths of the
-- three loops below 2^32, a row of fewer than 2^64 bytes and elements of 4 bytes. Their places in the
-- buffer follow each other without a gap: each begins where the bytes of the one before end. And
-- `length`, which the packet announces, counts the elements of all of them.
pub copy_all-all_rows :
    (c : Copy) (p b : ℕ)
    → p < 2 ^ 64
    → c.size ≡ 4
    → c.length_1d * 4 < 2 ^ 64
    → c.length_2d < 2 ^ 32
    → c.length_3d < 2 ^ 32
    → c.length_4d < 2 ^ 32
    → (paddrs (copy_all c p b) ≡ all_rows (as_command c) p)
      × ((e : ℕ) × Packed (c.length_1d * c.size) (c.length_1d * c.size) b (copy_all c p b) e)
      × (sum_4d c (c.length_4d) 0 ≡ elements (c.length_1d) (copy_all c p b) 0)
unfolding copy_all all_rows
copy_all-all_rows c p b h four row_bytes l2 l3 l4 = (
  paddrs-copy_4d c p (c.length_4d) 0 p b (omega (arith, h)),
  (
    (copy_4d c (c.length_4d) p b).1,
    subst
        (λ n.
          Packed (c.length_1d * n) (c.length_1d * c.size) b (copy_4d c (c.length_4d) p b).0
            (copy_4d c (c.length_4d) p b).1)
        (sym four) (copy_4d-Packed c (c.length_4d) p b),
  ),
  sum_4d-elements c (c.length_4d) p b 0,
)
