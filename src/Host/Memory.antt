-- ===== src/Host/Memory.antt =====
-- The copies through the bounce buffer in runtime_lib/airhost/memory.cpp: which memory the loops around
-- `memcpy` touch. A size is that of an element in bytes; addresses are 64-bit words.
pub mod Rows
use mlir_air_mirror.Prelude.{ℕ, zero, suc, ◌+◌, ◌*◌, ◌^◌, ◌%◌, u64, List, [], ◌∷◌, ◌++◌}

-- A call of `memcpy`: the address in the tensor, that in the bounce buffer, and the bytes.
pub record Chunk : Type 0 where
  pub paddr : ℕ
  pub bounce : ℕ
  pub bytes : ℕ

-- The parameters of the loops. Strides and `length_1d` count elements.
pub record Copy : Type 0 where
  pub size : ℕ
  pub length_1d : ℕ
  pub length_2d : ℕ
  pub length_3d : ℕ
  pub length_4d : ℕ
  pub stride_2d : ℕ
  pub stride_3d : ℕ
  pub stride_4d : ℕ

abbrev pub Chunks : Type 0
Chunks = List Chunk × ℕ

module _ (c : Copy) where
  -- The loops, each with the rounds left (their `uint32_t` indices reach a length below 2^32; a loop
  -- of a longer length never ends in the source), and the address in `bounce_buffer`, a `uint32_t *`, behind.
  unfoldable pub copy_2d : ℕ → ℕ → ℕ → Chunks
  copy_2d zero paddr_1d bounce = ([], bounce)
  copy_2d (suc n) paddr_1d bounce =
      let rest =
        copy_2d n (u64 (paddr_1d + c.stride_2d * c.size)) (u64 (bounce + c.length_1d * 4)) in
      (record { paddr = paddr_1d; bounce = bounce; bytes = c.length_1d * c.size } ∷ rest.0, rest.1)

  unfoldable pub copy_3d : ℕ → ℕ → ℕ → Chunks
  unfolding copy_2d
  copy_3d zero paddr_2d bounce = ([], bounce)
  copy_3d (suc n) paddr_2d bounce =
      let inner = copy_2d c.length_2d paddr_2d bounce in
      let rest = copy_3d n (u64 (paddr_2d + c.stride_3d * c.size)) inner.1 in
      (inner.0 ++ rest.0, rest.1)

  unfoldable pub copy_4d : ℕ → ℕ → ℕ → Chunks
  unfolding copy_3d
  copy_4d zero paddr_3d bounce = ([], bounce)
  copy_4d (suc n) paddr_3d bounce =
      let inner = copy_3d c.length_3d paddr_3d bounce in
      let rest = copy_4d n (u64 (paddr_3d + c.stride_4d * c.size)) inner.1 in
      (inner.0 ++ rest.0, rest.1)

  -- All calls of `memcpy`, from the tensor's address and the buffer's.
  unfoldable pub copy_all : ℕ → ℕ → List Chunk
  unfolding copy_4d
  copy_all p bounce = (copy_4d c.length_4d p bounce).0

  -- The loops that add up `length`, with the same indices.
  unfoldable pub sum_2d : ℕ → ℕ → ℕ
  sum_2d zero length = length
  sum_2d (suc n) length = sum_2d n (u64 (length + c.length_1d))

  unfoldable pub sum_3d : ℕ → ℕ → ℕ
  unfolding sum_2d
  sum_3d zero length = length
  sum_3d (suc n) length = sum_3d n (sum_2d c.length_2d length)

  unfoldable pub sum_4d : ℕ → ℕ → ℕ
  unfolding sum_3d
  sum_4d zero length = length
  sum_4d (suc n) length = sum_4d n (sum_3d c.length_3d length)

-- The loop over the offsets and the dimensions, both from the innermost one.
unfoldable pub tensor_offset : ℕ → List ℕ → List ℕ → ℕ → ℕ → ℕ
tensor_offset size [] dims stride offset = offset
tensor_offset size (o ∷ os) [] stride offset = offset
tensor_offset size (o ∷ os) (d ∷ dims) stride offset =
    tensor_offset size os dims (u64 (stride * d)) (u64 (offset + o * stride * size))
