-- ===== src/Controller/NdMemcpy/Address.antt =====
-- The rows of an ND copy, independently of the loops of `do_packet_nd_memcpy`: which addresses a
-- command asks for, and which of them are left at a cursor.
use mlir_air_mirror.Prelude.{
  ℕ, zero, suc, ◌+◌, ◌-◌, ◌*◌, ◌^◌, ◌<◌, ◌≤◌, ◌≡◌, refl, ap, List, [], ◌∷◌, ◌++◌, u64, arith,
}
use mlir_air_mirror.Controller.Decode.{NdCommand}
use mlir_air_mirror.Controller.State.{Cursor}
use mlir_air_mirror.Controller.NdMemcpy.{step_2d, step_3d, step_4d, start_cursor}

module _ (cmd : NdCommand) (base : ℕ) where
  open cmd use {length_2d, length_3d, length_4d, stride_2d, stride_3d, stride_4d}

  -- The address of row (i4, i3, i2).
  abbrev pub address : ℕ → ℕ → ℕ → ℕ
  address i4 i3 i2 = u64 (base + i4 * stride_4d + i3 * stride_3d + i2 * stride_2d)

  unfoldable pub row : ℕ → ℕ → ℕ → ℕ → List ℕ
  row zero i4 i3 i2 = []
  row (suc n) i4 i3 i2 = address i4 i3 i2 ∷ row n i4 i3 (i2 + 1)

  unfoldable pub plane : ℕ → ℕ → ℕ → List ℕ
  plane zero i4 i3 = []
  plane (suc n) i4 i3 = row length_2d i4 i3 0 ++ plane n i4 (i3 + 1)

  unfoldable pub volume : ℕ → ℕ → List ℕ
  volume zero i4 = []
  volume (suc n) i4 = plane length_3d i4 0 ++ volume n (i4 + 1)

  -- All rows of the copy, the last index running fastest.
  unfoldable pub all_rows : List ℕ
  unfolding row plane volume
  all_rows = volume length_4d 0

  -- What is left with `n` rounds of a loop to go, this one begun at the cursor.
  unfoldable pub left_2d : ℕ → Cursor → List ℕ
  unfolding row
  left_2d n cur = row n cur.index_4d cur.index_3d cur.index_2d

  unfoldable pub left_3d : ℕ → Cursor → List ℕ
  unfolding left_2d plane
  left_3d zero cur = []
  left_3d (suc n) cur =
      left_2d (length_2d - cur.index_2d) cur ++ plane n cur.index_4d (cur.index_3d + 1)

  unfoldable pub left_4d : ℕ → Cursor → List ℕ
  unfolding left_3d volume
  left_4d zero cur = []
  left_4d (suc n) cur = left_3d (length_3d - cur.index_3d) cur ++ volume n (cur.index_4d + 1)

  -- The address variables agree with the indices.
  pub record At (cur : Cursor) : Type 0 where
    pub row_addr :
        cur.index_3d < length_3d → cur.paddr_1d ≡ address cur.index_4d cur.index_3d cur.index_2d
    pub next_addr :
        length_3d ≤ cur.index_3d → 0 < length_3d → cur.paddr_1d ≡ address (cur.index_4d + 1) 0 0
    pub next_row : length_3d ≤ cur.index_3d → 0 < length_3d → cur.index_2d ≡ 0
    pub plane_addr : cur.paddr_2d ≡ address cur.index_4d cur.index_3d 0
    pub volume_addr : cur.paddr_3d ≡ address cur.index_4d 0 0

  pub step_2d-At : (cur : Cursor) → At cur → cur.index_3d < length_3d → At (step_2d cmd cur)
  step_2d-At cur a h = record {
    row_addr = λ h. omega (arith, a.row_addr h);
    next_addr = λ h'. absurd (omega arith);
    next_row = λ h'. absurd (omega arith);
    plane_addr = a.plane_addr;
    volume_addr = a.volume_addr;
  }

  pub step_3d-At : (cur : Cursor) → At cur → cur.index_3d < length_3d → At (step_3d cmd cur)
  step_3d-At cur a h = record {
    row_addr = λ h. ground (arith, a.plane_addr);
    next_addr = λ h h'. ground (arith, a.volume_addr);
    next_row = λ h h'. refl;
    plane_addr = omega (arith, a.plane_addr);
    volume_addr = a.volume_addr;
  }

  pub step_4d-At : (cur : Cursor) → At cur → length_3d ≤ cur.index_3d → At (step_4d cmd cur)
  step_4d-At cur a h = record {
    row_addr =
        λ h'. omega (arith, ap (λ (t : ℕ). t * stride_2d) (a.next_row h h'), a.next_addr h h');
    next_addr = λ h' h''. absurd (omega arith);
    next_row = λ h' h''. absurd (omega arith);
    plane_addr = omega (arith, a.volume_addr);
    volume_addr = omega (arith, a.volume_addr);
  }

  pub start_cursor-At : base < 2 ^ 64 → At (start_cursor base)
  start_cursor-At h = record {
    row_addr = λ h'. omega arith;
    next_addr = λ h' h''. absurd (omega arith);
    next_row = λ h' h''. absurd (omega arith);
    plane_addr = omega arith;
    volume_addr = omega arith;
  }

  -- A loop that begins a plane, or a volume, has all of it left.
  pub left_3d-plane :
      (n : ℕ) (cur : Cursor)
      → (0 < n → cur.index_2d ≡ 0)
      → left_3d n cur ≡ plane n cur.index_4d cur.index_3d
  unfolding left_3d
  left_3d-plane zero cur z = refl
  left_3d-plane (suc n) cur z = rw (z (omega arith)) (
      ap (λ (k : ℕ). row k cur.index_4d cur.index_3d 0 ++ plane n cur.index_4d (cur.index_3d + 1))
        (omega arith))

  pub left_4d-volume :
      (n : ℕ) (cur : Cursor)
      → cur.index_3d ≡ 0
      → (0 < length_3d → cur.index_2d ≡ 0)
      → left_4d n cur ≡ volume n cur.index_4d
  unfolding left_4d
  left_4d-volume zero cur e z = refl
  left_4d-volume (suc n) cur e z =
      let whole : length_3d - cur.index_3d ≡ length_3d = omega arith in
      ap (λ (rows : List ℕ). rows ++ volume n (cur.index_4d + 1))
        (rw (whole, left_3d-plane length_3d cur z, e))
