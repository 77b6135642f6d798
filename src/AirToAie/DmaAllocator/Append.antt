-- ===== src/AirToAie/DmaAllocator/Append.antt =====
-- The allocation that `getTile` of mlir/lib/Conversion/AIRToAIEPass.cpp makes for a new user.
use mathlib.Core.List.{map-append}
use mlir_air_mirror.Prelude.{
  ℕ, suc, ◌+◌, ◌/◌, ◌%◌, ◌≡◌, ◌∙◌, refl, sym, ap, arith, true, false, ◌&&◌, ◌||◌, ◌==◌, ==_iff,
  if-true, Option, none, some, List, [], ◌∷◌, ◌++◌, length, get_elem?,
}
use mlir_air_mirror.AirToAie.DmaAllocator.{Allocation, find_channel}
use mlir_air_mirror.AirToAie.DmaAllocator.Slots.{
  index_of, user_of, users_of, Slots, equal_comm, index_of-skip, index_of-append,
}

module _ (cols : List ℕ) (n : ℕ) (channel_of : ℕ → ℕ → ℕ → ℕ) (id col row : ℕ) where
  -- A new user's allocation, with column c and channel k.
  unfoldable pub made : ℕ → ℕ → Allocation
  made c k = record {
    dma_col = c;
    col = col;
    row = row;
    dma_channel = k;
    tile_channel = channel_of id col row;
    dma_id = id ∷ [];
  }

  pub append-Slots :
      (i c k : ℕ) (ts : List Allocation)
      → Slots cols n channel_of i ts
      → index_of (col, row, channel_of id col row) (users_of ts) ≡ none
      → get_elem? cols ((i + length ts) / n) ≡ some c
      → k ≡ (i + length ts) % n
      → Slots cols n channel_of i (ts ++ (made c k ∷ []))
  unfolding made
  append-Slots i c k [] s h e m =
      let z : i + 0 ≡ i = omega arith in
      (
        ap (λ j. get_elem? cols (j / n)) (sym z) ∙ e,
        m ∙ ap (λ j. j % n) z,
        λ x p. ap (λ y. channel_of y col row) ((==_iff x id).0 (ground arith)),
        refl,
        tt,
      )
  append-Slots i c k (t ∷ ts) s h e m =
      let z : i + suc (length ts) ≡ suc i + length ts = omega arith in
      let skip = index_of-skip (col, row, channel_of id col row) (user_of t) (users_of ts) h in
      (
        s.0,
        s.1,
        s.2,
        ap (index_of (user_of t)) (map-append user_of ts (made c k ∷ []))
            ∙ index_of-append (user_of t) (col, row, channel_of id col row) (users_of ts) s.3
                (equal_comm (user_of t) (col, row, channel_of id col row) ∙ skip.0),
        append-Slots (suc i) c k ts s.4 skip.1 (ap (λ j. get_elem? cols (j / n)) (sym z) ∙ e)
            (m ∙ ap (λ j. j % n) z),
      )

  pub find_channel-made :
      (c k : ℕ) (ts : List Allocation) (chan : Option ℕ)
      → find_channel id (channel_of id col row) col row (ts ++ (made c k ∷ [])) chan ≡ some k
  unfolding find_channel made
  find_channel-made c k [] chan =
      if-true
        {b = (col == col && row == row)
          && ((id == id || false) || (channel_of id col row) == (channel_of id col row))}
        (some k) chan
        (let p : (col == col) ≡ true = ground arith in
          let q : (row == row) ≡ true = ground arith in
          let r : ((channel_of id col row) == (channel_of id col row)) ≡ true = ground arith in
          ground arith)
  find_channel-made c k (t ∷ ts) chan = find_channel-made c k ts _
