-- ===== src/HerdPlacement/Maximal.antt =====
-- `naivePlacement` leaves no herd that fits: a herd that is not placed is legal at no cell of the
-- final grid.
use mathlib.Core.Path.{subst}
use native.Mathlib.Decide.{ℕ_discrete}
use mlir_air_mirror.Prelude.{
  ℕ, zero, suc, ◌+◌, ◌-◌, ◌<◌, ◌≤◌, ◌≡◌, ◌∙◌, sym, refl, arith, Bool, true, false, Bool-cases, ◌&&◌,
  Option, none, some, List, inl, inr, ltb,
}
use mlir_air_mirror.HerdPlacement.{
  Herd, Partition, Progress, is_free, legal_cell, legal_cells, legal_rows, is_legal_placement,
  place_herd, place_found, visit, visit_cols, visit_rows, naive_placement,
}
use mlir_air_mirror.HerdPlacement.Grid.{
  Covers, is_legal_placement-Open, place_herd-mark, place_herd-none,
}
use mlir_air_mirror.HerdPlacement.Visit.{
  Each, Each-map, Taken, Search, find_legal-Search, visit-keep, visit_cols-keep, visit_rows-keep,
}
use mlir_air_mirror.HerdPlacement.Disjoint.{
  Sized, Sound, start, start-Sound, visit-Sound, fits, taken-Sized,
}

-- `q` has the size of `p`, and every cell that is free in `q` is free in `p`.
record Fuller (p q : Partition) : Type 0 where
  rows : q.num_rows ≡ p.num_rows
  cols : q.num_cols ≡ p.num_cols
  kept : (r c : ℕ) → q.grid r c ≡ none → p.grid r c ≡ none

module _ (p q : Partition) (f : Fuller p q) where
  legal_cell-Fuller :
      (below : Bool) (i j : ℕ) (a b : Bool)
      → legal_cell q below i j a ≡ true
      → (a ≡ true → b ≡ true)
      → legal_cell p below i j b ≡ true
  legal_cell-Fuller below i j a b e g = ground (arith, f.rows, f.cols, f.kept i j)

  legal_cells-Fuller :
      (below : Bool) (i n j : ℕ)
      → legal_cells q below i n j ≡ true
      → legal_cells p below i n j ≡ true
  unfolding legal_cells
  legal_cells-Fuller below i zero j e = refl
  legal_cells-Fuller below i (suc n) j e =
      legal_cell-Fuller below i j _ _ e (legal_cells-Fuller below i n (j + 1))

  both :
      (a b c d : Bool)
      → (a && b) ≡ true
      → (a ≡ true → c ≡ true)
      → (b ≡ true → d ≡ true)
      → (c && d) ≡ true
  both a b c d e g h = ground arith

  legal_rows-Fuller :
      (h : Herd) (row col n k : ℕ)
      → legal_rows q h row col n k ≡ true
      → legal_rows p h row col n k ≡ true
  unfolding legal_rows
  legal_rows-Fuller h row col zero k e = refl
  legal_rows-Fuller h row col (suc n) k e =
      both _ _ _ _ e
        (λ (w : legal_cells q (ltb (q.num_rows + k) (row + h.num_rows))
              (q.num_rows + k - (row + h.num_rows)) h.num_cols col
            ≡ true).
          legal_cells-Fuller _ _ h.num_cols col (
            subst
              (λ m.
                legal_cells q (ltb (m + k) (row + h.num_rows)) (m + k - (row + h.num_rows))
                  h.num_cols col
                ≡ true)
              f.rows w))
        (legal_rows-Fuller h row col n (k + 1))

  is_legal_placement-Fuller :
      (h : Herd) (row col : ℕ)
      → is_legal_placement p h row col ≡ false
      → is_legal_placement q h row col ≡ false
  unfolding is_legal_placement
  is_legal_placement-Fuller h row col e = elim (Bool-cases (is_legal_placement q h row col)) [
    | inl w ↦ absurd (true_ne (sym (legal_rows-Fuller h row col h.num_rows 0 w) ∙ e))
    | inr w ↦ w
  ]
    where
      true_ne : true ≡ false → ⊥
      true_ne w = ground arith

-- No herd that is left is legal at (row, col).
abbrev pub Blocked : Progress → ℕ → ℕ → Type 0
Blocked s row col = Each (λ h. is_legal_placement s.partition h row col ≡ false) s.unplaced

-- A herd that is legal at (row, col) finds the cell at (row, col) free.
taken_cell :
    (p : Partition) (row col : ℕ) (h : Herd)
    → row < p.num_rows
    → Sized h
    → (p.grid (p.num_rows - row - 1) col ≡ none → ⊥)
    → is_legal_placement p h row col ≡ false
taken_cell p row col h low sized busy = elim (Bool-cases (is_legal_placement p h row col)) [
  | inl e ↦
      let tall = sized.tall in
      let wide = sized.wide in
      let cov : Covers p h row col (p.num_rows - row - 1) col = record {
        low = omega arith;
        high = omega arith;
        left = omega arith;
        right = omega arith;
      } in
      absurd (busy (is_legal_placement-Open p h row col e _ _ cov).free)
  | inr e ↦ e
]

module _ (p : Partition) (s : Progress) (sound : Sound p s) (row col : ℕ) where
  place_found-Fuller :
      (h : Herd) (rest : List Herd)
      → Taken s.partition row col s.unplaced h rest
      → Fuller s.partition (place_herd s.partition h row col)
  unfolding place_herd
  place_found-Fuller h rest t = record {
    rows = refl;
    cols = refl;
    kept = λ r c e. place_herd-none s.partition h row col r c (fits p s row col sound h rest t) e;
  }

  -- A visit blocks no less than what was blocked before.
  visit-Blocked : (r c : ℕ) → Blocked s r c → Blocked (visit s row col) r c
  visit-Blocked r c b =
      visit-keep s row col (λ u. Blocked u r c) b
        (λ h rest t.
          Each-map
            (λ x.
              is_legal_placement-Fuller s.partition (place_herd s.partition h row col)
                (place_found-Fuller h rest t) x r c)
            rest ((t.each (λ x. is_legal_placement s.partition x r c ≡ false) b).1))

  place_found-Blocked :
      (o : Option (Herd × List Herd))
      → Search s.partition row col s.unplaced o
      → row < s.partition.num_rows
      → Blocked (place_found s row col o) row col
  unfolding place_herd
  place_found-Blocked none (Search.stuck b) low = b
  place_found-Blocked (some (h, rest)) (Search.taken x l t) low =
      let sized = taken-Sized p s row col sound h rest t in
      let tall = sized.tall in
      let wide = sized.wide in
      let cov : Covers s.partition h row col (s.partition.num_rows - row - 1) col = record {
        low = omega arith;
        high = omega arith;
        left = omega arith;
        right = omega arith;
      } in
      let mark = place_herd-mark s.partition h row col _ _ (fits p s row col sound h rest t) cov in
      Each-map
        (λ x z.
          taken_cell (place_herd s.partition h row col) row col x low z
            (λ e. some_ne (sym mark ∙ e)))
        rest ((t.each Sized sound.sized).1)
    where
      some_ne : {n : ℕ} → some n ≡ none → ⊥
      some_ne q = ground arith

  visit-Blocked_here : row < s.partition.num_rows → Blocked (visit s row col) row col
  unfolding visit
  visit-Blocked_here low =
      elim (Bool-cases (is_free (s.partition.grid (s.partition.num_rows - row - 1) col))) [
        | inl e ↦
            rw (e) (place_found-Blocked _ (find_legal-Search s.partition row col s.unplaced) low)
        | inr e ↦ rw (e) (
            Each-map (λ x z. taken_cell s.partition row col x low z (λ q. is_free_ne e q)) _
              sound.sized)
      ]
    where
      is_free_ne : {o : Option ℕ} → is_free o ≡ false → o ≡ none → ⊥
      is_free_ne e q = ground arith

-- A progress that is sound and blocked at one place.
abbrev Kept : Partition → ℕ → ℕ → Progress → Type 0
Kept p r c s = Sound p s × Blocked s r c

visit-Kept :
    (p : Partition) (r c : ℕ) (s : Progress) (row col : ℕ)
    → Kept p r c s
    → Kept p r c (visit s row col)
visit-Kept p r c s row col k =
    (visit-Sound p s row col (k.0), visit-Blocked p s (k.0) row col r c (k.1))

visit_cols-Blocked :
    (p : Partition) (n row col : ℕ) (s : Progress)
    → Sound p s
    → row < p.num_rows
    → (c : ℕ) → col ≤ c
    → c < col + n
    → Blocked (visit_cols n row col s) row c
unfolding visit_cols
visit_cols-Blocked p zero row col s sound low c a b = absurd (omega arith)
visit_cols-Blocked p (suc n) row col s sound low c a b = elim (ℕ_discrete col c) [
  | yes e ↦
      let here = visit-Blocked_here p s sound row col (omega (arith, sound.rows)) in
      (visit_cols-keep (Kept p row c) (visit-Kept p row c) n row (col + 1) (visit s row col)
        (visit-Sound p s row col sound, rw (← e) here)).1
  | no e ↦
      visit_cols-Blocked p n row (col + 1) (visit s row col) (visit-Sound p s row col sound) low c
        (omega arith) (omega arith)
]

visit_rows-Blocked :
    (p : Partition) (n row : ℕ) (s : Progress)
    → Sound p s
    → row + n ≤ p.num_rows
    → (r c : ℕ) → row ≤ r
    → r < row + n
    → c < p.num_cols
    → Blocked (visit_rows n row s) r c
unfolding visit_rows
visit_rows-Blocked p zero row s sound low r c a b d = absurd (omega arith)
visit_rows-Blocked p (suc n) row s sound low r c a b d =
    let wide : c < 0 + s.partition.num_cols = omega (arith, sound.cols) in
    let later = visit_cols-keep (Sound p) (visit-Sound p) s.partition.num_cols row 0 s sound in
    elim (ℕ_discrete row r) [
      | yes e ↦
          let here =
            visit_cols-Blocked p s.partition.num_cols row 0 s sound (omega arith) c (omega arith)
              wide in
          (visit_rows-keep (Kept p r c) (visit-Kept p r c) n (row + 1) _ (later, rw (← e) here)).1
      | no e ↦
          visit_rows-Blocked p n (row + 1) _ later (omega arith) r c (omega arith) (omega arith) d
    ]

-- When every herd has a row and a column, naive placement that starts with no herd placed leaves a
-- herd out only if it is legal at no row and column of the final partition.
pub naive_placement-Blocked :
    (p : Partition) (hs : List Herd)
    → Each Sized hs
    → (row col : ℕ) → row < p.num_rows
    → col < p.num_cols
    → let s = naive_placement (start p hs) in
      Each (λ h. is_legal_placement s.partition h row col ≡ false) s.unplaced
unfolding naive_placement
naive_placement-Blocked p hs sized row col low wide =
    visit_rows-Blocked p p.num_rows 0 (start p hs) (start-Sound p hs sized) (omega arith) row col
      (omega arith) (omega arith) wide
