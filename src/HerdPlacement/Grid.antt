-- ===== src/HerdPlacement/Grid.antt =====
-- What a legal placement is, and what `placeHerd` writes, cell by cell.
use mathlib.Core.Path.{subst}
use native.Mathlib.Decide.{ℕ_discrete}
use mlir_air_mirror.Prelude.{
  ℕ, zero, suc, ◌+◌, ◌-◌, ◌<◌, ◌≤◌, ◌≡◌, ◌∙◌, sym, ap, arith, Bool, true, false, ◌&&◌,
  if◌then◌else◌, ◌==◌, ltb, leb, Option, none, some,
}
use mlir_air_mirror.HerdPlacement.{
  Herd, Partition, Cells, write, legal_cell, legal_cells, legal_rows, is_legal_placement,
  place_cells, place_rows, place_herd,
}

-- The tiles of a herd placed at (row, col): rows count from the bottom of the grid, and the herd
-- goes up from `row` and right from `col`.
pub record Covers (p : Partition) (h : Herd) (row col r c : ℕ) : Type 0 where
  pub low : p.num_rows ≤ r + row + h.num_rows
  pub high : r + row < p.num_rows
  pub left : col ≤ c
  pub right : c < col + h.num_cols

-- The cell exists and no herd has it.
pub record Open (p : Partition) (r c : ℕ) : Type 0 where
  pub row_in : r < p.num_rows
  pub col_in : c < p.num_cols
  pub free : p.grid r c ≡ none

legal_cell-Open :
    (p : Partition) (below : Bool) (i j : ℕ) (rest : Bool)
    → legal_cell p below i j rest ≡ true
    → (below ≡ false) × Open p i j × (rest ≡ true)
legal_cell-Open p below i j rest e = ground arith

Open-legal_cell :
    (p : Partition) (i j : ℕ) (rest : Bool)
    → Open p i j
    → rest ≡ true
    → legal_cell p false i j rest ≡ true
Open-legal_cell p i j rest o e = ground arith

legal_cells-Open :
    (p : Partition) (below : Bool) (i n j : ℕ)
    → legal_cells p below i n j ≡ true
    → (c : ℕ) → j ≤ c
    → c < j + n
    → (below ≡ false) × Open p i c
unfolding legal_cells
legal_cells-Open p below i zero j e c h h' = absurd (omega arith)
legal_cells-Open p below i (suc n) j e c h h' =
    let now = legal_cell-Open p below i j (legal_cells p below i n (j + 1)) e in
    elim (ℕ_discrete j c) [
      | yes q ↦ (now.0, rw (← q) (now.1))
      | no q ↦ legal_cells-Open p below i n (j + 1) (now.2) c (omega arith) (omega arith)
    ]

and-true : (a b : Bool) → (a && b) ≡ true → (a ≡ true) × (b ≡ true)
and-true a b e = ground arith

legal_rows-Open :
    (p : Partition) (h : Herd) (row col n k : ℕ)
    → legal_rows p h row col n k ≡ true
    → n + k ≡ h.num_rows
    → (r c : ℕ) → Covers p h row col r c
    → p.num_rows + k ≤ r + row + h.num_rows
    → Open p r c
unfolding legal_rows
legal_rows-Open p h row col zero k e eq r c cov late = absurd (omega (arith, cov.high))
legal_rows-Open p h row col (suc n) k e eq r c cov late =
    let both = and-true _ _ e in
    let now =
      legal_cells-Open p _ (p.num_rows + k - (row + h.num_rows)) h.num_cols col (both.0) c cov.left
        cov.right in
    elim (ℕ_discrete (p.num_rows + k) (r + row + h.num_rows)) [
      | yes q ↦
          let here : p.num_rows + k - (row + h.num_rows) ≡ r = omega arith in rw here at (now.1)
      | no q ↦ legal_rows-Open p h row col n (k + 1) (both.1) (omega arith) r c cov (omega arith)
    ]

-- Where `isLegalPlacement` holds, every tile that the herd covers there is a cell of the partition
-- that no herd has.
pub is_legal_placement-Open :
    (p : Partition) (h : Herd) (row col : ℕ)
    → is_legal_placement p h row col ≡ true
    → (r c : ℕ) → Covers p h row col r c
    → Open p r c
unfolding is_legal_placement
is_legal_placement-Open p h row col e r c cov =
    legal_rows-Open p h row col h.num_rows 0 e (omega arith) r c cov (omega (arith, cov.low))

-- A herd with a column stays inside the partition's rows.
legal_rows-le :
    (p : Partition) (h : Herd) (row col n k : ℕ)
    → 0 < h.num_cols
    → legal_rows p h row col (suc n) k ≡ true
    → row + h.num_rows ≤ p.num_rows + k
unfolding legal_rows
legal_rows-le p h row col n k w e =
    let both = and-true _ _ e in
    let now =
      legal_cells-Open p _ (p.num_rows + k - (row + h.num_rows)) h.num_cols col (both.0) col
        (omega arith) (omega arith) in
    ground (arith, now.0)

-- `placeHerd` writes the herd's number to the tiles of the herd and nothing else.
abbrev pub painted : ℕ → Bool → Option ℕ → Option ℕ
painted v inside old = if inside then some v else old

place_cells_lem :
    (v i n j : ℕ) (g : Cells) (r c : ℕ)
    → place_cells v i n j g r c ≡ painted v (r == i && (leb j c && ltb c (j + n))) (g r c)
unfolding place_cells
place_cells_lem v i zero j g r c = ground arith
place_cells_lem v i (suc n) j g r c =
    place_cells_lem v i n (j + 1) (write g i j v) r c ∙ ground arith

abbrev covers : Partition → Herd → ℕ → ℕ → ℕ → ℕ → Bool
covers p h row col r c =
    (leb p.num_rows (r + row + h.num_rows) && ltb (r + row) p.num_rows)
    && (leb col c && ltb c (col + h.num_cols))

place_rows_lem :
    (p : Partition) (h : Herd) (row col n k : ℕ) (g : Cells) (r c : ℕ)
    → n + k ≡ h.num_rows
    → row + h.num_rows ≤ p.num_rows + k
    → place_rows p h row col n k g r c
      ≡ painted h.number
          ((leb (p.num_rows + k) (r + row + h.num_rows) && ltb (r + row) p.num_rows)
            && (leb col c && ltb c (col + h.num_cols)))
          (g r c)
unfolding place_rows
place_rows_lem p h row col zero k g r c e le = ground arith
place_rows_lem p h row col (suc n) k g r c e le =
    place_rows_lem p h row col n (k + 1) _ r c (omega arith) (omega arith)
    ∙ ground
        (arith, place_cells_lem h.number (p.num_rows + k - (row + h.num_rows)) h.num_cols col g r c)

pub place_herd-grid :
    (p : Partition) (h : Herd) (row col r c : ℕ)
    → row + h.num_rows ≤ p.num_rows
    → (place_herd p h row col).grid r c ≡ painted h.number (covers p h row col r c) (p.grid r c)
unfolding place_herd
place_herd-grid p h row col r c le =
    place_rows_lem p h row col h.num_rows 0 p.grid r c (omega arith) (omega arith) ∙ ground arith

pub is_legal_placement-le :
    (p : Partition) (h : Herd) (row col : ℕ)
    → 0 < h.num_rows
    → 0 < h.num_cols
    → is_legal_placement p h row col ≡ true
    → row + h.num_rows ≤ p.num_rows
unfolding is_legal_placement
is_legal_placement-le p h row col tall wide e =
    let some_row : h.num_rows ≡ suc (h.num_rows - 1) = omega arith in
    let first : legal_rows p h row col (suc (h.num_rows - 1)) 0 ≡ true =
      subst (λ n. legal_rows p h row col n 0 ≡ true) some_row e in
    omega (arith, legal_rows-le p h row col (h.num_rows - 1) 0 wide first)

covers-Covers :
    (p : Partition) (h : Herd) (row col r c : ℕ)
    → Covers p h row col r c
    → covers p h row col r c ≡ true
covers-Covers p h row col r c cov = ground arith

-- The tiles of a placed herd carry its number, and a cell that had a number has one.
pub place_herd-mark :
    (p : Partition) (h : Herd) (row col r c : ℕ)
    → row + h.num_rows ≤ p.num_rows
    → Covers p h row col r c
    → (place_herd p h row col).grid r c ≡ some h.number
place_herd-mark p h row col r c le cov =
    place_herd-grid p h row col r c le
    ∙ ap (λ b. painted h.number b (p.grid r c)) (covers-Covers p h row col r c cov)

painted-none : (v : ℕ) (b : Bool) (old : Option ℕ) → painted v b old ≡ none → old ≡ none
painted-none v b old e = ground arith

pub place_herd-none :
    (p : Partition) (h : Herd) (row col r c : ℕ)
    → row + h.num_rows ≤ p.num_rows
    → (place_herd p h row col).grid r c ≡ none
    → p.grid r c ≡ none
place_herd-none p h row col r c le e =
    painted-none _ _ _ (sym (place_herd-grid p h row col r c le) ∙ e)
