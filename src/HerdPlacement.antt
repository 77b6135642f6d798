-- ===== src/HerdPlacement.antt =====
-- mlir/lib/Transform/AIRHerdPlacementPass.cpp: herds, rectangles of compute tiles, are placed on the
-- grid of a partition. Sizes and offsets are non-negative, as the pass demands of its options, and
-- the sums are those of int32_t while they stay below 2^31. The loops run on the rounds left.
pub mod Grid
pub mod Visit
pub mod Disjoint
pub mod Maximal
pub mod Report
pub mod Loose
mod Tests
use mlir_air_mirror.Prelude.{
  ℕ, zero, suc, ◌+◌, ◌-◌, ◌*◌, ◌<◌, ◌≤◌, Bool, true, false, ◌&&◌, ◌||◌, not, if◌then◌else◌, ◌==◌,
  ltb, leb, Option, none, some, List, [], ◌∷◌, ◌++◌, map,
}

-- `Herd`. `id` stands for the operation `herdOp`, which the pass only carries along; `locX` and
-- `locY` are set when the herd is placed.
pub record Herd : Type 0 where
  pub id : ℕ
  pub num_rows : ℕ
  pub num_cols : ℕ
  pub number : ℕ
  pub loc_x : Option ℕ
  pub loc_y : Option ℕ

unfoldable pub get_size : Herd → ℕ
get_size h = h.num_rows * h.num_cols

-- `grid[i][j]`: the number of a herd, or `none` for -1.
abbrev pub Cells : Type 0
Cells = ℕ → ℕ → Option ℕ

-- `Partition`.
pub record Partition : Type 0 where
  pub num_rows : ℕ
  pub num_cols : ℕ
  pub anchor_point_row : ℕ
  pub anchor_point_col : ℕ
  pub grid : Cells

unfoldable pub new_partition : ℕ → ℕ → ℕ → ℕ → Partition
new_partition num_rows num_cols anchor_point_row anchor_point_col = record {
  num_rows = num_rows;
  num_cols = num_cols;
  anchor_point_row = anchor_point_row;
  anchor_point_col = anchor_point_col;
  grid = λ _ _. none;
}

abbrev pub is_free : Option ℕ → Bool
is_free none = true
is_free (some _) = false

abbrev pub write : Cells → ℕ → ℕ → ℕ → Cells
write g i j v r c = if r == i && c == j then some v else g r c

-- The three tests of the inner loop of `isLegalPlacement`, before the rest of the loop.
abbrev pub legal_cell : Partition → Bool → ℕ → ℕ → Bool → Bool
legal_cell p below i j rest =
    if below || leb p.num_cols j
    then false
    else (if leb p.num_rows i then false else (is_free (p.grid i j) && rest))

-- The loop over j in `isLegalPlacement`, for the row numbered i + k from the start `i = numRows -
-- row - herd rows`, which may be negative: `below` is `i + k < 0`.
unfoldable pub legal_cells : Partition → Bool → ℕ → ℕ → ℕ → Bool
legal_cells p below i zero j = true
legal_cells p below i (suc n) j = legal_cell p below i j (legal_cells p below i n (j + 1))

-- The loop over i, with the rows `k` to `k + n - 1` of the herd before it.
unfoldable pub legal_rows : Partition → Herd → ℕ → ℕ → ℕ → ℕ → Bool
unfolding legal_cells
legal_rows p h row col zero k = true
legal_rows p h row col (suc n) k =
    legal_cells p (ltb (p.num_rows + k) (row + h.num_rows)) (p.num_rows + k - (row + h.num_rows))
      h.num_cols col
    && legal_rows p h row col n (k + 1)

unfoldable pub is_legal_placement : Partition → Herd → ℕ → ℕ → Bool
unfolding legal_rows
is_legal_placement p h row col = legal_rows p h row col h.num_rows 0

unfoldable pub place_cells : ℕ → ℕ → ℕ → ℕ → Cells → Cells
place_cells v i zero j g = g
place_cells v i (suc n) j g = place_cells v i n (j + 1) (write g i j v)

unfoldable pub place_rows : Partition → Herd → ℕ → ℕ → ℕ → ℕ → Cells → Cells
unfolding place_cells
place_rows p h row col zero k g = g
place_rows p h row col (suc n) k g =
    place_rows p h row col n (k + 1)
      (place_cells h.number (p.num_rows + k - (row + h.num_rows)) h.num_cols col g)

-- `placeHerd`. The pass calls it only where `isLegalPlacement` holds, so no row is negative.
unfoldable pub place_herd : Partition → Herd → ℕ → ℕ → Partition
unfolding place_rows
place_herd p h row col = record p { grid = place_rows p h row col h.num_rows 0 p.grid }

-- The variables of `naivePlacement`.
pub record Progress : Type 0 where
  pub partition : Partition
  pub unplaced : List Herd
  pub placed : List Herd

-- `for (k ...)`: the first herd with a legal placement, and the list without it.
unfoldable pub find_legal : Partition → ℕ → ℕ → List Herd → Option (Herd × List Herd)
unfolding is_legal_placement
find_legal p row col [] = none
find_legal p row col (h ∷ hs) =
    if is_legal_placement p h row col
    then some (h, hs)
    else (elim (find_legal p row col hs) [ none ↦ none | some (x, rest) ↦ some (x, h ∷ rest) ])

abbrev pub at_location : Herd → ℕ → ℕ → Herd
at_location h row col = record h { loc_x = some col; loc_y = some row }

abbrev pub place_found : Progress → ℕ → ℕ → Option (Herd × List Herd) → Progress
place_found s row col none = s
place_found s row col (some (h, rest)) = record {
  partition = place_herd s.partition h row col;
  unplaced = rest;
  placed = s.placed ++ (at_location h row col ∷ []);
}

-- The body of the two loops of `naivePlacement`.
unfoldable pub visit : Progress → ℕ → ℕ → Progress
unfolding find_legal
visit s row col =
    if is_free (s.partition.grid (s.partition.num_rows - row - 1) col)
    then place_found s row col (find_legal s.partition row col s.unplaced)
    else s

-- The source returns when the last herd is placed; with none left the remaining visits change
-- nothing.
unfoldable pub visit_cols : ℕ → ℕ → ℕ → Progress → Progress
unfolding visit
visit_cols zero row col s = s
visit_cols (suc n) row col s = visit_cols n row (col + 1) (visit s row col)

unfoldable pub visit_rows : ℕ → ℕ → Progress → Progress
unfolding visit_cols
visit_rows zero row s = s
visit_rows (suc n) row s = visit_rows n (row + 1) (visit_cols s.partition.num_cols row 0 s)

unfoldable pub naive_placement : Progress → Progress
unfolding visit_rows
naive_placement s = visit_rows s.partition.num_rows 0 s

-- The attributes that a placed herd gets: its operation, the row offset and the column offset.
abbrev pub offset : Option ℕ → ℕ → ℕ
offset none anchor = anchor
offset (some x) anchor = x + anchor

pub record Attributes : Type 0 where
  pub id : ℕ
  pub row_offset : ℕ
  pub col_offset : ℕ

pub data Outcome : Type 0 where
  placed : List Attributes → Outcome
  no_valid_placement : List Herd → Outcome

abbrev pub attributes : Partition → Herd → Attributes
attributes p h = record {
  id = h.id;
  row_offset = offset h.loc_y p.anchor_point_row;
  col_offset = offset h.loc_x p.anchor_point_col;
}

abbrev pub report : Progress → List Herd → Outcome
report s [] = placed (map (attributes s.partition) s.placed)
report s (h ∷ hs) = no_valid_placement (h ∷ hs)

-- `placeHerdsInPartition`; `sort` is `std::sort` by decreasing `getSize`.
unfoldable pub place_herds_in_partition : (List Herd → List Herd) → List Herd → Partition → Outcome
unfolding naive_placement
place_herds_in_partition sort herds p =
    let s = naive_placement (record { partition = p; unplaced = sort herds; placed = [] }) in
    report s s.unplaced

-- The second walk of `runOnOperation`, for a herd outside every partition: the herd gets a partition
-- of its own, of the size and at the anchor point of the command line.
unfoldable pub place_loose_herd : (List Herd → List Herd) → ℕ → ℕ → ℕ → ℕ → Herd → Outcome
unfolding place_herds_in_partition new_partition
place_loose_herd sort num_rows num_cols anchor_point_row anchor_point_col h =
    place_herds_in_partition sort (h ∷ [])
      (new_partition num_rows num_cols anchor_point_row anchor_point_col)
