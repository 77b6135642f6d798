-- ===== src/HerdPlacement/Tests.antt =====
-- Two herds on a partition of three rows and four columns.
use mathlib.Core.List.{Perm}
use mathlib.Core.List.Permᴰ
use mlir_air_mirror.Prelude.{◌≡◌, refl, arith, List, [], ◌∷◌, none, true, false, map}
use mlir_air_mirror.HerdPlacement.{
  Herd, Partition, Outcome, new_partition, naive_placement, is_legal_placement,
  place_herds_in_partition, place_herd,
}
use mlir_air_mirror.HerdPlacement.Visit.{Each, body}
use mlir_air_mirror.HerdPlacement.Disjoint.{
  Sized, Inside, Apart, start, bodies, naive_placement-Sound,
}
use mlir_air_mirror.HerdPlacement.Maximal.{naive_placement-Blocked}
use mlir_air_mirror.HerdPlacement.Report.{Placement, place_herds_in_partition-Placement}

abbrev small : Herd
small = record { id = 7; num_rows = 2; num_cols = 2; number = 0; loc_x = none; loc_y = none }

abbrev wide : Herd
wide = record { id = 9; num_rows = 1; num_cols = 4; number = 1; loc_x = none; loc_y = none }

abbrev herds : List Herd
herds = small ∷ wide ∷ []

abbrev grid_3x4 : Partition
grid_3x4 = new_partition 3 4 5 6

herds-Sized : Each Sized herds
herds-Sized =
    Each.cons (record { tall = omega arith; wide = omega arith })
      (Each.cons (record { tall = omega arith; wide = omega arith }) Each.nil)

-- The small herd goes to the anchor point, and the wide one above it.
placed_3x4 :
    place_herds_in_partition (λ hs. hs) herds grid_3x4
    ≡ Outcome.placed (
        record { id = 7; row_offset = 5; col_offset = 6 }
        ∷ record { id = 9; row_offset = 7; col_offset = 6 }
        ∷ [])
unfolding place_herds_in_partition new_partition place_herd
placed_3x4 = refl

place_herds_in_partition-Placement_example :
    Placement grid_3x4
      (naive_placement (start grid_3x4 herds)).partition
      herds
      (place_herds_in_partition (λ hs. hs) herds grid_3x4)
place_herds_in_partition-Placement_example =
    place_herds_in_partition-Placement (λ hs. hs) (λ hs. Permᴰ.refl hs) grid_3x4 herds herds-Sized

naive_placement-Sound_example :
    Each (Inside grid_3x4) (naive_placement (start grid_3x4 herds)).placed
    × Apart grid_3x4 (naive_placement (start grid_3x4 herds)).placed
    × Perm (bodies (naive_placement (start grid_3x4 herds))) (map body herds)
naive_placement-Sound_example = naive_placement-Sound grid_3x4 herds herds-Sized

abbrev grid_2x4 : Partition
grid_2x4 = record {
  num_rows = 2;
  num_cols = 4;
  anchor_point_row = 0;
  anchor_point_col = 0;
  grid = λ _ _. none;
}

-- On two rows the wide herd finds no place beside the small one.
naive_placement-Blocked_example :
    Each
      (λ h. is_legal_placement (naive_placement (start grid_2x4 herds)).partition h 1 0 ≡ false)
      (naive_placement (start grid_2x4 herds)).unplaced
naive_placement-Blocked_example =
    naive_placement-Blocked grid_2x4 herds herds-Sized 1 0 (omega arith) (omega arith)

legal_2x4 : is_legal_placement grid_2x4 small 0 1 ≡ true
unfolding is_legal_placement
legal_2x4 = refl
