-- ===== src/HerdPlacement/Report.antt =====
-- `placeHerdsInPartition` as a whole: the attributes it writes or the error it reports.
use mathlib.Core.Path.{subst}
use mathlib.Core.List.{Perm, Permᴰ, append-nil}
use mathlib.Core.List.Perm
use mathlib.Core.List.Permᴰ
use mlir_air_mirror.Prelude.{ℕ, ◌<◌, ◌≡◌, ◌∙◌, ap, refl, false, List, [], ◌∷◌, ◌++◌, map}
use mlir_air_mirror.HerdPlacement.{
  Herd, Partition, Progress, Outcome, attributes, report, visit, naive_placement,
  is_legal_placement, place_herds_in_partition, place_herd,
}
use mlir_air_mirror.HerdPlacement.Visit.{body, Each, visit-keep, naive_placement-keep}
use mlir_air_mirror.HerdPlacement.Disjoint.{
  Sized, Inside, Apart, start, bodies, naive_placement-Sound,
}
use mlir_air_mirror.HerdPlacement.Maximal.{naive_placement-Blocked}

-- The two outcomes of a list of herds; `q` is the partition once the placement is over.
pub data Placement (p q : Partition) (herds : List Herd) : Outcome → Type 0 where
  -- Every herd is placed, inside the partition, apart from the others, and its attributes are its
  -- location moved by the anchor point.
  everywhere :
      (hs : List Herd)
      → Each (Inside p) hs
      → Apart p hs
      → Perm (map body hs) (map body herds)
      → Placement p q herds (Outcome.placed (map (attributes p) hs))
  -- Some herds stay out, and none of them is legal anywhere in `q`.
  left_over :
      (hs : List Herd) (x : Herd) (out : List Herd)
      → Each (Inside p) hs
      → Apart p hs
      → Perm (map body (hs ++ (x ∷ out))) (map body herds)
      → ((row col : ℕ)
          → row < p.num_rows
          → col < p.num_cols
          → Each (λ h. is_legal_placement q h row col ≡ false) (x ∷ out))
      → Placement p q herds (Outcome.no_valid_placement (x ∷ out))

-- The attributes depend on the anchor point only, which no visit moves.
record SameAnchor (p : Partition) (s : Progress) : Type 0 where
  row : s.partition.anchor_point_row ≡ p.anchor_point_row
  col : s.partition.anchor_point_col ≡ p.anchor_point_col

visit-SameAnchor :
    (p : Partition) (s : Progress) (row col : ℕ) → SameAnchor p s → SameAnchor p (visit s row col)
unfolding place_herd
visit-SameAnchor p s row col e =
    visit-keep s row col (SameAnchor p) e (λ h rest t. record { row = e.row; col = e.col })

attributes-SameAnchor :
    (p : Partition) (s : Progress)
    → SameAnchor p s
    → (hs : List Herd) → map (attributes s.partition) hs ≡ map (attributes p) hs
attributes-SameAnchor p s e [] = refl
attributes-SameAnchor p s e (h ∷ hs) = rw (e.row, e.col, attributes-SameAnchor p s e hs)

module _ (p : Partition) (herds : List Herd) where
  report-Placement :
      (s : Progress)
      → (out : List Herd) → s.unplaced ≡ out
      → SameAnchor p s
      → Each (Inside p) s.placed
      → Apart p s.placed
      → Perm (bodies s) (map body herds)
      → ((row col : ℕ)
          → row < p.num_rows
          → col < p.num_cols
          → Each (λ h. is_legal_placement s.partition h row col ≡ false) s.unplaced)
      → Placement p s.partition herds (report s out)
  report-Placement s [] e anchor inside apart perm blocked =
      rw (attributes-SameAnchor p s anchor s.placed) (
        Placement.everywhere s.placed inside apart
          (subst (λ (l : List (ℕ × ℕ × ℕ)). Perm l (map body herds)) same perm))
    where
      same : bodies s ≡ map body s.placed
      same =
          ap (λ (l : List Herd). map body (s.placed ++ l)) e ∙ ap (map body) (append-nil s.placed)
  report-Placement s (x ∷ out) e anchor inside apart perm blocked =
      Placement.left_over s.placed x out inside apart (rw e at perm)
        (λ r c a b. rw e at (blocked r c a b))

map-Permᴰ : {xs ys : List Herd} → Permᴰ xs ys → Permᴰ (map body xs) (map body ys)
map-Permᴰ Permᴰ.nil = Permᴰ.nil
map-Permᴰ (Permᴰ.cons e d) = Permᴰ.cons (ap body e) (map-Permᴰ d)
map-Permᴰ (Permᴰ.swap e f) = Permᴰ.swap (ap body e) (ap body f)
map-Permᴰ (Permᴰ.trans d d') = Permᴰ.trans (map-Permᴰ d) (map-Permᴰ d')

Each-Permᴰ : {P : Herd → Type 0} {xs ys : List Herd} → Permᴰ xs ys → Each P xs → Each P ys
Each-Permᴰ Permᴰ.nil a = a
Each-Permᴰ {P} (Permᴰ.cons e d) (Each.cons p a) = Each.cons (subst P e p) (Each-Permᴰ d a)
Each-Permᴰ {P} (Permᴰ.swap e f) (Each.cons p (Each.cons q a)) =
    Each.cons (subst P f q) (Each.cons (subst P e p) a)
Each-Permᴰ (Permᴰ.trans d d') a = Each-Permᴰ d' (Each-Permᴰ d a)

-- If the sort permutes the herds and every herd has a row and a column, placing them either gives
-- every herd the attributes of its place, all inside the partition and no two sharing a tile, or
-- reports the herds that are left, none of which is legal anywhere in the final partition; no herd
-- is lost.
pub place_herds_in_partition-Placement :
    (sort : List Herd → List Herd)
    → ((hs : List Herd) → Permᴰ hs (sort hs))
    → (p : Partition) (herds : List Herd) → Each Sized herds
    → Placement p
        (naive_placement (start p (sort herds))).partition
        herds
        (place_herds_in_partition sort herds p)
unfolding place_herds_in_partition
place_herds_in_partition-Placement sort permutes p herds sized =
    let s = naive_placement (start p (sort herds)) in
    let all_sized = Each-Permᴰ (permutes herds) sized in
    let w = naive_placement-Sound p (sort herds) all_sized in
    report-Placement p herds s s.unplaced refl
      (naive_placement-keep (SameAnchor p) (visit-SameAnchor p) (start p (sort herds))
        (record { row = refl; col = refl }))
      (w.0) (w.1) (Perm.trans (w.2) ∣ Permᴰ.symm (map-Permᴰ (permutes herds)) ∣₁)
      (naive_placement-Blocked p (sort herds) all_sized)
