-- ===== src/HerdPlacement/Disjoint.antt =====
-- The herds that `naivePlacement` has placed: where their tiles are, and that they keep apart.
use mathlib.Core.List.{Perm, map-append, append_assoc}
use mathlib.Core.List.Perm
use mlir_air_mirror.Prelude.{
  ℕ, ◌+◌, ◌-◌, ◌<◌, ◌≤◌, ◌≡◌, ◌∙◌, sym, refl, arith, none, some, List, [], ◌∷◌, ◌++◌, map,
}
use mlir_air_mirror.HerdPlacement.{
  Herd, Partition, Progress, at_location, place_herd, place_found, visit, naive_placement,
}
use mlir_air_mirror.HerdPlacement.Grid.{
  Covers, is_legal_placement-Open, is_legal_placement-le, place_herd-mark, place_herd-none,
}
use mlir_air_mirror.HerdPlacement.Visit.{
  body, Each, Each-append, Each-map, Taken, visit-keep, naive_placement-keep,
}

pub record Sized (h : Herd) : Type 0 where
  pub tall : 0 < h.num_rows
  pub wide : 0 < h.num_cols

-- The herd has a location, and the tile (r, c) is one of its tiles there.
pub record Occupies (p : Partition) (h : Herd) (r c : ℕ) : Type 0 where
  pub row : ℕ
  pub col : ℕ
  pub row_set : h.loc_y ≡ some row
  pub col_set : h.loc_x ≡ some col
  pub covered : Covers p h row col r c

-- The herd has a location that keeps its tiles inside the partition.
pub record Inside (p : Partition) (h : Herd) : Type 0 where
  pub row : ℕ
  pub col : ℕ
  pub row_set : h.loc_y ≡ some row
  pub col_set : h.loc_x ≡ some col
  pub row_fits : row + h.num_rows ≤ p.num_rows
  pub col_fits : col + h.num_cols ≤ p.num_cols

abbrev pub Disjoint : Partition → Herd → Herd → Type 0
Disjoint p x y = (r c : ℕ) → Occupies p x r c → Occupies p y r c → ⊥

-- No two herds of the list share a tile.
pub data Apart (p : Partition) : List Herd → Type 0 where
  nil : Apart p []
  cons : {x : Herd} {xs : List Herd} → Each (Disjoint p x) xs → Apart p xs → Apart p (x ∷ xs)

Apart-append :
    (p : Partition) (xs : List Herd) (y : Herd)
    → Apart p xs
    → Each (λ x. Disjoint p x y) xs
    → Apart p (xs ++ (y ∷ []))
Apart-append p [] y a e = Apart.cons Each.nil Apart.nil
Apart-append p (x ∷ xs) y (Apart.cons f a) (Each.cons d e) =
    Apart.cons (Each-append xs (y ∷ []) f (Each.cons d Each.nil)) (Apart-append p xs y a e)

-- The tile has a number in the grid of the progress.
abbrev pub Marked : Progress → Partition → Herd → Type 0
Marked s p h = (r c : ℕ) → Occupies p h r c → s.partition.grid r c ≡ none → ⊥

-- What holds between any two visits; `p` is the partition at the start.
pub record Sound (p : Partition) (s : Progress) : Type 0 where
  pub rows : s.partition.num_rows ≡ p.num_rows
  pub cols : s.partition.num_cols ≡ p.num_cols
  pub sized : Each Sized s.unplaced
  pub inside : Each (Inside p) s.placed
  pub marked : Each (Marked s p) s.placed
  pub apart : Apart p s.placed

Covers-rows :
    (p q : Partition) (h : Herd) (row col r c : ℕ)
    → q.num_rows ≡ p.num_rows
    → Covers p h row col r c
    → Covers q h row col r c
Covers-rows p q h row col r c e cov = record {
  low = omega (arith, cov.low);
  high = omega (arith, cov.high);
  left = cov.left;
  right = cov.right;
}

Occupies-at_location :
    (p : Partition) (h : Herd) (row col r c : ℕ)
    → Occupies p (at_location h row col) r c
    → Covers p h row col r c
Occupies-at_location p h row col r c o =
    let e : row ≡ o.row = ground (arith, o.row_set) in
    let f : col ≡ o.col = ground (arith, o.col_set) in
    rw (e, f)
      (record {
        low = o.covered.low;
        high = o.covered.high;
        left = o.covered.left;
        right = o.covered.right;
      })

-- One herd is placed: the facts about the old and the new herds.
module _ (p : Partition) (s : Progress) (row col : ℕ) (sound : Sound p s) (h : Herd)
    (rest : List Herd) (t : Taken s.partition row col s.unplaced h rest) where
  pub taken-Sized : Sized h
  taken-Sized = (t.each Sized sound.sized).0

  pub fits : row + h.num_rows ≤ s.partition.num_rows
  fits = is_legal_placement-le s.partition h row col taken-Sized.tall taken-Sized.wide t.legal

  old-Marked : (x : Herd) → Marked s p x → Marked (place_found s row col (some (h, rest))) p x
  old-Marked x m r c o e = m r c o (place_herd-none s.partition h row col r c fits e)

  new-Marked : Marked (place_found s row col (some (h, rest))) p (at_location h row col)
  new-Marked r c o e =
      let cov =
        Covers-rows p s.partition h row col r c sound.rows
          (Occupies-at_location p h row col r c o) in
      absurd (some_ne (sym (place_herd-mark s.partition h row col r c fits cov) ∙ e))
    where
      some_ne : {n : ℕ} → some n ≡ none → ⊥
      some_ne q = ground arith

  new-Disjoint : (x : Herd) → Marked s p x → Disjoint p x (at_location h row col)
  new-Disjoint x m r c o n =
      let cov =
        Covers-rows p s.partition h row col r c sound.rows
          (Occupies-at_location p h row col r c n) in
      m r c o (is_legal_placement-Open s.partition h row col t.legal r c cov).free

  new-Inside : Inside p (at_location h row col)
  new-Inside =
      let top = fits in
      let tall = taken-Sized.tall in
      let wide = taken-Sized.wide in
      let cov : Covers s.partition h row col (s.partition.num_rows - row - 1)
          (col + h.num_cols - 1) =
        record { low = omega arith; high = omega arith; left = omega arith; right = omega arith } in
      let corner = is_legal_placement-Open s.partition h row col t.legal _ _ cov in
      record {
        row = row;
        col = col;
        row_set = refl;
        col_set = refl;
        row_fits = omega (arith, fits, sound.rows);
        col_fits = omega (arith, corner.col_in, sound.cols);
      }

  pub place_found-Sound : Sound p (place_found s row col (some (h, rest)))
  unfolding place_herd
  place_found-Sound = record {
    rows = sound.rows;
    cols = sound.cols;
    sized = (t.each Sized sound.sized).1;
    inside = Each-append _ _ sound.inside (Each.cons new-Inside Each.nil);
    marked = Each-append _ _ (Each-map old-Marked _ sound.marked) (Each.cons new-Marked Each.nil);
    apart =
        Apart-append p s.placed (at_location h row col) sound.apart
          (Each-map new-Disjoint _ sound.marked);
  }

pub visit-Sound :
    (p : Partition) (s : Progress) (row col : ℕ) → Sound p s → Sound p (visit s row col)
visit-Sound p s row col sound =
    visit-keep s row col (Sound p) sound (place_found-Sound p s row col sound)

abbrev pub start : Partition → List Herd → Progress
start p hs = record { partition = p; unplaced = hs; placed = [] }

abbrev pub bodies : Progress → List (ℕ × ℕ × ℕ)
bodies s = map body (s.placed ++ s.unplaced)

visit-bodies :
    (hs : List (ℕ × ℕ × ℕ)) (s : Progress) (row col : ℕ)
    → Perm (bodies s) hs
    → Perm (bodies (visit s row col)) hs
visit-bodies hs s row col e =
    visit-keep s row col (λ u. Perm (bodies u) hs) e
      (λ h rest t.
        let same : bodies (place_found s row col (some (h, rest)))
            ≡ map body s.placed ++ (body h ∷ map body rest) =
          simp (map-append, append_assoc) in
        let split : bodies s ≡ map body s.placed ++ map body s.unplaced = simp (map-append) in
        rw (same)
          (Perm.trans (Perm.append_left (map body s.placed) (Perm.symm t.perm)) (rw (split) at e)))

pub start-Sound : (p : Partition) (hs : List Herd) → Each Sized hs → Sound p (start p hs)
start-Sound p hs sized = record {
  rows = refl;
  cols = refl;
  sized = sized;
  inside = Each.nil;
  marked = Each.nil;
  apart = Apart.nil;
}

-- When every herd has a row and a column, naive placement that starts with no herd placed puts each
-- placed herd inside the partition, no two of them share a tile, and the placed and the unplaced
-- herds together are the herds given, with their rows and columns.
pub naive_placement-Sound :
    (p : Partition) (hs : List Herd)
    → Each Sized hs
    → let s = naive_placement (start p hs) in
      Each (Inside p) s.placed × Apart p s.placed × Perm (bodies s) (map body hs)
naive_placement-Sound p hs sized =
    let sound =
      naive_placement-keep (Sound p) (visit-Sound p) (start p hs) (start-Sound p hs sized) in
    (
      sound.inside,
      sound.apart,
      naive_placement-keep (λ s. Perm (bodies s) (map body hs)) (visit-bodies _) (start p hs)
          Perm.rfl,
    )
