-- ===== src/HerdPlacement/Loose.antt =====
-- Herds outside every partition.
use mlir_air_mirror.Prelude.{
  ℕ, zero, suc, ◌+◌, ◌-◌, ◌<◌, ◌≤◌, ◌≡◌, ◌∙◌, ap, refl, arith, Bool, true, false, ◌&&◌, none, some,
  List, [], ◌∷◌, ltb, if◌then◌else◌,
}
use mlir_air_mirror.HerdPlacement.{
  is_free, Herd, Partition, Progress, Outcome, new_partition, legal_cells, legal_rows,
  is_legal_placement, find_legal, place_found, place_herd, visit, visit_cols, visit_rows,
  naive_placement, place_herds_in_partition, place_loose_herd, report,
}
use mlir_air_mirror.HerdPlacement.Disjoint.{Sized, start}
use mlir_air_mirror.HerdPlacement.Visit.{visit_cols-keep, visit_rows-keep}

module _ (p : Partition) (free : (r c : ℕ) → p.grid r c ≡ none) where
  legal_cells-free :
      (i n j : ℕ) → i < p.num_rows → j + n ≤ p.num_cols → legal_cells p false i n j ≡ true
  unfolding legal_cells
  legal_cells-free i zero j hi hj = refl
  legal_cells-free i (suc n) j hi hj =
      ground (arith, free i j, legal_cells-free i n (j + 1) hi (omega arith))

  both : (a b : Bool) → a ≡ true → b ≡ true → (a && b) ≡ true
  both a b e f = ground arith

  legal_rows-free :
      (h : Herd) (n k : ℕ)
      → n + k ≡ h.num_rows
      → h.num_rows ≤ p.num_rows
      → h.num_cols ≤ p.num_cols
      → legal_rows p h 0 0 n k ≡ true
  unfolding legal_rows
  legal_rows-free h zero k e hr hc = refl
  legal_rows-free h (suc n) k e hr hc =
      let above : ltb (p.num_rows + k) (0 + h.num_rows) ≡ false = ground arith in
      both _ _
        (rw (above) (
          legal_cells-free (p.num_rows + k - (0 + h.num_rows)) h.num_cols 0 (omega arith)
            (omega arith)))
        (legal_rows-free h n (k + 1) (omega arith) hr hc)

-- Visits with no herd left change nothing.
if_same : {A : Type 0} (b : Bool) (x : A) → (if b then x else x) ≡ x
if_same true x = refl
if_same false x = refl

visit-none : (t : Progress) (row col : ℕ) → t.unplaced ≡ [] → visit t row col ≡ t
unfolding visit find_legal
visit-none t row col e =
    ap
      (λ l.
        if is_free (t.partition.grid (t.partition.num_rows - row - 1) col)
        then place_found t row col (find_legal t.partition row col l)
        else t)
      e
    ∙ if_same _ t

module _ (s : Progress) (e : s.unplaced ≡ []) where
  abbrev Still : Progress → Type 0
  Still t = t ≡ s

  visit-Still : (t : Progress) (row col : ℕ) → Still t → Still (visit t row col)
  visit-Still t row col q = visit-none t row col (ap (λ (u : Progress). u.unplaced) q ∙ e) ∙ q

module _ (h : Herd) (r c anchor_point_row anchor_point_col : ℕ) where
  abbrev grid : Partition
  unfolding new_partition
  grid = new_partition (suc r) (suc c) anchor_point_row anchor_point_col

  abbrev after : Progress
  unfolding grid
  after = place_found (start grid (h ∷ [])) 0 0 (some (h, []))

  visit-first : h.num_rows ≤ suc r → h.num_cols ≤ suc c → visit (start grid (h ∷ [])) 0 0 ≡ after
  unfolding visit find_legal is_legal_placement new_partition grid after
  visit-first hr hc =
      rw (legal_rows-free grid (λ _ _. refl) h h.num_rows 0 (omega arith) hr hc) refl

  naive_placement-first :
      h.num_rows ≤ suc r → h.num_cols ≤ suc c → naive_placement (start grid (h ∷ [])) ≡ after
  unfolding naive_placement visit_rows visit_cols new_partition grid after
  naive_placement-first hr hc =
      visit_rows-keep (Still after refl) (visit-Still after refl) r 1 _
        (visit_cols-keep (Still after refl) (visit-Still after refl) c 0 1 _ (visit-first hr hc))

-- If sorting one herd leaves it, every herd outside the partitions that has a row and a column and is
-- no larger than the command line's grid is placed at the same point, the anchor point.
pub place_loose_herd-anchor :
    (sort : List Herd → List Herd) (num_rows num_cols anchor_point_row anchor_point_col : ℕ)
    (h : Herd)
    → sort (h ∷ []) ≡ h ∷ []
    → Sized h
    → h.num_rows ≤ num_rows
    → h.num_cols ≤ num_cols
    → place_loose_herd sort num_rows num_cols anchor_point_row anchor_point_col h
      ≡ Outcome.placed
          (record { id = h.id; row_offset = anchor_point_row; col_offset = anchor_point_col } ∷ [])
unfolding place_loose_herd place_herds_in_partition place_herd new_partition grid after
place_loose_herd-anchor sort zero num_cols ar ac h e sized hr hc =
    absurd (omega (arith, sized.tall))
place_loose_herd-anchor sort (suc r) zero ar ac h e sized hr hc = absurd (omega (arith, sized.wide))
place_loose_herd-anchor sort (suc r) (suc c) ar ac h e sized hr hc =
    ap
      (λ (l : List Herd).
        let s = naive_placement (start (grid h r c ar ac) l) in report s s.unplaced)
      e
    ∙ ap (λ (s : Progress). report s s.unplaced) (naive_placement-first h r c ar ac hr hc)
    ∙ ap
        (λ (x : ℕ × ℕ).
          Outcome.placed (record { id = h.id; row_offset = x.0; col_offset = x.1 } ∷ []))
        (pairs (omega arith) (omega arith))
  where
    pairs : {a b x y : ℕ} → a ≡ x → b ≡ y → Path (ℕ × ℕ) (a, b) (x, y)
    pairs e f = rw (e, f) refl
