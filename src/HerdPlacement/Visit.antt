-- ===== src/HerdPlacement/Visit.antt =====
-- The rounds of `naivePlacement`: what `find_legal` returns and how a fact about the progress is
-- carried through the two loops.
use mathlib.Core.List.{Perm}
use mathlib.Core.List.Perm
use mlir_air_mirror.Prelude.{
  ℕ, zero, suc, ◌+◌, ◌-◌, ◌≡◌, inl, inr, refl, true, false, Bool-cases, Option, none, some, List,
  [], ◌∷◌, ◌++◌, map,
}
use mlir_air_mirror.HerdPlacement.{
  Herd, Partition, Progress, is_free, is_legal_placement, find_legal, place_found, visit,
  visit_cols, visit_rows, naive_placement,
}

-- What stays with a herd when it is placed: its operation, its rows and its columns.
abbrev pub body : Herd → ℕ × ℕ × ℕ
body h = (h.id, h.num_rows, h.num_cols)

pub data Each (P : Herd → Type 0) : List Herd → Type 0 where
  nil : Each P []
  cons : {h : Herd} {hs : List Herd} → P h → Each P hs → Each P (h ∷ hs)

module _ {P : Herd → Type 0} where
  pub Each-append : (xs ys : List Herd) → Each P xs → Each P ys → Each P (xs ++ ys)
  Each-append [] ys a b = b
  Each-append (x ∷ xs) ys (Each.cons p a) b = Each.cons p (Each-append xs ys a b)

  pub Each-map :
      {Q : Herd → Type 0} → ((h : Herd) → P h → Q h) → (xs : List Herd) → Each P xs → Each Q xs
  Each-map f [] a = Each.nil
  Each-map f (x ∷ xs) (Each.cons p a) = Each.cons (f x p) (Each-map f xs a)

  pub Each-head : {x : Herd} {xs : List Herd} → Each P (x ∷ xs) → P x
  Each-head (Each.cons p a) = p

  pub Each-tail : {x : Herd} {xs : List Herd} → Each P (x ∷ xs) → Each P xs
  Each-tail (Each.cons p a) = a

-- `find_legal` takes one herd out of the list, and that herd is legal.
pub record Taken (p : Partition) (row col : ℕ) (hs : List Herd) (h : Herd) (rest : List Herd)
    : Type 1 where
  pub legal : is_legal_placement p h row col ≡ true
  pub perm : Perm (map body hs) (body h ∷ map body rest)
  pub each : (P : Herd → Type 0) → Each P hs → P h × Each P rest

find_legal-rest :
    (p : Partition) (row col : ℕ) (x : Herd) (hs : List Herd) (h : Herd) (rest : List Herd)
    → Taken p row col hs h rest
    → Taken p row col (x ∷ hs) h (x ∷ rest)
find_legal-rest p row col x hs h rest t = record {
  legal = t.legal;
  perm = Perm.trans (Perm.cons (body x) t.perm) (Perm.swap (body h) (body x) (map body rest));
  each = λ P e. let w = t.each P (Each-tail e) in (w.0, Each.cons (Each-head e) (w.1));
}

-- What the loop over the unplaced herds comes to.
pub data Search (p : Partition) (row col : ℕ) (hs : List Herd)
    : Option (Herd × List Herd) → Type 1 where
  taken :
      (h : Herd) (rest : List Herd)
      → Taken p row col hs h rest
      → Search p row col hs (some (h, rest))
  stuck : Each (λ h. is_legal_placement p h row col ≡ false) hs → Search p row col hs none

pub find_legal-Search :
    (p : Partition) (row col : ℕ) (hs : List Herd) → Search p row col hs (find_legal p row col hs)
unfolding find_legal
find_legal-Search p row col [] = Search.stuck Each.nil
find_legal-Search p row col (h ∷ hs) = elim (Bool-cases (is_legal_placement p h row col)) [
  | inl e ↦ rw (e) (
      Search.taken h hs
        (record { legal = e; perm = Perm.rfl; each = λ P a. (Each-head a, Each-tail a) }))
  | inr e ↦ rw (e) (later (find_legal p row col hs) (find_legal-Search p row col hs) e)
]
  where
    later :
        (o : Option (Herd × List Herd))
        → Search p row col hs o
        → is_legal_placement p h row col ≡ false
        → Search p row col (h ∷ hs) (elim o [ none ↦ none | some (x, rest) ↦ some (x, h ∷ rest) ])
    later none (Search.stuck a) e = Search.stuck (Each.cons e a)
    later (some (x, rest)) (Search.taken y l t) e =
        Search.taken x (h ∷ rest) (find_legal-rest p row col h hs x rest t)

-- A fact that holds at the start and that every visit keeps holds at the end.
module _ {κ} (I : Progress → Type κ)
    (keep : (s : Progress) (row col : ℕ) → I s → I (visit s row col)) where
  pub visit_cols-keep : (n row col : ℕ) (s : Progress) → I s → I (visit_cols n row col s)
  unfolding visit_cols
  visit_cols-keep zero row col s i = i
  visit_cols-keep (suc n) row col s i =
      visit_cols-keep n row (col + 1) (visit s row col) (keep s row col i)

  pub visit_rows-keep : (n row : ℕ) (s : Progress) → I s → I (visit_rows n row s)
  unfolding visit_rows
  visit_rows-keep zero row s i = i
  visit_rows-keep (suc n) row s i =
      visit_rows-keep n (row + 1) _ (visit_cols-keep s.partition.num_cols row 0 s i)

  pub naive_placement-keep : (s : Progress) → I s → I (naive_placement s)
  unfolding naive_placement
  naive_placement-keep s i = visit_rows-keep s.partition.num_rows 0 s i

-- A visit changes nothing or places a herd.
module _ {κ} (s : Progress) (row col : ℕ) (I : Progress → Type κ) where
  place_found-keep :
      (o : Option (Herd × List Herd))
      → Search s.partition row col s.unplaced o
      → (is_free (s.partition.grid (s.partition.num_rows - row - 1) col) ≡ true)
      → (o ≡ none → I s)
      → ((h : Herd) (rest : List Herd)
          → Taken s.partition row col s.unplaced h rest
          → I (place_found s row col (some (h, rest))))
      → I (place_found s row col o)
  place_found-keep none w e same place = same refl
  place_found-keep (some (h, rest)) (Search.taken x l t) e same place = place h rest t

  pub visit-keep :
      I s
      → ((h : Herd) (rest : List Herd)
          → Taken s.partition row col s.unplaced h rest
          → I (place_found s row col (some (h, rest))))
      → I (visit s row col)
  unfolding visit
  visit-keep same place =
      elim (Bool-cases (is_free (s.partition.grid (s.partition.num_rows - row - 1) col))) [
        | inl e ↦ rw (e) (
            place_found-keep _ (find_legal-Search s.partition row col s.unplaced) e (λ _. same)
              place)
        | inr e ↦ rw (e) same
      ]
