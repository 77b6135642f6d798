-- ===== src/Prelude/Elem.antt =====
-- Membership as a Boolean test, and the search for a number that a list lacks.
use Prim.Native.Nat.{ℕ, zero, suc, ◌+◌, ◌≤◌, ◌<◌}
use mathlib.Core.Path.{◌≡◌, refl}
use mathlib.Core.Logic.{inl, inr}
use mathlib.Core.Bool.{Bool, true, false, ◌&&◌, ◌||◌, not}
use mathlib.Core.List.{List, [], ◌∷◌, ◌++◌}
use native.Mathlib.Omega.{arith}
use mlir_air_mirror.Prelude.Tests.{◌==◌, if◌then◌else◌, leb, Bool-cases}
use mlir_air_mirror.Prelude.Lists.{length}

abbrev pub elem : ℕ → List ℕ → Bool
elem a [] = false
elem a (x ∷ xs) = a == x || elem a xs

pub elem-append : (a : ℕ) (xs ys : List ℕ) → elem a (xs ++ ys) ≡ (elem a xs || elem a ys)
elem-append a [] ys = refl
elem-append a (x ∷ xs) ys = ground (arith, elem-append a xs ys)

-- The elements that are not `a`.
abbrev pub without : ℕ → List ℕ → List ℕ
without a [] = []
without a (x ∷ xs) = let rest = without a xs in if x == a then rest else x ∷ rest

pub elem-without_self : (a : ℕ) (xs : List ℕ) → elem a (without a xs) ≡ false
elem-without_self a [] = refl
elem-without_self a (x ∷ xs) = ground (arith, elem-without_self a xs)

pub elem-without_ne : (a b : ℕ) (xs : List ℕ) → (b == a) ≡ false → elem b (without a xs) ≡ elem b xs
elem-without_ne a b [] h = refl
elem-without_ne a b (x ∷ xs) h = ground (arith, elem-without_ne a b xs h)

-- The first number from `i` on that the list lacks, on fuel.
unfoldable pub first_free : ℕ → ℕ → List ℕ → ℕ
first_free zero i ids = i
first_free (suc n) i ids = let rest = first_free n (i + 1) ids in if elem i ids then rest else i

-- The elements from `i` on.
abbrev above : ℕ → List ℕ → ℕ
above i [] = 0
above i (x ∷ xs) = (if leb i x then 1 else 0) + above i xs

above-le : (i : ℕ) (xs : List ℕ) → above i xs ≤ length xs
above-le i [] = omega arith
above-le i (x ∷ xs) = ground (arith, above-le i xs)

above_mono : (i : ℕ) (xs : List ℕ) → above (i + 1) xs ≤ above i xs
above_mono i [] = omega arith
above_mono i (x ∷ xs) = ground (arith, above_mono i xs)

above-elem : (i : ℕ) (xs : List ℕ) → elem i xs ≡ true → above (i + 1) xs < above i xs
above-elem i [] h = ground arith
above-elem i (x ∷ xs) h = elim (Bool-cases (i == x)) [
  | inl e ↦ ground (arith, above_mono i xs)
  | inr e ↦ ground (arith, above-elem i xs (ground arith))
]

above-zero : (i : ℕ) (xs : List ℕ) → above i xs ≡ 0 → elem i xs ≡ false
above-zero i [] h = refl
above-zero i (x ∷ xs) h = ground (arith, above-zero i xs (ground arith))

lacks : (n i : ℕ) (ids : List ℕ) → above i ids ≤ n → elem (first_free n i ids) ids ≡ false
unfolding first_free
lacks zero i ids h = above-zero i ids (omega arith)
lacks (suc n) i ids h = elim (Bool-cases (elem i ids)) [
  | inl e ↦ rw (e) (lacks n (i + 1) ids (omega (arith, above-elem i ids e)))
  | inr e ↦ rw (e, e) refl
]

-- With as much fuel as the list is long, the number found is not in the list.
pub first_free-lacks :
    (n i : ℕ) (ids : List ℕ) → length ids ≤ n → elem (first_free n i ids) ids ≡ false
first_free-lacks n i ids h = lacks n i ids (omega (arith, above-le i ids))

-- Every number before the one found is in the list.
pub first_free-least :
    (n i : ℕ) (ids : List ℕ) (j : ℕ) → i ≤ j → j < first_free n i ids → elem j ids ≡ true
unfolding first_free
first_free-least zero i ids j h k = absurd (omega arith)
first_free-least (suc n) i ids j h k = elim (Bool-cases (elem i ids)) [
  | inl e ↦ elim (Bool-cases (i == j)) [
    | inl q ↦ ground arith
    | inr q ↦ first_free-least n (i + 1) ids j (ground arith) (rw (e) at k)
  ]
  | inr e ↦ let k' : j < i = rw (e) at k in absurd (omega (arith, k'))
]

pub first_free-ge : (n i : ℕ) (ids : List ℕ) → i ≤ first_free n i ids
unfolding first_free
first_free-ge zero i ids = omega arith
first_free-ge (suc n) i ids = ground (arith, first_free-ge n (i + 1) ids)

abbrev pub distinct : List ℕ → Bool
distinct [] = true
distinct (x ∷ xs) = not (elem x xs) && distinct xs

pub elem_self : (a : ℕ) (xs : List ℕ) → elem a (a ∷ xs) ≡ true
elem_self a xs = ground arith

pub distinct-without : (a : ℕ) (xs : List ℕ) → distinct xs ≡ true → distinct (without a xs) ≡ true
distinct-without a [] h = refl
distinct-without a (x ∷ xs) h = elim (Bool-cases (x == a)) [
  | inl e ↦ rw (e) (distinct-without a xs (ground arith))
  | inr e ↦
      let rest = distinct-without a xs (ground arith) in
      rw (e, elem-without_ne a x xs e) (ground (arith, rest))
]

-- A new element at the end.
pub distinct-append_one :
    (xs : List ℕ) (a : ℕ)
    → distinct xs ≡ true
    → elem a xs ≡ false
    → distinct (xs ++ (a ∷ [])) ≡ true
distinct-append_one [] a h k = refl
distinct-append_one (x ∷ xs) a h k =
    ground
      (arith, elem-append x xs (a ∷ []), distinct-append_one xs a (ground arith) (ground arith))
