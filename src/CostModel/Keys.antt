-- ===== src/CostModel/Keys.antt =====
-- The map of the counts, key by key.
use mlir_air_mirror.Prelude.{
  ℕ, ◌+◌, ◌*◌, ◌^◌, ◌<◌, ◌≡◌, refl, sym, ap, ◌∙◌, arith, true, false, if◌then◌else◌, ==_iff, u64,
  Option, none, some, List, [], ◌∷◌, Bool-cases, inl, inr, length,
}
use mlir_air_mirror.CostModel.{
  CountKey, op_name, linalg_yield, reads, writes, footprint, key_eq, Counts, find_count, insert_new,
  insert, increment, erase, scale, count_ops,
}

-- How often a name stands in a list.
abbrev pub occurrences : CountKey → List CountKey → ℕ
occurrences k [] = 0
occurrences k (s ∷ ops) = (if key_eq k s then 1 else 0) + occurrences k ops

abbrev pub value : Option ℕ → ℕ
value none = 0
value (some n) = n

pub key_eq_eq : (a b : CountKey) → key_eq a b ≡ true → a ≡ b
key_eq_eq (op_name a) (op_name b) h = ap op_name ((==_iff a b).0 h)
key_eq_eq linalg_yield linalg_yield h = refl
key_eq_eq reads reads h = refl
key_eq_eq writes writes h = refl
key_eq_eq footprint footprint h = refl
key_eq_eq _ _ h = absurd (ground (arith, h))

pub key_eq_self : (k : CountKey) → key_eq k k ≡ true
key_eq_self (op_name a) = ground arith
key_eq_self linalg_yield = refl
key_eq_self reads = refl
key_eq_self writes = refl
key_eq_self footprint = refl

pub find_count-insert_ne :
    (k s : CountKey) (n : ℕ) (m : Counts)
    → key_eq k s ≡ false
    → find_count k (insert s n m) ≡ find_count k m
find_count-insert_ne k s n m e = by_answer (find_count s m)
  where
    by_answer : (o : Option ℕ) → find_count k (insert_new s n o m) ≡ find_count k m
    by_answer none = rw (e) refl
    by_answer (some _) = refl

pub find_count-insert-none :
    (s : CountKey) (n : ℕ) (m : Counts)
    → find_count s m ≡ none
    → find_count s (insert s n m) ≡ some n
find_count-insert-none s n m h = rw (h, key_eq_self s) refl

pub find_count-increment_ne :
    (k s : CountKey) (m : Counts)
    → key_eq k s ≡ false
    → find_count k (increment s m) ≡ find_count k m
find_count-increment_ne k s [] e = refl
find_count-increment_ne k s ((k', n) ∷ m) e = elim (Bool-cases (key_eq s k')) [
  | inl same ↦
      let other : key_eq k k' ≡ false = ap (key_eq k) (sym (key_eq_eq s k' same)) ∙ e in
      rw (same, other) refl
  | inr ne ↦ rw (ne) (ap (λ r. if key_eq k k' then some n else r) (find_count-increment_ne k s m e))
]

pub find_count-increment_self :
    (s : CountKey) (m : Counts) (n : ℕ)
    → find_count s m ≡ some n
    → find_count s (increment s m) ≡ some (u64 (n + 1))
find_count-increment_self s [] n h = absurd (ground (arith, h))
find_count-increment_self s ((k', i) ∷ m) n h = elim (Bool-cases (key_eq s k')) [
  | inl same ↦
      let i' : some i ≡ some n = rw (same) at h in
      rw (same, same) (ap (λ o. some (u64 (value o + 1))) i')
  | inr ne ↦
      let h' : find_count s m ≡ some n = rw (ne) at h in
      rw (ne, ne) (find_count-increment_self s m n h')
]

pub value-insert_self :
    (s : CountKey) (m : Counts) → find_count s (insert s 0 m) ≡ some (value (find_count s m))
value-insert_self s m = by_answer (find_count s m) refl
  where
    by_answer :
        (o : Option ℕ) → find_count s m ≡ o → find_count s (insert_new s 0 o m) ≡ some (value o)
    by_answer none h = rw (key_eq_self s) refl
    by_answer (some v) h = h

-- One operation of the region.
pub find_count-counted_self :
    (s : CountKey) (m : Counts)
    → find_count s (increment s (insert s 0 m)) ≡ some (u64 (value (find_count s m) + 1))
find_count-counted_self s m =
    find_count-increment_self s (insert s 0 m) (value (find_count s m)) (value-insert_self s m)

pub find_count-counted_ne :
    (k s : CountKey) (m : Counts)
    → key_eq k s ≡ false
    → find_count k (increment s (insert s 0 m)) ≡ find_count k m
find_count-counted_ne k s m e =
    find_count-increment_ne k s (insert s 0 m) e ∙ find_count-insert_ne k s 0 m e

-- The walk counts the operations of each name.
pub value-count_ops :
    (k : CountKey) (ops : List CountKey) (m : Counts)
    → value (find_count k m) + length ops < 2 ^ 64
    → value (find_count k (count_ops ops m)) ≡ value (find_count k m) + occurrences k ops
unfolding count_ops
value-count_ops k [] m h = omega arith
value-count_ops k (s ∷ ops) m h = elim (Bool-cases (key_eq k s)) [
  | inl e ↦
      let same : k ≡ s = key_eq_eq k s e in
      let one : value (find_count k (increment s (insert s 0 m))) ≡ value (find_count k m) + 1 =
        ap (λ t. value (find_count k (increment t (insert t 0 m)))) (sym same)
        ∙ ap value (find_count-counted_self k m)
        ∙ omega (arith, h) in
      rw (e) (
        value-count_ops k ops (increment s (insert s 0 m)) (omega (arith, one, h))
        ∙ omega (arith, one))
  | inr e ↦
      let same : value (find_count k (increment s (insert s 0 m))) ≡ value (find_count k m) =
        ap value (find_count-counted_ne k s m e) in
      rw (e) (
        value-count_ops k ops (increment s (insert s 0 m)) (omega (arith, same, h))
        ∙ omega (arith, same))
]

pub find_count-count_ops_absent :
    (k : CountKey) (ops : List CountKey) (m : Counts)
    → occurrences k ops ≡ 0
    → find_count k (count_ops ops m) ≡ find_count k m
unfolding count_ops
find_count-count_ops_absent k [] m h = refl
find_count-count_ops_absent k (s ∷ ops) m h = elim (Bool-cases (key_eq k s)) [
  | inl e ↦ absurd (ground (arith, h, e))
  | inr e ↦
      find_count-count_ops_absent k ops (increment s (insert s 0 m)) (ground (arith, h, e))
      ∙ find_count-counted_ne k s m e
]

pub find_count-erase_ne :
    (k s : CountKey) (m : Counts) → key_eq k s ≡ false → find_count k (erase s m) ≡ find_count k m
find_count-erase_ne k s [] e = refl
find_count-erase_ne k s ((k', n) ∷ m) e = elim (Bool-cases (key_eq s k')) [
  | inl same ↦
      let other : key_eq k k' ≡ false = ap (key_eq k) (sym (key_eq_eq s k' same)) ∙ e in
      rw (same, other) (find_count-erase_ne k s m e)
  | inr ne ↦ rw (ne) (ap (λ r. if key_eq k k' then some n else r) (find_count-erase_ne k s m e))
]

pub find_count-erase_self : (s : CountKey) (m : Counts) → find_count s (erase s m) ≡ none
find_count-erase_self s [] = refl
find_count-erase_self s ((k', n) ∷ m) = elim (Bool-cases (key_eq s k')) [
  | inl same ↦ rw (same) (find_count-erase_self s m)
  | inr ne ↦ rw (ne, ne) (find_count-erase_self s m)
]

abbrev pub scaled : ℕ → Option ℕ → Option ℕ
scaled i none = none
scaled i (some n) = some (u64 (n * i))

pub find_count-scale :
    (k : CountKey) (i : ℕ) (m : Counts) → find_count k (scale i m) ≡ scaled i (find_count k m)
find_count-scale k i [] = refl
find_count-scale k i ((k', n) ∷ m) = elim (Bool-cases (key_eq k k')) [
  | inl e ↦ rw (e) refl
  | inr e ↦ rw (e) (find_count-scale k i m)
]
