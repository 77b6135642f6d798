-- ===== src/CostModel/Counted.antt =====
-- The counts of a linalg operation, key by key.
use mathlib.Core.Path.{subst}
use native.Mathlib.Nat.{add-mul-mod_self_right, add-mul, mul_assoc, mul_right_comm}
use mlir_air_mirror.Prelude.{
  ℕ, product, ◌+◌, ◌/◌, ◌%◌, ◌*◌, map, ◌^◌, ◌<◌, ◌≡◌, refl, sym, ap, ◌∙◌, arith, false,
  if◌then◌else◌, u64, Option, none, some, List, [], ◌∷◌, Bool-cases, inl, inr, length,
}
use mlir_air_mirror.CostModel.{
  CountKey, op_name, linalg_yield, reads, writes, footprint, key_eq, Counts, find_count, insert,
  erase, scale, count_ops, LinalgOp, count_reads, count_writes, add_footprint, count_linalg,
  ShapedType, shape_product, shape_volume, Operand, get_tensor_volume, iterations, with_sizes,
  when_constant, get_linalg_op_counts,
}
use mlir_air_mirror.CostModel.Keys.{
  occurrences, value, find_count-insert_ne, find_count-insert-none, value-count_ops,
  find_count-count_ops_absent, find_count-erase_ne, find_count-erase_self, scaled, find_count-scale,
}

-- What the counts of an operation say of its region and its operands.
abbrev pub used : List Operand → ℕ
used [] = 0
used (o ∷ os) = (if o.used then 1 else 0) + used os

-- The volume of a type: the product of its shape times the bits of an element divided by 8, rounded
-- down, and 1 without a shape.
abbrev pub volume_of : Option ShapedType → ℕ
volume_of none = 1
volume_of (some ty) = elim (ty.shape) [
  | none ↦ 1
  | some ds ↦ product ds * (ty.element_type_bit_width / 8)
]

abbrev pub volumes : List Operand → ℕ
volumes [] = 0
volumes (o ∷ os) = volume_of o.type + volumes os

u64_mul : (a b : ℕ) → u64 (u64 a * b) ≡ u64 (a * b)
u64_mul a b =
    let parts : a ≡ u64 a + a / 2 ^ 64 * 2 ^ 64 = omega arith in
    let spread : a * b ≡ u64 a * b + a / 2 ^ 64 * b * 2 ^ 64 =
      ap (λ x. x * b) parts
      ∙ add-mul (u64 a) (a / 2 ^ 64 * 2 ^ 64) b
      ∙ ap (λ x. u64 a * b + x) (mul_right_comm (a / 2 ^ 64) (2 ^ 64) b) in
    sym (ap u64 spread ∙ add-mul-mod_self_right (u64 a * b) (a / 2 ^ 64 * b) (2 ^ 64))

iterations-product :
    (ds : List ℕ) (n : ℕ) → n < 2 ^ 64 → iterations (map some ds) n ≡ some (u64 (n * product ds))
iterations-product [] n h = ap some (omega arith)
iterations-product (d ∷ ds) n h =
    iterations-product ds (u64 (n * d)) (omega arith)
    ∙ ap some (u64_mul (n * d) (product ds) ∙ ap u64 (mul_assoc n d (product ds)))

shape_product-product : (ds : List ℕ) (n : ℕ) → u64 (shape_product ds n) ≡ u64 (n * product ds)
shape_product-product [] n = ap u64 (omega arith)
shape_product-product (d ∷ ds) n =
    shape_product-product ds (u64 (n * d))
    ∙ u64_mul (n * d) (product ds)
    ∙ ap u64 (mul_assoc n d (product ds))

get_tensor_volume-volume_of :
    (o : Option ShapedType) → u64 (get_tensor_volume o) ≡ u64 (volume_of o)
unfolding get_tensor_volume
get_tensor_volume-volume_of none = refl
get_tensor_volume-volume_of (some ty) = with_shape (ty.shape) ty.element_type_bit_width
  where
    with_shape :
        (o : Option (List ℕ)) (bits : ℕ)
        → u64 (shape_volume o bits)
          ≡ u64 (volume_of (some (record { shape = o; element_type_bit_width = bits })))
    with_shape none bits = refl
    with_shape (some ds) bits =
        let one : product ds ≡ 1 * product ds = omega arith in
        let p = shape_product-product ds 1 in
        let whole : u64 (u64 (shape_product ds 1 * (bits / 8)))
            ≡ u64 (shape_product ds 1 * (bits / 8)) =
          omega arith in
        whole
        ∙ sym (u64_mul (shape_product ds 1) (bits / 8))
        ∙ ap (λ x. u64 (x * (bits / 8))) (p ∙ ap u64 (sym one))
        ∙ u64_mul (product ds) (bits / 8)

count_reads-used : (os : List Operand) (n : ℕ) → count_reads os n ≡ n + used os
count_reads-used [] n = omega arith
count_reads-used (o ∷ os) n = elim (Bool-cases (o.used)) [
  | inl e ↦ rw (e) (count_reads-used os (n + 1) ∙ omega arith)
  | inr e ↦ rw (e) (count_reads-used os n ∙ omega arith)
]

count_writes-length : (os : List Operand) (n : ℕ) → count_writes os n ≡ n + length os
count_writes-length [] n = omega arith
count_writes-length (o ∷ os) n = count_writes-length os (n + 1) ∙ omega arith

add_footprint-volumes :
    (os : List Operand) (v : ℕ) → u64 (add_footprint os v) ≡ u64 (v + volumes os)
add_footprint-volumes [] v = ap u64 (omega arith)
add_footprint-volumes (o ∷ os) v =
    add_footprint-volumes os (u64 (v + get_tensor_volume o.type))
    ∙ omega (arith, get_tensor_volume-volume_of o.type)

-- The region has none of the strings that the code adds.
pub record IsRegion (ops : List CountKey) : Type 0 where
  pub no_reads : occurrences reads ops ≡ 0
  pub no_writes : occurrences writes ops ≡ 0
  pub no_footprint : occurrences footprint ops ≡ 0

value-scaled : (i : ℕ) (o : Option ℕ) → value (scaled i o) ≡ u64 (value o * i)
value-scaled i none = omega arith
value-scaled i (some n) = refl

-- The counts of an operation whose loops make `iters` iterations.
pub record LinalgCounted (op : LinalgOp) (iters : ℕ) (m : Counts) : Type 0 where
  pub names :
      (a : ℕ) → value (find_count (op_name a) m) ≡ u64 (occurrences (op_name a) op.region * iters)
  pub yields : find_count linalg_yield m ≡ none
  pub read : find_count reads m ≡ some (u64 ((used op.inputs + used op.inits) * iters))
  pub written : find_count writes m ≡ some (u64 (length op.inits * iters))
  pub size : ℕ
  pub held : find_count footprint m ≡ some size
  pub volume : u64 size ≡ u64 (volumes op.inputs + volumes op.inits)

module _ (op : LinalgOp) (iters : ℕ) where
  abbrev counted : Counts
  counted = count_ops op.region []

  abbrev read_in : Counts
  read_in = insert reads (count_reads op.inits (count_reads op.inputs 0)) counted

  abbrev written_in : Counts
  written_in = insert writes (count_writes op.inits 0) read_in

  abbrev total : ℕ
  total = add_footprint op.inits (add_footprint op.inputs 0)

  -- A key that is neither a yield nor the footprint has its count times the iterations.
  find_count-count_linalg :
      (k : CountKey)
      → key_eq k footprint ≡ false
      → key_eq k linalg_yield ≡ false
      → find_count k (count_linalg op iters []) ≡ scaled iters (find_count k written_in)
  find_count-count_linalg k f y =
      find_count-insert_ne k footprint total (scale iters (erase linalg_yield written_in)) f
      ∙ find_count-scale k iters (erase linalg_yield written_in)
      ∙ ap (scaled iters) (find_count-erase_ne k linalg_yield written_in y)

  count_linalg-LinalgCounted :
      IsRegion op.region
      → length op.region < 2 ^ 64
      → LinalgCounted op iters (count_linalg op iters [])
  count_linalg-LinalgCounted r h = record {
    names = λ a.
        ap value (
          find_count-count_linalg (op_name a) refl refl
          ∙ ap (scaled iters) (
              find_count-insert_ne (op_name a) writes (count_writes op.inits 0) read_in refl
              ∙ find_count-insert_ne (op_name a) reads
                  (count_reads op.inits (count_reads op.inputs 0)) counted refl))
        ∙ value-scaled iters (find_count (op_name a) counted)
        ∙ ap (λ n. u64 (n * iters))
            (value-count_ops (op_name a) op.region [] (omega (arith, h)) ∙ omega arith);
    yields =
        find_count-insert_ne linalg_yield footprint total
          (scale iters (erase linalg_yield written_in)) refl
        ∙ find_count-scale linalg_yield iters (erase linalg_yield written_in)
        ∙ ap (scaled iters) (find_count-erase_self linalg_yield written_in);
    read =
        find_count-count_linalg reads refl refl
        ∙ ap (scaled iters) (
            find_count-insert_ne reads writes (count_writes op.inits 0) read_in refl
            ∙ find_count-insert-none reads (count_reads op.inits (count_reads op.inputs 0)) counted
                (find_count-count_ops_absent reads op.region [] r.no_reads)
            ∙ ap some (
                count_reads-used op.inits (count_reads op.inputs 0)
                ∙ ap (λ n. n + used op.inits) (count_reads-used op.inputs 0)
                ∙ omega arith));
    written =
        find_count-count_linalg writes refl refl
        ∙ ap (scaled iters) (
            find_count-insert-none writes (count_writes op.inits 0) read_in (
              find_count-insert_ne writes reads (count_reads op.inits (count_reads op.inputs 0))
                counted refl
              ∙ find_count-count_ops_absent writes op.region [] r.no_writes)
            ∙ ap some (count_writes-length op.inits 0 ∙ omega arith));
    size = total;
    held = find_count-insert-none footprint total (scale iters (erase linalg_yield written_in)) (
        find_count-scale footprint iters (erase linalg_yield written_in)
        ∙ ap (scaled iters) (
            find_count-erase_ne footprint linalg_yield written_in refl
            ∙ find_count-insert_ne footprint writes (count_writes op.inits 0) read_in refl
            ∙ find_count-insert_ne footprint reads (count_reads op.inits (count_reads op.inputs 0))
                counted refl
            ∙ find_count-count_ops_absent footprint op.region [] r.no_footprint));
    volume =
        let a = add_footprint-volumes op.inits (add_footprint op.inputs 0) in
        let b = add_footprint-volumes op.inputs 0 in omega (arith, a, b);
  }

-- For an operation with a map of its loops, all of constant size, the iterations are the product of the
-- sizes. Each name is counted as often as it stands in the region times the iterations, yields are not
-- counted, a read is counted for each used operand and a write for each output, times the iterations.
-- The footprint is the sum over the operands of the product of the shape times the bits of an element
-- divided by 8, rounded down, and of 1 for an operand without a shape. All is modulo 2^64. The region has fewer than 2^64 operations, and none of the
-- strings that the code adds is a name in it.
pub get_linalg_op_counts-LinalgCounted :
    (op : LinalgOp) (sizes : List ℕ)
    → op.sizes ≡ some (map some sizes)
    → IsRegion op.region
    → length op.region < 2 ^ 64
    → LinalgCounted op (product sizes % 2 ^ 64) (get_linalg_op_counts op [])
unfolding get_linalg_op_counts
get_linalg_op_counts-LinalgCounted op sizes s r h =
    let one : u64 (1 * product sizes) ≡ product sizes % 2 ^ 64 = omega arith in
    let i : iterations (map some sizes) 1 ≡ some (product sizes % 2 ^ 64) =
      iterations-product sizes 1 (omega arith) ∙ ap some one in
    subst (λ o. LinalgCounted op (product sizes % 2 ^ 64) (with_sizes op o [])) (sym s)
      (subst (λ o. LinalgCounted op (product sizes % 2 ^ 64) (when_constant op o [])) (sym i)
        (count_linalg-LinalgCounted op (product sizes % 2 ^ 64) r h))
