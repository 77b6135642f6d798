-- ===== src/CostModel.antt =====
-- The cost model: the operation counts of mlir/lib/Util/CostModel.cpp. An operation is what the code
-- reads of it, and its name is a number.
pub mod Keys
pub mod Counted
mod Tests
use mlir_air_mirror.Prelude.{
  ℕ, ◌+◌, ◌*◌, ◌/◌, ◌%◌, ◌^◌, Bool, true, false, if◌then◌else◌, ◌==◌, u64, Option, none, some, List,
  [], ◌∷◌,
}

-- The keys of `OpCountMap::map`: the names of operations, and the other strings that the code uses.
-- The name "linalg.yield" is one of its own.
pub data CountKey : Type 0 where
  op_name : ℕ → CountKey
  linalg_yield reads writes footprint : CountKey

abbrev pub key_eq : CountKey → CountKey → Bool
key_eq (op_name a) (op_name b) = a == b
key_eq linalg_yield linalg_yield = true
key_eq reads reads = true
key_eq writes writes = true
key_eq footprint footprint = true
key_eq _ _ = false

-- `std::map<std::string, uint64_t>`.
abbrev pub Counts : Type 0
Counts = List (CountKey × ℕ)

abbrev pub find_count : CountKey → Counts → Option ℕ
find_count k [] = none
find_count k ((k', n) ∷ m) = let rest = find_count k m in if key_eq k k' then some n else rest

-- `insert`, which leaves a key that is there as it is.
abbrev pub insert_new : CountKey → ℕ → Option ℕ → Counts → Counts
insert_new k n none m = (k, n) ∷ m
insert_new k n (some _) m = m

abbrev pub insert : CountKey → ℕ → Counts → Counts
insert k n m = insert_new k n (find_count k m) m

-- `map[s] = map[s] + 1`.
abbrev pub increment : CountKey → Counts → Counts
increment k [] = []
increment k ((k', n) ∷ m) =
    let rest = increment k m in if key_eq k k' then (k', u64 (n + 1)) ∷ m else (k', n) ∷ rest

abbrev pub erase : CountKey → Counts → Counts
erase k [] = []
erase k ((k', n) ∷ m) = let rest = erase k m in if key_eq k k' then rest else (k', n) ∷ rest

-- `m.second = m.second * iters` for each entry.
abbrev pub scale : ℕ → Counts → Counts
scale iters [] = []
scale iters ((k, n) ∷ m) = (k, u64 (n * iters)) ∷ scale iters m

-- The walk of the region.
unfoldable pub count_ops : List CountKey → Counts → Counts
count_ops [] m = m
count_ops (s ∷ ops) m = count_ops ops (increment s (insert s 0 m))

-- A type: no shaped type is none; a shape that has no rank is none.
pub record ShapedType : Type 0 where
  pub shape : Option (List ℕ)
  pub element_type_bit_width : ℕ

abbrev pub shape_product : List ℕ → ℕ → ℕ
shape_product [] v = v
shape_product (d ∷ ds) v = shape_product ds (u64 (v * d))

abbrev pub shape_volume : Option (List ℕ) → ℕ → ℕ
shape_volume none bits = 1
shape_volume (some ds) bits = u64 (shape_product ds 1 * (bits / 8))

unfoldable pub get_tensor_volume : Option ShapedType → ℕ
get_tensor_volume none = 1
get_tensor_volume (some ty) = shape_volume ty.shape ty.element_type_bit_width

-- An operand, and `payloadUsesValueFromOperand` of it.
pub record Operand : Type 0 where
  pub used : Bool
  pub type : Option ShapedType

-- A `linalg::LinalgOp`: the loop sizes, none without a map for them, each none when not constant; the
-- names of the operations in its region; its operands.
pub record LinalgOp : Type 0 where
  pub sizes : Option (List (Option ℕ))
  pub region : List CountKey
  pub inputs : List Operand
  pub inits : List Operand

-- `iters`, or none for the early return.
abbrev pub iterations : List (Option ℕ) → ℕ → Option ℕ
iterations [] iters = some iters
iterations (none ∷ sizes) iters = none
iterations (some c ∷ sizes) iters = iterations sizes (u64 (iters * c))

abbrev pub count_reads : List Operand → ℕ → ℕ
count_reads [] n = n
count_reads (o ∷ os) n = count_reads os (if o.used then n + 1 else n)

abbrev pub count_writes : List Operand → ℕ → ℕ
count_writes [] n = n
count_writes (o ∷ os) n = count_writes os (n + 1)

abbrev pub add_footprint : List Operand → ℕ → ℕ
add_footprint [] v = v
add_footprint (o ∷ os) v = add_footprint os (u64 (v + get_tensor_volume o.type))

-- After the early returns.
abbrev pub count_linalg : LinalgOp → ℕ → Counts → Counts
count_linalg op iters map =
    let counted = count_ops op.region map in
    let read = insert reads (count_reads op.inits (count_reads op.inputs 0)) counted in
    let written = insert writes (count_writes op.inits 0) read in
    let scaled = scale iters (erase linalg_yield written) in
    insert footprint (add_footprint op.inits (add_footprint op.inputs 0)) scaled

abbrev pub when_constant : LinalgOp → Option ℕ → Counts → Counts
when_constant op none map = map
when_constant op (some iters) map = count_linalg op iters map

abbrev pub with_sizes : LinalgOp → Option (List (Option ℕ)) → Counts → Counts
with_sizes op none map = map
with_sizes op (some sizes) map = when_constant op (iterations sizes 1) map

unfoldable pub get_linalg_op_counts : LinalgOp → Counts → Counts
get_linalg_op_counts op map = with_sizes op op.sizes map
