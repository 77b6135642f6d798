-- ===== src/CostModel/Tests.antt =====
-- A matrix multiplication of 4 by 8 by 16.
use mlir_air_mirror.Prelude.{ℕ, ◌≡◌, refl, arith, true, some, [], ◌∷◌}
use mlir_air_mirror.CostModel.{
  op_name, linalg_yield, reads, footprint, find_count, Operand, LinalgOp, count_ops,
  get_tensor_volume, get_linalg_op_counts,
}
use mlir_air_mirror.CostModel.Counted.{LinalgCounted, get_linalg_op_counts-LinalgCounted}

abbrev matrix : ℕ → ℕ → Operand
matrix m n = record {
  used = true;
  type = some (record { shape = some (m ∷ n ∷ []); element_type_bit_width = 32 });
}

abbrev matmul : LinalgOp
matmul = record {
  sizes = some (some 4 ∷ some 8 ∷ some 16 ∷ []);
  region = op_name 1 ∷ op_name 2 ∷ linalg_yield ∷ [];
  inputs = matrix 4 16 ∷ matrix 16 8 ∷ [];
  inits = matrix 4 8 ∷ [];
}

matmul_test :
    (find_count (op_name 1) (get_linalg_op_counts matmul []) ≡ some 512)
    × (find_count reads (get_linalg_op_counts matmul []) ≡ some 1536)
    × (find_count footprint (get_linalg_op_counts matmul []) ≡ some 896)
unfolding get_linalg_op_counts count_ops get_tensor_volume
matmul_test = (refl, refl, refl)

get_linalg_op_counts-LinalgCounted_example :
    LinalgCounted matmul 512 (get_linalg_op_counts matmul [])
get_linalg_op_counts-LinalgCounted_example =
    get_linalg_op_counts-LinalgCounted matmul (4 ∷ 8 ∷ 16 ∷ []) refl
      (record { no_reads = refl; no_writes = refl; no_footprint = refl }) (omega arith)
