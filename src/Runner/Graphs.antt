-- ===== src/Runner/Graphs.antt =====
-- The graphs that mlir/lib/Util/Runner.cpp runs on have no cycles and hierarchies nest.
use mlir_air_mirror.Prelude.{ℕ, ◌<◌, ◌≡◌}
use mlir_air_mirror.Runner.State.{Op, Graph}
use mlir_air_mirror.Runner.Path.Found.{Ranked}

-- `rank` falls along each graph's edges, `height` from a graph to the graphs of its hierarchies, and
-- the bounds exceed them.
pub record Graded (graphs : ℕ → Graph) (depth nesting : ℕ) : Type 0 where
  pub rank : ℕ → ℕ → ℕ
  pub height : ℕ → ℕ
  pub ranked : (g : ℕ) → Ranked (graphs g).adjacent (rank g)
  pub rank_lt : (g v : ℕ) → rank g v < depth
  pub nested : (g v sub : ℕ) → (graphs g).op v ≡ Op.hierarchy sub → height sub < height g
  pub height_lt : (g : ℕ) → height g < nesting
