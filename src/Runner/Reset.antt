-- ===== src/Runner/Reset.antt =====
-- `resetVertex` and `resetGraphBetweenTwoVertices` of mlir/lib/Util/Runner.cpp.
pub mod Resets
pub mod Effect
use mlir_air_mirror.Prelude.{
  ℕ, zero, suc, Bool, true, false, ◌&&◌, if◌then◌else◌, ◌==◌, Option, none, some, List, [], ◌∷◌,
  Option-cases,
}
use mlir_air_mirror.Runner.Vertices.{remove_vertex_from_vertices}
use mlir_air_mirror.Runner.State.{
  Node, is_started, is_done, run_from, ForLoop, Op, Op.hierarchy, Op.for_loop, Graph, Trip, Runner,
  write, with_processed, with_trips,
}
use mlir_air_mirror.Runner.Path.{Trail, has_path}

-- What a reset changes: the nodes of the graph it is called with, and the runners.
abbrev pub Resetting : Type 0
Resetting = (ℕ → Node) × (ℕ → Runner)

abbrev pub reset_node : ℕ → Node → Node
reset_node time n = if is_started n && is_done n time then run_from 0 0 n else n

abbrev pub reset_vertex : ℕ → ℕ → ℕ → Resetting → Resetting
reset_vertex time g v s = (
  write (s.0) v (reset_node time (s.0 v)),
  write (s.1) g (with_processed (s.1 g) (remove_vertex_from_vertices (s.1 g).processed_vertices v)),
)

-- The loop that erases a loop's entries from `loop_trip_count`.
abbrev pub forget_trips : ℕ → List Trip → List Trip
forget_trips id [] = []
forget_trips id (t ∷ trips) =
    let rest = forget_trips id trips in if t.op_id == id then rest else t ∷ rest

-- The recursive call on a hierarchy's graph, whose nodes are a copy, `auto sub_g`.
abbrev pub keep_runners : (ℕ → Node) → Option Resetting → Option Resetting
keep_runners nodes none = none
keep_runners nodes (some s) = some (nodes, s.1)

abbrev pub reset_inside :
    (ℕ → (ℕ → Runner) → Option Resetting) → ℕ → Op → Resetting → Option Resetting
reset_inside nested g (Op.hierarchy sub) s = keep_runners (s.0) (nested sub (s.1))
reset_inside nested g (Op.for_loop loop) s =
    some (s.0, write (s.1) g (with_trips (s.1 g) (forget_trips (loop.id) (s.1 g).loop_trip_count)))
reset_inside nested g op s = some s

-- The loop over the vertices between the two.
unfoldable pub reset_each :
    (ℕ → (ℕ → Runner) → Option Resetting) → (ℕ → Op) → ℕ → ℕ → List ℕ → Resetting → Option Resetting
reset_each nested op time g [] s = some s
reset_each nested op time g (v ∷ vs) s =
    elim (reset_inside nested g (op v) (reset_vertex time g v s)) [
      | none ↦ none
      | some s' ↦ reset_each nested op time g vs s'
    ]

abbrev pub reset_path :
    (ℕ → (ℕ → Runner) → Option Resetting)
    → (ℕ → Op)
    → ℕ
    → ℕ
    → Option Trail
    → Resetting
    → Option Resetting
reset_path nested op time g none s = none
reset_path nested op time g (some (found, vertices)) s =
    if found then reset_each nested op time g vertices s else some s

-- `depth` is the fuel of each `hasPath`, and `n` bounds how deep hierarchies are nested. `node` are
-- the nodes of the graphs that hierarchies have.
module _ (graphs : ℕ → Graph) (depth time : ℕ) (node : ℕ → ℕ → Node) where
  unfoldable pub reset_between : ℕ → ℕ → ℕ → ℕ → Resetting → Option Resetting
  unfolding has_path reset_each
  reset_between zero g start_v end_v s = none
  reset_between (suc n) g start_v end_v s =
      let nested : ℕ → (ℕ → Runner) → Option Resetting = λ sub runners.
        reset_between n sub (graphs sub).start_vertex (graphs sub).terminator_vertex
          (node sub, runners) in
      let s' = reset_vertex time g start_v s in
      if start_v == end_v
      then some s'
      else reset_path nested (graphs g).op time g (has_path (graphs g).adjacent depth start_v end_v)
          s'
