-- ===== src/Runner/Process.antt =====
-- `processGraph` of mlir/lib/Util/Runner.cpp: the vertices that are done leave the wavefront, then the
-- vertices whose dependencies are fulfilled enter it. `latency` stands for `modelOp`.
pub mod Threads
use mlir_air_mirror.Prelude.{
  ℕ, ◌+◌, ◌^◌, ◌%◌, Bool, true, false, ◌&&◌, if◌then◌else◌, Option, none, some, List, [], ◌∷◌,
}
use mlir_air_mirror.Runner.Vertices.{
  Entry, find_adjacent_vertices, remove_repeated_vertices, get_vector_of_first_from_vector_of_pairs,
  push_to_wavefront,
}
use mlir_air_mirror.Runner.State.{
  Node, is_started, is_done, run_from, Graph, Runner, World, set_node, set_runner, with_wavefront,
}
use mlir_air_mirror.Runner.Depend.{dep_fulfilled}
use mlir_air_mirror.Runner.Execute.{execute_op_impls, execute_loop_iteration}

abbrev pub Finished : Type 0
Finished = World × List Entry

abbrev pub keep_entry : Entry → Option Finished → Option Finished
keep_entry e none = none
keep_entry e (some (w, left)) = some (w, e ∷ left)

module _ (graphs : ℕ → Graph) (depth nesting : ℕ) (time g : ℕ) where
  -- The loop over the wavefront, with the entries that it does not erase.
  unfoldable pub finish_entries : List Entry → World → Option Finished
  unfolding execute_op_impls execute_loop_iteration
  finish_entries [] w = some (w, [])
  finish_entries (e ∷ entries) w =
      if is_started (w.node g e.0) && is_done (w.node g e.0) time
      then elim (execute_op_impls graphs depth nesting time g w e.0) [
        | none ↦ none
        | some w' ↦
            finish_entries entries (execute_loop_iteration graphs depth nesting time g w' e.0)
      ]
      else keep_entry e (finish_entries entries w)

  unfoldable pub next_vertex_set_candidates : World → List ℕ
  unfolding find_adjacent_vertices remove_repeated_vertices
  next_vertex_set_candidates w =
      let r = w.runner g in
      remove_repeated_vertices
        (find_adjacent_vertices (graphs g).adjacent (r.processed_vertices) [])
        (get_vector_of_first_from_vector_of_pairs (r.wavefront))

  unfoldable pub select_fulfilled : World → List ℕ → List ℕ
  unfolding dep_fulfilled
  select_fulfilled w [] = []
  select_fulfilled w (v ∷ vs) =
      let rest = select_fulfilled w vs in if dep_fulfilled graphs w g time v then v ∷ rest else rest

  abbrev pub start_vertex : (ℕ → ℕ) → World → ℕ → World
  start_vertex latency w v =
      let r = w.runner g in
      set_node (set_runner w g (with_wavefront r (push_to_wavefront (r.wavefront) v))) g v
        (run_from time ((time + latency v) % 2 ^ 64) (w.node g v))

  -- The loop over `next_vertex_set`.
  unfoldable pub start_vertices : (ℕ → ℕ) → List ℕ → World → World
  unfolding push_to_wavefront
  start_vertices latency [] w = w
  start_vertices latency (v ∷ vs) w = start_vertices latency vs (start_vertex latency w v)

  unfoldable pub start_next : (ℕ → ℕ) → World → World
  unfolding start_vertices next_vertex_set_candidates select_fulfilled
  start_next latency w =
      start_vertices latency (select_fulfilled w (next_vertex_set_candidates w)) w

  abbrev pub after_finish : (ℕ → ℕ) → Option Finished → Option World
  after_finish latency none = none
  after_finish latency (some (w, left)) =
      some (start_next latency (set_runner w g (with_wavefront (w.runner g) left)))

  unfoldable pub process_graph : (ℕ → ℕ) → World → Option World
  unfolding finish_entries start_next
  process_graph latency w = after_finish latency (finish_entries (w.runner g).wavefront w)
