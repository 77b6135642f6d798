-- ===== src/Runner/Tests.antt =====
-- Two small graphs: a chain of four vertices with a shortcut, and in it a hierarchy with a graph of two.
use mathlib.Core.Path.{subst}
use mlir_air_mirror.Prelude.{
  ℕ, zero, suc, ◌+◌, ◌-◌, ◌*◌, ◌<◌, ◌≤◌, ◌⊎◌, ◌≡◌, ap, refl, arith, ◌&&◌, true, if◌then◌else◌, ◌==◌,
  Option, none, some, List, [], ◌∷◌, distinct,
}
use mlir_air_mirror.Runner.Vertices.{threads}
use mlir_air_mirror.Runner.State.{Node, ForLoop, Op, Graph, Runner, World}
use mlir_air_mirror.Runner.Path.{Trail, has_path}
use mlir_air_mirror.Runner.Path.Found.{Ranked, Found}
use mlir_air_mirror.Runner.Path.Correct.{has_path-Found}
use mlir_air_mirror.Runner.Graphs.{Graded}
use mlir_air_mirror.Runner.Process.{process_graph}
use mlir_air_mirror.Runner.Process.Threads.{process_graph-distinct}
use mlir_air_mirror.Runner.Reset.{Resetting, reset_between}
use mlir_air_mirror.Runner.Reset.Effect.{ResetDone, reset_between-ResetDone}
use mlir_air_mirror.Runner.Execute.{trip_count}
use mlir_air_mirror.Runner.Execute.TripCount.{trip_count_lem}
use mlir_air_mirror.Runner.Launch.{next_time, schedule_launch}
use mlir_air_mirror.Runner.Launch.Rounds.{EndsAt, next_time_lem}
use mlir_air_mirror.Runner.Launch.Ends.{Ended, schedule_launch-Ended}

-- 0 → 1 → 2 → 3 and 0 → 2; vertex 1 of graph 0 is a hierarchy, whose graph 1 is 0 → 1.
abbrev outer_adjacent : ℕ → List ℕ
outer_adjacent zero = 1 ∷ 2 ∷ []
outer_adjacent (suc zero) = 2 ∷ []
outer_adjacent (suc (suc zero)) = 3 ∷ []
outer_adjacent (suc (suc (suc v))) = []

abbrev outer_inv_adjacent : ℕ → List ℕ
outer_inv_adjacent zero = []
outer_inv_adjacent (suc zero) = 0 ∷ []
outer_inv_adjacent (suc (suc zero)) = 0 ∷ 1 ∷ []
outer_inv_adjacent (suc (suc (suc zero))) = 2 ∷ []
outer_inv_adjacent (suc (suc (suc (suc v)))) = []

abbrev inner_adjacent : ℕ → List ℕ
inner_adjacent zero = 1 ∷ []
inner_adjacent (suc v) = []

abbrev inner_inv_adjacent : ℕ → List ℕ
inner_inv_adjacent (suc zero) = 0 ∷ []
inner_inv_adjacent v = []

abbrev outer_op : ℕ → Op
outer_op zero = Op.start
outer_op (suc zero) = Op.hierarchy 1
outer_op (suc (suc v)) = Op.other

abbrev inner_op : ℕ → Op
inner_op zero = Op.start
inner_op (suc v) = Op.other

abbrev sample : ℕ → Graph
sample zero = record {
  op = outer_op;
  adjacent = outer_adjacent;
  inv_adjacent = outer_inv_adjacent;
  operands = λ v. [];
  def_vertex = λ x. 0;
  start_vertex = 0;
  terminator_vertex = 3;
}
sample (suc g) = record {
  op = inner_op;
  adjacent = inner_adjacent;
  inv_adjacent = inner_inv_adjacent;
  operands = λ v. [];
  def_vertex = λ x. 0;
  start_vertex = 0;
  terminator_vertex = 1;
}

abbrev down : ℕ → ℕ
down v = 3 - v

outer-Ranked : Ranked outer_adjacent down
outer-Ranked zero v h = ground arith
outer-Ranked (suc zero) v h = ground arith
outer-Ranked (suc (suc zero)) v h = ground arith
outer-Ranked (suc (suc (suc u))) v h = absurd (ground arith)

inner-Ranked : Ranked inner_adjacent down
inner-Ranked zero v h = ground arith
inner-Ranked (suc u) v h = absurd (ground arith)

sample-Ranked : (g : ℕ) → Ranked (sample g).adjacent down
sample-Ranked zero = outer-Ranked
sample-Ranked (suc g) = inner-Ranked

abbrev level : ℕ → ℕ
level zero = 1
level (suc g) = 0

abbrev sub_of : Op → ℕ
sub_of (Op.hierarchy sub) = suc sub
sub_of op = 0

sample-nested : (g v sub : ℕ) → (sample g).op v ≡ Op.hierarchy sub → level sub < level g
sample-nested zero zero sub e = absurd (let h = ap sub_of e in omega (arith, h))
sample-nested zero (suc zero) sub e =
    let k : 2 ≡ suc sub = ap sub_of e in
    let h : 1 ≡ sub = omega (arith, k) in subst (λ k. level k < 1) h (omega arith)
sample-nested zero (suc (suc v)) sub e = absurd (let h = ap sub_of e in omega (arith, h))
sample-nested (suc g) zero sub e = absurd (let h = ap sub_of e in omega (arith, h))
sample-nested (suc g) (suc v) sub e = absurd (let h = ap sub_of e in omega (arith, h))

level-lt : (g : ℕ) → level g < 2
level-lt zero = omega arith
level-lt (suc g) = omega arith

sample-Graded : Graded sample 4 2
sample-Graded = record {
  rank = λ g. down;
  height = level;
  ranked = sample-Ranked;
  rank_lt = λ g v. omega arith;
  nested = sample-nested;
  height_lt = level-lt;
}

abbrev idle : Node
idle = record { start_time = 0; end_time = 0; token_count = 0 }

abbrev begun : Node
begun = record { start_time = 1; end_time = 1; token_count = 0 }

abbrev fresh : Runner
fresh = record { wavefront = []; processed_vertices = []; loop_trip_count = [] }

-- Nothing has run yet.
abbrev at_rest : World
at_rest = record { node = λ g v. idle; runner = λ g. fresh }

-- The start vertex of graph 0 is on the wavefront, done.
abbrev at_start : World
at_start = record {
  node = λ g v. if g == 0 && v == 0 then begun else idle;
  runner = λ g.
      if g == 0
      then record { wavefront = (0, 1) ∷ []; processed_vertices = []; loop_trip_count = [] }
      else fresh;
}

-- The start vertex of graph 0 has been processed.
abbrev behind_start : World
behind_start = record {
  node = λ g v. if g == 0 && v == 0 then begun else idle;
  runner = λ g.
      if g == 0
      then record { wavefront = []; processed_vertices = 0 ∷ []; loop_trip_count = [] }
      else fresh;
}

abbrev two_each : ℕ → ℕ → ℕ
two_each g v = 2

abbrev by_threes : ForLoop
by_threes = record { id = 7; lower = 1; upper = 9; step = 3; region_iter_args = 5 ∷ [] }

has_path_test : has_path outer_adjacent 4 0 3 ≡ some (true, 0 ∷ 1 ∷ 2 ∷ 3 ∷ 2 ∷ 3 ∷ [])
unfolding has_path
has_path_test = refl

trip_count_test : trip_count by_threes ≡ 3
unfolding trip_count
trip_count_test = refl

end_time : Option (World × ℕ) → ℕ
end_time none = 0
end_time (some r) = r.1

schedule_launch_test : end_time (schedule_launch sample 4 2 two_each 20 0 (1 ∷ []) 1 at_rest) ≡ 10
unfolding schedule_launch end_time
schedule_launch_test = refl

has_path-Found_example :
    (t : Trail) × (has_path outer_adjacent 4 0 3 ≡ some t) × Found outer_adjacent 0 3 t
has_path-Found_example = has_path-Found outer_adjacent down outer-Ranked 4 0 3 (omega arith)

reset_between-ResetDone_example :
    (s : Resetting) × (reset_between sample 4 3 behind_start.node 2 0 0 3
        (behind_start.node 0, behind_start.runner)
      ≡ some s)
    × ResetDone sample level 3 0 0 3 (behind_start.node 0, behind_start.runner) s
unfolding sample-Graded
reset_between-ResetDone_example =
    reset_between-ResetDone sample 4 2 3 sample-Graded behind_start.node 2 0 0 3
      (behind_start.node 0, behind_start.runner) (omega arith)

process_graph-distinct_example :
    (w : World) × (process_graph sample 4 2 1 0 (two_each 0) at_start ≡ some w)
    × (distinct (threads (at_start.runner 0).wavefront) ≡ true
        → distinct (threads (w.runner 0).wavefront) ≡ true)
process_graph-distinct_example =
    process_graph-distinct sample 4 2 sample-Graded 1 0 (two_each 0) at_start

schedule_launch-Ended_example :
    (r : World × ℕ) × (schedule_launch sample 4 2 two_each 5000001 0 (1 ∷ []) 1 at_rest ≡ some r)
    × Ended sample 4 2 sample-Graded two_each (0 ∷ 1 ∷ []) 1 r
schedule_launch-Ended_example =
    schedule_launch-Ended sample 4 2 sample-Graded two_each 5000001 0 (1 ∷ []) 1 at_rest
      (omega arith) (omega arith)

next_time_lem_example :
    (0 < next_time 0 true at_start (0 ∷ []))
    × ((t : ℕ) → EndsAt at_start (0 ∷ []) t → 0 < t → next_time 0 true at_start (0 ∷ []) ≤ t)
    × ((next_time 0 true at_start (0 ∷ []) ≡ 1)
        ⊎ EndsAt at_start (0 ∷ []) (next_time 0 true at_start (0 ∷ [])))
next_time_lem_example = next_time_lem 0 at_start (0 ∷ []) (omega arith)

trip_count_lem_example :
    (2 < trip_count by_threes → 1 + 2 * 3 < 9) × (1 + 2 * 3 < 9 → 2 < trip_count by_threes)
trip_count_lem_example = trip_count_lem by_threes 2 (omega arith) (omega arith) (omega arith)
