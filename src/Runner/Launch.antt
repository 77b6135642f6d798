-- ===== src/Runner/Launch.antt =====
-- `scheduleLaunch` and `scheduleFunction` of mlir/lib/Util/Runner.cpp. A launch's runners are a list in
-- the order of the code's loops: the launch, then each partition before its herds.
pub mod Rounds
pub mod Ends
use mlir_air_mirror.Prelude.{
  ℕ, zero, suc, ◌+◌, ◌*◌, ◌^◌, ◌%◌, min, Bool, true, false, ◌&&◌, ◌||◌, not, if◌then◌else◌, ◌==◌,
  leb, ltb, u64, Option, none, some, List, [], ◌∷◌, ◌++◌, max,
}
use mlir_air_mirror.Runner.Vertices.{Entry}
use mlir_air_mirror.Runner.State.{
  Node, is_started, run_from, Graph, Runner, World, write, set_node, set_runner, with_wavefront,
  with_processed,
}
use mlir_air_mirror.Runner.Reset.{Resetting}
use mlir_air_mirror.Runner.Execute.{reset_graph_between}
use mlir_air_mirror.Runner.Process.{process_graph}

abbrev pub max_time : ℕ
max_time = 5000000

abbrev pub is_empty : List Entry → Bool
is_empty [] = true
is_empty (e ∷ es) = false

-- `getTimeStampsFromWavefront`.
unfoldable pub time_stamps : (ℕ → Node) → List Entry → List ℕ
time_stamps node [] = []
time_stamps node (e ∷ es) =
    let rest = time_stamps node es in
    if is_started (node e.0) && not ((node e.0).end_time == 0)
    then (node e.0).end_time ∷ rest
    else rest

unfoldable pub all_time_stamps : World → List ℕ → List ℕ
unfolding time_stamps
all_time_stamps w [] = []
all_time_stamps w (g ∷ gs) = time_stamps (w.node g) (w.runner g).wavefront ++ all_time_stamps w gs

-- The least time stamp, which is 0 for no time stamps.
unfoldable pub min_element : List ℕ → ℕ
min_element [] = 0
min_element (t ∷ []) = t
min_element (t ∷ u ∷ us) = min t (min_element (u ∷ us))

-- `next_time`; the time after this one is 64-bit.
unfoldable pub next_time : ℕ → Bool → World → List ℕ → ℕ
unfolding all_time_stamps min_element
next_time time running w gs =
    max (u64 (time + 1)) (if running then min_element (all_time_stamps w gs) else 0)

module _ (graphs : ℕ → Graph) (depth nesting : ℕ) (latency : ℕ → ℕ → ℕ) where
  -- The calls of `processGraph` in one round, and whether a wavefront was left.
  unfoldable pub process_all : ℕ → List ℕ → Bool → World → Option (World × Bool)
  unfolding process_graph
  process_all time [] running w = some (w, running)
  process_all time (g ∷ gs) running w =
      elim (process_graph graphs depth nesting time g (latency g) w) [
        | none ↦ none
        | some w' ↦ process_all time gs (running || not (is_empty (w'.runner g).wavefront)) w'
      ]

  -- The loop, on fuel, with the time that it ends at.
  unfoldable pub run : ℕ → List ℕ → ℕ → World → Option (World × ℕ)
  unfolding process_all next_time
  run zero gs time w = none
  run (suc n) gs time w = elim (process_all time gs false w) [
    | none ↦ none
    | some r ↦
        let time' = next_time time r.1 r.0 gs in
        let rest = run n gs time' r.0 in
        if r.1 && leb time' max_time then rest else some (r.0, time')
  ]

  -- `scheduleLaunch`; `launch` is the launch's graph.
  abbrev pub prepare : ℕ → World → World
  prepare launch w =
      let s = (graphs launch).start_vertex in
      let w' = set_node w launch s (run_from 1 1 (w.node launch s)) in
      set_runner w' launch
        (with_wavefront (w'.runner launch) ((w'.runner launch).wavefront ++ ((s, 1) ∷ [])))

  unfoldable pub schedule_launch : ℕ → ℕ → List ℕ → ℕ → World → Option (World × ℕ)
  unfolding run
  schedule_launch n launch subs time w =
      elim (reset_graph_between graphs depth nesting time launch (graphs launch).start_vertex
        (graphs launch).terminator_vertex
        (set_runner w launch (with_processed (w.runner launch) []))) [
          | none ↦ none
          | some w' ↦ run n (launch ∷ subs) time (prepare launch w')
        ]

  -- `initRunnerNodesFromLaunchGraph`: new runners.
  abbrev pub new_runner : Runner
  new_runner = record { wavefront = []; processed_vertices = []; loop_trip_count = [] }

  abbrev pub init_runner_nodes : List ℕ → World → World
  init_runner_nodes [] w = w
  init_runner_nodes (g ∷ gs) w = init_runner_nodes gs (set_runner w g new_runner)

  -- The loop of `scheduleFunction` over the iterations of one launch.
  unfoldable pub launch_iterations : ℕ → ℕ → ℕ → List ℕ → ℕ → World → Option (World × ℕ)
  unfolding schedule_launch
  launch_iterations zero n launch subs time w = some (w, time)
  launch_iterations (suc i) n launch subs time w =
      elim (schedule_launch n launch subs time (init_runner_nodes (launch ∷ subs) w)) [
        | none ↦ none
        | some r ↦ launch_iterations i n launch subs r.1 r.0
      ]
