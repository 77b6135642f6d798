-- ===== src/Runner/Execute.antt =====
-- The operations' `executeOp` of mlir/lib/Util/Runner.cpp, `executeOpImpls` and `executeLoopIteration`.
pub mod Returns
pub mod TripCount
use mlir_air_mirror.Prelude.{
  ℕ, zero, suc, ◌+◌, ◌-◌, ◌*◌, ◌/◌, ◌^◌, ◌%◌, Bool, true, false, ◌&&◌, ◌||◌, not, if◌then◌else◌,
  ◌==◌, leb, Option, none, some, List, [], ◌∷◌, ◌++◌, elem, get_or,
}
use mlir_air_mirror.Runner.State.{
  Node, is_started, is_done, release_token, consume_token, run_from, ForLoop, Op, Op.start,
  Op.hierarchy, Op.for_loop, Op.loop_yield, Op.channel_put, Op.channel_get, Graph, Trip, Runner,
  World, write, set_node, set_nodes, set_runner, with_wavefront, with_processed, with_trips,
}
use mlir_air_mirror.Runner.Reset.{Resetting, reset_between}
use mlir_air_mirror.Runner.Depend.{Token, Token.ssa, check_each_dependence_fulfillment}

-- `(ubv - lbv + stepv - 1) / stepv` on int64_t, which C++ rounds towards zero, as the `unsigned` of
-- `loop_trip_count`.
unfoldable pub trip_count : ForLoop → ℕ
trip_count l =
    if leb (l.lower + 1) (l.upper + l.step)
    then (l.upper + l.step - (l.lower + 1)) / l.step % 2 ^ 32
    else (2 ^ 32 - (l.lower + 1 - (l.upper + l.step)) / l.step % 2 ^ 32) % 2 ^ 32

-- The new entries of a loop with n tokens, from token i on.
abbrev pub loop_entries : ℕ → ℕ → List ℕ → ℕ → List Trip
loop_entries id i [] trips = []
loop_entries id i (arg ∷ args) trips =
    record { op_id = id; token = i; left = trips } ∷ loop_entries id (i + 1) args trips

-- The inner loop that decrements, on one entry.
abbrev pub count_entry : ℕ → List ℕ → Trip → Trip
count_entry id [] t = t
count_entry id (token_id ∷ token_ids) t = count_entry id token_ids (
    if t.token == token_id && not (t.left == 0)
    then record { op_id = t.op_id; token = t.token; left = t.left - 1 }
    else t)

-- The loop over the entries.
unfoldable pub count_down : ℕ → List ℕ → List Trip → List Trip
count_down id token_ids [] = []
count_down id token_ids (t ∷ trips) =
    (if t.op_id == id then count_entry id token_ids t else t) ∷ count_down id token_ids trips

-- `allAsyncTokensFulfilled`.
unfoldable pub all_fulfilled : ℕ → List Trip → Bool
all_fulfilled id [] = true
all_fulfilled id (t ∷ trips) = (not (t.op_id == id) || t.left == 0) && all_fulfilled id trips

module _ (graphs : ℕ → Graph) (depth nesting : ℕ) (time g : ℕ) where
  abbrev pub push_processed : World → ℕ → World
  push_processed w v =
      let r = w.runner g in set_runner w g (with_processed r (r.processed_vertices ++ (v ∷ [])))

  -- `getReadyTokensAtScfYield`, from token i on.
  unfoldable pub ready_tokens_at_scf_yield : World → ℕ → List ℕ → List ℕ
  unfolding check_each_dependence_fulfillment
  ready_tokens_at_scf_yield w i [] = []
  ready_tokens_at_scf_yield w i (operand ∷ operands) =
      let n = w.node g ((graphs g).def_vertex operand) in
      let rest = ready_tokens_at_scf_yield w (i + 1) operands in
      if check_each_dependence_fulfillment (n, Token.ssa) n time then i ∷ rest else rest

  -- The call of `resetGraphBetweenTwoVertices` with the graph and the runner of `c`.
  abbrev pub after_reset : World → Option Resetting → Option World
  after_reset w none = none
  after_reset w (some s) = some (record { node = write (w.node) g (s.0); runner = s.1 })

  abbrev pub reset_graph_between : ℕ → ℕ → World → Option World
  reset_graph_between start_v end_v w =
      after_reset w
        (reset_between graphs depth time (w.node) nesting g start_v end_v (w.node g, w.runner))

  -- The loop over the operands of one vertex behind the loop's.
  unfoldable pub iterate_operands : ℕ → ℕ → ℕ → List ℕ → World → Option World
  unfolding reset_between
  iterate_operands it token adj_v [] w = some w
  iterate_operands it token adj_v (d ∷ ds) w =
      if d == token
      then elim (reset_graph_between adj_v it w) [
        | none ↦ none
        | some w' ↦
            iterate_operands it token adj_v ds
              (set_node w' g adj_v (release_token (w'.node g adj_v)))
      ]
      else iterate_operands it token adj_v ds w

  unfoldable pub iterate_adjacent : ℕ → ℕ → List ℕ → World → Option World
  unfolding iterate_operands
  iterate_adjacent it token [] w = some w
  iterate_adjacent it token (adj_v ∷ vs) w =
      elim (iterate_operands it token adj_v ((graphs g).operands adj_v) w) [
        | none ↦ none
        | some w' ↦ iterate_adjacent it token vs w'
      ]

  -- The loop over the ready tokens.
  unfoldable pub iterate_tokens : ℕ → ℕ → ForLoop → List ℕ → World → Option World
  unfolding iterate_adjacent
  iterate_tokens it for_v loop [] w = some w
  iterate_tokens it for_v loop (token_id ∷ token_ids) w =
      elim (iterate_adjacent it (get_or (loop.region_iter_args) token_id 0)
        ((graphs g).adjacent for_v) w) [
          | none ↦ none
          | some w' ↦ iterate_tokens it for_v loop token_ids w'
        ]

  -- `executeOp` of an `scf.yield` in an `scf.for`.
  unfoldable pub execute_yield : ℕ → ForLoop → List ℕ → World → ℕ → Option World
  unfolding ready_tokens_at_scf_yield count_down all_fulfilled iterate_tokens
  execute_yield for_v loop operands w it =
      let token_ids = ready_tokens_at_scf_yield w 0 operands in
      let trips = count_down (loop.id) token_ids (w.runner g).loop_trip_count in
      let w' = set_runner w g (with_trips (w.runner g) trips) in
      if all_fulfilled (loop.id) trips
      then some (push_processed w' it)
      else iterate_tokens it for_v loop token_ids w'

  abbrev pub release_tokens : List ℕ → World → World
  release_tokens [] w = w
  release_tokens (adj_v ∷ vs) w =
      release_tokens vs (set_node w g adj_v (release_token (w.node g adj_v)))

  -- `executeOp` of an `scf.for`.
  unfoldable pub execute_for : ForLoop → World → ℕ → World
  unfolding trip_count
  execute_for loop w it =
      let r = w.runner g in
      let trips =
        r.loop_trip_count ++ loop_entries (loop.id) 0 (loop.region_iter_args) (trip_count loop) in
      push_processed (release_tokens ((graphs g).adjacent it) (set_runner w g (with_trips r trips)))
        it

  -- `executeOp` of a hierarchy, which starts the runner of its graph.
  abbrev pub started : World → ℕ → ℕ → World
  started w sub start_v =
      let w' = set_node w sub start_v (run_from time time (w.node sub start_v)) in
      let r = w.runner sub in
      set_runner w' sub (record {
        wavefront = r.wavefront ++ ((start_v, 1) ∷ []);
        processed_vertices = [];
        loop_trip_count = [];
      })

  abbrev pub start_runner : ℕ → World → ℕ → Option Resetting → Option World
  start_runner sub w it none = none
  start_runner sub w it (some t) =
      let w' : World = record { node = write (w.node) sub (t.0); runner = t.1 } in
      some (push_processed (started w' sub (graphs sub).start_vertex) it)

  unfoldable pub execute_hierarchy : ℕ → World → ℕ → Option World
  unfolding reset_between
  execute_hierarchy sub w it = start_runner sub w it (
      reset_between graphs depth time (w.node) nesting sub (graphs sub).start_vertex
        (graphs sub).terminator_vertex (w.node sub, w.runner))

  -- `executeOp` of a channel put and of a channel get.
  abbrev pub execute_put : World → ℕ → World
  execute_put w it = push_processed (set_node w g it (release_token (w.node g it))) it

  abbrev pub execute_get : ℕ → ℕ → World → ℕ → World
  execute_get put_g put_v w it =
      push_processed (set_node w put_g put_v (consume_token (w.node put_g put_v))) it

  unfoldable pub execute_op : World → ℕ → Op → Option World
  unfolding execute_hierarchy execute_for execute_yield
  execute_op w it (Op.hierarchy sub) = execute_hierarchy sub w it
  execute_op w it (Op.for_loop loop) = some (execute_for loop w it)
  execute_op w it (Op.loop_yield for_v loop operands) = execute_yield for_v loop operands w it
  execute_op w it Op.channel_put = some (execute_put w it)
  execute_op w it (Op.channel_get put_g put_v) = some (execute_get put_g put_v w it)
  execute_op w it op = some (push_processed w it)

  unfoldable pub execute_op_impls : World → ℕ → Option World
  unfolding execute_op
  execute_op_impls w it = execute_op w it ((graphs g).op it)

  -- The loop of `executeLoopIteration`, which stops at the first `scf.for`.
  abbrev pub is_for_loop : Op → Bool
  is_for_loop (Op.for_loop loop) = true
  is_for_loop op = false

  abbrev pub behind_loop : List ℕ → Bool
  behind_loop [] = false
  behind_loop (u ∷ us) = is_for_loop ((graphs g).op u) || behind_loop us

  unfoldable pub execute_loop_iteration : World → ℕ → World
  execute_loop_iteration w it =
      if behind_loop ((graphs g).inv_adjacent it)
      then set_node w g it (consume_token (w.node g it))
      else w
