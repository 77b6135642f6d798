-- ===== src/Runner/Execute/Returns.antt =====
-- On graphs without cycles whose hierarchies nest, the operations of mlir/lib/Util/Runner.cpp return.
use mathlib.Core.Path.{subst}
use mlir_air_mirror.Prelude.{
  sym, ℕ, ◌≡◌, refl, Bool-cases, inl, inr, ◌==◌, Option, some, List, [], ◌∷◌, get_or,
}
use mlir_air_mirror.Runner.State.{
  release_token, ForLoop, Op, Graph, World, set_node, set_runner, with_trips,
}
use mlir_air_mirror.Runner.Graphs.{Graded}
use mlir_air_mirror.Runner.Reset.Effect.{reset_between-ResetDone}
use mlir_air_mirror.Runner.Execute.{
  count_down, all_fulfilled, ready_tokens_at_scf_yield, reset_graph_between, iterate_operands,
  iterate_adjacent, iterate_tokens, execute_yield, execute_hierarchy, execute_op, execute_op_impls,
  after_reset, start_runner, push_processed,
}

-- The call has a result.
abbrev pub Returns : {A : Type 0} → Option A → Type 0
Returns {A} o = (a : A) × (o ≡ some a)

module _ (graphs : ℕ → Graph) (depth nesting : ℕ) (graded : Graded graphs depth nesting)
    (time g : ℕ) where
  pub reset_graph_between-Returns :
      (start_v end_v : ℕ) (w : World)
      → Returns (reset_graph_between graphs depth nesting time g start_v end_v w)
  reset_graph_between-Returns start_v end_v w =
      let r =
        reset_between-ResetDone graphs depth nesting time graded (w.node) nesting g start_v end_v
          (w.node g, w.runner) (graded.height_lt g) in
      subst (λ o. Returns (after_reset graphs depth nesting time g w o)) (sym r.1) (_, refl)

  iterate_operands-Returns :
      (it token adj_v : ℕ) (ds : List ℕ) (w : World)
      → Returns (iterate_operands graphs depth nesting time g it token adj_v ds w)
  unfolding iterate_operands
  iterate_operands-Returns it token adj_v [] w = (w, refl)
  iterate_operands-Returns it token adj_v (d ∷ ds) w = elim (Bool-cases (d == token)) [
    | inl e ↦
        let one = reset_graph_between-Returns adj_v it w in
        let rest =
          iterate_operands-Returns it token adj_v ds
            (set_node one.0 g adj_v (release_token (one.0.node g adj_v))) in
        (rest.0, rw (iterate_operands, e, one.1) (rest.1))
    | inr e ↦
        let rest = iterate_operands-Returns it token adj_v ds w in
        (rest.0, rw (iterate_operands, e) (rest.1))
  ]

  iterate_adjacent-Returns :
      (it token : ℕ) (vs : List ℕ) (w : World)
      → Returns (iterate_adjacent graphs depth nesting time g it token vs w)
  unfolding iterate_adjacent
  iterate_adjacent-Returns it token [] w = (w, refl)
  iterate_adjacent-Returns it token (adj_v ∷ vs) w =
      let one = iterate_operands-Returns it token adj_v ((graphs g).operands adj_v) w in
      let rest = iterate_adjacent-Returns it token vs one.0 in
      (rest.0, rw (iterate_adjacent, one.1) (rest.1))

  iterate_tokens-Returns :
      (it for_v : ℕ) (loop : ForLoop) (tokens : List ℕ) (w : World)
      → Returns (iterate_tokens graphs depth nesting time g it for_v loop tokens w)
  unfolding iterate_tokens
  iterate_tokens-Returns it for_v loop [] w = (w, refl)
  iterate_tokens-Returns it for_v loop (t ∷ ts) w =
      let one =
        iterate_adjacent-Returns it (get_or (loop.region_iter_args) t 0) ((graphs g).adjacent for_v)
          w in
      let rest = iterate_tokens-Returns it for_v loop ts one.0 in
      (rest.0, rw (iterate_tokens, one.1) (rest.1))

  execute_yield-Returns :
      (for_v : ℕ) (loop : ForLoop) (operands : List ℕ) (w : World) (it : ℕ)
      → Returns (execute_yield graphs depth nesting time g for_v loop operands w it)
  unfolding execute_yield
  execute_yield-Returns for_v loop operands w it =
      let ids = ready_tokens_at_scf_yield graphs depth nesting time g w 0 operands in
      let trips = count_down (loop.id) ids (w.runner g).loop_trip_count in
      elim (Bool-cases (all_fulfilled (loop.id) trips)) [
        | inl e ↦ (
          push_processed graphs depth nesting time g
              (set_runner w g (with_trips (w.runner g) trips)) it,
          rw (e) refl,
        )
        | inr e ↦
            let rest =
              iterate_tokens-Returns it for_v loop ids
                (set_runner w g (with_trips (w.runner g) trips)) in
            (rest.0, rw (e) (rest.1))
      ]

  execute_hierarchy-Returns :
      (sub : ℕ) (w : World) (it : ℕ)
      → Returns (execute_hierarchy graphs depth nesting time g sub w it)
  unfolding execute_hierarchy
  execute_hierarchy-Returns sub w it =
      let r =
        reset_between-ResetDone graphs depth nesting time graded (w.node) nesting sub
          (graphs sub).start_vertex (graphs sub).terminator_vertex (w.node sub, w.runner)
          (graded.height_lt sub) in
      subst (λ o. Returns (start_runner graphs depth nesting time g sub w it o)) (sym r.1) (_, refl)

  execute_op-Returns :
      (w : World) (it : ℕ) (op : Op) → Returns (execute_op graphs depth nesting time g w it op)
  unfolding execute_op
  execute_op-Returns w it (Op.hierarchy sub) = execute_hierarchy-Returns sub w it
  execute_op-Returns w it (Op.for_loop loop) = (_, refl)
  execute_op-Returns w it (Op.loop_yield for_v loop operands) =
      execute_yield-Returns for_v loop operands w it
  execute_op-Returns w it Op.channel_put = (_, refl)
  execute_op-Returns w it (Op.channel_get put_g put_v) = (_, refl)
  execute_op-Returns w it Op.start = (_, refl)
  execute_op-Returns w it Op.other_yield = (_, refl)
  execute_op-Returns w it Op.other = (_, refl)

  pub execute_op_impls-Returns :
      (w : World) (it : ℕ) → Returns (execute_op_impls graphs depth nesting time g w it)
  unfolding execute_op_impls
  execute_op_impls-Returns w it = execute_op-Returns w it ((graphs g).op it)
