-- ===== src/Runner/Next.antt =====
-- Which vertices `processGraph` of mlir/lib/Util/Runner.cpp starts.
use mlir_air_mirror.Prelude.{
  ℕ, ◌+◌, ◌^◌, ◌%◌, ◌≡◌, ◌∙◌, refl, ap, arith, Bool, true, false, ◌&&◌, ◌||◌, not, if◌then◌else◌,
  ◌==◌, List, [], ◌∷◌, ◌++◌, map, elem, elem-append, distinct,
}
use mlir_air_mirror.Runner.Vertices.{threads, get_vector_of_first_from_vector_of_pairs}
use mlir_air_mirror.Runner.State.{Node, is_started, is_done, run_from, Op, Graph, World}
use mlir_air_mirror.Runner.Depend.{
  check_each_dependence_fulfillment, check_blocking, check_non_blocking,
  check_all_dependencies_fulfillment, dependence_on, dependence, channel_dependence,
  build_vertex_dependency_list, is_blocking, dep_fulfilled,
}
use mlir_air_mirror.Runner.Process.{next_vertex_set_candidates, select_fulfilled, start_next}
use mlir_air_mirror.Runner.Candidates.{is_next, next_vertex_set_candidates_lem}
use mlir_air_mirror.Runner.Start.{start_vertices-Started, elem-select_fulfilled}

abbrev pub finished : Node → ℕ → Bool
finished n time = is_started n && is_done n time

abbrev pub has_token : Node → Bool
has_token n = not (n.token_count == 0)

module _ (graphs : ℕ → Graph) (w : World) (g time : ℕ) where
  -- What the vertex with node `n` waits for at its predecessor `u`: a hierarchy's terminator, a
  -- loop and a token of it, or else the predecessor's end.
  abbrev pub after_op : Node → ℕ → Op → Bool
  after_op n u (Op.hierarchy sub) = finished (w.node sub (graphs sub).terminator_vertex) time
  after_op n u (Op.for_loop loop) = finished (w.node g u) time && has_token n
  after_op n u op = finished (w.node g u) time

  abbrev pub after : Node → ℕ → Bool
  after n u = after_op n u ((graphs g).op u)

  abbrev pub after_all : Node → List ℕ → Bool
  after_all n [] = true
  after_all n (u ∷ us) = after n u && after_all n us

  abbrev pub after_any : Node → List ℕ → Bool
  after_any n [] = false
  after_any n (u ∷ us) = after n u || after_any n us

  -- A get also waits for a token of its put, and a yield for one predecessor only.
  abbrev pub may_start_op : Node → List ℕ → Op → Bool
  may_start_op n us (Op.channel_get put_g put_v) = has_token (w.node put_g put_v) && after_all n us
  may_start_op n us (Op.loop_yield for_v loop operands) = after_any n us
  may_start_op n us Op.other_yield = after_any n us
  may_start_op n us Op.start = after_all n us
  may_start_op n us (Op.hierarchy sub) = after_all n us
  may_start_op n us (Op.for_loop loop) = after_all n us
  may_start_op n us Op.channel_put = after_all n us
  may_start_op n us Op.other = after_all n us

  abbrev pub may_start : ℕ → Bool
  may_start v = may_start_op (w.node g v) ((graphs g).inv_adjacent v) ((graphs g).op v)

  -- The vertices that wait behind a processed one, and whose operations may start.
  abbrev pub starts : ℕ → Bool
  starts v =
      let r = w.runner g in
      ((is_next (graphs g).adjacent v r.processed_vertices && not (elem v r.processed_vertices))
        && not (elem v (get_vector_of_first_from_vector_of_pairs (r.wavefront))))
      && may_start v

  check-after_op :
      (n : Node) (u : ℕ) (op : Op)
      → check_each_dependence_fulfillment (dependence_on graphs w g u op) n time ≡ after_op n u op
  unfolding check_each_dependence_fulfillment
  check-after_op n u Op.start = refl
  check-after_op n u (Op.hierarchy sub) = refl
  check-after_op n u (Op.for_loop loop) = refl
  check-after_op n u (Op.loop_yield for_v loop operands) = refl
  check-after_op n u Op.other_yield = refl
  check-after_op n u Op.channel_put = refl
  check-after_op n u (Op.channel_get put_g put_v) = refl
  check-after_op n u Op.other = refl

  check-after :
      (n : Node) (u : ℕ)
      → check_each_dependence_fulfillment (dependence graphs w g u) n time ≡ after n u
  check-after n u = check-after_op n u ((graphs g).op u)

  check_blocking-after_all :
      (n : Node) (us : List ℕ) (b : Bool)
      → check_blocking b (map (dependence graphs w g) us) n time ≡ (b && after_all n us)
  unfolding check_blocking
  check_blocking-after_all n [] b = ground arith
  check_blocking-after_all n (u ∷ us) b =
      check_blocking-after_all n us
        (b && check_each_dependence_fulfillment (dependence graphs w g u) n time)
      ∙ rw (check-after n u) (ground arith)

  check_non_blocking-after_any :
      (n : Node) (us : List ℕ) (b : Bool)
      → check_non_blocking b (map (dependence graphs w g) us) n time ≡ (b || after_any n us)
  unfolding check_non_blocking
  check_non_blocking-after_any n [] b = ground arith
  check_non_blocking-after_any n (u ∷ us) b =
      check_non_blocking-after_any n us
        (b || check_each_dependence_fulfillment (dependence graphs w g u) n time)
      ∙ rw (check-after n u) (ground arith)

  fulfilled-may_start :
      (n : Node) (us : List ℕ) (op : Op)
      → check_all_dependencies_fulfillment
          (channel_dependence graphs w g op ++ map (dependence graphs w g) us)
          n
          time
          (is_blocking graphs w g op)
        ≡ may_start_op n us op
  unfolding check_all_dependencies_fulfillment check_blocking check_each_dependence_fulfillment
  fulfilled-may_start n us Op.start = check_blocking-after_all n us true
  fulfilled-may_start n us (Op.hierarchy sub) = check_blocking-after_all n us true
  fulfilled-may_start n us (Op.for_loop loop) = check_blocking-after_all n us true
  fulfilled-may_start n us (Op.loop_yield for_v loop operands) =
      check_non_blocking-after_any n us false
  fulfilled-may_start n us Op.other_yield = check_non_blocking-after_any n us false
  fulfilled-may_start n us Op.channel_put = check_blocking-after_all n us true
  fulfilled-may_start n us (Op.channel_get put_g put_v) =
      check_blocking-after_all n us (has_token (w.node put_g put_v))
  fulfilled-may_start n us Op.other = check_blocking-after_all n us true

  dep_fulfilled-may_start : (v : ℕ) → dep_fulfilled graphs w g time v ≡ may_start v
  unfolding dep_fulfilled build_vertex_dependency_list
  dep_fulfilled-may_start v =
      fulfilled-may_start (w.node g v) ((graphs g).inv_adjacent v) ((graphs g).op v)

-- What starting the vertices comes to: `w` before, `w'` after.
pub record NextStarted (graphs : ℕ → Graph) (time g : ℕ) (latency : ℕ → ℕ) (w w' : World)
    : Type 0 where
  pub times :
      (v : ℕ)
      → w'.node g v ≡ (
          if starts graphs w g time v
          then run_from time ((time + latency v) % 2 ^ 64) (w.node g v)
          else w.node g v)
  pub on_wavefront :
      (v : ℕ)
      → elem v (get_vector_of_first_from_vector_of_pairs (w'.runner g).wavefront) ≡ (
          elem v (get_vector_of_first_from_vector_of_pairs (w.runner g).wavefront)
          || starts graphs w g time v)
  pub one_each :
      distinct (threads (w.runner g).wavefront) ≡ true
      → distinct (threads (w'.runner g).wavefront) ≡ true
  pub processed : (w'.runner g).processed_vertices ≡ (w.runner g).processed_vertices
  pub trips : (w'.runner g).loop_trip_count ≡ (w.runner g).loop_trip_count
  pub other_nodes : (h v : ℕ) → (h == g) ≡ false → w'.node h v ≡ w.node h v
  pub other_runners : (h : ℕ) → (h == g) ≡ false → w'.runner h ≡ w.runner h

-- The second half of `processGraph` starts exactly the vertices that are behind a processed vertex,
-- neither processed nor on the wavefront, and whose operation may start: its predecessors have ended,
-- at the terminator for a hierarchy, with a token for a loop, and one of them suffices for a yield; a
-- channel get also wants a token of its put. These run from now for their latency and are on the
-- wavefront, each on its own thread if that was so before; no other node, runner or field changes.
pub start_next-NextStarted :
    (graphs : ℕ → Graph) (depth nesting time g : ℕ) (latency : ℕ → ℕ) (w : World)
    → NextStarted graphs time g latency w (start_next graphs depth nesting time g latency w)
unfolding start_next
start_next-NextStarted graphs depth nesting time g latency w =
    let vs =
      select_fulfilled graphs depth nesting time g w
        (next_vertex_set_candidates graphs depth nesting time g w) in
    let s = start_vertices-Started graphs depth nesting time g latency vs w in
    record {
      times = λ v.
          s.times v
          ∙ ap
              (λ (b : Bool).
                if b then run_from time ((time + latency v) % 2 ^ 64) (w.node g v) else w.node g v)
              (chosen v);
      on_wavefront = λ v.
          ap (elem v) s.waves
          ∙ elem-append v (get_vector_of_first_from_vector_of_pairs (w.runner g).wavefront) vs
          ∙ ap
              (λ (b : Bool).
                elem v (get_vector_of_first_from_vector_of_pairs (w.runner g).wavefront) || b)
              (chosen v);
      one_each = s.one_each;
      processed = s.processed;
      trips = s.trips;
      other_nodes = s.other_nodes;
      other_runners = s.other_runners;
    }
  where
    chosen :
        (v : ℕ)
        → elem v (
            select_fulfilled graphs depth nesting time g w
              (next_vertex_set_candidates graphs depth nesting time g w))
          ≡ starts graphs w g time v
    chosen v =
        elem-select_fulfilled graphs depth nesting time g w v
          (next_vertex_set_candidates graphs depth nesting time g w)
        ∙ rw
            (
              (next_vertex_set_candidates_lem graphs depth nesting time g w).0 v,
              dep_fulfilled-may_start graphs w g time v,
            )
            refl
