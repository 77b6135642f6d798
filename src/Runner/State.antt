-- ===== src/Runner/State.antt =====
-- The state of mlir/lib/Util/Runner.cpp: the nodes of the graphs, which change while it runs
-- (`dependencyNodeEntry` of mlir/include/air/Util/Dependency.h), and a runner for each graph.
-- A graph is named by a number, which also names its runner.
use mlir_air_mirror.Prelude.{
  ℕ, ◌+◌, ◌-◌, ◌^◌, ◌%◌, ◌≡◌, ◌∙◌, refl, sym, ap, arith, inl, inr, Bool-cases, ==_iff, Bool, true,
  false, ◌&&◌, not, ◌==◌, leb, if◌then◌else◌, List,
}
use mlir_air_mirror.Runner.Vertices.{Entry}

pub record Node : Type 0 where
  pub start_time : ℕ
  pub end_time : ℕ
  pub token_count : ℕ

abbrev pub is_started : Node → Bool
is_started n = not (n.start_time == 0) && not (n.end_time == 0)

abbrev pub is_done : Node → ℕ → Bool
is_done n t = leb (n.end_time) t

-- `token_count++` and `token_count--` on a uint64_t.
unfoldable pub release_token : Node → Node
release_token n = record {
  start_time = n.start_time;
  end_time = n.end_time;
  token_count = (n.token_count + 1) % 2 ^ 64;
}

unfoldable pub consume_token : Node → Node
consume_token n = record {
  start_time = n.start_time;
  end_time = n.end_time;
  token_count = (n.token_count + (2 ^ 64 - 1)) % 2 ^ 64;
}

abbrev pub run_from : ℕ → ℕ → Node → Node
run_from from until n = record { start_time = from; end_time = until; token_count = n.token_count }

-- What the code reads of an `scf.for`: its id, its bounds and step, and its tokens as SSA values.
pub record ForLoop : Type 0 where
  pub id : ℕ
  pub lower : ℕ
  pub upper : ℕ
  pub step : ℕ
  pub region_iter_args : List ℕ

-- What the code reads of a vertex's operation. A yield of an `scf.for` names the loop's vertex, a
-- channel get the graph and the vertex of its put.
pub data Op : Type 0 where
  start : Op
  hierarchy : (sub : ℕ) → Op
  for_loop : (loop : ForLoop) → Op
  loop_yield : (for_v : ℕ) (loop : ForLoop) (operands : List ℕ) → Op
  other_yield : Op
  channel_put : Op
  channel_get : (put_g put_v : ℕ) → Op
  other : Op

-- What does not change of a graph. `operands v` are the SSA values of vertex v's operation and
-- `def_vertex x` is the vertex of the operation that defines the value x.
pub record Graph : Type 0 where
  pub op : ℕ → Op
  pub adjacent : ℕ → List ℕ
  pub inv_adjacent : ℕ → List ℕ
  pub operands : ℕ → List ℕ
  pub def_vertex : ℕ → ℕ
  pub start_vertex : ℕ
  pub terminator_vertex : ℕ

-- An entry of `loop_trip_count`.
pub record Trip : Type 0 where
  pub op_id : ℕ
  pub token : ℕ
  pub left : ℕ

pub record Runner : Type 0 where
  pub wavefront : List Entry
  pub processed_vertices : List ℕ
  pub loop_trip_count : List Trip

pub record World : Type 0 where
  pub node : ℕ → ℕ → Node
  pub runner : ℕ → Runner

abbrev pub write : {A : Type 0} → (ℕ → A) → ℕ → A → ℕ → A
write f k a j = if j == k then a else f j

pub write_self : {A : Type 0} (f : ℕ → A) (k : ℕ) (a : A) → write f k a k ≡ a
write_self f k a = let same : (k == k) ≡ true = ground arith in rw (same) refl

pub write_ne :
    {A : Type 0} (f : ℕ → A) (k : ℕ) {j : ℕ} (a : A) → (j == k) ≡ false → write f k a j ≡ f j
write_ne f k a h = rw (h) refl

-- A write that keeps what `p` shows of the place written keeps what `p` shows anywhere.
pub write_keep :
    {A B : Type 0} (p : A → B) (f : ℕ → A) (k : ℕ) (a : A) (j : ℕ)
    → p a ≡ p (f k)
    → p (write f k a j) ≡ p (f j)
write_keep p f k a j h = elim (Bool-cases (j == k)) [
  | inl e ↦
      ap (λ x. p (write f k a x)) ((==_iff j k).0 e)
      ∙ ap p (write_self f k a)
      ∙ h
      ∙ ap (λ x. p (f x)) (sym ((==_iff j k).0 e))
  | inr e ↦ ap p (write_ne f k a e)
]

abbrev pub set_node : World → ℕ → ℕ → Node → World
set_node w g v n = record { node = write (w.node) g (write (w.node g) v n); runner = w.runner }

abbrev pub set_nodes : World → ℕ → (ℕ → Node) → World
set_nodes w g nodes = record { node = write (w.node) g nodes; runner = w.runner }

abbrev pub set_runner : World → ℕ → Runner → World
set_runner w g r = record { node = w.node; runner = write (w.runner) g r }

abbrev pub with_wavefront : Runner → List Entry → Runner
with_wavefront r wavefront = record {
  wavefront = wavefront;
  processed_vertices = r.processed_vertices;
  loop_trip_count = r.loop_trip_count;
}

abbrev pub with_processed : Runner → List ℕ → Runner
with_processed r vertices = record {
  wavefront = r.wavefront;
  processed_vertices = vertices;
  loop_trip_count = r.loop_trip_count;
}

abbrev pub with_trips : Runner → List Trip → Runner
with_trips r trips = record {
  wavefront = r.wavefront;
  processed_vertices = r.processed_vertices;
  loop_trip_count = trips;
}
