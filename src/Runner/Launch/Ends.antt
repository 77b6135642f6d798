-- ===== src/Runner/Launch/Ends.antt =====
-- `scheduleLaunch` of mlir/lib/Util/Runner.cpp ends.
use mathlib.Core.Option.{some-injective}
use mathlib.Core.Bool.{true≢false}
use mlir_air_mirror.Prelude.{
  ℕ, zero, suc, sym, ap, ◌^◌, ◌+◌, ◌<◌, ◌≤◌, ◌≡◌, ◌∙◌, ◌⊎◌, refl, arith, Bool, true, false, ◌&&◌,
  ◌||◌, not, Bool-cases, inl, inr, if◌then◌else◌, if-true, if-false, leb, leb→le, Option, some,
  List, [], ◌∷◌,
}
use mlir_air_mirror.Runner.State.{Graph, World, set_runner, with_processed}
use mlir_air_mirror.Runner.Graphs.{Graded}
use mlir_air_mirror.Runner.Execute.Returns.{Returns, reset_graph_between-Returns}
use mlir_air_mirror.Runner.Vertices.{Entry}
use mlir_air_mirror.Runner.Process.{process_graph}
use mlir_air_mirror.Runner.Process.Threads.{process_graph-distinct}
use mlir_air_mirror.Runner.Launch.{
  max_time, is_empty, next_time, process_all, run, prepare, schedule_launch,
}
use mlir_air_mirror.Runner.Launch.Rounds.{next_time-lt, next_time_idle}

module _ (graphs : ℕ → Graph) (depth nesting : ℕ) (graded : Graded graphs depth nesting)
    (latency : ℕ → ℕ → ℕ) where
  process_all-Returns :
      (time : ℕ) (gs : List ℕ) (running : Bool) (w : World)
      → Returns (process_all graphs depth nesting latency time gs running w)
  unfolding process_all
  process_all-Returns time [] running w = ((w, running), refl)
  process_all-Returns time (g ∷ gs) running w =
      let one = process_graph-distinct graphs depth nesting graded time g (latency g) w in
      let rest =
        process_all-Returns time gs (running || not (is_empty (one.0.runner g).wavefront)) one.0 in
      (rest.0, rw (process_all, one.1) (rest.1))

  -- A round at the time t, from the world w to w', that processes the runners in turn and leaves each
  -- with no vertex on its wavefront.
  abbrev pub IdleRound : ℕ → List ℕ → World → World → Type 0
  IdleRound t [] w w' = w' ≡ w
  IdleRound t (g ∷ gs) w w' =
      (w1 : World) × (process_graph graphs depth nesting t g (latency g) w ≡ some w1)
      × ((w1.runner g).wavefront ≡ [])
      × IdleRound t gs w1 w'

  empty_lem : (es : List Entry) → is_empty es ≡ true → es ≡ []
  empty_lem [] h = refl
  empty_lem (e ∷ es) h = absurd (true≢false (sym h))

  process_all-IdleRound :
      (t : ℕ) (gs : List ℕ) (running : Bool) (w w' : World)
      → process_all graphs depth nesting latency t gs running w ≡ some (w', false)
      → (running ≡ false) × IdleRound t gs w w'
  unfolding process_all
  process_all-IdleRound t [] running w w' h =
      let p = some-injective _ _ h in
      (ap (λ (r : World × Bool). r.1) p, sym (ap (λ (r : World × Bool). r.0) p))
  process_all-IdleRound t (g ∷ gs) running w w' h =
      let one = process_graph-distinct graphs depth nesting graded t g (latency g) w in
      let step : process_all graphs depth nesting latency t (g ∷ gs) running w
          ≡ process_all graphs depth nesting latency t gs
              (running || not (is_empty (one.0.runner g).wavefront)) one.0 =
        rw (process_all, one.1) refl in
      let rest =
        process_all-IdleRound t gs (running || not (is_empty (one.0.runner g).wavefront)) one.0 w'
          (sym step ∙ h) in
      (
        ground (arith, rest.0),
        (one.0, one.1, empty_lem (one.0.runner g).wavefront (ground (arith, rest.0)), rest.1),
      )

  -- How the loop ended that began at `time`: later, and past the greatest time, or one behind a round
  -- that left each runner idle.
  pub record Ended (gs : List ℕ) (time : ℕ) (r : World × ℕ) : Type 0 where
    pub later : time < r.1
    pub why : max_time < r.1 ⊎ ((t : ℕ) × (w : World) × IdleRound t gs w r.0 × (r.1 ≡ t + 1))

  go_on : ℕ → ℕ → List ℕ → Bool → World → Option (World × ℕ)
  go_on n time gs running w =
      let time' = next_time time running w gs in
      if running && leb time' max_time
      then run graphs depth nesting latency n gs time' w
      else some (w, time')

  go_on-Ended :
      (n time : ℕ) (gs : List ℕ) (running : Bool) (w w1 : World)
      → time + 1 < 2 ^ 64
      → process_all graphs depth nesting latency time gs false w ≡ some (w1, running)
      → ((time' : ℕ)
          → time < time'
          → time' ≤ max_time
          → (r : World × ℕ) × (run graphs depth nesting latency n gs time' w1 ≡ some r)
            × Ended gs time' r)
      → (r : World × ℕ) × (go_on n time gs running w1 ≡ some r) × Ended gs time r
  unfolding go_on
  go_on-Ended n time gs true w w1 small e rest =
      let time' = next_time time true w1 gs in
      let lt = next_time-lt time true w1 gs small in
      elim (Bool-cases (leb time' max_time)) [
        | inl f ↦
            let r = rest time' lt (leb→le time' max_time f) in
            (
              r.0,
              if-true (run graphs depth nesting latency n gs time' w1) (some (w1, time')) f ∙ r.1,
              record { later = omega (arith, lt, r.2.later); why = r.2.why },
            )
        | inr f ↦ (
          (w1, time'),
          if-false (run graphs depth nesting latency n gs time' w1) (some (w1, time')) f,
          record { later = lt; why = inl (past time' f) },
        )
      ]
    where
      past : (time' : ℕ) → leb time' max_time ≡ false → max_time < time'
      past time' f = ground arith
  go_on-Ended n time gs false w w1 small e rest = (
    (w1, next_time time false w1 gs),
    refl,
    record {
      later = next_time-lt time false w1 gs small;
      why = inr (
        time,
        w,
        (process_all-IdleRound time gs false w w1 e).1,
        next_time_idle time w1 gs small,
      );
    },
  )

  run-Ended :
      (n time : ℕ) (gs : List ℕ) (w : World)
      → time + 1 < 2 ^ 64
      → 0 < n
      → max_time < n + time
      → (r : World × ℕ) × (run graphs depth nesting latency n gs time w ≡ some r) × Ended gs time r
  unfolding run go_on
  run-Ended zero time gs w small h k = absurd (omega (arith, h))
  run-Ended (suc n) time gs w small h k =
      let one = process_all-Returns time gs false w in
      let r = go_on-Ended n time gs one.0.1 w one.0.0 small (one.1) (λ time' lt le.
        run-Ended n time' gs one.0.0 (omega (arith, le)) (omega (arith, k, lt, le))
          (omega (arith, k, lt))) in
      (r.0, rw (run, one.1) (r.1), r.2)

  -- On graphs without cycles whose hierarchies nest, `scheduleLaunch` at a time below 2^64 - 1 ends
  -- within 5,000,001 rounds, at a later time. The time is past 5,000,000 then, or it is one later than
  -- the time of a last round, in which `processGraph` left the wavefront of each runner in turn empty.
  pub schedule_launch-Ended :
      (n launch : ℕ) (subs : List ℕ) (time : ℕ) (w : World)
      → time + 1 < 2 ^ 64
      → max_time < n
      → (r : World × ℕ) × (schedule_launch graphs depth nesting latency n launch subs time w
          ≡ some r)
        × Ended (launch ∷ subs) time r
  unfolding schedule_launch
  schedule_launch-Ended n launch subs time w small h =
      let one =
        reset_graph_between-Returns graphs depth nesting graded time launch
          (graphs launch).start_vertex (graphs launch).terminator_vertex
          (set_runner w launch (with_processed (w.runner launch) [])) in
      let rest =
        run-Ended n time (launch ∷ subs) (prepare graphs depth nesting latency launch one.0) small
          (omega (arith, h)) (omega (arith, h)) in
      (rest.0, rw (schedule_launch, one.1) (rest.1), rest.2)
