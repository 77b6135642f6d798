-- ===== src/Runner/Process/Threads.antt =====
-- `processGraph` of mlir/lib/Util/Runner.cpp returns, and the threads on the wavefront stay distinct.
use mathlib.Core.Path.{subst}
use mlir_air_mirror.Prelude.{
  ℕ, ◌≡◌, refl, sym, ap, arith, true, ◌&&◌, Bool-cases, inl, inr, ◌==◌, some, List, [], ◌∷◌, elem,
  distinct,
}
use mlir_air_mirror.Runner.Vertices.{Entry, threads}
use mlir_air_mirror.Runner.State.{
  is_started, is_done, Graph, Runner, World, set_runner, with_wavefront, write_self,
}
use mlir_air_mirror.Runner.Graphs.{Graded}
use mlir_air_mirror.Runner.Execute.{execute_loop_iteration}
use mlir_air_mirror.Runner.Execute.Returns.{execute_op_impls-Returns}
use mlir_air_mirror.Runner.Process.{
  Finished, finish_entries, start_next, after_finish, process_graph,
}
use mlir_air_mirror.Runner.Next.{start_next-NextStarted}

-- The threads of `left` are some of those of `entries`, and distinct if these are.
record Left (entries left : List Entry) : Type 0 where
  among : (t : ℕ) → elem t (threads left) ≡ true → elem t (threads entries) ≡ true
  one_each : distinct (threads entries) ≡ true → distinct (threads left) ≡ true

Left-drop : {entries left : List Entry} (e : Entry) → Left entries left → Left (e ∷ entries) left
Left-drop e l = record {
  among = λ t h. let k = l.among t h in ground arith;
  one_each = λ h. l.one_each (ground arith);
}

Left-keep :
    {entries left : List Entry} (e : Entry) → Left entries left → Left (e ∷ entries) (e ∷ left)
Left-keep {entries} {left} (v, tid) l = record {
  among = λ t h. elim (Bool-cases (t == tid)) [
    | inl e ↦ ground arith
    | inr e ↦ let k = l.among t (ground arith) in ground arith
  ];
  one_each = λ h.
      let d = l.one_each (ground arith) in
      elim (Bool-cases (elem tid (threads left))) [
        | inl e ↦ let k = l.among tid e in absurd (ground arith)
        | inr e ↦ ground arith
      ];
}

module _ (graphs : ℕ → Graph) (depth nesting : ℕ) (graded : Graded graphs depth nesting)
    (time g : ℕ) where
  finish_entries-Left :
      (entries : List Entry) (w : World)
      → (r : Finished) × (finish_entries graphs depth nesting time g entries w ≡ some r)
        × Left entries (r.1)
  unfolding finish_entries
  finish_entries-Left [] w = ((w, []), refl, record { among = λ t h. h; one_each = λ h. h })
  finish_entries-Left (e ∷ entries) w =
      elim (Bool-cases (is_started (w.node g e.0) && is_done (w.node g e.0) time)) [
        | inl h ↦
            let one = execute_op_impls-Returns graphs depth nesting graded time g w e.0 in
            let rest =
              finish_entries-Left entries
                (execute_loop_iteration graphs depth nesting time g one.0 e.0) in
            (rest.0, rw (h, one.1) (rest.1), Left-drop e (rest.2))
        | inr h ↦
            let rest = finish_entries-Left entries w in
            ((rest.0.0, e ∷ rest.0.1), rw (h, rest.1) refl, Left-keep e (rest.2))
      ]

  -- On graphs without cycles whose hierarchies nest, `processGraph` returns, and vertices that were on
  -- distinct threads before leave and enter such that those on the wavefront are on distinct threads.
  pub process_graph-distinct :
      (latency : ℕ → ℕ) (w : World)
      → (w' : World) × (process_graph graphs depth nesting time g latency w ≡ some w')
        × (distinct (threads (w.runner g).wavefront) ≡ true
            → distinct (threads (w'.runner g).wavefront) ≡ true)
  unfolding process_graph
  process_graph-distinct latency w =
      let done = finish_entries-Left (w.runner g).wavefront w in
      let w1 = done.0.0 in
      let w2 = set_runner w1 g (with_wavefront (w1.runner g) (done.0.1)) in
      let next = start_next-NextStarted graphs depth nesting time g latency w2 in
      (
        start_next graphs depth nesting time g latency w2,
        ap (after_finish graphs depth nesting time g latency) (done.1),
        λ h. next.one_each (
            subst (λ (r : Runner). distinct (threads (r.wavefront)) ≡ true)
              (sym (write_self (w1.runner) g _)) (done.2.one_each h)),
      )
