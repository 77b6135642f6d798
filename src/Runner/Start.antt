-- ===== src/Runner/Start.antt =====
-- The second half of `processGraph` in mlir/lib/Util/Runner.cpp, which starts vertices.
use mathlib.Core.Path.{subst}
use mathlib.Core.List.{map-append, append_assoc, append-nil}
use mlir_air_mirror.Prelude.{
  ℕ, ◌+◌, ◌^◌, ◌%◌, ◌≤◌, ◌≡◌, ◌∙◌, sym, refl, ap, arith, true, false, ◌&&◌, Bool-cases, inl, inr,
  if◌then◌else◌, ◌==◌, ==_iff, List, [], ◌∷◌, ◌++◌, map, length, length-map, elem, distinct,
  distinct-append_one, first_free, first_free-lacks,
}
use mlir_air_mirror.Runner.Vertices.{
  Entry, threads, get_vector_of_first_from_vector_of_pairs, push_to_wavefront,
}
use mlir_air_mirror.Runner.State.{
  write_self, write_ne, Node, run_from, Graph, Runner, World, write, with_wavefront,
}
use mlir_air_mirror.Runner.Depend.{dep_fulfilled}
use mlir_air_mirror.Runner.Process.{select_fulfilled, start_vertex, start_vertices}

-- A vertex enters on a thread that no other vertex is on.
distinct-push_to_wavefront :
    (wavefront : List Entry) (v : ℕ)
    → distinct (threads wavefront) ≡ true
    → distinct (threads (push_to_wavefront wavefront v)) ≡ true
unfolding push_to_wavefront
distinct-push_to_wavefront wavefront v h =
    let tid = first_free (length wavefront) 1 (threads wavefront) in
    let lacks : elem tid (threads wavefront) ≡ false =
      first_free-lacks (length wavefront) 1 (threads wavefront) (
        subst (λ k. k ≤ length wavefront) (sym (length-map wavefront (λ (p : Entry). p.1)))
          (omega arith)) in
    rw (map-append (λ (p : Entry). p.1) wavefront ((v, tid) ∷ []))
      (distinct-append_one (threads wavefront) tid h lacks)

pub elem-select_fulfilled :
    (graphs : ℕ → Graph) (depth nesting time g : ℕ) (w : World) (v : ℕ) (vs : List ℕ)
    → elem v (select_fulfilled graphs depth nesting time g w vs)
      ≡ (elem v vs && dep_fulfilled graphs w g time v)
unfolding select_fulfilled
elem-select_fulfilled graphs depth nesting time g w v [] = refl
elem-select_fulfilled graphs depth nesting time g w v (u ∷ us) =
    let rest = elem-select_fulfilled graphs depth nesting time g w v us in
    elim (Bool-cases (v == u)) [
      | inl q ↦
          let same : dep_fulfilled graphs w g time v ≡ dep_fulfilled graphs w g time u =
            ap (dep_fulfilled graphs w g time) ((==_iff v u).0 q) in
          elim (Bool-cases (dep_fulfilled graphs w g time u)) [
            | inl e ↦ rw (e) (ground (arith, rest))
            | inr e ↦ rw (e) (ground (arith, rest))
          ]
      | inr q ↦ elim (Bool-cases (dep_fulfilled graphs w g time u)) [
        | inl e ↦ rw (e) (ground (arith, rest))
        | inr e ↦ rw (e) (ground (arith, rest))
      ]
    ]

-- The vertices `vs` have been started in graph g: `w` before, `w'` after.
pub record Started (time g : ℕ) (latency : ℕ → ℕ) (vs : List ℕ) (w w' : World) : Type 0 where
  pub times :
      (v : ℕ)
      → w'.node g v ≡ (
          if elem v vs
          then run_from time ((time + latency v) % 2 ^ 64) (w.node g v)
          else w.node g v)
  pub other_nodes : (h v : ℕ) → (h == g) ≡ false → w'.node h v ≡ w.node h v
  pub waves :
      get_vector_of_first_from_vector_of_pairs (w'.runner g).wavefront
      ≡ get_vector_of_first_from_vector_of_pairs (w.runner g).wavefront ++ vs
  pub one_each :
      distinct (threads (w.runner g).wavefront) ≡ true
      → distinct (threads (w'.runner g).wavefront) ≡ true
  pub processed : (w'.runner g).processed_vertices ≡ (w.runner g).processed_vertices
  pub trips : (w'.runner g).loop_trip_count ≡ (w.runner g).loop_trip_count
  pub other_runners : (h : ℕ) → (h == g) ≡ false → w'.runner h ≡ w.runner h

module _ (graphs : ℕ → Graph) (depth nesting : ℕ) (time g : ℕ) (latency : ℕ → ℕ) where
  start_vertex-times :
      (w : World) (u v : ℕ)
      → (start_vertex graphs depth nesting time g latency w u).node g v
        ≡ (if v == u then run_from time ((time + latency v) % 2 ^ 64) (w.node g v) else w.node g v)
  start_vertex-times w u v =
      ap (λ (f : ℕ → Node). f v) (write_self (w.node) g _) ∙ elim (Bool-cases (v == u)) [
        | inl e ↦
            subst
              (λ x.
                write (w.node g) u (run_from time ((time + latency u) % 2 ^ 64) (w.node g u)) x ≡ (
                  if x == u
                  then run_from time ((time + latency x) % 2 ^ 64) (w.node g x)
                  else w.node g x))
              (sym ((==_iff v u).0 e)) (let same : (u == u) ≡ true = ground arith in rw (same) refl)
        | inr e ↦ rw (e) refl
      ]

  start_vertex-runner :
      (w : World) (u : ℕ)
      → (start_vertex graphs depth nesting time g latency w u).runner g
        ≡ with_wavefront (w.runner g) (push_to_wavefront (w.runner g).wavefront u)
  start_vertex-runner w u = write_self (w.runner) g _

  started_again :
      (us : List ℕ) (w : World) (u v : ℕ)
      → (if elem v us
          then run_from time
              ((time + latency v) % 2 ^ 64)
              ((start_vertex graphs depth nesting time g latency w u).node g v)
          else (start_vertex graphs depth nesting time g latency w u).node g v)
        ≡ (if elem v (u ∷ us)
            then run_from time ((time + latency v) % 2 ^ 64) (w.node g v)
            else w.node g v)
  started_again us w u v =
      ap (λ (n : Node). if elem v us then run_from time ((time + latency v) % 2 ^ 64) n else n)
        (start_vertex-times w u v)
      ∙ elim (Bool-cases (v == u)) [
        | inl e ↦ elim (Bool-cases (elem v us)) [ inl h ↦ rw (e, h) refl | inr h ↦ rw (e, h) refl ]
        | inr e ↦ elim (Bool-cases (elem v us)) [ inl h ↦ rw (e, h) refl | inr h ↦ rw (e, h) refl ]
      ]

  pushed_first :
      (us : List ℕ) (wavefront : List Entry) (u : ℕ)
      → get_vector_of_first_from_vector_of_pairs (push_to_wavefront wavefront u) ++ us
        ≡ get_vector_of_first_from_vector_of_pairs wavefront ++ (u ∷ us)
  unfolding push_to_wavefront
  pushed_first us wavefront u =
      ap (λ (x : List ℕ). x ++ us)
        (map-append (λ (p : Entry). p.0) wavefront
          ((u, first_free (length wavefront) 1 (threads wavefront)) ∷ []))
      ∙ append_assoc (map (λ (p : Entry). p.0) wavefront) (u ∷ []) us

  pub start_vertices-Started :
      (vs : List ℕ) (w : World)
      → Started time g latency vs w (start_vertices graphs depth nesting time g latency vs w)
  unfolding start_vertices push_to_wavefront
  start_vertices-Started [] w = record {
    times = λ v. refl;
    other_nodes = λ h v e. refl;
    waves = sym (append-nil (get_vector_of_first_from_vector_of_pairs (w.runner g).wavefront));
    one_each = λ d. d;
    processed = refl;
    trips = refl;
    other_runners = λ h e. refl;
  }
  start_vertices-Started (u ∷ us) w =
      let w1 = start_vertex graphs depth nesting time g latency w u in
      let r = start_vertices-Started us w1 in
      let moved = start_vertex-runner w u in
      record {
        times = λ v. r.times v ∙ started_again us w u v;
        other_nodes =
            λ h v e. r.other_nodes h v e ∙ ap (λ (f : ℕ → Node). f v) (write_ne (w.node) g _ e);
        waves =
            r.waves
            ∙ ap (λ (x : Runner). get_vector_of_first_from_vector_of_pairs (x.wavefront) ++ us)
                moved
            ∙ pushed_first us (w.runner g).wavefront u;
        one_each = λ d. r.one_each (
            subst (λ (x : Runner). distinct (threads (x.wavefront)) ≡ true) (sym moved)
              (distinct-push_to_wavefront (w.runner g).wavefront u d));
        processed = r.processed ∙ ap (λ (x : Runner). x.processed_vertices) moved;
        trips = r.trips ∙ ap (λ (x : Runner). x.loop_trip_count) moved;
        other_runners = λ h e. r.other_runners h e ∙ write_ne (w.runner) g _ e;
      }
