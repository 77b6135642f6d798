-- ===== src/Runner/Reset/Effect.antt =====
-- What `resetGraphBetweenTwoVertices` of mlir/lib/Util/Runner.cpp changes.
use mathlib.Core.Path.{subst}
use mlir_air_mirror.Prelude.{
  ℕ, zero, suc, ◌<◌, ◌≡◌, ◌∙◌, sym, refl, ap, arith, true, false, ◌||◌, Bool-cases, inl, inr, ◌==◌,
  ==_iff, Option, some, List, [], ◌∷◌, elem,
}
use mlir_air_mirror.Runner.State.{Node, Op, Graph, Runner, write_keep, write_ne}
use mlir_air_mirror.Runner.Path.{Trail}
use mlir_air_mirror.Runner.Path.Found.{Found, Reach-trans}
use mlir_air_mirror.Runner.Path.Correct.{has_path-Found, at_end}
use mlir_air_mirror.Runner.Graphs.{Graded}
use mlir_air_mirror.Runner.Reset.{
  Resetting, reset_vertex, reset_inside, reset_each, reset_path, reset_between,
}
use mlir_air_mirror.Runner.Reset.Resets.{
  Resets, Resets-none, Resets-same, Resets-append, reset_vertex-Resets,
}

-- What a call on a graph below g does for g.
abbrev Inner : (ℕ → ℕ) → ℕ → (ℕ → (ℕ → Runner) → Option Resetting) → Type 0
Inner height g nested =
    (sub : ℕ) (runners : ℕ → Runner)
    → height sub < height g
    → (s : Resetting) × (nested sub runners ≡ some s)
      × ((h : ℕ) → (s.1 h).wavefront ≡ (runners h).wavefront)
      × ((h : ℕ) → height sub < height h → s.1 h ≡ runners h)

module _ (height : ℕ → ℕ) (time g : ℕ) (nested : ℕ → (ℕ → Runner) → Option Resetting)
    (inner : Inner height g nested) where
  reset_inside-Resets :
      (op : Op) (s : Resetting)
      → ((sub : ℕ) → op ≡ Op.hierarchy sub → height sub < height g)
      → (s' : Resetting) × (reset_inside nested g op s ≡ some s')
        × Resets height time g (λ v. false) s s'
  reset_inside-Resets (Op.hierarchy sub) s below =
      let lower = below sub refl in
      let r = inner sub (s.1) lower in
      (
        (s.0, r.0.1),
        rw (r.1) refl,
        record {
          nodes = λ v. refl;
          processed =
              λ v. ap (λ (x : Runner). elem v x.processed_vertices) (r.3 g lower) ∙ ground arith;
          waves = r.2;
          others = λ h k e. r.3 h (omega (arith, k, lower));
        },
      )
  reset_inside-Resets (Op.for_loop loop) s below = (
    _,
    refl,
    record {
      nodes = λ v. refl;
      processed = λ v.
          write_keep (λ (x : Runner). elem v x.processed_vertices) (s.1) g _ g refl ∙ ground arith;
      waves = λ h. write_keep (λ (x : Runner). x.wavefront) (s.1) g _ h refl;
      others = λ h k e. write_ne (s.1) g _ e;
    },
  )
  reset_inside-Resets Op.start s below = (s, refl, Resets-none height time g s)
  reset_inside-Resets (Op.loop_yield for_v loop operands) s below =
      (s, refl, Resets-none height time g s)
  reset_inside-Resets Op.other_yield s below = (s, refl, Resets-none height time g s)
  reset_inside-Resets Op.channel_put s below = (s, refl, Resets-none height time g s)
  reset_inside-Resets (Op.channel_get put_g put_v) s below = (s, refl, Resets-none height time g s)
  reset_inside-Resets Op.other s below = (s, refl, Resets-none height time g s)

  reset_each-Resets :
      (op : ℕ → Op)
      → ((v sub : ℕ) → op v ≡ Op.hierarchy sub → height sub < height g)
      → (vs : List ℕ) (s : Resetting)
      → (s' : Resetting) × (reset_each nested op time g vs s ≡ some s')
        × Resets height time g (λ v. elem v vs) s s'
  unfolding reset_each
  reset_each-Resets op below [] s = (s, refl, Resets-none height time g s)
  reset_each-Resets op below (u ∷ us) s =
      let one = reset_inside-Resets (op u) (reset_vertex time g u s) (below u) in
      let rest = reset_each-Resets op below us (one.0) in
      (
        rest.0,
        rw (reset_each, one.1) (rest.1),
        Resets-append height time g (reset_vertex-Resets height time g u s)
            (Resets-append height time g (one.2) (rest.2)),
      )

  reset_path-Resets :
      (adjacent : ℕ → List ℕ) (op : ℕ → Op) (start_v end_v : ℕ)
      → ((v sub : ℕ) → op v ≡ Op.hierarchy sub → height sub < height g)
      → (t : Trail) (s : Resetting) → Found adjacent start_v end_v t
      → (s' : Resetting) × (reset_path nested op time g (some t) s ≡ some s')
        × Resets height time g (λ v. elem v t.1) s s'
  reset_path-Resets adjacent op start_v end_v below (true, vertices) s found =
      reset_each-Resets op below vertices s
  reset_path-Resets adjacent op start_v end_v below (false, vertices) s found =
      (s, refl, Resets-same height time g lacks (Resets-none height time g s))
    where
      lacks : (v : ℕ) → false ≡ elem v vertices
      lacks v = elim (Bool-cases (elem v vertices)) [
        | inl e ↦ let p = found.between v e in found.complete (Reach-trans (p.0) (p.1)) ∙ sym e
        | inr e ↦ sym e
      ]

-- What a call answers: the vertices of `hasPath` and the start are reset.
pub record ResetDone (graphs : ℕ → Graph) (height : ℕ → ℕ) (time g start_v end_v : ℕ)
    (s s' : Resetting) : Type 0 where
  pub vertices : Trail
  pub found : Found (graphs g).adjacent start_v end_v vertices
  pub resets : Resets height time g (λ v. v == start_v || elem v (vertices.1)) s s'

module _ (graphs : ℕ → Graph) (depth n0 time : ℕ) (graded : Graded graphs depth n0)
    (node : ℕ → ℕ → Node) where
  -- On graphs without cycles whose hierarchies nest, the reset returns. It clears the times of the
  -- nodes that are done among the start and the vertices on a walk from start to end, takes these
  -- vertices out of the processed ones and keeps the others, and touches no wavefront and no runner but
  -- its own and those of graphs below.
  pub reset_between-ResetDone :
      (n g start_v end_v : ℕ) (s : Resetting)
      → graded.height g < n
      → (s' : Resetting) × (reset_between graphs depth time node n g start_v end_v s ≡ some s')
        × ResetDone graphs graded.height time g start_v end_v s s'
  unfolding reset_between
  reset_between-ResetDone zero g start_v end_v s h = absurd (omega (arith, h))
  reset_between-ResetDone (suc n) g start_v end_v s h =
      let adjacent = (graphs g).adjacent in
      let ranked = graded.ranked g in
      let first = reset_vertex-Resets graded.height time g start_v s in
      elim (Bool-cases (start_v == end_v)) [
        | inl e ↦ (
          reset_vertex time g start_v s,
          rw (e) refl,
          record {
            vertices = (true, start_v ∷ []);
            found =
                subst (λ x. Found adjacent start_v x (true, start_v ∷ []))
                  ((==_iff start_v end_v).0 e) (at_end adjacent (graded.rank g) ranked start_v);
            resets = Resets-same graded.height time g (λ v. ground arith) first;
          },
        )
        | inr e ↦
            let walk =
              has_path-Found adjacent (graded.rank g) ranked depth start_v end_v
                (graded.rank_lt g start_v) in
            let rest =
              reset_path-Resets graded.height time g
                (λ sub runners.
                  reset_between graphs depth time node n sub (graphs sub).start_vertex
                    (graphs sub).terminator_vertex (node sub, runners))
                (λ sub runners lower.
                  let r =
                    reset_between-ResetDone n sub (graphs sub).start_vertex
                      (graphs sub).terminator_vertex (node sub, runners)
                      (omega (arith, h, lower)) in
                  (
                    r.0,
                    r.1,
                    r.2.resets.waves,
                    λ k below. r.2.resets.others k (omega (arith, below)) (apart below),
                  ))
                adjacent (graphs g).op start_v end_v (λ v sub q. graded.nested g v sub q) (walk.0)
                (reset_vertex time g start_v s) (walk.2) in
            (
              rest.0,
              rw (e, walk.1) (rest.1),
              record {
                vertices = walk.0;
                found = walk.2;
                resets = Resets-append graded.height time g first (rest.2);
              },
            )
      ]
    where
      apart : {k sub : ℕ} → graded.height sub < graded.height k → (k == sub) ≡ false
      apart {k} {sub} below = elim (Bool-cases (k == sub)) [
        | inl q ↦ absurd (
            omega
              (arith, subst (λ x. graded.height sub < graded.height x) ((==_iff k sub).0 q) below))
        | inr q ↦ q
      ]
