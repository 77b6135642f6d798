-- ===== src/Runner/Reset/Resets.antt =====
-- Resets of vertices in mlir/lib/Util/Runner.cpp and how they combine.
use mlir_air_mirror.Prelude.{
  ℕ, ◌≤◌, ◌≡◌, ◌∙◌, sym, refl, ap, arith, Bool, true, false, ◌&&◌, ◌||◌, not, Bool-cases, inl, inr,
  if◌then◌else◌, ◌==◌, ==_iff, elem, without, elem-without_self, elem-without_ne,
}
use mlir_air_mirror.Runner.State.{
  Node, is_started, is_done, Runner, write, write_self, write_keep, write_ne,
}
use mlir_air_mirror.Runner.Reset.{Resetting, reset_node, reset_vertex}

-- The vertices of graph g that `which` holds of have been reset, and runners above g kept.
pub record Resets (height : ℕ → ℕ) (time g : ℕ) (which : ℕ → Bool) (s s' : Resetting) : Type 0 where
  pub nodes : (v : ℕ) → s'.0 v ≡ (if which v then reset_node time (s.0 v) else s.0 v)
  pub processed :
      (v : ℕ)
      → elem v (s'.1 g).processed_vertices ≡ (elem v (s.1 g).processed_vertices && not (which v))
  pub waves : (h : ℕ) → (s'.1 h).wavefront ≡ (s.1 h).wavefront
  pub others : (h : ℕ) → height g ≤ height h → (h == g) ≡ false → s'.1 h ≡ s.1 h

-- A node that has been reset is not started, so it stays as it is.
reset_node_idempotent :
    (time : ℕ) (n : Node) → reset_node time (reset_node time n) ≡ reset_node time n
reset_node_idempotent time n = elim (Bool-cases (is_started n && is_done n time)) [
  | inl e ↦ rw (e) refl
  | inr e ↦ rw (e, e) refl
]

module _ (height : ℕ → ℕ) (time g : ℕ) where
  pub Resets-none : (s : Resetting) → Resets height time g (λ v. false) s s
  Resets-none s = record {
    nodes = λ v. refl;
    processed = λ v. ground arith;
    waves = λ h. refl;
    others = λ h k e. refl;
  }

  pub Resets-same :
      {p q : ℕ → Bool} {s t : Resetting}
      → ((v : ℕ) → p v ≡ q v)
      → Resets height time g p s t
      → Resets height time g q s t
  Resets-same {p} {q} {s} {t} same r = record {
    nodes =
        λ v. r.nodes v ∙ ap (λ (b : Bool). if b then reset_node time (s.0 v) else s.0 v) (same v);
    processed =
        λ v. r.processed v ∙ ap (λ (b : Bool). elem v (s.1 g).processed_vertices && not b) (same v);
    waves = r.waves;
    others = r.others;
  }

  pub Resets-append :
      {p q : ℕ → Bool} {s t u : Resetting}
      → Resets height time g p s t
      → Resets height time g q t u
      → Resets height time g (λ v. p v || q v) s u
  Resets-append {p} {q} {s} {t} {u} a b = record {
    nodes = λ v.
        b.nodes v
        ∙ ap (λ (n : Node). if q v then reset_node time n else n) (a.nodes v)
        ∙ again (p v) (q v) (s.0 v);
    processed = λ v. b.processed v ∙ rw (a.processed v) (ground arith);
    waves = λ h. b.waves h ∙ a.waves h;
    others = λ h k e. b.others h k e ∙ a.others h k e;
  }
    where
      again :
          (c d : Bool) (n : Node)
          → (if d
              then reset_node time (if c then reset_node time n else n)
              else if c
              then reset_node time n
              else n)
            ≡ (if c || d then reset_node time n else n)
      again true true n = reset_node_idempotent time n
      again true false n = refl
      again false true n = refl
      again false false n = refl

  pub reset_vertex-Resets :
      (u : ℕ) (s : Resetting) → Resets height time g (λ v. v == u) s (reset_vertex time g u s)
  reset_vertex-Resets u s = record {
    nodes = λ v. elim (Bool-cases (v == u)) [
      | inl e ↦
          ap (write (s.0) u (reset_node time (s.0 u))) ((==_iff v u).0 e)
          ∙ write_self (s.0) u _
          ∙ ap (λ x. reset_node time (s.0 x)) (sym ((==_iff v u).0 e))
          ∙ (rw (e) refl)
      | inr e ↦ write_ne (s.0) u _ e ∙ (rw (e) refl)
    ];
    processed = λ v.
        ap (λ (r : Runner). elem v r.processed_vertices) (write_self (s.1) g _)
        ∙ elim (Bool-cases (v == u)) [
          | inl e ↦
              ap (λ x. elem x (without u (s.1 g).processed_vertices)) ((==_iff v u).0 e)
              ∙ elem-without_self u (s.1 g).processed_vertices
              ∙ rw (e) (ground arith)
          | inr e ↦ elem-without_ne u v (s.1 g).processed_vertices e ∙ rw (e) (ground arith)
        ];
    waves = λ h. write_keep (λ (r : Runner). r.wavefront) (s.1) g _ h refl;
    others = λ h k e. write_ne (s.1) g _ e;
  }
