-- ===== src/Runner/Path/Found.antt =====
-- On a graph without cycles, `hasPath` finds the path and collects the vertices between its ends.
use mathlib.Core.Path.{subst}
use mlir_air_mirror.Prelude.{
  ℕ, ◌<◌, ◌≡◌, ◌⊎◌, ◌∙◌, inl, inr, sym, refl, arith, Bool, true, false, ◌||◌, ==_iff, ◌==◌, Option,
  some, List, [], ◌∷◌, ◌++◌, elem, elem-append,
}
use mlir_air_mirror.Runner.Path.{Trail, try_each}

-- There is a walk from `u` to `w`.
pub data Reach (adjacent : ℕ → List ℕ) : ℕ → ℕ → Type 0 where
  here : {u : ℕ} → Reach adjacent u u
  step : {u w : ℕ} (v : ℕ) → elem v (adjacent u) ≡ true → Reach adjacent v w → Reach adjacent u w

pub Reach-inv :
    {adjacent : ℕ → List ℕ} {u w : ℕ}
    → Reach adjacent u w
    → (u ≡ w) ⊎ ((v : ℕ) × (elem v (adjacent u) ≡ true) × Reach adjacent v w)
Reach-inv Reach.here = inl refl
Reach-inv (Reach.step v e p) = inr (v, e, p)

pub Reach-trans :
    {adjacent : ℕ → List ℕ} {u v w : ℕ}
    → Reach adjacent u v
    → Reach adjacent v w
    → Reach adjacent u w
Reach-trans Reach.here q = q
Reach-trans (Reach.step x e p) q = Reach.step x e (Reach-trans p q)

-- The vertices have ranks that fall along every edge, as those of a graph without cycles have.
abbrev pub Ranked : (ℕ → List ℕ) → (ℕ → ℕ) → Type 0
Ranked adjacent rank = (u v : ℕ) → elem v (adjacent u) ≡ true → rank v < rank u

-- What a call that starts at `start` answers.
pub record Found (adjacent : ℕ → List ℕ) (start end : ℕ) (t : Trail) : Type 0 where
  pub sound : t.0 ≡ true → Reach adjacent start end
  pub complete : Reach adjacent start end → t.0 ≡ true
  pub between : (v : ℕ) → elem v t.1 ≡ true → Reach adjacent start v × Reach adjacent v end
  pub all : (v : ℕ) → Reach adjacent start v → Reach adjacent v end → elem v t.1 ≡ true

-- What the loop over `vs` has come to.
pub record Tried (adjacent : ℕ → List ℕ) (vs : List ℕ) (end : ℕ) (t : Trail) : Type 0 where
  pub sound : t.0 ≡ true → (v : ℕ) × (elem v vs ≡ true) × Reach adjacent v end
  pub complete : (v : ℕ) → elem v vs ≡ true → Reach adjacent v end → t.0 ≡ true
  pub between :
      (w : ℕ)
      → elem w t.1 ≡ true
      → (v : ℕ) × (elem v vs ≡ true) × Reach adjacent v w × Reach adjacent w end
  pub all :
      (v w : ℕ) → elem v vs ≡ true → Reach adjacent v w → Reach adjacent w end → elem w t.1 ≡ true

or-cases : (a b : Bool) → (a || b) ≡ true → (a ≡ true) ⊎ (b ≡ true)
or-cases true b e = inl refl
or-cases false b e = inr e

pub or-left : (a b : Bool) → a ≡ true → (a || b) ≡ true
or-left a b e = ground arith

pub or-right : (a b : Bool) → b ≡ true → (a || b) ≡ true
or-right a b e = ground arith

module _ (adjacent : ℕ → List ℕ) (end : ℕ) where
  join-Tried :
      (v : ℕ) (vs : List ℕ) (t t' : Trail)
      → Found adjacent v end t
      → Tried adjacent vs end t'
      → Tried adjacent (v ∷ vs) end (t.0 || t'.0, t.1 ++ t'.1)
  join-Tried v vs t t' f r = record {
    sound = λ e. elim (or-cases (t.0) (t'.0) e) [
      | inl p ↦ (v, or-left _ _ (same v), f.sound p)
      | inr p ↦ let w = r.sound p in (w.0, or-right _ _ (w.1), w.2)
    ];
    complete = λ u m p. elim (or-cases (u == v) (elem u vs) m) [
      | inl q ↦ or-left _ _ (f.complete (rw (← (==_iff u v).0 q) p))
      | inr q ↦ or-right _ _ (r.complete u q p)
    ];
    between = λ w m. elim (or-cases (elem w t.1) (elem w t'.1) (sym (elem-append w t.1 t'.1) ∙ m)) [
      | inl q ↦ let p = f.between w q in (v, or-left _ _ (same v), p.0, p.1)
      | inr q ↦ let p = r.between w q in (p.0, or-right _ _ (p.1), p.2, p.3)
    ];
    all = λ u w m p q. elem-append w t.1 t'.1 ∙ elim (or-cases (u == v) (elem u vs) m) [
      | inl e ↦ or-left _ _ (f.all w (rw (← (==_iff u v).0 e) p) q)
      | inr e ↦ or-right _ _ (r.all u w e p q)
    ];
  }
    where
      same : (x : ℕ) → (x == x) ≡ true
      same x = ground arith

  -- A loop whose calls all answer has an answer.
  pub try_each-Tried :
      (visit : ℕ → Option Trail) (vs : List ℕ)
      → ((v : ℕ) → elem v vs ≡ true → (t : Trail) × (visit v ≡ some t) × Found adjacent v end t)
      → (t : Trail) × (try_each visit vs ≡ some t) × Tried adjacent vs end t
  unfolding try_each
  try_each-Tried visit [] each = (
    (false, []),
    refl,
    record {
      sound = λ e. absurd (ground arith);
      complete = λ v m p. absurd (ground arith);
      between = λ w m. absurd (ground arith);
      all = λ v w m p q. absurd (ground arith);
    },
  )
  try_each-Tried visit (v ∷ vs) each =
      let first = each v (ground arith) in
      let rest = try_each-Tried visit vs (λ u m. each u (or-right (u == v) _ m)) in
      (
        (first.0.0 || rest.0.0, first.0.1 ++ rest.0.1),
        rw (first.1, rest.1) refl,
        join-Tried v vs (first.0) (rest.0) (first.2) (rest.2),
      )

Reach-rank :
    {adjacent : ℕ → List ℕ} {rank : ℕ → ℕ} {u w : ℕ}
    → Ranked adjacent rank
    → Reach adjacent u w
    → (u ≡ w) ⊎ rank w < rank u
Reach-rank r Reach.here = inl refl
Reach-rank {rank} {u} {w} r (Reach.step v e p) = elim (Reach-rank r p) [
  | inl q ↦ inr (subst (λ x. rank x < rank u) q (r u v e))
  | inr q ↦ inr (omega (arith, r u v e, q))
]

-- A closed walk in a graph without cycles stays where it is.
pub Reach-closed :
    {adjacent : ℕ → List ℕ} {rank : ℕ → ℕ} {u v : ℕ}
    → Ranked adjacent rank
    → Reach adjacent u v
    → Reach adjacent v u
    → v ≡ u
Reach-closed r p q = elim (Reach-rank r q) [
  | inl e ↦ e
  | inr h ↦ elim (Reach-rank r p) [ inl e ↦ sym e | inr k ↦ absurd (omega (arith, h, k)) ]
]
