-- ===== src/Runner/Path/Correct.antt =====
-- `hasPath` of mlir/lib/Util/Runner.cpp answers on every graph without cycles.
use mathlib.Core.Path.{subst}
use mlir_air_mirror.Prelude.{
  ℕ, zero, suc, ◌<◌, ◌≡◌, ◌∙◌, refl, sym, inl, inr, arith, true, false, Bool-cases, ==_iff, ◌==◌,
  some, List, [], ◌∷◌, elem,
}
use mlir_air_mirror.Runner.Path.{Trail, close, has_path}
use mlir_air_mirror.Runner.Path.Found.{
  Reach, Reach-trans, Reach-inv, Reach-closed, or-left, or-right, Ranked, Found, Tried,
  try_each-Tried,
}

module _ (adjacent : ℕ → List ℕ) (rank : ℕ → ℕ) (ranked : Ranked adjacent rank) where
  pub at_end : (v : ℕ) → Found adjacent v v (true, v ∷ [])
  at_end v = record {
    sound = λ e. Reach.here;
    complete = λ p. refl;
    between = λ w m.
        subst (λ x. Reach adjacent v x × Reach adjacent x v) (sym (only w m))
          (Reach.here, Reach.here);
    all = λ w p q. subst (λ x. elem x (v ∷ []) ≡ true) (sym (Reach-closed ranked p q)) (same v);
  }
    where
      same : (x : ℕ) → elem x (x ∷ []) ≡ true
      same x = ground arith

      only : (w : ℕ) → elem w (v ∷ []) ≡ true → w ≡ v
      only w m = ground arith

  close-Found :
      (start end : ℕ) (t : Trail)
      → (start == end) ≡ false
      → Tried adjacent (adjacent start) end t
      → (t' : Trail) × (close start (some t) ≡ some t') × Found adjacent start end t'
  close-Found start end (true, vec) ne r = (
    (true, start ∷ vec),
    refl,
    record {
      sound = λ e. whole;
      complete = λ p. refl;
      between = λ w m. elim (Bool-cases (w == start)) [
        | inl e ↦
            subst (λ x. Reach adjacent start x × Reach adjacent x end) (sym ((==_iff w start).0 e))
              (Reach.here, whole)
        | inr e ↦ let q = r.between w (ground arith) in (Reach.step (q.0) (q.1) (q.2), q.3)
      ];
      all = λ w p q. inside w p q;
    },
  )
    where
      whole : Reach adjacent start end
      whole = let p = r.sound refl in Reach.step (p.0) (p.1) (p.2)

      inside : (w : ℕ) → Reach adjacent start w → Reach adjacent w end → elem w (start ∷ vec) ≡ true
      inside w p q = elim (Reach-inv p) [
        | inl e ↦ or-left (w == start) _ ((==_iff w start).1 (sym e))
        | inr k ↦ or-right (w == start) _ (r.all (k.0) w (k.1) (k.2) q)
      ]
  close-Found start end (false, vec) ne r = (
    (false, vec),
    refl,
    record {
      sound = λ e. absurd (ground arith);
      complete = λ p. apart p;
      between = λ w m. let q = r.between w m in (Reach.step (q.0) (q.1) (q.2), q.3);
      all = λ w p q. absurd (lost (apart (Reach-trans p q)));
    },
  )
    where
      lost : false ≡ true → ⊥
      lost e = ground arith

      apart : Reach adjacent start end → false ≡ true
      apart p = elim (Reach-inv p) [
        | inl e ↦ sym ne ∙ (==_iff start end).1 e
        | inr q ↦ r.complete (q.0) (q.1) (q.2)
      ]

  -- On a graph whose vertices have ranks that fall along every edge, with more fuel than the start's
  -- rank, `hasPath` returns: true exactly if there is a walk from start to end, and then with exactly
  -- the vertices that lie on such walks in its vector, or false, and then with no vertex.
  pub has_path-Found :
      (n start end : ℕ)
      → rank start < n
      → (t : Trail) × (has_path adjacent n start end ≡ some t) × Found adjacent start end t
  unfolding has_path
  has_path-Found zero start end h = absurd (omega (arith, h))
  has_path-Found (suc n) start end h = elim (Bool-cases (start == end)) [
    | inl e ↦ (
      (true, start ∷ []),
      rw (e) refl,
      subst (λ x. Found adjacent start x (true, start ∷ [])) ((==_iff start end).0 e)
          (at_end start),
    )
    | inr e ↦
        let tried =
          try_each-Tried adjacent end (λ v. has_path adjacent n v end) (adjacent start)
            (λ v m. has_path-Found n v end (omega (arith, h, ranked start v m))) in
        let closed = close-Found start end (tried.0) e (tried.2) in
        (closed.0, rw (e, tried.1) closed.1, closed.2)
  ]
