-- ===== src/Runner/Execute/TripCount.antt =====
-- The number of iterations that mlir/lib/Util/Runner.cpp computes for an `scf.for`.
use mathlib.Core.Path.{subst}
use native.Mathlib.Nat.{
  div-add-mod', mod-lt, mod-eq_of_lt, mul-le-mul_left, mul-le-mul_right, suc-mul,
}
use mlir_air_mirror.Prelude.{
  ℕ, suc, ◌+◌, ◌-◌, ◌*◌, ◌/◌, ◌%◌, ◌^◌, ◌<◌, ◌≤◌, ◌≡◌, ◌∙◌, arith, Bool-cases, inl, inr, leb,
  leb→le, sym, ap, ltb, ltb→lt, if-true,
}
use mlir_air_mirror.Runner.State.{ForLoop}
use mlir_air_mirror.Runner.Execute.{trip_count}

-- `i` is below a quotient that is rounded up.
below_ceil :
    (d step i : ℕ)
    → 0 < step
    → (i < (d + step - 1) / step → i * step < d) × (i * step < d → i < (d + step - 1) / step)
below_ceil d step i h =
    let q = (d + step - 1) / step in
    let r = (d + step - 1) % step in
    let whole : q * step + r ≡ d + step - 1 = div-add-mod' (d + step - 1) step in
    let small : r < step = mod-lt (d + step - 1) h in
    (
      λ k.
          let m : suc i * step ≤ q * step = mul-le-mul_right step k in
          let n : suc i * step ≡ i * step + step = suc-mul i step in omega (arith, whole, m, n, h),
      λ k. elim (Bool-cases (ltb i q)) [
        | inl e ↦ ltb→lt i q e
        | inr e ↦
            let m : q * step ≤ i * step = mul-le-mul_right step (ground arith) in
            absurd (omega (arith, whole, small, m, k, h))
      ],
    )

ceil-le : (d step : ℕ) → 0 < step → (d + step - 1) / step ≤ d
ceil-le d step h =
    let q = (d + step - 1) / step in
    elim (Bool-cases (leb q d)) [
      | inl e ↦ leb→le q d e
      | inr e ↦
          let gt : d < q = ground arith in
          let k = (below_ceil d step d h).0 gt in
          let m : d * 1 ≤ d * step = mul-le-mul_left d h in absurd (omega (arith, k, m))
    ]

-- An `scf.for` with a positive step and bounds 0 ≤ lower ≤ upper < 2^32 gets as its trip count the
-- number of its iterations: i is below it exactly if lower + i * step is below upper.
pub trip_count_lem :
    (l : ForLoop) (i : ℕ)
    → 0 < l.step
    → l.lower ≤ l.upper
    → l.upper < 2 ^ 32
    → (i < trip_count l → l.lower + i * l.step < l.upper)
      × (l.lower + i * l.step < l.upper → i < trip_count l)
unfolding trip_count
trip_count_lem l i hs hl hu =
    let d = l.upper - l.lower in
    let q = (d + l.step - 1) / l.step in
    let whole : l.upper + l.step - (l.lower + 1) ≡ d + l.step - 1 = omega (arith, hs, hl) in
    let top : q ≤ d = ceil-le d (l.step) hs in
    let quotient : (l.upper + l.step - (l.lower + 1)) / l.step ≡ q = ap (λ n. n / l.step) whole in
    let count : trip_count l ≡ q =
      if-true {b = leb (l.lower + 1) (l.upper + l.step)} _ _
        (let le : l.lower + 1 ≤ l.upper + l.step = omega (arith, hs, hl) in ground arith)
      ∙ ap (λ n. n % 2 ^ 32) quotient
      ∙ mod-eq_of_lt (omega (arith, top, hu)) in
    let b = below_ceil d (l.step) i hs in
    (
      λ k. let m = b.0 (subst (λ n. i < n) count k) in omega (arith, m, hl),
      λ k. let m : i * l.step < d = omega (arith, k, hl) in subst (λ n. i < n) (sym count) (b.1 m),
    )
