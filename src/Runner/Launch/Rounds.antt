-- ===== src/Runner/Launch/Rounds.antt =====
-- The rounds of `scheduleLaunch` in mlir/lib/Util/Runner.cpp.
use mathlib.Core.Path.{subst}
use mlir_air_mirror.Runner.Path.Found.{or-right}
use mlir_air_mirror.Prelude.{
  elem_self, leb→le, sym, false, ℕ, ◌+◌, ◌<◌, ◌≤◌, ◌≡◌, ◌⊎◌, arith, max, min, Bool, true,
  Bool-cases, inl, inr, ◌==◌, ◌&&◌, not, elem-append, ◌^◌, u64, leb, List, [], ◌∷◌, elem, ==_iff,
}
use mlir_air_mirror.Runner.State.{Node, is_started, World}
use mlir_air_mirror.Runner.Vertices.{Entry}
use mlir_air_mirror.Runner.Launch.{min_element, time_stamps, all_time_stamps, next_time}

min_element-le : (t : ℕ) (ts : List ℕ) → elem t ts ≡ true → min_element ts ≤ t
unfolding min_element
min_element-le t [] h = absurd (ground arith)
min_element-le t (u ∷ []) h = ground arith
min_element-le t (u ∷ (v ∷ vs)) h = elim (Bool-cases (t == u)) [
  | inl e ↦ let same : t ≡ u = (==_iff t u).0 e in omega (arith, same)
  | inr e ↦
      let rest : elem t (v ∷ vs) ≡ true = ground arith in
      omega (arith, min_element-le t (v ∷ vs) rest)
]

elem-min_element : (ts : List ℕ) → 0 < min_element ts → elem (min_element ts) ts ≡ true
unfolding min_element
elem-min_element [] h = absurd (omega (arith, h))
elem-min_element (t ∷ []) h = elem_self t []
elem-min_element (t ∷ (u ∷ us)) h = elim (Bool-cases (leb t (min_element (u ∷ us)))) [
  | inl e ↦
      let le : t ≤ min_element (u ∷ us) = leb→le t (min_element (u ∷ us)) e in
      let same : min t (min_element (u ∷ us)) ≡ t = omega (arith, le) in
      subst (λ x. elem x (t ∷ (u ∷ us)) ≡ true) (sym same) (elem_self t (u ∷ us))
  | inr e ↦
      let gt : min_element (u ∷ us) < t = ground arith in
      let same : min t (min_element (u ∷ us)) ≡ min_element (u ∷ us) = omega (arith, gt) in
      let rest = elem-min_element (u ∷ us) (omega (arith, h, same)) in
      subst (λ x. elem x (t ∷ (u ∷ us)) ≡ true) (sym same)
        (or-right (min_element (u ∷ us) == t) _ rest)
]

pub next_time-lt :
    (time : ℕ) (running : Bool) (w : World) (gs : List ℕ)
    → time + 1 < 2 ^ 64
    → time < next_time time running w gs
unfolding next_time
next_time-lt time running w gs small = omega arith

pub next_time_idle :
    (time : ℕ) (w : World) (gs : List ℕ) → time + 1 < 2 ^ 64 → next_time time false w gs ≡ time + 1
unfolding next_time
next_time_idle time w gs small = omega arith

-- An operation on the wavefront runs, and ends at t.
abbrev pub EndsIn : (ℕ → Node) → List Entry → ℕ → Type 0
EndsIn node [] t = ⊥
EndsIn node (e ∷ es) t =
    ((0 < (node e.0).start_time) × (0 < t) × ((node e.0).end_time ≡ t)) ⊎ EndsIn node es t

-- An operation on the wavefront of one of the runners runs, and ends at t.
abbrev pub EndsAt : World → List ℕ → ℕ → Type 0
EndsAt w [] t = ⊥
EndsAt w (g ∷ gs) t = EndsIn (w.node g) (w.runner g).wavefront t ⊎ EndsAt w gs t

EndsIn-elem :
    (node : ℕ → Node) (es : List Entry) (t : ℕ)
    → EndsIn node es t
    → elem t (time_stamps node es) ≡ true
unfolding time_stamps
EndsIn-elem node [] t h = absurd h
EndsIn-elem node (e ∷ es) t (inl (s, p, q)) =
    let on : (is_started (node e.0) && not ((node e.0).end_time == 0)) ≡ true = ground arith in
    rw on (ground (arith, q))
EndsIn-elem node (e ∷ es) t (inr r) =
    let rest = EndsIn-elem node es t r in
    elim (Bool-cases (is_started (node e.0) && not ((node e.0).end_time == 0))) [
      | inl on ↦ rw on (ground (arith, rest))
      | inr off ↦ rw off rest
    ]

elem-EndsIn :
    (node : ℕ → Node) (es : List Entry) (t : ℕ)
    → elem t (time_stamps node es) ≡ true
    → EndsIn node es t
unfolding time_stamps
elem-EndsIn node [] t h = absurd (ground (arith, h))
elem-EndsIn node (e ∷ es) t h =
    elim (Bool-cases (is_started (node e.0) && not ((node e.0).end_time == 0))) [
      | inl on ↦ elim (Bool-cases (t == (node e.0).end_time)) [
        | inl same ↦
            let q : t ≡ (node e.0).end_time = (==_iff t (node e.0).end_time).0 same in
            inl (ground (arith, on), ground (arith, on, q), sym q)
        | inr other ↦ inr (elem-EndsIn node es t (ground (arith, other, rw on at h)))
      ]
      | inr off ↦ inr (elem-EndsIn node es t (rw off at h))
    ]

EndsAt-elem :
    (w : World) (gs : List ℕ) (t : ℕ) → EndsAt w gs t → elem t (all_time_stamps w gs) ≡ true
unfolding all_time_stamps
EndsAt-elem w [] t h = absurd h
EndsAt-elem w (g ∷ gs) t (inl h) =
    let here = EndsIn-elem (w.node g) (w.runner g).wavefront t h in
    let both =
      elem-append t (time_stamps (w.node g) (w.runner g).wavefront) (all_time_stamps w gs) in
    ground (arith, here, both)
EndsAt-elem w (g ∷ gs) t (inr h) =
    let there = EndsAt-elem w gs t h in
    let both =
      elem-append t (time_stamps (w.node g) (w.runner g).wavefront) (all_time_stamps w gs) in
    ground (arith, there, both)

elem-EndsAt :
    (w : World) (gs : List ℕ) (t : ℕ) → elem t (all_time_stamps w gs) ≡ true → EndsAt w gs t
unfolding all_time_stamps
elem-EndsAt w [] t h = absurd (ground (arith, h))
elem-EndsAt w (g ∷ gs) t h =
    let both =
      elem-append t (time_stamps (w.node g) (w.runner g).wavefront) (all_time_stamps w gs) in
    elim (Bool-cases (elem t (time_stamps (w.node g) (w.runner g).wavefront))) [
      | inl here ↦ inl (elem-EndsIn (w.node g) (w.runner g).wavefront t here)
      | inr off ↦ inr (elem-EndsAt w gs t (ground (arith, off, both, h)))
    ]

-- For a time below 2^64 - 1 the next round is later. It passes over no end of an operation that runs on the
-- wavefront of one of the runners, and unless it is just one later it is at such an end.
pub next_time_lem :
    (time : ℕ) (w : World) (gs : List ℕ)
    → time + 1 < 2 ^ 64
    → (time < next_time time true w gs)
      × ((t : ℕ) → EndsAt w gs t → time < t → next_time time true w gs ≤ t)
      × ((next_time time true w gs ≡ time + 1) ⊎ EndsAt w gs (next_time time true w gs))
unfolding next_time
next_time_lem time w gs small = (
  next_time-lt time true w gs small,
  λ t h k. omega (arith, min_element-le t (all_time_stamps w gs) (EndsAt-elem w gs t h), k),
  end_of (at_end (all_time_stamps w gs)),
)
  where
    end_of :
        (next_time time true w gs ≡ time + 1)
          ⊎ (elem (next_time time true w gs) (all_time_stamps w gs) ≡ true)
        → (next_time time true w gs ≡ time + 1) ⊎ EndsAt w gs (next_time time true w gs)
    end_of (inl e) = inl e
    end_of (inr e) = inr (elem-EndsAt w gs (next_time time true w gs) e)

    at_end :
        (ts : List ℕ)
        → (max (u64 (time + 1)) (min_element ts) ≡ time + 1)
          ⊎ (elem (max (u64 (time + 1)) (min_element ts)) ts ≡ true)
    at_end ts = elim (Bool-cases (leb (min_element ts) (time + 1))) [
      | inl e ↦ inl (omega (arith, leb→le (min_element ts) (time + 1) e))
      | inr e ↦
          let gt : time + 1 < min_element ts = ground arith in
          let same : max (u64 (time + 1)) (min_element ts) ≡ min_element ts = omega (arith, gt) in
          inr (subst (λ x. elem x ts ≡ true) (sym same) (elem-min_element ts (omega (arith, gt))))
    ]
