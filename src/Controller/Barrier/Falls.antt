-- ===== src/Controller/Barrier/Falls.antt =====
-- The OR barrier needs to see one of its signals fall to zero.
use mlir_air_mirror.Prelude.{
  ℕ, zero, suc, ◌+◌, ◌≤◌, ◌≡◌, refl, arith, Bool, true, false, Bool-cases, if◌then◌else◌, ◌==◌,
  ==_iff, Option, none, some, List, [], ◌∷◌, inl, inr,
}
use mlir_air_mirror.Queue.Signal.{History}
use mlir_air_mirror.Controller.State.{Ctl, pure, and_then, Returns, Returns-and_then, Returns-map}
use mlir_air_mirror.Controller.Barrier.{
  poll, signal_wait, all_pending, repeat_while, handle_barrier_or_packet,
}

-- No word of memory falls to zero from time `t` on.
abbrev pub NeverFalls : History → ℕ → Type 0
NeverFalls env t = (u s : ℕ) → t ≤ u → env (u + 1) s ≡ 0 → env u s ≡ 0

-- A wait of the OR barrier, with its default of 1, that does not see a fall.
record StillUp (c : Ctl) (r : ℕ × Ctl) : Type 0 where
  time : c.clock ≤ r.1.clock
  up : r.0 ≡ 0 → ⊥

poll-StillUp :
    (env : History) (n s : ℕ) (c : Ctl)
    → NeverFalls env c.clock
    → (env c.clock s ≡ 0 → ⊥)
    → Returns (StillUp c) (poll env n s 0 c)
unfolding poll
poll-StillUp env zero s c never up = record { time = omega arith; up = up }
poll-StillUp env (suc n) s c never up = elim (Bool-cases (env c.clock s == 0)) [
  | inl e ↦ absurd (up ((==_iff _ _).0 e))
  | inr e ↦ rw (e) (
      Returns-map (StillUp (record c { clock = c.clock + 1 })) _ _
        (poll-StillUp env n s (record c { clock = c.clock + 1 }) (λ u x h. never u x (omega arith))
          (λ z. up (never c.clock s (omega arith) z)))
        (λ r w. record { time = omega (arith, w.time); up = w.up }))
]

signal_wait-StillUp :
    (env : History) (n s : ℕ) (c : Ctl)
    → NeverFalls env c.clock
    → Returns (StillUp c) (signal_wait env s 0 n 1 c)
unfolding signal_wait
signal_wait-StillUp env n s c never = elim (Bool-cases (env c.clock s == 0)) [
  | inl e ↦ rw (e) (record { time = omega arith; up = λ z. omega arith })
  | inr e ↦ rw (e) (
      Returns-map (StillUp (record c { clock = c.clock + 1 })) _ _
        (poll-StillUp env n s (record c { clock = c.clock + 1 }) (λ u x h. never u x (omega arith))
          (λ z. absurd (up e (never c.clock s (omega arith) z))))
        (λ r w. record { time = omega (arith, w.time); up = w.up }))
]
  where
    up : {v : ℕ} → (v == 0) ≡ false → v ≡ 0 → ⊥
    up e z = ground arith

record Pending (c : Ctl) (r : Bool × Ctl) : Type 0 where
  time : c.clock ≤ r.1.clock
  again : r.0 ≡ true

all_pending-Pending :
    (env : History) (ss : List ℕ) (c : Ctl)
    → NeverFalls env c.clock
    → Returns (Pending c) (all_pending env ss c)
unfolding all_pending
all_pending-Pending env [] c never = record { time = omega arith; again = refl }
all_pending-Pending env (s ∷ ss) c never =
    Returns-and_then (StillUp c) (Pending c) _ _ (signal_wait-StillUp env 0x80000 s c never)
      (λ v d w. elim (Bool-cases (v == 0)) [
        | inl e ↦ absurd (w.up ((==_iff _ _).0 e))
        | inr e ↦ rw (e) (
            Returns-map (Pending d) _ _
              (all_pending-Pending env ss d (λ u x h. never u x (omega (arith, w.time))))
              (λ r p. record { time = omega (arith, w.time, p.time); again = p.again }))
      ])

-- A step that returns true is no end of the loop.
repeat_while-none :
    (env : History) (ss : List ℕ) (fuel : ℕ) (c : Ctl)
    → NeverFalls env c.clock
    → repeat_while env (all_pending env ss) fuel c ≡ none
unfolding repeat_while
repeat_while-none env ss zero c never = refl
repeat_while-none env ss (suc fuel) c never =
    go (all_pending env ss c) (all_pending-Pending env ss c never)
      (λ d le. repeat_while-none env ss fuel d (λ u x h. never u x (omega arith)))
  where
    go :
        (o : Option (Bool × Ctl))
        → Returns (Pending c) o
        → ((d : Ctl) → c.clock ≤ d.clock → repeat_while env (all_pending env ss) fuel d ≡ none)
        → and_then o
            (λ again. if again then repeat_while env (all_pending env ss) fuel else pure tt)
          ≡ none
    go none p next = refl
    go (some (b, d)) p next = rw (p.again) (next d p.time)

-- An OR barrier does not end on any fuel when from its start on no word of memory is zero at a read
-- without having been zero at the read before, and so also when every word is always zero.
pub handle_barrier_or_packet-none :
    (env : History) (fuel : ℕ) (c : Ctl)
    → NeverFalls env c.clock
    → handle_barrier_or_packet env fuel c ≡ none
unfolding handle_barrier_or_packet
handle_barrier_or_packet-none env fuel c never = rw (repeat_while-none env _ fuel c never) refl
