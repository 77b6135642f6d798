-- ===== src/Controller/Lock/Granted.antt =====
-- What `xaie_lock_acquire_nb` answers for a lock that is granted or refused.
use mlir_air_mirror.Prelude.{ℕ, zero, suc, ◌+◌, ◌%◌, ◌<◌, ◌≤◌, ◌≡◌, refl, arith}
use mlir_air_mirror.Queue.Signal.{History}
use mlir_air_mirror.Controller.State.{Ctl, Returns, Returns-and_then, Returns-map}
use mlir_air_mirror.Controller.Lock.{
  maskpoll, maskpoll32, acquire_loop, lock_register, xaie_lock_acquire_nb,
}

-- Every read of the register from time `t` on answers `bit`.
abbrev pub Answers : History → ℕ → ℕ → ℕ → Type 0
Answers env bit addr t = (u : ℕ) → t ≤ u → env u addr % 2 ≡ bit

-- The step has answered `v`, at a later time.
record Answered (c : Ctl) (v : ℕ) (r : ℕ × Ctl) : Type 0 where
  value : r.0 ≡ v
  time : c.clock ≤ r.1.clock

maskpoll-refused :
    (env : History) (n addr : ℕ) (c : Ctl)
    → Answers env 0 addr c.clock
    → Returns (Answered c 1) (maskpoll env n addr c)
unfolding maskpoll
maskpoll-refused env zero addr c no_grant = record { value = refl; time = omega arith }
maskpoll-refused env (suc n) addr c no_grant = rw (no_grant c.clock (omega arith)) (
    Returns-map (Answered (record c { clock = c.clock + 1 }) 1) _ _
      (maskpoll-refused env n addr (record c { clock = c.clock + 1 })
        (λ u h. no_grant u (omega arith)))
      (λ r a. record { value = a.value; time = omega (arith, a.time) }))

acquire_loop-granted :
    (env : History) (n addr loop : ℕ) (c : Ctl)
    → Answers env 1 addr c.clock
    → Returns (Answered c (loop + n)) (acquire_loop env n addr loop c)
unfolding acquire_loop maskpoll32 maskpoll
acquire_loop-granted env zero addr loop c grant = record { value = omega arith; time = omega arith }
acquire_loop-granted env (suc n) addr loop c grant = rw (grant c.clock (omega arith)) (
    Returns-map (Answered (record c { clock = c.clock + 1 }) (loop + 1 + n)) _ _
      (acquire_loop-granted env n addr (loop + 1) (record c { clock = c.clock + 1 })
        (λ u h. grant u (omega arith)))
      (λ r a. record { value = omega (arith, a.value); time = omega (arith, a.time) }))

acquire_loop-refused :
    (env : History) (n addr loop : ℕ) (c : Ctl)
    → 0 < n
    → Answers env 0 addr c.clock
    → Returns (Answered c (loop + 1)) (acquire_loop env n addr loop c)
unfolding acquire_loop maskpoll32
acquire_loop-refused env zero addr loop c some_round no_grant = absurd (omega arith)
acquire_loop-refused env (suc n) addr loop c some_round no_grant =
    Returns-and_then (Answered c 1) _ _ _ (maskpoll-refused env 110 addr c no_grant)
      (λ ret d a. rw (a.value) (record { value = refl; time = a.time }))

-- `xaie_lock_acquire_nb` answers 0, which is its answer for a timeout, when every read of the lock's
-- register is granted, and 1, its answer for a lock that it holds, when every read is refused.
pub xaie_lock_acquire_nb-inverted :
    (env : History) (col row lock_id val : ℕ) (c : Ctl)
    → let addr = lock_register 0x1e060 0x14060 col row lock_id val in
      (Answers env 1 addr c.clock
        → Returns (λ r. r.0 ≡ 0) (xaie_lock_acquire_nb env col row lock_id val c))
      × (Answers env 0 addr c.clock
          → Returns (λ r. r.0 ≡ 1) (xaie_lock_acquire_nb env col row lock_id val c))
unfolding xaie_lock_acquire_nb
xaie_lock_acquire_nb-inverted env col row lock_id val c = (
  λ grant.
      Returns-and_then (Answered c 512) _ _ _
        (acquire_loop-granted env 512 (lock_register 0x1e060 0x14060 col row lock_id val) 0 c grant)
        (λ loop d a. ground (arith, a.value)),
  λ refuse.
      Returns-and_then (Answered c 1) _ _ _
        (acquire_loop-refused env 512 (lock_register 0x1e060 0x14060 col row lock_id val) 0 c
          (omega arith) refuse)
        (λ loop d a. ground (arith, a.value)),
)
