-- ===== src/Queue/Tests.antt =====
-- A completion signal that falls to zero at the third read.
use mlir_air_mirror.Prelude.{◌≡◌, refl, arith, some, if◌then◌else◌, ltb}
use mlir_air_mirror.Queue.Signal.{History, FirstSeen, air_queue_wait, air_queue_wait_returns}

abbrev falling : History
falling t a = if ltb t 2 then 1 else 0

air_queue_wait_returns_example : air_queue_wait falling 3 0 0 ≡ some 3
air_queue_wait_returns_example =
    air_queue_wait_returns falling 3 0 0 2
      (FirstSeen.later 0 (λ e. omega (arith, e))
        (FirstSeen.later 1 (λ e. omega (arith, e)) (FirstSeen.now 2 refl)))
      (omega arith)
