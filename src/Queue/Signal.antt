-- ===== src/Queue/Signal.antt =====
-- The wait on a signal word that another agent changes (air_queue.h), and `air_queue_wait` of
-- runtime_lib/airhost/queue.cpp. The memory is a history: `memory t a` is what the t-th read of the
-- run finds at address `a`, so that every behaviour of the other agent is some history.
use native.Mathlib.Decide.{dec_le}
use mlir_air_mirror.Prelude.{
  ℕ, zero, suc, ◌+◌, ◌≤◌, ◌<◌, ◌≡◌, ◌≢◌, ◌==◌, arith, true, false, Option, none, some,
}

abbrev pub History : Type 0
History = ℕ → ℕ → ℕ

module _ (memory : History) where
  -- `signal_wait_acquire` with the condition EQ: at most `timeout + 1` reads. It returns the last
  -- value read and the time of the next read.
  pub signal_wait_acquire : ℕ → ℕ → ℕ → ℕ → ℕ × ℕ
  signal_wait_acquire signal compare_value zero t = (memory t signal, t + 1)
  signal_wait_acquire signal compare_value (suc timeout) t =
      elim (memory t signal == compare_value) [
        | true ↦ (compare_value, t + 1)
        | false ↦ signal_wait_acquire signal compare_value timeout (t + 1)
      ]

  -- `while (signal_wait_acquire(signal, EQ, 0, timeout) != 0) ...`, with fuel for the rounds; the
  -- result is the time of the first read after the loop.
  pub wait_zero : ℕ → ℕ → ℕ → ℕ → Option ℕ
  wait_zero zero signal timeout t = none
  wait_zero (suc fuel) signal timeout t =
      let w = signal_wait_acquire signal 0 timeout t in
      elim (w.0 == 0) [ true ↦ some w.1 | false ↦ wait_zero fuel signal timeout w.1 ]

  -- `air_queue_wait(q, pkt)`, where `signal` is the address of the packet's completion signal.
  unfoldable pub air_queue_wait : ℕ → ℕ → ℕ → Option ℕ
  air_queue_wait fuel signal t = wait_zero fuel signal 0x80000 t

  -- Of the reads of `signal` from time t on, the one after k others is the first to find `v`.
  pub data FirstSeen (signal v : ℕ) : ℕ → ℕ → Type 0 where
    now : (t : ℕ) → memory t signal ≡ v → FirstSeen signal v zero t
    later :
        (t : ℕ) {k : ℕ}
        → memory t signal ≢ v
        → FirstSeen signal v k (t + 1)
        → FirstSeen signal v (suc k) t

  pub signal_wait_acquire-in_time :
      (signal v timeout t k : ℕ)
      → FirstSeen signal v k t
      → k ≤ timeout
      → signal_wait_acquire signal v timeout t ≡ (v, t + k + 1)
  unfolding signal_wait_acquire
  signal_wait_acquire-in_time signal v zero t zero (now _ e) h = ground arith
  signal_wait_acquire-in_time signal v zero t (suc k) f h = absurd (omega arith)
  signal_wait_acquire-in_time signal v (suc n) t zero (now _ e) h = ground arith
  signal_wait_acquire-in_time signal v (suc n) t (suc k) (later _ ne f) h =
      ground (arith, signal_wait_acquire-in_time signal v n (t + 1) k f (omega arith))

  -- What a wait that ran out has seen: `timeout + 1` reads, none of them `v`.
  pub record TimedOut (signal v timeout t k : ℕ) (w : ℕ × ℕ) : Type 0 where
    pub differs : w.0 ≢ v
    pub time : w.1 ≡ t + timeout + 1
    pub left : ℕ
    pub count : left + timeout + 1 ≡ k
    pub rest : FirstSeen signal v left w.1

  pub signal_wait_acquire-TimedOut :
      (signal v timeout t k : ℕ)
      → FirstSeen signal v k t
      → timeout < k
      → TimedOut signal v timeout t k (signal_wait_acquire signal v timeout t)
  unfolding signal_wait_acquire
  signal_wait_acquire-TimedOut signal v timeout t zero f h = absurd (omega arith)
  signal_wait_acquire-TimedOut signal v zero t (suc k) (later _ ne f) h = record {
    differs = ne;
    time = omega arith;
    left = k;
    count = omega arith;
    rest = f;
  }
  signal_wait_acquire-TimedOut signal v (suc n) t (suc k) (later _ ne f) h =
      let no_hit : (memory t signal == v) ≡ false = ground arith in
      let r = signal_wait_acquire-TimedOut signal v n (t + 1) k f (omega arith) in
      rw (no_hit, signal_wait_acquire)
        (record {
          differs = r.differs;
          time = omega (arith, r.time);
          left = r.left;
          count = omega (arith, r.count);
          rest = r.rest;
        })

  -- Enough fuel for the wait: one round for each read that comes before the first zero. The loop
  -- ends at the read that finds the zero, whatever the timeout.
  pub wait_zero_returns :
      (fuel signal timeout t k : ℕ)
      → FirstSeen signal 0 k t
      → k < fuel
      → wait_zero fuel signal timeout t ≡ some (t + k + 1)
  unfolding wait_zero
  wait_zero_returns zero signal timeout t k f h = absurd (omega arith)
  wait_zero_returns (suc fuel) signal timeout t k f h = elim (dec_le k timeout) [
    | yes p ↦ ground (arith, signal_wait_acquire-in_time signal 0 timeout t k f p)
    | no p ↦
        let r = signal_wait_acquire-TimedOut signal 0 timeout t k f (omega arith) in
        ground (
          arith,
          r.differs,
          r.time,
          r.count,
          wait_zero_returns fuel signal timeout _ r.left r.rest (omega (arith, r.count)),
        )
  ]

  -- If the read after k others is the first to find the completion signal at zero, `air_queue_wait`
  -- on more than k rounds of fuel returns, and that read is its last.
  pub air_queue_wait_returns :
      (fuel signal t k : ℕ)
      → FirstSeen signal 0 k t
      → k < fuel
      → air_queue_wait fuel signal t ≡ some (t + k + 1)
  unfolding air_queue_wait
  air_queue_wait_returns fuel signal t k f h = wait_zero_returns fuel signal 0x80000 t k f h
