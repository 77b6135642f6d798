-- ===== src/Controller/Barrier/Waits.antt =====
-- How the AND barrier waits for its dependency signals.
use mlir_air_mirror.Prelude.{
  ℕ, zero, suc, ◌+◌, ◌<◌, ◌≤◌, ◌≡◌, ◌∙◌, ap, refl, arith, Bool, true, false, Bool-cases, ◌==◌,
  ==_iff, List, [], ◌∷◌, set, inl, inr,
}
use mlir_air_mirror.Queue.Signal.{History}
use mlir_air_mirror.Controller.State.{Ctl, Returns, Returns-and_then, Returns-map}
use mlir_air_mirror.Controller.NdMemcpy.{packet_at}
use mlir_air_mirror.Controller.Barrier.{
  mymod, advance, advance_queue, barrier_completed, complete_barrier_packet, dep_signals, poll,
  signal_wait, some_pending, repeat_while, handle_barrier_and_packet,
}

abbrev pub AllOf : (ℕ → Type 0) → List ℕ → Type 0
AllOf P [] = Unit
AllOf P (s ∷ ss) = P s × AllOf P ss

AllOf-map : (P Q : ℕ → Type 0) → ((s : ℕ) → P s → Q s) → (ss : List ℕ) → AllOf P ss → AllOf Q ss
AllOf-map P Q f [] a = tt
AllOf-map P Q f (s ∷ ss) a = (f s (a.0), AllOf-map P Q f ss (a.1))

-- The signal was zero at some time from `t` on.
pub record Seen (env : History) (t s : ℕ) : Type 0 where
  pub at : ℕ
  pub late : t ≤ at
  pub zero_then : env at s ≡ 0

Seen-earlier : (env : History) (t t' s : ℕ) → t ≤ t' → Seen env t' s → Seen env t s
Seen-earlier env t t' s h w = record {
  at = w.at;
  late = omega (arith, w.late);
  zero_then = w.zero_then;
}

-- The signal is zero from `t` on.
abbrev pub Settled : History → ℕ → ℕ → Type 0
Settled env t s = (u : ℕ) → t ≤ u → env u s ≡ 0

-- What one wait of the AND barrier comes to.
record Waited (env : History) (c : Ctl) (s : ℕ) (r : ℕ × Ctl) : Type 0 where
  time : c.clock < r.1.clock
  same : r.1 ≡ record c { clock = r.1.clock }
  seen : r.0 ≡ 0 → Seen env c.clock s
  clear : Settled env c.clock s → r.0 ≡ 0

Waited-earlier :
    (env : History) (c : Ctl) (s : ℕ) (r : ℕ × Ctl)
    → Waited env (record c { clock = c.clock + 1 }) s r
    → Waited env c s r
Waited-earlier env c s r w = record {
  time = omega (arith, w.time);
  same = w.same;
  seen = λ e. Seen-earlier env c.clock (c.clock + 1) s (omega arith) (w.seen e);
  clear = λ z. w.clear (λ u h. z u (omega arith));
}

Waited-now :
    (env : History) (c : Ctl) (s : ℕ)
    → env c.clock s ≡ 0
    → Waited env c s (0, record c { clock = c.clock + 1 })
Waited-now env c s e = record {
  time = omega arith;
  same = refl;
  seen = λ _. record { at = c.clock; late = omega arith; zero_then = e };
  clear = λ _. refl;
}

poll-Waited : (env : History) (n s : ℕ) (c : Ctl) → Returns (Waited env c s) (poll env n s 0 c)
unfolding poll
poll-Waited env zero s c = record {
  time = omega arith;
  same = refl;
  seen = λ e. record { at = c.clock; late = omega arith; zero_then = e };
  clear = λ z. z c.clock (omega arith);
}
poll-Waited env (suc n) s c = elim (Bool-cases (env c.clock s == 0)) [
  | inl e ↦ rw (e) (Waited-now env c s ((==_iff _ _).0 e))
  | inr e ↦ rw (e) (
      Returns-map _ _ _ (poll-Waited env n s (record c { clock = c.clock + 1 }))
        (Waited-earlier env c s))
]

signal_wait-Waited :
    (env : History) (n s : ℕ) (c : Ctl) → Returns (Waited env c s) (signal_wait env s 0 n 0 c)
unfolding signal_wait
signal_wait-Waited env n s c = elim (Bool-cases (env c.clock s == 0)) [
  | inl e ↦ rw (e) (Waited-now env c s ((==_iff _ _).0 e))
  | inr e ↦ rw (e) (
      Returns-map _ _ _ (poll-Waited env n s (record c { clock = c.clock + 1 }))
        (Waited-earlier env c s))
]

-- What one evaluation of the condition of the AND barrier comes to.
record Round (env : History) (c : Ctl) (ss : List ℕ) (r : Bool × Ctl) : Type 0 where
  time : c.clock ≤ r.1.clock
  later : r.0 ≡ true → c.clock < r.1.clock
  same : r.1 ≡ record c { clock = r.1.clock }
  seen : r.0 ≡ false → AllOf (Seen env c.clock) ss
  clear : AllOf (Settled env c.clock) ss → r.0 ≡ false

some_pending-Round :
    (env : History) (ss : List ℕ) (c : Ctl) → Returns (Round env c ss) (some_pending env ss c)
unfolding some_pending
some_pending-Round env [] c = record {
  time = omega arith;
  later = λ e. ground arith;
  same = refl;
  seen = λ _. tt;
  clear = λ _. refl;
}
some_pending-Round env (s ∷ ss) c =
    Returns-and_then (Waited env c s) (Round env c (s ∷ ss)) _ _
      (signal_wait-Waited env 0x80000 s c)
      (λ v d w. elim (Bool-cases (v == 0)) [
        | inl e ↦
            rw (e) (Returns-map _ _ _ (some_pending-Round env ss d) (go v d w ((==_iff _ _).0 e)))
        | inr e ↦ rw (e) (record {
          time = omega (arith, w.time);
          later = λ _. w.time;
          same = w.same;
          seen = λ q. ground arith;
          clear = λ z. ground (arith, w.clear (z.0));
        })
      ])
  where
    go :
        (v : ℕ) (d : Ctl)
        → Waited env c s (v, d)
        → v ≡ 0
        → (r : Bool × Ctl) → Round env d ss r
        → Round env c (s ∷ ss) r
    go v d w e r q = record {
      time = omega (arith, w.time, q.time);
      later = λ k. omega (arith, w.time, q.later k);
      same = q.same ∙ ap (λ (u : Ctl). record u { clock = r.1.clock }) w.same;
      seen = λ k. (
        w.seen e,
        AllOf-map _ _ (λ x. Seen-earlier env c.clock d.clock x (omega (arith, w.time))) ss
            (q.seen k),
      );
      clear = λ z. q.clear (AllOf-map _ _ (λ x y u h. y u (omega (arith, w.time))) ss (z.1));
    }

-- The loop of the AND barrier ends with every signal seen at zero.
record Over (env : History) (c : Ctl) (ss : List ℕ) (d : Ctl) : Type 0 where
  time : c.clock ≤ d.clock
  same : d ≡ record c { clock = d.clock }
  seen : AllOf (Seen env c.clock) ss

repeat_while-Over :
    (env : History) (ss : List ℕ) (settled fuel : ℕ) (c : Ctl)
    → AllOf (Settled env settled) ss
    → settled < c.clock + fuel
    → Returns (λ r. Over env c ss (r.1)) (repeat_while env (some_pending env ss) (suc fuel) c)
unfolding repeat_while
repeat_while-Over env ss settled zero c z enough =
    Returns-and_then (Round env c ss) (λ r. Over env c ss (r.1)) _ _ (some_pending-Round env ss c)
      (λ b d q.
        let e = q.clear (AllOf-map _ _ (λ x y u h. y u (omega arith)) ss z) in
        rw (e) (record { time = q.time; same = q.same; seen = q.seen e }))
repeat_while-Over env ss settled (suc fuel) c z enough =
    Returns-and_then (Round env c ss) (λ r. Over env c ss (r.1)) _ _ (some_pending-Round env ss c)
      (λ b d q. elim (Bool-cases b) [
        | inl e ↦ rw (e) (
            Returns-map (λ r. Over env d ss (r.1)) _ _
              (repeat_while-Over env ss settled fuel d z (omega (arith, q.later e)))
              (λ r o. record {
                time = omega (arith, q.time, o.time);
                same = o.same ∙ ap (λ (u : Ctl). record u { clock = r.1.clock }) q.same;
                seen = AllOf-map _ _ (λ x. Seen-earlier env c.clock d.clock x q.time) ss o.seen;
              }))
        | inr e ↦ rw (e) (record { time = q.time; same = q.same; seen = q.seen e })
      ])

-- A barrier packet has been completed and taken off the queue.
pub record BarrierDone (c d : Ctl) : Type 0 where
  pub time : c.clock ≤ d.clock
  pub state : d ≡ record c {
    clock = d.clock;
    packets =
        set c.packets
          (mymod c.queue.read_index)
          (barrier_completed (packet_at c (mymod c.queue.read_index)));
    queue = advance 1 c.queue;
  }

-- An AND barrier whose dependency signals are zero from some time on ends, on more rounds of fuel
-- than reads until then. It ends only when each of its signals was zero at some time since it
-- began; its packet is completed, the queue moves on by one packet, and nothing else but the clock
-- changes.
pub handle_barrier_and_packet-BarrierDone :
    (env : History) (settled fuel : ℕ) (c : Ctl)
    → AllOf (Settled env settled) (dep_signals (packet_at c (mymod c.queue.read_index)))
    → settled < c.clock + fuel
    → Returns
        (λ r.
          BarrierDone c (r.1)
          × AllOf (Seen env c.clock) (dep_signals (packet_at c (mymod c.queue.read_index))))
        (handle_barrier_and_packet env (suc fuel) c)
unfolding handle_barrier_and_packet complete_barrier_packet advance_queue
handle_barrier_and_packet-BarrierDone env settled fuel c z enough =
    Returns-and_then (λ r. Over env c _ (r.1)) _ _ _
      (repeat_while-Over env _ settled fuel c z enough)
      (λ u d o. (record { time = o.time; state = same_state d o.same }, o.seen))
  where
    same_state :
        (d : Ctl)
        → d ≡ record c { clock = d.clock }
        → (record d {
          packets =
              set d.packets
                (mymod c.queue.read_index)
                (barrier_completed (packet_at d (mymod c.queue.read_index)));
          queue = advance 1 d.queue;
        })
          ≡ record c {
            clock = d.clock;
            packets =
                set c.packets
                  (mymod c.queue.read_index)
                  (barrier_completed (packet_at c (mymod c.queue.read_index)));
            queue = advance 1 c.queue;
          }
    same_state d e =
        ap
          (λ (u : Ctl). record u {
            packets =
                set u.packets (mymod c.queue.read_index)
                  (barrier_completed (packet_at u (mymod c.queue.read_index)));
            queue = advance 1 u.queue;
          })
          e
