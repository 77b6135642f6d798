-- ===== src/Ernic/Qp/Freed.antt =====
-- What `pcie_ernic_free_qp` leaves on the card.
use mlir_air_mirror.Prelude.{
  ℕ, zero, suc, ◌+◌, ◌/◌, ◌%◌, ◌^◌, ◌≤◌, ◌<◌, ◌≡◌, refl, ap, ◌∙◌, arith, ◌⊎◌, inl, inr, true, false,
  ◌==◌, u32, some, List, [], ◌∷◌, Bool-cases,
}
use mlir_air_mirror.Queue.Signal.{History}
use mlir_air_mirror.Ernic.State.{
  Qp, Card, Write, reg, Returns, returns, Returns-and_then, Returns-map,
}
use mlir_air_mirror.Ernic.Registers.{csr_addr, xrnicadconf, statqpi, sqpii, cqheadi}
use mlir_air_mirror.Ernic.Registers.Window.{
  is_per_queue, all_per_queue, Fits, qp_base, ernic_qp_addr-qp_base, distinct-keys, elem-keys_other,
}
use mlir_air_mirror.Ernic.Log.{
  last_reg, last_reg_self, last_reg_ne, regs, out_all-regs, Holds, regs-Holds, last_reg-regs_other,
}
use mlir_air_mirror.Ernic.Qp.{
  reset_config, is_drained, wait_empty, wait_completed, pcie_ernic_free_qp,
}
use mlir_air_mirror.Ernic.Qp.Created.{qp_register}

-- The bits 9 and 10 of the status are set.
abbrev pub BothEmpty : ℕ → Type 0
BothEmpty s = (s / 2 ^ 9 % 2 ≡ 1) × (s / 2 ^ 10 % 2 ≡ 1)

is_drained-BothEmpty : (s : ℕ) → is_drained s ≡ true → BothEmpty s
is_drained-BothEmpty s h = (ground (arith, h), ground (arith, h))

BothEmpty-is_drained : (s : ℕ) → BothEmpty s → is_drained s ≡ true
BothEmpty-is_drained s (a, b) = ground (arith, a, b)

module _ (bar : History) where
  -- One of `n + 1` reads of the status from the t-th read on shows both queues empty.
  abbrev pub Drained : ℕ → ℕ → ℕ → Type 0
  Drained zero a t = BothEmpty (u32 (bar t a))
  Drained (suc n) a t = BothEmpty (u32 (bar t a)) ⊎ Drained n a (t + 1)

  -- One of `n` rounds of two reads finds as many completions as postings.
  abbrev pub Settled : ℕ → ℕ → ℕ → ℕ → Type 0
  Settled zero a b t = ⊥
  Settled (suc n) a b t = ((u32 (bar t a) == u32 (bar (t + 1) b)) ≡ true) ⊎ Settled n a b (t + 2)

  -- The wait ends behind a read, the t-th or a later one, that has both bits.
  abbrev Emptied : ℕ → ℕ → Card → Card → Type 0
  Emptied a t c d = (r : ℕ) × (d ≡ record c { clock = r + 1 }) × (t ≤ r) × BothEmpty (u32 (bar r a))

  ended_now : (a t : ℕ) (c : Card) → c.clock ≡ t + 1 → BothEmpty (u32 (bar t a)) → Emptied a t c c
  ended_now a t c e b = (t, ap (λ k. record c { clock = k }) e, omega arith, b)

  wait_empty-Emptied :
      (fuel qpid t : ℕ) (c : Card)
      → c.clock ≡ t + 1
      → Drained fuel (qp_register c.axil_bar_offset qpid statqpi) t
      → Returns
          (λ _ d. Emptied (qp_register c.axil_bar_offset qpid statqpi) t c d)
          (wait_empty bar fuel qpid (u32 (bar t (qp_register c.axil_bar_offset qpid statqpi))) c)
  unfolding wait_empty
  wait_empty-Emptied zero qpid t c e h =
      rw (BothEmpty-is_drained _ h, wait_empty) (returns (ended_now _ t c e h))
  wait_empty-Emptied (suc n) qpid t c e (inl h) =
      rw (BothEmpty-is_drained _ h, wait_empty) (returns (ended_now _ t c e h))
  wait_empty-Emptied (suc n) qpid t c e (inr h) =
      elim (Bool-cases (is_drained (u32 (bar t (qp_register c.axil_bar_offset qpid statqpi))))) [
        | inl done ↦
            rw (done, wait_empty) (returns (ended_now _ t c e (is_drained-BothEmpty _ done)))
        | inr more ↦
            rw (more, wait_empty, e)
              (Returns-map
                (wait_empty-Emptied n qpid (t + 1) (record c { clock = t + 1 + 1 }) refl h)
                λ u d w. (w.0, w.1, omega (arith, w.2), w.3))
      ]

  -- The wait ends behind two reads, later than all before, that find as many completions as postings.
  abbrev Completed : ℕ → ℕ → Card → Card → Type 0
  Completed a b c d =
      (s : ℕ) × (d ≡ record c { clock = s + 2 })
      × (c.clock ≤ s)
      × (u32 (bar s a) ≡ u32 (bar (s + 1) b))

  wait_completed-Completed :
      (fuel qpid : ℕ) (c : Card)
      → Settled fuel
          (qp_register c.axil_bar_offset qpid sqpii)
          (qp_register c.axil_bar_offset qpid cqheadi)
          c.clock
      → Returns
          (λ _ d.
            Completed
              (qp_register c.axil_bar_offset qpid sqpii)
              (qp_register c.axil_bar_offset qpid cqheadi)
              c
              d)
          (wait_completed bar fuel qpid c)
  unfolding wait_completed
  wait_completed-Completed zero qpid c h = absurd h
  wait_completed-Completed (suc n) qpid c (inl h) =
      rw (h, wait_completed) (returns (c.clock, refl, omega arith, ground (arith, h)))
  wait_completed-Completed (suc n) qpid c (inr h) =
      elim (Bool-cases (
        u32 (bar c.clock (qp_register c.axil_bar_offset qpid sqpii))
        == u32 (bar (c.clock + 1) (qp_register c.axil_bar_offset qpid cqheadi)))) [
          | inl done ↦
              rw (done, wait_completed) (returns (c.clock, refl, omega arith, ground (arith, done)))
          | inr more ↦
              rw (more, wait_completed)
                (Returns-map (wait_completed-Completed n qpid (record c { clock = c.clock + 2 }) h)
                  λ u d w. (w.0, w.1, omega (arith, w.2), w.3))
        ]

-- The registers of a queue pair that is no more, by their offsets: the doorbell of the receive queue in
-- two words, SQPI, CQHEAD, RQCI, STATRQPIDB, STATCURSQPTR, the sequence numbers, STATMSN and the
-- configuration.
abbrev pub cleared : List (ℕ × ℕ)
cleared =
    (0x20220, 0)
    ∷ (0x20224, 0)
    ∷ (0x20238, 0)
    ∷ (0x20230, 0)
    ∷ (0x20234, 0)
    ∷ (0x2029c, 0)
    ∷ (0x2028c, 0)
    ∷ (0x20240, 0)
    ∷ (0x20244, 0)
    ∷ (0x20284, 0)
    ∷ (0x20200, 0)
    ∷ []

-- The card was done with the queue pair: a read of its status had both bits, and two reads after that,
-- the last of all, found CQHEAD at SQPI. The override is off, the registers of the queue pair are
-- cleared, and no register of another queue pair has changed.
pub record Freed (bar : History) (qpid : ℕ) (c d : Card) : Type 0 where
  pub empty_read : ℕ
  pub begun : c.clock ≤ empty_read
  pub empty : BothEmpty (u32 (bar empty_read (qp_register c.axil_bar_offset qpid 0x20288)))
  pub done_read : ℕ
  pub ordered : empty_read < done_read
  pub done :
      u32 (bar done_read (qp_register c.axil_bar_offset qpid 0x20238))
      ≡ u32 (bar (done_read + 1) (qp_register c.axil_bar_offset qpid 0x20230))
  pub time : d.clock ≡ done_read + 2
  pub override : last_reg d.log (csr_addr (xrnicadconf + c.axil_bar_offset)) ≡ some 0
  pub registers : Holds (qp_register c.axil_bar_offset qpid) cleared d.log
  pub others :
      (q addr : ℕ)
      → Fits c.axil_bar_offset q
      → (q == qpid) ≡ false
      → is_per_queue addr ≡ true
      → last_reg d.log (qp_register c.axil_bar_offset q addr)
        ≡ last_reg c.log (qp_register c.axil_bar_offset q addr)

-- The override is no per-queue register.
override_ne :
    (off q addr : ℕ)
    → Fits off q
    → is_per_queue addr ≡ true
    → (qp_register off q addr == csr_addr (xrnicadconf + off)) ≡ false
unfolding csr_addr
override_ne off q addr f h =
    let low : 0x20200 ≤ addr = ground arith in
    let high : addr < 0x20300 = ground arith in
    let a : 1 ≤ q = f.0 in
    let c : off + 0x21400 < 2 ^ 32 = f.2 in
    let csr : u32 (xrnicadconf + off) ≡ xrnicadconf + off = omega arith in
    let four : addr % 4 ≡ 0 = ground arith in
    let ne : (addr / 4 + qp_base off q == (xrnicadconf + off) / 4) ≡ false = ground arith in
    rw (ernic_qp_addr-qp_base off q addr f h, csr) ne

Holds-below :
    (f : ℕ → ℕ) (ws : List (ℕ × ℕ)) (l : List Write) (a v : ℕ)
    → ((addr : ℕ) → is_per_queue addr ≡ true → (f addr == a) ≡ false)
    → all_per_queue ws ≡ true
    → Holds f ws l
    → Holds f ws (reg a v ∷ l)
Holds-below f [] l a v n k h = tt
Holds-below f (w ∷ ws) l a v n k h = (
  last_reg_ne l a (f w.0) v (n w.0 (ground (arith, k))) ∙ h.0,
  Holds-below f ws l a v n (ground (arith, k)) h.1,
)

module _ (bar : History) where
  -- If the card shows both queues empty, by the bits 9 and 10 of the status, and then as many
  -- completions as postings within the waits, `pcie_ernic_free_qp` returns for each queue pair from 1
  -- to 16, and not before it has read both. The software override is off again, eleven registers of
  -- the queue pair are 0, among them its pointers and its configuration, and the registers of other
  -- queue pairs are as they were.
  pub pcie_ernic_free_qp-Freed :
      (fuel : ℕ) (qp : Qp) (c : Card)
      → Fits c.axil_bar_offset qp.qpid
      → Drained bar fuel (qp_register c.axil_bar_offset qp.qpid statqpi) c.clock
      → ((t : ℕ)
          → Settled bar fuel
              (qp_register c.axil_bar_offset qp.qpid sqpii)
              (qp_register c.axil_bar_offset qp.qpid cqheadi)
              t)
      → Returns (λ _ d. Freed bar qp.qpid c d) (pcie_ernic_free_qp bar fuel qp c)
  unfolding pcie_ernic_free_qp
  pcie_ernic_free_qp-Freed fuel qp c fits drained settled =
      let off : ℕ = c.axil_bar_offset in
      let f : ℕ → ℕ = qp_register off qp.qpid in
      let o : ℕ = csr_addr (xrnicadconf + off) in
      let l : List Write = reg o 1 ∷ c.log in
      Returns-and_then
        (wait_empty-Emptied bar fuel qp.qpid c.clock (record c { clock = c.clock + 1 }) refl
          drained)
        λ u d w. rw (w.1) (
          Returns-and_then
            (wait_completed-Completed bar fuel qp.qpid (record c { clock = w.0 + 1 })
              (settled (w.0 + 1)))
            λ u' e w'.
              rw (w'.1, out_all-regs)
                (returns (record {
                  empty_read = w.0;
                  begun = w.2;
                  empty = w.3;
                  done_read = w'.0;
                  ordered = omega (arith, w'.2);
                  done = w'.3;
                  time = refl;
                  override = last_reg_self (regs f reset_config l) o 0;
                  registers =
                      Holds-below f reset_config (regs f reset_config l) o 0
                        (λ addr h. override_ne off qp.qpid addr fits h) refl
                        (regs-Holds f reset_config l
                          (distinct-keys off qp.qpid reset_config fits refl refl));
                  others = λ q addr g n h.
                      last_reg_ne (regs f reset_config l) o (qp_register off q addr) 0
                        (override_ne off q addr g h)
                      ∙ last_reg-regs_other f reset_config l (qp_register off q addr)
                          (elem-keys_other off q qp.qpid addr reset_config g fits n h refl)
                      ∙ last_reg_ne c.log o (qp_register off q addr) 1 (override_ne off q addr g h);
                })))
