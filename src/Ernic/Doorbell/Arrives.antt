-- ===== src/Ernic/Doorbell/Arrives.antt =====
-- What a wait for a doorbell of the card does, and the entry that `pcie_ernic_post_recv` takes.
use mlir_air_mirror.Prelude.{
  ℕ, zero, suc, ◌+◌, ◌-◌, ◌*◌, ◌^◌, ◌<◌, ◌≡◌, refl, ap, arith, ◌⊎◌, inl, inr, true, false, ◌==◌,
  ltb, u32, u64, Option, some, ◌∷◌, Bool-cases,
}
use mlir_air_mirror.Queue.Signal.{History}
use mlir_air_mirror.Ernic.State.{Buff, Qp, Card, reg, Returns, returns, Returns-and_then}
use mlir_air_mirror.Ernic.Registers.{rqcii, statrqpidbi, cqheadi}
use mlir_air_mirror.Ernic.Doorbell.{
  db_index, poll_db, read_rq_pidb_db, read_sq_cidb_db, take_rqe, pcie_ernic_post_recv,
}

-- Only the clock has moved.
abbrev pub Waited : Card → Card → Type 0
Waited c d = (t : ℕ) × (d ≡ record c { clock = t })

module _ (bar : History) where
  -- One of `n + 1` reads of the register from the t-th read on is not `known`.
  abbrev pub Changes : ℕ → ℕ → ℕ → ℕ → Type 0
  Changes zero known a t = (u32 (bar t a) == known) ≡ false
  Changes (suc n) known a t = ((u32 (bar t a) == known) ≡ false) ⊎ Changes n known a (t + 1)

  poll_db-Waited :
      (fuel : ℕ) (qp : Qp) (db_addr known t : ℕ) (c : Card)
      → c.clock ≡ t + 1
      → Changes fuel known (db_index qp db_addr c) t
      → Returns
          (λ _ d. Waited c d)
          (poll_db bar fuel true qp db_addr known (u32 (bar t (db_index qp db_addr c))) c)
  unfolding poll_db
  poll_db-Waited zero qp db_addr known t c e h = rw (h, poll_db) (returns (c.clock, refl))
  poll_db-Waited (suc n) qp db_addr known t c e (inl h) = rw (h, poll_db) (returns (c.clock, refl))
  poll_db-Waited (suc n) qp db_addr known t c e (inr h) =
      elim (Bool-cases (u32 (bar t (db_index qp db_addr c)) == known)) [
        | inl same ↦
            rw (same, poll_db, e)
              (poll_db-Waited n qp db_addr known (t + 1) (record c { clock = t + 1 + 1 }) refl h)
        | inr other ↦ rw (other, poll_db) (returns (c.clock, refl))
      ]

  pub read_sq_cidb_db-Waited :
      (fuel : ℕ) (qp : Qp) (c : Card)
      → Changes fuel qp.sq_cidb (db_index qp cqheadi c) c.clock
      → Returns
          (λ qp' d. (qp' ≡ record qp { sq_cidb = u32 (qp.sq_cidb + 1) }) × Waited c d)
          (read_sq_cidb_db bar fuel qp true c)
  unfolding read_sq_cidb_db
  read_sq_cidb_db-Waited fuel qp c h =
      Returns-and_then
        (poll_db-Waited fuel qp cqheadi qp.sq_cidb c.clock (record c { clock = c.clock + 1 }) refl
          h)
        λ v d w. returns (refl, w)

  pub read_rq_pidb_db-Waited :
      (fuel : ℕ) (qp : Qp) (c : Card)
      → Changes fuel qp.rq_pidb (db_index qp statrqpidbi c) c.clock
      → Returns
          (λ qp' d. (qp' ≡ record qp { rq_pidb = u32 (qp.rq_pidb + 1) }) × Waited c d)
          (read_rq_pidb_db bar fuel qp true c)
  unfolding read_rq_pidb_db
  read_rq_pidb_db-Waited fuel qp c h =
      Returns-and_then
        (poll_db-Waited fuel qp statrqpidbi qp.rq_pidb c.clock (record c { clock = c.clock + 1 })
          refl h)
        λ v d w. returns (refl, w)

-- The `k`-th entry of the receive queue was taken: the two counts are past it, the doorbell has given
-- it back, and nothing else has changed but the clock.
pub record Taken (rq : Buff) (k : ℕ) (qp : Qp) (c : Card) (r : Option ℕ × Qp) (d : Card)
    : Type 0 where
  pub entry : r.0 ≡ some (u64 (rq.buff + k * 256))
  pub counts : r.1 ≡ record qp { rq_pidb = k + 1; rq_cidb = k + 1 }
  pub time : ℕ
  pub card : d ≡ record c { clock = time; log = reg (db_index qp rqcii c) (k + 1) ∷ c.log }

take_rqe-Taken :
    (rq : Buff) (k t : ℕ) (qp : Qp) (c : Card)
    → qp.rq ≡ some rq
    → k < 2 ^ 23
    → Returns (Taken rq k qp c) (take_rqe (record qp { rq_pidb = k + 1 }) (record c { clock = t }))
unfolding take_rqe
take_rqe-Taken rq k t qp c e h =
    let above : (k + 1 == 2 ^ 32 - 1) ≡ false = ground arith in
    let nonzero : (k + 1 == 0) ≡ false = ground arith in
    let small : ltb (2 ^ 23) (k + 1) ≡ false = ground arith in
    rw (take_rqe, above, e, nonzero, small)
      (returns (record {
        entry = ap (λ n. some (u64 (rq.buff + n * 256))) (omega arith);
        counts = refl;
        time = t;
        card = refl;
      }))

module _ (bar : History) where
  -- When the receive doorbell of the card moves within the wait, `pcie_ernic_post_recv` returns with
  -- the entry behind the count it had, for a count below 2^23: the two counts go one further, and the
  -- last thing written is the doorbell that gives the entry back.
  pub pcie_ernic_post_recv-Taken :
      (fuel : ℕ) (rq : Buff) (qp : Qp) (c : Card)
      → qp.rq ≡ some rq
      → qp.rq_pidb < 2 ^ 23
      → Changes bar fuel qp.rq_pidb (db_index qp statrqpidbi c) c.clock
      → Returns (Taken rq qp.rq_pidb qp c) (pcie_ernic_post_recv bar fuel qp c)
  unfolding pcie_ernic_post_recv
  pcie_ernic_post_recv-Taken fuel rq qp c e h w =
      let small : u32 (qp.rq_pidb + 1) ≡ qp.rq_pidb + 1 = omega arith in
      Returns-and_then (read_rq_pidb_db-Waited bar fuel qp c w)
        λ qp' d r. rw (r.0, r.1.1, small) (take_rqe-Taken rq qp.rq_pidb r.1.0 qp c e h)
