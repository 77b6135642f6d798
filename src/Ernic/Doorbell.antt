-- ===== src/Ernic/Doorbell.antt =====
-- The doorbells of runtime_lib/airhost/pcie-ernic.cpp and `pcie_ernic_post_recv`, for a device that is
-- not null. A doorbell count is a uint32_t; an int that stands for one is taken modulo 2^32, so that
-- -1 is 2^32 - 1.
pub mod Arrives
use mlir_air_mirror.Prelude.{
  ℕ, zero, suc, ◌+◌, ◌-◌, ◌*◌, ◌^◌, Bool, true, false, if◌then◌else◌, ◌==◌, ltb, u32, u64, Option,
  none, some,
}
use mlir_air_mirror.Queue.Signal.{History}
use mlir_air_mirror.Ernic.State.{
  Qp, Card, Run, ok, out_of_fuel, M, ◌>>=◌, ◌>>◌, pure, undefined, deref, read32, write32,
}
use mlir_air_mirror.Ernic.Registers.{ernic_qp_addr, statrqpidbi, cqheadi, rqcii, sqpii, rqe_size}

-- The index that `read_db_axil` and `write_db_axil` compute.
abbrev pub db_index : Qp → ℕ → Card → ℕ
db_index qp db_addr c = ernic_qp_addr qp.qpid (u32 (db_addr + c.axil_bar_offset))

-- `write_db_axil`, for a queue pair that is not null.
unfoldable pub write_db_axil : Qp → ℕ → ℕ → M (Unit {0})
write_db_axil qp db_val db_addr c = write32 (db_index qp db_addr c) db_val c

unfoldable pub write_rq_cidb_db : Qp → ℕ → M Qp
write_rq_cidb_db qp db_val = do
  let qp' = record qp { rq_cidb = db_val }
  write_db_axil qp' db_val rqcii
  pure qp'

unfoldable pub write_sq_pidb_db : Qp → ℕ → M Qp
write_sq_pidb_db qp db_val = do
  let qp' = record qp { sq_pidb = db_val }
  write_db_axil qp' db_val sqpii
  pure qp'

-- The next doorbell of a caller that polls counts on from the last one, else it is what was read.
abbrev pub next_count : Bool → ℕ → ℕ → ℕ
next_count poll known db_count = if poll then u32 (known + 1) else db_count

-- The byte offset of the entry before `rq_pidb` in the receive queue; the product is an int, which
-- C++ defines up to 2^31.
abbrev pub rqe_offset : ℕ → ℕ → M ℕ
rqe_offset qdepth rq_pidb =
    if rq_pidb == 0
    then pure (u32 (u32 (qdepth + (2 ^ 32 - 1)) * rqe_size))
    else if ltb (2 ^ 23) rq_pidb
    then undefined
    else pure ((rq_pidb - 1) * rqe_size)

-- The second half of `pcie_ernic_post_recv`: the entry that arrived, and the doorbell that gives it
-- back.
unfoldable pub take_rqe : Qp → M (Option ℕ × Qp)
unfolding write_rq_cidb_db write_db_axil
take_rqe qp = if qp.rq_pidb == 2 ^ 32 - 1 then pure (none, qp) else do
  rq ← deref qp.rq
  offset ← rqe_offset qp.qdepth qp.rq_pidb
  qp' ← write_rq_cidb_db qp qp.rq_pidb
  pure (some (u64 (rq.buff + offset)), qp')

module _ (bar : History) where
  -- `read_db_axil`, for a queue pair that is not null.
  unfoldable pub read_db_axil : Qp → ℕ → M ℕ
  read_db_axil qp db_addr c = read32 bar (db_index qp db_addr c) c

  -- The loop `while (poll && db_count == known)` of both functions below, after a read of `db_count`,
  -- on fuel for the reads in it.
  unfoldable pub poll_db : ℕ → Bool → Qp → ℕ → ℕ → ℕ → M ℕ
  poll_db fuel false qp db_addr known db_count c = ok db_count c
  poll_db zero true qp db_addr known db_count c = elim (db_count == known) [
    | true ↦ out_of_fuel
    | false ↦ ok db_count c
  ]
  poll_db (suc fuel) true qp db_addr known db_count c =
      let next = u32 (bar c.clock (db_index qp db_addr c)) in
      elim (db_count == known) [
        | true ↦ poll_db fuel true qp db_addr known next (record c { clock = c.clock + 1 })
        | false ↦ ok db_count c
      ]

  -- The result is `qp` with the count that C++ returns.
  unfoldable pub read_rq_pidb_db : ℕ → Qp → Bool → M Qp
  unfolding read_db_axil
  read_rq_pidb_db fuel qp poll = do
    first ← read_db_axil qp statrqpidbi
    db_count ← poll_db fuel poll qp statrqpidbi qp.rq_pidb first
    pure (record qp { rq_pidb = next_count poll qp.rq_pidb db_count })

  unfoldable pub read_sq_cidb_db : ℕ → Qp → Bool → M Qp
  unfolding read_db_axil
  read_sq_cidb_db fuel qp poll = do
    first ← read_db_axil qp cqheadi
    db_count ← poll_db fuel poll qp cqheadi qp.sq_cidb first
    pure (record qp { sq_cidb = next_count poll qp.sq_cidb db_count })

  -- The pointer to the entry, none for NULL. (The flush of the cache is no state of the model.)
  unfoldable pub pcie_ernic_post_recv : ℕ → Qp → M (Option ℕ × Qp)
  unfolding read_rq_pidb_db take_rqe
  pcie_ernic_post_recv fuel qp = do qp' ← read_rq_pidb_db fuel qp true; take_rqe qp'
