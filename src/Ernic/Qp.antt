-- ===== src/Ernic/Qp.antt =====
-- Protection domains and queue pairs: `pcie_ernic_alloc_pd`, `pcie_ernic_create_qp`,
-- `pcie_ernic_free_qp` and `pcie_ernic_free_dev` of runtime_lib/airhost/pcie-ernic.cpp, for a device
-- that is not null.
pub mod Created
pub mod Freed
use mlir_air_mirror.Prelude.{
  ℕ, zero, suc, ◌+◌, ◌/◌, ◌^◌, Bool, true, false, if◌then◌else◌, ◌==◌, ◌&&◌, ltb, u32, field,
  Option, none, some, List, [], ◌∷◌, set,
}
use mlir_air_mirror.Queue.Signal.{History}
use mlir_air_mirror.Ernic.State.{
  Buff, Pd, Qp, Card, Run, ok, fault, out_of_fuel, and_then, M, ◌>>=◌, ◌>>◌, pure, deref, write32,
  read32, out_all,
}
use mlir_air_mirror.Ernic.Registers.{
  ernic_qp_addr, ernic_pd_addr, csr_addr, pdpdnum, num_qps, ipdesaddr1i, macdesaddmsbi,
  macdesaddlsbi, rqbai, rqbamsbi, cqdbaddi, cqdbaddmsbi, rqwptrdbaddi, rqwptrdbaddmsbi, cqbai,
  cqbamsbi, destqpconfi, qdepthi, sqbai, sqbamsbi, qpconfi, sqpsni, lstrqreqi, qpadvconfi, statqpi,
  statmsni, pdi, cqheadi, sqpii, rqcii, statrqpidbi, statcursqptri, statmsn, xrnicadconf,
}
use mlir_air_mirror.Ernic.Buffer.{pcie_ernic_malloc}

unfoldable pub pcie_ernic_alloc_pd : ℕ → M Pd
pcie_ernic_alloc_pd pd_num c =
    and_then (write32 (ernic_pd_addr pd_num (u32 (pdpdnum + c.axil_bar_offset))) pd_num c)
      λ u d. ok (record { pd_num = pd_num; mr = none }) d

-- The arguments of `pcie_ernic_create_qp` besides the device and the domain.
pub record Peer : Type 0 where
  pub qpid : ℕ
  pub dest_qpid : ℕ
  pub qdepth : ℕ
  pub dest_ip : ℕ
  pub dest_mac_msb : ℕ
  pub dest_mac_lsb : ℕ
  pub enable_cq : Bool

abbrev pub new_qp : Peer → Option Pd → Option Buff → Option Buff → Option Buff → Option Buff → Qp
new_qp p pd sq cq rq dbs = record {
  sq = sq;
  sq_pidb = 0;
  sq_cidb = 0;
  cq = cq;
  cq_pidb = 0;
  cq_cidb = 0;
  rq = rq;
  rq_pidb = 0;
  rq_cidb = 0;
  pd = pd;
  dev_written_dbs = dbs;
  qpid = p.qpid;
  dest_qpid = p.dest_qpid;
  dest_ip = p.dest_ip;
  dest_mac_msb = p.dest_mac_msb;
  dest_mac_lsb = p.dest_mac_lsb;
  qdepth = p.qdepth;
  enable_cq = p.enable_cq;
}

-- `(uint32_t)(pa >> 32)`.
abbrev pub high_word : ℕ → ℕ
high_word pa = u32 (pa / 2 ^ 32)

abbrev pub pd_config : Option Pd → List (ℕ × ℕ)
pd_config none = []
pd_config (some pd) = (pdi, pd.pd_num) ∷ []

-- The registers of the queue pair with their values, in the order of the writes.
abbrev pub qp_config : Peer → Option Pd → Buff → Buff → Buff → Buff → List (ℕ × ℕ)
qp_config p pd sq cq rq dbs =
    (ipdesaddr1i, p.dest_ip)
    ∷ (macdesaddmsbi, p.dest_mac_msb)
    ∷ (macdesaddlsbi, p.dest_mac_lsb)
    ∷ (rqbai, u32 rq.pa)
    ∷ (rqbamsbi, high_word rq.pa)
    ∷ (cqdbaddi, u32 dbs.pa)
    ∷ (cqdbaddmsbi, high_word dbs.pa)
    ∷ (rqwptrdbaddi, u32 (dbs.pa + 4))
    ∷ (rqwptrdbaddmsbi, high_word dbs.pa)
    ∷ (cqbai, u32 cq.pa)
    ∷ (cqbamsbi, high_word cq.pa)
    ∷ (destqpconfi, p.dest_qpid)
    ∷ (qdepthi, p.qdepth)
    ∷ (sqbai, u32 sq.pa)
    ∷ (sqbamsbi, high_word sq.pa)
    ∷ (qpconfi, (if p.enable_cq then 0x10437 else 0x10417))
    ∷ (sqpsni, 0xa02aaa)
    ∷ (lstrqreqi, 0x4a02aa9)
    ∷ (qpadvconfi, 0x9bf1b002)
    ∷ (statqpi, 0x70000600)
    ∷ (statmsni, 0x4e503b)
    ∷ pd_config pd

-- `dev->axil_bar[ERNIC_QP_ADDR(qpid, addr + dev->axil_bar_offset)] = value` for each pair.
abbrev pub out_qp : ℕ → List (ℕ × ℕ) → M (Unit {0})
out_qp qpid ws c = out_all (λ addr. ernic_qp_addr qpid (u32 (addr + c.axil_bar_offset))) ws c

-- `dev->qps[qpid] = qp`.
abbrev pub put_qp : Qp → M (Unit {0})
put_qp qp c =
    if ltb qp.qpid num_qps then ok tt (record c { qps = set c.qps qp.qpid (some qp) }) else fault

abbrev pub page : ℕ
page = 4096

-- `junk` is what fresh memory holds.
unfoldable pub pcie_ernic_create_qp : ℕ → Option Pd → Peer → Bool → M (Option Qp)
pcie_ernic_create_qp junk pd p on_device = if p.qpid == 1 then pure none else do
  sq ← pcie_ernic_malloc junk page on_device
  cq ← pcie_ernic_malloc junk page on_device
  rq ← pcie_ernic_malloc junk page on_device
  dbs ← pcie_ernic_malloc junk page on_device
  let qp = new_qp p pd sq cq rq dbs
  put_qp qp
  rq' ← deref rq
  dbs' ← deref dbs
  cq' ← deref cq
  sq' ← deref sq
  out_qp p.qpid (qp_config p pd sq' cq' rq' dbs')
  pure (some qp)

-- The registers that are reset, in order.
abbrev pub reset_config : List (ℕ × ℕ)
reset_config =
    (rqwptrdbaddi, 0)
    ∷ (rqwptrdbaddmsbi, 0)
    ∷ (sqpii, 0)
    ∷ (cqheadi, 0)
    ∷ (rqcii, 0)
    ∷ (statrqpidbi, 0)
    ∷ (statcursqptri, 0)
    ∷ (sqpsni, 0)
    ∷ (lstrqreqi, 0)
    ∷ (statmsn, 0)
    ∷ (qpconfi, 0)
    ∷ []

abbrev pub set_override : ℕ → M (Unit {0})
set_override v c = write32 (csr_addr (xrnicadconf + c.axil_bar_offset)) v c

-- Both queues are empty: bits 9 and 10 of the status.
abbrev pub is_drained : ℕ → Bool
is_drained status = (field status 9 1 == 1) && (field status 10 1 == 1)

module _ (bar : History) where
  abbrev pub read_qp : ℕ → ℕ → M ℕ
  read_qp qpid addr c = read32 bar (ernic_qp_addr qpid (u32 (addr + c.axil_bar_offset))) c

  -- The first loop, after a read of `status`, on fuel.
  unfoldable pub wait_empty : ℕ → ℕ → ℕ → M (Unit {0})
  wait_empty zero qpid status c = elim (is_drained status) [ true ↦ ok tt c | false ↦ out_of_fuel ]
  wait_empty (suc fuel) qpid status c =
      let next = read_qp qpid statqpi c in
      elim (is_drained status) [
        | true ↦ ok tt c
        | false ↦ and_then next (λ s c'. wait_empty fuel qpid s c')
      ]

  -- The second loop, which reads the two counts in each round.
  unfoldable pub wait_completed : ℕ → ℕ → M (Unit {0})
  wait_completed zero qpid c = out_of_fuel
  wait_completed (suc fuel) qpid c =
      let posted = u32 (bar c.clock (ernic_qp_addr qpid (u32 (sqpii + c.axil_bar_offset)))) in
      let done = u32 (bar (c.clock + 1) (ernic_qp_addr qpid (u32 (cqheadi + c.axil_bar_offset)))) in
      let c' = record c { clock = c.clock + 2 } in
      elim (posted == done) [ true ↦ ok tt c' | false ↦ wait_completed fuel qpid c' ]

  -- For a queue pair that is not null. (The buffers are in device memory, which is never given back.)
  unfoldable pub pcie_ernic_free_qp : ℕ → Qp → M (Unit {0})
  pcie_ernic_free_qp fuel qp = do
    status ← read_qp qp.qpid statqpi
    wait_empty fuel qp.qpid status
    wait_completed fuel qp.qpid
    set_override 1
    out_qp qp.qpid reset_config
    set_override 0

  -- The loop of `pcie_ernic_free_dev` over the slots.
  unfoldable pub free_qps : ℕ → List (Option Qp) → M (Unit {0})
  free_qps fuel [] = pure tt
  free_qps fuel (none ∷ qps) = free_qps fuel qps
  free_qps fuel (some qp ∷ qps) = pcie_ernic_free_qp fuel qp >> free_qps fuel qps
