-- ===== src/Ernic/Tests.antt =====
-- A card with device memory, a queue pair, and the runs of the calls.
mod Network
use mathlib.Core.Option.{some-injective}
use mathlib.Core.Path.{subst}
use mlir_air_mirror.Prelude.{
  ℕ, ◌+◌, ◌/◌, ◌-◌, ◌*◌, ◌^◌, ◌<◌, ◌≡◌, refl, sym, ap, ◌∙◌, arith, inl, inr, Bool, true, false,
  ◌==◌, ltb, if◌then◌else◌, u32, Option, none, some, List, [], ◌∷◌,
}
use mlir_air_mirror.Queue.Signal.{History}
use mlir_air_mirror.Host.DevMem.{Allocator}
use mlir_air_mirror.Ernic.State.{
  Buff, pd_read_write, other_access, Mr, Pd, Qp, Card, Run, ok, fault, out_of_fuel, Write, reg, mem,
  Returns,
}
use mlir_air_mirror.Ernic.Buffer.Page.{HasRoom, page_at, next_page}
use mlir_air_mirror.Ernic.Log.{fetch, regs}
use mlir_air_mirror.Ernic.Qp.{Peer, pcie_ernic_create_qp, pcie_ernic_free_qp}
use mlir_air_mirror.Ernic.Qp.Created.{QpCreated, pcie_ernic_create_qp-QpCreated}
use mlir_air_mirror.Ernic.Qp.Freed.{Freed, pcie_ernic_free_qp-Freed}
use mlir_air_mirror.Ernic.Region.{mr_config, pcie_ernic_reg_mr}
use mlir_air_mirror.Ernic.Region.Extends.{both}
use mlir_air_mirror.Ernic.Region.Row.{
  pd_register, Row, InStep, Registered, pcie_ernic_reg_mr-Registered,
}
use mlir_air_mirror.Ernic.Doorbell.{pcie_ernic_post_recv}
use mlir_air_mirror.Ernic.Doorbell.Arrives.{Taken, pcie_ernic_post_recv-Taken}
use mlir_air_mirror.Ernic.Wqe.{Request, pcie_ernic_post_wqe, wqe_address}
use mlir_air_mirror.Ernic.Wqe.Posted.{Posted, pcie_ernic_post_wqe-Posted}
use mlir_air_mirror.Ernic.Mac.{do_configure_mrmac}
use mlir_air_mirror.Ernic.Mac.Ends.{FirstDone, Verdict, do_configure_mrmac-Verdict}
use mlir_air_mirror.Ernic.Advertise.{Received, pcie_ernic_reg_adv, pcie_ernic_recv_buff}
use mlir_air_mirror.Ernic.Advertise.Sent.{Advertised}
use mlir_air_mirror.Ernic.Advertise.Carried.{CanSend, pcie_ernic_reg_adv-Advertised}
use mlir_air_mirror.Ernic.Advertise.RoundTrip.{CanReceive, Delivers}

abbrev pub sample_allocator : Allocator
sample_allocator = record {
  dev_mem = 0x10000;
  dev_mem_ptr = 0x1000;
  dev_mem_size = 0x8000;
  partition_offset = 0;
  global_offset = 0x800000;
}

abbrev no_qps : List (Option Qp)
no_qps =
    none ∷ none ∷ none ∷ none ∷ none ∷ none ∷ none ∷ none ∷ none ∷ none ∷ none ∷ none ∷ none ∷ none
    ∷ none ∷ none ∷ []

abbrev pub sample_card : Card
sample_card = record {
  clock = 0;
  log = [];
  allocator = sample_allocator;
  qps = no_qps;
  axil_bar_offset = 0x60000;
}

abbrev sample_peer : Peer
sample_peer = record {
  qpid = 2;
  dest_qpid = 3;
  qdepth = 8;
  dest_ip = 0xf38590ba;
  dest_mac_msb = 0x2f76;
  dest_mac_lsb = 0x17dc5e9a;
  enable_cq = true;
}

abbrev pub queue_page : Buff
queue_page = record { buff = 0x10000; pa = 0x800000; size = 4096; on_device = true }

abbrev pub data_page : Buff
data_page = record { buff = 0x14000; pa = 0x804000; size = 4096; on_device = true }

abbrev pub sample_pd : Pd
sample_pd = record { pd_num = 0; mr = none }

abbrev pub sample_qp : Qp
sample_qp = record {
  sq = some queue_page;
  sq_pidb = 0;
  sq_cidb = 0;
  cq = some queue_page;
  cq_pidb = 0;
  cq_cidb = 0;
  rq = some queue_page;
  rq_pidb = 0;
  rq_cidb = 0;
  pd = some sample_pd;
  dev_written_dbs = some queue_page;
  qpid = 2;
  dest_qpid = 3;
  dest_ip = 0;
  dest_mac_msb = 0;
  dest_mac_lsb = 0;
  qdepth = 8;
  enable_cq = true;
}

-- Every register reads as v.
abbrev pub always : ℕ → History
always v t a = v

-- Host memory is not supported, but the queue pair is made all the same.
create_qp_host_test : pcie_ernic_create_qp 0 none sample_peer false sample_card ≡ fault
unfolding pcie_ernic_create_qp mlir_air_mirror.Ernic.Buffer.pcie_ernic_malloc
create_qp_host_test = refl

sample_HasRoom : HasRoom 4 sample_allocator
sample_HasRoom = record {
  room = omega arith;
  mapped = omega arith;
  virtual = omega arith;
  physical = omega arith;
}

pcie_ernic_create_qp-QpCreated_example :
    Returns
      (QpCreated (some sample_pd) sample_peer sample_card)
      (pcie_ernic_create_qp 0 (some sample_pd) sample_peer true sample_card)
pcie_ernic_create_qp-QpCreated_example =
    pcie_ernic_create_qp-QpCreated 0 (some sample_pd) sample_peer sample_card (omega arith)
      (omega arith) (omega arith) refl sample_HasRoom

pcie_ernic_free_qp-Freed_example :
    Returns
      (λ _ d. Freed (always 0x600) 2 sample_card d)
      (pcie_ernic_free_qp (always 0x600) 1 sample_qp sample_card)
pcie_ernic_free_qp-Freed_example =
    pcie_ernic_free_qp-Freed (always 0x600) 1 sample_qp sample_card
      (omega arith, omega arith, omega arith) (inl (refl, refl)) (λ t. inl refl)

abbrev sample_mr : Mr
sample_mr = record { buff = queue_page; key = 5; length = 4096; flags = pd_read_write }

-- The domain has a region already, and the page behind it comes to it.
abbrev region_pd : Pd
region_pd = record sample_pd { mr = some sample_mr }

abbrev region_card : Card
region_card = record sample_card {
  log = regs (pd_register 0x60000 0) (mr_config queue_page 5 4096 2) [];
}

abbrev next_buff : Buff
next_buff = record { buff = 0x11000; pa = 0x801000; size = 4096; on_device = true }

region_InStep : InStep 0x60000 region_pd region_card.log
unfolding mlir_air_mirror.Ernic.Registers.ernic_pd_addr
region_InStep mr e =
    subst (λ m. Row 0x60000 0 m region_card.log) (some-injective _ _ e)
      (2, both, (refl, (refl, (refl, (refl, (refl, (refl, (refl, tt))))))))

pcie_ernic_reg_mr-Registered_example :
    Returns
      (Registered region_pd (some next_buff) 5 4096 pd_read_write region_card)
      (pcie_ernic_reg_mr (some region_pd) (some next_buff) 5 4096 pd_read_write region_card)
pcie_ernic_reg_mr-Registered_example =
    pcie_ernic_reg_mr-Registered region_pd (some next_buff) 5 4096 pd_read_write region_card
      (omega arith) (omega arith) region_InStep

do_configure_mrmac-Verdict_example :
    Returns
      (λ b d.
        (r : ℕ) × FirstDone (always 0xff) (0x2008 / 4) 1 r
        × Verdict (always 0xff) 20 0x1000 (r + 1) b d)
      (do_configure_mrmac (always 0xff) 1 0x1000 0x2000 sample_card)
do_configure_mrmac-Verdict_example =
    do_configure_mrmac-Verdict (always 0xff) 1 0x1000 0x2000 sample_card (inl refl)

abbrev sample_request : Request
sample_request = record {
  wrid = 0x12345;
  laddr = 0x100802000;
  length = 256;
  op = 4;
  offset = 0x300000000;
  rtag = 9;
}

pcie_ernic_post_wqe-Posted_example :
    Returns
      (Posted queue_page sample_request sample_qp sample_card)
      (pcie_ernic_post_wqe (always 7) 0 sample_qp sample_request true sample_card)
pcie_ernic_post_wqe-Posted_example =
    pcie_ernic_post_wqe-Posted (always 7) 0 queue_page sample_qp sample_request sample_card refl
      refl (λ t. refl)
