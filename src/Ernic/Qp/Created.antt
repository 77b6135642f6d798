-- ===== src/Ernic/Qp/Created.antt =====
-- What `pcie_ernic_create_qp` leaves on the card.
use mathlib.Core.Option.{some-injective, none-ne-some}
use mlir_air_mirror.Prelude.{
  ℕ, ◌+◌, ◌/◌, ◌^◌, ◌≤◌, ◌<◌, ◌≡◌, refl, arith, true, false, ◌==◌, ltb, u32, distinct, Option, some,
  none, List, Bool, if◌then◌else◌, ap, ◌∙◌, ◌*◌, ◌%◌, map, length, get_elem?, get_elem?-set_self,
}
use mlir_air_mirror.Host.DevMem.{Allocator}
use mlir_air_mirror.Ernic.State.{Pd, Qp, Card, Write, Returns, returns}
use mlir_air_mirror.Ernic.Registers.{ernic_qp_addr, num_qps}
use mlir_air_mirror.Ernic.Registers.Window.{
  is_per_queue, all_per_queue, Fits, distinct-keys, elem-keys_other,
}
use mlir_air_mirror.Ernic.Log.{last_reg, out_all-regs, Holds, regs-Holds, last_reg-regs_other}
use mlir_air_mirror.Ernic.Buffer.Page.{
  HasRoom, page_at, next_page, HasRoom-next_page, pcie_ernic_malloc-page_at,
}
use mlir_air_mirror.Ernic.Qp.{Peer, qp_config, pcie_ernic_create_qp}

abbrev pub qp_register : ℕ → ℕ → ℕ → ℕ
qp_register off qpid addr = ernic_qp_addr qpid (u32 (addr + off))

-- The queue pair with the pages from the allocator's pointer on, in the order of the allocations.
abbrev pub paged_qp : Peer → Option Pd → Allocator → Qp
paged_qp p pd a = record {
  sq = some (page_at a);
  sq_pidb = 0;
  sq_cidb = 0;
  cq = some (page_at (next_page a));
  cq_pidb = 0;
  cq_cidb = 0;
  rq = some (page_at (next_page (next_page a)));
  rq_pidb = 0;
  rq_cidb = 0;
  pd = pd;
  dev_written_dbs = some (page_at (next_page (next_page (next_page a))));
  qpid = p.qpid;
  dest_qpid = p.dest_qpid;
  dest_ip = p.dest_ip;
  dest_mac_msb = p.dest_mac_msb;
  dest_mac_lsb = p.dest_mac_lsb;
  qdepth = p.qdepth;
  enable_cq = p.enable_cq;
}

abbrev pub paged_config : Peer → Option Pd → Allocator → List (ℕ × ℕ)
paged_config p pd a =
    qp_config p pd (page_at a) (page_at (next_page a)) (page_at (next_page (next_page a)))
      (page_at (next_page (next_page (next_page a))))

-- The address on the card of the byte `i` of the page number `n` from the allocator's pointer on.
abbrev pub page_byte : Allocator → ℕ → ℕ → ℕ
page_byte a n i = a.dev_mem_ptr + a.partition_offset + a.global_offset + 4096 * n + i

abbrev pub low_word : ℕ → ℕ
low_word x = x % 2 ^ 32

abbrev pub top_word : ℕ → ℕ
top_word x = x / 2 ^ 32 % 2 ^ 32

-- What the card is to find of a queue pair, by the offsets of the registers: the peer's address and the
-- queue pair it talks to; the pages of the send, completion and receive queues (numbers 0, 1 and 2), in
-- two words each; in page 3 the doorbells of the completion queue and, four bytes on, of the receive
-- queue; the depth; the configuration, whose bit 5 enables the completion queue; and the domain.
pub record Programmed (off : ℕ) (pd : Option Pd) (p : Peer) (a : Allocator) (log : List Write)
    : Type 0 where
  pub dest_ip : last_reg log (qp_register off p.qpid 0x20260) ≡ some p.dest_ip
  pub dest_mac_msb : last_reg log (qp_register off p.qpid 0x20254) ≡ some p.dest_mac_msb
  pub dest_mac_lsb : last_reg log (qp_register off p.qpid 0x20250) ≡ some p.dest_mac_lsb
  pub dest_qpid : last_reg log (qp_register off p.qpid 0x20248) ≡ some p.dest_qpid
  pub sq_low : last_reg log (qp_register off p.qpid 0x20210) ≡ some (low_word (page_byte a 0 0))
  pub sq_high : last_reg log (qp_register off p.qpid 0x202c8) ≡ some (top_word (page_byte a 0 0))
  pub cq_low : last_reg log (qp_register off p.qpid 0x20218) ≡ some (low_word (page_byte a 1 0))
  pub cq_high : last_reg log (qp_register off p.qpid 0x202d0) ≡ some (top_word (page_byte a 1 0))
  pub rq_low : last_reg log (qp_register off p.qpid 0x20208) ≡ some (low_word (page_byte a 2 0))
  pub rq_high : last_reg log (qp_register off p.qpid 0x202c0) ≡ some (top_word (page_byte a 2 0))
  pub cq_doorbell :
      last_reg log (qp_register off p.qpid 0x20228) ≡ some (low_word (page_byte a 3 0))
  pub cq_doorbell_high :
      last_reg log (qp_register off p.qpid 0x2022c) ≡ some (top_word (page_byte a 3 0))
  pub rq_doorbell :
      last_reg log (qp_register off p.qpid 0x20220) ≡ some (low_word (page_byte a 3 4))
  pub rq_doorbell_high :
      last_reg log (qp_register off p.qpid 0x20224) ≡ some (top_word (page_byte a 3 0))
  pub qdepth : last_reg log (qp_register off p.qpid 0x2023c) ≡ some p.qdepth
  pub config :
      last_reg log (qp_register off p.qpid 0x20200)
      ≡ some (0x10417 + (if p.enable_cq then 2 ^ 5 else 0))
  pub domain :
      (d : Pd) → pd ≡ some d → last_reg log (qp_register off p.qpid 0x202b0) ≡ some d.pd_num

-- A queue pair was created: it is the answer and in its slot, its registers describe it, and no register of another queue pair has changed.
pub record QpCreated (pd : Option Pd) (p : Peer) (c : Card) (r : Option Qp) (d : Card)
    : Type 0 where
  pub answer : r ≡ some (paged_qp p pd c.allocator)
  pub slot : get_elem? d.qps p.qpid ≡ some r
  pub registers : Programmed c.axil_bar_offset pd p c.allocator d.log
  pub others :
      (q addr : ℕ)
      → Fits c.axil_bar_offset q
      → (q == p.qpid) ≡ false
      → is_per_queue addr ≡ true
      → last_reg d.log (qp_register c.axil_bar_offset q addr)
        ≡ last_reg c.log (qp_register c.axil_bar_offset q addr)

domain_lem :
    (off : ℕ) (pd : Option Pd) (p : Peer) (a : Allocator) (log : List Write)
    → Holds (qp_register off p.qpid) (paged_config p pd a) log
    → (d : Pd) → pd ≡ some d
    → last_reg log (qp_register off p.qpid 0x202b0) ≡ some d.pd_num
domain_lem off none p a log h d e = absurd (none-ne-some d e)
domain_lem off (some pd) p a log
      (
        e1,
        (
          e2,
          (
            e3,
            (
              e4,
              (
                e5,
                (
                  e6,
                  (
                    e7,
                    (
                      e8,
                      (
                        e9,
                        (
                          e10,
                          (
                            e11,
                            (
                              e12,
                              (
                                e13,
                                (e14, (e15, (e16, (e17, (e18, (e19, (e20, (e21, (e22, rest))))))))),
                              ),
                            ),
                          ),
                        ),
                      ),
                    ),
                  ),
                ),
              ),
            ),
          ),
        ),
      )
      d e =
    e22 ∙ ap (λ x. some x.pd_num) (some-injective _ _ e)

-- The configuration has each register of the description once, with that value.
config-Programmed :
    (off : ℕ) (pd : Option Pd) (p : Peer) (a : Allocator) (log : List Write)
    → Holds (qp_register off p.qpid) (paged_config p pd a) log
    → Programmed off pd p a log
config-Programmed off pd p a log
      (
        e1,
        (
          e2,
          (
            e3,
            (
              e4,
              (e5, (e6, (e7, (e8, (e9, (e10, (e11, (e12, (e13, (e14, (e15, (e16, rest)))))))))))),
            ),
          ),
        ),
      ) =
    record {
      dest_ip = e1;
      dest_mac_msb = e2;
      dest_mac_lsb = e3;
      rq_low = e4 ∙ ap some (omega arith);
      rq_high = e5 ∙ ap some (omega arith);
      cq_doorbell = e6 ∙ ap some (omega arith);
      cq_doorbell_high = e7 ∙ ap some (omega arith);
      rq_doorbell = e8 ∙ ap some (omega arith);
      rq_doorbell_high = e9 ∙ ap some (omega arith);
      cq_low = e10 ∙ ap some (omega arith);
      cq_high = e11 ∙ ap some (omega arith);
      dest_qpid = e12;
      qdepth = e13;
      sq_low = e14 ∙ ap some (omega arith);
      sq_high = e15 ∙ ap some (omega arith);
      config = e16 ∙ ap some (config_lem p.enable_cq);
      domain = domain_lem off pd p a log (
        e1,
        (
          e2,
          (
            e3,
            (
              e4,
              (e5, (e6, (e7, (e8, (e9, (e10, (e11, (e12, (e13, (e14, (e15, (e16, rest)))))))))))),
            ),
          ),
        ),
      );
    }
  where
    config_lem : (b : Bool) → (if b then 0x10437 else 0x10417) ≡ 0x10417 + (if b then 2 ^ 5 else 0)
    config_lem true = refl
    config_lem false = refl

paged_config-per_queue :
    (p : Peer) (pd : Option Pd) (a : Allocator) → all_per_queue (paged_config p pd a) ≡ true
paged_config-per_queue p none a = refl
paged_config-per_queue p (some pd) a = refl

paged_config-distinct :
    (p : Peer) (pd : Option Pd) (a : Allocator)
    → distinct (map (λ w. w.0 / 4) (paged_config p pd a)) ≡ true
paged_config-distinct p none a = refl
paged_config-distinct p (some pd) a = refl

-- For a queue pair with an id from 2 to 15 and room for its four pages of device memory,
-- `pcie_ernic_create_qp` returns a queue pair whose queues and doorbells are four pages one behind the
-- other. The queue pair is in its slot. Its registers on the card name the peer, the depth, the pages of
-- the queues and the doorbells as two words each, the configuration and the domain, and the registers
-- of the other queue pairs are as they were.
pub pcie_ernic_create_qp-QpCreated :
    (junk : ℕ) (pd : Option Pd) (p : Peer) (c : Card)
    → 2 ≤ p.qpid
    → p.qpid < 16
    → c.axil_bar_offset + 0x21400 < 2 ^ 32
    → length c.qps ≡ 16
    → HasRoom 4 c.allocator
    → Returns (QpCreated pd p c) (pcie_ernic_create_qp junk pd p true c)
unfolding pcie_ernic_create_qp
pcie_ernic_create_qp-QpCreated junk pd p c low high off slots room =
    let a : Allocator = c.allocator in
    let room3 : HasRoom 3 (next_page a) = HasRoom-next_page 3 a room in
    let room2 : HasRoom 2 (next_page (next_page a)) = HasRoom-next_page 2 (next_page a) room3 in
    let room1 : HasRoom 1 (next_page (next_page (next_page a))) =
      HasRoom-next_page 1 (next_page (next_page a)) room2 in
    let user : (p.qpid == 1) ≡ false = ground arith in
    let inside : ltb p.qpid num_qps ≡ true = ground arith in
    let fits : Fits c.axil_bar_offset p.qpid = (omega arith, omega arith, off) in
    rw
      (
        pcie_ernic_create_qp,
        user,
        pcie_ernic_malloc-page_at 3 junk c room,
        pcie_ernic_malloc-page_at 2 junk (record c { allocator = next_page a }) room3,
        pcie_ernic_malloc-page_at 1 junk (record c { allocator = next_page (next_page a) }) room2,
        pcie_ernic_malloc-page_at 0 junk
            (record c { allocator = next_page (next_page (next_page a)) }) room1,
        inside,
        out_all-regs,
      )
      (returns (record {
        answer = refl;
        slot = get_elem?-set_self c.qps p.qpid _ (omega (arith, slots));
        registers = config-Programmed c.axil_bar_offset pd p a _ (
            regs-Holds (qp_register c.axil_bar_offset p.qpid) (paged_config p pd a) c.log (
              distinct-keys c.axil_bar_offset p.qpid (paged_config p pd a) fits
                (paged_config-per_queue p pd a) (paged_config-distinct p pd a)));
        others = λ q addr f n h.
            last_reg-regs_other (qp_register c.axil_bar_offset p.qpid) (paged_config p pd a) c.log
              (qp_register c.axil_bar_offset q addr)
              (elem-keys_other c.axil_bar_offset q p.qpid addr (paged_config p pd a) f fits n h
                (paged_config-per_queue p pd a));
      }))
