-- ===== src/Ernic/Advertise.antt =====
-- How two hosts tell each other of a buffer: `pcie_ernic_reg_adv` and `pcie_ernic_recv_buff` of
-- runtime_lib/airhost/pcie-ernic.cpp, for a device that is not null.
pub mod Sent
pub mod Carried
pub mod RoundTrip
use mlir_air_mirror.Prelude.{
  ℕ, ◌+◌, ◌/◌, ◌^◌, Bool, true, if◌then◌else◌, ◌==◌, u32, Option, none, some,
}
use mlir_air_mirror.Queue.Signal.{History}
use mlir_air_mirror.Ernic.State.{
  Buff, Access, Pd, Qp, ok, M, ◌>>=◌, ◌>>◌, pure, undefined, deref, store32, load32, load64,
}
use mlir_air_mirror.Ernic.Registers.{op_send}
use mlir_air_mirror.Ernic.Buffer.{pcie_ernic_malloc}
use mlir_air_mirror.Ernic.Qp.{high_word}
use mlir_air_mirror.Ernic.Region.{pcie_ernic_reg_mr}
use mlir_air_mirror.Ernic.Wqe.{Request, pcie_ernic_post_wqe}
use mlir_air_mirror.Ernic.Doorbell.{pcie_ernic_post_recv}

-- A buffer of a page whose pointer is followed: a store through a null pointer is not defined.
abbrev pub new_message : ℕ → M Buff
new_message junk = do
  b ← pcie_ernic_malloc junk 4096 true
  buff ← deref b
  if buff.buff == 0 then undefined else pure buff

-- `*(uint64_t *)p = v`, low word first.
abbrev pub store64 : ℕ → ℕ → M (Unit {0})
store64 p v = store32 p (u32 v) >> store32 (p + 4) (high_word v)

-- The SEND of a message.
abbrev pub send_request : Buff → Request
send_request b = record {
  wrid = 0xe0a6;
  laddr = b.pa;
  length = 0x100;
  op = op_send;
  offset = 0;
  rtag = 0;
}

-- What a caller finds: the queue pair with its counts and its domain.
module _ (bar : History) where
  -- After the region is registered: two messages, the key and the address.
  unfoldable pub advertise : ℕ → ℕ → Qp → ℕ → ℕ → M Qp
  advertise fuel junk qp key vaddr = do
    rkey_buff ← new_message junk
    store32 rkey_buff.buff key
    vaddr_buff ← new_message junk
    store64 vaddr_buff.buff vaddr
    sent ← pcie_ernic_post_wqe bar fuel qp (send_request rkey_buff) true
    if sent.0 == 0 then pure sent.1 else do
      again ← pcie_ernic_post_wqe bar fuel sent.1 (send_request vaddr_buff) true
      pure again.1

  abbrev pub adv_in : ℕ → ℕ → Buff → Qp → ℕ → ℕ → Access → Option Pd → M Qp
  adv_in fuel junk buff qp key length flags none = pure qp
  adv_in fuel junk buff qp key length flags (some pd) = do
    r ← pcie_ernic_reg_mr (some pd) (some buff) key length flags
    advertise fuel junk (record qp { pd = r.1 }) key buff.buff

  -- For a queue pair that is not null.
  unfoldable pub pcie_ernic_reg_adv : ℕ → ℕ → Option Buff → Qp → ℕ → ℕ → Access → M Qp
  pcie_ernic_reg_adv fuel junk none qp key length flags = pure qp
  pcie_ernic_reg_adv fuel junk (some buff) qp key length flags =
      adv_in fuel junk buff qp key length flags qp.pd

-- What `pcie_ernic_recv_buff` writes through its two pointers; none is a pointer left alone.
pub record Received : Type 0 where
  pub rkey : Option ℕ
  pub vaddr : Option ℕ

module _ (bar ram : History) where
  abbrev pub recv_vaddr : ℕ → Qp → ℕ → Option ℕ → M (Received × Qp)
  recv_vaddr fuel qp rkey none = pure (record { rkey = some rkey; vaddr = none }, qp)
  recv_vaddr fuel qp rkey (some rqe_ptr) = do
    vaddr ← load64 ram rqe_ptr
    pure (record { rkey = some rkey; vaddr = some vaddr }, qp)

  abbrev pub recv_rkey : ℕ → Qp → Option ℕ → M (Received × Qp)
  recv_rkey fuel qp none = pure (record { rkey = none; vaddr = none }, qp)
  recv_rkey fuel qp (some rqe_ptr) = do
    rkey ← load32 ram rqe_ptr
    next ← pcie_ernic_post_recv bar fuel qp
    recv_vaddr fuel next.1 rkey next.0

  -- For a queue pair and two pointers that are not null.
  unfoldable pub pcie_ernic_recv_buff : ℕ → Qp → M (Received × Qp)
  pcie_ernic_recv_buff fuel qp = do
    first ← pcie_ernic_post_recv bar fuel qp
    recv_rkey fuel first.1 first.0
