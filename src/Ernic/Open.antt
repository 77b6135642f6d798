-- ===== src/Ernic/Open.antt =====
-- `pcie_ernic_init_bdf`, and `pcie_ernic_open_dev` of runtime_lib/airhost/pcie-ernic.cpp after the
-- files are mapped.
use mlir_air_mirror.Prelude.{ℕ, ◌+◌, ◌/◌, Bool, true, if◌then◌else◌, ◌&&◌, not, u32, List, [], ◌∷◌}
use mlir_air_mirror.Queue.Signal.{History}
use mlir_air_mirror.Ernic.State.{Buff, M, ◌>>=◌, ◌>>◌, pure, deref, write32, out_all}
use mlir_air_mirror.Ernic.Registers.{
  csr_addr, bdf_low_addr, bdf_high_addr, bdf_pasid, bdf_func_num, bdf_misc, bdf_reserved,
  versal_bdf_misc_write_data, usp_bdf_misc_write_data, xrnicconf, inten, errbufba, errbufbamsb,
  errbufsz, resperrpktba, resperrpktbamsb, resperrsz, ipkterrqba, ipkterrqbamsb, ipkterrqsz,
  databufsz, retry_buff_size, macxaddmsb, ipv4xadd, macxaddlsb, datbufba, retry_buff_base,
}
use mlir_air_mirror.Ernic.Buffer.{pcie_ernic_malloc}
use mlir_air_mirror.Ernic.Qp.{high_word}
use mlir_air_mirror.Ernic.Mac.{do_configure_cmac, wait_reset_done, do_configure_mrmac}

unfoldable pub pcie_ernic_init_bdf : Bool → M (Unit {0})
pcie_ernic_init_bdf is_versal = out_all csr_addr (
    (bdf_low_addr, 0)
    ∷ (bdf_high_addr, 0)
    ∷ (bdf_pasid, 0)
    ∷ (bdf_func_num, 0)
    ∷ (bdf_misc, (if is_versal then versal_bdf_misc_write_data else usp_bdf_misc_write_data))
    ∷ (bdf_reserved, 0)
    ∷ [])

-- The arguments that the configuration reads.
pub record Options : Type 0 where
  pub mrmac_reset_offset : ℕ
  pub mac_0_csr_offset : ℕ
  pub mac_1_csr_offset : ℕ
  pub ipv4_addr : ℕ
  pub mac_addr_lsb : ℕ
  pub mac_addr_msb : ℕ
  pub configure_cmac : Bool
  pub configure_bdf : Bool
  pub is_versal : Bool
  pub dual_reset : Bool

-- The global registers, in the order of the writes.
abbrev pub csr_config : Options → Buff → Buff → Buff → List (ℕ × ℕ)
csr_config o err_buff inc_packet_err_q resp_err_buff =
    (xrnicconf, 0xe348078b)
    ∷ (inten, 0x70)
    ∷ (errbufba, u32 err_buff.pa)
    ∷ (errbufbamsb, high_word err_buff.pa)
    ∷ (errbufsz, 0x1000040)
    ∷ (resperrpktba, u32 resp_err_buff.pa)
    ∷ (resperrpktbamsb, high_word resp_err_buff.pa)
    ∷ (resperrsz, 0x200000)
    ∷ (ipkterrqba, u32 inc_packet_err_q.pa)
    ∷ (ipkterrqbamsb, high_word inc_packet_err_q.pa)
    ∷ (ipkterrqsz, 0x200)
    ∷ (databufsz, retry_buff_size)
    ∷ (macxaddmsb, o.mac_addr_msb)
    ∷ (ipv4xadd, o.ipv4_addr)
    ∷ (macxaddlsb, o.mac_addr_lsb)
    ∷ (datbufba, retry_buff_base)
    ∷ []

abbrev pub out_csr : List (ℕ × ℕ) → M (Unit {0})
out_csr ws c = out_all (λ addr. csr_addr (addr + c.axil_bar_offset)) ws c

module _ (bar : History) where
  -- One of the two resets, which writes 0, `mask` and 0 and waits.
  abbrev pub reset_mrmac : ℕ → ℕ → ℕ → M (Unit {0})
  reset_mrmac fuel reset_offset mask = do
    write32 (reset_offset / 4) 0
    write32 (reset_offset / 4) mask
    write32 (reset_offset / 4) 0
    wait_reset_done bar fuel reset_offset

  unfoldable pub configure_mrmacs : ℕ → Options → M (Unit {0})
  configure_mrmacs fuel o = do
    reset_mrmac fuel o.mrmac_reset_offset (if o.dual_reset then 0xf else 0xff)
    reset_mrmac fuel o.mrmac_reset_offset (if o.dual_reset then 0x1f else 0x3ff)
    first ← do_configure_mrmac bar fuel (u32 o.mac_0_csr_offset) o.mrmac_reset_offset
    second ← do_configure_mrmac bar fuel (u32 o.mac_1_csr_offset) o.mrmac_reset_offset
    pure tt

  unfoldable pub configure_cmacs : ℕ → M (Unit {0})
  configure_cmacs fuel = do_configure_cmac bar fuel 0x90000 >> do_configure_cmac bar fuel 0xa0000

  -- The three buffers, then the global registers, then the network; `junk` is what fresh memory
  -- holds.
  unfoldable pub configure_dev : ℕ → ℕ → Options → M (Unit {0})
  configure_dev fuel junk o = do
    if o.configure_bdf then pcie_ernic_init_bdf o.is_versal else pure tt
    e ← pcie_ernic_malloc junk 65536 true
    q ← pcie_ernic_malloc junk 4096 true
    r ← pcie_ernic_malloc junk 4096 true
    err_buff ← deref e
    inc_packet_err_q ← deref q
    resp_err_buff ← deref r
    out_csr (csr_config o err_buff inc_packet_err_q resp_err_buff)
    if o.configure_cmac && not o.is_versal then configure_cmacs fuel else pure tt
    if o.configure_cmac && o.is_versal then configure_mrmacs fuel o else pure tt
