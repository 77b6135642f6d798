-- ===== src/Ernic/Mac.antt =====
-- The network interfaces of the card: `do_configure_cmac` and `do_configure_mrmac` of
-- runtime_lib/airhost/pcie-ernic.cpp, for a device that is not null.
pub mod Ends
use mlir_air_mirror.Prelude.{
  ℕ, zero, suc, ◌+◌, ◌/◌, ◌%◌, ◌^◌, Bool, true, false, if◌then◌else◌, ◌==◌, ◌&&◌, field, u32, u64,
  List, [], ◌∷◌,
}
use mlir_air_mirror.Queue.Signal.{History}
use mlir_air_mirror.Ernic.State.{
  Card, Run, ok, out_of_fuel, M, ◌>>=◌, ◌>>◌, pure, reg, write32, read32, out_all,
}
use mlir_air_mirror.Ernic.Registers.{
  csr_addr, configuration_revision_reg_offset, reset_reg_0_offset, mode_reg_0_offset,
  configuration_rx_reg1_0_offset, configuration_tx_reg1_0_offset, fec_configuration_reg1_0_offset,
  fec_configuration_reg1_1_offset, fec_configuration_reg1_2_offset, fec_configuration_reg1_3_offset,
  tick_reg_0_offset, stat_rx_status_reg1_0_offset, mrmac_rx_align_timeout,
}

-- `dev->axil_bar[(offset + addr) >> 2] = value` for each pair.
abbrev pub out_mac : ℕ → List (ℕ × ℕ) → M (Unit {0})
out_mac offset = out_all (λ addr. csr_addr (offset + addr))

-- The registers after the receiver is aligned.
abbrev pub cmac_flow_control : List (ℕ × ℕ)
cmac_flow_control =
    (0xc, 0x1)
    ∷ (0x84, 0x3dff)
    ∷ (0x88, 0x1c631)
    ∷ (0x48, 0xffffffff)
    ∷ (0x4c, 0xffffffff)
    ∷ (0x50, 0xffffffff)
    ∷ (0x54, 0xffffffff)
    ∷ (0x58, 0xffff)
    ∷ (0x34, 0xffffffff)
    ∷ (0x38, 0xffffffff)
    ∷ (0x3c, 0xffffffff)
    ∷ (0x40, 0xffffffff)
    ∷ (0x44, 0xffff)
    ∷ (0x30, 0x1ff)
    ∷ []

abbrev pub mrmac_config : List (ℕ × ℕ)
mrmac_config =
    (reset_reg_0_offset, 0xfff)
    ∷ (mode_reg_0_offset, 0x40000a64)
    ∷ (configuration_rx_reg1_0_offset, 0x33)
    ∷ (configuration_tx_reg1_0_offset, 0xc03)
    ∷ (fec_configuration_reg1_0_offset, 0)
    ∷ (fec_configuration_reg1_1_offset, 0)
    ∷ (fec_configuration_reg1_2_offset, 0)
    ∷ (fec_configuration_reg1_3_offset, 0)
    ∷ (reset_reg_0_offset, 0)
    ∷ (tick_reg_0_offset, 1)
    ∷ []

-- The three low bits of the status.
abbrev pub rx_aligned : ℕ → Bool
rx_aligned status = (field status 0 1 == 1) && (field status 1 1 == 1) && (field status 2 1 == 1)

abbrev pub rx_error : ℕ → Bool
rx_error status = field status 17 1 == 1

module _ (bar : History) where
  -- `while (!(r & 1) || !(r & 2))` after a read `r` of the aligned register, on fuel.
  unfoldable pub cmac_wait : ℕ → ℕ → ℕ → M (Unit {0})
  cmac_wait zero offset r c = elim (r % 4 == 3) [ true ↦ ok tt c | false ↦ out_of_fuel ]
  cmac_wait (suc fuel) offset r c =
      let next = u32 (bar c.clock (csr_addr (offset + 0x204))) in
      elim (r % 4 == 3) [
        | true ↦ ok tt c
        | false ↦ cmac_wait fuel offset next (record c { clock = c.clock + 1 })
      ]

  unfoldable pub do_configure_cmac : ℕ → ℕ → M (Unit {0})
  do_configure_cmac fuel offset = do
    out_mac offset ((0x14, 1) ∷ (0xc, 0x18) ∷ [])
    r ← read32 bar (csr_addr (offset + 0x204))
    cmac_wait fuel offset r
    out_mac offset cmac_flow_control

  -- The loop until a read of `stat_mst_reset_done` is 0xff, on fuel for its reads, the one before it
  -- included; the offset is a uint64_t.
  unfoldable pub wait_reset_done : ℕ → ℕ → M (Unit {0})
  wait_reset_done zero reset_offset c = out_of_fuel
  wait_reset_done (suc fuel) reset_offset c =
      let c' = record c { clock = c.clock + 1 } in
      elim (u32 (bar c.clock (u64 (reset_offset + 0x8) / 4)) == 0xff) [
        | true ↦ ok tt c'
        | false ↦ wait_reset_done fuel reset_offset c'
      ]

  -- The status, after its latches were cleared.
  abbrev pub clear_and_read_status : ℕ → M ℕ
  clear_and_read_status offset = do
    write32 (csr_addr (offset + stat_rx_status_reg1_0_offset)) 0xffffffff
    read32 bar (csr_addr (offset + stat_rx_status_reg1_0_offset))

  -- The loop of `do_configure_mrmac` on the attempts left, after a read of the status: whether it ends
  -- with the receiver aligned, which the code prints.
  unfoldable pub mrmac_align : ℕ → ℕ → ℕ → M Bool
  mrmac_align zero offset status c = ok (rx_aligned status) c
  mrmac_align (suc n) offset status c =
      let a = csr_addr (offset + stat_rx_status_reg1_0_offset) in
      let rest =
        mrmac_align n offset (u32 (bar c.clock a))
          (record c { clock = c.clock + 1; log = reg a 0xffffffff ∷ c.log }) in
      elim (rx_aligned status) [
        | true ↦ ok true c
        | false ↦ elim (rx_error status) [ true ↦ ok false c | false ↦ rest ]
      ]

  unfoldable pub do_configure_mrmac : ℕ → ℕ → ℕ → M Bool
  do_configure_mrmac fuel offset reset_offset = do
    version ← read32 bar (csr_addr (offset + configuration_revision_reg_offset))
    out_mac offset mrmac_config
    wait_reset_done fuel reset_offset
    status ← clear_and_read_status offset
    mrmac_align mrmac_rx_align_timeout offset status
