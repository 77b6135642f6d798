-- ===== src/Ernic/Region.antt =====
-- Memory regions: `pcie_ernic_reg_mr` of runtime_lib/airhost/pcie-ernic.cpp, for a device that is not
-- null and a host that has memory for the struct.
pub mod Extends
pub mod Row
use mlir_air_mirror.Prelude.{
  ℕ, ◌+◌, ◌/◌, ◌^◌, Bool, true, false, if◌then◌else◌, ◌==◌, ◌&&◌, u32, u64, Option, none, some,
  List, [], ◌∷◌,
}
use mlir_air_mirror.Ernic.State.{
  Buff, Access, pd_read_only, pd_write_only, pd_read_write, other_access, Mr, Pd, ok, and_then, M,
  out_all,
}
use mlir_air_mirror.Ernic.Registers.{
  ernic_pd_addr, virtaddrlsb, virtaddrmsb, bufbaseaddrlsb, bufbaseaddrmsb, bufrkey, wrrdbuflen,
  accessdesc,
}
use mlir_air_mirror.Ernic.Qp.{high_word}

abbrev pub access_eq : Access → Access → Bool
access_eq pd_read_only pd_read_only = true
access_eq pd_write_only pd_write_only = true
access_eq pd_read_write pd_read_write = true
access_eq (other_access a) (other_access b) = a == b
access_eq _ _ = false

-- `flag_to_write`; none is the error.
abbrev pub flag_to_write : Access → Option ℕ
flag_to_write pd_read_only = some 0
flag_to_write pd_write_only = some 1
flag_to_write pd_read_write = some 2
flag_to_write (other_access _) = none

-- `is_physically_contigous && keys_match && permissions_match`.
abbrev pub can_combine : Mr → Buff → ℕ → Access → Bool
can_combine mr buff key flags =
    (u64 (mr.buff.pa + mr.buff.size) == buff.pa) && (mr.key == key) && access_eq mr.flags flags

abbrev pub combined_length : Mr → ℕ → ℕ
combined_length mr length = u64 (mr.buff.size + length)

-- The row of the table for a region, in the order of the writes.
abbrev pub mr_config : Buff → ℕ → ℕ → ℕ → List (ℕ × ℕ)
mr_config buff key length flag =
    (virtaddrlsb, u32 buff.buff)
    ∷ (virtaddrmsb, high_word buff.buff)
    ∷ (bufbaseaddrlsb, u32 buff.pa)
    ∷ (bufbaseaddrmsb, high_word buff.pa)
    ∷ (bufrkey, key)
    ∷ (wrrdbuflen, length)
    ∷ (accessdesc, flag)
    ∷ []

abbrev pub out_pd : ℕ → List (ℕ × ℕ) → M (Unit {0})
out_pd pd_num ws c = out_all (λ addr. ernic_pd_addr pd_num (u32 (addr + c.axil_bar_offset))) ws c

-- The region that the card has for the domain grows.
abbrev pub combine : Pd → Mr → ℕ → M (Option Mr × Pd)
combine pd mr length c =
    let mr' : Mr = record mr { length = combined_length mr length } in
    and_then (out_pd pd.pd_num ((wrrdbuflen, u32 (combined_length mr length)) ∷ []) c)
      λ u d. ok (some mr', record pd { mr = some mr' }) d

-- The region is the domain's new one.
abbrev pub register : Pd → Buff → ℕ → ℕ → Access → Option ℕ → M (Option Mr × Pd)
register pd buff key length flags none c = ok (none, pd) c
register pd buff key length flags (some flag) c =
    let mr : Mr = record { buff = buff; key = key; length = length; flags = flags } in
    and_then (out_pd pd.pd_num (mr_config buff key length flag) c)
      λ u d. ok (some mr, record pd { mr = some mr }) d

abbrev pub reg_after : Pd → Buff → ℕ → ℕ → Access → Option Mr → M (Option Mr × Pd)
reg_after pd buff key length flags none = register pd buff key length flags (flag_to_write flags)
reg_after pd buff key length flags (some mr) =
    if can_combine mr buff key flags
    then combine pd mr length
    else register pd buff key length flags (flag_to_write flags)

-- The answer and the domain; none is NULL.
unfoldable pub pcie_ernic_reg_mr :
    Option Pd → Option Buff → ℕ → ℕ → Access → M (Option Mr × Option Pd)
pcie_ernic_reg_mr none buff key length flags c = ok (none, none) c
pcie_ernic_reg_mr (some pd) none key length flags c = ok (none, some pd) c
pcie_ernic_reg_mr (some pd) (some buff) key length flags c =
    and_then (reg_after pd buff key length flags pd.mr c) λ r d. ok (r.0, some r.1) d
