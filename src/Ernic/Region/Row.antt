-- ===== src/Ernic/Region/Row.antt =====
-- The card's table of protection domains describes the regions that the host has registered.
use mathlib.Core.Path.{subst}
use mathlib.Core.Option.{some-injective, none-ne-some}
use mathlib.Core.Bool.{true≢false}
use mlir_air_mirror.Prelude.{
  ℕ, ◌+◌, ◌*◌, ◌/◌, ◌%◌, ◌^◌, ◌<◌, ◌≡◌, refl, sym, ◌∙◌, arith, ◌⊎◌, inl, inr, Bool, true, false,
  ◌==◌, ltb, ◌&&◌, u32, distinct, Option, some, none, List, [], ◌∷◌, Bool-cases,
}
use mlir_air_mirror.Ernic.State.{
  Buff, Access, Mr, Pd, Card, Write, reg, Returns, returns, Returns-and_then,
}
use mlir_air_mirror.Ernic.Registers.{
  ernic_pd_addr, virtaddrlsb, virtaddrmsb, bufbaseaddrlsb, bufbaseaddrmsb, bufrkey, wrrdbuflen,
  accessdesc,
}
use mlir_air_mirror.Ernic.Registers.Window.{distinct-shift}
use mlir_air_mirror.Ernic.Log.{
  last_reg, last_reg_self, last_reg_ne, keys, out_all-regs, Holds, regs-Holds,
}
use mlir_air_mirror.Ernic.Region.Extends.{
  AccessCode, flag_to_write-AccessCode, no_AccessCode, Extends, can_combine-Extends,
  Extends-can_combine, Extended, IsAnswer,
}
use mlir_air_mirror.Ernic.Region.{
  flag_to_write, can_combine, combined_length, mr_config, combine, register, reg_after,
  pcie_ernic_reg_mr,
}

abbrev pub pd_register : ℕ → ℕ → ℕ → ℕ
pd_register off pd_num addr = ernic_pd_addr pd_num (u32 (addr + off))

-- The row of the domain does not wrap around.
abbrev pub RowFits : ℕ → ℕ → Type 0
RowFits off pd_num = off + 0x100 * pd_num + 0x100 < 2 ^ 32

-- A word-aligned offset in a row.
abbrev is_in_row : ℕ → Bool
is_in_row addr = (addr % 4 == 0) && ltb addr 0x100

row_base :
    (off pd_num addr : ℕ)
    → RowFits off pd_num
    → is_in_row addr ≡ true
    → pd_register off pd_num addr ≡ addr / 4 + (off + 0x100 * pd_num) / 4
unfolding ernic_pd_addr
row_base off pd_num addr f h =
    let high : addr < 0x100 = ground arith in
    let four : addr % 4 ≡ 0 = ground arith in omega (arith, high, four, f)

register_ne :
    (off pd_num a b : ℕ)
    → RowFits off pd_num
    → is_in_row a ≡ true
    → is_in_row b ≡ true
    → (a / 4 == b / 4) ≡ false
    → (pd_register off pd_num b == pd_register off pd_num a) ≡ false
register_ne off pd_num a b f h k n =
    let base : ℕ = (off + 0x100 * pd_num) / 4 in
    let ne : (b / 4 + base == a / 4 + base) ≡ false = ground arith in
    rw (row_base off pd_num a f h, row_base off pd_num b f k) ne

-- The row of the card describes the region, by the offsets in the row: the virtual address and the
-- physical address in two words each, the key, the length and the access.
abbrev pub Row : ℕ → ℕ → Mr → List Write → Type 0
Row off pd_num mr log =
    (flag : ℕ) × AccessCode mr.flags flag
    × Holds (pd_register off pd_num)
        ((0x4, mr.buff.buff % 2 ^ 32)
          ∷ (0x8, mr.buff.buff / 2 ^ 32 % 2 ^ 32)
          ∷ (0xc, mr.buff.pa % 2 ^ 32)
          ∷ (0x10, mr.buff.pa / 2 ^ 32 % 2 ^ 32)
          ∷ (0x14, mr.key)
          ∷ (0x18, mr.length % 2 ^ 32)
          ∷ (0x1c, flag)
          ∷ [])
        log

-- The row describes the region of the domain, if it has one.
abbrev pub InStep : ℕ → Pd → List Write → Type 0
InStep off pd log = (mr : Mr) → pd.mr ≡ some mr → Row off pd.pd_num mr log

-- The call answers the region for the buffer, which is now the domain's and is what the row describes;
-- or NULL, for an access that has no code and a buffer that extends nothing, and nothing has changed.
abbrev pub ForBuffer : Pd → Buff → ℕ → ℕ → Access → Card → Option Mr × Option Pd → Card → Type 0
ForBuffer pd buff key length flags c r d =
    ((mr : Mr) × (r.0 ≡ some mr)
      × (r.1 ≡ some (record pd { mr = some mr }))
      × IsAnswer pd buff key length flags mr
      × Row c.axil_bar_offset pd.pd_num mr d.log)
    ⊎ ((r.0 ≡ none)
        × (r.1 ≡ some pd)
        × (d ≡ c)
        × (¬ Extended pd buff key flags)
        × ((n : ℕ) → ¬ AccessCode flags n))

-- The same for a pointer to a buffer; for none, the answer is NULL, and nothing has changed.
abbrev pub Registered :
    Pd → Option Buff → ℕ → ℕ → Access → Card → Option Mr × Option Pd → Card → Type 0
Registered pd none key length flags c r d = (r.0 ≡ none) × (r.1 ≡ some pd) × (d ≡ c)
Registered pd (some buff) key length flags c r d = ForBuffer pd buff key length flags c r d

-- The same for the inner steps, whose domain is not optional.
abbrev Stepped : Pd → Buff → ℕ → ℕ → Access → Card → Option Mr × Pd → Card → Type 0
Stepped pd buff key length flags c r d = ForBuffer pd buff key length flags c (r.0, some r.1) d

row-distinct :
    (off pd_num : ℕ) (buff : Buff) (key length flag : ℕ)
    → RowFits off pd_num
    → distinct (keys (pd_register off pd_num) (mr_config buff key length flag)) ≡ true
row-distinct off pd_num buff key length flag f =
    rw
      (
        row_base off pd_num virtaddrlsb f refl,
        row_base off pd_num virtaddrmsb f refl,
        row_base off pd_num bufbaseaddrlsb f refl,
        row_base off pd_num bufbaseaddrmsb f refl,
        row_base off pd_num bufrkey f refl,
        row_base off pd_num wrrdbuflen f refl,
        row_base off pd_num accessdesc f refl,
      )
      (distinct-shift ((off + 0x100 * pd_num) / 4) (mr_config buff key length flag))

register-Stepped :
    (pd : Pd) (buff : Buff) (key length : ℕ) (flags : Access) (o : Option ℕ) (c : Card)
    → flag_to_write flags ≡ o
    → length < 2 ^ 32
    → RowFits c.axil_bar_offset pd.pd_num
    → ¬ Extended pd buff key flags
    → Returns (Stepped pd buff key length flags c) (register pd buff key length flags o c)
register-Stepped pd buff key length flags none c e l f x =
    returns (inr (refl, refl, refl, x, λ n. no_AccessCode flags n e))
register-Stepped pd buff key length flags (some flag) c e l f x =
    let whole : u32 length ≡ length = omega arith in
    rw (out_all-regs) (
      returns (
        inl (
          record { buff = buff; key = key; length = length; flags = flags },
          refl,
          refl,
          inr (x, refl),
          (
            flag,
            flag_to_write-AccessCode flags flag e,
            rw (whole) (
                regs-Holds (pd_register c.axil_bar_offset pd.pd_num)
                  (mr_config buff key length flag) c.log
                  (row-distinct c.axil_bar_offset pd.pd_num buff key length flag f)),
          ),
        )))

combine-Stepped :
    (pd : Pd) (mr : Mr) (buff : Buff) (key length : ℕ) (flags : Access) (c : Card)
    → pd.mr ≡ some mr
    → Extends mr buff key flags
    → RowFits c.axil_bar_offset pd.pd_num
    → Row c.axil_bar_offset pd.pd_num mr c.log
    → Returns (Stepped pd buff key length flags c) (combine pd mr length c)
combine-Stepped pd mr buff key length flags c same x f (flag, e, h) =
    let off : ℕ = c.axil_bar_offset in
    let g : ℕ → ℕ = pd_register off pd.pd_num in
    let n : ℕ = u32 (combined_length mr length) in
    let keep : (b v : ℕ)
        → is_in_row b ≡ true
        → (wrrdbuflen / 4 == b / 4) ≡ false
        → last_reg c.log (g b) ≡ some v
        → last_reg (reg (g wrrdbuflen) n ∷ c.log) (g b) ≡ some v =
      λ b v i ne p.
        last_reg_ne c.log (g wrrdbuflen) (g b) n
          (register_ne off pd.pd_num wrrdbuflen b f refl i ne)
        ∙ p in
    rw (out_all-regs) (
      returns (
        inl (
          record mr { length = combined_length mr length },
          refl,
          refl,
          inl (mr, same, x, refl),
          (
            flag,
            e,
            (
              keep virtaddrlsb _ refl refl (h.0),
              (
                keep virtaddrmsb _ refl refl (h.1.0),
                (
                  keep bufbaseaddrlsb _ refl refl (h.1.1.0),
                  (
                    keep bufbaseaddrmsb _ refl refl (h.1.1.1.0),
                    (
                      keep bufrkey _ refl refl (h.1.1.1.1.0),
                      (
                        last_reg_self c.log (g wrrdbuflen) n,
                        (keep accessdesc _ refl refl (h.1.1.1.1.1.1.0), tt),
                      ),
                    ),
                  ),
                ),
              ),
            ),
          ),
        )))

reg_after-Stepped :
    (pd : Pd) (buff : Buff) (key length : ℕ) (flags : Access) (o : Option Mr) (c : Card)
    → pd.mr ≡ o
    → length < 2 ^ 32
    → RowFits c.axil_bar_offset pd.pd_num
    → InStep c.axil_bar_offset pd c.log
    → Returns (Stepped pd buff key length flags c) (reg_after pd buff key length flags o c)
reg_after-Stepped pd buff key length flags none c e l f s =
    register-Stepped pd buff key length flags (flag_to_write flags) c refl l f
      λ t. none-ne-some t.0 (sym e ∙ t.1)
reg_after-Stepped pd buff key length flags (some mr) c e l f s =
    elim (Bool-cases (can_combine mr buff key flags)) [
      | inl y ↦ rw (y) (
          combine-Stepped pd mr buff key length flags c e (can_combine-Extends mr buff key flags y)
            f (s mr e))
      | inr n ↦ rw (n) (
          register-Stepped pd buff key length flags (flag_to_write flags) c refl l f λ t.
            true≢false (
              sym (
                Extends-can_combine mr buff key flags (
                  subst (λ m. Extends m buff key flags) (sym (some-injective _ _ (sym e ∙ t.1)))
                    t.2))
              ∙ n))
    ]

-- For a domain whose row on the card describes its region, if it has one, and a length below 2^32,
-- `pcie_ernic_reg_mr` returns. It answers a region that is now the domain's and is what all seven
-- registers of the row describe: the domain's old one with a new length, exactly if the buffer lies
-- right behind it and key and access are the same, or a new one of the arguments. It answers NULL
-- exactly if there is no buffer, or if the access has no code and no old region is extended; then
-- neither the domain nor the card has changed. The new length of an extended region is the size of the
-- buffer it began with plus the length given.
pub pcie_ernic_reg_mr-Registered :
    (pd : Pd) (buff : Option Buff) (key length : ℕ) (flags : Access) (c : Card)
    → length < 2 ^ 32
    → RowFits c.axil_bar_offset pd.pd_num
    → InStep c.axil_bar_offset pd c.log
    → Returns
        (Registered pd buff key length flags c)
        (pcie_ernic_reg_mr (some pd) buff key length flags c)
unfolding pcie_ernic_reg_mr
pcie_ernic_reg_mr-Registered pd none key length flags c l f s = returns (refl, refl, refl)
pcie_ernic_reg_mr-Registered pd (some buff) key length flags c l f s =
    Returns-and_then (reg_after-Stepped pd buff key length flags pd.mr c refl l f s)
      λ r d h. returns h
