-- ===== src/Ernic/Region/Extends.antt =====
-- The two cases of `pcie_ernic_reg_mr`: a buffer that extends the domain's region, and another.
use mathlib.Core.Path.{subst}
use mathlib.Core.Option.{some-injective, none-ne-some, some-ne-none}
use mathlib.Core.Bool.{true≢false}
use mlir_air_mirror.Prelude.{ℕ, ◌+◌, ◌^◌, ◌%◌, ◌≡◌, refl, sym, ap, arith, ◌⊎◌, true, none, some}
use mlir_air_mirror.Ernic.State.{
  Buff, Access, pd_read_only, pd_write_only, pd_read_write, other_access, Mr, Pd,
}
use mlir_air_mirror.Ernic.Region.{access_eq, flag_to_write, can_combine}

-- The card's code of an access: 0 for reading, 1 for writing, 2 for both, and none for another value.
pub data AccessCode : Access → ℕ → Type 0 where
  reading : AccessCode pd_read_only 0
  writing : AccessCode pd_write_only 1
  both : AccessCode pd_read_write 2

pub flag_to_write-AccessCode :
    (flags : Access) (flag : ℕ) → flag_to_write flags ≡ some flag → AccessCode flags flag
flag_to_write-AccessCode pd_read_only flag e =
    subst (λ n. AccessCode pd_read_only n) (some-injective _ _ e) reading
flag_to_write-AccessCode pd_write_only flag e =
    subst (λ n. AccessCode pd_write_only n) (some-injective _ _ e) writing
flag_to_write-AccessCode pd_read_write flag e =
    subst (λ n. AccessCode pd_read_write n) (some-injective _ _ e) both
flag_to_write-AccessCode (other_access a) flag e = absurd (none-ne-some flag e)

pub no_AccessCode : (flags : Access) (n : ℕ) → flag_to_write flags ≡ none → ¬ AccessCode flags n
no_AccessCode pd_read_only _ e reading = some-ne-none 0 e
no_AccessCode pd_write_only _ e writing = some-ne-none 1 e
no_AccessCode pd_read_write _ e both = some-ne-none 2 e
no_AccessCode (other_access _) n e x = elim x [ ]

-- The buffer lies right behind the region, which has the same key and access.
pub record Extends (old : Mr) (buff : Buff) (key : ℕ) (flags : Access) : Type 0 where
  pub contiguous : (old.buff.pa + old.buff.size) % 2 ^ 64 ≡ buff.pa
  pub same_key : old.key ≡ key
  pub same_flags : old.flags ≡ flags

access_eq_lem : (a b : Access) → access_eq a b ≡ true → a ≡ b
access_eq_lem pd_read_only pd_read_only e = refl
access_eq_lem pd_write_only pd_write_only e = refl
access_eq_lem pd_read_write pd_read_write e = refl
access_eq_lem (other_access a) (other_access b) e =
    let same : a ≡ b = ground (arith, e) in ap other_access same
access_eq_lem _ _ e = absurd (true≢false (sym e))

access_eq_self : (a b : Access) → a ≡ b → access_eq a b ≡ true
access_eq_self a b e = subst (λ x. access_eq a x ≡ true) e (self a)
  where
    self : (a : Access) → access_eq a a ≡ true
    self pd_read_only = refl
    self pd_write_only = refl
    self pd_read_write = refl
    self (other_access n) = ground arith

pub can_combine-Extends :
    (mr : Mr) (buff : Buff) (key : ℕ) (flags : Access)
    → can_combine mr buff key flags ≡ true
    → Extends mr buff key flags
can_combine-Extends mr buff key flags h = record {
  contiguous = ground (arith, h);
  same_key = ground (arith, h);
  same_flags = access_eq_lem mr.flags flags (ground (arith, h));
}

pub Extends-can_combine :
    (mr : Mr) (buff : Buff) (key : ℕ) (flags : Access)
    → Extends mr buff key flags
    → can_combine mr buff key flags ≡ true
Extends-can_combine mr buff key flags x =
    rw (x.contiguous, access_eq_self mr.flags flags x.same_flags)
      (let k : mr.key ≡ key = x.same_key in ground arith)

-- The domain has a region that the buffer extends.
abbrev pub Extended : Pd → Buff → ℕ → Access → Type 0
Extended pd buff key flags = (old : Mr) × (pd.mr ≡ some old) × Extends old buff key flags

-- The region for the buffer: the domain's old one with its buffer's size and the new length, if the
-- buffer extends it, or a new one of just these arguments.
abbrev pub IsAnswer : Pd → Buff → ℕ → ℕ → Access → Mr → Type 0
IsAnswer pd buff key length flags mr =
    ((old : Mr) × (pd.mr ≡ some old)
      × Extends old buff key flags
      × (mr ≡ record old { length = (old.buff.size + length) % 2 ^ 64 }))
    ⊎ ((¬ Extended pd buff key flags)
        × (mr ≡ record { buff = buff; key = key; length = length; flags = flags }))
