-- ===== src/Ernic/State.antt =====
-- The structs of runtime_lib/airhost/include/pcie-ernic.h and what a call does to the card: what it
-- writes to the registers and to the device memory, in one log. Reads go through two histories:
-- `bar t a` is what the t-th read of the run finds in the register word `a`, `ram t a` what it finds
-- in the memory word at the address `a`, for any behaviour of the card and of the network.
use mlir_air_mirror.Prelude.{ℕ, ◌+◌, ◌^◌, ◌*◌, Bool, List, [], ◌∷◌, Option, none, some, u32, u64}
use mlir_air_mirror.Queue.Signal.{History}
use mlir_air_mirror.Host.DevMem.{Allocator}

-- `pcie_ernic_buff`.
pub record Buff : Type 0 where
  pub buff : ℕ
  pub pa : ℕ
  pub size : ℕ
  pub on_device : Bool

-- `pd_access_flags`; a value of the enum's type that is none of its names is `other`.
pub data Access : Type 0 where
  pd_read_only pd_write_only pd_read_write : Access
  other_access : ℕ → Access

-- `pcie_ernic_mr`, without its pointer back to the protection domain that holds it.
pub record Mr : Type 0 where
  pub buff : Buff
  pub key : ℕ
  pub length : ℕ
  pub flags : Access

-- `pcie_ernic_pd`; its `qp` is never written.
pub record Pd : Type 0 where
  pub pd_num : ℕ
  pub mr : Option Mr

-- `pcie_ernic_qp`. A buffer that `pcie_ernic_malloc` has refused is none. The protection domain is
-- this queue pair's own.
pub record Qp : Type 0 where
  pub sq : Option Buff
  pub sq_pidb : ℕ
  pub sq_cidb : ℕ
  pub cq : Option Buff
  pub cq_pidb : ℕ
  pub cq_cidb : ℕ
  pub rq : Option Buff
  pub rq_pidb : ℕ
  pub rq_cidb : ℕ
  pub pd : Option Pd
  pub dev_written_dbs : Option Buff
  pub qpid : ℕ
  pub dest_qpid : ℕ
  pub dest_ip : ℕ
  pub dest_mac_msb : ℕ
  pub dest_mac_lsb : ℕ
  pub qdepth : ℕ
  pub enable_cq : Bool

-- A write: the register word at an index of `axil_bar`, or the memory word at an address.
pub data Write : Type 0 where
  reg mem : ℕ → ℕ → Write

-- `pcie_ernic_dev`, the log of what was written, newest first, and the count of reads. The slots of
-- `qps` keep each queue pair as it was created.
pub record Card : Type 0 where
  pub clock : ℕ
  pub log : List Write
  pub allocator : Allocator
  pub qps : List (Option Qp)
  pub axil_bar_offset : ℕ

-- How a call ends: it returns, it does what C++ does not define (a null pointer, an index outside an
-- array), or a wait has used up the model's fuel.
pub data Run {ℓ} (A : Type ℓ) : Type ℓ where
  ok : A → Card → Run A
  fault out_of_fuel : Run A

abbrev pub M {ℓ} : Type ℓ → Type ℓ
M A = Card → Run A

abbrev pub and_then {ℓ κ} : {A : Type ℓ} {B : Type κ} → Run A → (A → M B) → Run B
and_then (ok a c) f = f a c
and_then fault f = fault
and_then out_of_fuel f = out_of_fuel

infixl 5 ◌>>=◌ ◌>>◌
abbrev pub ◌>>=◌ {ℓ κ} : {A : Type ℓ} {B : Type κ} → M A → (A → M B) → M B
◌>>=◌ m f c = and_then (m c) f

abbrev pub ◌>>◌ {ℓ} : {B : Type ℓ} → M (Unit {0}) → M B → M B
◌>>◌ m k = m >>= λ _. k

abbrev pub pure {ℓ} : {A : Type ℓ} → A → M A
pure a c = ok a c

abbrev pub undefined {ℓ} : {A : Type ℓ} → M A
undefined c = fault

-- A pointer that is followed.
abbrev pub deref {ℓ} : {A : Type ℓ} → Option A → M A
deref none = undefined
deref (some a) = pure a

abbrev pub tell : Write → M (Unit {0})
tell w c = ok tt (record c { log = w ∷ c.log })

-- `dev->axil_bar[a] = v` for the index `a`.
abbrev pub write32 : ℕ → ℕ → M (Unit {0})
write32 a v = tell (reg a v)

-- `dev->axil_bar[f(a)] = v` for each pair of a list, in order.
unfoldable pub out_all : (ℕ → ℕ) → List (ℕ × ℕ) → M (Unit {0})
out_all f [] = pure tt
out_all f ((a, v) ∷ ws) = write32 (f a) v >> out_all f ws

-- A store of 32 bits to the device memory.
abbrev pub store32 : ℕ → ℕ → M (Unit {0})
store32 a v = tell (mem a v)

-- The call returns, and what it returns satisfies P.
pub data Returns {ℓ κ} {A : Type ℓ} (P : A → Card → Type κ) : Run A → Type (ℓ ⊔ κ) where
  returns : {a : A} {c : Card} → P a c → Returns P (ok a c)

pub Returns-and_then {ℓ κ ι μ} :
    {A : Type ℓ} {P : A → Card → Type ι} {B : Type κ} {Q : B → Card → Type μ} {r : Run A}
    {f : A → M B}
    → Returns P r
    → ((a : A) (c : Card) → P a c → Returns Q (f a c))
    → Returns Q (and_then r f)
Returns-and_then (returns p) k = k _ _ p

pub Returns-map {ℓ κ ι} :
    {A : Type ℓ} {P : A → Card → Type κ} {Q : A → Card → Type ι} {r : Run A}
    → Returns P r
    → ((a : A) (c : Card) → P a c → Q a c)
    → Returns Q r
Returns-map (returns p) k = returns (k _ _ p)

pub Returns-ok {ℓ κ} :
    {A : Type ℓ} {P : A → Card → Type κ} {a : A} {c : Card} → Returns P (ok a c) → P a c
Returns-ok (returns p) = p

module _ (bar : History) where
  -- `dev->axil_bar[a]`.
  abbrev pub read32 : ℕ → M ℕ
  read32 a c = ok (u32 (bar c.clock a)) (record c { clock = c.clock + 1 })

-- `*(uint32_t *)p` and `*(uint64_t *)p` on device memory.
module _ (ram : History) where
  abbrev pub load32 : ℕ → M ℕ
  load32 a c = ok (u32 (ram c.clock a)) (record c { clock = c.clock + 1 })

  abbrev pub load64 : ℕ → M ℕ
  load64 a c =
      ok (u32 (ram c.clock a) + u32 (ram c.clock (u64 (a + 4))) * 2 ^ 32)
        (record c { clock = c.clock + 1 })
