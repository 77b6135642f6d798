-- ===== src/Controller/State.antt =====
-- The memory of the controller (runtime_lib/controller/main.cpp): its globals, the packets of its
-- queue, and what it has written to the registers of the device. Registers are read through a
-- history: `env t a` is what the t-th read finds at address `a`, for any behaviour of the device.
use mlir_air_mirror.Prelude.{ℕ, ◌+◌, Bool, List, ◌∷◌, Option, none, some}
use mlir_air_mirror.Queue.{Packet, Queue}
use mlir_air_mirror.Queue.Signal.{History}

-- `HerdConfig`.
pub record HerdConfig : Type 0 where
  pub row_start : ℕ
  pub num_rows : ℕ
  pub col_start : ℕ
  pub num_cols : ℕ

-- Where an ND copy stands: the loop variables that a checkpoint saves.
pub record Cursor : Type 0 where
  pub index_4d : ℕ
  pub index_3d : ℕ
  pub index_2d : ℕ
  pub paddr_3d : ℕ
  pub paddr_2d : ℕ
  pub paddr_1d : ℕ

-- `staged_nd_memcpy_t`. A packet pointer is the index of the packet in the queue.
pub record Staged : Type 0 where
  pub valid : ℕ
  pub pkt : ℕ
  pub cursor : Cursor

pub record Ctl : Type 0 where
  pub clock : ℕ
  -- address and value, newest first
  pub writes : List (ℕ × ℕ)
  pub last_bd : List ℕ
  pub slots : List Staged
  pub packets : List Packet
  pub queue : Queue
  pub herd : HerdConfig
  pub setup : Bool

-- A step of the firmware; `none` is a wait that has used up its fuel.
abbrev pub M {ℓ} : Type ℓ → Type ℓ
M A = Ctl → Option (A × Ctl)

abbrev pub and_then {ℓ κ} :
    {A : Type ℓ} {B : Type κ} → Option (A × Ctl) → (A → M B) → Option (B × Ctl)
and_then none f = none
and_then (some (a, c)) f = f a c

infixl 5 ◌>>=◌ ◌>>◌
abbrev pub ◌>>=◌ {ℓ κ} : {A : Type ℓ} {B : Type κ} → M A → (A → M B) → M B
◌>>=◌ m f c = and_then (m c) f

abbrev pub ◌>>◌ {ℓ} : {B : Type ℓ} → M (Unit {0}) → M B → M B
◌>>◌ m k = m >>= λ _. k

abbrev pub pure {ℓ} : {A : Type ℓ} → A → M A
pure a c = some (a, c)

-- `xaie::in32`.
abbrev pub in32 : History → ℕ → M ℕ
in32 env a c = some (env c.clock a, record c { clock = c.clock + 1 })

-- `xaie::out32`.
abbrev pub out32 : ℕ → ℕ → M (Unit {0})
out32 a v c = some (tt, record c { writes = (a, v) ∷ c.writes })

-- Total correctness: the step returns, and what it returns satisfies P.
abbrev pub Returns {ℓ} : {A : Type ℓ} → (A × Ctl → Type 0) → Option (A × Ctl) → Type 0
Returns P none = ⊥
Returns P (some r) = P r

-- The rules for a sequence of two steps.
pub Returns-and_then {ℓ κ} :
    {A : Type ℓ} {B : Type κ} (P : A × Ctl → Type 0) (Q : B × Ctl → Type 0) (f : A → M B)
    (o : Option (A × Ctl))
    → Returns P o
    → ((a : A) (c : Ctl) → P (a, c) → Returns Q (f a c))
    → Returns Q (and_then o f)
Returns-and_then P Q f none p q = absurd p
Returns-and_then P Q f (some (a, c)) p q = q a c p

pub Returns-map {ℓ} :
    {A : Type ℓ} (P Q : A × Ctl → Type 0) (o : Option (A × Ctl))
    → Returns P o
    → ((r : A × Ctl) → P r → Q r)
    → Returns Q o
Returns-map P Q none p q = absurd p
Returns-map P Q (some r) p q = q r p
