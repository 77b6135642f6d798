-- ===== src/Prelude/Bits.antt =====
-- `bit_or` of fields that do not overlap is their sum, for every width.
use Prim.Native.Nat.{
  ℕ, zero, suc, ◌+◌, ◌*◌, ◌/◌, ◌%◌, ◌^◌, ◌≤◌, ◌<◌, max, bit_or, digits, bit_or-bitwise,
}
use mathlib.Core.Path.{◌≡◌, refl, ap}
use native.Mathlib.Nat.{pow-suc, div-add-mod}
use native.Mathlib.Omega.{arith}

-- The digit recursion that `bit_or` stands for, on any fuel.
abbrev or_digits : ℕ → ℕ → ℕ → ℕ
or_digits n a b = digits (λ b. b) max n a b

or_digits_fuel : (n m a b : ℕ) → a ≤ n → a ≤ m → or_digits n a b ≡ or_digits m a b
or_digits_fuel zero zero a b p q = refl
or_digits_fuel zero (suc m) zero b p q = refl
or_digits_fuel zero (suc m) (suc a) b p q = absurd (omega arith)
or_digits_fuel (suc n) zero zero b p q = refl
or_digits_fuel (suc n) zero (suc a) b p q = absurd (omega arith)
or_digits_fuel (suc n) (suc m) zero b p q = refl
or_digits_fuel (suc n) (suc m) (suc a) b p q =
    omega (arith, or_digits_fuel n m (suc a / 2) (b / 2) (omega arith) (omega arith))

zero-bit_or : (b : ℕ) → bit_or 0 b ≡ b
zero-bit_or b = bit_or-bitwise 0 b

bit_or_step : (a b : ℕ) → bit_or a b ≡ bit_or (a / 2) (b / 2) * 2 + max (a % 2) (b % 2)
bit_or_step zero b = omega (arith, zero-bit_or b, zero-bit_or (b / 2))
bit_or_step (suc a) b = omega (
  arith,
  bit_or-bitwise (suc a) b,
  bit_or-bitwise (suc a / 2) (b / 2),
  or_digits_fuel a (suc a / 2) (suc a / 2) (b / 2) (omega arith) (omega arith),
)

bit_or-zero_fuel : (n a : ℕ) → a ≤ n → bit_or a 0 ≡ a
bit_or-zero_fuel n zero h = refl
bit_or-zero_fuel zero (suc a) h = absurd (omega arith)
bit_or-zero_fuel (suc n) (suc a) h =
    omega (arith, bit_or_step (suc a) 0, bit_or-zero_fuel n (suc a / 2) (omega arith))

bit_or-zero : (a : ℕ) → bit_or a 0 ≡ a
bit_or-zero a = bit_or-zero_fuel a a (omega arith)

mul-two-pow-suc : (q k : ℕ) → q * 2 ^ suc k ≡ q * 2 ^ k * 2
mul-two-pow-suc q k = omega (arith, ap (λ (t : ℕ). q * t) (pow-suc 2 k))

-- A multiple of 2^k and a number below 2^k share no bit.
bit_or_high_low : (k q y : ℕ) → y < 2 ^ k → bit_or (q * 2 ^ k) y ≡ q * 2 ^ k + y
bit_or_high_low zero q y h = ground (arith, bit_or-zero q)
bit_or_high_low (suc k) q y h = ground (
  arith,
  bit_or_step (q * 2 ^ suc k) y,
  mul-two-pow-suc q k,
  pow-suc 2 k,
  bit_or_high_low k q (y / 2),
)

bit_or_low_high : (k q y : ℕ) → y < 2 ^ k → bit_or y (q * 2 ^ k) ≡ y + q * 2 ^ k
bit_or_low_high zero q y h = ground (arith, zero-bit_or q)
bit_or_low_high (suc k) q y h = ground (
  arith,
  bit_or_step y (q * 2 ^ suc k),
  mul-two-pow-suc q k,
  pow-suc 2 k,
  bit_or_low_high k q (y / 2),
)

-- The same with the multiple given by its remainder. At a numeral k `omega` proves the premises.
pub bit_or_disjoint : (k x y : ℕ) → x % 2 ^ k ≡ 0 → y < 2 ^ k → bit_or x y ≡ x + y
bit_or_disjoint k x y e h =
    let m : x ≡ x / 2 ^ k * 2 ^ k = omega (arith, div-add-mod x (2 ^ k)) in
    rw m (bit_or_high_low k (x / 2 ^ k) y h)

pub bit_or_disjoint_low : (k x y : ℕ) → x < 2 ^ k → y % 2 ^ k ≡ 0 → bit_or x y ≡ x + y
bit_or_disjoint_low k x y h e =
    let m : y ≡ y / 2 ^ k * 2 ^ k = omega (arith, div-add-mod y (2 ^ k)) in
    rw m (bit_or_low_high k (y / 2 ^ k) x h)

-- One more field under, or above, a word whose value is known.
pub or_below : (k y : ℕ) {w v : ℕ} → w ≡ v → v % 2 ^ k ≡ 0 → y < 2 ^ k → bit_or w y ≡ v + y
or_below k y {w} {v} e h l = rw e (bit_or_disjoint k v y h l)

pub or_above : (k y : ℕ) {w v : ℕ} → w ≡ v → v < 2 ^ k → y % 2 ^ k ≡ 0 → bit_or w y ≡ v + y
or_above k y {w} {v} e h l = rw e (bit_or_disjoint_low k v y h l)

-- `0 | y`.
pub or_first : (y : ℕ) → bit_or 0 y ≡ y
or_first y = zero-bit_or y
