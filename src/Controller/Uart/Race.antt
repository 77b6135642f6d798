-- ===== src/Controller/Uart/Race.antt =====
-- What `lock_uart` keeps and what it does not.
use mlir_air_mirror.Prelude.{ℕ, ◌≡◌, ◌≢◌, refl, arith, Bool, true, false, ◌==◌, List, [], ◌∷◌}
use mlir_air_mirror.Controller.Uart.{Place, Pair, run}

-- The lock is free and both controllers are before it.
abbrev pub free : ℕ → ℕ → Pair
free status lockee = record {
  words = record { status = status; lockee = lockee };
  first = Place.try;
  second = Place.try;
}

same : (a : ℕ) → (a == a) ≡ true
same a = ground arith

differs : (s : ℕ) → s ≢ 1 → (s == 1) ≡ false
differs s h = ground arith

-- Both read the free lock; the first goes on until it holds it, and then the second does.
abbrev pub overtaking : List Bool
overtaking = true ∷ false ∷ true ∷ true ∷ true ∷ true ∷ false ∷ false ∷ false ∷ false ∷ []

-- For a status word that is not 1, there is a schedule under which any two controllers that begin
-- `lock_uart` both come to hold the lock: both read the free lock, the first goes on until it holds
-- it, and then the second does.
pub run-overtaking :
    (a b status lockee : ℕ)
    → status ≢ 1
    → let p = run a b overtaking (free status lockee) in
      (p.first ≡ Place.holding) × (p.second ≡ Place.holding)
unfolding run
run-overtaking a b status lockee h = rw (differs status h, same a, same b) (refl, refl)

-- For a status word that is not 1, a controller that runs `lock_uart` alone holds the lock after
-- five accesses, with its id in the second word.
pub run-alone :
    (a b status lockee : ℕ)
    → status ≢ 1
    → run a b (true ∷ true ∷ true ∷ true ∷ true ∷ []) (free status lockee) ≡ record {
      words = record { status = 1; lockee = a };
      first = Place.holding;
      second = Place.try;
    }
unfolding run
run-alone a b status lockee h = rw (differs status h, same a) refl
