-- ===== src/Controller/Uart.antt =====
-- `lock_uart` and `unlock_uart` of runtime_lib/controller/main.cpp. Controllers share two words of
-- memory; each access to a word is a step of its own, and a schedule says whose step is next.
pub mod Race
use mlir_air_mirror.Prelude.{
  ℕ, zero, suc, ◌+◌, Bool, true, false, ◌&&◌, if◌then◌else◌, ◌==◌, List, [], ◌∷◌,
}

-- `ulb[0]` and `ulb[1]`.
pub record Words : Type 0 where
  pub status : ℕ
  pub lockee : ℕ

-- Where a controller stands in `lock_uart` and `unlock_uart`: before the first read, before the
-- store of its id, before that of the status, before the two reads back, holding the lock, and
-- between the two stores of `unlock_uart`.
pub data Place : Type 0 where
  try : Place
  store_id : Place
  store_status : Place
  read_status : Place
  read_lockee : ℕ → Place
  holding : Place
  unlocking : Place

-- The next access of `lock_uart(id)`; a controller that holds the lock does nothing here.
unfoldable pub lock_step : ℕ → Place → Words → Place × Words
lock_step id try w = (if w.status == 1 then try else store_id, w)
lock_step id store_id w = (store_status, record w { lockee = id })
lock_step id store_status w = (read_status, record w { status = 1 })
lock_step id read_status w = (read_lockee w.status, w)
lock_step id (read_lockee status) w = (if status == 1 && w.lockee == id then holding else try, w)
lock_step id holding w = (holding, w)
lock_step id unlocking w = (unlocking, w)

-- The next access of `unlock_uart()`, for a controller that holds the lock.
unfoldable pub unlock_step : Place → Words → Place × Words
unlock_step holding w = (unlocking, record w { lockee = 0 })
unlock_step unlocking w = (try, record w { status = 0 })
unlock_step try w = (try, w)
unlock_step store_id w = (store_id, w)
unlock_step store_status w = (store_status, w)
unlock_step read_status w = (read_status, w)
unlock_step (read_lockee status) w = (read_lockee status, w)

-- Two controllers.
pub record Pair : Type 0 where
  pub words : Words
  pub first : Place
  pub second : Place

-- One step of the first controller for `true`, of the second for `false`, both in `lock_uart`.
unfoldable pub pair_step : ℕ → ℕ → Bool → Pair → Pair
unfolding lock_step
pair_step a b true p =
    let (place, words) = lock_step a p.first p.words in record p { first = place; words = words }
pair_step a b false p =
    let (place, words) = lock_step b p.second p.words in record p { second = place; words = words }

unfoldable pub run : ℕ → ℕ → List Bool → Pair → Pair
unfolding pair_step
run a b [] p = p
run a b (who ∷ schedule) p = run a b schedule (pair_step a b who p)
