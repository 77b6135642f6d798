-- ===== src/AirToAie/Locks.antt =====
-- `allocateLockOp` and `getLockForTileDMA` of mlir/lib/Conversion/AIRToAIEPass.cpp. The module's lock
-- operations are the list of their tiles and ids.
pub mod Fresh
pub mod Shared
use mlir_air_mirror.Prelude.{
  ℕ, Bool, true, false, ◌&&◌, ◌==◌, ltb, if◌then◌else◌, Option, none, some, List, [], ◌∷◌, ◌++◌,
  elem, length, first_free,
}

pub record Lock : Type 0 where
  pub tile : ℕ
  pub id : ℕ

-- `ids`, in the order of the walk.
abbrev pub ids_of : ℕ → List Lock → List ℕ
ids_of tile [] = []
ids_of tile (l ∷ ls) = let rest = ids_of tile ls in if l.tile == tile then l.id ∷ rest else rest

abbrev pub create : ℕ → ℕ → List Lock → List Lock × ℕ
create tile id locks = (locks ++ (record { tile = tile; id = id } ∷ []), id)

-- The result names the lock by its id on the tile. A missing id is the default -1, which no lock has.
-- The loop that counts `new_id` up ends at a number that is not among as many ids as there are.
unfoldable pub allocate_lock_op : ℕ → Option ℕ → List Lock → List Lock × ℕ
allocate_lock_op tile none locks =
    let ids = ids_of tile locks in create tile (first_free (length ids) 0 ids) locks
allocate_lock_op tile (some id) locks =
    let ids = ids_of tile locks in
    if elem id ids
    then (locks, id)
    else create tile (if ltb 0 id then id else first_free (length ids) 0 ids) locks

-- An entry of `lock_allocation_list`: a buffer, the lock's id and the channel.
pub record LockAllocation : Type 0 where
  pub buffer : ℕ
  pub lock : ℕ
  pub is_mm2s : Bool
  pub channel : ℕ

abbrev pub same_direction : Bool → Bool → Bool
same_direction true b = b
same_direction false true = false
same_direction false false = true

-- The loop of `getLockForTileDMA`.
unfoldable pub find_lock : ℕ → Bool → ℕ → List LockAllocation → Option ℕ
find_lock buffer is_mm2s channel [] = none
find_lock buffer is_mm2s channel (a ∷ info) =
    let rest = find_lock buffer is_mm2s channel info in
    if buffer == a.buffer && (same_direction is_mm2s (a.is_mm2s) && channel == a.channel)
    then some (a.lock)
    else rest

pub record LockState : Type 0 where
  pub locks : List Lock
  pub info : List LockAllocation

abbrev pub or_allocate : ℕ → ℕ → Bool → ℕ → LockState → Option ℕ → LockState × ℕ
or_allocate tile buffer is_mm2s channel s (some lock) = (s, lock)
or_allocate tile buffer is_mm2s channel s none =
    let r = allocate_lock_op tile none (s.locks) in
    (
      record {
        locks = r.0;
        info =
            s.info
            ++ (record { buffer = buffer; lock = r.1; is_mm2s = is_mm2s; channel = channel } ∷ []);
      },
      r.1,
    )

-- `getLockForTileDMA`, from the buffer, its tile and the channel of the copy.
unfoldable pub get_lock_for_tile_dma : ℕ → ℕ → Bool → ℕ → LockState → LockState × ℕ
unfolding allocate_lock_op find_lock
get_lock_for_tile_dma tile buffer is_mm2s channel s =
    or_allocate tile buffer is_mm2s channel s (find_lock buffer is_mm2s channel (s.info))
