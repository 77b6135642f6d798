-- ===== src/AirToAie/Tests.antt =====
-- Two tiles, two columns of shim DMAs, and a few copies.
use mathlib.Core.Option.{none-ne-some}
use mlir_air_mirror.Prelude.{
  ℕ, ◌/◌, ◌≡◌, refl, true, Option, none, some, List, [], ◌∷◌, get_elem?, first_free, length, arith,
}
use mlir_air_mirror.AirToAie.Locks.{
  Lock, ids_of, allocate_lock_op, LockState, get_lock_for_tile_dma,
}
use mlir_air_mirror.AirToAie.Locks.Fresh.{Allocated, Chosen, allocate_lock_op-Allocated}
use mlir_air_mirror.AirToAie.Locks.Shared.{Key, Separate, Locked, get_lock_for_tile_dma-Separate}
use mlir_air_mirror.AirToAie.TileDma.{TileAlloc, get_tile_dma_channel}
use mlir_air_mirror.AirToAie.TileDma.Stable.{Assigned, get_tile_dma_channel-Assigned}
use mlir_air_mirror.AirToAie.DmaAllocator.{Allocation, Tiled, get_tile}
use mlir_air_mirror.AirToAie.DmaAllocator.Slots.{index_of, place, users_of, Slots}
use mlir_air_mirror.AirToAie.BdProgram.{DmaCopy, DmaChannel, s2mm, mm2s, bd_blocks, bd_program}
use mlir_air_mirror.AirToAie.BdProgram.Chain.{Chained}
use mlir_air_mirror.AirToAie.BdProgram.Channels.{AllRings, bd_program-AllRings}
use mlir_air_mirror.AirToAie.DmaAllocator.Place.{Placed, get_tile-Placed}

abbrev some_locks : List Lock
some_locks =
    record { tile = 5; id = 0 } ∷ record { tile = 5; id = 2 } ∷ record { tile = 6; id = 1 } ∷ []

allocate_lock_op_test : (allocate_lock_op 5 none some_locks).1 ≡ 1
unfolding allocate_lock_op first_free
allocate_lock_op_test = refl

allocate_lock_op-Allocated_example :
    Allocated 5 some_locks (allocate_lock_op 5 none some_locks)
    × Chosen none (ids_of 5 some_locks) (allocate_lock_op 5 none some_locks).1
allocate_lock_op-Allocated_example = allocate_lock_op-Allocated 5 none some_locks

-- All buffers are on tile 7.
abbrev tile_seven : ℕ → ℕ
tile_seven buffer = 7

abbrev no_locks : LockState
no_locks = record { locks = []; info = [] }

abbrev one_lock : LockState
one_lock = record {
  locks = record { tile = 7; id = 0 } ∷ [];
  info = record { buffer = 3; lock = 0; is_mm2s = true; channel = 0 } ∷ [];
}

abbrev first_key : Key
first_key = (3, true, 0)

abbrev second_key : Key
second_key = (4, true, 0)

no_locks-Separate : Separate tile_seven no_locks
unfolding get_lock_for_tile_dma
no_locks-Separate = record {
  exists_lock = λ k l h. absurd (none-ne-some l h);
  apart = λ k k' l t h h'. absurd (none-ne-some l h);
}

one_lock-Separate : Separate tile_seven one_lock
unfolding get_lock_for_tile_dma first_free
one_lock-Separate =
    (get_lock_for_tile_dma-Separate tile_seven first_key no_locks no_locks-Separate).0

get_lock_for_tile_dma-Separate_example :
    Separate tile_seven (get_lock_for_tile_dma 7 4 true 0 one_lock).0
    × Locked second_key one_lock (get_lock_for_tile_dma 7 4 true 0 one_lock)
get_lock_for_tile_dma-Separate_example =
    get_lock_for_tile_dma-Separate tile_seven second_key one_lock one_lock-Separate

abbrev some_allocs : List TileAlloc
some_allocs =
    record { id = 9; col = 1; row = 2; chan = 0 }
    ∷ record { id = 9; col = 1; row = 3; chan = 0 }
    ∷ []

get_tile_dma_channel_test : (get_tile_dma_channel 8 1 2 some_allocs).1 ≡ 1
unfolding get_tile_dma_channel
get_tile_dma_channel_test = refl

get_tile_dma_channel-Assigned_example :
    Assigned 8 1 2 some_allocs (get_tile_dma_channel 8 1 2 some_allocs)
get_tile_dma_channel-Assigned_example = get_tile_dma_channel-Assigned 8 1 2 some_allocs

abbrev shim_cols : List ℕ
shim_cols = 2 ∷ 3 ∷ []

-- All copies use channel 0 of their tiles.
abbrev channel_zero : ℕ → ℕ → ℕ → ℕ
channel_zero id col row = 0

abbrev shim_allocs : List Allocation
shim_allocs =
    record { dma_col = 2; col = 1; row = 2; dma_channel = 0; tile_channel = 0; dma_id = 4 ∷ [] }
    ∷ record {
      dma_col = 2;
      col = 1;
      row = 3;
      dma_channel = 1;
      tile_channel = 0;
      dma_id = 4 ∷ 6 ∷ [];
    }
    ∷ []

shim_allocs-Slots : Slots shim_cols 2 channel_zero 0 shim_allocs
shim_allocs-Slots = (refl, refl, λ id h. refl, refl, (refl, refl, λ id h. refl, refl, tt))

abbrev column_of : Option Tiled → ℕ
column_of none = 0
column_of (some r) = r.1

get_tile_test : column_of (get_tile shim_cols 2 5 0 2 2 shim_allocs) ≡ 3
unfolding get_tile
get_tile_test = refl

get_tile-Placed_example :
    Placed shim_cols 2 channel_zero 5
      (2, 2, 0)
      (users_of shim_allocs)
      (index_of (2, 2, 0) (users_of shim_allocs))
      (get_elem? shim_cols
        (place (users_of shim_allocs) (index_of (2, 2, 0) (users_of shim_allocs)) / 2))
      (get_tile shim_cols 2 5 0 2 2 shim_allocs)
get_tile-Placed_example =
    get_tile-Placed shim_cols 2 channel_zero 5 2 2 shim_allocs shim_allocs-Slots

abbrev copy_of : ℕ → Option ℕ → DmaCopy
copy_of n size = record {
  buffer = n;
  lock = n;
  length_operand = none;
  src_memory_space = 0;
  dst_memory_space = 2;
  src_sizes = some 4 ∷ size ∷ [];
  dst_sizes = [];
}

-- Three copies on one channel and one on another.
abbrev two_channels : List (DmaChannel × List DmaCopy)
two_channels =
    (
      record { direction = s2mm; number = 0 },
      copy_of 1 (some 8) ∷ copy_of 2 none ∷ copy_of 3 (some 1) ∷ [],
    )
    ∷ (record { direction = mm2s; number = 1 }, copy_of 4 (some 2) ∷ [])
    ∷ []

bd_program_test : length ((bd_program two_channels).body) ≡ 7
unfolding bd_program mlir_air_mirror.AirToAie.BdProgram.add_channels bd_blocks
bd_program_test = refl

bd_program-AllRings_example :
    AllRings (bd_program two_channels).body two_channels
    × Chained (bd_program two_channels) two_channels
bd_program-AllRings_example = bd_program-AllRings two_channels (omega arith, (omega arith, tt))
