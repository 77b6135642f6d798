-- ===== src/AirToAie/DmaAllocator.antt =====
-- `DMAAllocator` of mlir/lib/Conversion/AIRToAIEPass.cpp, for one of its directions.
pub mod Slots
pub mod Find
pub mod Append
pub mod Place
use mlir_air_mirror.Prelude.{
  ℕ, ◌/◌, ◌%◌, Bool, true, false, ◌&&◌, ◌||◌, ◌==◌, if◌then◌else◌, Option, none, some, List, [],
  ◌∷◌, ◌++◌, elem, length, get_elem?,
}

-- `allocation_info_t`; the tile is that of row 0 in column `dma_col`.
pub record Allocation : Type 0 where
  pub dma_col : ℕ
  pub col : ℕ
  pub row : ℕ
  pub dma_channel : ℕ
  pub tile_channel : ℕ
  pub dma_id : List ℕ

abbrev pub Tiled : Type 0
Tiled = List Allocation × ℕ

abbrev pub is_at : ℕ → ℕ → Allocation → Bool
is_at col row t = col == t.col && row == t.row

abbrev pub add_id : ℕ → Allocation → Allocation
add_id id t = record {
  dma_col = t.dma_col;
  col = t.col;
  row = t.row;
  dma_channel = t.dma_channel;
  tile_channel = t.tile_channel;
  dma_id = t.dma_id ++ (id ∷ []);
}

abbrev pub behind : Allocation → Option Tiled → Option Tiled
behind t none = none
behind t (some (allocs, c)) = some (t ∷ allocs, c)

-- The loop of `getTile`.
unfoldable pub find_tile : ℕ → ℕ → ℕ → ℕ → List Allocation → Option Tiled
find_tile id tile_channel col row [] = none
find_tile id tile_channel col row (t ∷ ts) =
    let rest = find_tile id tile_channel col row ts in
    if is_at col row t
    then if elem id (t.dma_id)
      then some (t ∷ ts, t.dma_col)
      else if tile_channel == t.tile_channel
      then some (add_id id t ∷ ts, t.dma_col)
      else behind t rest
    else behind t rest

module _ (dma_columns : List ℕ) (dma_channels : ℕ) where
  abbrev pub new_allocation : ℕ → ℕ → ℕ → ℕ → List Allocation → Option ℕ → Option Tiled
  new_allocation id tile_channel col row allocs none = none
  new_allocation id tile_channel col row allocs (some dma_col) = some (
    allocs
        ++ (record {
          dma_col = dma_col;
          col = col;
          row = row;
          dma_channel = length allocs % dma_channels;
          tile_channel = tile_channel;
          dma_id = id ∷ [];
        }
            ∷ []),
    dma_col,
  )

  abbrev pub or_new : ℕ → ℕ → ℕ → ℕ → List Allocation → Option Tiled → Option Tiled
  or_new id tile_channel col row allocs (some r) = some r
  or_new id tile_channel col row allocs none =
      new_allocation id tile_channel col row allocs
        (get_elem? dma_columns (length allocs / dma_channels))

  -- `getTile`. A read of `dma_columns` past its end is undefined in C++; it has no result here.
  unfoldable pub get_tile : ℕ → ℕ → ℕ → ℕ → List Allocation → Option Tiled
  unfolding find_tile
  get_tile id tile_channel col row allocs =
      or_new id tile_channel col row allocs (find_tile id tile_channel col row allocs)

-- The loop of `getChannel`, from the value of `chan`; none is -1.
unfoldable pub find_channel : ℕ → ℕ → ℕ → ℕ → List Allocation → Option ℕ → Option ℕ
find_channel id tile_channel col row [] chan = chan
find_channel id tile_channel col row (t ∷ ts) chan = find_channel id tile_channel col row ts (
    if is_at col row t && (elem id (t.dma_id) || tile_channel == t.tile_channel)
    then some (t.dma_channel)
    else chan)

unfoldable pub get_channel : ℕ → ℕ → ℕ → ℕ → List Allocation → Option ℕ
unfolding find_channel
get_channel id tile_channel col row allocs = find_channel id tile_channel col row allocs none
