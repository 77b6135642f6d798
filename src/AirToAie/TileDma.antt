-- ===== src/AirToAie/TileDma.antt =====
-- `getTileDMAChannel` of mlir/lib/Conversion/AIRToAIEPass.cpp, for one of its directions.
pub mod Stable
use mlir_air_mirror.Prelude.{
  ℕ, ◌+◌, ◌%◌, Bool, true, false, ◌&&◌, ◌==◌, if◌then◌else◌, Option, none, some, List, [], ◌∷◌,
  ◌++◌,
}

abbrev pub tile_dma_channels : ℕ
tile_dma_channels = 2

-- An entry of `tile_dma_MM2S_allocs` or `tile_dma_S2MM_allocs`.
pub record TileAlloc : Type 0 where
  pub id : ℕ
  pub col : ℕ
  pub row : ℕ
  pub chan : ℕ

abbrev pub on_tile : ℕ → ℕ → TileAlloc → Bool
on_tile col row t = col == t.col && row == t.row

-- The loop, with `chan` and `num_allocs`; none is -1.
unfoldable pub scan : ℕ → ℕ → ℕ → List TileAlloc → Option ℕ → ℕ → Option ℕ × ℕ
scan id col row [] chan num_allocs = (chan, num_allocs)
scan id col row (t ∷ ts) chan num_allocs =
    scan id col row ts (if on_tile col row t && id == t.id then some (t.chan) else chan)
      (if on_tile col row t then num_allocs + 1 else num_allocs)

abbrev pub found_or_new : ℕ → ℕ → ℕ → List TileAlloc → Option ℕ × ℕ → List TileAlloc × ℕ
found_or_new id col row allocs (some chan, num_allocs) = (allocs, chan)
found_or_new id col row allocs (none, num_allocs) =
    let chan = num_allocs % tile_dma_channels in
    (allocs ++ (record { id = id; col = col; row = row; chan = chan } ∷ []), chan)

unfoldable pub get_tile_dma_channel : ℕ → ℕ → ℕ → List TileAlloc → List TileAlloc × ℕ
unfolding scan
get_tile_dma_channel id col row allocs =
    found_or_new id col row allocs (scan id col row allocs none 0)
