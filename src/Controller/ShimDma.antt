-- ===== src/Controller/ShimDma.antt =====
-- The shim DMA functions of runtime_lib/controller/main.cpp. A register's address is the tile's plus
-- an offset; the sums stay below 2^64 for the addresses of `get_tile_addr`.
pub mod Push
use mlir_air_mirror.Prelude.{
  ℕ, zero, suc, ◌+◌, ◌*◌, ◌/◌, ◌%◌, ◌^◌, Bool, true, false, if◌then◌else◌, ◌==◌, leb, ltb, bit_or,
  field, u32, get_or, set, none, u64,
}
use mlir_air_mirror.Queue.Signal.{History}
use mlir_air_mirror.Controller.State.{M, ◌>>=◌, ◌>>◌, pure, in32, out32}

-- `xaie::getTileAddr` of the MicroBlaze build, for a column below 256 and a row below 32. (The ARM
-- build calls the vendor's library.)
unfoldable pub get_tile_addr : ℕ → ℕ → ℕ
get_tile_addr col row = u64 (bit_or (bit_or (0x800 * 2 ^ 30) (col * 2 ^ 23)) (row * 2 ^ 18))

-- `direction == SHIM_DMA_S2MM`.
abbrev pub is_s2mm : ℕ → Bool
is_s2mm direction = direction == 0

abbrev pub status_register_offset : ℕ → ℕ
status_register_offset direction = if is_s2mm direction then 0x1d160 else 0x1d164

abbrev pub status_mask_shift : ℕ → ℕ
status_mask_shift channel = if channel == 0 then 0 else 2

abbrev pub start_queue_size_mask_shift : ℕ → ℕ
start_queue_size_mask_shift channel = if channel == 0 then 6 else 9

abbrev pub control_register_offset : ℕ → ℕ → ℕ
control_register_offset direction channel =
    if is_s2mm direction
    then if channel == 0 then 0x1d140 else 0x1d148
    else if channel == 0
    then 0x1d150
    else 0x1d158

abbrev pub start_queue_register_offset : ℕ → ℕ → ℕ
start_queue_register_offset direction channel =
    if is_s2mm direction
    then if channel == 0 then 0x1d144 else 0x1d14c
    else if channel == 0
    then 0x1d154
    else 0x1d15c

-- `shimDMAchannel`.
abbrev pub shim_dma_channel : ℕ → ℕ → ℕ
shim_dma_channel direction channel = if is_s2mm direction then channel + 0 else channel + 2

-- The counter of `last_bd` that the column, the direction and the channel select.
abbrev pub bd_slot : ℕ → ℕ → ℕ → ℕ
bd_slot direction channel col =
    channel + (if col % 2 == 1 then 4 else 0) + (if is_s2mm direction then 0 else 2)

-- `bd`, taken in turn from the four descriptors of the channel. The code does not check that the slot is
-- one of its eight; behind them, this reads 0 and writes nothing.
abbrev pub next_bd : ℕ → ℕ → ℕ → M ℕ
next_bd direction channel col c =
    let slot = bd_slot direction channel col in
    let last = get_or c.last_bd slot 0 in
    pure (4 * shim_dma_channel direction channel + last)
      (record c { last_bd = set c.last_bd slot (if last == 3 then 0 else last + 1) })

module _ (env : History) where
  unfoldable pub xaie_shim_dma_get_outstanding : ℕ → ℕ → ℕ → M ℕ
  xaie_shim_dma_get_outstanding tile direction channel = do
    status ← in32 env (tile + status_register_offset direction)
    pure (field status (start_queue_size_mask_shift channel) 3)

  -- The loop of `xaie_shim_dma_wait_idle` with the timeouts left: 1 when it times out, 0 when idle.
  unfoldable pub wait_idle : ℕ → ℕ → ℕ → ℕ → M ℕ
  wait_idle zero tile direction channel = do
    status ← in32 env (tile + status_register_offset direction)
    pure (if field status (status_mask_shift channel) 2 == 0 then 0 else 1)
  wait_idle (suc n) tile direction channel = do
    status ← in32 env (tile + status_register_offset direction)
    if field status (status_mask_shift channel) 2 == 0
        then pure 0
        else wait_idle n tile direction channel

  unfoldable pub xaie_shim_dma_wait_idle : ℕ → ℕ → ℕ → M ℕ
  xaie_shim_dma_wait_idle tile direction channel = wait_idle 100 tile direction channel

  -- `while (waiting)` of `xaie_shim_dma_push_bd`, which has no bound, on fuel.
  unfoldable pub wait_room : ℕ → ℕ → ℕ → ℕ → M (Unit {0})
  wait_room zero tile direction channel c = none
  wait_room (suc fuel) tile direction channel c =
      let read = env c.clock (tile + status_register_offset direction) in
      let c' = record c { clock = c.clock + 1 } in
      elim (ltb 3 (field read (start_queue_size_mask_shift channel) 3)) [
        | true ↦ wait_room fuel tile direction channel c'
        | false ↦ pure tt c'
      ]

  -- The second half of `xaie_shim_dma_push_bd`: choose a descriptor, write it and queue it.
  unfoldable pub program_bd : ℕ → ℕ → ℕ → ℕ → ℕ → ℕ → M ℕ
  program_bd tile direction channel col addr len = do
    bd ← next_bd direction channel col
    out32 (tile + 0x1d008 + bd * 0x14) 0
    out32 (tile + (0x1d000 + bd * 0x14) + 0x00) (u32 addr)
    out32 (tile + (0x1d000 + bd * 0x14) + 0x04) (len / 4)
    out32 (tile + (0x1d000 + bd * 0x14) + 0x08) (u32 (bit_or (addr / 2 ^ 32 * 2 ^ 16) 1))
    out32 (tile + (0x1d000 + bd * 0x14) + 0x0c) 0x410
    out32 (tile + (0x1d000 + bd * 0x14) + 0x10) 0x0
    precheck ← in32 env (tile + status_register_offset direction)
    if field precheck (status_mask_shift channel) 2 == 0
        then out32 (tile + control_register_offset direction channel) 0xb001
        else pure tt
    out32 (tile + start_queue_register_offset direction channel) bd
    pure 1

  unfoldable pub xaie_shim_dma_push_bd : ℕ → ℕ → ℕ → ℕ → ℕ → ℕ → ℕ → M ℕ
  unfolding xaie_shim_dma_get_outstanding
  xaie_shim_dma_push_bd fuel tile direction channel col addr len = do
    outstanding ← xaie_shim_dma_get_outstanding tile direction channel
    if leb 4 outstanding then wait_room fuel tile direction channel else pure tt
    program_bd tile direction channel col addr len
