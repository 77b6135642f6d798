-- ===== src/Controller/NdMemcpy.antt =====
-- The ND copies of runtime_lib/controller/main.cpp: a copy is staged in a slot, pushes one
-- descriptor for each row, and saves its loop variables whenever the shim DMA is full.
-- Slots and packets that do not exist read as empty; the theorems are about those that do.
pub mod Address
pub mod Outcome
pub mod Walk
pub mod Resume
pub mod Retry
use mlir_air_mirror.Prelude.{
  ℕ, zero, suc, ◌+◌, ◌-◌, ◌*◌, ◌%◌, ◌^◌, Bool, true, false, if◌then◌else◌, ◌==◌, leb, ltb, List, [],
  ◌∷◌, u64, get_or, set,
}
use mlir_air_mirror.Queue.{Packet, packet_set_active}
use mlir_air_mirror.Queue.Signal.{History}
use mlir_air_mirror.Controller.Decode.{NdCommand, nd_command}
use mlir_air_mirror.Controller.State.{Ctl, Cursor, Staged, M, ◌>>=◌, ◌>>◌, pure, and_then}
use mlir_air_mirror.Controller.ShimDma.{
  get_tile_addr, xaie_shim_dma_get_outstanding, xaie_shim_dma_push_bd, xaie_shim_dma_wait_idle,
}

abbrev pub num_shim_dmas : ℕ
num_shim_dmas = 16

abbrev pub shim_dma_cols : List ℕ
shim_dma_cols = 2 ∷ 3 ∷ 6 ∷ 7 ∷ 10 ∷ 11 ∷ 18 ∷ 19 ∷ 26 ∷ 27 ∷ 34 ∷ 35 ∷ 42 ∷ 43 ∷ 46 ∷ 47 ∷ []

abbrev pub col_dma_cols : List ℕ
col_dma_cols = 7 ∷ 8 ∷ 9 ∷ 10 ∷ []

-- `for (i ...) if (col == cols[i]) return i * 4 + base`, and 0 behind the loop.
unfoldable pub slot_in : List ℕ → ℕ → ℕ → ℕ
slot_in [] i col = 0
slot_in (x ∷ xs) slot col = if col == x then slot else slot_in xs (slot + 4) col

unfoldable pub get_slot : ℕ → ℕ → ℕ
unfolding slot_in
get_slot col space =
    if space == 2
    then slot_in shim_dma_cols 0 col
    else if space == 1
    then slot_in col_dma_cols (num_shim_dmas * 4) col
    else 0

abbrev pub start_cursor : ℕ → Cursor
start_cursor paddr = record {
  index_4d = 0;
  index_3d = 0;
  index_2d = 0;
  paddr_3d = paddr;
  paddr_2d = paddr;
  paddr_1d = paddr;
}

abbrev pub no_slot : Staged
no_slot = record { valid = 0; pkt = 0; cursor = start_cursor 0 }

abbrev pub no_packet : Packet
no_packet = record {
  header = 0;
  type = 0;
  reserved0 = 0;
  return_address = 0;
  arg0 = 0;
  arg1 = 0;
  arg2 = 0;
  arg3 = 0;
  reserved1 = 0;
  completion_signal = 0;
}

abbrev pub slot_at : Ctl → ℕ → Staged
slot_at c slot = get_or c.slots slot no_slot

abbrev pub packet_at : Ctl → ℕ → Packet
packet_at c pkt = get_or c.packets pkt no_packet

abbrev pub set_packet : ℕ → (Packet → Packet) → M (Unit {0})
set_packet pkt f c = pure tt (record c { packets = set c.packets pkt (f (packet_at c pkt)) })

unfoldable pub nd_dma_put_checkpoint : ℕ → ℕ → Cursor → M (Unit {0})
nd_dma_put_checkpoint pkt slot cursor c =
    pure tt (record c {
      slots = set c.slots slot (record (slot_at c slot) { pkt = pkt; cursor = cursor });
    })

unfoldable pub nd_dma_get_checkpoint : ℕ → M (ℕ × Cursor)
nd_dma_get_checkpoint slot c = pure ((slot_at c slot).pkt, (slot_at c slot).cursor) c

pub data Stop : Type 0 where
  stalled finished : Stop

-- `return` out of the loops on a stall.
abbrev pub unless_stalled : Stop × Cursor → (Cursor → M (Stop × Cursor)) → M (Stop × Cursor)
unless_stalled (stalled, cur) k = pure (stalled, cur)
unless_stalled (finished, cur) k = k cur

module _ (cmd : NdCommand) where
  -- The steps at the ends of the three loop bodies.
  abbrev pub step_2d : Cursor → Cursor
  step_2d cur = record cur {
    index_2d = cur.index_2d + 1;
    paddr_1d = u64 (cur.paddr_1d + cmd.stride_2d);
  }

  abbrev pub step_3d : Cursor → Cursor
  step_3d cur = record cur {
    index_2d = 0;
    index_3d = cur.index_3d + 1;
    paddr_2d = u64 (cur.paddr_2d + cmd.stride_3d);
    paddr_1d =
        if ltb (cur.index_3d + 1) cmd.length_3d
        then u64 (cur.paddr_2d + cmd.stride_3d)
        else u64 (cur.paddr_3d + cmd.stride_4d);
  }

  abbrev pub step_4d : Cursor → Cursor
  step_4d cur = record cur {
    index_3d = 0;
    index_4d = cur.index_4d + 1;
    paddr_3d = u64 (cur.paddr_3d + cmd.stride_4d);
    paddr_2d = u64 (cur.paddr_3d + cmd.stride_4d);
  }

  abbrev pub tile_of : ℕ
  tile_of = get_tile_addr cmd.col 0

module _ (env : History) (fuel : ℕ) (cmd : NdCommand) where
  -- The loops of `do_packet_nd_memcpy`, on the rounds that are left. A loop that stalls hands its
  -- variables over to be saved.
  unfoldable pub loop_2d : ℕ → Cursor → M (Stop × Cursor)
  loop_2d zero cur = pure (finished, cur)
  loop_2d (suc n) cur = do
    outstanding ← xaie_shim_dma_get_outstanding env (tile_of cmd) cmd.direction cmd.channel
    if leb 4 outstanding
        then pure (stalled, cur)
        else (xaie_shim_dma_push_bd env fuel (tile_of cmd) cmd.direction cmd.channel cmd.col
              cur.paddr_1d cmd.length_1d
            >>= λ _. loop_2d n (step_2d cmd cur))

  unfoldable pub loop_3d : ℕ → Cursor → M (Stop × Cursor)
  loop_3d zero cur = pure (finished, cur)
  loop_3d (suc n) cur = do
    r ← loop_2d (cmd.length_2d - cur.index_2d) cur
    unless_stalled r (λ cur'. loop_3d n (step_3d cmd cur'))

  unfoldable pub loop_4d : ℕ → Cursor → M (Stop × Cursor)
  loop_4d zero cur = pure (finished, cur)
  loop_4d (suc n) cur = do
    r ← loop_3d (cmd.length_3d - cur.index_3d) cur
    unless_stalled r (λ cur'. loop_4d n (step_4d cmd cur'))

  -- Behind the loops: 1 when the copy has to be resumed, 0 when it is done.
  abbrev pub finish_copy : ℕ → ℕ → Stop × Cursor → M ℕ
  unfolding nd_dma_put_checkpoint
  finish_copy slot pkt (stalled, cur) = do nd_dma_put_checkpoint pkt slot cur; pure 1
  finish_copy slot pkt (finished, cur) = do
    wait_idle_ret ← xaie_shim_dma_wait_idle env (tile_of cmd) cmd.direction cmd.channel
    if wait_idle_ret == 0 then pure tt else nd_dma_put_checkpoint pkt slot cur
    pure wait_idle_ret

  -- `do_packet_nd_memcpy` from the checkpoint on.
  unfoldable pub nd_memcpy_from : ℕ → ℕ → Cursor → M ℕ
  unfolding nd_dma_put_checkpoint
  nd_memcpy_from slot pkt cur = do
    r ← loop_4d (cmd.length_4d - cur.index_4d) cur
    finish_copy slot pkt r

module _ (env : History) (fuel : ℕ) where
  unfoldable pub do_packet_nd_memcpy : ℕ → M ℕ
  unfolding nd_dma_get_checkpoint
  do_packet_nd_memcpy slot = do
    saved ← nd_dma_get_checkpoint slot
    λ c. nd_memcpy_from env fuel (nd_command (packet_at c saved.0)) slot saved.0 saved.1 c

  unfoldable pub do_packet_memcpy : ℕ → M ℕ
  do_packet_memcpy slot = if leb (num_shim_dmas * 4) slot then pure 0 else do_packet_nd_memcpy slot

-- `staged_nd_slot[slot].valid = v`.
abbrev pub set_valid : ℕ → ℕ → M (Unit {0})
set_valid slot v c =
    pure tt (record c { slots = set c.slots slot (record (slot_at c slot) { valid = v }) })

abbrev stage_copy : ℕ → ℕ → ℕ → M ℕ
unfolding nd_dma_put_checkpoint
stage_copy pkt slot paddr = do
  nd_dma_put_checkpoint pkt slot (start_cursor paddr)
  set_valid slot 1
  pure 0

-- 0 when the copy is staged, 1 for a memory space that is not supported, 2 when the slot is busy.
unfoldable pub stage_packet_nd_memcpy : ℕ → ℕ → ℕ → M ℕ
unfolding nd_dma_put_checkpoint packet_set_active
stage_packet_nd_memcpy pkt slot memory_space c =
    if (slot_at c slot).valid == 0 then staging c else pure 2 c
  where
    staging : M ℕ
    staging = do
      set_packet pkt (λ p. packet_set_active p true)
      if memory_space == 2 then stage_copy pkt slot (packet_at c pkt).arg1 else pure 1
