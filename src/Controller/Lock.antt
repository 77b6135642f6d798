-- ===== src/Controller/Lock.antt =====
-- The tile locks of runtime_lib/controller/main.cpp. A lock is taken or given back by reading one of
-- its registers: bit 0 of the answer says whether the lock was granted. The mask and the value of
-- `maskpoll32` are 1 in every call.
pub mod Granted
use mlir_air_mirror.Prelude.{ℕ, zero, suc, ◌+◌, ◌*◌, ◌%◌, true, if◌then◌else◌, ◌==◌, u16, u32}
use mlir_air_mirror.Queue.{packet_set_active}
use mlir_air_mirror.Queue.Signal.{History}
use mlir_air_mirror.Controller.Decode.{LockCommand, lock_command}
use mlir_air_mirror.Controller.State.{Ctl, M, ◌>>=◌, ◌>>◌, pure, in32}
use mlir_air_mirror.Controller.ShimDma.{get_tile_addr}
use mlir_air_mirror.Controller.NdMemcpy.{packet_at, set_packet}

-- The register of a lock behind `base`, which tells the shim row from the others.
abbrev pub lock_register : ℕ → ℕ → ℕ → ℕ → ℕ → ℕ → ℕ
lock_register base shim_base col row lock_id val =
    get_tile_addr col row
    + ((if row == 0 then shim_base else base) + 0x10 * (val % 2))
    + u32 (0x80 * lock_id)

module _ (env : History) where
  -- The loop of `maskpoll32`, with `Count` left: 0 when a read is granted, 1 when none is.
  unfoldable pub maskpoll : ℕ → ℕ → M ℕ
  maskpoll zero addr = pure 1
  maskpoll (suc n) addr = do
    value ← in32 env addr
    if value % 2 == 1 then pure 0 else maskpoll n addr

  unfoldable pub maskpoll32 : ℕ → ℕ → M ℕ
  unfolding maskpoll
  maskpoll32 addr time_out = maskpoll (10 + time_out) addr

  unfoldable pub xaie_lock_release : ℕ → ℕ → ℕ → ℕ → M ℕ
  unfolding maskpoll32
  xaie_lock_release col row lock_id val = do
    maskpoll32 (lock_register 0x1e020 0x14020 col row lock_id val) 0 >>= λ _. pure 1

  -- The loop of `xaie_lock_acquire_nb`, with the rounds left; the result is `loop`.
  unfoldable pub acquire_loop : ℕ → ℕ → ℕ → M ℕ
  unfolding maskpoll32
  acquire_loop zero addr loop = pure loop
  acquire_loop (suc n) addr loop = do
    lock_ret ← maskpoll32 addr 100
    if lock_ret == 0 then acquire_loop n addr (loop + 1) else pure (loop + 1)

  unfoldable pub xaie_lock_acquire_nb : ℕ → ℕ → ℕ → ℕ → M ℕ
  unfolding acquire_loop
  xaie_lock_acquire_nb col row lock_id val = do
    loop ← acquire_loop 512 (lock_register 0x1e060 0x14060 col row lock_id val) 0
    pure (if loop == 512 then 0 else 1)

  module _ (cmd : LockCommand) (first_col first_row : ℕ) where
    -- The operation on one tile.
    unfoldable pub lock_tile : ℕ → ℕ → M ℕ
    unfolding xaie_lock_acquire_nb xaie_lock_release
    lock_tile col row =
        if cmd.acqrel == 0
        then xaie_lock_acquire_nb (u16 (u32 (first_col + cmd.start_col + col)))
            (u16 (u32 (first_row + cmd.start_row + row))) cmd.lock_id cmd.val
        else xaie_lock_release (u16 (u32 (first_col + cmd.start_col + col)))
            (u16 (u32 (first_row + cmd.start_row + row))) cmd.lock_id cmd.val

    unfoldable pub lock_rows : ℕ → ℕ → ℕ → M (Unit {0})
    unfolding lock_tile
    lock_rows zero col row = pure tt
    lock_rows (suc n) col row = lock_tile col row >>= λ _. lock_rows n col (row + 1)

    unfoldable pub lock_cols : ℕ → ℕ → M (Unit {0})
    unfolding lock_rows
    lock_cols zero col = pure tt
    lock_cols (suc n) col = lock_rows cmd.num_rows col 0 >>= λ _. lock_cols n (col + 1)

  unfoldable pub handle_packet_xaie_lock : ℕ → M (Unit {0})
  unfolding lock_cols lock_command packet_set_active
  handle_packet_xaie_lock pkt c =
      let cmd = lock_command (packet_at c pkt) in
      (set_packet pkt (λ p. packet_set_active p true)
          >> lock_cols cmd c.herd.col_start c.herd.row_start cmd.num_cols 0)
        c
