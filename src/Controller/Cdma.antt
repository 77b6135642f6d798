-- ===== src/Controller/Cdma.antt =====
-- `handle_packet_sg_cdma` of runtime_lib/controller/main.cpp, which configures tiles: it resets them,
-- has the CDMA engine copy their configuration, and starts them. Registers of the engine are four
-- bytes apart, and `volatile` reads of them go through the history.
use mlir_air_mirror.Prelude.{
  ℕ, zero, suc, ◌+◌, ◌*◌, ◌/◌, ◌^◌, none, if◌then◌else◌, ◌==◌, leb, bit_or, u32, field,
}
use mlir_air_mirror.Queue.{Packet}
use mlir_air_mirror.Queue.Signal.{History}
use mlir_air_mirror.Controller.State.{M, ◌>>=◌, ◌>>◌, pure, in32, out32}
use mlir_air_mirror.Controller.ShimDma.{get_tile_addr}
use mlir_air_mirror.Controller.NdMemcpy.{packet_at}
use mlir_air_mirror.Controller.Init.{activate}
use mlir_air_mirror.Controller.Lock.{maskpoll32}

-- The register `cdmab[i]` of the MicroBlaze build.
abbrev pub cdmab : ℕ → ℕ
cdmab i = 0x44a00000 + 4 * i

-- `for (r = start; r < start + n; r++) out32(tile + 0x32000, v)`, with the rounds left.
unfoldable pub control_rows : ℕ → ℕ → ℕ → ℕ → M (Unit {0})
control_rows col zero row v = pure tt
control_rows col (suc n) row v = do
  out32 (get_tile_addr col row + 0x32000) v
  control_rows col n (row + 1) v

-- The first loop over the columns: tiles and columns are reset.
unfoldable pub reset_cols : ℕ → ℕ → ℕ → ℕ → M (Unit {0})
unfolding control_rows
reset_cols zero col start_row num_rows = pure tt
reset_cols (suc n) col start_row num_rows = do
  control_rows col num_rows start_row 0x2
  out32 (get_tile_addr col 0 + 0x36048) 1
  out32 (get_tile_addr col 0 + 0x36048) 0
  reset_cols n (col + 1) start_row num_rows

module _ (env : History) where
  -- `while (cdmab[0] & 0x4);`, which has no bound, on fuel.
  unfoldable pub wait_reset : ℕ → M (Unit {0})
  wait_reset zero c = none
  wait_reset (suc fuel) c =
      (in32 env (cdmab 0) >>= λ status. if field status 2 1 == 0 then pure tt else wait_reset fuel)
        c

  -- `while (!(cdmab[1] & 2) && cnt--)`.
  unfoldable pub wait_done : ℕ → M (Unit {0})
  wait_done zero = in32 env (cdmab 1) >>= λ _. pure tt
  wait_done (suc cnt) = do
    status ← in32 env (cdmab 1)
    if field status 1 1 == 1 then pure tt else wait_done cnt

  -- The locks of a tile, from `l` on.
  unfoldable pub take_locks : ℕ → ℕ → ℕ → ℕ → M (Unit {0})
  unfolding maskpoll32
  take_locks col row zero l = pure tt
  take_locks col row (suc n) l =
      maskpoll32 env (get_tile_addr col row + 0x1e020 + 0x80 * l) 0 >>= λ _.
      take_locks col row n (l + 1)

  unfoldable pub start_rows : ℕ → ℕ → ℕ → M (Unit {0})
  unfolding take_locks
  start_rows col zero row = pure tt
  start_rows col (suc n) row = do
    take_locks col row 16 0
    out32 (get_tile_addr col row + 0x32000) 0x1
    start_rows col n (row + 1)

  -- The last loop over the columns; its rows go up to `start_row + num_rows`, that included.
  unfoldable pub start_cols : ℕ → ℕ → ℕ → ℕ → M (Unit {0})
  unfolding start_rows
  start_cols zero col start_row num_rows = pure tt
  start_cols (suc n) col start_row num_rows = do
    start_rows col (num_rows + 1) start_row
    start_cols n (col + 1) start_row num_rows

  -- The descriptor or the list of descriptors for the engine.
  abbrev pub program_cdma : ℕ → ℕ → ℕ → M (Unit {0})
  program_cdma daddr saddr bytes =
      if leb 0xffffff bytes
      then (out32 (cdmab 0) 0x8
          >> out32 (cdmab 2) (u32 saddr)
          >> out32 (cdmab 3) (u32 (saddr / 2 ^ 32))
          >> out32 (cdmab 5) (u32 (daddr / 2 ^ 32))
          >> out32 (cdmab 4) (u32 daddr))
      else (out32 (cdmab 6) (u32 saddr)
          >> out32 (cdmab 7) (u32 (saddr / 2 ^ 32))
          >> out32 (cdmab 8) (u32 daddr)
          >> out32 (cdmab 9) (u32 (daddr / 2 ^ 32))
          >> out32 (cdmab 10) bytes)

  -- The rectangle of the command is in `arg[3]`.
  abbrev pub sg_cdma : ℕ → Packet → M (Unit {0})
  unfolding reset_cols wait_reset wait_done start_cols
  sg_cdma fuel p = do
    reset_cols (field p.arg3 24 8) (field p.arg3 16 8) (field p.arg3 0 8) (field p.arg3 8 8)
    before ← in32 env (cdmab 0)
    out32 (cdmab 0) (bit_or before 0x4)
    after ← in32 env (cdmab 0)
    out32 (cdmab 0) (field after 2 1 * 4)
    wait_reset fuel
    out32 (cdmab 0) 0
    program_cdma p.arg0 p.arg1 (u32 p.arg2)
    wait_done 100
    start_cols (field p.arg3 24 8) (field p.arg3 16 8) (field p.arg3 0 8) (field p.arg3 8 8)

  unfoldable pub handle_packet_sg_cdma : ℕ → ℕ → M (Unit {0})
  unfolding activate sg_cdma
  handle_packet_sg_cdma fuel pkt c = (activate pkt >> sg_cdma fuel (packet_at c pkt)) c
