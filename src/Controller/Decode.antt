-- ===== src/Controller/Decode.antt =====
-- How the packet handlers of runtime_lib/controller/main.cpp read the words of a packet.
use mlir_air_mirror.Prelude.{ℕ, field, u32, if◌then◌else◌, ◌==◌}
use mlir_air_mirror.Queue.{Packet, air_address_herd_relative_range}

-- What `do_packet_nd_memcpy` and the ND_MEMCPY case of the dispatch extract.
pub record NdCommand : Type 0 where
  pub memory_space : ℕ
  pub channel : ℕ
  pub col : ℕ
  pub direction : ℕ
  pub length_1d : ℕ
  pub length_2d : ℕ
  pub stride_2d : ℕ
  pub length_3d : ℕ
  pub stride_3d : ℕ
  pub length_4d : ℕ
  pub stride_4d : ℕ

unfoldable pub nd_command : Packet → NdCommand
nd_command pkt = record {
  memory_space = field pkt.arg0 16 8;
  channel = field pkt.arg0 24 8;
  col = field pkt.arg0 32 8;
  direction = field pkt.arg0 60 4;
  length_1d = field pkt.arg2 0 32;
  length_2d = field pkt.arg2 32 16;
  stride_2d = field pkt.arg2 48 16;
  length_3d = field pkt.arg3 0 16;
  stride_3d = field pkt.arg3 16 16;
  length_4d = field pkt.arg3 32 16;
  stride_4d = field pkt.arg3 48 16;
}

-- `arg[0]` of the herd packets: the kind of address and a rectangle of tiles.
pub record HerdRange : Type 0 where
  pub kind : ℕ
  pub start_row : ℕ
  pub num_rows : ℕ
  pub start_col : ℕ
  pub num_cols : ℕ

unfoldable pub herd_range : ℕ → HerdRange
herd_range arg0 = record {
  kind = field arg0 48 4;
  start_row = field arg0 16 8;
  num_rows = field arg0 24 8;
  start_col = field arg0 32 8;
  num_cols = field arg0 40 8;
}

-- What `handle_packet_xaie_lock` extracts: sizes count only for the relative range.
pub record LockCommand : Type 0 where
  pub num_cols : ℕ
  pub num_rows : ℕ
  pub start_col : ℕ
  pub start_row : ℕ
  pub lock_id : ℕ
  pub acqrel : ℕ
  pub val : ℕ

unfoldable pub lock_command : Packet → LockCommand
lock_command pkt = record {
  num_cols =
      if field pkt.arg0 48 4 == air_address_herd_relative_range then field pkt.arg0 40 8 else 1;
  num_rows =
      if field pkt.arg0 48 4 == air_address_herd_relative_range then field pkt.arg0 24 8 else 1;
  start_col = field pkt.arg0 32 8;
  start_row = field pkt.arg0 16 8;
  lock_id = u32 pkt.arg1;
  acqrel = u32 pkt.arg2;
  val = u32 pkt.arg3;
}
