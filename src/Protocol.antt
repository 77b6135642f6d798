-- ===== src/Protocol.antt =====
-- What the host writes into a packet (runtime_lib/airhost/queue.cpp) is what the controller reads
-- out of it (runtime_lib/controller/main.cpp).
mod Tests
use mlir_air_mirror.Prelude.{
  ℕ, ◌+◌, ◌*◌, ◌^◌, ◌<◌, ◌≡◌, arith, or_below, or_above, or_first, shl64, refl, ap, ◌↔◌,
}
use mlir_air_mirror.Queue.{Packet}
use mlir_air_mirror.Host.Packets.{
  NdArgs, nd_arg0, nd_arg2, nd_arg3, air_packet_nd_memcpy, air_packet_herd_init,
  air_packet_aie_lock_range, range_word,
}
use mlir_air_mirror.Controller.Decode.{NdCommand, nd_command, HerdRange, herd_range, lock_command}

-- A packed word is the sum of its fields when none overlaps the next.
range_word-eq-sum :
    (kind start_col num_cols start_row num_rows : ℕ)
    → kind < 16
    → start_col < 256
    → num_cols < 256
    → start_row < 256
    → num_rows < 256
    → range_word kind start_col num_cols start_row num_rows
      ≡ kind * 2 ^ 48
        + num_cols * 2 ^ 40
        + start_col * 2 ^ 32
        + num_rows * 2 ^ 24
        + start_row * 2 ^ 16
range_word-eq-sum kind sc nc sr nr hk hsc hnc hsr hnr =
    let e1 = or_below 48 (shl64 nc 40) (or_first (shl64 kind 48)) (omega arith) (omega arith) in
    let e2 = or_below 40 (shl64 sc 32) e1 (omega arith) (omega arith) in
    let e3 = or_below 32 (shl64 nr 24) e2 (omega arith) (omega arith) in
    omega (arith, or_below 24 (shl64 sr 16) e3 (omega arith) (omega arith))

-- The arguments of `air_packet_nd_memcpy` that the controller's fields can hold.
pub record FitsNd (a : NdArgs) : Type 0 where
  pub memory_space : a.memory_space < 2 ^ 8
  pub channel : a.channel < 2 ^ 8
  pub col : a.col < 2 ^ 8
  pub burst_len : a.burst_len < 2 ^ 8
  pub direction : a.direction < 2 ^ 4
  pub length1d : a.transfer_length1d < 2 ^ 32
  pub length2d : a.transfer_length2d < 2 ^ 16
  pub stride2d : a.transfer_stride2d < 2 ^ 16
  pub length3d : a.transfer_length3d < 2 ^ 16
  pub stride3d : a.transfer_stride3d < 2 ^ 16
  pub length4d : a.transfer_length4d < 2 ^ 16
  pub stride4d : a.transfer_stride4d < 2 ^ 16

abbrev pub command_of : NdArgs → NdCommand
command_of a = record {
  memory_space = a.memory_space;
  channel = a.channel;
  col = a.col;
  direction = a.direction;
  length_1d = a.transfer_length1d;
  length_2d = a.transfer_length2d;
  stride_2d = a.transfer_stride2d;
  length_3d = a.transfer_length3d;
  stride_3d = a.transfer_stride3d;
  length_4d = a.transfer_length4d;
  stride_4d = a.transfer_stride4d;
}

module _ (a : NdArgs) (f : FitsNd a) where
  open a use {memory_space, channel, col, burst_len, direction, transfer_length1d}
  open a use {transfer_length2d, transfer_stride2d, transfer_length3d, transfer_stride3d}
  open a use {transfer_length4d, transfer_stride4d}

  nd_arg0-eq-sum :
      nd_arg0 a
      ≡ memory_space * 2 ^ 16
        + channel * 2 ^ 24
        + col * 2 ^ 32
        + burst_len * 2 ^ 52
        + direction * 2 ^ 60
  nd_arg0-eq-sum =
      let e1 =
        or_above 24 (shl64 channel 24) (or_first (shl64 memory_space 16))
          (omega (arith, f.memory_space)) (omega arith) in
      let e2 =
        or_above 32 (shl64 col 32) e1 (omega (arith, f.memory_space, f.channel)) (omega arith) in
      let e3 =
        or_above 52 (shl64 burst_len 52) e2 (omega (arith, f.memory_space, f.channel, f.col))
          (omega arith) in
      omega (
        arith,
        f.memory_space,
        f.channel,
        f.col,
        f.burst_len,
        f.direction,
        or_above 60 (shl64 direction 60) e3
            (omega (arith, f.memory_space, f.channel, f.col, f.burst_len)) (omega arith),
      )

  nd_arg2-eq-sum :
      nd_arg2 a ≡ transfer_length1d + transfer_length2d * 2 ^ 32 + transfer_stride2d * 2 ^ 48
  nd_arg2-eq-sum =
      let e0 : transfer_length1d ≡ transfer_length1d = refl in
      let e1 = or_above 32 (shl64 transfer_length2d 32) e0 f.length1d (omega arith) in
      omega (
        arith,
        f.length1d,
        f.length2d,
        f.stride2d,
        or_above 48 (shl64 transfer_stride2d 48) e1 (omega (arith, f.length1d, f.length2d))
            (omega arith),
      )

  nd_arg3-eq-sum :
      nd_arg3 a
      ≡ transfer_length3d
        + transfer_stride3d * 2 ^ 16
        + transfer_length4d * 2 ^ 32
        + transfer_stride4d * 2 ^ 48
  nd_arg3-eq-sum =
      let e0 : transfer_length3d ≡ transfer_length3d = refl in
      let e1 = or_above 16 (shl64 transfer_stride3d 16) e0 f.length3d (omega arith) in
      let e2 =
        or_above 32 (shl64 transfer_length4d 32) e1 (omega (arith, f.length3d, f.stride3d))
          (omega arith) in
      omega (
        arith,
        f.length3d,
        f.stride3d,
        f.length4d,
        f.stride4d,
        or_above 48 (shl64 transfer_stride4d 48) e2
            (omega (arith, f.length3d, f.stride3d, f.length4d)) (omega arith),
      )

-- Whatever the slot held, `air_packet_nd_memcpy` succeeds and the controller decodes its packet to
-- the arguments and the address that the host gave, if each argument fits the field that the
-- controller reads.
pub nd_command-air_packet_nd_memcpy :
    (pkt : Packet) (a : NdArgs)
    → FitsNd a
    → let (status, sent) = air_packet_nd_memcpy pkt a in
      (status ≡ 0) × (nd_command sent ≡ command_of a) × (sent.arg1 ≡ a.phys_addr)
unfolding air_packet_nd_memcpy nd_command
nd_command-air_packet_nd_memcpy pkt a f =
    (refl, ground (arith, nd_arg0-eq-sum a f, nd_arg2-eq-sum a f, nd_arg3-eq-sum a f), refl)

-- For a burst length below 2^8 and a first length below 2^32, the controller decodes what the host
-- meant exactly when every argument fits the field that the controller reads: the host takes 32-bit
-- arguments for the 16-bit fields and does not cut them off.
pub nd_command-air_packet_nd_memcpy_iff :
    (pkt : Packet) (a : NdArgs)
    → a.burst_len < 2 ^ 8
    → a.transfer_length1d < 2 ^ 32
    → (nd_command (air_packet_nd_memcpy pkt a).1 ≡ command_of a) ↔ FitsNd a
unfolding nd_command
nd_command-air_packet_nd_memcpy_iff pkt a hb hl =
    (fits, λ f. (nd_command-air_packet_nd_memcpy pkt a f).1)
  where
    fits : nd_command (air_packet_nd_memcpy pkt a).1 ≡ command_of a → FitsNd a
    fits e = record {
      memory_space = omega (arith, ap (λ (c : NdCommand). c.memory_space) e);
      channel = omega (arith, ap (λ (c : NdCommand). c.channel) e);
      col = omega (arith, ap (λ (c : NdCommand). c.col) e);
      burst_len = hb;
      direction = omega (arith, ap (λ (c : NdCommand). c.direction) e);
      length1d = hl;
      length2d = omega (arith, ap (λ (c : NdCommand). c.length_2d) e);
      stride2d = omega (arith, ap (λ (c : NdCommand). c.stride_2d) e);
      length3d = omega (arith, ap (λ (c : NdCommand). c.length_3d) e);
      stride3d = omega (arith, ap (λ (c : NdCommand). c.stride_3d) e);
      length4d = omega (arith, ap (λ (c : NdCommand). c.length_4d) e);
      stride4d = omega (arith, ap (λ (c : NdCommand). c.stride_4d) e);
    }

abbrev pub range_of : ℕ → ℕ → ℕ → ℕ → ℕ → HerdRange
range_of kind start_col num_cols start_row num_rows = record {
  kind = kind;
  start_row = start_row;
  num_rows = num_rows;
  start_col = start_col;
  num_cols = num_cols;
}

module _ (start_col num_cols start_row num_rows : ℕ) (hsc : start_col < 256) (hnc : num_cols < 256)
    (hsr : start_row < 256) (hnr : num_rows < 256) where
  herd_range-range_word :
      (kind : ℕ)
      → kind < 16
      → herd_range (range_word kind start_col num_cols start_row num_rows)
        ≡ range_of kind start_col num_cols start_row num_rows
  unfolding herd_range
  herd_range-range_word kind hk =
      ground
        (arith, range_word-eq-sum kind start_col num_cols start_row num_rows hk hsc hnc hsr hnr)

  -- For a rectangle whose numbers are below 256, the rectangle that the host puts into a
  -- HERD_INITIALIZE packet is the one that the controller reads, marked as an absolute range.
  pub herd_range-air_packet_herd_init :
      (pkt : Packet) (herd_id : ℕ)
      → let (status, sent) =
          air_packet_herd_init pkt herd_id start_col num_cols start_row num_rows in
        herd_range sent.arg0 ≡ range_of 1 start_col num_cols start_row num_rows
  unfolding air_packet_herd_init
  herd_range-air_packet_herd_init pkt herd_id = herd_range-range_word 1 (omega arith)

  -- For a rectangle whose numbers are below 256 and 32-bit lock arguments, the controller reads a
  -- lock packet back as the lock, the operation, the value and the rectangle of the host.
  pub lock_command-air_packet_aie_lock_range :
      (pkt : Packet) (herd_id lock_id acq_rel value : ℕ)
      → lock_id < 2 ^ 32
      → acq_rel < 2 ^ 32
      → value < 2 ^ 32
      → let (status, sent) =
          air_packet_aie_lock_range pkt herd_id lock_id acq_rel value start_col num_cols start_row
            num_rows in
        lock_command sent ≡ record {
          num_cols = num_cols;
          num_rows = num_rows;
          start_col = start_col;
          start_row = start_row;
          lock_id = lock_id;
          acqrel = acq_rel;
          val = value;
        }
  unfolding air_packet_aie_lock_range lock_command
  lock_command-air_packet_aie_lock_range pkt herd_id lock_id acq_rel value hl ha hv = ground (
    arith,
    range_word-eq-sum 3 start_col num_cols start_row num_rows (omega arith) hsc hnc hsr hnr,
  )
