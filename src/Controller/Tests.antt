-- ===== src/Controller/Tests.antt =====
-- A controller with one ND copy of two rows in its queue, and barriers that wait.
use mlir_air_mirror.Prelude.{
  ℕ, ◌+◌, ◌<◌, ◌*◌, ◌^◌, ◌≡◌, refl, arith, List, [], ◌∷◌, replicate, none, false, inl,
  if◌then◌else◌, ltb, ◌==◌,
}
use mlir_air_mirror.Queue.{Packet, Queue}
use mlir_air_mirror.Queue.Signal.{History}
use mlir_air_mirror.Host.Packets.{air_packet_herd_init}
use mlir_air_mirror.Controller.Decode.{nd_command}
use mlir_air_mirror.Controller.State.{Ctl, Returns}
use mlir_air_mirror.Controller.ShimDma.{xaie_shim_dma_push_bd}
use mlir_air_mirror.Controller.ShimDma.Push.{Drains, Pushed, xaie_shim_dma_push_bd-Pushed}
use mlir_air_mirror.Controller.NdMemcpy.{
  no_slot, no_packet, packet_at, start_cursor, do_packet_nd_memcpy,
}
use mlir_air_mirror.Controller.NdMemcpy.Address.{all_rows, start_cursor-At}
use mlir_air_mirror.Controller.NdMemcpy.Resume.{Attempt, do_packet_nd_memcpy-Attempt}
use mlir_air_mirror.Controller.NdMemcpy.Retry.{Copied, copy, command_at, copy-Copied}
use mlir_air_mirror.Controller.Barrier.{
  mymod, dep_signals, handle_barrier_and_packet, handle_barrier_or_packet,
}
use mlir_air_mirror.Controller.Barrier.Falls.{NeverFalls, handle_barrier_or_packet-none}
use mlir_air_mirror.Controller.Barrier.Waits.{
  AllOf, Seen, Settled, BarrierDone, handle_barrier_and_packet-BarrierDone,
}
use mlir_air_mirror.Controller.Lock.{lock_register, xaie_lock_acquire_nb}
use mlir_air_mirror.Controller.Lock.Granted.{Answers, xaie_lock_acquire_nb-inverted}
use mlir_air_mirror.Controller.Dispatch.{Board}
use mlir_air_mirror.Controller.Uart.{Place, run}
use mlir_air_mirror.Controller.Uart.Race.{free, overtaking, run-overtaking}
use mlir_air_mirror.Controller.Init.{handle_packet_herd_initialize}
use mlir_air_mirror.Controller.Init.Info.{handle_packet_herd_initialize-air_packet_herd_init}

-- Two rows of 64 bytes, 128 bytes apart.
abbrev two_rows : Packet
two_rows = record no_packet {
  type = 0x0103;
  header = 4;
  arg0 = 2 * 2 ^ 16 + 2 * 2 ^ 32;
  arg1 = 0x1000;
  arg2 = 64 + 2 * 2 ^ 32 + 128 * 2 ^ 48;
  arg3 = 1 + 1 * 2 ^ 32;
}

abbrev idle_queue : Queue
idle_queue = record {
  type = 1;
  features = 2;
  base_address = 0;
  doorbell = 0;
  size = 48;
  reserved0 = 0;
  id = 0xacdc;
  read_index = 0;
  write_index = 1;
  last_doorbell = 0;
  base_address_paddr = 0;
  base_address_vaddr = 0;
}

abbrev ready : List Packet → Ctl
ready packets = record {
  clock = 0;
  writes = [];
  last_bd = replicate 8 0;
  slots = replicate 64 no_slot;
  packets = packets;
  queue = idle_queue;
  herd = record { row_start = 1; num_rows = 3; col_start = 7; num_cols = 4 };
  setup = false;
}

abbrev one_copy : Ctl
one_copy = ready (two_rows ∷ [])

-- Every register and every signal reads as zero.
abbrev zeros : History
zeros t a = 0

zeros-Drains : (tile direction channel : ℕ) → Drains zeros 1 tile direction channel
zeros-Drains tile direction channel t = inl (ground arith)

one_copy_channel : (command_at one_copy 0).channel < 2
unfolding nd_command
one_copy_channel = omega arith

copy-Copied_example :
    Returns
      (Copied (command_at one_copy 0) (all_rows (command_at one_copy 0) 0x1000) one_copy)
      (copy zeros 1 2 0 5 one_copy)
copy-Copied_example =
    copy-Copied zeros 1 2 0 5 one_copy (λ t. inl (ground arith)) one_copy_channel refl (omega arith)
      (omega arith) (omega arith) refl (omega arith)

-- The copy stands at its start in slot 5.
abbrev at_start : Ctl
at_start = record one_copy {
  slots = replicate 64 (record { valid = 1; pkt = 0; cursor = start_cursor 0x1000 });
}

do_packet_nd_memcpy-Attempt_example :
    Returns
      (Attempt (command_at at_start 0) 0x1000 5 (start_cursor 0x1000) at_start)
      (do_packet_nd_memcpy zeros 1 5 at_start)
do_packet_nd_memcpy-Attempt_example =
    do_packet_nd_memcpy-Attempt zeros 1 0x1000 5 at_start one_copy_channel refl
      (λ t. inl (ground arith)) (start_cursor-At (command_at at_start 0) 0x1000 (omega arith))

xaie_shim_dma_push_bd-Pushed_example :
    Returns
      (Pushed zeros (record { tile = 0; direction = 1; channel = 0; col = 2 }) 64 0x1000 one_copy)
      (xaie_shim_dma_push_bd zeros 1 0 1 0 2 0x1000 64 one_copy)
xaie_shim_dma_push_bd-Pushed_example =
    xaie_shim_dma_push_bd-Pushed zeros 1 0 1 0 2 0x1000 64 one_copy (omega arith) refl
      (zeros-Drains 0 1 0)

-- A barrier on the words 8, 16, 24, 32 and 40.
abbrev barrier : Packet
barrier = record no_packet {
  header = 3;
  return_address = 8;
  arg0 = 16;
  arg1 = 24;
  arg2 = 32;
  arg3 = 40;
  completion_signal = 1;
}

abbrev one_barrier : Ctl
one_barrier = ready (barrier ∷ [])

mymod_0 : mymod 0 ≡ 0
unfolding mymod
mymod_0 = refl

-- The words are one until the third read.
abbrev falling : History
falling t a = if ltb t 2 then 1 else 0

falling-Settled : (a : ℕ) → Settled falling 2 a
falling-Settled a u h = ground arith

AllOf-Settled : (ss : List ℕ) → AllOf (Settled falling 2) ss
AllOf-Settled [] = tt
AllOf-Settled (s ∷ ss) = (falling-Settled s, AllOf-Settled ss)

handle_barrier_and_packet-BarrierDone_example :
    Returns
      (λ r.
        BarrierDone one_barrier (r.1)
        × AllOf (Seen falling 0) (dep_signals (packet_at one_barrier (mymod 0))))
      (handle_barrier_and_packet falling 4 one_barrier)
handle_barrier_and_packet-BarrierDone_example =
    handle_barrier_and_packet-BarrierDone falling 2 3 one_barrier
      (AllOf-Settled (dep_signals (packet_at one_barrier (mymod 0)))) (omega arith)

zeros-NeverFalls : NeverFalls zeros 0
zeros-NeverFalls u s h e = refl

handle_barrier_or_packet-none_example : handle_barrier_or_packet zeros 1000 one_barrier ≡ none
handle_barrier_or_packet-none_example =
    handle_barrier_or_packet-none zeros 1000 one_barrier zeros-NeverFalls

handle_packet_herd_initialize-air_packet_herd_init_example :
    Returns
      (λ r.
        r.1.herd
        ≡ record { row_start = if 0 == 0 then 1 else 0; num_rows = 3; col_start = 7; num_cols = 4 })
      (handle_packet_herd_initialize 0 (ready ((air_packet_herd_init no_packet 0 7 4 0 3).1 ∷ [])))
handle_packet_herd_initialize-air_packet_herd_init_example =
    handle_packet_herd_initialize-air_packet_herd_init
      (ready ((air_packet_herd_init no_packet 0 7 4 0 3).1 ∷ [])) 0 no_packet 0 7 4 0 3
      (omega arith) (omega arith) (omega arith) (omega arith) refl

-- The register of every lock grants it.
abbrev ones : History
ones t a = 1

xaie_lock_acquire_nb-inverted_example :
    (Answers ones 1 (lock_register 0x1e060 0x14060 7 2 3 1) 0
      → Returns (λ r. r.0 ≡ 0) (xaie_lock_acquire_nb ones 7 2 3 1 one_copy))
    × (Answers ones 0 (lock_register 0x1e060 0x14060 7 2 3 1) 0
        → Returns (λ r. r.0 ≡ 1) (xaie_lock_acquire_nb ones 7 2 3 1 one_copy))
xaie_lock_acquire_nb-inverted_example = xaie_lock_acquire_nb-inverted ones 7 2 3 1 one_copy

abbrev vck190 : Board
vck190 = record { mb_id = 0; user1 = 1; user2 = 0; beyond = 0 }

-- A packet of type AIR_PKT_TYPE_CDMA.
abbrev cdma_copy : Packet
cdma_copy = record no_packet {
  header = 4;
  type = 0x30;
  arg0 = 0x1000;
  arg1 = 0x2000;
  arg2 = 64;
  completion_signal = 1;
}

run-overtaking_example :
    let p = run 3 4 overtaking (free 0 0) in (p.first ≡ Place.holding) × (p.second ≡ Place.holding)
run-overtaking_example = run-overtaking 3 4 0 0 (λ e. omega (arith, e))
