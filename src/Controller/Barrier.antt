-- ===== src/Controller/Barrier.antt =====
-- The barrier packets of runtime_lib/controller/main.cpp and the end of every packet. A dependency
-- signal is a word of memory that others write, so it is read through the history. The messages
-- that a timeout prints, and the UART lock around them, are left out.
pub mod Waits
pub mod Falls
pub mod Index
use mlir_air_mirror.Prelude.{
  ℕ, zero, suc, ◌-◌, Bool, true, false, none, if◌then◌else◌, ◌==◌, leb, List, [], ◌∷◌,
}
use mlir_air_mirror.Queue.{
  Packet, Queue, mb_queue_size, hsa_packet_type_invalid, packet_set_active, queue_add_read_index,
  signal_subtract_acq_rel,
}
use mlir_air_mirror.Queue.AirPktType
use mlir_air_mirror.Queue.Signal.{History}
use mlir_air_mirror.Controller.State.{Ctl, M, ◌>>=◌, ◌>>◌, pure, in32, and_then}
use mlir_air_mirror.Controller.NdMemcpy.{packet_at, set_packet}

-- `mymod`; each round subtracts 48, so `a` rounds are enough.
unfoldable pub mymod_loop : ℕ → ℕ → ℕ
mymod_loop zero result = result
mymod_loop (suc n) result =
    let rest = mymod_loop n (result - mb_queue_size) in
    if leb mb_queue_size result then rest else result

unfoldable pub mymod : ℕ → ℕ
unfolding mymod_loop
mymod a = mymod_loop a a

-- `packet_set_active(pkt, false)`, the header, the type and the signal.
unfoldable pub completed : Packet → Packet
unfolding packet_set_active signal_subtract_acq_rel
completed p = record (packet_set_active p false) {
  header = hsa_packet_type_invalid;
  type = AirPktType.invalid;
  completion_signal = signal_subtract_acq_rel p.completion_signal 1;
}

unfoldable pub complete_agent_dispatch_packet : ℕ → M (Unit {0})
unfolding completed
complete_agent_dispatch_packet pkt = set_packet pkt completed

unfoldable pub barrier_completed : Packet → Packet
unfolding signal_subtract_acq_rel
barrier_completed p = record p {
  header = hsa_packet_type_invalid;
  completion_signal = signal_subtract_acq_rel p.completion_signal 1;
}

unfoldable pub complete_barrier_packet : ℕ → M (Unit {0})
unfolding barrier_completed
complete_barrier_packet pkt = set_packet pkt barrier_completed

-- `queue_add_read_index(q, n); q->read_index = mymod(q->read_index)`.
unfoldable pub advance : ℕ → Queue → Queue
unfolding queue_add_read_index mymod
advance n q =
    let q' = (queue_add_read_index q n).1 in record q' { read_index = mymod q'.read_index }

unfoldable pub advance_queue : ℕ → M (Unit {0})
unfolding advance
advance_queue n c = pure tt (record c { queue = advance n c.queue })

-- The five dependency signals of a barrier packet.
abbrev pub dep_signals : Packet → List ℕ
dep_signals p = p.return_address ∷ p.arg0 ∷ p.arg1 ∷ p.arg2 ∷ p.arg3 ∷ []

module _ (env : History) where
  -- The loop of `signal_wait`, with the timeouts left.
  unfoldable pub poll : ℕ → ℕ → ℕ → M ℕ
  poll zero signal compare_value = in32 env signal
  poll (suc n) signal compare_value = do
    ret ← in32 env signal
    if ret == compare_value then pure compare_value else poll n signal compare_value

  unfoldable pub signal_wait : ℕ → ℕ → ℕ → ℕ → M ℕ
  unfolding poll
  signal_wait signal compare_value timeout_hint default_value = do
    handle ← in32 env signal
    if handle == 0 then pure default_value else poll timeout_hint signal compare_value

  -- The condition of the loop of the AND barrier: a chain of `||`.
  unfoldable pub some_pending : List ℕ → M Bool
  unfolding signal_wait
  some_pending [] = pure false
  some_pending (s ∷ ss) = do
    value ← signal_wait s 0 0x80000 0
    if value == 0 then some_pending ss else pure true

  -- That of the OR barrier: a chain of `&&`.
  unfoldable pub all_pending : List ℕ → M Bool
  unfolding signal_wait
  all_pending [] = pure true
  all_pending (s ∷ ss) = do
    value ← signal_wait s 0 0x80000 1
    if value == 0 then pure false else all_pending ss

  -- `while (pending) ...`, which has no bound, on fuel.
  unfoldable pub repeat_while : M Bool → ℕ → M (Unit {0})
  repeat_while pending zero c = none
  repeat_while pending (suc fuel) c =
      (pending >>= λ again. if again then repeat_while pending fuel else pure tt) c

  abbrev pub finish_barrier : ℕ → M (Unit {0})
  finish_barrier pkt = do complete_barrier_packet pkt; advance_queue 1

  unfoldable pub handle_barrier_and_packet : ℕ → M (Unit {0})
  handle_barrier_and_packet fuel c =
      let pkt = mymod c.queue.read_index in
      (repeat_while (some_pending (dep_signals (packet_at c pkt))) fuel >> finish_barrier pkt) c

  unfoldable pub handle_barrier_or_packet : ℕ → M (Unit {0})
  handle_barrier_or_packet fuel c =
      let pkt = mymod c.queue.read_index in
      (repeat_while (all_pending (dep_signals (packet_at c pkt))) fuel >> finish_barrier pkt) c
