-- ===== src/Queue.antt =====
-- runtime_lib/airhost/include/air_queue.h: the packets, the queue and the signals that the host
-- library and the controller firmware share in memory.
pub mod AirPktType
pub mod Signal
mod Tests
use mlir_air_mirror.Prelude.{ℕ, ◌+◌, ◌*◌, ◌/◌, ◌%◌, Bool, true, false, ◌==◌, u64, sub64}

-- One 64-byte slot of the queue. `dispatch_packet_t` and the barrier packets overlay it:
-- `dep_signal[0]` is the word of `return_address`, `dep_signal[1..4]` are those of `arg[0..3]`, and
-- `reserved2` is that of `reserved1`.
pub record Packet : Type 0 where
  pub header : ℕ
  pub type : ℕ
  pub reserved0 : ℕ
  pub return_address : ℕ
  pub arg0 : ℕ
  pub arg1 : ℕ
  pub arg2 : ℕ
  pub arg3 : ℕ
  pub reserved1 : ℕ
  pub completion_signal : ℕ

-- `queue_t`.
pub record Queue : Type 0 where
  pub type : ℕ
  pub features : ℕ
  pub base_address : ℕ
  pub doorbell : ℕ
  pub size : ℕ
  pub reserved0 : ℕ
  pub id : ℕ
  pub read_index : ℕ
  pub write_index : ℕ
  pub last_doorbell : ℕ
  pub base_address_paddr : ℕ
  pub base_address_vaddr : ℕ

abbrev pub mb_queue_size : ℕ
mb_queue_size = 48

-- `hsa_packet_type_t`, also the value of `header` since HSA_PACKET_HEADER_TYPE is 0.
abbrev pub hsa_packet_type_invalid : ℕ
hsa_packet_type_invalid = 1

abbrev pub hsa_packet_type_barrier_and : ℕ
hsa_packet_type_barrier_and = 3

abbrev pub hsa_packet_type_agent_dispatch : ℕ
hsa_packet_type_agent_dispatch = 4

abbrev pub hsa_packet_type_barrier_or : ℕ
hsa_packet_type_barrier_or = 5

abbrev pub air_address_absolute_range : ℕ
air_address_absolute_range = 1

abbrev pub air_address_herd_relative_range : ℕ
air_address_herd_relative_range = 3

-- Each returns the old index and the queue with the new one.
unfoldable pub queue_add_write_index : Queue → ℕ → ℕ × Queue
queue_add_write_index q v = (q.write_index, record q { write_index = u64 (q.write_index + v) })

unfoldable pub queue_add_read_index : Queue → ℕ → ℕ × Queue
queue_add_read_index q v = (q.read_index, record q { read_index = u64 (q.read_index + v) })

unfoldable pub queue_paddr_from_index : Queue → ℕ → ℕ
queue_paddr_from_index q idx = u64 (q.base_address + idx)

unfoldable pub packet_get_active : Packet → Bool
packet_get_active pkt = pkt.reserved1 % 2 == 1

abbrev bit_of : Bool → ℕ
bit_of true = 1
bit_of false = 0

-- `(reserved1 & ~0x1) | b`: the word with its lowest bit replaced.
unfoldable pub packet_set_active : Packet → Bool → Packet
packet_set_active pkt b = record pkt { reserved1 = pkt.reserved1 / 2 * 2 + bit_of b }

unfoldable pub initialize_packet : Packet → Packet
initialize_packet pkt = record pkt { header = hsa_packet_type_invalid }

-- `signal_create` and `signal_store_release` store a word; `signal_subtract_acq_rel` is this.
unfoldable pub signal_subtract_acq_rel : ℕ → ℕ → ℕ
signal_subtract_acq_rel handle value = sub64 handle value
