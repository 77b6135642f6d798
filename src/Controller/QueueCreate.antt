-- ===== src/Controller/QueueCreate.antt =====
-- `queue_create` of runtime_lib/controller/main.cpp, and where `main` puts a controller's memory. The
-- messages and the UART lock around them are left out.
use mlir_air_mirror.Prelude.{ℕ, ◌+◌, ◌*◌, ◌/◌, ◌-◌, List, map}
use mlir_air_mirror.Queue.{Packet, Queue, hsa_packet_type_invalid}

abbrev pub shmem_base : ℕ
shmem_base = 0x020100000000

abbrev pub mb_shmem_segment_size : ℕ
mb_shmem_segment_size = 0x1000

-- `base_address` of `main`.
abbrev pub base_address_of : ℕ → ℕ
base_address_of mb_id = shmem_base + (1 + mb_id) * mb_shmem_segment_size

-- `sizeof(dispatch_packet_t)` and `sizeof(queue_t)`, both packed.
abbrev pub sizeof_packet : ℕ
sizeof_packet = 64

abbrev pub sizeof_queue : ℕ
sizeof_queue = 80

-- `ALIGN(_x, _size)` for a size that is a power of two: the low bits are cleared.
abbrev pub align : ℕ → ℕ → ℕ
align x size = (x + (size - 1)) / size * size

-- What `queue_create` leaves in memory: the cell at `shmem_base[mb_id]` with the address of the
-- `queue_t`, the `queue_t`, and the headers of its packets.
pub record Created : Type 0 where
  pub cell : ℕ
  pub queue_address : ℕ
  pub queue : Queue
  pub packets : List Packet

-- `pkt->header = HSA_PACKET_TYPE_INVALID` for each packet.
abbrev pub invalidate : Packet → Packet
invalidate pkt = record pkt { header = hsa_packet_type_invalid }

-- `paddr` and `vaddr` are the words of the local `queue_t` that the function does not set.
unfoldable pub queue_create : ℕ → ℕ → ℕ → ℕ → List Packet → Created
queue_create size mb_id paddr vaddr packets = record {
  cell = shmem_base + 8 * mb_id;
  queue_address = base_address_of mb_id + sizeof_packet;
  queue = record {
    type = 1;
    features = 2;
    base_address = align (base_address_of mb_id + sizeof_packet + sizeof_queue) sizeof_packet;
    doorbell = 0xffffffffffffffff;
    size = size;
    reserved0 = 0;
    id = 0xacdc;
    read_index = 0;
    write_index = 0;
    last_doorbell = 0;
    base_address_paddr = paddr;
    base_address_vaddr = vaddr;
  };
  packets = map invalidate packets;
}
