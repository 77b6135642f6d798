-- ===== src/Host/AirQueue.antt =====
-- `air_queue_create` and `air_queue_dispatch` of runtime_lib/airhost/queue.cpp, in the build without
-- AIR_PCIE. What `open` and `mmap` give is a parameter: the address of the mapping, or nothing when
-- the device does not open; words and queues are read at the addresses of the mapping, whose length of
-- 0x8000 bytes is not modelled.
use mlir_air_mirror.Prelude.{
  ℕ, ◌+◌, ◌*◌, ◌/◌, ◌%◌, ◌^◌, Option, none, some, if◌then◌else◌, ◌==◌, u64, sub64,
}
use mlir_air_mirror.Queue.{Packet, Queue}

-- `HSA_STATUS_ERROR_INVALID_QUEUE_CREATION` is `none`; otherwise the queue's address and the queue.
abbrev pub check_queue : ℕ → ℕ → ℕ → ℕ → ℕ → Queue → Option (ℕ × Queue)
check_queue size type paddr_aligned bram_ptr address q =
    if q.id == 0xacdc
    then if q.size == size
      then if q.type == type
        then some (
          address,
          record q {
            base_address_vaddr = u64 (bram_ptr + sub64 q.base_address paddr_aligned);
            base_address_paddr = q.base_address;
          },
        )
        else none
      else none
    else none

module _ (word : ℕ → ℕ) (queue_at : ℕ → Queue) where
  -- The queue's address in the mapping.
  abbrev pub queue_vaddr : ℕ → ℕ → ℕ
  queue_vaddr paddr bram_ptr = u64 (
      u64 (bram_ptr + sub64 (word (u64 (bram_ptr + paddr % 2 ^ 12 / 8 * 8))) paddr)
      + paddr % 2 ^ 12)

  unfoldable pub air_queue_create : ℕ → ℕ → ℕ → Option ℕ → Option (ℕ × Queue)
  air_queue_create size type paddr none = none
  air_queue_create size type paddr (some bram_ptr) =
      check_queue size type (paddr / 2 ^ 12 * 2 ^ 12) bram_ptr (queue_vaddr paddr bram_ptr)
        (queue_at (queue_vaddr paddr bram_ptr))

-- The signals are created and stored: the packet's is 1, and the doorbell's 0 and then the number.
unfoldable pub air_queue_dispatch : Queue → ℕ → Packet → Queue × Packet
air_queue_dispatch q doorbell pkt =
    (record q { doorbell = doorbell }, record pkt { completion_signal = 1 })
