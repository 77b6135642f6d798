-- ===== src/Setup/Tests.antt =====
-- The queue of controller 2, mapped by the host at 0x7000000.
use mlir_air_mirror.Prelude.{
  ℕ, ◌+◌, ◌-◌, ◌*◌, ◌%◌, ◌≤◌, ◌≡◌, refl, arith, none, some, [], if◌then◌else◌, ◌==◌,
}
use mlir_air_mirror.Queue.{Queue}
use mlir_air_mirror.Host.AirQueue.{air_queue_create}
use mlir_air_mirror.Controller.QueueCreate.{
  Created, queue_create, base_address_of, sizeof_packet, sizeof_queue, shmem_base,
}
use mlir_air_mirror.Setup.{Shows, queue_create-inside, air_queue_create-queue_create}

abbrev made : Created
made = queue_create 48 2 0 0 []

queue_create-inside_example :
    (base_address_of 2 ≤ made.queue_address)
    × (made.queue_address + sizeof_queue ≤ made.queue.base_address)
    × (made.queue.base_address + made.queue.size * sizeof_packet ≤ base_address_of (2 + 1))
    × (made.queue.base_address % sizeof_packet ≡ 0)
queue_create-inside_example = queue_create-inside 48 2 0 0 [] (omega arith)

abbrev words : ℕ → ℕ
words a = made.queue_address

abbrev queues : ℕ → Queue
queues a = made.queue

made-Shows : Shows made words queues 0x7000000
made-Shows = record { cell = refl; queue = refl }

air_queue_create-queue_create_example :
    air_queue_create words queues 48 1 made.cell (some 0x7000000) ≡ (
      if 48 == 48
      then some (
        0x7000000 + (made.queue_address - shmem_base),
        record made.queue {
          base_address_vaddr = 0x7000000 + (made.queue.base_address - shmem_base);
          base_address_paddr = made.queue.base_address;
        },
      )
      else none)
unfolding queue_create
air_queue_create-queue_create_example =
    air_queue_create-queue_create 48 2 0 0 [] words queues 0x7000000 48 (omega arith) (omega arith)
      made-Shows
