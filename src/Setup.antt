-- ===== src/Setup.antt =====
-- The queue that a controller creates (runtime_lib/controller/main.cpp) and the host finds
-- (runtime_lib/airhost/queue.cpp).
mod Tests
use mlir_air_mirror.Prelude.{
  ℕ, ◌+◌, ◌-◌, ◌*◌, ◌/◌, ◌%◌, ◌^◌, ◌<◌, ◌≤◌, ◌≡◌, ◌∙◌, ap, sym, refl, arith, Option, none, some,
  List, if◌then◌else◌, ◌==◌, u64, sub64,
}
use mlir_air_mirror.Queue.{Packet, Queue}
use mlir_air_mirror.Host.AirQueue.{air_queue_create, check_queue, queue_vaddr}
use mlir_air_mirror.Controller.QueueCreate.{
  Created, queue_create, base_address_of, mb_shmem_segment_size, sizeof_packet, sizeof_queue,
  shmem_base,
}

-- For 48 packets at most, the controller's `queue_t` starts inside its segment and ends before its
-- packets, which are aligned and end before the next controller's segment.
pub queue_create-inside :
    (size mb_id paddr vaddr : ℕ) (packets : List Packet)
    → size ≤ 48
    → let made = queue_create size mb_id paddr vaddr packets in
      (base_address_of mb_id ≤ made.queue_address)
      × (made.queue_address + sizeof_queue ≤ made.queue.base_address)
      × (made.queue.base_address + made.queue.size * sizeof_packet ≤ base_address_of (mb_id + 1))
      × (made.queue.base_address % sizeof_packet ≡ 0)
unfolding queue_create
queue_create-inside size mb_id paddr vaddr packets h =
    (omega arith, omega arith, omega arith, omega arith)

-- What the host's mapping of the controller's page shows: the cell and the queue that the
-- controller has written, where the mapping puts their addresses.
pub record Shows (made : Created) (word : ℕ → ℕ) (queue_at : ℕ → Queue) (bram_ptr : ℕ)
    : Type 0 where
  pub cell : word (u64 (bram_ptr + made.cell % 2 ^ 12)) ≡ made.queue_address
  pub queue :
      queue_at (u64 (bram_ptr + (made.queue_address - made.cell / 2 ^ 12 * 2 ^ 12))) ≡ made.queue

-- For fewer than 64 controllers, a mapping below 2^63 that shows the controller's cell and queue,
-- and the type HSA_QUEUE_TYPE_SINGLE, the host finds the queue that the controller made when it
-- asks for its size, with the two addresses of the controller's packets, and no queue for another
-- size.
pub air_queue_create-queue_create :
    (size mb_id paddr vaddr : ℕ) (packets : List Packet) (word : ℕ → ℕ) (queue_at : ℕ → Queue)
    (bram_ptr wanted : ℕ)
    → mb_id < 64
    → bram_ptr < 2 ^ 63
    → let made = queue_create size mb_id paddr vaddr packets in
      Shows made word queue_at bram_ptr
      → air_queue_create word queue_at wanted 1 made.cell (some bram_ptr) ≡ (
          if size == wanted
          then some (
            bram_ptr + (made.queue_address - shmem_base),
            record made.queue {
              base_address_vaddr = bram_ptr + (made.queue.base_address - shmem_base);
              base_address_paddr = made.queue.base_address;
            },
          )
          else none)
unfolding queue_create air_queue_create
air_queue_create-queue_create size mb_id paddr vaddr packets word queue_at bram_ptr wanted h hb
      shows =
    let cell : ℕ = shmem_base + 8 * mb_id in
    let address : ℕ = base_address_of mb_id + sizeof_packet in
    let index : u64 (bram_ptr + cell % 2 ^ 12 / 8 * 8) ≡ u64 (bram_ptr + cell % 2 ^ 12) =
      omega arith in
    let found : word (u64 (bram_ptr + cell % 2 ^ 12 / 8 * 8)) ≡ address =
      ap word index ∙ shows.cell in
    let offset : u64 (u64 (bram_ptr + sub64 address cell) + cell % 2 ^ 12)
        ≡ bram_ptr + (address - shmem_base) =
      omega arith in
    let here : queue_vaddr word queue_at cell bram_ptr ≡ bram_ptr + (address - shmem_base) =
      ap (λ (x : ℕ). u64 (u64 (bram_ptr + sub64 x cell) + cell % 2 ^ 12)) found ∙ offset in
    let shown : u64 (bram_ptr + (address - cell / 2 ^ 12 * 2 ^ 12))
        ≡ bram_ptr + (address - shmem_base) =
      omega arith in
    let read : queue_at (bram_ptr + (address - shmem_base))
        ≡ (queue_create size mb_id paddr vaddr packets).queue =
      ap queue_at (sym shown) ∙ shows.queue in
    let base : ℕ = (queue_create size mb_id paddr vaddr packets).queue.base_address in
    let moved : u64 (bram_ptr + sub64 base (cell / 2 ^ 12 * 2 ^ 12))
        ≡ bram_ptr + (base - shmem_base) =
      omega arith in
    ap (λ (v : ℕ). check_queue wanted 1 (cell / 2 ^ 12 * 2 ^ 12) bram_ptr v (queue_at v)) here
    ∙ ap
        (check_queue wanted 1 (cell / 2 ^ 12 * 2 ^ 12) bram_ptr (bram_ptr + (address - shmem_base)))
        read
    ∙ ap
        (λ (v : ℕ).
          if size == wanted
          then some (
            bram_ptr + (address - shmem_base),
            record (queue_create size mb_id paddr vaddr packets).queue {
              base_address_vaddr = v;
              base_address_paddr = base;
            },
          )
          else none)
        moved
