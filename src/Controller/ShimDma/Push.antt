-- ===== src/Controller/ShimDma/Push.antt =====
-- What `xaie_shim_dma_push_bd` does to the device: one descriptor is written, and only then queued.
use mlir_air_mirror.Prelude.{
  ℕ, zero, suc, ◌+◌, ◌*◌, ◌/◌, ◌%◌, ◌^◌, ◌≡◌, ◌<◌, refl, sym, ap, ◌∙◌, arith, ◌⊎◌, inl, inr, Bool,
  true, false, if◌then◌else◌, ◌==◌, leb, ltb, bit_or, List, [], ◌∷◌, ◌++◌, field, u32, Bool-cases,
  get_or, set, length,
}
use mlir_air_mirror.Queue.Signal.{History}
use mlir_air_mirror.Controller.State.{Ctl, Returns, Returns-and_then}
use mlir_air_mirror.Controller.ShimDma.{
  status_register_offset, start_queue_size_mask_shift, control_register_offset,
  start_queue_register_offset, bd_slot, shim_dma_channel, wait_room, status_mask_shift, program_bd,
  xaie_shim_dma_push_bd,
}

abbrev pub Log : Type 0
Log = List (ℕ × ℕ)

-- A channel of the shim DMA of a tile, and the column that the caller names.
pub record Channel : Type 0 where
  pub tile : ℕ
  pub direction : ℕ
  pub channel : ℕ
  pub col : ℕ

-- The log after a descriptor `bd` for `len` bytes at `addr`: the descriptor is marked invalid, its
-- five words are written, the channel is enabled if it was idle, and `bd` goes to the start queue.
abbrev pub push_log : Channel → ℕ → ℕ → ℕ → Bool → Log → Log
push_log ch len addr bd idle l =
    (tile + start_queue_register_offset direction channel, bd)
    ∷ ((if idle then (tile + control_register_offset direction channel, 0xb001) ∷ words else words))
  where
    open ch use {tile, direction, channel}

    words : Log
    words =
        (tile + (0x1d000 + bd * 0x14) + 0x10, 0x0)
        ∷ (tile + (0x1d000 + bd * 0x14) + 0x0c, 0x410)
        ∷ (tile + (0x1d000 + bd * 0x14) + 0x08, u32 (bit_or (addr / 2 ^ 32 * 2 ^ 16) 1))
        ∷ (tile + (0x1d000 + bd * 0x14) + 0x04, len / 4)
        ∷ (tile + (0x1d000 + bd * 0x14) + 0x00, u32 addr)
        ∷ (tile + 0x1d008 + bd * 0x14, 0)
        ∷ l

-- Between two logs, descriptors for `len` bytes at exactly these addresses were pushed, in order.
pub data Programmed (ch : Channel) (len : ℕ) : List ℕ → Log → Log → Type 0 where
  idle : {l : Log} → Programmed ch len [] l l
  push :
      {addr : ℕ} {xs : List ℕ} {l m : Log} (bd : ℕ) (start : Bool)
      → Programmed ch len xs (push_log ch len addr bd start l) m
      → Programmed ch len (addr ∷ xs) l m

pub Programmed-append :
    {ch : Channel} {len : ℕ} {xs ys : List ℕ} {l m n : Log}
    → Programmed ch len xs l m
    → Programmed ch len ys m n
    → Programmed ch len (xs ++ ys) l n
Programmed-append idle q = q
Programmed-append (push bd start p) q = push bd start (Programmed-append p q)

-- What a push leaves alone.
pub record SameRest (c d : Ctl) : Type 0 where
  pub slots : d.slots ≡ c.slots
  pub packets : d.packets ≡ c.packets
  pub queue : d.queue ≡ c.queue
  pub herd : d.herd ≡ c.herd
  pub setup : d.setup ≡ c.setup

module _ (env : History) where
  -- One of the next `n` reads of the register finds room in the start queue.
  abbrev pub Room : ℕ → ℕ → ℕ → ℕ → Type 0
  Room zero t a sh = ⊥
  Room (suc n) t a sh = (ltb 3 (field (env t a) sh 3) ≡ false) ⊎ Room n (t + 1) a sh

  -- The hardware keeps draining the start queue of the channel: `fuel` reads in a row of the size
  -- field of its status register never all find four entries.
  abbrev pub Drains : ℕ → ℕ → ℕ → ℕ → Type 0
  Drains fuel tile direction channel =
      (t : ℕ)
      → Room fuel t (tile + status_register_offset direction) (start_queue_size_mask_shift channel)

  -- The next step follows a read, at the time s, that found room in the start queue.
  abbrev FoundRoom : ℕ → ℕ → ℕ → Ctl → ℕ → Type 0
  FoundRoom tile direction channel c s =
      ltb 3 (
        field (env s (tile + status_register_offset direction))
          (start_queue_size_mask_shift channel) 3)
      ≡ false

  -- A wait that returns has only read, and its last read found room.
  wait_room-Returns :
      (fuel tile direction channel : ℕ) (c : Ctl)
      → Room fuel c.clock
          (tile + status_register_offset direction)
          (start_queue_size_mask_shift channel)
      → Returns
          (λ r. (s : ℕ) × (r.1 ≡ record c { clock = s + 1 }) × FoundRoom tile direction channel c s)
          (wait_room env fuel tile direction channel c)
  unfolding wait_room
  wait_room-Returns zero tile d ch c r = absurd r
  wait_room-Returns (suc n) tile d ch c (inl e) = rw (e, wait_room) (c.clock, refl, e)
  wait_room-Returns (suc n) tile d ch c (inr r) =
      elim (Bool-cases (
        ltb 3 (
          field (env c.clock (tile + status_register_offset d)) (start_queue_size_mask_shift ch)
            3))) [
              | inl full ↦
                  rw (full, wait_room)
                    (wait_room-Returns n tile d ch (record c { clock = c.clock + 1 }) r)
              | inr free ↦ rw (free, wait_room) (c.clock, refl, free)
            ]

  -- The counter of descriptors of the channel: two per direction, and four more in an odd column.
  abbrev pub counter_of : Channel → ℕ
  counter_of ch = ch.channel + 4 * (ch.col % 2) + (if ch.direction == 0 then 0 else 2)

  abbrev pub counted : Channel → Ctl → ℕ
  counted ch c = get_or c.last_bd (counter_of ch) 0

  -- One descriptor for `len` bytes at `addr` was pushed, behind a read that found room. It is the one
  -- that the counter of the channel names, of the four from 4 * channel on, or from 8 + 4 * channel on
  -- out of memory; the counter moves on, from 3 to 0; and the channel was enabled exactly if the
  -- status read before the push, the last of all reads, had it idle.
  pub record Pushed (ch : Channel) (len addr : ℕ) (c : Ctl) (r : ℕ × Ctl) : Type 0 where
    pub rest : SameRest c r.1
    pub bd : ℕ
    pub start : Bool
    pub log : r.1.writes ≡ push_log ch len addr bd start c.writes
    pub descriptor :
        bd ≡ (if ch.direction == 0 then 4 * ch.channel else 8 + 4 * ch.channel) + counted ch c
    pub counters :
        r.1.last_bd
        ≡ set c.last_bd (counter_of ch) (if counted ch c == 3 then 0 else counted ch c + 1)
    pub time : ℕ
    pub room :
        ltb 3 (
          field
            (env time (ch.tile + status_register_offset ch.direction))
            (start_queue_size_mask_shift ch.channel)
            3)
        ≡ false
    pub clock : r.1.clock ≡ time + 2
    pub enabled : start ≡ (
        env (time + 1) (ch.tile + status_register_offset ch.direction)
          / 2 ^ (if ch.channel == 0 then 0 else 2)
          % 2 ^ 2
        == 0)

  bd_slot-counter_of :
      (tile direction channel col : ℕ)
      → bd_slot direction channel col
        ≡ counter_of (record { tile = tile; direction = direction; channel = channel; col = col })
  bd_slot-counter_of tile direction channel col = elim (Bool-cases (col % 2 == 1)) [
    | inl odd ↦ rw odd (ground arith)
    | inr even ↦ rw even (ground arith)
  ]

  descriptor_lem :
      (direction channel last : ℕ)
      → 4 * shim_dma_channel direction channel + last
        ≡ (if direction == 0 then 4 * channel else 8 + 4 * channel) + last
  descriptor_lem direction channel last = elim (Bool-cases (direction == 0)) [
    | inl e ↦ rw e (omega arith)
    | inr e ↦ rw e (omega arith)
  ]

  program_bd-Pushed :
      (tile direction channel col addr len t : ℕ) (c : Ctl)
      → FoundRoom tile direction channel c t
      → Returns
          (Pushed
            (record { tile = tile; direction = direction; channel = channel; col = col })
            len
            addr
            c)
          (program_bd env tile direction channel col addr len (record c { clock = t + 1 }))
  unfolding program_bd
  program_bd-Pushed tile direction channel col addr len t c found =
      let slot : bd_slot direction channel col
          ≡ counter_of
              (record { tile = tile; direction = direction; channel = channel; col = col }) =
        bd_slot-counter_of tile direction channel col in
      elim (Bool-cases (
        field (env (t + 1) (tile + status_register_offset direction)) (status_mask_shift channel) 2
        == 0)) [
          | inl e ↦
              rw (e, program_bd)
                (record {
                  rest = record {
                    slots = refl;
                    packets = refl;
                    queue = refl;
                    herd = refl;
                    setup = refl;
                  };
                  bd = _;
                  start = true;
                  log = refl;
                  descriptor =
                      descriptor_lem direction channel
                        (get_or c.last_bd (bd_slot direction channel col) 0)
                      ∙ ap
                          (λ (i : ℕ).
                            (if direction == 0 then 4 * channel else 8 + 4 * channel)
                            + get_or c.last_bd i 0)
                          slot;
                  counters =
                      ap
                        (λ (i : ℕ).
                          set c.last_bd i
                            (if get_or c.last_bd i 0 == 3 then 0 else get_or c.last_bd i 0 + 1))
                        slot;
                  time = t;
                  room = found;
                  clock = omega arith;
                  enabled = sym e;
                })
          | inr e ↦
              rw (e, program_bd)
                (record {
                  rest = record {
                    slots = refl;
                    packets = refl;
                    queue = refl;
                    herd = refl;
                    setup = refl;
                  };
                  bd = _;
                  start = false;
                  log = refl;
                  descriptor =
                      descriptor_lem direction channel
                        (get_or c.last_bd (bd_slot direction channel col) 0)
                      ∙ ap
                          (λ (i : ℕ).
                            (if direction == 0 then 4 * channel else 8 + 4 * channel)
                            + get_or c.last_bd i 0)
                          slot;
                  counters =
                      ap
                        (λ (i : ℕ).
                          set c.last_bd i
                            (if get_or c.last_bd i 0 == 3 then 0 else get_or c.last_bd i 0 + 1))
                        slot;
                  time = t;
                  room = found;
                  clock = omega arith;
                  enabled = sym e;
                })
        ]

  pub push_bd-Pushed :
      (fuel tile direction channel col addr len : ℕ) (c : Ctl)
      → Drains fuel tile direction channel
      → Returns
          (Pushed
            (record { tile = tile; direction = direction; channel = channel; col = col })
            len
            addr
            c)
          (xaie_shim_dma_push_bd env fuel tile direction channel col addr len c)
  unfolding xaie_shim_dma_push_bd
  push_bd-Pushed fuel tile direction channel col addr len c drains =
      elim (Bool-cases (
        leb 4 (
          field (env c.clock (tile + status_register_offset direction))
            (start_queue_size_mask_shift channel) 3))) [
              | inl full ↦
                  rw (full, xaie_shim_dma_push_bd)
                    (Returns-and_then
                      (λ r.
                        (s : ℕ) × (r.1 ≡ record c { clock = s + 1 })
                        × FoundRoom tile direction channel c s)
                      _ _
                      (wait_room env fuel tile direction channel (record c { clock = c.clock + 1 }))
                      (wait_room-Returns fuel tile direction channel
                        (record c { clock = c.clock + 1 }) (drains (c.clock + 1)))
                      λ a d same.
                        rw (same.1)
                          (program_bd-Pushed tile direction channel col addr len same.0 c same.2))
              | inr free ↦
                  rw (free, xaie_shim_dma_push_bd)
                    (program_bd-Pushed tile direction channel col addr len c.clock c (ground arith))
            ]

  -- If the start queues drain, a push returns. It writes exactly one descriptor: invalidated,
  -- filled, the channel enabled if it was idle, and queued last. Slots, packets, queue, herd and
  -- setup are as they were.
  pub xaie_shim_dma_push_bd-Pushed :
      (fuel tile direction channel col addr len : ℕ) (c : Ctl)
      → channel < 2
      → length c.last_bd ≡ 8
      → Drains fuel tile direction channel
      → Returns
          (Pushed
            (record { tile = tile; direction = direction; channel = channel; col = col })
            len
            addr
            c)
          (xaie_shim_dma_push_bd env fuel tile direction channel col addr len c)
  unfolding xaie_shim_dma_push_bd
  xaie_shim_dma_push_bd-Pushed fuel tile direction channel col addr len c two eight drains =
      push_bd-Pushed fuel tile direction channel col addr len c drains
