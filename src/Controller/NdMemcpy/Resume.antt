-- ===== src/Controller/NdMemcpy/Resume.antt =====
-- `do_packet_nd_memcpy` and the attempts to finish a copy: over all of them, the rows of the command
-- are pushed once each and in order.
use mlir_air_mirror.Prelude.{
  ℕ, zero, suc, ◌+◌, ◌<◌, length, ◌-◌, ◌≡◌, ◌⊎◌, inl, inr, refl, ap, ◌∙◌, List, ◌++◌, field, arith,
  Bool-cases, get_or, set, ◌==◌,
}
use mathlib.Core.List.{append-nil}
use mlir_air_mirror.Queue.Signal.{History}
use mlir_air_mirror.Controller.Decode.{NdCommand, nd_command}
use mlir_air_mirror.Controller.State.{Ctl, Cursor, Staged, Returns, Returns-and_then}
use mlir_air_mirror.Controller.ShimDma.{
  xaie_shim_dma_wait_idle, wait_idle, status_register_offset, status_mask_shift,
}
use mlir_air_mirror.Controller.ShimDma.Push.{Programmed, Drains}
use mlir_air_mirror.Controller.NdMemcpy.{
  tile_of, Stop, stalled, finished, finish_copy, nd_memcpy_from, do_packet_nd_memcpy,
  nd_dma_put_checkpoint, slot_at, packet_at, no_slot,
}
use mlir_air_mirror.Controller.NdMemcpy.Address.{left_4d, At}
use mlir_air_mirror.Controller.NdMemcpy.Outcome.{channel_of}
use mlir_air_mirror.Controller.NdMemcpy.Walk.{Outcome4, loop_4d-Outcome}

-- The wait only reads, and answers 0 or 1.
wait_idle-Returns :
    (env : History) (n tile direction channel : ℕ) (c : Ctl)
    → Returns
        (λ r. (t : ℕ) × (r.1 ≡ record c { clock = t }) × ((r.0 ≡ 0) ⊎ (r.0 ≡ 1)))
        (wait_idle env n tile direction channel c)
unfolding wait_idle
wait_idle-Returns env zero tile direction channel c = (c.clock + 1, refl, ground arith)
wait_idle-Returns env (suc n) tile direction channel c =
    elim (Bool-cases (
      field (env c.clock (tile + status_register_offset direction)) (status_mask_shift channel) 2
      == 0)) [
        | inl e ↦ rw (e, wait_idle) (c.clock + 1, refl, inl refl)
        | inr e ↦
            rw (e, wait_idle)
              (wait_idle-Returns env n tile direction channel (record c { clock = c.clock + 1 }))
      ]

-- The rows that a copy still has to push.
unfoldable pub remaining : NdCommand → ℕ → Cursor → List ℕ
unfolding left_4d
remaining cmd base cur = left_4d cmd base (cmd.length_4d - cur.index_4d) cur

-- What one attempt at the copy in `slot` does: it pushes the first of the rows that remain. Either
-- it returns 0 and none is left, or it returns 1 and the slot holds a cursor at which the others
-- remain. Packets and queue are untouched.
pub record Attempt (cmd : NdCommand) (base slot : ℕ) (cur : Cursor) (c : Ctl) (r : ℕ × Ctl)
    : Type 0 where
  pub did : List ℕ
  pub log : Programmed (channel_of cmd) cmd.length_1d did c.writes r.1.writes
  pub packets : r.1.packets ≡ c.packets
  pub queue : r.1.queue ≡ c.queue
  pub outcome :
      ((r.0 ≡ 0) × (r.1.slots ≡ c.slots) × (remaining cmd base cur ≡ did))
      ⊎ ((r.0 ≡ 1)
          × ((cur' : Cursor) × (r.1.slots
                ≡ set c.slots slot (record (slot_at c slot) { cursor = cur' }))
              × At cmd base cur'
              × (remaining cmd base cur ≡ did ++ remaining cmd base cur')))

saved-slots :
    (slot : ℕ) (cur : Cursor) (c d : Ctl)
    → d.slots ≡ c.slots
    → set d.slots slot (record (slot_at d slot) { pkt = (slot_at c slot).pkt; cursor = cur })
      ≡ set c.slots slot (record (slot_at c slot) { cursor = cur })
saved-slots slot cur c d p =
    ap
      (λ (slots : List Staged).
        set slots slot
          (record (get_or slots slot no_slot) { pkt = (slot_at c slot).pkt; cursor = cur }))
      p

-- The start queue of the channel of the command drains.
abbrev pub CmdDrains : History → ℕ → NdCommand → Type 0
CmdDrains env fuel cmd = Drains env fuel (tile_of cmd) cmd.direction cmd.channel

module _ (env : History) (fuel base : ℕ) where
  finish_copy-Attempt :
      (cmd : NdCommand) (drains : CmdDrains env fuel cmd) (slot : ℕ) (cur : Cursor) (c : Ctl)
      (r : Stop × Cursor) (d : Ctl)
      → Outcome4 env fuel cmd drains base (cmd.length_4d - cur.index_4d) cur c (r, d)
      → Returns
          (Attempt cmd base slot cur c)
          (finish_copy env fuel cmd slot (slot_at c slot).pkt r d)
  unfolding nd_dma_put_checkpoint remaining xaie_shim_dma_wait_idle
  finish_copy-Attempt cmd drains slot cur c (stalled, cur') d o = record {
    did = o.did;
    log = o.log;
    packets = o.rest.packets;
    queue = o.rest.queue;
    outcome = inr (
      refl,
      (
        cur',
        saved-slots slot cur' c d o.rest.slots,
        o.consistent,
        o.split ∙ ap (λ (k : ℕ). o.did ++ left_4d cmd base k cur') o.count,
      ),
    );
  }
  finish_copy-Attempt cmd drains slot cur c (finished, cur') d o =
      Returns-and_then (λ r. (t : ℕ) × (r.1 ≡ record d { clock = t }) × ((r.0 ≡ 0) ⊎ (r.0 ≡ 1)))
        (Attempt cmd base slot cur c) _ _
        (wait_idle-Returns env 100 (tile_of cmd) cmd.direction cmd.channel d)
        λ v e w. elim (w.2) [
          | inl idle_now ↦
              rw (w.1, idle_now)
                (record {
                  did = o.did;
                  log = o.log;
                  packets = o.rest.packets;
                  queue = o.rest.queue;
                  outcome = inl (refl, o.rest.slots, o.split ∙ simp (o.ended refl, append-nil));
                })
          | inr busy ↦
              rw (w.1, busy)
                (record {
                  did = o.did;
                  log = o.log;
                  packets = o.rest.packets;
                  queue = o.rest.queue;
                  outcome = inr (
                    refl,
                    (
                      cur',
                      saved-slots slot cur' c d o.rest.slots,
                      o.consistent,
                      o.split ∙ ap (λ (k : ℕ). o.did ++ left_4d cmd base k cur') o.count,
                    ),
                  );
                })
        ]

  nd_memcpy_from-Attempt :
      (cmd : NdCommand)
      → CmdDrains env fuel cmd
      → (slot : ℕ) (cur : Cursor) (c : Ctl) → At cmd base cur
      → Returns
          (Attempt cmd base slot cur c)
          (nd_memcpy_from env fuel cmd slot (slot_at c slot).pkt cur c)
  unfolding nd_memcpy_from
  nd_memcpy_from-Attempt cmd drains slot cur c a =
      Returns-and_then (Outcome4 env fuel cmd drains base (cmd.length_4d - cur.index_4d) cur c)
        (Attempt cmd base slot cur c) _ _
        (loop_4d-Outcome env fuel cmd drains base (cmd.length_4d - cur.index_4d) cur c refl a)
        λ r d o. finish_copy-Attempt cmd drains slot cur c r d o

  pub slot_attempt_lem :
      (slot : ℕ) (c : Ctl)
      → CmdDrains env fuel (nd_command (packet_at c (slot_at c slot).pkt))
      → At (nd_command (packet_at c (slot_at c slot).pkt)) base (slot_at c slot).cursor
      → Returns
          (Attempt
            (nd_command (packet_at c (slot_at c slot).pkt))
            base
            slot
            (slot_at c slot).cursor
            c)
          (do_packet_nd_memcpy env fuel slot c)
  unfolding do_packet_nd_memcpy
  slot_attempt_lem slot c drains a =
      nd_memcpy_from-Attempt (nd_command (packet_at c (slot_at c slot).pkt)) drains slot
        (slot_at c slot).cursor c a

  -- If the start queues drain and the cursor in the slot is one of its copy, a call of
  -- `do_packet_nd_memcpy` returns. It pushes the first of the rows that remain at the cursor; it
  -- answers 0 when none is left, or it answers 1 and the slot holds a cursor at which the others
  -- remain. The packets and the queue are untouched.
  pub do_packet_nd_memcpy-Attempt :
      (slot : ℕ) (c : Ctl)
      → (nd_command (packet_at c (slot_at c slot).pkt)).channel < 2
      → length c.last_bd ≡ 8
      → CmdDrains env fuel (nd_command (packet_at c (slot_at c slot).pkt))
      → At (nd_command (packet_at c (slot_at c slot).pkt)) base (slot_at c slot).cursor
      → Returns
          (Attempt
            (nd_command (packet_at c (slot_at c slot).pkt))
            base
            slot
            (slot_at c slot).cursor
            c)
          (do_packet_nd_memcpy env fuel slot c)
  do_packet_nd_memcpy-Attempt slot c two eight drains a = slot_attempt_lem slot c drains a
