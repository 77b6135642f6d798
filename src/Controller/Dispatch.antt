-- ===== src/Controller/Dispatch.antt =====
-- `handle_agent_dispatch_packet` of runtime_lib/controller/main.cpp: a packet is handled and
-- completed, unless it is an ND copy that stalls; then the staged copies are tried in turn, and the
-- packets behind it are looked at, until one copy at most is left.
pub mod Unlisted
use mlir_air_mirror.Prelude.{
  ℕ, zero, suc, ◌+◌, ◌-◌, ◌%◌, ◌^◌, Bool, true, false, ◌&&◌, not, Option, none, some, if◌then◌else◌,
  ◌==◌, leb, ltb, u64,
}
use mlir_air_mirror.Queue.{Packet, hsa_packet_type_agent_dispatch, packet_get_active}
use mlir_air_mirror.Queue.AirPktType
use mlir_air_mirror.Queue.Signal.{History}
use mlir_air_mirror.Controller.Decode.{NdCommand, nd_command}
use mlir_air_mirror.Controller.State.{Ctl, M, ◌>>=◌, ◌>>◌, pure}
use mlir_air_mirror.Controller.ShimDma.{get_tile_addr, xaie_shim_dma_get_outstanding}
use mlir_air_mirror.Controller.NdMemcpy.{
  packet_at, slot_at, get_slot, set_valid, do_packet_memcpy, stage_packet_nd_memcpy,
}
use mlir_air_mirror.Controller.Barrier.{mymod, complete_agent_dispatch_packet, advance_queue}
use mlir_air_mirror.Controller.Init.{
  activate, handle_packet_device_initialize, handle_packet_herd_initialize,
  handle_packet_get_capabilities, handle_packet_get_info,
}
use mlir_air_mirror.Controller.Lock.{handle_packet_xaie_lock}
use mlir_air_mirror.Controller.Cdma.{handle_packet_sg_cdma}

-- The registers that number the controllers and the firmware, and the controller's own number;
-- `beyond` is the memory behind the strings of `handle_packet_get_info`.
pub record Board : Type 0 where
  pub mb_id : ℕ
  pub user1 : ℕ
  pub user2 : ℕ
  pub beyond : ℕ

-- The variables of the handler. A packet pointer is an index of the queue.
pub record Turn : Type 0 where
  pub rd_idx : ℕ
  pub pkt : ℕ
  pub last_slot : ℕ
  pub num_active_packets : ℕ
  pub packets_processed : ℕ

-- `max_slot`, and the slot after another.
abbrev pub max_slot : ℕ
max_slot = 79

abbrev pub next_slot : ℕ → ℕ
next_slot slot = if slot == max_slot then 0 else slot + 1

module _ (env : History) (fuel : ℕ) (board : Board) where
  -- A staged copy can go on: its slot is valid, its DMA has room and its packet is active.
  unfoldable pub can_go_on : ℕ → M Bool
  unfolding xaie_shim_dma_get_outstanding packet_get_active
  can_go_on slot c =
      (if (slot_at c slot).valid == 0
          then pure false
          else (xaie_shim_dma_get_outstanding env (get_tile_addr cmd.col 0) cmd.direction
                cmd.channel
              >>= λ outstanding. pure (
                  not (leb 4 outstanding) && packet_get_active (packet_at c (slot_at c slot).pkt))))
        c
    where
      cmd : NdCommand
      cmd = nd_command (packet_at c (slot_at c slot).pkt)

  -- The search for a copy after `last_slot`, which ends at `last_slot` when there is none.
  unfoldable pub round_robin : ℕ → ℕ → ℕ → M ℕ
  unfolding can_go_on
  round_robin zero last_slot slot c = none
  round_robin (suc n) last_slot slot c =
      (if next_slot slot == last_slot
          then pure last_slot
          else (can_go_on (next_slot slot) >>= λ go.
              if go then pure (next_slot slot) else round_robin n last_slot (next_slot slot)))
        c

  abbrev pub processed : Turn → Turn
  processed t = record t { packets_processed = t.packets_processed + 1 }

  -- A handler, and the completion of the packet.
  abbrev pub complete_after : M (Unit {0}) → Turn → M Turn
  unfolding complete_agent_dispatch_packet
  complete_after handler t = handler >> complete_agent_dispatch_packet t.pkt >> pure (processed t)

  -- The case AIR_PKT_TYPE_ND_MEMCPY behind the staging, which answered `ret`.
  abbrev pub after_stage : ℕ → ℕ → Turn → M Turn
  unfolding complete_agent_dispatch_packet
  after_stage slot ret t =
      if ret == 0
      then (do_packet_memcpy env fuel slot >>= λ again.
          if again == 0
          then complete_after (set_valid slot 0) (record t { last_slot = slot })
          else pure (record t { last_slot = slot; num_active_packets = t.num_active_packets + 1 }))
      else if ret == 2
      then pure t
      else complete_after (set_valid slot 0) t

  -- The slot of a copy: four for each shim DMA, those of direction MM2S behind those of S2MM.
  abbrev pub slot_of : NdCommand → ℕ
  unfolding get_slot
  slot_of cmd =
      cmd.channel + get_slot cmd.col cmd.memory_space + (if cmd.direction == 0 then 0 else 2)

  abbrev pub nd_memcpy_op : Turn → M Turn
  unfolding stage_packet_nd_memcpy
  nd_memcpy_op t c =
      (stage_packet_nd_memcpy t.pkt slot cmd.memory_space >>= λ ret. after_stage slot ret t) c
    where
      cmd : NdCommand
      cmd = nd_command (packet_at c t.pkt)

      slot : ℕ
      slot = slot_of cmd

  -- `switch (op)`; an operation that it does not list is completed with no handler.
  unfoldable pub packet_op : Turn → M Turn
  unfolding handle_packet_device_initialize handle_packet_herd_initialize handle_packet_sg_cdma
      activate handle_packet_get_capabilities handle_packet_get_info handle_packet_xaie_lock
      nd_memcpy_op complete_after
  packet_op t c =
      (if op == AirPktType.device_initialize
          then complete_after (handle_packet_device_initialize t.pkt) t
          else if op == AirPktType.herd_initialize
          then complete_after (handle_packet_herd_initialize t.pkt) t
          else if op == AirPktType.configure
          then complete_after (handle_packet_sg_cdma env fuel t.pkt) t
          else if op == AirPktType.hello
          then complete_after (activate t.pkt) t
          else if op == AirPktType.get_capabilities
          then complete_after
              (handle_packet_get_capabilities board.mb_id board.user1 board.user2 t.pkt) t
          else if op == AirPktType.get_info
          then complete_after
              (handle_packet_get_info board.mb_id board.user1 board.user2 board.beyond t.pkt) t
          else if op == AirPktType.xaie_lock
          then complete_after (handle_packet_xaie_lock env t.pkt) t
          else if op == AirPktType.nd_memcpy
          then nd_memcpy_op t
          else complete_after (pure tt) t)
        c
    where
      op : ℕ
      op = (packet_at c t.pkt).type % 2 ^ 16

  -- No staged copy can go on: look at the packet behind the last one.
  abbrev pub peek : Turn → M Turn
  unfolding packet_op mymod
  peek t c =
      (if (packet_at c (mymod (u64 (t.rd_idx + 1)))).header % 2 ^ 4
            == hsa_packet_type_agent_dispatch
          then packet_op
              (record t { rd_idx = u64 (t.rd_idx + 1); pkt = mymod (u64 (t.rd_idx + 1)) })
          else pure (record t { pkt = mymod t.rd_idx; last_slot = next_slot t.last_slot }))
        c

  -- The label `found`.
  abbrev pub resume_slot : ℕ → Turn → M Turn
  unfolding complete_agent_dispatch_packet
  resume_slot slot t = do_packet_memcpy env fuel slot >>= λ ret.
      if ret == 0 then finish_slot else pure (record t { last_slot = slot })
    where
      finish_slot : M Turn
      finish_slot c =
          (set_valid slot 0
              >> complete_agent_dispatch_packet (slot_at c slot).pkt
              >> pure (record (processed t) {
                last_slot = slot;
                num_active_packets = t.num_active_packets - 1;
              }))
            c

  unfoldable pub turn : Turn → M Turn
  unfolding round_robin peek resume_slot packet_op
  turn t =
      if ltb 1 t.num_active_packets
      then (round_robin fuel t.last_slot t.last_slot >>= λ slot.
          if slot == t.last_slot then peek t else resume_slot slot t)
      else packet_op t

  -- `do ... while (num_active_packets > 1)`, which has no bound, on fuel.
  unfoldable pub turns : ℕ → Turn → M Turn
  unfolding turn
  turns zero t c = none
  turns (suc n) t c = (turn t >>= λ u. if ltb 1 u.num_active_packets then turns n u else pure u) c

  unfoldable pub handle_agent_dispatch_packet : M (Unit {0})
  unfolding turns advance_queue
  handle_agent_dispatch_packet c =
      (turns fuel first_turn >>= λ t. advance_queue t.packets_processed) c
    where
      first_turn : Turn
      first_turn = record {
        rd_idx = c.queue.read_index;
        pkt = mymod c.queue.read_index;
        last_slot = 0;
        num_active_packets = 1;
        packets_processed = 0;
      }
