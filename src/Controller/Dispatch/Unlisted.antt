-- ===== src/Controller/Dispatch/Unlisted.antt =====
-- A packet whose type the controller's `switch` does not list.
use mlir_air_mirror.Prelude.{
  ℕ, zero, suc, ◌%◌, ◌^◌, ◌<◌, ◌≡◌, refl, arith, Bool, false, ◌||◌, ◌==◌, some, set,
}
use mlir_air_mirror.Queue.AirPktType
use mlir_air_mirror.Queue.Signal.{History}
use mlir_air_mirror.Controller.State.{Ctl}
use mlir_air_mirror.Controller.NdMemcpy.{packet_at}
use mlir_air_mirror.Controller.Barrier.{
  mymod, advance, advance_queue, completed, complete_agent_dispatch_packet,
}
use mlir_air_mirror.Controller.Dispatch.{
  Board, turn, turns, packet_op, complete_after, handle_agent_dispatch_packet,
}

-- The types that the `switch` has a handler for.
abbrev pub listed : ℕ → Bool
listed op =
    op == AirPktType.device_initialize
    || (op == AirPktType.herd_initialize
        || (op == AirPktType.configure
            || (op == AirPktType.hello
                || (op == AirPktType.get_capabilities
                    || (op == AirPktType.get_info
                        || (op == AirPktType.xaie_lock || op == AirPktType.nd_memcpy))))))

-- The tests of the `switch`, all of which fail.
record Fails (op : ℕ) : Type 0 where
  device_initialize : (op == AirPktType.device_initialize) ≡ false
  herd_initialize : (op == AirPktType.herd_initialize) ≡ false
  configure : (op == AirPktType.configure) ≡ false
  hello : (op == AirPktType.hello) ≡ false
  get_capabilities : (op == AirPktType.get_capabilities) ≡ false
  get_info : (op == AirPktType.get_info) ≡ false
  xaie_lock : (op == AirPktType.xaie_lock) ≡ false
  nd_memcpy : (op == AirPktType.nd_memcpy) ≡ false

listed-Fails : (op : ℕ) → listed op ≡ false → Fails op
listed-Fails op e = record {
  device_initialize = ground arith;
  herd_initialize = ground arith;
  configure = ground arith;
  hello = ground arith;
  get_capabilities = ground arith;
  get_info = ground arith;
  xaie_lock = ground arith;
  nd_memcpy = ground arith;
}

-- A packet of a type that the `switch` does not list, such as AIR_PKT_TYPE_CDMA, is completed and
-- taken off the queue on any fuel but none, and nothing else changes: no register is written.
pub handle_agent_dispatch_packet-unlisted :
    (env : History) (fuel : ℕ) (board : Board) (c : Ctl)
    → 0 < fuel
    → listed ((packet_at c (mymod c.queue.read_index)).type % 2 ^ 16) ≡ false
    → handle_agent_dispatch_packet env fuel board c
      ≡ some (
        tt,
        record c {
          packets =
              set c.packets
                (mymod c.queue.read_index)
                (completed (packet_at c (mymod c.queue.read_index)));
          queue = advance 1 c.queue;
        },
      )
unfolding handle_agent_dispatch_packet turns turn packet_op complete_after
    complete_agent_dispatch_packet advance_queue
handle_agent_dispatch_packet-unlisted env zero board c some_fuel e = absurd (omega arith)
handle_agent_dispatch_packet-unlisted env (suc n) board c some_fuel e =
    let f = listed-Fails ((packet_at c (mymod c.queue.read_index)).type % 2 ^ 16) e in
    rw
      (
        f.device_initialize, f.herd_initialize, f.configure, f.hello, f.get_capabilities,
        f.get_info, f.xaie_lock, f.nd_memcpy,
      )
      refl
