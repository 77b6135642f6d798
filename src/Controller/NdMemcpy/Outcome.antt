-- ===== src/Controller/NdMemcpy/Outcome.antt =====
-- What a loop of `do_packet_nd_memcpy` in runtime_lib/controller/main.cpp has done when it stops.
use mlir_air_mirror.Prelude.{ℕ, ◌+◌, ◌≡◌, refl, sym, ◌∙◌, List, [], ◌∷◌, ◌++◌}
use mathlib.Core.List.{append_assoc}
use mlir_air_mirror.Queue.Signal.{History}
use mlir_air_mirror.Controller.Decode.{NdCommand}
use mlir_air_mirror.Controller.State.{Ctl, Cursor}
use mlir_air_mirror.Controller.ShimDma.Push.{
  Channel, Programmed, idle, push, Programmed-append, SameRest, Pushed,
}
use mlir_air_mirror.Controller.NdMemcpy.{tile_of, Stop, finished}
use mlir_air_mirror.Controller.NdMemcpy.Address.{At}

abbrev pub channel_of : NdCommand → Channel
channel_of cmd = record {
  tile = tile_of cmd;
  direction = cmd.direction;
  channel = cmd.channel;
  col = cmd.col;
}

-- What a loop with the rows `todo` before it has done when it stops: it has pushed the rows `did`,
-- and at its cursor the rows of `left m` remain, with m rounds to go.
pub record Outcome (cmd : NdCommand) (base : ℕ) (left : ℕ → Cursor → List ℕ) (rounds : Cursor → ℕ)
    (Keeps : Cursor → Type 0) (todo : List ℕ) (c : Ctl) (r : (Stop × Cursor) × Ctl) : Type 0 where
  pub rest : SameRest c r.1
  pub did : List ℕ
  pub log : Programmed (channel_of cmd) cmd.length_1d did c.writes r.1.writes
  pub consistent : At cmd base r.0.1
  pub m : ℕ
  pub count : m ≡ rounds r.0.1
  pub split : todo ≡ did ++ left m r.0.1
  pub ended : r.0.0 ≡ finished → m ≡ 0
  pub keeps : Keeps r.0.1

pub SameRest-refl : (c : Ctl) → SameRest c c
SameRest-refl c = record { slots = refl; packets = refl; queue = refl; herd = refl; setup = refl }

pub SameRest-trans : {c d e : Ctl} → SameRest c d → SameRest d e → SameRest c e
SameRest-trans p q = record {
  slots = q.slots ∙ p.slots;
  packets = q.packets ∙ p.packets;
  queue = q.queue ∙ p.queue;
  herd = q.herd ∙ p.herd;
  setup = q.setup ∙ p.setup;
}

-- Rows pushed before a loop count with those that it pushes.
pub Outcome-extend :
    {cmd : NdCommand} {base : ℕ} {left : ℕ → Cursor → List ℕ} {rounds : Cursor → ℕ}
    {Keeps Keeps' : Cursor → Type 0} {todo todo' : List ℕ} {c d : Ctl} (before : List ℕ)
    (r : (Stop × Cursor) × Ctl)
    → SameRest c d
    → Programmed (channel_of cmd) cmd.length_1d before c.writes d.writes
    → todo ≡ before ++ todo'
    → ((cur : Cursor) → Keeps' cur → Keeps cur)
    → Outcome cmd base left rounds Keeps' todo' d r
    → Outcome cmd base left rounds Keeps todo c r
Outcome-extend {left} before r same log e k o = record {
  rest = SameRest-trans same o.rest;
  did = before ++ o.did;
  log = Programmed-append log o.log;
  consistent = o.consistent;
  m = o.m;
  count = o.count;
  split = rw (e, o.split) (sym (append_assoc before o.did (left o.m r.0.1)));
  ended = o.ended;
  keeps = k r.0.1 o.keeps;
}

pub Pushed-Programmed :
    {env : History} (ch : Channel) (len addr : ℕ) (c : Ctl) (r : ℕ × Ctl)
    → Pushed env ch len addr c r
    → Programmed ch len (addr ∷ []) c.writes r.1.writes
Pushed-Programmed ch len addr c r p = push p.bd p.start (rw p.log idle)

pub SameRest-ticked :
    (c : Ctl) {d : Ctl} → SameRest (record c { clock = c.clock + 1 }) d → SameRest c d
SameRest-ticked c p = record {
  slots = p.slots;
  packets = p.packets;
  queue = p.queue;
  herd = p.herd;
  setup = p.setup;
}
