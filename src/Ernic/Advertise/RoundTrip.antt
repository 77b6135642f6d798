-- ===== src/Ernic/Advertise/RoundTrip.antt =====
-- The round trip of an advertisement between two hosts.
use mlir_air_mirror.Prelude.{ℕ, ◌+◌, ◌*◌, ◌^◌, ◌<◌, ◌≤◌, ◌≡◌, some, List}
use mlir_air_mirror.Queue.Signal.{History}
use mlir_air_mirror.Host.DevMem.{Allocator}
use mlir_air_mirror.Ernic.State.{Buff, Qp, Card, Write}
use mlir_air_mirror.Ernic.Registers.{statrqpidbi}
use mlir_air_mirror.Ernic.Log.{fetch}
use mlir_air_mirror.Ernic.Doorbell.{db_index}
use mlir_air_mirror.Ernic.Doorbell.Arrives.{Changes}
use mlir_air_mirror.Ernic.Advertise.{Received}

-- What the card does with a SEND, whose code is 2, of `len` bytes that the receiver's entry of 256 has
-- room for: the receiver finds, at the offset o of its entry `rqe` whenever it reads, the word that the
-- sender has at the offset o of the page that the entry at `entry` points to, if the word is in those
-- bytes. (A physical address differs from the pointer by the two bases of the allocator.)
abbrev pub Delivers : History → List Write → Allocator → ℕ → ℕ → Type 0
Delivers ram log a entry rqe =
    (lo hi v o t w len : ℕ)
    → fetch log (entry + 16) ≡ some 2
    → fetch log (entry + 12) ≡ some len
    → len ≤ 256
    → o + 4 ≤ len
    → fetch log (entry + 4) ≡ some lo
    → fetch log (entry + 8) ≡ some hi
    → v + a.global_offset ≡ lo + hi * 2 ^ 32 + a.dev_mem
    → fetch log (v + o) ≡ some w
    → ram t (rqe + o) ≡ w

abbrev answer : ℕ → ℕ → Received
answer rkey vaddr = record { rkey = some rkey; vaddr = some vaddr }

-- What a host needs to take two entries from its receive queue on.
pub record CanReceive (bar : History) (fuel : ℕ) (rq : Buff) (qp : Qp) (c : Card) : Type 0 where
  pub queue : qp.rq ≡ some rq
  pub small : qp.rq_pidb + 1 < 2 ^ 23
  pub mapped : rq.buff + 256 * (qp.rq_pidb + 2) < 2 ^ 64
  pub first : (t : ℕ) → Changes bar fuel qp.rq_pidb (db_index qp statrqpidbi c) t
  pub second : (t : ℕ) → Changes bar fuel (qp.rq_pidb + 1) (db_index qp statrqpidbi c) t
