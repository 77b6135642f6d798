-- ===== src/Controller/Barrier/Index.antt =====
-- The read index of the queue, which `mymod` keeps inside the queue's 48 slots.
use mlir_air_mirror.Prelude.{
  ℕ, zero, suc, ◌+◌, ◌-◌, ◌%◌, ◌<◌, ◌≤◌, ◌≡◌, ◌∙◌, ap, arith, Bool-cases, inl, inr, leb, u64,
}
use mlir_air_mirror.Queue.{Queue, mb_queue_size, queue_add_read_index}
use mlir_air_mirror.Controller.Barrier.{mymod_loop, mymod, advance}

mymod_loop_lem : (n a : ℕ) → a ≤ n → mymod_loop n a ≡ a % mb_queue_size
unfolding mymod_loop
mymod_loop_lem zero a h = omega arith
mymod_loop_lem (suc n) a h = elim (Bool-cases (leb mb_queue_size a)) [
  | inl e ↦ rw (e) (mymod_loop_lem n (a - mb_queue_size) (ground arith) ∙ ground arith)
  | inr e ↦ rw (e) (ground arith)
]

-- `mymod` is the remainder modulo the number of slots.
pub mymod_lem : (a : ℕ) → mymod a ≡ a % mb_queue_size
unfolding mymod
mymod_lem a = mymod_loop_lem a a (omega arith)

-- For a read index inside the queue and at most 48 packets, taking n packets off the queue moves
-- the read index by n modulo the 48 slots and changes nothing else.
pub advance_lem :
    (n : ℕ) (q : Queue)
    → q.read_index < mb_queue_size
    → n ≤ mb_queue_size
    → advance n q ≡ record q { read_index = (q.read_index + n) % mb_queue_size }
unfolding advance queue_add_read_index
advance_lem n q h k =
    ap (λ i. record q { read_index = i })
      (mymod_lem (u64 (q.read_index + n)) ∙ ap (λ i. i % mb_queue_size) fits)
  where
    fits : u64 (q.read_index + n) ≡ q.read_index + n
    fits = ground arith
