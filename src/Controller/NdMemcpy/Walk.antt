-- ===== src/Controller/NdMemcpy/Walk.antt =====
-- The loops of `do_packet_nd_memcpy` push the rows of the command in order, each once, however
-- often the shim DMA stalls them.
use mlir_air_mirror.Prelude.{
  ℕ, zero, suc, ◌+◌, ◌-◌, ◌<◌, ◌≤◌, ◌≡◌, refl, ap, sym, ◌∙◌, true, false, leb, [], ◌∷◌, field,
  arith, Bool-cases, inl, inr, some,
}
use mathlib.Core.List.{append_assoc}
use mlir_air_mirror.Queue.Signal.{History}
use mlir_air_mirror.Controller.Decode.{NdCommand}
use mlir_air_mirror.Controller.State.{Ctl, Cursor, Returns, Returns-and_then, Returns-map, and_then}
use mlir_air_mirror.Controller.ShimDma.{
  xaie_shim_dma_get_outstanding, xaie_shim_dma_push_bd, status_register_offset,
  start_queue_size_mask_shift,
}
use mlir_air_mirror.Controller.ShimDma.Push.{idle, Drains, Pushed, push_bd-Pushed}
use mlir_air_mirror.Controller.NdMemcpy.{
  step_2d, step_3d, step_4d, tile_of, Stop, stalled, finished, loop_2d, loop_3d, loop_4d,
  unless_stalled,
}
use mlir_air_mirror.Controller.NdMemcpy.Address.{
  left_2d, left_3d, left_4d, At, step_2d-At, step_3d-At, step_4d-At, left_3d-plane, left_4d-volume,
}
use mlir_air_mirror.Controller.NdMemcpy.Outcome.{
  channel_of, Outcome, SameRest-refl, Outcome-extend, Pushed-Programmed, SameRest-ticked,
}

module _ (env : History) (fuel : ℕ) (cmd : NdCommand)
    (drains : Drains env fuel (tile_of cmd) cmd.direction cmd.channel) (base : ℕ) where
  abbrev outstanding : Ctl → ℕ
  outstanding c =
      field (env c.clock (tile_of cmd + status_register_offset cmd.direction))
        (start_queue_size_mask_shift cmd.channel) 3

  abbrev ticked : Ctl → Ctl
  ticked c = record c { clock = c.clock + 1 }

  loop_2d_stall :
      (n : ℕ) (cur : Cursor) (c : Ctl)
      → leb 4 (outstanding c) ≡ true
      → loop_2d env fuel cmd (suc n) cur c ≡ some ((stalled, cur), ticked c)
  unfolding loop_2d xaie_shim_dma_get_outstanding
  loop_2d_stall n cur c e = rw e

  loop_2d_push :
      (n : ℕ) (cur : Cursor) (c : Ctl)
      → leb 4 (outstanding c) ≡ false
      → loop_2d env fuel cmd (suc n) cur c
        ≡ and_then
            (xaie_shim_dma_push_bd env fuel
              (tile_of cmd)
              cmd.direction
              cmd.channel
              cmd.col
              cur.paddr_1d
              cmd.length_1d
              (ticked c))
            (λ _. loop_2d env fuel cmd n (step_2d cmd cur))
  unfolding loop_2d xaie_shim_dma_get_outstanding
  loop_2d_push n cur c e = rw e

  -- A row loop stays in its row.
  abbrev InRow : Cursor → Cursor → Type 0
  InRow cur cur' = (cur'.index_4d ≡ cur.index_4d) × (cur'.index_3d ≡ cur.index_3d)

  abbrev Outcome2 : ℕ → Cursor → Ctl → (Stop × Cursor) × Ctl → Type 0
  Outcome2 n cur =
      Outcome cmd base (left_2d cmd base) (λ cur'. cmd.length_2d - cur'.index_2d) (InRow cur)
        (left_2d cmd base n cur)

  loop_2d-Outcome :
      (n : ℕ) (cur : Cursor) (c : Ctl)
      → n ≡ cmd.length_2d - cur.index_2d
      → cur.index_3d < cmd.length_3d
      → At cmd base cur
      → Returns (Outcome2 n cur c) (loop_2d env fuel cmd n cur c)
  unfolding loop_2d left_2d
  loop_2d-Outcome zero cur c e h a = record {
    rest = SameRest-refl c;
    did = [];
    log = idle;
    consistent = a;
    m = 0;
    count = e;
    split = refl;
    ended = λ _. refl;
    keeps = (refl, refl);
  }
  loop_2d-Outcome (suc n) cur c e h a = elim (Bool-cases (leb 4 (outstanding c))) [
    | inl full ↦ rw (loop_2d_stall n cur c full) (record {
      rest = record { slots = refl; packets = refl; queue = refl; herd = refl; setup = refl };
      did = [];
      log = idle;
      consistent = a;
      m = suc n;
      count = e;
      split = refl;
      ended = λ stop. cc;
      keeps = (refl, refl);
    })
    | inr free ↦ rw (loop_2d_push n cur c free) (
        Returns-and_then (Pushed env (channel_of cmd) cmd.length_1d cur.paddr_1d (ticked c)) _ _ _
          (push_bd-Pushed env fuel (tile_of cmd) cmd.direction cmd.channel cmd.col cur.paddr_1d
            cmd.length_1d (ticked c) drains)
          λ v d pushed.
            Returns-map (Outcome2 n (step_2d cmd cur) d) (Outcome2 (suc n) cur c) _
              (loop_2d-Outcome n (step_2d cmd cur) d (omega arith) h (step_2d-At cmd base cur a h))
              λ r o.
                Outcome-extend (cur.paddr_1d ∷ []) r (SameRest-ticked c pushed.rest)
                  (Pushed-Programmed (channel_of cmd) cmd.length_1d cur.paddr_1d (ticked c) (v, d)
                    pushed)
                  (sym (ap (λ (x : ℕ). x ∷ left_2d cmd base n (step_2d cmd cur)) (a.row_addr h)))
                  (λ cur' k. k) o)
  ]

  abbrev Outcome3 : ℕ → Cursor → Ctl → (Stop × Cursor) × Ctl → Type 0
  Outcome3 n cur =
      Outcome cmd base (left_3d cmd base) (λ cur'. cmd.length_3d - cur'.index_3d)
        (λ cur'. cur'.index_4d ≡ cur.index_4d) (left_3d cmd base n cur)

  -- The plane loop behind the row loop that it has run.
  loop_3d_after :
      (n : ℕ) (cur : Cursor) (c : Ctl)
      → ((cur' : Cursor) (d : Ctl)
          → n ≡ cmd.length_3d - cur'.index_3d
          → At cmd base cur'
          → Returns (Outcome3 n cur' d) (loop_3d env fuel cmd n cur' d))
      → suc n ≡ cmd.length_3d - cur.index_3d
      → (stop : Stop) (cur' : Cursor) (d : Ctl)
      → Outcome2 (cmd.length_2d - cur.index_2d) cur c ((stop, cur'), d)
      → Returns
          (Outcome3 (suc n) cur c)
          (unless_stalled (stop, cur') (λ cur''. loop_3d env fuel cmd n (step_3d cmd cur'')) d)
  unfolding left_3d
  loop_3d_after n cur c ih e stalled cur' d o = record {
    rest = o.rest;
    did = o.did;
    log = o.log;
    consistent = o.consistent;
    m = suc n;
    count = rw (o.keeps.1) e;
    split = simp (o.split, ← o.count, o.keeps.0, o.keeps.1, append_assoc);
    ended = λ stop. cc;
    keeps = o.keeps.0;
  }
  loop_3d_after n cur c ih e finished cur' d o =
      Returns-map (Outcome3 n (step_3d cmd cur') d) (Outcome3 (suc n) cur c) _
        (ih (step_3d cmd cur') d (omega (arith, o.keeps.1))
          (step_3d-At cmd base cur' o.consistent (omega (arith, o.keeps.1))))
        λ r o'.
          Outcome-extend o.did r o.rest o.log
            (simp (o.split, o.ended refl, o.keeps.0, o.keeps.1, append_assoc, left_3d-plane) refl)
            (λ cur'' k. k ∙ o.keeps.0) o'

  loop_3d-Outcome :
      (n : ℕ) (cur : Cursor) (c : Ctl)
      → n ≡ cmd.length_3d - cur.index_3d
      → At cmd base cur
      → Returns (Outcome3 n cur c) (loop_3d env fuel cmd n cur c)
  unfolding loop_3d
  loop_3d-Outcome zero cur c e a = record {
    rest = SameRest-refl c;
    did = [];
    log = idle;
    consistent = a;
    m = 0;
    count = e;
    split = refl;
    ended = λ _. refl;
    keeps = refl;
  }
  loop_3d-Outcome (suc n) cur c e a =
      Returns-and_then (Outcome2 (cmd.length_2d - cur.index_2d) cur c) (Outcome3 (suc n) cur c) _ _
        (loop_2d-Outcome (cmd.length_2d - cur.index_2d) cur c refl (omega arith) a)
        λ r d o. loop_3d_after n cur c (loop_3d-Outcome n) e r.0 r.1 d o

  abbrev pub Outcome4 : ℕ → Cursor → Ctl → (Stop × Cursor) × Ctl → Type 0
  Outcome4 n cur =
      Outcome cmd base (left_4d cmd base) (λ cur'. cmd.length_4d - cur'.index_4d) (λ cur'. Unit {0})
        (left_4d cmd base n cur)

  loop_4d_after :
      (n : ℕ) (cur : Cursor) (c : Ctl)
      → ((cur' : Cursor) (d : Ctl)
          → n ≡ cmd.length_4d - cur'.index_4d
          → At cmd base cur'
          → Returns (Outcome4 n cur' d) (loop_4d env fuel cmd n cur' d))
      → suc n ≡ cmd.length_4d - cur.index_4d
      → (stop : Stop) (cur' : Cursor) (d : Ctl)
      → Outcome3 (cmd.length_3d - cur.index_3d) cur c ((stop, cur'), d)
      → Returns
          (Outcome4 (suc n) cur c)
          (unless_stalled (stop, cur') (λ cur''. loop_4d env fuel cmd n (step_4d cmd cur'')) d)
  unfolding left_4d
  loop_4d_after n cur c ih e stalled cur' d o = record {
    rest = o.rest;
    did = o.did;
    log = o.log;
    consistent = o.consistent;
    m = suc n;
    count = rw (o.keeps) e;
    split = simp (o.split, ← o.count, o.keeps, append_assoc);
    ended = λ stop. cc;
    keeps = tt;
  }
  loop_4d_after n cur c ih e finished cur' d o =
      let past : cmd.length_3d ≤ cur'.index_3d = omega (arith, o.count, o.ended refl) in
      Returns-map (Outcome4 n (step_4d cmd cur') d) (Outcome4 (suc n) cur c) _
        (ih (step_4d cmd cur') d (omega (arith, o.keeps))
          (step_4d-At cmd base cur' o.consistent past))
        λ r o'.
          Outcome-extend o.did r o.rest o.log
            (simp (o.split, o.ended refl, append_assoc)
              (rw (
                left_4d-volume cmd base n (step_4d cmd cur') refl (o.consistent.next_row past),
                o.keeps,
              )))
            (λ cur'' k. k) o'

  -- If the start queue of the channel drains, the loops return, having pushed the first of the rows that were left,
  -- in order, and with the others left at the cursor; they finish only when none is.
  pub loop_4d-Outcome :
      (n : ℕ) (cur : Cursor) (c : Ctl)
      → n ≡ cmd.length_4d - cur.index_4d
      → At cmd base cur
      → Returns (Outcome4 n cur c) (loop_4d env fuel cmd n cur c)
  unfolding loop_4d
  loop_4d-Outcome zero cur c e a = record {
    rest = SameRest-refl c;
    did = [];
    log = idle;
    consistent = a;
    m = 0;
    count = e;
    split = refl;
    ended = λ _. refl;
    keeps = tt;
  }
  loop_4d-Outcome (suc n) cur c e a =
      Returns-and_then (Outcome3 (cmd.length_3d - cur.index_3d) cur c) (Outcome4 (suc n) cur c) _ _
        (loop_3d-Outcome (cmd.length_3d - cur.index_3d) cur c refl a)
        λ r d o. loop_4d_after n cur c (loop_4d-Outcome n) e r.0 r.1 d o
