-- ===== src/Controller/NdMemcpy/Retry.antt =====
-- A copy from its staging to its end: `stage_packet_nd_memcpy` and as many calls of
-- `do_packet_memcpy` as the controller makes for the slot.
use mlir_air_mirror.Prelude.{
  ℕ, zero, suc, ◌-◌, ◌^◌, Bool, ◌<◌, ◌≡◌, ◌⊎◌, inl, inr, refl, ap, sym, ◌∙◌, List, [], ◌++◌, arith,
  length, length-set, get_or, get_or-set_self, get_or-set_ne, ◌≢◌, if◌then◌else◌, ◌==◌, set, leb,
  true, false,
}
use mathlib.Core.Path.{subst, subst₂}
use mathlib.Core.List.{append-nil, append_assoc}
use mlir_air_mirror.Queue.{Packet, packet_set_active}
use mlir_air_mirror.Queue.Signal.{History}
use mlir_air_mirror.Controller.Decode.{NdCommand, nd_command}
use mlir_air_mirror.Controller.State.{
  Ctl, Cursor, Staged, M, Returns, Returns-and_then, Returns-map, pure, ◌>>=◌,
}
use mlir_air_mirror.Controller.ShimDma.Push.{Programmed, Programmed-append}
use mlir_air_mirror.Controller.NdMemcpy.{
  do_packet_nd_memcpy, do_packet_memcpy, stage_packet_nd_memcpy, slot_at, packet_at, no_slot,
  no_packet, start_cursor,
}
use mlir_air_mirror.Controller.NdMemcpy.Address.{
  At, volume, all_rows, left_4d-volume, start_cursor-At,
}
use mlir_air_mirror.Controller.NdMemcpy.Outcome.{channel_of}
use mlir_air_mirror.Controller.NdMemcpy.Resume.{remaining, Attempt, CmdDrains, slot_attempt_lem}

-- Attempts at the copy in a slot until one returns 0, `k + 1` at most.
pub retry : History → ℕ → ℕ → ℕ → M ℕ
retry env fuel zero slot = do_packet_memcpy env fuel slot
retry env fuel (suc k) slot = do
  ret ← do_packet_memcpy env fuel slot
  if ret == 0 then pure 0 else retry env fuel k slot

-- The slot holds the copy `cmd` at the cursor.
record Held (cmd : NdCommand) (base slot : ℕ) (cur : Cursor) (c : Ctl) : Type 0 where
  in_range : slot < length c.slots
  command : nd_command (packet_at c (slot_at c slot).pkt) ≡ cmd
  cursor : (slot_at c slot).cursor ≡ cur
  consistent : At cmd base cur

-- The first of the rows `todo` have been pushed, in order, and all of them if the answer is 0.
pub record Copied (cmd : NdCommand) (todo : List ℕ) (c : Ctl) (r : ℕ × Ctl) : Type 0 where
  pub did : List ℕ
  pub left : List ℕ
  pub log : Programmed (channel_of cmd) cmd.length_1d did c.writes r.1.writes
  pub split : todo ≡ did ++ left
  pub answer : ((r.0 ≡ 0) × (left ≡ [])) ⊎ (r.0 ≡ 1)

module _ (env : History) (fuel base : ℕ) where
  do_packet_memcpy-Attempt :
      (cmd : NdCommand)
      → CmdDrains env fuel cmd
      → (slot : ℕ) (cur : Cursor) (c : Ctl) → slot < 64
      → Held cmd base slot cur c
      → Returns (Attempt cmd base slot cur c) (do_packet_memcpy env fuel slot c)
  unfolding do_packet_memcpy
  do_packet_memcpy-Attempt cmd drains slot cur c h held =
      let small : leb 64 slot ≡ false = ground arith in
      rw small (
        subst₂
          (λ (x : NdCommand) (y : Cursor).
            Returns (Attempt x base slot y c) (do_packet_nd_memcpy env fuel slot c))
          held.command held.cursor
          (slot_attempt_lem env fuel base slot c
            (subst (λ x. CmdDrains env fuel x) (sym held.command) drains)
            (subst₂ (λ (x : NdCommand) (y : Cursor). At x base y) (sym held.command)
              (sym held.cursor) held.consistent)))

  Attempt-Held :
      (cmd : NdCommand) (slot : ℕ) (cur cur' : Cursor) (c d : Ctl)
      → Held cmd base slot cur c
      → d.packets ≡ c.packets
      → d.slots ≡ set c.slots slot (record (slot_at c slot) { cursor = cur' })
      → At cmd base cur'
      → Held cmd base slot cur' d
  Attempt-Held cmd slot cur cur' c d held p s a =
      let got : slot_at d slot ≡ record (slot_at c slot) { cursor = cur' } =
        ap (λ (slots : List Staged). get_or slots slot no_slot) s
        ∙ get_or-set_self c.slots slot (record (slot_at c slot) { cursor = cur' }) no_slot
            held.in_range in
      record {
        in_range = omega (
          arith,
          held.in_range,
          ap (λ (slots : List Staged). length slots) s,
          length-set c.slots slot (record (slot_at c slot) { cursor = cur' }),
        );
        command = rw (got, p) held.command;
        cursor = ap (λ (x : Staged). x.cursor) got;
        consistent = a;
      }

  Attempt-Copied :
      (cmd : NdCommand) (slot : ℕ) (cur : Cursor) (c : Ctl) (r : ℕ × Ctl)
      → Attempt cmd base slot cur c r
      → Copied cmd (remaining cmd base cur) c r
  Attempt-Copied cmd slot cur c r t = elim (t.outcome) [
    | inl (e, same, all) ↦ record {
      did = t.did;
      left = [];
      log = t.log;
      split = all ∙ sym (append-nil t.did);
      answer = inl (e, refl);
    }
    | inr (e, (cur', s, a, split)) ↦ record {
      did = t.did;
      left = remaining cmd base cur';
      log = t.log;
      split = split;
      answer = inr e;
    }
  ]

  retry-Copied :
      (k : ℕ) (cmd : NdCommand)
      → CmdDrains env fuel cmd
      → (slot : ℕ) (cur : Cursor) (c : Ctl) → slot < 64
      → Held cmd base slot cur c
      → Returns (Copied cmd (remaining cmd base cur) c) (retry env fuel k slot c)
  unfolding retry
  retry-Copied zero cmd drains slot cur c h held =
      Returns-map (Attempt cmd base slot cur c) (Copied cmd (remaining cmd base cur) c) _
        (do_packet_memcpy-Attempt cmd drains slot cur c h held)
        λ r t. Attempt-Copied cmd slot cur c r t
  retry-Copied (suc k) cmd drains slot cur c h held =
      Returns-and_then (Attempt cmd base slot cur c) (Copied cmd (remaining cmd base cur) c) _ _
        (do_packet_memcpy-Attempt cmd drains slot cur c h held)
        λ v d t. elim (t.outcome) [
          | inl (e, same, all) ↦ rw e (Attempt-Copied cmd slot cur c (0, d) (rw e at t))
          | inr (e, (cur', s, a, split)) ↦ rw e (
              Returns-map (Copied cmd (remaining cmd base cur') d)
                (Copied cmd (remaining cmd base cur) c) _
                (retry-Copied k cmd drains slot cur' d h
                  (Attempt-Held cmd slot cur cur' c d held t.packets s a))
                λ r o. record {
                  did = t.did ++ o.did;
                  left = o.left;
                  log = Programmed-append t.log o.log;
                  split = split ∙ rw o.split (sym (append_assoc t.did o.did o.left));
                  answer = o.answer;
                })
        ]

-- The slot and the packet once the copy is staged; other slots and packets are as they were.
pub record IsStaged (pkt slot : ℕ) (c : Ctl) (r : ℕ × Ctl) : Type 0 where
  pub answer : r.0 ≡ 0
  pub writes : r.1.writes ≡ c.writes
  pub in_range : slot < length r.1.slots
  pub this_slot :
      slot_at r.1 slot
      ≡ record { valid = 1; pkt = pkt; cursor = start_cursor (packet_at c pkt).arg1 }
  pub other_slots : (j : ℕ) → slot ≢ j → slot_at r.1 j ≡ slot_at c j
  pub this_packet : packet_at r.1 pkt ≡ packet_set_active (packet_at c pkt) true
  pub other_packets : (j : ℕ) → pkt ≢ j → packet_at r.1 j ≡ packet_at c j

-- Staging a copy of memory space 2 whose packet and slot exist and whose slot is free answers 0,
-- writes no register, fills the slot with the packet and the start of its copy, marks the packet
-- active, and leaves the other slots and packets as they were.
pub stage_packet_nd_memcpy-IsStaged :
    (pkt slot : ℕ) (c : Ctl)
    → pkt < length c.packets
    → slot < length c.slots
    → (slot_at c slot).valid ≡ 0
    → Returns (IsStaged pkt slot c) (stage_packet_nd_memcpy pkt slot 2 c)
unfolding stage_packet_nd_memcpy
stage_packet_nd_memcpy-IsStaged pkt slot c hp h free =
    let test : ((slot_at c slot).valid == 0) ≡ true = ground arith in
    let saved : Staged = record (slot_at c slot) {
      pkt = pkt;
      cursor = start_cursor (packet_at c pkt).arg1;
    } in
    let inside : slot < length (set c.slots slot saved) =
      omega (arith, length-set c.slots slot saved) in
    let first : get_or (set c.slots slot saved) slot no_slot ≡ saved =
      get_or-set_self c.slots slot saved no_slot h in
    rw test (record {
      answer = refl;
      writes = refl;
      in_range = omega (
        arith,
        inside,
        length-set (set c.slots slot saved) slot
            (record (get_or (set c.slots slot saved) slot no_slot) { valid = 1 }),
      );
      this_slot =
          get_or-set_self (set c.slots slot saved) slot _ no_slot inside
          ∙ ap (λ (x : Staged). record x { valid = 1 }) first;
      other_slots = λ j ne.
          get_or-set_ne (set c.slots slot saved) _ no_slot ne
          ∙ get_or-set_ne c.slots saved no_slot ne;
      this_packet = get_or-set_self c.packets pkt _ no_packet hp;
      other_packets = λ j ne. get_or-set_ne c.packets _ no_packet ne;
    })

-- The life of a copy on its own: staged, and then attempted until an attempt returns 0.
pub copy : History → ℕ → ℕ → ℕ → ℕ → M ℕ
unfolding retry
copy env fuel k pkt slot = do
  ret ← stage_packet_nd_memcpy pkt slot 2
  if ret == 0 then retry env fuel k slot else pure ret

abbrev pub command_at : Ctl → ℕ → NdCommand
command_at c pkt = nd_command (packet_at c pkt)

nd_command-packet_set_active :
    (p : Packet) (b : Bool) → nd_command (packet_set_active p b) ≡ nd_command p
unfolding nd_command packet_set_active
nd_command-packet_set_active p b = refl

IsStaged-Held :
    (pkt slot : ℕ) (c : Ctl) (r : ℕ × Ctl)
    → IsStaged pkt slot c r
    → (packet_at c pkt).arg1 < 2 ^ 64
    → Held (command_at c pkt) (packet_at c pkt).arg1 slot (start_cursor (packet_at c pkt).arg1) r.1
IsStaged-Held pkt slot c r st word = record {
  in_range = st.in_range;
  command = rw (st.this_slot, st.this_packet) (nd_command-packet_set_active (packet_at c pkt) true);
  cursor = ap (λ (x : Staged). x.cursor) st.this_slot;
  consistent = start_cursor-At (command_at c pkt) (packet_at c pkt).arg1 word;
}

remaining-start_cursor :
    (cmd : NdCommand) (base : ℕ) → remaining cmd base (start_cursor base) ≡ all_rows cmd base
unfolding remaining all_rows
remaining-start_cursor cmd base =
    left_4d-volume cmd base (cmd.length_4d - 0) (start_cursor base) refl (λ _. refl)
    ∙ ap (λ (n : ℕ). volume cmd base n 0) (omega arith)

-- If the start queues drain, a copy whose packet and slot exist, whose slot is free and below 64,
-- and whose address is below 2^64 returns after any number of attempts, and has pushed descriptors
-- at the first of the addresses of its command, in order and each once; when the answer is 0, at
-- all of them.
pub copy-Copied :
    (env : History) (fuel k pkt slot : ℕ) (c : Ctl)
    → CmdDrains env fuel (command_at c pkt)
    → (command_at c pkt).channel < 2
    → length c.last_bd ≡ 8
    → pkt < length c.packets
    → slot < length c.slots
    → slot < 64
    → (slot_at c slot).valid ≡ 0
    → (packet_at c pkt).arg1 < 2 ^ 64
    → Returns
        (Copied (command_at c pkt) (all_rows (command_at c pkt) (packet_at c pkt).arg1) c)
        (copy env fuel k pkt slot c)
unfolding copy
copy-Copied env fuel k pkt slot c drains two eight hp hs h64 free word =
    Returns-and_then (IsStaged pkt slot c) (Copied cmd (all_rows cmd base) c) _ _
      (stage_packet_nd_memcpy-IsStaged pkt slot c hp hs free)
      λ ret d st. rw (st.answer) (
        Returns-map (Copied cmd (remaining cmd base (start_cursor base)) d)
          (Copied cmd (all_rows cmd base) c) _
          (retry-Copied env fuel base k cmd drains slot (start_cursor base) d h64
            (IsStaged-Held pkt slot c (ret, d) st word))
          λ r o. record {
            did = o.did;
            left = o.left;
            log = rw (st.writes) at (o.log);
            split = sym (remaining-start_cursor cmd base) ∙ o.split;
            answer = o.answer;
          })
  where
    cmd : NdCommand
    cmd = command_at c pkt

    base : ℕ
    base = (packet_at c pkt).arg1
