-- ===== src/Controller/Init/Info.antt =====
-- A herd that the host initialises is the herd that the controller tells it about.
use native.Mathlib.Nat.{mod-eq_of_lt, mul-le-mul}
use mlir_air_mirror.Prelude.{
  ℕ, ◌+◌, ◌*◌, ◌<◌, ◌≡◌, ◌∙◌, ap, refl, arith, ◌^◌, length, set, get_or-set_self, length-set,
  if◌then◌else◌, ◌==◌, true,
}
use mlir_air_mirror.Queue.{Packet, packet_set_active}
use mlir_air_mirror.Host.Packets.{air_packet_herd_init}
use mlir_air_mirror.Controller.Decode.{HerdRange, herd_range}
use mlir_air_mirror.Controller.State.{Ctl, HerdConfig, Returns}
use mlir_air_mirror.Controller.NdMemcpy.{packet_at, no_packet}
use mlir_air_mirror.Controller.Init.{
  handle_packet_herd_initialize, handle_packet_get_info, activate, herd_init, xaie_herd_init, info,
}
use mlir_air_mirror.Protocol.{herd_range-air_packet_herd_init}

-- The packet at `pkt` of the queue is the one that the host has filled in.
abbrev pub Sent : Ctl → ℕ → Packet → Type 0
Sent c pkt p = (pkt < length c.packets) × (packet_at c pkt ≡ p)

-- A herd packet that the host has filled in, for arguments below 256, makes the controller's herd
-- the one that the host asked for, except that row 0 becomes row 1.
pub handle_packet_herd_initialize-air_packet_herd_init :
    (c : Ctl) (pkt : ℕ) (blank : Packet) (herd_id start_col num_cols start_row num_rows : ℕ)
    → start_col < 256
    → num_cols < 256
    → start_row < 256
    → num_rows < 256
    → packet_at c pkt ≡ (air_packet_herd_init blank herd_id start_col num_cols start_row num_rows).1
    → Returns
        (λ r. r.1.herd ≡ record {
          row_start = if start_row == 0 then 1 else start_row;
          num_rows = num_rows;
          col_start = start_col;
          num_cols = num_cols;
        })
        (handle_packet_herd_initialize pkt c)
unfolding handle_packet_herd_initialize activate herd_init xaie_herd_init
handle_packet_herd_initialize-air_packet_herd_init c pkt blank herd_id sc nc sr nr hsc hnc hsr hnr
      e =
    let read : herd_range (packet_at c pkt).arg0 ≡ _ =
      ap (λ (p : Packet). herd_range p.arg0) e
      ∙ herd_range-air_packet_herd_init sc nc sr nr hsc hnc hsr hnr blank herd_id in
    go _ read _
  where
    same_row :
        (r : ℕ)
        → Path HerdConfig
            (record {
              row_start = if r == 0 then r + 1 else r;
              num_rows = nr;
              col_start = sc;
              num_cols = nc;
            })
            (record {
              row_start = if r == 0 then 1 else r;
              num_rows = nr;
              col_start = sc;
              num_cols = nc;
            })
    same_row r =
        ap (λ x. record { row_start = x; num_rows = nr; col_start = sc; num_cols = nc })
          (ground arith)

    go :
        (range : HerdRange)
        → range ≡ record { kind = 1; start_row = sr; num_rows = nr; start_col = sc; num_cols = nc }
        → (d : Ctl)
        → Returns
            (λ r. r.1.herd ≡ record {
              row_start = if sr == 0 then 1 else sr;
              num_rows = nr;
              col_start = sc;
              num_cols = nc;
            })
            (herd_init range d)
    go range f d = rw (f) (same_row sr)

-- For a packet that exists and a herd of fewer than 256 rows and columns, the answer to the
-- attributes 5, 6 and 7, written to the packet's return address, is the size, the rows and the
-- columns of the herd that the controller holds.
pub handle_packet_get_info-herd :
    (mb_id user1 user2 beyond pkt : ℕ) (c : Ctl)
    → pkt < length c.packets
    → c.herd.num_rows < 256
    → c.herd.num_cols < 256
    → Returns
        (λ r.
          let asked = (packet_at c pkt).arg0 in
          let answer = (packet_at (r.1) pkt).return_address in
          (asked ≡ 5 → answer ≡ c.herd.num_cols * c.herd.num_rows)
          × (asked ≡ 6 → answer ≡ c.herd.num_rows)
          × (asked ≡ 7 → answer ≡ c.herd.num_cols))
        (handle_packet_get_info mb_id user1 user2 beyond pkt c)
unfolding handle_packet_get_info activate info
handle_packet_get_info-herd mb_id user1 user2 beyond pkt c low hr hc =
    rw
      (get_or-set_self (set c.packets pkt (packet_set_active (packet_at c pkt) true)) pkt _
        no_packet
        (omega (arith, length-set c.packets pkt (packet_set_active (packet_at c pkt) true))))
      (λ e. rw (e) (mod-eq_of_lt small), λ e. rw (e) refl, λ e. rw (e) refl)
  where
    small : c.herd.num_cols * c.herd.num_rows < 2 ^ 32
    small = omega (
      arith,
      mul-le-mul {n₁ = c.herd.num_cols} {m₁ = c.herd.num_rows} {n₂ = 255} {m₂ = 255} (omega arith)
          (omega arith),
    )
