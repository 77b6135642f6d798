-- ===== src/Ernic/Registers/Window.antt =====
-- The registers of a queue pair lie in a window of their own.
use mlir_air_mirror.Prelude.{
  ℕ, ◌+◌, ◌-◌, ◌*◌, ◌/◌, ◌%◌, ◌^◌, ◌≤◌, ◌<◌, ◌≡◌, refl, ap, ◌∙◌, arith, Bool, true, false, ◌==◌,
  ◌&&◌, leb, ltb, elem, distinct, u32, List, [], ◌∷◌, map,
}
use mlir_air_mirror.Ernic.Registers.{ernic_qp_addr}
use mlir_air_mirror.Ernic.Log.{keys}

-- A word-aligned offset of the per-queue registers.
abbrev pub is_per_queue : ℕ → Bool
is_per_queue addr = (addr % 4 == 0) && leb 0x20200 addr && ltb addr 0x20300

abbrev pub all_per_queue : List (ℕ × ℕ) → Bool
all_per_queue [] = true
all_per_queue (w ∷ ws) = is_per_queue w.0 && all_per_queue ws

-- The registers of the queue pairs 1 to 16 do not wrap around.
abbrev pub Fits : ℕ → ℕ → Type 0
Fits off qpid = (1 ≤ qpid) × (qpid ≤ 16) × (off + 0x21400 < 2 ^ 32)

abbrev pub qp_base : ℕ → ℕ → ℕ
qp_base off qpid = (off + 0x100 * (qpid - 1)) / 4

pub ernic_qp_addr-qp_base :
    (off qpid addr : ℕ)
    → Fits off qpid
    → is_per_queue addr ≡ true
    → ernic_qp_addr qpid (u32 (addr + off)) ≡ addr / 4 + qp_base off qpid
unfolding ernic_qp_addr
ernic_qp_addr-qp_base off qpid addr f h =
    let low : 0x20200 ≤ addr = ground arith in
    let high : addr < 0x20300 = ground arith in
    let four : addr % 4 ≡ 0 = ground arith in
    let a : 1 ≤ qpid = f.0 in
    let b : qpid ≤ 16 = f.1 in
    let c : off + 0x21400 < 2 ^ 32 = f.2 in omega (arith, low, high, four, a, b, c)

elem-shift :
    (B a : ℕ) (ws : List (ℕ × ℕ))
    → elem (a + B) (map (λ w. w.0 / 4 + B) ws) ≡ elem a (map (λ w. w.0 / 4) ws)
elem-shift B a [] = refl
elem-shift B a (w ∷ ws) = ground (arith, elem-shift B a ws)

pub distinct-shift :
    (B : ℕ) (ws : List (ℕ × ℕ))
    → distinct (map (λ w. w.0 / 4 + B) ws) ≡ distinct (map (λ w. w.0 / 4) ws)
distinct-shift B [] = refl
distinct-shift B (w ∷ ws) = ground (arith, elem-shift B (w.0 / 4) ws, distinct-shift B ws)

keys-shift :
    (off qpid : ℕ) (ws : List (ℕ × ℕ))
    → Fits off qpid
    → all_per_queue ws ≡ true
    → keys (λ addr. ernic_qp_addr qpid (u32 (addr + off))) ws
      ≡ map (λ w. w.0 / 4 + qp_base off qpid) ws
keys-shift off qpid [] f h = refl
keys-shift off qpid (w ∷ ws) f h =
    rw
      (
        ernic_qp_addr-qp_base off qpid w.0 f (ground (arith, h)),
        keys-shift off qpid ws f (ground (arith, h)),
      )
      refl

pub distinct-keys :
    (off qpid : ℕ) (ws : List (ℕ × ℕ))
    → Fits off qpid
    → all_per_queue ws ≡ true
    → distinct (map (λ w. w.0 / 4) ws) ≡ true
    → distinct (keys (λ addr. ernic_qp_addr qpid (u32 (addr + off))) ws) ≡ true
distinct-keys off qpid ws f h d =
    ap distinct (keys-shift off qpid ws f h) ∙ distinct-shift (qp_base off qpid) ws ∙ d

-- A register of another queue pair is none of these.
pub elem-keys_other :
    (off q qpid addr : ℕ) (ws : List (ℕ × ℕ))
    → Fits off q
    → Fits off qpid
    → (q == qpid) ≡ false
    → is_per_queue addr ≡ true
    → all_per_queue ws ≡ true
    → elem
        (ernic_qp_addr q (u32 (addr + off)))
        (keys (λ addr. ernic_qp_addr qpid (u32 (addr + off))) ws)
      ≡ false
elem-keys_other off q qpid addr [] f g n h k = refl
elem-keys_other off q qpid addr (w ∷ ws) f g n h k =
    let rest = elem-keys_other off q qpid addr ws f g n h (ground (arith, k)) in
    let low : 0x20200 ≤ addr = ground arith in
    let high : addr < 0x20300 = ground arith in
    let low' : 0x20200 ≤ w.0 = ground (arith, k) in
    let high' : w.0 < 0x20300 = ground (arith, k) in
    let a : 1 ≤ q = f.0 in
    let b : 1 ≤ qpid = g.0 in
    let here : ernic_qp_addr q (u32 (addr + off)) ≡ addr / 4 + qp_base off q =
      ernic_qp_addr-qp_base off q addr f h in
    let there : ernic_qp_addr qpid (u32 (w.0 + off)) ≡ w.0 / 4 + qp_base off qpid =
      ernic_qp_addr-qp_base off qpid w.0 g (ground (arith, k)) in
    let ne : (addr / 4 + qp_base off q == w.0 / 4 + qp_base off qpid) ≡ false = ground arith in
    let differ : (ernic_qp_addr q (u32 (addr + off)) == ernic_qp_addr qpid (u32 (w.0 + off)))
        ≡ false =
      rw (here, there) ne in
    rw (differ) rest
