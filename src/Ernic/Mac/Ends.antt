-- ===== src/Ernic/Mac/Ends.antt =====
-- The alignment of the MRMAC gives up in time.
use mlir_air_mirror.Prelude.{
  ℕ, zero, suc, ◌+◌, ◌≤◌, ◌<◌, ◌≡◌, refl, sym, ap, ◌∙◌, arith, ◌⊎◌, inl, inr, Bool, true, false,
  ◌==◌, u32, u64, ◌/◌, Bool-cases, ◌∷◌,
}
use mlir_air_mirror.Queue.Signal.{History}
use mlir_air_mirror.Ernic.State.{Card, reg, Returns, returns, Returns-and_then, Returns-map}
use mlir_air_mirror.Ernic.Registers.{csr_addr, stat_rx_status_reg1_0_offset}
use mlir_air_mirror.Ernic.Log.{out_all-regs}
use mlir_air_mirror.Ernic.Mac.{
  rx_aligned, rx_error, mrmac_align, wait_reset_done, do_configure_mrmac,
}

module _ (bar : History) where
  -- The status that the read number t + k of a run finds.
  abbrev pub status_at : ℕ → ℕ → ℕ
  status_at offset t = u32 (bar t (csr_addr (offset + stat_rx_status_reg1_0_offset)))

  -- The statuses that the reads from t on find, up to the first that decides: `k` reads are neither
  -- aligned nor an error, and then the answer is whether the next is aligned. It is the n-th, aligned
  -- or an error.
  pub record Verdict (n offset t : ℕ) (b : Bool) (d : Card) : Type 0 where
    pub k : ℕ
    pub bound : k ≤ n
    pub before :
        (j : ℕ)
        → j < k
        → (rx_aligned (status_at offset (t + j)) ≡ false)
          × (rx_error (status_at offset (t + j)) ≡ false)
    pub answer : b ≡ rx_aligned (status_at offset (t + k))
    pub last :
        (k ≡ n)
        ⊎ ((rx_aligned (status_at offset (t + k)) ≡ true)
            ⊎ (rx_error (status_at offset (t + k)) ≡ true))
    pub time : d.clock ≡ t + k + 1

  Verdict-later :
      (n offset t : ℕ) (b : Bool) (d : Card)
      → rx_aligned (status_at offset t) ≡ false
      → rx_error (status_at offset t) ≡ false
      → Verdict n offset (t + 1) b d
      → Verdict (suc n) offset t b d
  Verdict-later n offset t b d a e v =
      let same : (j : ℕ) → status_at offset (t + 1 + j) ≡ status_at offset (t + suc j) =
        λ j. ap (status_at offset) (omega arith) in
      record {
        k = suc v.k;
        bound = omega (arith, v.bound);
        before = now_or_later same v.before;
        answer = v.answer ∙ ap rx_aligned (same v.k);
        last = elim v.last [
          | inl e ↦ inl (ap suc e)
          | inr (inl x) ↦ inr (inl (sym (ap rx_aligned (same v.k)) ∙ x))
          | inr (inr x) ↦ inr (inr (sym (ap rx_error (same v.k)) ∙ x))
        ];
        time = v.time ∙ omega arith;
      }
    where
      now_or_later :
          ((j : ℕ) → status_at offset (t + 1 + j) ≡ status_at offset (t + suc j))
          → ((j : ℕ)
              → j < v.k
              → (rx_aligned (status_at offset (t + 1 + j)) ≡ false)
                × (rx_error (status_at offset (t + 1 + j)) ≡ false))
          → (j : ℕ) → j < suc v.k
          → (rx_aligned (status_at offset (t + j)) ≡ false)
            × (rx_error (status_at offset (t + j)) ≡ false)
      now_or_later same before zero h =
          let here : status_at offset (t + 0) ≡ status_at offset t =
            ap (status_at offset) (omega arith) in
          (ap rx_aligned here ∙ a, ap rx_error here ∙ e)
      now_or_later same before (suc j) h =
          let r = before j (omega (arith, h)) in
          (sym (ap rx_aligned (same j)) ∙ r.0, sym (ap rx_error (same j)) ∙ r.1)

  Verdict-now :
      (n offset t : ℕ) (b : Bool) (c : Card)
      → c.clock ≡ t + 1
      → b ≡ rx_aligned (status_at offset t)
      → (0 ≡ n)
        ⊎ ((rx_aligned (status_at offset t) ≡ true) ⊎ (rx_error (status_at offset t) ≡ true))
      → Verdict n offset t b c
  Verdict-now n offset t b c e a l =
      let same : t + 0 ≡ t = omega arith in
      record {
        k = 0;
        bound = omega arith;
        before = λ j h. absurd (omega (arith, h));
        answer = rw (same) a;
        last = rw (same) l;
        time = e ∙ omega arith;
      }

  mrmac_align-Verdict :
      (n offset t : ℕ) (c : Card)
      → c.clock ≡ t + 1
      → Returns (Verdict n offset t) (mrmac_align bar n offset (status_at offset t) c)
  unfolding mrmac_align
  mrmac_align-Verdict zero offset t c e =
      returns (Verdict-now zero offset t (rx_aligned (status_at offset t)) c e refl (inl refl))
  mrmac_align-Verdict (suc n) offset t c e = elim (Bool-cases (rx_aligned (status_at offset t))) [
    | inl up ↦
        rw (up, mrmac_align)
          (returns (Verdict-now (suc n) offset t true c e (sym up) (inr (inl up))))
    | inr down ↦ elim (Bool-cases (rx_error (status_at offset t))) [
      | inl bad ↦
          rw (down, bad, mrmac_align)
            (returns (Verdict-now (suc n) offset t false c e (sym down) (inr (inr bad))))
      | inr fine ↦
          rw (down, fine, mrmac_align, e)
            (Returns-map
              (mrmac_align-Verdict n offset (t + 1)
                (record c {
                  clock = t + 1 + 1;
                  log = reg (csr_addr (offset + stat_rx_status_reg1_0_offset)) 0xffffffff ∷ c.log;
                })
                refl)
              λ b d v. Verdict-later n offset t b d down fine v)
    ]
  ]

  -- One of `n` reads of the reset register from the t-th on is 0xff.
  abbrev pub ResetDone : ℕ → ℕ → ℕ → Type 0
  ResetDone zero a t = ⊥
  ResetDone (suc n) a t = ((u32 (bar t a) == 0xff) ≡ true) ⊎ ResetDone n a (t + 1)

  -- Of the reads of the reset register from the t-th on, the r-th is the first that is 0xff.
  pub data FirstDone (a : ℕ) : ℕ → ℕ → Type 0 where
    now : (t : ℕ) → (u32 (bar t a) == 0xff) ≡ true → FirstDone a t t
    later : (t r : ℕ) → (u32 (bar t a) == 0xff) ≡ false → FirstDone a (t + 1) r → FirstDone a t r

  wait_reset_done-FirstDone :
      (fuel reset_offset : ℕ) (c : Card)
      → ResetDone fuel (u64 (reset_offset + 0x8) / 4) c.clock
      → Returns
          (λ _ d.
            (r : ℕ) × (d ≡ record c { clock = r + 1 })
            × FirstDone (u64 (reset_offset + 0x8) / 4) c.clock r)
          (wait_reset_done bar fuel reset_offset c)
  unfolding wait_reset_done
  wait_reset_done-FirstDone zero reset_offset c h = absurd h
  wait_reset_done-FirstDone (suc n) reset_offset c (inl h) =
      rw (h, wait_reset_done) (returns (c.clock, refl, now c.clock h))
  wait_reset_done-FirstDone (suc n) reset_offset c (inr h) =
      elim (Bool-cases (u32 (bar c.clock (u64 (reset_offset + 0x8) / 4)) == 0xff)) [
        | inl done ↦ rw (done, wait_reset_done) (returns (c.clock, refl, now c.clock done))
        | inr more ↦
            rw (more, wait_reset_done)
              (Returns-map
                (wait_reset_done-FirstDone n reset_offset (record c { clock = c.clock + 1 }) h)
                λ u d w. (w.0, w.1, later c.clock w.0 more w.2))
      ]

  -- If the reset of the MRMAC ends within the wait, `do_configure_mrmac` returns whatever the status
  -- register says. Its first read of the status is the one behind the first read of the reset register,
  -- from the second access on, that is 0xff; it makes at most 21, and ends behind the first that is
  -- aligned or an error, or behind the 21st. It says aligned exactly if the last status read is.
  pub do_configure_mrmac-Verdict :
      (fuel offset reset_offset : ℕ) (c : Card)
      → ResetDone fuel (u64 (reset_offset + 0x8) / 4) (c.clock + 1)
      → Returns
          (λ b d.
            (r : ℕ) × FirstDone (u64 (reset_offset + 0x8) / 4) (c.clock + 1) r
            × Verdict 20 offset (r + 1) b d)
          (do_configure_mrmac bar fuel offset reset_offset c)
  unfolding do_configure_mrmac
  do_configure_mrmac-Verdict fuel offset reset_offset c h =
      rw (do_configure_mrmac, out_all-regs)
        (Returns-and_then
          (wait_reset_done-FirstDone fuel reset_offset (record c { clock = c.clock + 1; log = _ })
            h)
          λ u d w.
            rw (w.1)
              (Returns-map (mrmac_align-Verdict 20 offset (w.0 + 1) _ refl) λ b e v. (w.0, w.2, v)))
