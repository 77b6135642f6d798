-- ===== src/Ernic/Advertise/Carried.antt =====
-- A buffer that one host advertises reaches the other.
use mathlib.Core.Path.{subst}
use mlir_air_mirror.Prelude.{
  ℕ, ◌+◌, ◌*◌, ◌^◌, ◌≤◌, ◌<◌, ◌≡◌, refl, sym, arith, false, ◌==◌, u32, Option, some, none, List,
  ◌∷◌, Bool-cases, inl, inr,
}
use mlir_air_mirror.Queue.Signal.{History}
use mlir_air_mirror.Host.DevMem.{Allocator}
use mlir_air_mirror.Ernic.State.{
  Buff, Access, Pd, Qp, Card, Write, mem, Mr, Returns, returns, Returns-and_then,
}
use mlir_air_mirror.Ernic.Registers.{cqheadi}
use mlir_air_mirror.Ernic.Log.{out_all-regs}
use mlir_air_mirror.Ernic.Region.{
  pcie_ernic_reg_mr, flag_to_write, can_combine, register, reg_after,
}
use mlir_air_mirror.Ernic.Doorbell.{db_index}
use mlir_air_mirror.Ernic.Doorbell.Arrives.{Changes}
use mlir_air_mirror.Ernic.Wqe.Posted.{pcie_ernic_post_wqe-Posted}
use mlir_air_mirror.Ernic.Advertise.{send_request, advertise, adv_in, pcie_ernic_reg_adv}
use mlir_air_mirror.Ernic.Buffer.Page.{HasRoom, page_at, next_page, HasRoom-next_page}
use mlir_air_mirror.Ernic.Advertise.Sent.{
  new_message-page_at, messages, one_sent, Advertised, both_sent-Advertised,
}

-- Only the log has grown.
abbrev Logged : Card → Card → Type 0
Logged c d = (l : List Write) × (d ≡ record c { log = l })

register-Logged :
    (pd : Pd) (buff : Buff) (key length : ℕ) (flags : Access) (o : Option ℕ) (c : Card)
    → Returns (λ _ d. Logged c d) (register pd buff key length flags o c)
register-Logged pd buff key length flags none c = returns (c.log, refl)
register-Logged pd buff key length flags (some f) c = rw (out_all-regs) (returns (_, refl))

reg_after-Logged :
    (pd : Pd) (buff : Buff) (key length : ℕ) (flags : Access) (o : Option Mr) (c : Card)
    → Returns (λ _ d. Logged c d) (reg_after pd buff key length flags o c)
reg_after-Logged pd buff key length flags none c =
    register-Logged pd buff key length flags (flag_to_write flags) c
reg_after-Logged pd buff key length flags (some mr) c =
    elim (Bool-cases (can_combine mr buff key flags)) [
      | inl e ↦ rw (e, out_all-regs) (returns (_, refl))
      | inr e ↦ rw (e) (register-Logged pd buff key length flags (flag_to_write flags) c)
    ]

reg_mr-Logged :
    (pd : Pd) (buff : Buff) (key length : ℕ) (flags : Access) (c : Card)
    → Returns (λ _ d. Logged c d) (pcie_ernic_reg_mr (some pd) (some buff) key length flags c)
unfolding pcie_ernic_reg_mr
reg_mr-Logged pd buff key length flags c =
    Returns-and_then (reg_after-Logged pd buff key length flags pd.mr c) λ r d l. returns l

module _ (bar : History) where
  advertise-Advertised :
      (fuel junk : ℕ) (sq : Buff) (qp : Qp) (key vaddr : ℕ) (c : Card)
      → HasRoom 2 c.allocator
      → qp.sq ≡ some sq
      → (sq.buff == 0) ≡ false
      → sq.buff + 64 * (qp.sq_pidb + 2) ≤ (page_at c.allocator).buff
      → qp.sq_pidb + 2 < 2 ^ 32
      → ((t : ℕ) → Changes bar fuel qp.sq_cidb (db_index qp cqheadi c) t)
      → ((t : ℕ) → Changes bar fuel (u32 (qp.sq_cidb + 1)) (db_index qp cqheadi c) t)
      → Returns
          (λ q d.
            Advertised sq.buff qp.sq_pidb c.allocator key vaddr d.log
            × (q.sq_pidb ≡ qp.sq_pidb + 2))
          (advertise bar fuel junk qp key vaddr c)
  unfolding advertise
  advertise-Advertised fuel junk sq qp key vaddr c room e n below small w1 w2 =
      let a : Allocator = c.allocator in
      let p : ℕ = qp.sq_pidb in
      let next : u32 (p + 1) ≡ p + 1 = omega arith in
      let after : u32 (p + 1 + 1) ≡ p + 2 = omega arith in
      let c1 : Card = record c {
        allocator = next_page a;
        log = mem ((page_at a).buff) key ∷ c.log;
      } in
      let c2 : Card = record c {
        allocator = next_page (next_page a);
        log = messages a key vaddr c.log;
      } in
      rw
        (
          advertise,
          new_message-page_at 1 junk c room,
          new_message-page_at 0 junk c1 (HasRoom-next_page 1 a room),
        )
        (Returns-and_then
          (pcie_ernic_post_wqe-Posted bar fuel sq qp (send_request (page_at a)) c2 e n w1)
          λ r d s.
            rw (s.answer, s.counts, s.card, next)
              (Returns-and_then
                (pcie_ernic_post_wqe-Posted bar fuel sq
                  (record qp { sq_pidb = p + 1; sq_cidb = u32 (qp.sq_cidb + 1) })
                  (send_request (page_at (next_page a)))
                  (record c2 { clock = s.time; log = one_sent sq.buff p a key vaddr _ c.log }) e n
                  w2)
                λ q f s'.
                  rw (s'.counts, s'.card)
                    (returns (both_sent-Advertised sq.buff p a key vaddr _ _ c.log below, after))))

  -- What a host needs to advertise: room for two pages of device memory behind the send queue, which
  -- is at an address, and a card that completes the two requests within every wait.
  pub record CanSend (fuel : ℕ) (sq : Buff) (qp : Qp) (c : Card) : Type 0 where
    pub room : HasRoom 2 c.allocator
    pub queue : qp.sq ≡ some sq
    pub mapped : (sq.buff == 0) ≡ false
    pub below : sq.buff + 64 * (qp.sq_pidb + 2) ≤ (page_at c.allocator).buff
    pub small : qp.sq_pidb + 2 < 2 ^ 32
    pub first : (t : ℕ) → Changes bar fuel qp.sq_cidb (db_index qp cqheadi c) t
    pub second : (t : ℕ) → Changes bar fuel (u32 (qp.sq_cidb + 1)) (db_index qp cqheadi c) t

  -- A host that can send two messages returns from `pcie_ernic_reg_adv`, whatever region its domain
  -- has. It has posted two entries, each a SEND of a new page: the first page begins with the key, the
  -- second with the address of the buffer.
  pub pcie_ernic_reg_adv-Advertised :
      (fuel junk : ℕ) (sq buff : Buff) (pd : Pd) (qp : Qp) (key length : ℕ) (flags : Access)
      (c : Card)
      → qp.pd ≡ some pd
      → CanSend fuel sq qp c
      → Returns
          (λ q d.
            Advertised sq.buff qp.sq_pidb c.allocator key buff.buff d.log
            × (q.sq_pidb ≡ qp.sq_pidb + 2))
          (pcie_ernic_reg_adv bar fuel junk (some buff) qp key length flags c)
  unfolding pcie_ernic_reg_adv
  pcie_ernic_reg_adv-Advertised fuel junk sq buff pd qp key length flags c e s =
      subst
        (λ o.
          Returns
            (λ q d.
              Advertised sq.buff qp.sq_pidb c.allocator key buff.buff d.log
              × (q.sq_pidb ≡ qp.sq_pidb + 2))
            (adv_in bar fuel junk buff qp key length flags o c))
        (sym e)
        (Returns-and_then (reg_mr-Logged pd buff key length flags c) λ r d l. rw (l.1) (
          advertise-Advertised fuel junk sq (record qp { pd = r.1 }) key buff.buff
            (record c { log = l.0 }) s.room s.queue s.mapped s.below s.small s.first s.second))
