-- ===== src/Ernic/Wqe/Posted.antt =====
-- What `pcie_ernic_post_wqe` does to the send queue.
use mathlib.Core.Path.{subst}
use mlir_air_mirror.Prelude.{
  ℕ, ◌+◌, ◌/◌, ◌%◌, ◌^◌, ◌≤◌, ◌<◌, ◌≡◌, refl, sym, ◌∙◌, arith, true, false, ◌==◌, u32, Option, some,
  List, [], ◌∷◌,
}
use mlir_air_mirror.Queue.Signal.{History}
use mlir_air_mirror.Ernic.State.{
  Buff, Qp, Card, ok, Write, reg, mem, Returns, returns, Returns-and_then,
}
use mlir_air_mirror.Ernic.Registers.{sqpii, cqheadi}
use mlir_air_mirror.Ernic.Log.{fetch, words_at, fetch-words_at}
use mlir_air_mirror.Ernic.Doorbell.{db_index}
use mlir_air_mirror.Ernic.Doorbell.Arrives.{Changes, Waited, read_sq_cidb_db-Waited}
use mlir_air_mirror.Ernic.Wqe.{
  Request, wqe_words, wqe_address, store_entry, write_wqe_to_sq, ring, pcie_ernic_post_wqe,
}

pub store_entry-words_at :
    (a : ℕ) (ws : List ℕ) (c : Card)
    → store_entry a ws c ≡ ok tt (record c { log = words_at a ws c.log })
unfolding store_entry
store_entry-words_at a [] c = refl
store_entry-words_at a (w ∷ ws) c =
    store_entry-words_at (a + 4) ws (record c { log = mem a w ∷ c.log })

write_wqe_to_sq-words_at :
    (o : Option Buff) (sq : Buff) (index : ℕ) (r : Request) (c : Card)
    → o ≡ some sq
    → (sq.buff == 0) ≡ false
    → write_wqe_to_sq o index r c
      ≡ ok 1 (record c { log = words_at (wqe_address sq.buff index) (wqe_words r) c.log })
unfolding write_wqe_to_sq
write_wqe_to_sq-words_at o sq index r c e n = rw (e, write_wqe_to_sq, n, store_entry-words_at) refl

-- What the card finds at the address of an entry: the fields, the 64-bit ones from their two words.
pub record IsEntry (log : List Write) (a : ℕ) (r : Request) : Type 0 where
  pub wrid : fetch log a ≡ some (r.wrid % 2 ^ 16)
  pub laddr_lo : fetch log (a + 4) ≡ some (u32 r.laddr)
  pub laddr_hi : fetch log (a + 8) ≡ some (r.laddr / 2 ^ 32)
  pub length : fetch log (a + 12) ≡ some r.length
  pub op : fetch log (a + 16) ≡ some (r.op % 2 ^ 8)
  pub offset_lo : fetch log (a + 20) ≡ some (u32 r.offset)
  pub offset_hi : fetch log (a + 24) ≡ some (r.offset / 2 ^ 32)
  pub rtag : fetch log (a + 28) ≡ some r.rtag

pub wqe_words-IsEntry :
    (a : ℕ) (r : Request) (l : List Write) → IsEntry (words_at a (wqe_words r) l) a r
wqe_words-IsEntry a r l = record {
  wrid = fetch-words_at a (wqe_words r) l 0 a _ refl (omega arith);
  laddr_lo = fetch-words_at a (wqe_words r) l 1 (a + 4) _ refl (omega arith);
  laddr_hi = fetch-words_at a (wqe_words r) l 2 (a + 8) _ refl (omega arith);
  length = fetch-words_at a (wqe_words r) l 3 (a + 12) _ refl (omega arith);
  op = fetch-words_at a (wqe_words r) l 4 (a + 16) _ refl (omega arith);
  offset_lo = fetch-words_at a (wqe_words r) l 5 (a + 20) _ refl (omega arith);
  offset_hi = fetch-words_at a (wqe_words r) l 6 (a + 24) _ refl (omega arith);
  rtag = fetch-words_at a (wqe_words r) l 7 (a + 28) _ refl (omega arith);
}

-- An entry is read from its own words.
pub IsEntry-same :
    (l m : List Write) (a : ℕ) (r : Request)
    → ((b : ℕ) → a ≤ b → b < a + 64 → fetch m b ≡ fetch l b)
    → IsEntry l a r
    → IsEntry m a r
IsEntry-same l m a r h e = record {
  wrid = h a (omega arith) (omega arith) ∙ e.wrid;
  laddr_lo = h (a + 4) (omega arith) (omega arith) ∙ e.laddr_lo;
  laddr_hi = h (a + 8) (omega arith) (omega arith) ∙ e.laddr_hi;
  length = h (a + 12) (omega arith) (omega arith) ∙ e.length;
  op = h (a + 16) (omega arith) (omega arith) ∙ e.op;
  offset_lo = h (a + 20) (omega arith) (omega arith) ∙ e.offset_lo;
  offset_hi = h (a + 24) (omega arith) (omega arith) ∙ e.offset_hi;
  rtag = h (a + 28) (omega arith) (omega arith) ∙ e.rtag;
}

-- The request was posted at the `sq_pidb`-th entry of `sq` and completed.
pub record Posted (sq : Buff) (r : Request) (qp : Qp) (c : Card) (res : ℕ × Qp) (d : Card)
    : Type 0 where
  pub answer : res.0 ≡ 1
  pub counts : res.1 ≡ record qp { sq_pidb = u32 (qp.sq_pidb + 1); sq_cidb = u32 (qp.sq_cidb + 1) }
  pub time : ℕ
  pub card : d ≡ record c {
    clock = time;
    log =
        reg (db_index qp sqpii c) (u32 (qp.sq_pidb + 1))
        ∷ words_at (wqe_address sq.buff qp.sq_pidb) (wqe_words r) c.log;
  }
  pub entry : IsEntry d.log (wqe_address sq.buff qp.sq_pidb) r

module _ (bar : History) where
  ring-Waited :
      (fuel : ℕ) (qp : Qp) (c : Card)
      → ((t : ℕ) → Changes bar fuel qp.sq_cidb (db_index qp cqheadi c) t)
      → Returns
          (λ qp' d.
            (qp' ≡ record qp { sq_pidb = u32 (qp.sq_pidb + 1); sq_cidb = u32 (qp.sq_cidb + 1) })
            × Waited
                (record c { log = reg (db_index qp sqpii c) (u32 (qp.sq_pidb + 1)) ∷ c.log })
                d)
          (ring bar fuel qp true c)
  unfolding ring
  ring-Waited fuel qp c w =
      read_sq_cidb_db-Waited bar fuel (record qp { sq_pidb = u32 (qp.sq_pidb + 1) })
        (record c { log = reg (db_index qp sqpii c) (u32 (qp.sq_pidb + 1)) ∷ c.log }) (w c.clock)

  -- If the queue is at an address and the card's count of completions becomes another than the last
  -- known within every wait, `pcie_ernic_post_wqe` with polling returns 1. The entry at the old count
  -- is written, then the doorbell with the next, and both counts are one further.
  pub pcie_ernic_post_wqe-Posted :
      (fuel : ℕ) (sq : Buff) (qp : Qp) (r : Request) (c : Card)
      → qp.sq ≡ some sq
      → (sq.buff == 0) ≡ false
      → ((t : ℕ) → Changes bar fuel qp.sq_cidb (db_index qp cqheadi c) t)
      → Returns (Posted sq r qp c) (pcie_ernic_post_wqe bar fuel qp r true c)
  unfolding pcie_ernic_post_wqe
  pcie_ernic_post_wqe-Posted fuel sq qp r c e n w =
      rw (pcie_ernic_post_wqe, write_wqe_to_sq-words_at qp.sq sq qp.sq_pidb r c e n)
        (Returns-and_then
          (ring-Waited fuel qp
            (record c { log = words_at (wqe_address sq.buff qp.sq_pidb) (wqe_words r) c.log }) w)
          λ qp' d p. returns (record {
            answer = refl;
            counts = p.0;
            time = p.1.0;
            card = p.1.1;
            entry =
                subst (λ e. IsEntry e.log (wqe_address sq.buff qp.sq_pidb) r) (sym (p.1.1))
                  (IsEntry-same (words_at (wqe_address sq.buff qp.sq_pidb) (wqe_words r) c.log) _
                    (wqe_address sq.buff qp.sq_pidb) r (λ b x y. refl)
                    (wqe_words-IsEntry (wqe_address sq.buff qp.sq_pidb) r c.log));
          }))
