-- ===== src/Ernic/Advertise/Sent.antt =====
-- The two messages and the two entries that an advertisement leaves in the memory of the card.
use mlir_air_mirror.Prelude.{ℕ, ◌+◌, ◌*◌, ◌≤◌, ◌≡◌, refl, ◌∙◌, arith, u32, some, List, ◌∷◌, inl}
use mlir_air_mirror.Host.DevMem.{Allocator}
use mlir_air_mirror.Ernic.State.{Card, ok, Write, reg, mem}
use mlir_air_mirror.Ernic.Log.{
  fetch, words_at, fetch_self, fetch_ne, lt_ne, fetch-words_before, fetch-words_after,
}
use mlir_air_mirror.Ernic.Buffer.Page.{
  HasRoom, page_at, next_page, page_at-mapped, pcie_ernic_malloc-page_at,
}
use mlir_air_mirror.Ernic.Qp.{high_word}
use mlir_air_mirror.Ernic.Wqe.{wqe_words, wqe_address}
use mlir_air_mirror.Ernic.Wqe.Posted.{IsEntry, IsEntry-same, wqe_words-IsEntry}
use mlir_air_mirror.Ernic.Advertise.{new_message, send_request}

pub new_message-page_at :
    (n junk : ℕ) (c : Card)
    → HasRoom (n + 1) c.allocator
    → new_message junk c ≡ ok (page_at c.allocator) (record c { allocator = next_page c.allocator })
new_message-page_at n junk c h =
    rw (pcie_ernic_malloc-page_at n junk c h, page_at-mapped n c.allocator h) refl

-- The log after both messages, after the first entry with its doorbell `j`, and after the second.
abbrev pub messages : Allocator → ℕ → ℕ → List Write → List Write
messages a key vaddr l =
    mem ((page_at (next_page a)).buff + 4) (high_word vaddr)
    ∷ mem ((page_at (next_page a)).buff) (u32 vaddr)
    ∷ mem ((page_at a).buff) key
    ∷ l

abbrev pub one_sent : ℕ → ℕ → Allocator → ℕ → ℕ → ℕ × ℕ → List Write → List Write
one_sent sq p a key vaddr j l =
    reg j.0 j.1
    ∷ words_at (wqe_address sq p) (wqe_words (send_request (page_at a))) (messages a key vaddr l)

abbrev pub both_sent : ℕ → ℕ → Allocator → ℕ → ℕ → ℕ × ℕ → ℕ × ℕ → List Write → List Write
both_sent sq p a key vaddr i j l =
    reg i.0 i.1
    ∷ words_at (wqe_address sq (p + 1)) (wqe_words (send_request (page_at (next_page a))))
        (one_sent sq p a key vaddr j l)

-- What the card finds in its memory after an advertisement of `vaddr` under `key`: two entries that
-- send a page each, the key in the one and the address, low word first, in the other.
pub record Advertised (sq p : ℕ) (a : Allocator) (key vaddr : ℕ) (log : List Write) : Type 0 where
  pub first : IsEntry log (wqe_address sq p) (send_request (page_at a))
  pub second : IsEntry log (wqe_address sq (p + 1)) (send_request (page_at (next_page a)))
  pub key_word : fetch log ((page_at a).buff) ≡ some key
  pub low : fetch log ((page_at (next_page a)).buff) ≡ some (u32 vaddr)
  pub high : fetch log ((page_at (next_page a)).buff + 4) ≡ some (high_word vaddr)

module _ (sq p : ℕ) (a : Allocator) (key vaddr : ℕ) (i j : ℕ × ℕ) (l : List Write) where
  -- A word fetch-both_sent both entries.
  fetch-both_sent :
      (b : ℕ)
      → sq + 64 * (p + 2) ≤ b
      → fetch (both_sent sq p a key vaddr i j l) b ≡ fetch (messages a key vaddr l) b
  fetch-both_sent b h =
      fetch-words_after (wqe_address sq (p + 1)) (wqe_words (send_request (page_at (next_page a))))
        (one_sent sq p a key vaddr j l) b (omega (arith, h))
      ∙ fetch-words_after (wqe_address sq p) (wqe_words (send_request (page_at a)))
          (messages a key vaddr l) b (omega (arith, h))

  pub both_sent-Advertised :
      sq + 64 * (p + 2) ≤ (page_at a).buff
      → Advertised sq p a key vaddr (both_sent sq p a key vaddr i j l)
  both_sent-Advertised h =
      let k : ℕ = (page_at a).buff in
      let v : ℕ = (page_at (next_page a)).buff in
      record {
        first =
            IsEntry-same
              (words_at (wqe_address sq p) (wqe_words (send_request (page_at a)))
                (messages a key vaddr l))
              (both_sent sq p a key vaddr i j l) (wqe_address sq p) (send_request (page_at a))
              (λ b x y.
                fetch-words_before (wqe_address sq (p + 1))
                  (wqe_words (send_request (page_at (next_page a)))) (one_sent sq p a key vaddr j l)
                  b (omega (arith, x, y)))
              (wqe_words-IsEntry (wqe_address sq p) (send_request (page_at a))
                (messages a key vaddr l));
        second =
            IsEntry-same
              (words_at (wqe_address sq (p + 1)) (wqe_words (send_request (page_at (next_page a))))
                (one_sent sq p a key vaddr j l))
              (both_sent sq p a key vaddr i j l) (wqe_address sq (p + 1))
              (send_request (page_at (next_page a))) (λ b x y. refl)
              (wqe_words-IsEntry (wqe_address sq (p + 1)) (send_request (page_at (next_page a)))
                (one_sent sq p a key vaddr j l));
        key_word =
            fetch-both_sent k h
            ∙ fetch_ne (mem v (u32 vaddr) ∷ mem k key ∷ l) (v + 4) k (high_word vaddr)
                (lt_ne k (v + 4) (inl (omega arith)))
            ∙ fetch_ne (mem k key ∷ l) v k (u32 vaddr) (lt_ne k v (inl (omega arith)))
            ∙ fetch_self l k k key refl;
        low =
            fetch-both_sent v (omega (arith, h))
            ∙ fetch_ne (mem v (u32 vaddr) ∷ mem k key ∷ l) (v + 4) v (high_word vaddr)
                (lt_ne v (v + 4) (inl (omega arith)))
            ∙ fetch_self (mem k key ∷ l) v v (u32 vaddr) refl;
        high =
            fetch-both_sent (v + 4) (omega (arith, h))
            ∙ fetch_self (mem v (u32 vaddr) ∷ mem k key ∷ l) (v + 4) (v + 4) (high_word vaddr) refl;
      }
