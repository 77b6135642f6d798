-- ===== src/Ernic/Log.antt =====
-- What the log of a run says of the card: the value that a register or a memory word was given last.
use mlir_air_mirror.Prelude.{
  ℕ, zero, suc, ◌+◌, ◌*◌, ◌≤◌, ◌<◌, ◌≡◌, ◌⊎◌, refl, ◌∙◌, arith, true, false, if◌then◌else◌, ◌==◌,
  elem, distinct, Option, none, some, List, [], ◌∷◌, map, Bool-cases, inl, inr, length, get_elem?,
}
use mlir_air_mirror.Ernic.State.{Write, reg, mem, Card, ok, out_all}

abbrev pub last_reg : List Write → ℕ → Option ℕ
last_reg [] a = none
last_reg (mem _ _ ∷ l) a = last_reg l a
last_reg (reg b v ∷ l) a = let rest = last_reg l a in if a == b then some v else rest

abbrev pub fetch : List Write → ℕ → Option ℕ
fetch [] a = none
fetch (reg _ _ ∷ l) a = fetch l a
fetch (mem b v ∷ l) a = let rest = fetch l a in if a == b then some v else rest

pub last_reg_self : (l : List Write) (a v : ℕ) → last_reg (reg a v ∷ l) a ≡ some v
last_reg_self l a v = ground arith

pub fetch_self : (l : List Write) (a b v : ℕ) → b ≡ a → fetch (mem a v ∷ l) b ≡ some v
fetch_self l a b v e = ground arith

pub fetch_ne : (l : List Write) (a b v : ℕ) → (b == a) ≡ false → fetch (mem a v ∷ l) b ≡ fetch l b
fetch_ne l a b v e = ground arith

pub lt_ne : (a b : ℕ) → (a < b) ⊎ (b < a) → (a == b) ≡ false
lt_ne a b (inl h) = ground arith
lt_ne a b (inr h) = ground arith

pub last_reg_ne :
    (l : List Write) (a b v : ℕ) → (b == a) ≡ false → last_reg (reg a v ∷ l) b ≡ last_reg l b
last_reg_ne l a b v e = ground arith

-- The log after `out_all f ws`.
abbrev pub regs : (ℕ → ℕ) → List (ℕ × ℕ) → List Write → List Write
regs f [] l = l
regs f ((a, v) ∷ ws) l = regs f ws (reg (f a) v ∷ l)

pub out_all-regs :
    (f : ℕ → ℕ) (ws : List (ℕ × ℕ)) (c : Card)
    → out_all f ws c ≡ ok tt (record c { log = regs f ws c.log })
unfolding out_all
out_all-regs f [] c = refl
out_all-regs f ((a, v) ∷ ws) c = out_all-regs f ws (record c { log = reg (f a) v ∷ c.log })

abbrev pub keys : (ℕ → ℕ) → List (ℕ × ℕ) → List ℕ
keys f ws = map (λ w. f w.0) ws

pub last_reg-regs_other :
    (f : ℕ → ℕ) (ws : List (ℕ × ℕ)) (l : List Write) (a : ℕ)
    → elem a (keys f ws) ≡ false
    → last_reg (regs f ws l) a ≡ last_reg l a
last_reg-regs_other f [] l a h = refl
last_reg-regs_other f ((b, v) ∷ ws) l a h = elim (Bool-cases (a == f b)) [
  | inl e ↦ absurd (ground (arith, h, e))
  | inr e ↦ last_reg-regs_other f ws (reg (f b) v ∷ l) a (ground (arith, h, e)) ∙ rw (e) refl
]

-- Each pair's register has the pair's value.
abbrev pub Holds : (ℕ → ℕ) → List (ℕ × ℕ) → List Write → Type 0
Holds f [] l = Unit
Holds f ((a, v) ∷ ws) l = (last_reg l (f a) ≡ some v) × Holds f ws l

pub regs-Holds :
    (f : ℕ → ℕ) (ws : List (ℕ × ℕ)) (l : List Write)
    → distinct (keys f ws) ≡ true
    → Holds f ws (regs f ws l)
regs-Holds f [] l h = tt
regs-Holds f ((a, v) ∷ ws) l h = (
  last_reg-regs_other f ws (reg (f a) v ∷ l) (f a) (ground (arith, h)) ∙ last_reg_self l (f a) v,
  regs-Holds f ws (reg (f a) v ∷ l) (ground (arith, h)),
)

pub fetch-regs :
    (f : ℕ → ℕ) (ws : List (ℕ × ℕ)) (l : List Write) (a : ℕ) → fetch (regs f ws l) a ≡ fetch l a
fetch-regs f [] l a = refl
fetch-regs f ((b, v) ∷ ws) l a = fetch-regs f ws (reg (f b) v ∷ l) a

-- The log after stores to consecutive words.
abbrev pub words_at : ℕ → List ℕ → List Write → List Write
words_at a [] l = l
words_at a (w ∷ ws) l = words_at (a + 4) ws (mem a w ∷ l)

pub fetch-words_before :
    (a : ℕ) (ws : List ℕ) (l : List Write) (b : ℕ) → b < a → fetch (words_at a ws l) b ≡ fetch l b
fetch-words_before a [] l b h = refl
fetch-words_before a (w ∷ ws) l b h =
    fetch-words_before (a + 4) ws (mem a w ∷ l) b (omega arith)
    ∙ fetch_ne l a b w (lt_ne b a (inl (omega arith)))

pub fetch-words_after :
    (a : ℕ) (ws : List ℕ) (l : List Write) (b : ℕ)
    → a + 4 * length ws ≤ b
    → fetch (words_at a ws l) b ≡ fetch l b
fetch-words_after a [] l b h = refl
fetch-words_after a (w ∷ ws) l b h =
    fetch-words_after (a + 4) ws (mem a w ∷ l) b (omega arith)
    ∙ fetch_ne l a b w (lt_ne b a (inr (omega arith)))

-- The k-th word is read back.
pub fetch-words_at :
    (a : ℕ) (ws : List ℕ) (l : List Write) (k b w : ℕ)
    → get_elem? ws k ≡ some w
    → b ≡ a + 4 * k
    → fetch (words_at a ws l) b ≡ some w
fetch-words_at a [] l k b w h e = absurd (ground (arith, h))
fetch-words_at a (x ∷ ws) l zero b w h e =
    fetch-words_before (a + 4) ws (mem a x ∷ l) b (omega (arith, e))
    ∙ fetch_self l a b x (omega (arith, e))
    ∙ h
fetch-words_at a (x ∷ ws) l (suc k) b w h e =
    fetch-words_at (a + 4) ws (mem a x ∷ l) k b w h (omega (arith, e))

pub last_reg-words_at :
    (a : ℕ) (ws : List ℕ) (l : List Write) (b : ℕ) → last_reg (words_at a ws l) b ≡ last_reg l b
last_reg-words_at a [] l b = refl
last_reg-words_at a (w ∷ ws) l b = last_reg-words_at (a + 4) ws (mem a w ∷ l) b
