-- ===== src/AirToAie/BdProgram/Ring.antt =====
-- The descriptors of a channel form a ring through its copies.
use native.Mathlib.Nat.{mul_assoc}
use mlir_air_mirror.Prelude.{
  ℕ, zero, suc, ◌+◌, ◌*◌, ◌<◌, ◌≤◌, Bool, true, false, ltb, if◌then◌else◌, map, product, ◌≡◌, ◌⊎◌,
  inl, inr, refl, ap, ◌∙◌, arith, Option, none, some, List, [], ◌∷◌, ◌++◌, length, get_elem?,
}
use mlir_air_mirror.AirToAie.BdProgram.{
  Direction, s2mm, mm2s, DmaCopy, size_product, copy_length, bd_lock_values, core_lock_values, Bd,
  MemBlock, start_bb, bd, end_bb, bd_block, bd_blocks,
}

-- The index after `k` descriptors from the block i on.
abbrev pub after_bd : Option MemBlock → Option ℕ
after_bd (some (bd b)) = some b.next_bd
after_bd (some (start_bb _ _ _)) = none
after_bd (some end_bb) = none
after_bd none = none

abbrev pub walk_from : (ℕ → Option ℕ) → Option ℕ → Option ℕ
walk_from f none = none
walk_from f (some i) = f i

unfoldable pub walk : List MemBlock → ℕ → ℕ → Option ℕ
walk body zero i = some i
walk body (suc k) i = walk_from (walk body k) (after_bd (get_elem? body i))

-- The length of a copy is the one that it is given, or else the product of its sizes, if they are
-- constant: those of the destination where its memory space is the lower one, else of the source.
pub record IsLength (c : DmaCopy) (o : Option ℕ) : Type 0 where
  pub given : (n : ℕ) → c.length_operand ≡ some n → o ≡ some n
  pub to_lower :
      (ds : List ℕ)
      → c.length_operand ≡ none
      → c.dst_memory_space < c.src_memory_space
      → c.dst_sizes ≡ map some ds
      → o ≡ some (product ds)
  pub to_higher :
      (ds : List ℕ)
      → c.length_operand ≡ none
      → c.src_memory_space ≤ c.dst_memory_space
      → c.src_sizes ≡ map some ds
      → o ≡ some (product ds)

size_product-product : (ds : List ℕ) (n : ℕ) → size_product (map some ds) n ≡ some (n * product ds)
size_product-product [] n = ap some (omega arith)
size_product-product (d ∷ ds) n =
    size_product-product ds (n * d) ∙ ap some (mul_assoc n d (product ds))

copy_length-IsLength : (c : DmaCopy) → IsLength c (copy_length c c.length_operand)
copy_length-IsLength c = record {
  given = λ n e. ap (copy_length c) e;
  to_lower = λ ds e l s.
      let lower : ltb c.dst_memory_space c.src_memory_space ≡ true = ground arith in
      ap (copy_length c) e
      ∙ ap (λ (b : Bool). size_product (if b then c.dst_sizes else c.src_sizes) 1) lower
      ∙ ap (λ sizes. size_product sizes 1) s
      ∙ size_product-product ds 1
      ∙ ap some (omega arith);
  to_higher = λ ds e l s.
      let higher : ltb c.dst_memory_space c.src_memory_space ≡ false = ground arith in
      ap (copy_length c) e
      ∙ ap (λ (b : Bool). size_product (if b then c.dst_sizes else c.src_sizes) 1) higher
      ∙ ap (λ sizes. size_product sizes 1) s
      ∙ size_product-product ds 1
      ∙ ap some (omega arith);
}

-- The descriptor at the index i is for the copy c: between the two values of the lock it moves as much
-- of the copy's buffer as its length says, and the core's values are the same two the other way around.
abbrev pub IsBd : Direction → DmaCopy → Option MemBlock → Type 0
IsBd d c o =
    (b : Bd) × (o ≡ some (bd b))
    × (b.copy ≡ c)
    × (b.acquire ≡ (core_lock_values d).1)
    × (b.release ≡ (core_lock_values d).0)
    × IsLength c b.length

abbrev some_block : Direction → ℕ → Option DmaCopy → Option MemBlock
some_block d n none = none
some_block d n (some c) = some (bd_block d n c)

pub append_right :
    (xs ys : List MemBlock) (i j : ℕ) → j ≡ length xs + i → get_elem? (xs ++ ys) j ≡ get_elem? ys i
append_right [] ys i j e = ap (get_elem? ys) (e ∙ omega arith)
append_right (x ∷ xs) ys i zero e = absurd (omega (arith, e))
append_right (x ∷ xs) ys i (suc j) e = append_right xs ys i j (omega (arith, e))

pub append_left :
    (xs ys : List MemBlock) (i : ℕ) → i < length xs → get_elem? (xs ++ ys) i ≡ get_elem? xs i
append_left [] ys i h = absurd (omega (arith, h))
append_left (x ∷ xs) ys zero h = refl
append_left (x ∷ xs) ys (suc i) h = append_left xs ys i (omega (arith, h))

pub length-bd_blocks :
    (d : Direction) (first here : ℕ) (cs : List DmaCopy)
    → length (bd_blocks d first here cs) ≡ length cs
unfolding bd_blocks
length-bd_blocks d first here [] = refl
length-bd_blocks d first here (c ∷ []) = refl
length-bd_blocks d first here (c ∷ c' ∷ cs) = ap suc (length-bd_blocks d first (here + 1) (c' ∷ cs))

-- Each block but the last goes on to the next, and the last to the first.
bd_blocks-inner :
    (d : Direction) (first here : ℕ) (cs : List DmaCopy) (j : ℕ) (c : DmaCopy)
    → get_elem? cs j ≡ some c
    → j + 1 < length cs
    → get_elem? (bd_blocks d first here cs) j ≡ some (bd_block d (here + j + 1) c)
unfolding bd_blocks
bd_blocks-inner d first here [] j c e h = absurd (omega (arith, h))
bd_blocks-inner d first here (x ∷ []) j c e h = absurd (omega (arith, h))
bd_blocks-inner d first here (x ∷ y ∷ cs) zero c e h =
    ap (λ n. some (bd_block d n x)) (omega arith) ∙ ap (λ o. some_block d (here + 0 + 1) o) e
bd_blocks-inner d first here (x ∷ y ∷ cs) (suc j) c e h =
    bd_blocks-inner d first (here + 1) (y ∷ cs) j c e (omega (arith, h))
    ∙ ap (λ n. some (bd_block d n c)) (omega arith)

bd_blocks-last :
    (d : Direction) (first here : ℕ) (cs : List DmaCopy) (j : ℕ) (c : DmaCopy)
    → get_elem? cs j ≡ some c
    → j + 1 ≡ length cs
    → get_elem? (bd_blocks d first here cs) j ≡ some (bd_block d first c)
unfolding bd_blocks
bd_blocks-last d first here [] j c e h = absurd (omega (arith, h))
bd_blocks-last d first here (x ∷ []) zero c e h = ap (λ o. some_block d first o) e
bd_blocks-last d first here (x ∷ []) (suc j) c e h = absurd (omega (arith, h))
bd_blocks-last d first here (x ∷ y ∷ cs) zero c e h = absurd (omega (arith, h))
bd_blocks-last d first here (x ∷ y ∷ cs) (suc j) c e h =
    bd_blocks-last d first (here + 1) (y ∷ cs) j c e (omega (arith, h))

get_elem?-below :
    (cs : List DmaCopy) (j : ℕ) → j < length cs → (c : DmaCopy) × (get_elem? cs j ≡ some c)
get_elem?-below [] j h = absurd (omega (arith, h))
get_elem?-below (c ∷ cs) zero h = (c, refl)
get_elem?-below (c ∷ cs) (suc j) h = get_elem?-below cs j (omega (arith, h))

-- The blocks of the copies stand in the body from the index `first` on.
abbrev pub Stands : List MemBlock → Direction → ℕ → List DmaCopy → Type 0
Stands body d first cs =
    (j : ℕ) → j < length cs → get_elem? body (first + j) ≡ get_elem? (bd_blocks d first first cs) j

-- The descriptors from `first` on are those of the copies in their order, each after the one before,
-- and after the last comes the first again.
pub record IsRing (body : List MemBlock) (d : Direction) (first : ℕ) (cs : List DmaCopy)
    : Type 0 where
  pub copies :
      (j : ℕ) (c : DmaCopy)
      → j < length cs
      → get_elem? cs j ≡ some c
      → IsBd d c (get_elem? body (first + j))
  pub walks : (k : ℕ) → k < length cs → walk body k first ≡ some (first + k)
  pub returns : walk body (length cs) first ≡ some first

lock_values_lem :
    (d : Direction)
    → ((bd_lock_values d).0 ≡ (core_lock_values d).1)
      × ((bd_lock_values d).1 ≡ (core_lock_values d).0)
lock_values_lem s2mm = (refl, refl)
lock_values_lem mm2s = (refl, refl)

module _ (body : List MemBlock) (d : Direction) (first : ℕ) (cs : List DmaCopy)
    (at : Stands body d first cs) where
  inner_next :
      (j : ℕ) → j + 1 < length cs → after_bd (get_elem? body (first + j)) ≡ some (first + j + 1)
  inner_next j h =
      let c = get_elem?-below cs j (omega (arith, h)) in
      ap after_bd (at j (omega (arith, h)) ∙ bd_blocks-inner d first first cs j c.0 c.1 h)

  last_next : (j : ℕ) → j + 1 ≡ length cs → after_bd (get_elem? body (first + j)) ≡ some first
  last_next j h =
      let c = get_elem?-below cs j (omega (arith, h)) in
      ap after_bd (at j (omega (arith, h)) ∙ bd_blocks-last d first first cs j c.0 c.1 h)

  walk_inner : (k a : ℕ) → a + k < length cs → walk body k (first + a) ≡ some (first + a + k)
  unfolding walk
  walk_inner zero a h = ap some (omega arith)
  walk_inner (suc k) a h = rw (inner_next a (omega (arith, h))) (
      ap (walk body k) (omega arith)
      ∙ walk_inner k (a + 1) (omega (arith, h))
      ∙ ap some (omega arith))

  walk_last : (k a : ℕ) → a + k + 1 ≡ length cs → walk body (suc k) (first + a) ≡ some first
  unfolding walk
  walk_last zero a h = rw (last_next a (omega (arith, h))) refl
  walk_last (suc k) a h =
      rw (inner_next a (omega (arith, h)))
        (ap (walk body (suc k)) (omega arith) ∙ walk_last k (a + 1) (omega (arith, h)))

pub Stands-IsRing :
    (body : List MemBlock) (d : Direction) (first : ℕ) (cs : List DmaCopy)
    → 0 < length cs
    → Stands body d first cs
    → IsRing body d first cs
Stands-IsRing body d first [] h at = absurd (omega (arith, h))
Stands-IsRing body d first (x ∷ cs) h at = record {
  copies = λ j c l e. is_bd j c l e (ground arith);
  walks = λ k l.
      ap (walk body k) (omega arith)
      ∙ walk_inner body d first (x ∷ cs) at k 0 (omega (arith, l))
      ∙ ap some (omega arith);
  returns =
      ap (walk body (suc (length cs))) (omega arith)
      ∙ walk_last body d first (x ∷ cs) at (length cs) 0 (omega arith);
}
  where
    is_bd :
        (j : ℕ) (c : DmaCopy)
        → j < length (x ∷ cs)
        → get_elem? (x ∷ cs) j ≡ some c
        → (j + 1 < length (x ∷ cs)) ⊎ (j + 1 ≡ length (x ∷ cs))
        → IsBd d c (get_elem? body (first + j))
    is_bd j c l e (inl m) = (
      _,
      at j l ∙ bd_blocks-inner d first first (x ∷ cs) j c e m,
      refl,
      (lock_values_lem d).0,
      (lock_values_lem d).1,
      copy_length-IsLength c,
    )
    is_bd j c l e (inr m) = (
      _,
      at j l ∙ bd_blocks-last d first first (x ∷ cs) j c e m,
      refl,
      (lock_values_lem d).0,
      (lock_values_lem d).1,
      copy_length-IsLength c,
    )
