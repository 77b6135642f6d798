-- ===== src/AirToAie/Locks/Shared.antt =====
-- Which copies share a lock in mlir/lib/Conversion/AIRToAIEPass.cpp.
use mathlib.Core.Path.{subst}
use mathlib.Core.Option.{some-injective}
use mlir_air_mirror.Prelude.{
  ℕ, ◌≡◌, ◌∙◌, ◌⊎◌, refl, sym, ap, arith, Bool, true, false, ◌&&◌, Bool-cases, Option-cases, inl,
  inr, ◌==◌, ==_iff, Option, none, some, List, [], ◌∷◌, ◌++◌, elem,
}
use mlir_air_mirror.AirToAie.Locks.{
  ids_of, allocate_lock_op, LockAllocation, same_direction, find_lock, LockState, or_allocate,
  get_lock_for_tile_dma,
}
use mlir_air_mirror.AirToAie.Locks.Fresh.{allocate_lock_op-Allocated}

-- What a lock is looked up by: a buffer and a channel with its direction.
abbrev pub Key : Type 0
Key = ℕ × Bool × ℕ

abbrev pub matches : Key → Key → Bool
matches k k' = k.0 == k'.0 && (same_direction k.1 k'.1 && k.2 == k'.2)

abbrev pub lookup : Key → LockState → Option ℕ
lookup k s = find_lock k.0 k.1 k.2 s.info

-- Each lock in the list is a lock of its buffer's tile, and keys on one tile with the same lock are
-- equal.
pub record Separate (tile_of : ℕ → ℕ) (s : LockState) : Type 0 where
  pub exists_lock :
      (k : Key) (l : ℕ) → lookup k s ≡ some l → elem l (ids_of (tile_of k.0) s.locks) ≡ true
  pub apart :
      (k k' : Key) (l : ℕ)
      → tile_of k.0 ≡ tile_of k'.0
      → lookup k s ≡ some l
      → lookup k' s ≡ some l
      → matches k k' ≡ true

abbrev entry : Key → ℕ → LockAllocation
entry k lock = record { buffer = k.0; lock = lock; is_mm2s = k.1; channel = k.2 }

abbrev last : Bool → ℕ → Option ℕ
last true lock = some lock
last false lock = none

abbrev or_last : Option ℕ → Option ℕ → Option ℕ
or_last (some l) o = some l
or_last none o = o

find_lock-append :
    (k k' : Key) (lock : ℕ) (info : List LockAllocation)
    → find_lock k.0 k.1 k.2 (info ++ (entry k' lock ∷ []))
      ≡ or_last (find_lock k.0 k.1 k.2 info) (last (matches k k') lock)
unfolding find_lock
find_lock-append k k' lock [] = elim (Bool-cases (matches k k')) [
  | inl e ↦ rw (e) refl
  | inr e ↦ rw (e) refl
]
find_lock-append k k' lock (a ∷ info) =
    elim (Bool-cases (k.0 == a.buffer && (same_direction k.1 a.is_mm2s && k.2 == a.channel))) [
      | inl e ↦ rw (e) refl
      | inr e ↦ rw (e) (find_lock-append k k' lock info)
    ]

matches_self : (k : Key) → matches k k ≡ true
matches_self (b, true, c) = ground arith
matches_self (b, false, c) = ground arith

matches_trans : (k k' m : Key) → matches k m ≡ true → matches k' m ≡ true → matches k k' ≡ true
matches_trans (b, true, c) (b', true, c') (b'', true, c'') h i = ground arith
matches_trans (b, true, c) (b', true, c') (b'', false, c'') h i = absurd (ground arith)
matches_trans (b, true, c) (b', false, c') (b'', true, c'') h i = absurd (ground arith)
matches_trans (b, true, c) (b', false, c') (b'', false, c'') h i = absurd (ground arith)
matches_trans (b, false, c) (b', true, c') (b'', true, c'') h i = absurd (ground arith)
matches_trans (b, false, c) (b', true, c') (b'', false, c'') h i = absurd (ground arith)
matches_trans (b, false, c) (b', false, c') (b'', true, c'') h i = absurd (ground arith)
matches_trans (b, false, c) (b', false, c') (b'', false, c'') h i = ground arith

-- What a call does: the key has the lock it answers, and keys that had a lock keep it.
pub record Locked (k : Key) (s : LockState) (r : LockState × ℕ) : Type 0 where
  pub found : lookup k r.0 ≡ some r.1
  pub kept : (k' : Key) (l : ℕ) → lookup k' s ≡ some l → lookup k' r.0 ≡ some l

abbrev Outcome : (ℕ → ℕ) → Key → LockState → LockState × ℕ → Type 0
Outcome tile_of k s r = Separate tile_of r.0 × Locked k s r

last_cases :
    (o : Option ℕ) (b : Bool) (n l : ℕ)
    → or_last o (last b n) ≡ some l
    → (o ≡ some l) ⊎ ((b ≡ true) × (l ≡ n))
last_cases (some x) b n l h = inl h
last_cases none true n l h = inr (refl, sym (some-injective n l h))
last_cases none false n l h = absurd (ground arith)

module _ (tile_of : ℕ → ℕ) (k : Key) (s : LockState) (separate : Separate tile_of s) where
  after_new : LockState
  after_new =
      let r = allocate_lock_op (tile_of k.0) none s.locks in
      record { locks = r.0; info = s.info ++ (entry k r.1 ∷ []) }

  new_id : ℕ
  new_id = (allocate_lock_op (tile_of k.0) none s.locks).1

  fresh : elem new_id (ids_of (tile_of k.0) s.locks) ≡ false
  unfolding new_id
  fresh = (allocate_lock_op-Allocated (tile_of k.0) none s.locks).1.0

  same_tile : (k' : Key) → matches k' k ≡ true → tile_of k'.0 ≡ tile_of k.0
  same_tile k' h = let e : (k'.0 == k.0) ≡ true = ground arith in ap tile_of ((==_iff k'.0 k.0).0 e)

  lookup_new :
      (k' : Key) (l : ℕ)
      → lookup k' after_new ≡ some l
      → (lookup k' s ≡ some l) ⊎ ((matches k' k ≡ true) × (l ≡ new_id))
  unfolding after_new new_id
  lookup_new k' l h =
      last_cases (lookup k' s) (matches k' k) new_id l
        (sym (find_lock-append k' k new_id s.info) ∙ h)

  after_new-Separate :
      lookup k s ≡ none → Separate tile_of after_new × Locked k s (after_new, new_id)
  unfolding after_new new_id
  after_new-Separate missing =
      let a = (allocate_lock_op-Allocated (tile_of k.0) none s.locks).0 in
      (
        record {
          exists_lock = λ k' l h. elim (lookup_new k' l h) [
            | inl q ↦ a.kept (tile_of k'.0) l (separate.exists_lock k' l q)
            | inr q ↦ rw (same_tile k' q.0, q.1) (a.listed)
          ];
          apart = λ k1 k2 l t h1 h2. elim (lookup_new k1 l h1) [
            | inl p ↦ elim (lookup_new k2 l h2) [
              | inl q ↦ separate.apart k1 k2 l t p q
              | inr q ↦ absurd (old_new k1 k2 l t p q.0 q.1)
            ]
            | inr p ↦ elim (lookup_new k2 l h2) [
              | inl q ↦ absurd (old_new k2 k1 l (sym t) q p.0 p.1)
              | inr q ↦ matches_trans k1 k2 k p.0 q.0
            ]
          ];
        },
        record {
          found =
              find_lock-append k k new_id s.info
              ∙ ap (λ o. or_last o (last (matches k k) new_id)) missing
              ∙ ap (λ b. last b new_id) (matches_self k);
          kept = λ k' l h.
              find_lock-append k' k new_id s.info
              ∙ ap (λ o. or_last o (last (matches k' k) new_id)) h;
        },
      )
    where
      old_new :
          (k1 k2 : Key) (l : ℕ)
          → tile_of k1.0 ≡ tile_of k2.0
          → lookup k1 s ≡ some l
          → matches k2 k ≡ true
          → l ≡ new_id
          → ⊥
      old_new k1 k2 l t h m e =
          let x : elem l (ids_of (tile_of k1.0) s.locks) ≡ true = separate.exists_lock k1 l h in
          let y : elem new_id (ids_of (tile_of k.0) s.locks) ≡ true =
            subst (λ n. elem n (ids_of (tile_of k.0) s.locks) ≡ true) e
              (subst (λ n. elem l (ids_of n s.locks) ≡ true) (t ∙ same_tile k2 m) x) in
          let z = fresh in ground arith

-- Suppose that each lock in the list is one of its buffer's tile and that no two keys, of a buffer, a
-- direction and a channel, share a lock of one tile. This stays so when `getLockForTileDMA` is called
-- for a key on its buffer's tile. The key has the answered lock from then on, and keys that had a lock
-- keep it.
pub get_lock_for_tile_dma-Separate :
    (tile_of : ℕ → ℕ) (k : Key) (s : LockState)
    → Separate tile_of s
    → Separate tile_of (get_lock_for_tile_dma (tile_of k.0) k.0 k.1 k.2 s).0
      × Locked k s (get_lock_for_tile_dma (tile_of k.0) k.0 k.1 k.2 s)
unfolding get_lock_for_tile_dma after_new new_id
get_lock_for_tile_dma-Separate tile_of k s separate = elim (Option-cases (lookup k s)) [
  | inl e ↦
      subst (λ o. Outcome tile_of k s (or_allocate (tile_of k.0) k.0 k.1 k.2 s o)) (sym e)
        (after_new-Separate tile_of k s separate e)
  | inr q ↦
      subst (λ o. Outcome tile_of k s (or_allocate (tile_of k.0) k.0 k.1 k.2 s o)) (sym q.1)
        (separate, record { found = q.1; kept = λ k' l h. h })
]
