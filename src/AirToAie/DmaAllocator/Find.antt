-- ===== src/AirToAie/DmaAllocator/Find.antt =====
-- The loops of `DMAAllocator` in mlir/lib/Conversion/AIRToAIEPass.cpp, on allocations that have their
-- slots.
use mathlib.Core.Path.{subst}
use mathlib.Core.Option.{none-ne-some, some-injective}
use mlir_air_mirror.Prelude.{
  ℕ, suc, ◌+◌, ◌/◌, ◌%◌, ◌≡◌, ◌∙◌, refl, sym, ap, arith, Bool, true, false, ◌&&◌, ◌||◌, Bool-cases,
  inl, inr, ◌==◌, ==_iff, if◌then◌else◌, if-true, if-false, Option, none, some, List, [], ◌∷◌, ◌++◌,
  get_elem?, elem, elem-append,
}
use mlir_air_mirror.AirToAie.DmaAllocator.{
  Allocation, Tiled, is_at, add_id, behind, find_tile, find_channel,
}
use mlir_air_mirror.AirToAie.DmaAllocator.Slots.{
  User, equal, index_of, user_of, users_of, Slots, equal-eq, index_of-skip, index_of-behind,
}

-- The nested tests of `getTile`'s loop as one.
tests-miss :
    {A : Type 0} (a b c : Bool) (x y z : A)
    → (a && (b || c)) ≡ false
    → (if a then if b then x else if c then y else z else z) ≡ z
tests-miss true true c x y z h = absurd (ground arith)
tests-miss true false true x y z h = absurd (ground arith)
tests-miss true false false x y z h = refl
tests-miss false b c x y z h = refl

tests-hit :
    {A : Type 0} (a b c : Bool) (x y z : A)
    → (a && (b || c)) ≡ true
    → (if a then if b then x else if c then y else z else z) ≡ (if b then x else y)
tests-hit true true c x y z h = refl
tests-hit true false true x y z h = refl
tests-hit true false false x y z h = absurd (ground arith)
tests-hit false b c x y z h = absurd (ground arith)

module _ (cols : List ℕ) (n : ℕ) (channel_of : ℕ → ℕ → ℕ → ℕ) (id col row : ℕ) where
  unfoldable pub tc : ℕ
  tc = channel_of id col row

  unfoldable pub u : User
  u = (col, row, tc)

  -- The test of the loops is whether the allocation is the user's.
  hit-equal :
      (t : Allocation)
      → ((i : ℕ) → elem i (t.dma_id) ≡ true → channel_of i t.col t.row ≡ t.tile_channel)
      → (is_at col row t && (elem id (t.dma_id) || tc == t.tile_channel)) ≡ equal u (user_of t)
  unfolding tc u
  hit-equal t own = elim (Bool-cases (is_at col row t)) [
    | inl e ↦ elim (Bool-cases (elem id (t.dma_id))) [
      | inl m ↦
          let p : col ≡ t.col = (==_iff col t.col).0 (ground arith) in
          let q : row ≡ t.row = (==_iff row t.row).0 (ground arith) in
          let r : channel_of id col row ≡ t.tile_channel = rw (p, q) (own id m) in
          let s : (channel_of id col row == t.tile_channel) ≡ true = (==_iff _ _).1 r in
          ground arith
      | inr m ↦ ground arith
    ]
    | inr e ↦ ground arith
  ]

  pub find_channel-none :
      (i : ℕ) (ts : List Allocation) (chan : Option ℕ)
      → Slots cols n channel_of i ts
      → index_of u (users_of ts) ≡ none
      → find_channel id tc col row ts chan ≡ chan
  unfolding find_channel
  find_channel-none i [] chan s h = refl
  find_channel-none i (t ∷ ts) chan s h =
      let k = index_of-skip u (user_of t) (users_of ts) h in
      find_channel-none (suc i) ts _ s.4 k.1
      ∙ if-false {b = is_at col row t && (elem id (t.dma_id) || tc == t.tile_channel)} _ chan
          (hit-equal t s.2 ∙ k.0)

  pub find_tile-none :
      (i : ℕ) (ts : List Allocation)
      → Slots cols n channel_of i ts
      → index_of u (users_of ts) ≡ none
      → find_tile id tc col row ts ≡ none
  unfolding find_tile
  find_tile-none i [] s h = refl
  find_tile-none i (t ∷ ts) s h =
      let k = index_of-skip u (user_of t) (users_of ts) h in
      let miss = hit-equal t s.2 ∙ k.0 in
      let rest = find_tile-none (suc i) ts s.4 k.1 in
      tests-miss (is_at col row t) (elem id (t.dma_id)) (tc == t.tile_channel) _ _ _ miss
      ∙ ap (behind t) rest

  -- What `getTile` finds for the user at place j behind i allocations.
  pub record FoundTile (i j : ℕ) (ts : List Allocation) (r : Tiled) : Type 0 where
    pub column : get_elem? cols ((i + j) / n) ≡ some (r.1)
    pub slots : Slots cols n channel_of i (r.0)
    pub users : users_of (r.0) ≡ users_of ts
    pub channel : (chan : Option ℕ) → find_channel id tc col row (r.0) chan ≡ some ((i + j) % n)

  behind-FoundTile :
      (i j : ℕ) (t : Allocation) (ts : List Allocation) (r : Tiled)
      → Slots cols n channel_of i (t ∷ ts)
      → FoundTile (suc i) j ts r
      → FoundTile i (suc j) (t ∷ ts) (t ∷ r.0, r.1)
  unfolding find_channel
  behind-FoundTile i j t ts r s f =
      let e : suc i + j ≡ i + suc j = omega arith in
      record {
        column = ap (λ k. get_elem? cols (k / n)) (sym e) ∙ f.column;
        slots = (s.0, s.1, s.2, ap (index_of (user_of t)) (f.users) ∙ s.3, f.slots);
        users = ap (λ us. user_of t ∷ us) f.users;
        channel = λ chan. f.channel _ ∙ ap (λ k. some (k % n)) e;
      }

  hit_head : Allocation → Allocation
  hit_head t = if elem id (t.dma_id) then t else add_id id t

  head-FoundTile :
      (i : ℕ) (t : Allocation) (ts us : List Allocation)
      → Slots cols n channel_of i (t ∷ ts)
      → equal u (user_of t) ≡ true
      → users_of (t ∷ ts) ≡ users_of us
      → FoundTile i 0 us (t ∷ ts, t.dma_col)
  unfolding find_channel
  head-FoundTile i t ts us s e same =
      let lone =
        subst (λ v. index_of v (users_of ts) ≡ none) (sym (equal-eq u (user_of t) e)) s.3 in
      let z : i ≡ i + 0 = omega arith in
      record {
        column = ap (λ k. get_elem? cols (k / n)) (sym z) ∙ s.0;
        slots = s;
        users = same;
        channel = λ chan.
            find_channel-none (suc i) ts _ s.4 lone
            ∙ if-true {b = is_at col row t && (elem id (t.dma_id) || tc == t.tile_channel)} _ chan
                (hit-equal t s.2 ∙ e)
            ∙ ap some (s.1 ∙ ap (λ k. k % n) z);
      }

  add_id-Slots :
      (i : ℕ) (t : Allocation) (ts : List Allocation)
      → Slots cols n channel_of i (t ∷ ts)
      → equal u (user_of t) ≡ true
      → Slots cols n channel_of i (add_id id t ∷ ts)
  unfolding u tc
  add_id-Slots i t ts s e = (s.0, s.1, own, s.3, s.4)
    where
      own :
          (k : ℕ)
          → elem k (t.dma_id ++ (id ∷ [])) ≡ true
          → channel_of k t.col t.row ≡ t.tile_channel
      own k m =
          let m' = sym (elem-append k t.dma_id (id ∷ [])) ∙ m in
          elim (Bool-cases (elem k t.dma_id)) [
            | inl h ↦ s.2 k h
            | inr h ↦
                let o : k ≡ id = (==_iff k id).0 (ground arith) in
                let p : col ≡ t.col = (==_iff col t.col).0 (ground arith) in
                let q : row ≡ t.row = (==_iff row t.row).0 (ground arith) in
                let r : channel_of id col row ≡ t.tile_channel = (==_iff _ _).0 (ground arith) in
                rw (o, ← p, ← q) r
          ]

  hit-FoundTile :
      (i : ℕ) (t : Allocation) (ts : List Allocation)
      → Slots cols n channel_of i (t ∷ ts)
      → equal u (user_of t) ≡ true
      → FoundTile i 0 (t ∷ ts) (hit_head t ∷ ts, t.dma_col)
  unfolding hit_head
  hit-FoundTile i t ts s e = elim (Bool-cases (elem id (t.dma_id))) [
    | inl h ↦ rw (h) (head-FoundTile i t ts (t ∷ ts) s e refl)
    | inr h ↦ rw (h) (head-FoundTile i (add_id id t) ts (t ∷ ts) (add_id-Slots i t ts s e) e refl)
  ]

  pub find_tile-FoundTile :
      (i j : ℕ) (ts : List Allocation)
      → Slots cols n channel_of i ts
      → index_of u (users_of ts) ≡ some j
      → (r : Tiled) × (find_tile id tc col row ts ≡ some r) × FoundTile i j ts r
  unfolding find_tile hit_head
  find_tile-FoundTile i j [] s h = absurd (none-ne-some j h)
  find_tile-FoundTile i j (t ∷ ts) s h = elim (Bool-cases (equal u (user_of t))) [
    | inl e ↦
        let zero : 0 ≡ j =
          some-injective 0 j (sym (if-true {b = equal u (user_of t)} (some 0) _ e) ∙ h) in
        (
          (hit_head t ∷ ts, t.dma_col),
          tests-hit (is_at col row t) (elem id (t.dma_id)) (tc == t.tile_channel) _ _ _
                (hit-equal t s.2 ∙ e)
              ∙ pick t ts,
          subst (λ k. FoundTile i k (t ∷ ts) (hit_head t ∷ ts, t.dma_col)) zero
              (hit-FoundTile i t ts s e),
        )
    | inr e ↦
        let q = index_of-behind u (user_of t) (users_of ts) j h e in
        let f = find_tile-FoundTile (suc i) q.0 ts s.4 q.1 in
        (
          (t ∷ f.0.0, f.0.1),
          tests-miss (is_at col row t) (elem id (t.dma_id)) (tc == t.tile_channel) _ _ _
                (hit-equal t s.2 ∙ e)
              ∙ ap (behind t) f.1,
          subst (λ k. FoundTile i k (t ∷ ts) (t ∷ f.0.0, f.0.1)) q.2
              (behind-FoundTile i q.0 t ts f.0 s f.2),
        )
  ]
    where
      pick :
          (t : Allocation) (ts : List Allocation)
          → if◌then◌else◌ {A = Option Tiled}
              (elem id (t.dma_id))
              (some (t ∷ ts, t.dma_col))
              (some (add_id id t ∷ ts, t.dma_col))
            ≡ some (hit_head t ∷ ts, t.dma_col)
      pick t ts = elim (Bool-cases (elem id (t.dma_id))) [
        | inl h ↦ rw (h) refl
        | inr h ↦ rw (h) refl
      ]
