-- ===== src/AirToAie/DmaAllocator/Slots.antt =====
-- What `DMAAllocator` of mlir/lib/Conversion/AIRToAIEPass.cpp promises: the users of the DMAs, each a
-- channel of a tile, get the slots of the columns in the order in which they come.
use mathlib.Core.Option.{none-ne-some, some-injective}
use mlir_air_mirror.Prelude.{
  ℕ, suc, ◌/◌, ◌%◌, ◌≡◌, ◌∙◌, refl, sym, ap, arith, Bool, true, false, ◌&&◌, Bool-cases,
  Option-cases, inl, inr, ◌==◌, ==_iff, if◌then◌else◌, if-true, if-false, Option, none, some, List,
  [], ◌∷◌, ◌++◌, map, length, get_elem?, elem,
}
use mlir_air_mirror.AirToAie.DmaAllocator.{Allocation}

-- A user: column, row and channel of a tile.
abbrev pub User : Type 0
User = ℕ × ℕ × ℕ

abbrev pub equal : User → User → Bool
equal u v = (u.0 == v.0 && u.1 == v.1) && u.2 == v.2

-- The place of a user in the list, or none.
abbrev pub index_of : User → List User → Option ℕ
index_of u [] = none
index_of u (v ∷ vs) =
    let rest = index_of u vs in
    if equal u v then some 0 else elim rest [ none ↦ none | some i ↦ some (suc i) ]

-- The abstract allocator: a new user goes to the end, and its place gives the column and the channel.
abbrev pub enrol : List User → User → Option ℕ → List User
enrol users u none = users ++ (u ∷ [])
enrol users u (some i) = users

abbrev pub place : List User → Option ℕ → ℕ
place users none = length users
place users (some i) = i

abbrev pub user_of : Allocation → User
user_of t = (t.col, t.row, t.tile_channel)

abbrev pub users_of : List Allocation → List User
users_of allocs = map user_of allocs

-- The allocation at place i has the slot of that place, and its copies use the channel of its tile that
-- `channel_of` says; no user stands twice.
abbrev pub Slots : List ℕ → ℕ → (ℕ → ℕ → ℕ → ℕ) → ℕ → List Allocation → Type 0
Slots cols n channel_of i [] = Unit
Slots cols n channel_of i (t ∷ ts) =
    (get_elem? cols (i / n) ≡ some (t.dma_col))
    × (t.dma_channel ≡ i % n)
    × ((id : ℕ) → elem id (t.dma_id) ≡ true → channel_of id t.col t.row ≡ t.tile_channel)
    × (index_of (user_of t) (users_of ts) ≡ none)
    × Slots cols n channel_of (suc i) ts

pub equal-eq : (u v : User) → equal u v ≡ true → u ≡ v
equal-eq (a, b, c) (a', b', c') h =
    let p : a ≡ a' = (==_iff a a').0 (ground arith) in
    let q : b ≡ b' = (==_iff b b').0 (ground arith) in
    let r : c ≡ c' = (==_iff c c').0 (ground arith) in rw (p, q, r) refl

pub equal_comm : (u v : User) → equal u v ≡ equal v u
equal_comm (a, b, c) (a', b', c') = ground arith

pub index_of-skip :
    (u v : User) (vs : List User)
    → index_of u (v ∷ vs) ≡ none
    → (equal u v ≡ false) × (index_of u vs ≡ none)
index_of-skip u v vs h = elim (Bool-cases (equal u v)) [
  | inl e ↦ absurd (none-ne-some 0 (sym h ∙ if-true {b = equal u v} (some 0) _ e))
  | inr e ↦ elim (Option-cases (index_of u vs)) [
    | inl q ↦ (e, q)
    | inr q ↦ absurd (
        none-ne-some (suc q.0) (
          sym h
          ∙ if-false {b = equal u v} (some 0) _ e
          ∙ ap (λ o. elim o [ none ↦ none | some i ↦ some (suc i) ]) q.1))
  ]
]

pub index_of-behind :
    (u v : User) (vs : List User) (j : ℕ)
    → index_of u (v ∷ vs) ≡ some j
    → equal u v ≡ false
    → (k : ℕ) × (index_of u vs ≡ some k) × (suc k ≡ j)
index_of-behind u v vs j h e =
    let up : (elim (index_of u vs) [ none ↦ none | some i ↦ some (suc i) ]) ≡ some j =
      sym (if-false {b = equal u v} (some 0) _ e) ∙ h in
    elim (Option-cases (index_of u vs)) [
      | inl q ↦
          absurd
            (none-ne-some j (sym (ap (λ o. elim o [ none ↦ none | some i ↦ some (suc i) ]) q) ∙ up))
      | inr q ↦ (
        q.0,
        q.1,
        some-injective (suc q.0) j
            (sym (ap (λ o. elim o [ none ↦ none | some i ↦ some (suc i) ]) q.1) ∙ up),
      )
    ]

pub index_of-append :
    (u v : User) (vs : List User)
    → index_of u vs ≡ none
    → equal u v ≡ false
    → index_of u (vs ++ (v ∷ [])) ≡ none
index_of-append u v [] h e = rw (e) refl
index_of-append u v (w ∷ vs) h e =
    let k = index_of-skip u w vs h in rw (k.0, index_of-append u v vs k.1 e) refl
