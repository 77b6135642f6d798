-- ===== src/AirToAie/DmaAllocator/Place.antt =====
-- What `DMAAllocator` of mlir/lib/Conversion/AIRToAIEPass.cpp promises its users.
use mathlib.Core.Path.{subst}
use mathlib.Core.List.{map-append}
use mlir_air_mirror.Prelude.{
  ℕ, ◌+◌, ◌/◌, ◌%◌, ◌≡◌, ◌∙◌, sym, ap, arith, Option-cases, inl, inr, Option, none, some, List, [],
  ◌∷◌, ◌++◌, length, length-map, get_elem?,
}
use mlir_air_mirror.AirToAie.DmaAllocator.{
  Allocation, Tiled, new_allocation, or_new, get_tile, get_channel,
}
use mlir_air_mirror.AirToAie.DmaAllocator.Slots.{
  User, index_of, enrol, place, user_of, users_of, Slots,
}
use mlir_air_mirror.AirToAie.DmaAllocator.Find.{tc, u, find_tile-none, find_tile-FoundTile}
use mlir_air_mirror.AirToAie.DmaAllocator.Append.{made, append-Slots, find_channel-made}

-- What `getTile` comes to for a user with place `o` in the list: nothing without a column, and else the
-- column, with the slots of the users, one more if it is new, and the channel that `getChannel` answers.
abbrev pub Placed :
    List ℕ
    → ℕ
    → (ℕ → ℕ → ℕ → ℕ)
    → ℕ
    → User
    → List User
    → Option ℕ
    → Option ℕ
    → Option Tiled
    → Type 0
Placed cols n channel_of id u users o none r = r ≡ none
Placed cols n channel_of id u users o (some c) r =
    (allocs : List Allocation) × (r ≡ some (allocs, c))
    × Slots cols n channel_of 0 allocs
    × (users_of allocs ≡ enrol users u o)
    × (get_channel id u.2 u.0 u.1 allocs ≡ some (place users o % n))

module _ (cols : List ℕ) (n : ℕ) (channel_of : ℕ → ℕ → ℕ → ℕ) (id col row : ℕ)
    (allocs : List Allocation) (s : Slots cols n channel_of 0 allocs) where
  old-Placed :
      (j : ℕ)
      → index_of (col, row, channel_of id col row) (users_of allocs) ≡ some j
      → Placed cols n channel_of id
          (col, row, channel_of id col row)
          (users_of allocs)
          (some j)
          (get_elem? cols (j / n))
          (get_tile cols n id (channel_of id col row) col row allocs)
  unfolding get_tile get_channel tc u
  old-Placed j e =
      let f = find_tile-FoundTile cols n channel_of id col row 0 j allocs s e in
      let z : 0 + j ≡ j = omega arith in
      subst
        (λ o.
          Placed cols n channel_of id (col, row, channel_of id col row) (users_of allocs) (some j) o
            (get_tile cols n id (channel_of id col row) col row allocs))
        (sym (f.2.column) ∙ ap (λ k. get_elem? cols (k / n)) z)
        (
          f.0.0,
          ap (or_new cols n id (channel_of id col row) col row allocs) f.1,
          f.2.slots,
          f.2.users,
          f.2.channel none ∙ ap (λ k. some (k % n)) z,
        )

  new-Placed :
      (o : Option ℕ)
      → index_of (col, row, channel_of id col row) (users_of allocs) ≡ none
      → get_elem? cols (length allocs / n) ≡ o
      → Placed cols n channel_of id
          (col, row, channel_of id col row)
          (users_of allocs)
          none
          o
          (get_tile cols n id (channel_of id col row) col row allocs)
  unfolding get_tile get_channel tc u made
  new-Placed none h e =
      ap (or_new cols n id (channel_of id col row) col row allocs)
        (find_tile-none cols n channel_of id col row 0 allocs s h)
      ∙ ap (new_allocation cols n id (channel_of id col row) col row allocs) e
  new-Placed (some c) h e =
      let z : length allocs ≡ 0 + length allocs = omega arith in
      (
        allocs ++ (made cols n channel_of id col row c (length allocs % n) ∷ []),
        ap (or_new cols n id (channel_of id col row) col row allocs)
              (find_tile-none cols n channel_of id col row 0 allocs s h)
            ∙ ap (new_allocation cols n id (channel_of id col row) col row allocs) e,
        append-Slots cols n channel_of id col row 0 c (length allocs % n) allocs s h
            (ap (λ k. get_elem? cols (k / n)) (sym z) ∙ e) (ap (λ k. k % n) z),
        map-append user_of allocs (made cols n channel_of id col row c (length allocs % n) ∷ []),
        find_channel-made cols n channel_of id col row c (length allocs % n) allocs none
            ∙ ap (λ k. some (k % n)) (sym (length-map allocs user_of)),
      )

-- Suppose that the allocations have the slots of their places and that a copy's channel of its tile is
-- always the same, as that of `getTileDMAChannel` is. Then `getTile` gives a user the column of its
-- place divided by the channels of a column, a new user coming last, and has no result exactly where
-- the list of columns ends; the allocations have their slots again, and `getChannel` answers the place
-- modulo the channels.
pub get_tile-Placed :
    (cols : List ℕ) (n : ℕ) (channel_of : ℕ → ℕ → ℕ → ℕ) (id col row : ℕ) (allocs : List Allocation)
    → Slots cols n channel_of 0 allocs
    → Placed cols n channel_of id
        (col, row, channel_of id col row)
        (users_of allocs)
        (index_of (col, row, channel_of id col row) (users_of allocs))
        (get_elem? cols (
          place (users_of allocs) (index_of (col, row, channel_of id col row) (users_of allocs))
          / n))
        (get_tile cols n id (channel_of id col row) col row allocs)
get_tile-Placed cols n channel_of id col row allocs s =
    let users = users_of allocs in
    let u : User = (col, row, channel_of id col row) in
    let P : Option ℕ → Type 0 = λ o.
      Placed cols n channel_of id u users o (get_elem? cols (place users o / n))
        (get_tile cols n id (channel_of id col row) col row allocs) in
    elim (Option-cases (index_of u users)) [
      | inl e ↦ subst P (sym e) (
          new-Placed cols n channel_of id col row allocs s (get_elem? cols (length users / n)) e
            (ap (λ k. get_elem? cols (k / n)) (sym (length-map allocs user_of))))
      | inr q ↦ subst P (sym q.1) (old-Placed cols n channel_of id col row allocs s q.0 q.1)
    ]
