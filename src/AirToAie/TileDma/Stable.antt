-- ===== src/AirToAie/TileDma/Stable.antt =====
-- The tile DMA channels that mlir/lib/Conversion/AIRToAIEPass.cpp assigns do not change.
use mathlib.Core.Path.{subst}
use mathlib.Core.Option.{none-ne-some}
use native.Mathlib.Nat.{mod-lt}
use mlir_air_mirror.Prelude.{
  ℕ, suc, ◌+◌, ◌%◌, ◌<◌, ◌≡◌, ◌∙◌, ◌⊎◌, refl, sym, ap, arith, Bool, true, ◌&&◌, Bool-cases,
  Option-cases, inl, inr, ◌==◌, ==_iff, ltb, ltb→lt, if◌then◌else◌, if-true, if-false, Option, none,
  some, List, [], ◌∷◌, ◌++◌, length, length-append,
}
use mlir_air_mirror.AirToAie.TileDma.{TileAlloc, on_tile, scan, found_or_new, get_tile_dma_channel}

-- The copies that have a channel on a tile.
abbrev pub count : ℕ → ℕ → List TileAlloc → ℕ
count col row [] = 0
count col row (t ∷ ts) = let rest = count col row ts in if on_tile col row t then suc rest else rest

abbrev pub all_below : ℕ → List TileAlloc → Bool
all_below n [] = true
all_below n (t ∷ ts) = ltb (t.chan) n && all_below n ts

scan-append :
    (id col row : ℕ) (a : TileAlloc) (allocs : List TileAlloc) (chan : Option ℕ) (n : ℕ)
    → (scan id col row (allocs ++ (a ∷ [])) chan n).0 ≡ (
        if on_tile col row a && id == a.id
        then some (a.chan)
        else (scan id col row allocs chan n).0)
unfolding scan
scan-append id col row a [] chan n = refl
scan-append id col row a (t ∷ ts) chan n =
    scan-append id col row a ts (if on_tile col row t && id == t.id then some (t.chan) else chan)
      (if on_tile col row t then n + 1 else n)

scan-count :
    (id col row : ℕ) (allocs : List TileAlloc) (chan : Option ℕ) (n : ℕ)
    → (scan id col row allocs chan n).1 ≡ n + count col row allocs
unfolding scan
scan-count id col row [] chan n = omega arith
scan-count id col row (t ∷ ts) chan n =
    scan-count id col row ts (if on_tile col row t && id == t.id then some (t.chan) else chan)
      (if on_tile col row t then n + 1 else n)
    ∙ elim (Bool-cases (on_tile col row t)) [ inl e ↦ rw (e) (omega arith) | inr e ↦ rw (e) refl ]

abbrev chan_below : ℕ → Option ℕ → Bool
chan_below n none = true
chan_below n (some c) = ltb c n

scan-below :
    (id col row k : ℕ) (allocs : List TileAlloc) (chan : Option ℕ) (n : ℕ)
    → all_below k allocs ≡ true
    → chan_below k chan ≡ true
    → chan_below k (scan id col row allocs chan n).0 ≡ true
unfolding scan
scan-below id col row k [] chan n h c = c
scan-below id col row k (t ∷ ts) chan n h c =
    scan-below id col row k ts (if on_tile col row t && id == t.id then some (t.chan) else chan)
      (if on_tile col row t then n + 1 else n) (ground arith)
      (elim (Bool-cases (on_tile col row t && id == t.id)) [
        | inl e ↦ rw (e) (ground arith)
        | inr e ↦ rw (e) c
      ])

all_below-append :
    (k : ℕ) (allocs : List TileAlloc) (a : TileAlloc)
    → all_below k allocs ≡ true
    → a.chan < k
    → all_below k (allocs ++ (a ∷ [])) ≡ true
all_below-append k [] a h l = ground arith
all_below-append k (t ∷ ts) a h l =
    let rest = all_below-append k ts a (ground arith) l in ground arith

-- What a call answers and leaves behind.
pub record Assigned (id col row : ℕ) (allocs : List TileAlloc) (r : List TileAlloc × ℕ)
    : Type 0 where
  pub again : get_tile_dma_channel id col row r.0 ≡ (r.0, r.1)
  pub kept :
      (id' col' row' c : ℕ)
      → get_tile_dma_channel id' col' row' allocs ≡ (allocs, c)
      → get_tile_dma_channel id' col' row' r.0 ≡ (r.0, c)
  pub balanced : (r.0 ≡ allocs) ⊎ (r.1 ≡ count col row allocs % 2)
  pub in_range : all_below 2 allocs ≡ true → (r.1 < 2) × (all_below 2 r.0 ≡ true)

-- A copy without a channel lengthens the list.
longer : {allocs : List TileAlloc} (a : TileAlloc) → allocs ++ (a ∷ []) ≡ allocs → ⊥
longer {allocs} a h = let e = sym (length-append allocs (a ∷ [])) ∙ ap length h in omega (arith, e)

assigned-some :
    (id col row c : ℕ) (allocs : List TileAlloc) (x : Option ℕ × ℕ)
    → found_or_new id col row allocs x ≡ (allocs, c)
    → x.0 ≡ some c
assigned-some id col row c allocs (some d, n) h = ap (λ (r : List TileAlloc × ℕ). some r.1) h
assigned-some id col row c allocs (none, n) h =
    absurd (longer _ (ap (λ (r : List TileAlloc × ℕ). r.0) h))

some-assigned :
    (id col row c : ℕ) (allocs : List TileAlloc) (x : Option ℕ × ℕ)
    → x.0 ≡ some c
    → found_or_new id col row allocs x ≡ (allocs, c)
some-assigned id col row c allocs (x, n) h = ap (λ o. found_or_new id col row allocs (o, n)) h

module _ (id col row : ℕ) (allocs : List TileAlloc) where
  old-Assigned :
      (c : ℕ) → (scan id col row allocs none 0).0 ≡ some c → Assigned id col row allocs (allocs, c)
  unfolding get_tile_dma_channel
  old-Assigned c e = record {
    again = some-assigned id col row c allocs (scan id col row allocs none 0) e;
    kept = λ id' col' row' c' h. h;
    balanced = inl refl;
    in_range = λ h.
        let k : chan_below 2 (some c) ≡ true =
          ap (chan_below 2) (sym e) ∙ scan-below id col row 2 allocs none 0 h refl in
        (ltb→lt c 2 k, h);
  }

  new-Assigned :
      (scan id col row allocs none 0).0 ≡ none
      → Assigned id col row allocs
          (found_or_new id col row allocs (none, (scan id col row allocs none 0).1))
  unfolding get_tile_dma_channel
  new-Assigned e = record {
    again =
        some-assigned id col row chan (allocs ++ (a ∷ []))
          (scan id col row (allocs ++ (a ∷ [])) none 0)
          (scan-append id col row a allocs none 0
            ∙ if-true {b = on_tile col row a && id == id} (some chan) _ (
                let x : (col == col) ≡ true = ground arith in
                let y : (row == row) ≡ true = ground arith in
                let z : (id == id) ≡ true = ground arith in ground arith));
    kept = λ id' col' row' c h.
        some-assigned id' col' row' c (allocs ++ (a ∷ []))
          (scan id' col' row' (allocs ++ (a ∷ [])) none 0)
          (scan-append id' col' row' a allocs none 0 ∙ keep id' col' row' c h);
    balanced = inr (ap (λ n. n % 2) (scan-count id col row allocs none 0 ∙ omega arith));
    in_range =
        λ h. (mod-lt _ (omega arith), all_below-append 2 allocs a h (mod-lt _ (omega arith)));
  }
    where
      chan : ℕ
      chan = (scan id col row allocs none 0).1 % 2

      a : TileAlloc
      a = record { id = id; col = col; row = row; chan = chan }

      keep :
          (id' col' row' c : ℕ)
          → get_tile_dma_channel id' col' row' allocs ≡ (allocs, c)
          → (if on_tile col' row' a && id' == id
              then some chan
              else (scan id' col' row' allocs none 0).0)
            ≡ some c
      keep id' col' row' c h =
          let old = assigned-some id' col' row' c allocs (scan id' col' row' allocs none 0) h in
          elim (Bool-cases ((col' == col && row' == row) && id' == id)) [
            | inl t ↦
                let p : id' ≡ id = (==_iff id' id).0 (ground arith) in
                let q : col' ≡ col = (==_iff col' col).0 (ground arith) in
                let r : row' ≡ row = (==_iff row' row).0 (ground arith) in
                let gone : (scan id' col' row' allocs none 0).0 ≡ none = rw (p, q, r) e in
                absurd (none-ne-some c (sym gone ∙ old))
            | inr t ↦ if-false (some chan) _ t ∙ old
          ]

-- A copy that has a tile DMA channel gets it again from `getTileDMAChannel`, and so does every copy
-- that had one before the call. A copy without one gets the number of the copies on its tile modulo the
-- two channels. If all channels in the list are below 2, so are the answer and those in the list then.
pub get_tile_dma_channel-Assigned :
    (id col row : ℕ) (allocs : List TileAlloc)
    → Assigned id col row allocs (get_tile_dma_channel id col row allocs)
unfolding get_tile_dma_channel
get_tile_dma_channel-Assigned id col row allocs =
    let n = (scan id col row allocs none 0).1 in
    elim (Option-cases (scan id col row allocs none 0).0) [
      | inl e ↦
          subst (λ o. Assigned id col row allocs (found_or_new id col row allocs (o, n))) (sym e)
            (new-Assigned id col row allocs e)
      | inr q ↦
          subst (λ o. Assigned id col row allocs (found_or_new id col row allocs (o, n))) (sym q.1)
            (old-Assigned id col row allocs q.0 q.1)
    ]
