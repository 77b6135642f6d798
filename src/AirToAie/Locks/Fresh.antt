-- ===== src/AirToAie/Locks/Fresh.antt =====
-- The locks that mlir/lib/Conversion/AIRToAIEPass.cpp hands out.
use mathlib.Core.Path.{subst}
use mlir_air_mirror.Prelude.{
  ℕ, ◌<◌, ◌≡◌, ◌∙◌, refl, sym, ap, arith, true, false, Bool-cases, inl, inr, ◌==◌, ==_iff, ltb,
  if◌then◌else◌, if-true, if-false, Option, none, some, List, [], ◌∷◌, ◌++◌, elem, elem_self,
  elem-append, distinct, distinct-append_one, length, first_free, first_free-lacks,
  first_free-least,
}
use mlir_air_mirror.AirToAie.Locks.{Lock, ids_of, create, allocate_lock_op}

ids_of-append_self :
    (tile id : ℕ) (locks : List Lock)
    → ids_of tile (locks ++ (record { tile = tile; id = id } ∷ [])) ≡ ids_of tile locks ++ (id ∷ [])
ids_of-append_self tile id [] = let e : (tile == tile) ≡ true = ground arith in rw (e) refl
ids_of-append_self tile id (l ∷ ls) = elim (Bool-cases (l.tile == tile)) [
  | inl e ↦ rw (e) (ap (λ (x : List ℕ). l.id ∷ x) (ids_of-append_self tile id ls))
  | inr e ↦ rw (e) (ids_of-append_self tile id ls)
]

ids_of-append_other :
    (t tile id : ℕ) (locks : List Lock)
    → (tile == t) ≡ false
    → ids_of t (locks ++ (record { tile = tile; id = id } ∷ [])) ≡ ids_of t locks
ids_of-append_other t tile id [] h = rw (h) refl
ids_of-append_other t tile id (l ∷ ls) h = elim (Bool-cases (l.tile == t)) [
  | inl e ↦ rw (e) (ap (λ (x : List ℕ). l.id ∷ x) (ids_of-append_other t tile id ls h))
  | inr e ↦ rw (e) (ids_of-append_other t tile id ls h)
]

-- What a call answers: the lock exists, no tile has a lock twice, and no lock is lost.
pub record Allocated (tile : ℕ) (locks : List Lock) (r : List Lock × ℕ) : Type 0 where
  pub listed : elem (r.1) (ids_of tile (r.0)) ≡ true
  pub one_each : (t : ℕ) → distinct (ids_of t locks) ≡ true → distinct (ids_of t (r.0)) ≡ true
  pub kept : (t j : ℕ) → elem j (ids_of t locks) ≡ true → elem j (ids_of t (r.0)) ≡ true

create-Allocated :
    (tile id : ℕ) (locks : List Lock)
    → elem id (ids_of tile locks) ≡ false
    → Allocated tile locks (create tile id locks)
create-Allocated tile id locks h = record {
  listed =
      ap (elem id) (ids_of-append_self tile id locks)
      ∙ elem-append id (ids_of tile locks) (id ∷ [])
      ∙ (let k = elem_self id [] in ground arith);
  one_each = λ t d. elim (Bool-cases (tile == t)) [
    | inl e ↦
        let same : tile ≡ t = (==_iff tile t).0 e in
        subst (λ x. distinct (ids_of x (locks ++ (record { tile = tile; id = id } ∷ []))) ≡ true)
          same
          (ap distinct (ids_of-append_self tile id locks)
            ∙ distinct-append_one (ids_of tile locks) id
                (subst (λ x. distinct (ids_of x locks) ≡ true) (sym same) d) h)
    | inr e ↦ ap distinct (ids_of-append_other t tile id locks e) ∙ d
  ];
  kept = λ t j m. elim (Bool-cases (tile == t)) [
    | inl e ↦
        let same : tile ≡ t = (==_iff tile t).0 e in
        subst (λ x. elem j (ids_of x (locks ++ (record { tile = tile; id = id } ∷ []))) ≡ true) same
          (ap (elem j) (ids_of-append_self tile id locks)
            ∙ elem-append j (ids_of tile locks) (id ∷ [])
            ∙ (let k : elem j (ids_of tile locks) ≡ true =
                  subst (λ x. elem j (ids_of x locks) ≡ true) (sym same) m in
                ground arith))
    | inr e ↦ ap (elem j) (ids_of-append_other t tile id locks e) ∙ m
  ];
}

first_free-zero : (n : ℕ) (ids : List ℕ) → elem 0 ids ≡ false → first_free n 0 ids ≡ 0
first_free-zero n ids h = elim (Bool-cases (first_free n 0 ids == 0)) [
  | inl e ↦ (==_iff (first_free n 0 ids) 0).0 e
  | inr e ↦ absurd (let k = first_free-least n 0 ids 0 (omega arith) (ground arith) in ground arith)
]

-- The id that a call answers: a missing id gives the least that no lock of the tile has, another itself.
abbrev pub Chosen : Option ℕ → List ℕ → ℕ → Type 0
Chosen none ids r = (elem r ids ≡ false) × ((j : ℕ) → j < r → elem j ids ≡ true)
Chosen (some id) ids r = r ≡ id

-- `allocateLockOp` answers a lock of the tile that the module has then: with an id, the one of that id,
-- and without one a new lock with the least id that none of the tile's locks has. No tile has an id
-- twice afterwards that had none twice before, and no lock is lost.
pub allocate_lock_op-Allocated :
    (tile : ℕ) (id : Option ℕ) (locks : List Lock)
    → Allocated tile locks (allocate_lock_op tile id locks)
      × Chosen id (ids_of tile locks) (allocate_lock_op tile id locks).1
unfolding allocate_lock_op
allocate_lock_op-Allocated tile none locks =
    let ids = ids_of tile locks in
    let lacks = first_free-lacks (length ids) 0 ids (omega arith) in
    (
      create-Allocated tile (first_free (length ids) 0 ids) locks lacks,
      (lacks, λ j h. first_free-least (length ids) 0 ids j (omega arith) h),
    )
allocate_lock_op-Allocated tile (some id) locks =
    let ids = ids_of tile locks in
    elim (Bool-cases (elem id ids)) [
      | inl e ↦
          subst (λ (r : List Lock × ℕ). Allocated tile locks r × (r.1 ≡ id))
            (sym (if-true {b = elem id ids} (locks, id) _ e))
            (record { listed = e; one_each = λ t d. d; kept = λ t j m. m }, refl)
      | inr e ↦
          subst (λ (r : List Lock × ℕ). Allocated tile locks r × (r.1 ≡ id))
            (sym (
              if-false {b = elem id ids} (locks, id) _ e
              ∙ ap (λ x. create tile x locks) (pick id (length ids) ids e)))
            (create-Allocated tile id locks e, refl)
    ]
  where
    pick :
        (i n : ℕ) (ids : List ℕ)
        → elem i ids ≡ false
        → (if ltb 0 i then i else first_free n 0 ids) ≡ i
    pick i n ids e = elim (Bool-cases (ltb 0 i)) [
      | inl h ↦ if-true i (first_free n 0 ids) h
      | inr h ↦
          let zero : i ≡ 0 = ground arith in
          if-false i (first_free n 0 ids) h
          ∙ first_free-zero n ids (subst (λ x. elem x ids ≡ false) zero e)
          ∙ sym zero
    ]
