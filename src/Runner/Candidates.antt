-- ===== src/Runner/Candidates.antt =====
-- The candidates of `processGraph` in mlir/lib/Util/Runner.cpp.
use mlir_air_mirror.Prelude.{
  ℕ, ◌≡◌, refl, arith, Bool, true, false, ◌&&◌, ◌||◌, not, Bool-cases, inl, inr, ◌==◌, List, [],
  ◌∷◌, ◌++◌, elem, elem-append, without, elem-without_self, elem-without_ne, distinct,
  distinct-without, distinct-append_one, ==_iff,
}
use mlir_air_mirror.Runner.Vertices.{
  remove_repeated_vertices, add_adjacent, find_adjacent_from, find_adjacent_vertices,
  get_vector_of_first_from_vector_of_pairs,
}
use mlir_air_mirror.Runner.State.{Graph, World}
use mlir_air_mirror.Runner.Process.{next_vertex_set_candidates}

-- `v` is adjacent to one of the vertices.
abbrev pub is_next : (ℕ → List ℕ) → ℕ → List ℕ → Bool
is_next adjacent v [] = false
is_next adjacent v (u ∷ us) = elem v (adjacent u) || is_next adjacent v us

elem-add_adjacent :
    (vertices : List ℕ) (v : ℕ) (acc vs : List ℕ)
    → elem v (add_adjacent vertices acc vs) ≡ (elem v acc || (elem v vs && not (elem v vertices)))
unfolding add_adjacent
elem-add_adjacent vertices v acc [] = ground arith
elem-add_adjacent vertices v acc (u ∷ us) = elim (Bool-cases (elem u acc || elem u vertices)) [
  | inl e ↦ rw (e) (elim (Bool-cases (v == u)) [
    | inl q ↦
        let same : v ≡ u = (==_iff v u).0 q in
        let e' : (elem v acc || elem v vertices) ≡ true = rw (same) e in
        ground (arith, elem-add_adjacent vertices v acc us)
    | inr q ↦ ground (arith, elem-add_adjacent vertices v acc us)
  ])
  | inr e ↦
      rw (e, elem-add_adjacent vertices v (acc ++ (u ∷ [])) us, elem-append v acc (u ∷ []))
        (elim (Bool-cases (v == u)) [
          | inl q ↦
              let same : v ≡ u = (==_iff v u).0 q in
              let e' : (elem v acc || elem v vertices) ≡ false = rw (same) e in ground arith
          | inr q ↦ ground arith
        ])
]

distinct-add_adjacent :
    (vertices acc vs : List ℕ)
    → distinct acc ≡ true
    → distinct (add_adjacent vertices acc vs) ≡ true
unfolding add_adjacent
distinct-add_adjacent vertices acc [] h = h
distinct-add_adjacent vertices acc (u ∷ us) h = elim (Bool-cases (elem u acc || elem u vertices)) [
  | inl e ↦ rw (e) (distinct-add_adjacent vertices acc us h)
  | inr e ↦ rw (e) (
      distinct-add_adjacent vertices (acc ++ (u ∷ [])) us
        (distinct-append_one acc u h (ground arith)))
]

module _ (adjacent : ℕ → List ℕ) where
  elem-find_adjacent_from :
      (vertices : List ℕ) (v : ℕ) (us acc : List ℕ)
      → elem v (find_adjacent_from adjacent vertices us acc)
        ≡ (elem v acc || (is_next adjacent v us && not (elem v vertices)))
  unfolding find_adjacent_from
  elem-find_adjacent_from vertices v [] acc = ground arith
  elem-find_adjacent_from vertices v (u ∷ us) acc =
      rw
        (
          elem-find_adjacent_from vertices v us (add_adjacent vertices acc (adjacent u)),
          elem-add_adjacent vertices v acc (adjacent u),
        )
        ground arith

  distinct-find_adjacent_from :
      (vertices us acc : List ℕ)
      → distinct acc ≡ true
      → distinct (find_adjacent_from adjacent vertices us acc) ≡ true
  unfolding find_adjacent_from
  distinct-find_adjacent_from vertices [] acc h = h
  distinct-find_adjacent_from vertices (u ∷ us) acc h =
      distinct-find_adjacent_from vertices us (add_adjacent vertices acc (adjacent u))
        (distinct-add_adjacent vertices acc (adjacent u) h)

elem-remove_repeated_vertices :
    (v : ℕ) (a b : List ℕ) → elem v (remove_repeated_vertices a b) ≡ (elem v a && not (elem v b))
unfolding remove_repeated_vertices
elem-remove_repeated_vertices v a [] = ground arith
elem-remove_repeated_vertices v a (u ∷ b) = elim (Bool-cases (v == u)) [
  | inl q ↦
      let gone : elem v (without v a) ≡ false = elem-without_self v a in
      let here : elem v (without u a) ≡ false = rw (← (==_iff v u).0 q) gone in
      rw (elem-remove_repeated_vertices v (without u a) b, here, q) ground arith
  | inr q ↦ rw (elem-remove_repeated_vertices v (without u a) b, elem-without_ne u v a q, q) refl
]

distinct-remove_repeated_vertices :
    (a b : List ℕ) → distinct a ≡ true → distinct (remove_repeated_vertices a b) ≡ true
unfolding remove_repeated_vertices
distinct-remove_repeated_vertices a [] h = h
distinct-remove_repeated_vertices a (u ∷ b) h =
    distinct-remove_repeated_vertices (without u a) b (distinct-without u a h)

-- A vertex is a candidate exactly if it is adjacent to a processed vertex and is neither processed nor
-- on the wavefront, and no vertex is a candidate twice.
pub next_vertex_set_candidates_lem :
    (graphs : ℕ → Graph) (depth nesting time g : ℕ) (w : World)
    → ((v : ℕ)
        → elem v (next_vertex_set_candidates graphs depth nesting time g w) ≡ (
            (is_next (graphs g).adjacent v (w.runner g).processed_vertices
              && not (elem v (w.runner g).processed_vertices))
            && not (elem v (get_vector_of_first_from_vector_of_pairs (w.runner g).wavefront))))
      × distinct (next_vertex_set_candidates graphs depth nesting time g w) ≡ true
unfolding next_vertex_set_candidates find_adjacent_vertices
next_vertex_set_candidates_lem graphs depth nesting time g w =
    let r = w.runner g in
    (
      λ v.
          rw
            (
              elem-remove_repeated_vertices v
                  (find_adjacent_from (graphs g).adjacent r.processed_vertices r.processed_vertices
                    [])
                  (get_vector_of_first_from_vector_of_pairs r.wavefront),
              elem-find_adjacent_from (graphs g).adjacent r.processed_vertices v
                  r.processed_vertices [],
            )
            refl,
      distinct-remove_repeated_vertices
          (find_adjacent_from (graphs g).adjacent r.processed_vertices r.processed_vertices [])
          (get_vector_of_first_from_vector_of_pairs r.wavefront)
          (distinct-find_adjacent_from (graphs g).adjacent r.processed_vertices r.processed_vertices
            [] refl),
    )
