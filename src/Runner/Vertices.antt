-- ===== src/Runner/Vertices.antt =====
-- The vectors of vertices and of pairs (vertex, thread) of mlir/lib/Util/Runner.cpp.
use mlir_air_mirror.Prelude.{
  ℕ, ◌||◌, if◌then◌else◌, List, [], ◌∷◌, ◌++◌, map, length, elem, without, first_free,
}

-- `removeVertexFromVertices`.
abbrev pub remove_vertex_from_vertices : List ℕ → ℕ → List ℕ
remove_vertex_from_vertices vector a = without a vector

-- `removeRepeatedVertices`.
unfoldable pub remove_repeated_vertices : List ℕ → List ℕ → List ℕ
remove_repeated_vertices a [] = a
remove_repeated_vertices a (v ∷ b) = remove_repeated_vertices (remove_vertex_from_vertices a v) b

-- The inner loop of `findAdjacentVertices`, over the vertices adjacent to one vertex.
unfoldable pub add_adjacent : List ℕ → List ℕ → List ℕ → List ℕ
add_adjacent vertices adjacent_vertices [] = adjacent_vertices
add_adjacent vertices adjacent_vertices (v1 ∷ vs) =
    if elem v1 adjacent_vertices || elem v1 vertices
    then add_adjacent vertices adjacent_vertices vs
    else add_adjacent vertices (adjacent_vertices ++ (v1 ∷ [])) vs

-- Its outer loop, over the rest of `vertices`.
unfoldable pub find_adjacent_from : (ℕ → List ℕ) → List ℕ → List ℕ → List ℕ → List ℕ
unfolding add_adjacent
find_adjacent_from adjacent vertices [] adjacent_vertices = adjacent_vertices
find_adjacent_from adjacent vertices (v ∷ vs) adjacent_vertices =
    find_adjacent_from adjacent vertices vs (add_adjacent vertices adjacent_vertices (adjacent v))

unfoldable pub find_adjacent_vertices : (ℕ → List ℕ) → List ℕ → List ℕ → List ℕ
unfolding find_adjacent_from
find_adjacent_vertices adjacent vertices adjacent_vertices =
    find_adjacent_from adjacent vertices vertices adjacent_vertices

-- A vertex that is running, with its thread.
abbrev pub Entry : Type 0
Entry = ℕ × ℕ

abbrev pub get_vector_of_first_from_vector_of_pairs : List Entry → List ℕ
get_vector_of_first_from_vector_of_pairs pairs = map (λ (p : Entry). p.0) pairs

-- The threads in use.
abbrev pub threads : List Entry → List ℕ
threads wavefront = map (λ (p : Entry). p.1) wavefront

-- `pushToWavefront` of a vertex: the loop tries the threads from 1 to `wavefront.size() + 1`, so
-- `wavefront.size()` of them in use leave one more.
unfoldable pub push_to_wavefront : List Entry → ℕ → List Entry
push_to_wavefront wavefront v =
    wavefront ++ ((v, first_free (length wavefront) 1 (threads wavefront)) ∷ [])
