-- ===== src/Runner/Path.antt =====
-- `hasPath` of mlir/lib/Util/Runner.cpp. `adjacent v` is the list of `boost::adjacent_vertices`.
pub mod Found
pub mod Correct
use mlir_air_mirror.Prelude.{
  ℕ, zero, suc, Bool, true, false, ◌||◌, if◌then◌else◌, ◌==◌, Option, none, some, List, [], ◌∷◌,
  ◌++◌,
}

-- The result, and what the call appends to `vec`.
abbrev pub Trail : Type 0
Trail = Bool × List ℕ

abbrev pub join : Option Trail → Option Trail → Option Trail
join none r = none
join (some t) none = none
join (some (found, vec)) (some (found', vec')) = some (found || found', vec ++ vec')

-- The loop over the adjacent vertices: `pathCount` is not zero, and the trails of those with a path.
unfoldable pub try_each : (ℕ → Option Trail) → List ℕ → Option Trail
try_each visit [] = some (false, [])
try_each visit (v ∷ vs) = join (visit v) (try_each visit vs)

-- `vec.push_back(start_v)` before the loop, and `vec.pop_back()` behind it when there is no path.
abbrev pub close : ℕ → Option Trail → Option Trail
close start none = none
close start (some (true, vec)) = some (true, start ∷ vec)
close start (some (false, vec)) = some (false, vec)

module _ (adjacent : ℕ → List ℕ) where
  -- The recursion, which is as deep as the longest path, on fuel.
  unfoldable pub has_path : ℕ → ℕ → ℕ → Option Trail
  unfolding try_each
  has_path zero start end = none
  has_path (suc n) start end =
      if start == end
      then some (true, start ∷ [])
      else close start (try_each (λ v. has_path n v end) (adjacent start))
