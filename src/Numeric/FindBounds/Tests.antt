-- ===== src/Numeric/FindBounds/Tests.antt =====
-- Runs of FindBounds (util/numeric), and the theorems at concrete inputs.
use native.Mathlib.Omega.{arith}
use timeloop.Prelude.{◌≡◌, refl, [], ◌∷◌}
use timeloop.Numeric.FindBounds.{
  find_bounds, bounds_from, LowerOf, UpperOf, find_bounds_lem, tagged,
}

find_bounds_runs : find_bounds (2 ∷ 5 ∷ 9 ∷ []) 6 ≡ (tagged 5, tagged 9)
unfolding find_bounds bounds_from
find_bounds_runs = refl

find_bounds_lem_example :
    LowerOf (2 ∷ 5 ∷ 9 ∷ []) 6 (find_bounds (2 ∷ 5 ∷ 9 ∷ []) 6).0
    × UpperOf (2 ∷ 5 ∷ 9 ∷ []) 6 (find_bounds (2 ∷ 5 ∷ 9 ∷ []) 6).1
find_bounds_lem_example = find_bounds_lem (2 ∷ 5 ∷ 9 ∷ []) 6 (omega arith)
