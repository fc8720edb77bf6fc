-- ===== src/PointSet/Aahr/Tests.antt =====
-- Runs of the hyper-rectangles (loop-analysis/point-set-aahr), and the theorems at concrete inputs.
use timeloop.Prelude.{
  ◌≡◌, refl, List, [], ◌∷◌, arith, some, ◌&&◌, ◌||◌, not, length, inr, false, true, Bool, ◌⊎◌,
}
use timeloop.Prelude.Int.{ℤ, pos, negsuc, ◌-ℤ◌, ◌+ℤ◌}
use timeloop.PointSet.Aahr.{
  merge_if_adjacent, merge_ranks, Rank, Aahr, Gradient, subtract, reset, same_rank, no_gradient,
  inside, add, multi_subtract, slices, side_slices, middle_rank, apart, size, size_loop, to_size,
  translate, get_translation,
}
use timeloop.PointSet.Aahr.Difference.{cover, one_if, cover-multi_subtract}
use timeloop.PointSet.Aahr.Remainder.{subtract-OneCut, subtract_covered}
use timeloop.PointSet.Aahr.Merge.{merge_if_adjacent_lem}
use timeloop.PointSet.Aahr.Union.{HasPoints, add-OneAxis}
use timeloop.PointSet.Aahr.Shift.{moved, same_point, get_translation-translate}

abbrev span : ℤ → ℤ → Rank
span a b = record { low = a; high = b }

abbrev square : Aahr
square = record { ranks = span (pos 0) (pos 4) ∷ span (pos 0) (pos 4) ∷ []; gradient = no_gradient }

abbrev beside : Aahr
beside = record { ranks = span (pos 4) (pos 6) ∷ span (pos 0) (pos 4) ∷ []; gradient = no_gradient }

abbrev core : List Rank
core = span (pos 1) (pos 3) ∷ span (negsuc 0) (pos 3) ∷ []

abbrev point : List ℤ
point = pos 2 ∷ pos 3 ∷ []

multi_subtract_runs :
    multi_subtract square.ranks core
    ≡ (span (pos 0) (pos 1) ∷ span (pos 0) (pos 4) ∷ [])
      ∷ (span (pos 3) (pos 4) ∷ span (pos 0) (pos 4) ∷ [])
      ∷ (span (pos 1) (pos 3) ∷ span (pos 3) (pos 4) ∷ [])
      ∷ []
unfolding multi_subtract slices side_slices middle_rank apart
multi_subtract_runs = refl

cover-multi_subtract_example :
    cover point (multi_subtract square.ranks core)
    ≡ one_if (inside square.ranks point && not (inside core point))
cover-multi_subtract_example =
    cover-multi_subtract square.ranks core point refl refl (omega arith, (omega arith, tt))

square_points : HasPoints square.ranks
unfolding size size_loop to_size ◌-ℤ◌
square_points = (16, refl, omega arith)

beside_points : HasPoints beside.ranks
unfolding size size_loop to_size ◌-ℤ◌
beside_points = (8, refl, omega arith)

add-OneAxis_example :
    (c : Aahr) × (add false square beside ≡ some c)
    × ((p : List ℤ)
        → length p ≡ 2
        → inside c.ranks p ≡ (inside square.ranks p || inside beside.ranks p))
add-OneAxis_example =
    add-OneAxis false square beside (omega arith, (omega arith, tt))
      (omega arith, (omega arith, tt)) square_points beside_points
      (inr ((omega arith, omega arith), refl))

get_translation-translate_example :
    (b : Aahr) × (translate square point ≡ some b)
    × (get_translation square b ≡ some point)
    × ((q : List ℤ) → length q ≡ 2 → inside b.ranks (moved q point) ≡ inside square.ranks q)
get_translation-translate_example = get_translation-translate square point refl

abbrev strip : Aahr
strip = record { ranks = span (pos 2) (pos 7) ∷ span (pos 0) (pos 4) ∷ []; gradient = no_gradient }

strip_points : HasPoints strip.ranks
unfolding size size_loop to_size ◌-ℤ◌
strip_points = (20, refl, omega arith)

subtract-OneCut_example :
    (c : Aahr) × (g : Gradient) × (subtract square strip ≡ some (c, g))
    × ((p : List ℤ)
        → length p ≡ 2
        → inside c.ranks p ≡ (inside square.ranks p && not (inside strip.ranks p)))
subtract-OneCut_example =
    subtract-OneCut square strip (omega arith, (omega arith, tt)) (omega arith, (omega arith, tt))
      square_points strip_points (inr (inr (omega arith), refl))

-- It covers the first rank of the square, and half of the second.
abbrev wide : Aahr
wide = record {
  ranks = span (negsuc 0) (pos 4) ∷ span (pos 2) (pos 4) ∷ [];
  gradient = no_gradient;
}

wide_points : HasPoints wide.ranks
unfolding size size_loop to_size ◌-ℤ◌
wide_points = (10, refl, omega arith)

wide_meets : apart square.ranks wide.ranks ≡ false
unfolding apart
wide_meets = refl

wide_differs : same_rank (span (pos 0) (pos 4)) (span (negsuc 0) (pos 4)) ≡ false
unfolding same_rank
wide_differs = refl

-- A point of the square that is not in the other.
corner_left :
    (inside square.ranks (pos 0 ∷ pos 0 ∷ []) && not (inside wide.ranks (pos 0 ∷ pos 0 ∷ [])))
    ≡ true
unfolding inside
corner_left = refl

subtract_covered_example :
    (subtract square wide ≡ some (reset square, no_gradient))
    × ((p : List ℤ) → inside (reset square).ranks p ≡ false)
subtract_covered_example =
    subtract_covered square wide (span (pos 0) (pos 4)) (span (negsuc 0) (pos 4))
      (span (pos 0) (pos 4) ∷ []) (span (pos 2) (pos 4) ∷ []) refl refl refl square_points
      wide_points wide_meets wide_differs (omega arith) (omega arith)

-- A column, and the point on top of it.
abbrev column : Aahr
column = record { ranks = span (pos 3) (pos 4) ∷ span (pos 0) (pos 5) ∷ []; gradient = no_gradient }

column_points : HasPoints column.ranks
unfolding size size_loop to_size ◌-ℤ◌
column_points = (5, refl, omega arith)

merge_runs :
    merge_if_adjacent column (pos 3 ∷ pos 5 ∷ [])
    ≡ some (record column { ranks = span (pos 3) (pos 4) ∷ span (pos 0) (pos 6) ∷ [] }, true)
unfolding merge_if_adjacent merge_ranks size size_loop to_size ◌-ℤ◌ ◌+ℤ◌
merge_runs = refl

merge_if_adjacent_lem_example :
    (c : Aahr) × (merged : Bool) × (merge_if_adjacent column (pos 3 ∷ pos 5 ∷ [])
      ≡ some (c, merged))
    × (((merged ≡ true)
          × ((q : List ℤ)
              → length q ≡ 2
              → inside c.ranks q ≡ (inside column.ranks q || same_point q (pos 3 ∷ pos 5 ∷ []))))
        ⊎ ((merged ≡ false) × (c ≡ column)))
merge_if_adjacent_lem_example =
    merge_if_adjacent_lem column (pos 3 ∷ pos 5 ∷ []) refl (omega arith, (omega arith, tt))
      column_points
