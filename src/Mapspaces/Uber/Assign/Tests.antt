-- ===== src/Mapspaces/Uber/Assign/Tests.antt =====
-- Runs of `AssignIndexFactors` (src/mapspaces/uber.cpp), and the theorems at concrete inputs.
use timeloop.Prelude.{
  ℕ, zero, suc, ◌<◌, ◌≤◌, ◌≡◌, refl, true, Option, some, none, List, [], ◌∷◌, map, All, arith,
  length, ◌>>=◌, get_or, if◌then◌else◌, ◌==◌,
}
use timeloop.Mapping.Loops.{Descriptor, time}
use timeloop.Mapspaces.Uber.Assign.{
  assign_index_factors, assign_levels, assign_level, assign_loop, int_of, residual_of, left_after,
  check_dims, recurrence, curterm, outer_first, backwards,
}
use timeloop.Mapspaces.Uber.Assign.Levels.{of_dim, shape, Sound, Factors}
use timeloop.Mapspaces.Uber.Assign.Sums.{runs}
use timeloop.Mapspaces.Uber.Assign.Nests.{EachOnce, factor_product}
use timeloop.Mapspaces.Uber.Assign.Bounds.{assign_index_factors_lem, assign_index_factors_short}

abbrev loop_of : ℕ → Descriptor
loop_of d = record {
  dimension = d;
  start = 0;
  end = 0;
  residual_end = 0;
  stride = 1;
  spacetime_dimension = time;
}

-- Two levels, in different orders.
abbrev subnests : List (List Descriptor)
subnests = (loop_of 0 ∷ loop_of 1 ∷ []) ∷ (loop_of 1 ∷ loop_of 0 ∷ []) ∷ []

-- Factors 2 and 3 of the first dimension, 2 and 2 of the second.
abbrev factor : ℕ → ℕ → Option ℕ
factor d level = some (if d == 0 then if level == 0 then 2 else 3 else 2)

abbrev ends : Descriptor → ℕ × ℕ × ℕ
ends loop = (loop.dimension, loop.end, loop.residual_end)

-- Five in twos is three, the last of them one: an imperfect factorization.
assign_index_factors_runs :
    (assign_index_factors factor (5 ∷ 4 ∷ []) subnests >>= λ nests. some (map (map ends) nests))
    ≡ some (((0, 2, 1) ∷ (1, 2, 2) ∷ []) ∷ ((1, 2, 2) ∷ (0, 3, 3) ∷ []) ∷ [])
unfolding assign_index_factors assign_levels assign_level assign_loop int_of residual_of left_after
    check_dims recurrence curterm outer_first backwards
assign_index_factors_runs = refl

once : All (EachOnce 2) subnests
once = (((omega arith, (omega arith, tt)), one), (((omega arith, (omega arith, tt)), one'), tt))
  where
    one : (d : ℕ) → d < 2 → length (of_dim d (loop_of 0 ∷ loop_of 1 ∷ [])) ≡ 1
    one zero h = refl
    one (suc zero) h = refl
    one (suc (suc d)) h = absurd (omega arith)

    one' : (d : ℕ) → d < 2 → length (of_dim d (loop_of 1 ∷ loop_of 0 ∷ [])) ≡ 1
    one' zero h = refl
    one' (suc zero) h = refl
    one' (suc (suc d)) h = absurd (omega arith)

two_factors : (level : ℕ) → Factors factor 2 level
two_factors level d h =
    (if d == 0 then if level == 0 then 2 else 3 else 2, refl, ground arith, ground arith)

bounds_positive : (d : ℕ) → d < 2 → 0 < get_or (5 ∷ 4 ∷ []) d 0
bounds_positive zero h = omega arith
bounds_positive (suc zero) h = omega arith
bounds_positive (suc (suc d)) h = absurd (omega arith)

covered : (d : ℕ) → d < 2 → get_or (5 ∷ 4 ∷ []) d 0 ≤ factor_product factor d 0 2
covered zero h = omega arith
covered (suc zero) h = omega arith
covered (suc (suc d)) h = absurd (omega arith)

assign_index_factors_lem_example :
    (assigned : List (List Descriptor)) × (assign_index_factors factor (5 ∷ 4 ∷ []) subnests
      ≡ some assigned)
    × (map (map shape) assigned ≡ map (map shape) subnests)
    × All Sound (outer_first assigned)
    × ((d : ℕ) → d < 2 → runs d (outer_first assigned) true ≡ get_or (5 ∷ 4 ∷ []) d 0)
assign_index_factors_lem_example =
    assign_index_factors_lem factor (5 ∷ 4 ∷ []) subnests once bounds_positive
      (two_factors 0, (two_factors 1, tt)) covered

seven_positive : (d : ℕ) → d < 2 → 0 < get_or (7 ∷ 4 ∷ []) d 0
seven_positive zero h = omega arith
seven_positive (suc zero) h = omega arith
seven_positive (suc (suc d)) h = absurd (omega arith)

assign_index_factors_short_example : assign_index_factors factor (7 ∷ 4 ∷ []) subnests ≡ none
assign_index_factors_short_example =
    assign_index_factors_short factor (7 ∷ 4 ∷ []) subnests 0 once seven_positive
      (two_factors 0, (two_factors 1, tt)) (omega arith) (omega arith)
