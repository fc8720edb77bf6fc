-- ===== src/Mapspaces/Permutations/Tests.antt =====
-- Runs of PermutationSpace (src/mapspaces/subspaces.cpp), and the theorems at concrete inputs.
use timeloop.Prelude.{ℕ, ◌<◌, ◌≡◌, refl, false, List, [], ◌∷◌, some, none, length, ◌==◌, arith}
use timeloop.Numeric.Factoradic.Orders.{count, fact}
use timeloop.Mapspaces.Permutations.{
  Pattern, PermutationSpace, init, init_level, get_patterns, size_of, assign,
}
use timeloop.Mapspaces.Permutations.Ids.{Chosen, with_infixes, get_patterns_lem}
use timeloop.Mapspaces.Permutations.Levels.{all_of, init_level_lem}

-- Two levels over four dimensions.
abbrev lower : Pattern
lower = record { baked_prefix = 2 ∷ []; permutable_infix = 0 ∷ 1 ∷ 3 ∷ []; baked_suffix = [] }

abbrev upper : Pattern
upper = record { baked_prefix = []; permutable_infix = 1 ∷ 2 ∷ []; baked_suffix = 3 ∷ 0 ∷ [] }

abbrev both_levels : PermutationSpace
both_levels = record {
  num_dimensions = 4;
  num_levels = 2;
  patterns = assign 1 upper (assign 0 lower (λ l. none));
  size = assign 1 2 (assign 0 6 (λ l. none));
}

get_patterns_lem_example :
    (size_of both_levels ≡ some 12)
    × ((id : ℕ)
        → id < 12
        → (zss : List (List ℕ)) × (get_patterns both_levels id
            ≡ some (with_infixes (lower ∷ upper ∷ []) zss))
          × Chosen (lower ∷ upper ∷ []) zss)
    × ((zss : List (List ℕ))
        → Chosen (lower ∷ upper ∷ []) zss
        → (id : ℕ) × (id < 12)
          × (get_patterns both_levels id ≡ some (with_infixes (lower ∷ upper ∷ []) zss)))
get_patterns_lem_example =
    get_patterns_lem both_levels (lower ∷ upper ∷ []) refl
      (refl, refl, omega arith, (refl, refl, omega arith, tt)) (omega arith)

init_level_lem_example :
    (s' : PermutationSpace) × (p : Pattern) × (init_level 0
        (1 ∷ 2 ∷ [])
        (0 ∷ [])
        (2 ∷ [])
        (init 4 2)
      ≡ some s')
    × (s'.patterns 0 ≡ some p)
    × (s'.size 0 ≡ some (fact (length p.permutable_infix)))
    × (p.baked_prefix ≡ 2 ∷ 1 ∷ [])
    × (p.baked_suffix ≡ 0 ∷ [])
    × ((d : ℕ) → d < 4 → count d (all_of p) ≡ 1)
    × ((l : ℕ) → (l == 0) ≡ false → (s'.patterns l ≡ none) × (s'.size l ≡ none))
unfolding init
init_level_lem_example =
    init_level_lem 0 (1 ∷ 2 ∷ []) (0 ∷ []) (2 ∷ []) (init 4 2) (omega arith) (omega arith)
      (omega arith, (omega arith, (omega arith, tt))) (λ d. ground arith)
