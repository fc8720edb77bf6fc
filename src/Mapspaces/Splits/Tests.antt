-- ===== src/Mapspaces/Splits/Tests.antt =====
-- Runs of SpatialSplitSpace (src/mapspaces/subspaces.cpp), and the theorems at concrete inputs.
use timeloop.Prelude.{
  ℕ, ◌<◌, ◌≡◌, refl, ◌==◌, List, [], ◌∷◌, Option, some, none, arith, if◌then◌else◌,
}
use timeloop.Mapspaces.Splits.{
  Level, user_specified, variable, SplitSpace, get_splits, size_of, splits_loop, split_at,
}
use timeloop.Mapspaces.Splits.Ids.{Chosen, get_splits_lem}

-- Three levels of a problem with two dimensions: free, not spatial, and the user's.
abbrev three : SplitSpace
three = record {
  num_dimensions = 2;
  num_levels = 3;
  levels =
      λ l. if l == 0 then some (variable 1 2) else if l == 2 then some (user_specified 7) else none;
}

abbrev entries : List (Option Level)
entries = some (variable 1 2) ∷ none ∷ some (user_specified 7) ∷ []

get_splits_runs : get_splits three 1 ≡ some ((0, 2) ∷ (2, 7) ∷ [])
unfolding get_splits splits_loop split_at
get_splits_runs = refl

get_splits_lem_example :
    (size_of three ≡ 2)
    × ((id : ℕ)
        → id < 2
        → (xs : List (ℕ × ℕ)) × (get_splits three id ≡ some xs) × Chosen 0 entries xs)
    × ((xs : List (ℕ × ℕ))
        → Chosen 0 entries xs
        → (id : ℕ) × (id < 2) × (get_splits three id ≡ some xs))
get_splits_lem_example =
    get_splits_lem three entries refl (refl, (omega arith, omega arith), (refl, (refl, tt, tt)))
      (omega arith)
