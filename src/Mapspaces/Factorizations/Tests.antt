-- ===== src/Mapspaces/Factorizations/Tests.antt =====
-- IndexFactorizationSpace (src/mapspaces/subspaces.cpp) at a concrete space.
use timeloop.Prelude.{ℕ, ◌<◌, ◌≡◌, refl, List, [], ◌∷◌, some, get_elem?, arith}
use timeloop.Numeric.Counter.{Counter}
use timeloop.Numeric.Factors.{Factors}
use timeloop.Mapspaces.Factorizations.{FactorSpace, get_factor, size_of}
use timeloop.Mapspaces.Factorizations.Rows.{Ready, Picks, get_factor_lem}

-- Two dimensions, of bounds 6 and 2, over two levels.
abbrev six : Factors
six = record {
  n = 6;
  all = 1 ∷ 6 ∷ 2 ∷ 3 ∷ [];
  cofactors = (6 ∷ 1 ∷ []) ∷ (1 ∷ 6 ∷ []) ∷ (3 ∷ 2 ∷ []) ∷ (2 ∷ 3 ∷ []) ∷ [];
}

abbrev two : Factors
two = record { n = 2; all = 1 ∷ 2 ∷ []; cofactors = (2 ∷ 1 ∷ []) ∷ (1 ∷ 2 ∷ []) ∷ [] }

abbrev plane : FactorSpace
plane = record {
  dimension_factors = six ∷ two ∷ [];
  tiling_counter = record {
    order = 2;
    base = 4 ∷ 2 ∷ [];
    value = 0 ∷ 0 ∷ [];
    integer = 0;
    endint = 8;
  };
}

plane-Ready : Ready plane
plane-Ready = record {
  counter = record {
    sized = refl;
    range = omega arith;
    agree = refl;
    end = refl;
    fits = omega arith;
  };
  base = refl;
  some_dimension = λ e. omega arith;
  small = (omega arith, (omega arith, tt));
}

get_factor_lem_example :
    ((id : ℕ)
      → id < size_of plane
      → (rows : List (List ℕ)) × Picks (six ∷ two ∷ []) rows
        × ((dim level : ℕ) (row : List ℕ) (factor : ℕ)
            → get_elem? rows dim ≡ some row
            → get_elem? row level ≡ some factor
            → (c : Counter) × (get_factor plane id dim level
                ≡ some (factor, record plane { tiling_counter = c }))))
    × ((rows : List (List ℕ))
        → Picks (six ∷ two ∷ []) rows
        → (id : ℕ) × (id < size_of plane)
          × ((dim level : ℕ) (row : List ℕ) (factor : ℕ)
              → get_elem? rows dim ≡ some row
              → get_elem? row level ≡ some factor
              → (c : Counter) × (get_factor plane id dim level
                  ≡ some (factor, record plane { tiling_counter = c }))))
get_factor_lem_example = get_factor_lem plane plane-Ready
