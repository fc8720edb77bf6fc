-- ===== src/Mapspaces/Uber/Bypass/Tests.antt =====
-- Runs of the data-type bypass space (src/mapspaces/uber.cpp), and its theorem at a concrete input.
use timeloop.Prelude.{
  ℕ, ◌<◌, ◌^◌, ◌≡◌, refl, Bool, true, false, some, List, [], ◌∷◌, arith, length, ◌>>=◌,
}
use timeloop.Mapspaces.Uber.Bypass.{
  MaskNest, MaskSpec, bypass, evaluate_both, init_bypass, construct_bypass, data_spaces,
  user_levels, other_levels, expand, seed, set_bit, apply_spec,
}
use timeloop.Mapspaces.Uber.Bypass.Choices.{Fitting}
use timeloop.Mapspaces.Uber.Bypass.Masks.{choice}
use timeloop.Mapspaces.Uber.Bypass.Sizes.{init_bypass_lem}

-- Three storage levels and two data spaces: "X0", and nothing.
abbrev strings : List (List MaskSpec)
strings = (evaluate_both ∷ bypass ∷ []) ∷ [] ∷ []

-- The bits of the two data spaces at the three levels.
abbrev bits : MaskNest → List Bool
bits nest = nest 0 0 ∷ nest 0 1 ∷ nest 0 2 ∷ nest 1 0 ∷ nest 1 1 ∷ nest 1 2 ∷ []

init_bypass_runs : (init_bypass 3 strings >>= λ space. some (length space)) ≡ some 8
unfolding init_bypass data_spaces user_levels other_levels expand seed set_bit apply_spec
init_bypass_runs = refl

construct_bypass_runs :
    (init_bypass 3 strings >>= λ space. construct_bypass space 3 >>= λ nest. some (bits nest))
    ≡ some (true ∷ false ∷ true ∷ true ∷ false ∷ true ∷ [])
unfolding init_bypass data_spaces user_levels other_levels expand seed set_bit apply_spec
    construct_bypass
construct_bypass_runs = refl

init_bypass_lem_example :
    (space : List MaskNest) × (init_bypass 3 strings ≡ some space)
    × (length space ≡ 2 ^ 3)
    × ((id : ℕ)
        → id < length space
        → (nest : MaskNest) × (construct_bypass space id ≡ some nest)
          × Fitting (choice 3 strings) nest)
    × ((nest : MaskNest)
        → Fitting (choice 3 strings) nest
        → (id : ℕ) × (id < length space)
          × (construct_bypass space id ≡ some nest)
          × ((other : ℕ) → construct_bypass space other ≡ some nest → other ≡ id))
init_bypass_lem_example =
    init_bypass_lem 3 strings (omega arith) (omega arith)
      ((omega arith, (tt, (tt, tt))), ((omega arith, tt), tt)) (omega arith)
