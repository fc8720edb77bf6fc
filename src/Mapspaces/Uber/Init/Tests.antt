-- ===== src/Mapspaces/Uber/Init/Tests.antt =====
-- Runs of the set-up of the Uber mapspace (src/mapspaces/uber.cpp), and its theorem at concrete
-- constraints.
use timeloop.Prelude.{
  ℕ, zero, suc, ◌<◌, ◌≤◌, ◌≡◌, refl, some, none, List, [], ◌∷◌, arith, false, if◌then◌else◌, ◌==◌,
}
use timeloop.Mapspaces.Factorizations.{Request}
use timeloop.Mapspaces.Factorizations
use timeloop.Mapspaces.Uber.Init.{
  remaining, exactly, FactorConstraints, find_factor, prefactors_from, prefactor_step, limits_from,
  limit_step, entry_of, request_of, init_index_factorization_space,
}
use timeloop.Mapspaces.Uber.Init.Handover.{
  Handovers, init_index_factorization_space_lem, open_levels,
}

-- Three levels and two dimensions: the first has the factor 2 at level 0, is open at level 1 and has
-- at most 4 at level 2; the second is free.
abbrev given : FactorConstraints
given = record {
  user_factors =
      (0, λ dim. if dim == 0 then some (exactly 2) else none)
      ∷ (1, λ dim. if dim == 0 then some remaining else none)
      ∷ [];
  user_max_factors = λ level dim. if dim == 0 then if level == 2 then some 4 else none else none;
  user_min_factors = λ level dim. none;
}

request_of_runs :
    request_of given 3 24 0
    ≡ some (record {
      bound = 24;
      order = 3;
      prefactors = some ((0, 2) ∷ []);
      maxfactors = some ((2, 4) ∷ []);
      minfactors = none;
    })
unfolding request_of find_factor prefactors_from prefactor_step limits_from limit_step entry_of
request_of_runs = refl

-- A second open level fails the assertion.
twice_open : prefactors_from (λ level. some remaining) 2 0 false ≡ none
unfolding prefactors_from prefactor_step
twice_open = refl

given_open : (d : ℕ) → d < 2 → open_levels given 3 d ≤ 1
unfolding find_factor
given_open zero h = omega arith
given_open (suc zero) h = omega arith
given_open (suc (suc d)) h = absurd (omega arith)

init_index_factorization_space_lem_example :
    (qs : List Request) × (init_index_factorization_space given 3 (24 ∷ 5 ∷ [])
      ≡ Factorizations.init qs)
    × Handovers given 3 (24 ∷ 5 ∷ []) 0 qs
init_index_factorization_space_lem_example =
    (init_index_factorization_space_lem given 3 (24 ∷ 5 ∷ [])).0 (omega arith) given_open
