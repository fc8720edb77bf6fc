-- ===== src/Numeric/Factors/Tests.antt =====
-- Runs of Factors (util/numeric), and the theorems at concrete inputs.
use native.Mathlib.Omega.{arith}
use timeloop.Prelude.{
  ℕ, ◌+◌, ◌*◌, ◌≤◌, ◌<◌, ◌≡◌, refl, some, List, [], ◌∷◌, ◌↔◌, length, product, All, Memᴰ,
}
use timeloop.Numeric.Factors
use timeloop.Numeric.Factors.{
  Factors, isqrt, all_factors, multiplicative_split, init_given, prune_max, prune_min, split_over,
  factor_loop, factor_pair, root_loop, root_step, shrink,
}
use timeloop.Numeric.Factors.Sqrt.{isqrt_lem}
use timeloop.Numeric.Factors.Divisors.{Divides, all_factors_lem}
use timeloop.Numeric.Factors.Split.{IsSplit, init_lem}
use timeloop.Numeric.Factors.Given.{Placed, Perfect, init_given_lem}
use timeloop.Numeric.Factors.Prune.{AtMost, AtLeast, prune_max_lem, prune_min_lem}

isqrt_runs : isqrt 1000000 ≡ 1000
unfolding isqrt root_loop root_step shrink
isqrt_runs = refl

isqrt_lem_example :
    (isqrt 99 * isqrt 99 ≤ 99)
    × (99 < 4294967296 → 99 < (isqrt 99 + 1) * (isqrt 99 + 1))
    × (4294967296 ≤ 99 → isqrt 99 ≡ 65535)
isqrt_lem_example = isqrt_lem 99

all_factors_runs : all_factors 36 ≡ 1 ∷ 36 ∷ 2 ∷ 18 ∷ 3 ∷ 12 ∷ 4 ∷ 9 ∷ 6 ∷ []
unfolding all_factors factor_loop factor_pair isqrt root_loop root_step shrink
all_factors_runs = refl

all_factors_lem_example : Memᴰ 9 (all_factors 36) ↔ Divides 9 36
all_factors_lem_example = all_factors_lem 36 9 (omega arith) (omega arith)

split_runs :
    multiplicative_split (1 ∷ 6 ∷ 2 ∷ 3 ∷ []) 2 6
    ≡ some ((6 ∷ 1 ∷ []) ∷ (1 ∷ 6 ∷ []) ∷ (3 ∷ 2 ∷ []) ∷ (2 ∷ 3 ∷ []) ∷ [])
unfolding multiplicative_split split_over
split_runs = refl

init_lem_example :
    (f : Factors) × (Factors.init 12 3 ≡ some f)
    × ((row : List ℕ) → Memᴰ row f.cofactors ↔ IsSplit 3 12 row)
init_lem_example = init_lem 12 2 (omega arith) (omega arith)

init_given_lem_example :
    (f : Factors) × (init_given 12 3 ((1, 4) ∷ []) ≡ some f)
    × All
        (λ row.
          (length row ≡ 3)
          × Placed ((1, 4) ∷ []) row
          × (12 ≤ product row)
          × (Perfect 12 ((1, 4) ∷ []) → product row ≡ 12))
        f.cofactors
init_given_lem_example =
    init_given_lem 12 3 ((1, 4) ∷ []) (omega arith) (omega arith) (omega arith) (omega arith)
      (omega arith)

abbrev six : Factors
six = record { n = 6; all = 1 ∷ 6 ∷ 2 ∷ 3 ∷ []; cofactors = (6 ∷ 1 ∷ []) ∷ (3 ∷ 2 ∷ []) ∷ [] }

prune_max_lem_example :
    (f : Factors) × (prune_max six ((0, 4) ∷ []) ≡ some f)
    × (f.n ≡ 6)
    × (f.all ≡ 1 ∷ 6 ∷ 2 ∷ 3 ∷ [])
    × ((row : List ℕ) → Memᴰ row f.cofactors ↔ (Memᴰ row six.cofactors × AtMost ((0, 4) ∷ []) row))
prune_max_lem_example = prune_max_lem 2 six ((0, 4) ∷ []) (omega arith) (omega arith)

prune_min_lem_example :
    (f : Factors) × (prune_min six ((1, 2) ∷ []) ≡ some f)
    × (f.n ≡ 6)
    × (f.all ≡ 1 ∷ 6 ∷ 2 ∷ 3 ∷ [])
    × ((row : List ℕ) → Memᴰ row f.cofactors ↔ (Memᴰ row six.cofactors × AtLeast ((1, 2) ∷ []) row))
prune_min_lem_example = prune_min_lem 2 six ((1, 2) ∷ []) (omega arith) (omega arith)
