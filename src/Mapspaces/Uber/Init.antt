-- ===== src/Mapspaces/Uber/Init.antt =====
-- `InitIndexFactorizationSpace` and `Init` of src/mapspaces/uber.cpp. The constraints' maps from levels
-- and dimensions are functions.
pub mod Requests
pub mod Handover
mod Tests
use timeloop.Prelude.{
  ℕ, zero, suc, ◌+◌, Bool, true, false, not, Option, some, none, List, [], ◌∷◌, if◌then◌else◌,
  guard, ◌>>=◌, ◌>>◌, length, leb, ◌==◌,
}
use timeloop.Mapping.Arch.{ArchProperties}
use timeloop.Mapspaces.Factorizations.{Request, FactorSpace}
use timeloop.Mapspaces.Factorizations
use timeloop.Mapspaces.Permutations
use timeloop.Mapspaces.Splits
use timeloop.Mapspaces.Uber.Bypass.{MaskSpec, init_bypass}
use timeloop.Mapspaces.Uber.Splitting.{Part, check_sizes}
use timeloop.Mapspaces.Uber.Construct.{Uber}
use timeloop.Mapspaces.Uber.Pruning.{Constraints, init_loop_permutation_space, init_spatial_space}

-- A factor of the user's: -1, which leaves the level what remains of the dimension, or a number that is
-- not negative.
pub data UserFactor : Type 0 where
  remaining : UserFactor
  exactly : ℕ → UserFactor

-- `Factors`, `MaxFactors` and `MinFactors` of the constraints. The first is the list of the levels in
-- it, each with its factors by dimension; the other two are functions of the level and the dimension.
pub record FactorConstraints : Type 0 where
  pub user_factors : List (ℕ × (ℕ → Option UserFactor))
  pub user_max_factors : ℕ → ℕ → Option ℕ
  pub user_min_factors : ℕ → ℕ → Option ℕ

-- `user_factors.find(level)`, with the dimension looked up in it.
pub find_factor : List (ℕ × (ℕ → Option UserFactor)) → ℕ → ℕ → Option UserFactor
find_factor [] level dim = none
find_factor ((l, factors) ∷ rest) level dim =
    let later : Option UserFactor = find_factor rest level dim in
    if l == level then factors dim else later

abbrev pub user_factor : FactorConstraints → ℕ → ℕ → Option UserFactor
user_factor c level dim = find_factor c.user_factors level dim

-- One level of `prefactors` at a dimension: the entries behind it are those of the later levels.
pub prefactor_step :
    Option UserFactor → ℕ → Bool → (Bool → Option (List (ℕ × ℕ))) → Option (List (ℕ × ℕ))
prefactor_step none level exhausted later = later exhausted
prefactor_step (some (exactly end)) level exhausted later = do
  rest ← later exhausted
  some ((level, end) ∷ rest)
prefactor_step (some remaining) level exhausted later = guard (not exhausted) >> later true

-- `prefactors` at a dimension, from its factors at the `left` levels from `level` on.
pub prefactors_from : (ℕ → Option UserFactor) → ℕ → ℕ → Bool → Option (List (ℕ × ℕ))
prefactors_from user zero level exhausted = some []
prefactors_from user (suc left) level exhausted =
    prefactor_step (user level) level exhausted (prefactors_from user left (level + 1))

-- `maxfactors` and `minfactors` at a dimension.
pub limit_step : Option ℕ → ℕ → List (ℕ × ℕ) → List (ℕ × ℕ)
limit_step none level rest = rest
limit_step (some bound) level rest = (level, bound) ∷ rest

pub limits_from : (ℕ → Option ℕ) → ℕ → ℕ → List (ℕ × ℕ)
limits_from user zero level = []
limits_from user (suc left) level =
    limit_step (user level) level (limits_from user left (level + 1))

-- A map has an entry for a dimension where something was written to it.
pub entry_of : List (ℕ × ℕ) → Option (List (ℕ × ℕ))
entry_of [] = none
entry_of (x ∷ xs) = some (x ∷ xs)

-- What `InitIndexFactorizationSpace` hands over for one dimension.
pub request_of : FactorConstraints → ℕ → ℕ → ℕ → Option Request
request_of c levels bound dim = do
  given ← prefactors_from (λ level. user_factor c level dim) levels 0 false
  some (record {
    bound = bound;
    order = levels;
    prefactors = entry_of given;
    maxfactors = entry_of (limits_from (λ level. c.user_max_factors level dim) levels 0);
    minfactors = entry_of (limits_from (λ level. c.user_min_factors level dim) levels 0);
  })

-- The dimensions from `dim` on, with their bounds.
pub requests_from : FactorConstraints → ℕ → List ℕ → ℕ → Option (List Request)
requests_from c levels [] dim = some []
requests_from c levels (bound ∷ bounds) dim = do
  q ← request_of c levels bound dim
  rest ← requests_from c levels bounds (dim + 1)
  some (q ∷ rest)

-- `InitIndexFactorizationSpace`
pub init_index_factorization_space : FactorConstraints → ℕ → List ℕ → Option FactorSpace
init_index_factorization_space c levels bounds = do
  guard (leb (length c.user_factors) levels)
  requests ← requests_from c levels bounds 0
  Factorizations.init requests

-- The constructor and `Init`, with the constraints, the workload and the architecture that they read;
-- `none` is also the exit on overflow. `storage_map`, `arithmetic_map` and `num_levels` are the
-- topology's.
pub init_uber :
    FactorConstraints
    → Constraints
    → List (List MaskSpec)
    → List ℕ
    → ArchProperties
    → (ℕ → ℕ)
    → ℕ
    → ℕ
    → Bool
    → Option Uber
init_uber factor_constraints constraints strings bounds arch storage_map arithmetic_map num_levels
      filter =
    do
      let levels : ℕ = length arch.spatial_mask
      factors ← init_index_factorization_space factor_constraints levels bounds
      let blank : Uber = record {
        bounds = bounds;
        arch = arch;
        storage_map = storage_map;
        arithmetic_map = arithmetic_map;
        num_levels = num_levels;
        factors = factors;
        permutations = Permutations.init (length bounds) levels;
        splits = Splits.init (length bounds) levels;
        bypasses = [];
        permutation_size = 0;
        spatial_size = 0;
        split_parts = [];
        part = record {
          split_id = 0;
          if_size = Factorizations.size_of factors;
          num_parent_splits = 0;
        };
        filter_spatial_fanout = filter;
      }
      permutations ← init_loop_permutation_space constraints (λ level. none) blank
      permutation_size ← Permutations.size_of permutations
      splits ← init_spatial_space constraints (λ level. none) blank
      bypasses ← init_bypass (length arch.fanouts) strings
      fits ← check_sizes (
          Factorizations.size_of factors
          ∷ permutation_size
          ∷ Splits.size_of splits
          ∷ length bypasses
          ∷ [])
      guard fits
      some (record blank {
        permutations = permutations;
        permutation_size = permutation_size;
        splits = splits;
        spatial_size = Splits.size_of splits;
        bypasses = bypasses;
      })
