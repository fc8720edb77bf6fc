-- ===== src/Mapspaces/Uber/Pruning.antt =====
-- The set-up of the permutation and the spatial-split space of the Uber mapspace from the constraints,
-- and their reduction to the index factorization that a search has chosen (`InitLoopPermutationSpace`,
-- `InitSpatialSpace` and `InitPruned` of src/mapspaces/uber.cpp). A map from levels is a function.
pub mod Levels
pub mod SplitLevels
pub mod Units
pub mod Reduced
pub mod OneSided
mod Tests
use timeloop.Prelude.{
  ℕ, zero, suc, ◌+◌, Bool, true, false, not, ◌&&◌, Option, some, none, List, [], ◌∷◌, map, ltb,
  ◌==◌, if◌then◌else◌, guard, ◌>>=◌, ◌>>◌, length, get_elem?,
}
use timeloop.Mapspaces.Permutations.{PermutationSpace, init_level_canonical}
use timeloop.Mapspaces.Permutations
use timeloop.Mapspaces.Splits.{SplitSpace, init_level_user_specified}
use timeloop.Mapspaces.Splits
use timeloop.Mapspaces.Uber.Splitting.{global_id}
use timeloop.Mapspaces.Uber.Construct.{Uber, is_split, factor_of, zip}

-- `Permutations` and `SpatialSplits` of the constraints.
pub record Constraints : Type 0 where
  pub user_permutations : ℕ → Option (List ℕ × List ℕ)
  pub user_spatial_splits : ℕ → Option ℕ

-- `empty`
pub is_empty : List ℕ → Bool
is_empty [] = true
is_empty (d ∷ dims) = false

-- `user_prefix` and `user_suffix`
pub user_pattern : Option (List ℕ × List ℕ) → List ℕ × List ℕ
user_pattern none = ([], [])
user_pattern (some pattern) = pattern

-- The pruned dimensions of a level, or none.
pub pruned_at : Option (List ℕ) → List ℕ
pruned_at none = []
pruned_at (some dims) = dims

-- `use_canonical_permutation`
pub use_canonical : Bool → Bool → ℕ → List ℕ × List ℕ → Bool
use_canonical spatial two_d level (prefix, suffix) =
    if spatial then (is_empty prefix && is_empty suffix) && not two_d else level == 0

-- One level of `InitLoopPermutationSpace`.
pub permutation_level :
    Constraints
    → (ℕ → Option (List ℕ))
    → ℕ
    → Bool × Bool
    → PermutationSpace
    → Option PermutationSpace
permutation_level constraints pruned level (spatial, two_d) space =
    let (prefix, suffix) = user_pattern (constraints.user_permutations level) in
    if use_canonical spatial two_d level (prefix, suffix)
    then init_level_canonical level space
    else Permutations.init_level level prefix suffix (pruned_at (pruned level)) space

-- The levels from `level` on, with their entries in the two masks.
pub permutation_levels :
    Constraints
    → (ℕ → Option (List ℕ))
    → ℕ
    → List (Bool × Bool)
    → PermutationSpace
    → Option PermutationSpace
permutation_levels constraints pruned level [] space = some space
permutation_levels constraints pruned level (entry ∷ masks) space = do
  next ← permutation_level constraints pruned level entry space
  permutation_levels constraints pruned (level + 1) masks next

-- `InitLoopPermutationSpace`
pub init_loop_permutation_space :
    Constraints → (ℕ → Option (List ℕ)) → Uber → Option PermutationSpace
init_loop_permutation_space constraints pruned u =
    permutation_levels constraints pruned 0 (zip u.arch.spatial_mask u.arch.two_d_spatial_mask)
      (Permutations.init (length u.bounds) (length u.arch.spatial_mask))

-- The unit factors of a level, or 0.
pub units_at : Option ℕ → ℕ
units_at none = 0
units_at (some units) = units

-- One spatial level of `InitSpatialSpace`, from the user's split and the unit factors.
pub split_level : Option ℕ → ℕ → ℕ → SplitSpace → Option SplitSpace
split_level (some split) units level space = init_level_user_specified level split space
split_level none units level space = Splits.init_level level units space

-- The levels from `level` on, with their entries in the spatial mask.
pub split_levels : Constraints → (ℕ → Option ℕ) → ℕ → List Bool → SplitSpace → Option SplitSpace
split_levels constraints unit_factors level [] space = some space
split_levels constraints unit_factors level (false ∷ mask) space =
    split_levels constraints unit_factors (level + 1) mask space
split_levels constraints unit_factors level (true ∷ mask) space = do
  next ←
      split_level (constraints.user_spatial_splits level) (units_at (unit_factors level)) level
        space
  split_levels constraints unit_factors (level + 1) mask next

-- `InitSpatialSpace`
pub init_spatial_space : Constraints → (ℕ → Option ℕ) → Uber → Option SplitSpace
init_spatial_space constraints unit_factors u =
    split_levels constraints unit_factors 0 u.arch.spatial_mask
      (Splits.init (length u.bounds) (length u.arch.spatial_mask))

-- The dimensions of factor 1 at a level, among the `left` dimensions from `dim` on.
pub unit_dims : (ℕ → Option ℕ) → ℕ → ℕ → Option (List ℕ)
unit_dims factor zero dim = some []
unit_dims factor (suc left) dim = do
  value ← factor dim
  rest ← unit_dims factor left (dim + 1)
  some (if value == 1 then dim ∷ rest else rest)

-- The pruned dimensions of one level, from the user's split.
pub level_dims : Option ℕ → (ℕ → Option ℕ) → ℕ → Option (List ℕ)
level_dims (some split) factor num_dimensions = some []
level_dims none factor num_dimensions = unit_dims factor num_dimensions 0

-- `pruned_dimensions` of the `left` levels from `level` on. The code's `operator[]` makes an entry for
-- every level, an empty one where the user gives the split.
pub pruned_levels : Constraints → (ℕ → ℕ → Option ℕ) → ℕ → ℕ → ℕ → Option (List (List ℕ))
pruned_levels constraints factor num_dimensions zero level = some []
pruned_levels constraints factor num_dimensions (suc left) level = do
  dims ← level_dims (constraints.user_spatial_splits level) (λ dim. factor dim level) num_dimensions
  rest ← pruned_levels constraints factor num_dimensions left (level + 1)
  some (dims ∷ rest)

-- `InitPruned`
pub init_pruned : Constraints → ℕ → Uber → Option Uber
init_pruned constraints index_factorization_id u = do
  guard (not (is_split u))
  factorization_id ← global_id u.part index_factorization_id
  pruned ←
      pruned_levels constraints (factor_of u.factors factorization_id) (length u.bounds)
        (length u.arch.spatial_mask) 0
  permutations ← init_loop_permutation_space constraints (get_elem? pruned) u
  permutation_size ← Permutations.size_of permutations
  splits ← init_spatial_space constraints (get_elem? (map (λ dims. length dims) pruned)) u
  some (record u {
    permutations = permutations;
    permutation_size = permutation_size;
    splits = splits;
    spatial_size = Splits.size_of splits;
  })
