-- ===== src/Mapspaces/Uber/Construct.antt =====
-- `ConstructMapping` of src/mapspaces/uber.cpp: the stages from the subnests to the loop nests of a
-- mapping. The texts of a status are left out.
pub mod Stages
pub mod Directions
pub mod Joins
pub mod Levels
pub mod Whole
pub mod Mappings
pub mod Needs
pub mod Ready
pub mod Rows
pub mod Ids
mod Tests
use timeloop.Prelude.{
  ℕ, zero, suc, ◌+◌, ◌-◌, ◌*◌, ◌%◌, Bool, true, false, not, ◌&&◌, ◌||◌, Option, some, none, List,
  [], ◌∷◌, ◌++◌, map, ltb, ◌==◌, if◌then◌else◌, guard, ◌>>=◌, ◌>>◌, length, get_elem?, set,
}
use timeloop.Prelude.Words.{u64_mod}
use timeloop.Mapping.Loops.{
  Descriptor, SpaceTime, time, space_x, space_y, is_spatial, Nest, empty_nest, make_descriptor,
  add_loop, add_storage_tiling_boundary,
}
use timeloop.Mapping.Arch.{FanOut, ArchProperties}
use timeloop.Mapspaces.Factorizations.{FactorSpace, get_factor}
use timeloop.Mapspaces.Permutations.{PermutationSpace, get_patterns}
use timeloop.Mapspaces.Splits.{SplitSpace, get_splits}
use timeloop.Mapspaces.Uber.Bypass.{MaskNest, construct_bypass}
use timeloop.Mapspaces.Uber.Splitting.{Part, split, global_id}
use timeloop.Mapspaces.Uber.Assign.{assign_index_factors}
use timeloop.Search.{Indices}

-- The state of the mapspace. `storage_map` and `arithmetic_map` are the topology's. Of `size_`, the
-- index factorizations are those of `part`, and the bypasses are the length of their list;
-- `split_parts` is `splits_`.
pub record Uber : Type 0 where
  pub bounds : List ℕ
  pub arch : ArchProperties
  pub storage_map : ℕ → ℕ
  pub arithmetic_map : ℕ
  pub num_levels : ℕ
  pub factors : FactorSpace
  pub permutations : PermutationSpace
  pub splits : SplitSpace
  pub bypasses : List MaskNest
  pub permutation_size : ℕ
  pub spatial_size : ℕ
  pub part : Part
  pub split_parts : List Part
  pub filter_spatial_fanout : Bool

-- `IsSplit`
unfoldable pub is_split : Uber → Bool
is_split u = ltb 0 (length u.split_parts)

-- `Split`: the mapspace with its splits, which are copies of it.
pub split_uber : Uber → ℕ → Option (Uber × List Uber)
split_uber u num_splits = do
  parts ← split u.part.if_size num_splits
  some (record u { split_parts = parts }, map (λ part. record u { part = part }) parts)

-- The nests and the masks of `Mapping`.
pub record Mapping : Type 0 where
  pub loop_nest : Nest
  pub complete_loop_nest : Nest
  pub datatype_bypass_nest : MaskNest

-- The placeholder loops of one level, for the `left` dimensions from `dim` on.
pub init_level_loops : SpaceTime → ℕ → ℕ → List Descriptor
init_level_loops spacetime_dim zero dim = []
init_level_loops spacetime_dim (suc left) dim =
    record {
      dimension = dim;
      start = 0;
      end = 0;
      residual_end = 0;
      stride = 1;
      spacetime_dimension = spacetime_dim;
    }
    ∷ init_level_loops spacetime_dim left (dim + 1)

-- `InitSubnests`, from the spatial mask of the levels.
pub init_subnests : ℕ → List Bool → List (List Descriptor)
init_subnests num_dimensions [] = []
init_subnests num_dimensions (spatial ∷ mask) =
    init_level_loops (if spatial then space_x else time) num_dimensions 0
    ∷ init_subnests num_dimensions mask

-- One level of `PermuteSubnests`: the loop of each dimension of the pattern.
pub permute_level : List ℕ → List Descriptor → Option (List Descriptor)
permute_level [] subnest = some []
permute_level (target_dim ∷ dims) subnest = do
  loop ← get_elem? subnest target_dim
  guard (loop.dimension == target_dim)
  rest ← permute_level dims subnest
  some (loop ∷ rest)

-- `PermuteSubnests`, from the patterns of the levels.
pub permute_subnests : List (List ℕ) → List (List Descriptor) → Option (List (List Descriptor))
permute_subnests [] [] = some []
permute_subnests [] (subnest ∷ subnests) = none
permute_subnests (dims ∷ patterns) [] = none
permute_subnests (dims ∷ patterns) (subnest ∷ subnests) = do
  guard (length dims == length subnest)
  reordered ← permute_level dims subnest
  rest ← permute_subnests patterns subnests
  some (reordered ∷ rest)

-- The loop of `AssignSpatialTilingDirections_Level_Expand` over the loops from the `i`-th on, with the
-- two expansions, which are of 64 bits.
pub expand_loops : ℕ → ℕ → List Descriptor → ℕ → ℕ → Option (List Descriptor × ℕ × ℕ)
expand_loops split i [] x y = some ([], x, y)
expand_loops split i (loop ∷ loops) x y = do
  guard (is_spatial loop.spacetime_dimension)
  guard (loop.stride == 1)
  let first : Bool = ltb i split
  let size : ℕ = loop.end - loop.start
  (rest, x', y') ←
      expand_loops split (i + 1) loops (if first then x * size % u64_mod else x)
        (if first then y else y * size % u64_mod)
  some (record loop { spacetime_dimension = if first then space_x else space_y } ∷ rest, x', y')

-- `status.success` of `AssignSpatialTilingDirections_Level_Expand`.
pub fits_fanout : Bool → FanOut → ℕ → ℕ → Bool
fits_fanout filter hardware x y =
    not (filter && ltb hardware.fanout_x x) && not (filter && ltb hardware.fanout_y y)

-- `spatial_splits.at(level)`
pub find_split : ℕ → List (ℕ × ℕ) → Option ℕ
find_split level [] = none
find_split level ((l, split) ∷ splits) =
    let rest : Option ℕ = find_split level splits in if l == level then some split else rest

-- The merge of a status at a level of the topology: a failure stays.
pub merge_status : ℕ → Bool → List Bool → Option (List Bool)
merge_status level success statuses = do
  before ← get_elem? statuses level
  some (set statuses level (before && success))

-- The levels from `level` on of `AssignSpatialTilingDirections`: the subnests, the statuses, and the
-- expansions with the fan-out, from which the utilization is computed.
pub assign_directions :
    Uber
    → Bool
    → List (ℕ × ℕ)
    → ℕ
    → List (Bool × ℕ)
    → List (List Descriptor)
    → List Bool
    → Option (List (List Descriptor) × List Bool × List (ℕ × ℕ × FanOut))
assign_directions u break_on_failure splits level [] subnests statuses =
    some (subnests, statuses, [])
assign_directions u break_on_failure splits level (entry ∷ mask) [] statuses = none
assign_directions u break_on_failure splits level ((false, storage) ∷ mask) (subnest ∷ subnests)
      statuses =
    do
      (rest, statuses', used) ←
          assign_directions u break_on_failure splits (level + 1) mask subnests statuses
      some (subnest ∷ rest, statuses', used)
assign_directions u break_on_failure splits level ((true, storage) ∷ mask) (subnest ∷ subnests)
      statuses =
    do
      split ← find_split level splits
      hardware ← get_elem? u.arch.fanouts storage
      (expanded, x, y) ← expand_loops split 0 subnest 1 1
      let success : Bool = fits_fanout u.filter_spatial_fanout hardware x y
      merged ← merge_status (u.storage_map storage) success statuses
      (rest, statuses', used) ←
          assign_directions u break_on_failure splits (level + 1)
            (if break_on_failure && not success then [] else mask) subnests merged
      some (expanded ∷ rest, statuses', (x, y, hardware) ∷ used)

abbrev all_true : ℕ → List Bool
all_true zero = []
all_true (suc n) = true ∷ all_true n

-- The `accumulate` over the statuses.
pub all_succeed : List Bool → Bool
all_succeed [] = true
all_succeed (success ∷ statuses) = success && all_succeed statuses

-- The loops of one level, for the concatenation: those that do not run once only, and their number.
pub add_loops : List Descriptor → Nest → Nest → ℕ → Nest × Nest × ℕ
add_loops [] nest complete added = (nest, complete, added)
add_loops (loop ∷ loops) nest complete added =
    let big : Bool = ltb (loop.start + loop.stride) loop.end in
    add_loops loops (if big then add_loop loop nest else nest) (add_loop loop complete)
      (if big then added + 1 else added)

-- The end of a temporal level: a trivial loop where the level added none, and the boundaries.
pub close_level : ℕ → Nest → Nest → ℕ → Option (Nest × Nest)
close_level num_dimensions nest complete added = do
  trivial ← make_descriptor (num_dimensions - 1) 0 1 1 time 0
  (_, bounded) ← add_storage_tiling_boundary (if added == 0 then add_loop trivial nest else nest)
  (_, complete_bounded) ← add_storage_tiling_boundary complete
  some (bounded, complete_bounded)

-- The concatenation of the subnests of the levels left.
pub concatenate : ℕ → List Bool → List (List Descriptor) → Nest → Nest → Option (Nest × Nest)
concatenate num_dimensions [] subnests nest complete = some (nest, complete)
concatenate num_dimensions (spatial ∷ mask) [] nest complete = none
concatenate num_dimensions (true ∷ mask) (subnest ∷ subnests) nest complete =
    let (nest', complete', added) = add_loops subnest nest complete 0 in
    concatenate num_dimensions mask subnests nest' complete'
concatenate num_dimensions (false ∷ mask) (subnest ∷ subnests) nest complete = do
  let (nest', complete', added) = add_loops subnest nest complete 0
  (bounded, complete_bounded) ← close_level num_dimensions nest' complete' added
  concatenate num_dimensions mask subnests bounded complete_bounded

-- The mapping from its subnests.
pub join_subnests : ℕ → List Bool → List (List Descriptor) → MaskNest → Option Mapping
join_subnests num_dimensions mask subnests bypass_nest = do
  (nest, complete) ← concatenate num_dimensions mask subnests empty_nest empty_nest
  some (record {
    loop_nest = nest;
    complete_loop_nest = complete;
    datatype_bypass_nest = bypass_nest;
  })

abbrev pub zip : {A B : Type 0} → List A → List B → List (A × B)
zip [] ys = []
zip (x ∷ xs) [] = []
zip (x ∷ xs) (y ∷ ys) = (x, y) ∷ zip xs ys

-- `GetFactor` as a function: a call sets the counter of the subspace before it reads it.
pub factor_of : FactorSpace → ℕ → ℕ → ℕ → Option ℕ
factor_of space id dim level = do (factor, _) ← get_factor space id dim level; some factor

-- Whether the utilization, a product of `double`s, is below the least parallelism that the
-- constraints ask for, from the expansions and fan-outs of the spatial levels.
module _ (parallelism_low : List (ℕ × ℕ × FanOut) → Bool) where
  -- `AssignSpatialTilingDirections`
  pub assign_spatial_tiling_directions :
      Uber → Bool → ℕ → List (List Descriptor) → Option (List (List Descriptor) × List Bool)
  assign_spatial_tiling_directions u break_on_failure spatial_id subnests = do
    splits ← get_splits u.splits spatial_id
    (directed, statuses, used) ←
        assign_directions u break_on_failure splits 0
          (zip u.arch.spatial_mask u.arch.tiling_to_storage) subnests (all_true u.num_levels)
    merged ←
        if parallelism_low used then merge_status u.arithmetic_map false statuses else some statuses
    some (directed, merged)

  -- `ConstructMapping`: the statuses, and the mapping unless it gives up.
  pub construct_mapping : Uber → Bool → Indices → Option (List Bool × Option Mapping)
  construct_mapping u break_on_failure mapping_id = do
    guard (not (is_split u))
    factorization_id ← global_id u.part mapping_id.factors
    let n : ℕ = length u.bounds
    patterns ← get_patterns u.permutations mapping_id.permutation
    permuted ← permute_subnests patterns (init_subnests n u.arch.spatial_mask)
    assigned ← assign_index_factors (factor_of u.factors factorization_id) u.bounds permuted
    bypass_nest ← construct_bypass u.bypasses mapping_id.bypass
    (directed, statuses) ←
        assign_spatial_tiling_directions u break_on_failure mapping_id.split assigned
    if break_on_failure && not (all_succeed statuses)
        then some (statuses, none)
        else (join_subnests n u.arch.spatial_mask directed bypass_nest >>= λ mapping.
            some (statuses, some mapping))
