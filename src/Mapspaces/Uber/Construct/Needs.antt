-- ===== src/Mapspaces/Uber/Construct/Needs.antt =====
-- What the stages of `ConstructMapping` find in the subspaces, and their join
-- (src/mapspaces/uber.cpp).
use timeloop.Prelude.{
  ℕ, zero, suc, ◌+◌, ◌<◌, ◌≤◌, ◌≡◌, refl, ap, ◌∙◌, Bool, true, false, some, List, [], ◌∷◌, map,
  length, get_or, All, arith,
}
use timeloop.Mapping.Loops.{Descriptor, Nest, empty_nest}
use timeloop.Search.{Indices}
use timeloop.Mapspaces.Permutations.{get_patterns}
use timeloop.Mapspaces.Splits.{get_splits}
use timeloop.Mapspaces.Uber.Bypass.{MaskNest, construct_bypass}
use timeloop.Mapspaces.Uber.Splitting.{global_id}
use timeloop.Mapspaces.Uber.Assign.{backwards, outer_first}
use timeloop.Mapspaces.Uber.Assign.Sums.{runs}
use timeloop.Mapspaces.Uber.Assign.Nests.{factor_product, AllFactors}
use timeloop.Mapspaces.Uber.Construct.{
  Uber, is_split, Mapping, join_subnests, zip, factor_of, all_true,
}
use timeloop.Mapspaces.Uber.Construct.Stages.{IsOrder}
use timeloop.Mapspaces.Uber.Construct.Directions.{extent, Supported, mask_of}
use timeloop.Mapspaces.Uber.Construct.Joins.{Plain}
use timeloop.Mapspaces.Uber.Construct.Levels.{Bounded}
use timeloop.Mapspaces.Uber.Construct.Whole.{
  flat, temporal_count, concatenate_lem, backwards-flat, runs_directed,
}

-- What the subspaces hold for an id: an index factorization with factors that reach the bounds, an
-- order of the dimensions for each level, a split for each spatial level, and a mask nest.
pub record Ready (u : Uber) (mapping_id : Indices) : Type 0 where
  pub unsplit : is_split u ≡ false
  pub some_dimension : 0 < length u.bounds
  pub bounds_positive : (d : ℕ) → d < length u.bounds → 0 < get_or u.bounds d 0
  pub masks : length u.arch.spatial_mask ≡ length u.arch.tiling_to_storage
  pub factorization_id : ℕ
  pub global : global_id u.part mapping_id.factors ≡ some factorization_id
  pub factors :
      AllFactors
        (factor_of u.factors factorization_id)
        (length u.bounds)
        0
        (length u.arch.spatial_mask)
  pub reach :
      (d : ℕ)
      → d < length u.bounds
      → get_or u.bounds d 0
        ≤ factor_product (factor_of u.factors factorization_id) d 0 (length u.arch.spatial_mask)
  pub patterns : List (List ℕ)
  pub found_patterns : get_patterns u.permutations mapping_id.permutation ≡ some patterns
  pub patterns_length : length u.arch.spatial_mask ≡ length patterns
  pub orders : All (IsOrder (length u.bounds)) patterns
  pub splits : List (ℕ × ℕ)
  pub found_splits : get_splits u.splits mapping_id.split ≡ some splits
  pub supported : Supported u splits 0 (zip u.arch.spatial_mask u.arch.tiling_to_storage)
  pub arithmetic : u.arithmetic_map < u.num_levels
  pub bypass_nest : MaskNest
  pub found_bypass : construct_bypass u.bypasses mapping_id.bypass ≡ some bypass_nest

-- A nest that runs as often as the bounds say, with a boundary for each temporal level.
pub record Implements (u : Uber) (nest : Nest) : Type 0 where
  pub counts :
      (d : ℕ) → d < length u.bounds → runs d (backwards nest.loops) true ≡ get_or u.bounds d 0
  pub boundaries : length nest.storage_tiling_boundaries ≡ temporal_count u.arch.spatial_mask
  pub bounded : Bounded nest

pub mask_of-zip :
    (mask : List Bool) (storage : List ℕ)
    → length mask ≡ length storage
    → mask_of (zip mask storage) ≡ mask
mask_of-zip [] storage h = refl
mask_of-zip (spatial ∷ mask) [] h = absurd (omega arith)
mask_of-zip (spatial ∷ mask) (s ∷ storage) h =
    ap (λ m. spatial ∷ m) (mask_of-zip mask storage (omega arith))

pub length-all_true : (n : ℕ) → length (all_true n) ≡ n
length-all_true zero = refl
length-all_true (suc n) = ap suc (length-all_true n)

pub join_lem :
    (u : Uber) (bypass_nest : MaskNest) (assigned directed : List (List Descriptor))
    → length u.arch.spatial_mask ≡ length directed
    → All (All Plain) directed
    → All (λ xs. 0 < length xs) directed
    → map (map extent) directed ≡ map (map extent) assigned
    → ((d : ℕ) → d < length u.bounds → runs d (outer_first assigned) true ≡ get_or u.bounds d 0)
    → (m : Mapping) × (join_subnests (length u.bounds) u.arch.spatial_mask directed bypass_nest
        ≡ some m)
      × Implements u m.loop_nest
      × Implements u m.complete_loop_nest
      × (m.datatype_bypass_nest ≡ bypass_nest)
unfolding join_subnests empty_nest
join_lem u bypass_nest assigned directed len plain full kept counts =
    let (nest, complete, run, joined) =
      concatenate_lem (length u.bounds) u.arch.spatial_mask directed empty_nest empty_nest [] 0 len
        plain full
        (record {
          alike = λ d last. refl;
          whole = refl;
          bounded = tt;
          complete_bounded = tt;
          temporal = refl;
          complete_temporal = refl;
        }) in
    let temporal : 0 + temporal_count u.arch.spatial_mask ≡ temporal_count u.arch.spatial_mask =
      omega arith in
    (
      record {
        loop_nest = nest;
        complete_loop_nest = complete;
        datatype_bypass_nest = bypass_nest;
      },
      rw run refl,
      record {
        counts = λ d low. joined.alike d true ∙ complete_counts complete joined.whole d low;
        boundaries = joined.temporal ∙ temporal;
        bounded = joined.bounded;
      },
      record {
        counts = λ d low. complete_counts complete joined.whole d low;
        boundaries = joined.complete_temporal ∙ temporal;
        bounded = joined.complete_bounded;
      },
      refl,
    )
  where
    complete_counts :
        (complete : Nest)
        → complete.loops ≡ flat directed
        → (d : ℕ) → d < length u.bounds
        → runs d (backwards complete.loops) true ≡ get_or u.bounds d 0
    complete_counts complete whole d low =
        ap (λ xs. runs d xs true) (ap backwards whole ∙ backwards-flat directed)
        ∙ runs_directed d directed assigned kept
        ∙ counts d low
