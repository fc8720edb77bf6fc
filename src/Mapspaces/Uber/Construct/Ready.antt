-- ===== src/Mapspaces/Uber/Construct/Ready.antt =====
-- `ConstructMapping` (src/mapspaces/uber.cpp) from what the stages find in the subspaces.
use timeloop.Prelude.{
  ℕ, ◌<◌, ◌≤◌, ◌≡◌, refl, sym, ◌∙◌, subst, inl, inr, Bool, true, false, not, ◌&&◌, Option, some,
  none, List, map, length, get_or, arith, Bool-cases,
}
use timeloop.Mapping.Loops.{Descriptor}
use timeloop.Mapping.Arch.{FanOut}
use timeloop.Search.{Indices}
use timeloop.Mapspaces.Splits.{get_splits}
use timeloop.Mapspaces.Uber.Bypass.{MaskNest}
use timeloop.Mapspaces.Uber.Assign.Levels.{shape}
use timeloop.Mapspaces.Uber.Assign.Nests.{factor_product, AllFactors}
use timeloop.Mapspaces.Uber.Assign.Bounds.{assign_index_factors_lem}
use timeloop.Mapspaces.Uber.Construct.{
  Uber, Mapping, zip, factor_of, all_succeed, all_true, assign_spatial_tiling_directions,
  construct_mapping, init_subnests, permute_subnests,
}
use timeloop.Mapspaces.Uber.Construct.Stages.{blanks, permute_subnests_lem, blanks-EachOnce}
use timeloop.Mapspaces.Uber.Construct.Directions.{
  extent, FacingNests, shapes-FacingNests, Supported, assign_directions_lem, merge_status_lem,
}
use timeloop.Mapspaces.Uber.Construct.Mappings.{
  settled_all, Plain-extents, filled, nests-length, blanks_filled, blanks-length,
}
use timeloop.Mapspaces.Uber.Construct.Needs.{
  Ready, Implements, mask_of-zip, length-all_true, join_lem,
}

module _ (parallelism_low : List (ℕ × ℕ × FanOut) → Bool) where
  assign_spatial_lem :
      (u : Uber) (brk : Bool) (spatial_id : ℕ) (splits : List (ℕ × ℕ))
      (nests : List (List Descriptor))
      → get_splits u.splits spatial_id ≡ some splits
      → length u.arch.spatial_mask ≡ length u.arch.tiling_to_storage
      → Supported u splits 0 (zip u.arch.spatial_mask u.arch.tiling_to_storage)
      → FacingNests u.arch.spatial_mask nests
      → u.arithmetic_map < u.num_levels
      → (directed : List (List Descriptor)) × (statuses : List Bool)
        × (assign_spatial_tiling_directions parallelism_low u brk spatial_id nests
            ≡ some (directed, statuses))
        × (map (map extent) directed ≡ map (map extent) nests)
        × (length statuses ≡ u.num_levels)
  unfolding assign_spatial_tiling_directions
  assign_spatial_lem u brk spatial_id splits nests found masks ok faces low =
      let entries : List (Bool × ℕ) = zip u.arch.spatial_mask u.arch.tiling_to_storage in
      let (directed, statuses, used, run, kept, len) =
        assign_directions_lem u brk splits 0 entries nests (all_true u.num_levels) ok
          (subst (λ m. FacingNests m nests)
            (sym (mask_of-zip u.arch.spatial_mask u.arch.tiling_to_storage masks)) faces)
          (length-all_true u.num_levels) in
      elim (Bool-cases (parallelism_low used)) [
        | inl e ↦
            let (merged, run', len') =
              merge_status_lem u.arithmetic_map false statuses (omega arith) in
            (directed, merged, rw (found, run, e, run') refl, kept, len' ∙ len)
        | inr e ↦ (directed, statuses, rw (found, run, e) refl, kept, len)
      ]

  -- The outcomes of `ConstructMapping`.
  abbrev pub Outcome : Uber → MaskNest → Bool → List Bool → Option Mapping → Type 0
  Outcome u bypass_nest brk statuses none = (brk ≡ true) × (all_succeed statuses ≡ false)
  Outcome u bypass_nest brk statuses (some m) =
      Implements u m.loop_nest
      × Implements u m.complete_loop_nest
      × (m.datatype_bypass_nest ≡ bypass_nest)

  pub construct_mapping-Ready :
      (u : Uber) (brk : Bool) (mapping_id : Indices) (r : Ready u mapping_id)
      → (statuses : List Bool) × (outcome : Option Mapping) × (construct_mapping parallelism_low u
            brk mapping_id
          ≡ some (statuses, outcome))
        × (length statuses ≡ u.num_levels)
        × Outcome u r.bypass_nest brk statuses outcome
  unfolding construct_mapping
  construct_mapping-Ready u brk mapping_id r =
      let n : ℕ = length u.bounds in
      let mask : List Bool = u.arch.spatial_mask in
      let placeholders : List (List Descriptor) = blanks mask r.patterns in
      let blank_length : length placeholders ≡ length mask =
        blanks-length mask r.patterns r.patterns_length in
      let permuted : permute_subnests r.patterns (init_subnests n mask) ≡ some placeholders =
        permute_subnests_lem n mask r.patterns r.patterns_length r.orders in
      let (assigned, run, shapes, sound, counts) =
        assign_index_factors_lem (factor_of u.factors r.factorization_id) u.bounds placeholders
          (blanks-EachOnce n mask r.patterns r.orders) r.bounds_positive
          (subst (AllFactors (factor_of u.factors r.factorization_id) n 0) (sym blank_length)
            r.factors)
          (λ d low.
            subst
              (λ k.
                get_or u.bounds d 0 ≤ factor_product (factor_of u.factors r.factorization_id) d 0 k)
              (sym blank_length) (r.reach d low)) in
      let faces : FacingNests mask assigned =
        shapes-FacingNests mask r.patterns assigned r.patterns_length shapes in
      let (directed, statuses, run', kept, len) =
        assign_spatial_lem u brk mapping_id.split r.splits assigned r.found_splits r.masks
          r.supported faces r.arithmetic in
      elim (Bool-cases (brk && not (all_succeed statuses))) [
        | inl e ↦ (
          statuses,
          none,
          rw (r.unsplit, r.global, r.found_patterns, permuted, run, r.found_bypass, run', e) refl,
          len,
          and_cases brk (all_succeed statuses) e,
        )
        | inr e ↦
            let (m, joined, a, b, c) =
              join_lem u r.bypass_nest assigned directed
                (sym (
                  nests-length extent directed assigned kept
                  ∙ nests-length shape assigned placeholders shapes
                  ∙ blank_length))
                (Plain-extents directed assigned kept (settled_all mask assigned faces sound))
                (filled extent directed assigned kept (
                  filled shape assigned placeholders shapes
                    (blanks_filled n mask r.patterns r.some_dimension r.orders)))
                kept counts in
            (
              statuses,
              some m,
              rw
                  (
                    r.unsplit, r.global, r.found_patterns, permuted, run, r.found_bypass, run', e,
                    joined,
                  )
                  refl,
              len,
              (a, b, c),
            )
      ]
    where
      and_cases : (a b : Bool) → a && not b ≡ true → (a ≡ true) × (b ≡ false)
      and_cases true true h = cc
      and_cases true false h = (refl, refl)
      and_cases false b h = cc
