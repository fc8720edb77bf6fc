-- ===== src/Mapspaces/Uber/Construct/Tests.antt =====
-- Runs of `ConstructMapping` (src/mapspaces/uber.cpp), and its theorem at a concrete mapspace.
use timeloop.Prelude.{
  ℕ, zero, suc, ◌<◌, ◌≡◌, refl, Bool, true, false, Option, some, none, List, [], ◌∷◌, arith, length,
  if◌then◌else◌, ◌==◌, get_or,
}
use timeloop.Mapping.Loops.{space_x}
use timeloop.Numeric.Factors.{Factors}
use timeloop.Mapspaces.Factorizations.{FactorSpace}
use timeloop.Mapspaces.Factorizations
use timeloop.Mapspaces.Permutations.{Pattern}
use timeloop.Mapspaces.Splits.{user_specified}
use timeloop.Mapspaces.Uber.Bypass.{MaskNest, construct_bypass}
use timeloop.Mapspaces.Uber.Splitting.{global_id}
use timeloop.Mapspaces.Uber.Construct.{
  Uber, is_split, Mapping, construct_mapping, init_subnests, init_level_loops, permute_subnests,
  permute_level,
}
use timeloop.Mapspaces.Uber.Construct.Stages.{blank}
use timeloop.Mapspaces.Uber.Construct.Ready.{Outcome}
use timeloop.Mapspaces.Uber.Construct.Ids.{IsValid, construct_mapping_lem}
use timeloop.Search.{Indices}

-- One dimension of bound 4, over one storage level with a fan-out of 2.
abbrev four : Factors
four = record { n = 4; all = 1 ∷ 4 ∷ 2 ∷ []; cofactors = (4 ∷ 1 ∷ []) ∷ (2 ∷ 2 ∷ []) ∷ [] }

abbrev only : Pattern
only = record { baked_prefix = 0 ∷ []; permutable_infix = []; baked_suffix = [] }

abbrev small : Uber
small = record {
  bounds = 4 ∷ [];
  arch = record {
    fanouts = record { fanout_x = 2; fanout_y = 1 } ∷ [];
    spatial_mask = true ∷ false ∷ [];
    two_d_spatial_mask = false ∷ false ∷ [];
    temporal_to_tiling = 1 ∷ [];
    spatial_to_tiling = (0, 0) ∷ [];
    tiling_to_storage = 0 ∷ 0 ∷ [];
  };
  storage_map = λ s. 1;
  arithmetic_map = 0;
  num_levels = 2;
  factors = record {
    dimension_factors = four ∷ [];
    tiling_counter = record { order = 1; base = 2 ∷ []; value = 0 ∷ []; integer = 0; endint = 2 };
  };
  permutations = record {
    num_dimensions = 1;
    num_levels = 2;
    patterns = λ l. some only;
    size = λ l. some 1;
  };
  splits = record {
    num_dimensions = 1;
    num_levels = 2;
    levels = λ l. if l == 0 then some (user_specified 1) else none;
  };
  bypasses = (λ p l. true) ∷ [];
  permutation_size = 1;
  spatial_size = 1;
  split_parts = [];
  part = record { split_id = 0; if_size = 2; num_parent_splits = 1 };
  filter_spatial_fanout = true;
}

permute_runs :
    permute_subnests ((1 ∷ 0 ∷ []) ∷ []) (init_subnests 2 (true ∷ []))
    ≡ some ((blank space_x 1 ∷ blank space_x 0 ∷ []) ∷ [])
unfolding permute_subnests permute_level init_subnests init_level_loops
permute_runs = refl

small_unsplit : is_split small ≡ false
unfolding is_split
small_unsplit = refl

small_part :
    (id : ℕ)
    → id < 2
    → (g : ℕ) × (global_id small.part id ≡ some g) × (g < Factorizations.size_of small.factors)
unfolding global_id Factorizations.size_of
small_part zero h = (0, refl, omega arith)
small_part (suc zero) h = (1, refl, omega arith)
small_part (suc (suc id)) h = absurd (omega arith)

four_positive : (d : ℕ) → d < 1 → 0 < get_or (4 ∷ []) d 0
four_positive zero h = omega arith
four_positive (suc d) h = absurd (omega arith)

abbrev small-IsValid : IsValid small
small-IsValid = record {
  unsplit = small_unsplit;
  some_dimension = omega arith;
  bounds_positive = four_positive;
  masks = refl;
  arithmetic = omega arith;
  factors_ready = record {
    counter = record {
      sized = refl;
      range = omega arith;
      agree = refl;
      end = refl;
      fits = omega arith;
    };
    base = refl;
    some_dimension = λ e. omega arith;
    small = (omega arith, tt);
  };
  reaches = (
    (
      (refl, ((omega arith, omega arith), ((omega arith, omega arith), tt)), omega arith),
      ((refl, ((omega arith, omega arith), ((omega arith, omega arith), tt)), omega arith), tt),
    ),
    tt,
  );
  part_fits = small_part;
  patterns = only ∷ only ∷ [];
  pattern_levels = refl;
  described_patterns = (refl, refl, omega arith, (refl, refl, omega arith, tt));
  few_patterns = omega arith;
  patterns_length = refl;
  patterns_whole = ((refl, λ d. ground arith), ((refl, λ d. ground arith), tt));
  levels = some (user_specified 1) ∷ none ∷ [];
  split_levels = refl;
  described_levels = (refl, tt, (refl, tt));
  few_splits = omega arith;
  entries = ((_, refl), omega arith, tt);
  few_bypasses = omega arith;
}

abbrev second : Indices
second = record { factors = 1; permutation = 0; split = 0; bypass = 0 }

construct_mapping_lem_example :
    (bypass_nest : MaskNest) × (statuses : List Bool) × (outcome : Option Mapping)
    × (construct_bypass small.bypasses 0 ≡ some bypass_nest)
    × (construct_mapping (λ used. false) small true second ≡ some (statuses, outcome))
    × (length statuses ≡ 2)
    × Outcome (λ used. false) small bypass_nest true statuses outcome
construct_mapping_lem_example =
    construct_mapping_lem (λ used. false) small true small-IsValid second
      (record {
        factors = omega arith;
        permutation = omega arith;
        split = omega arith;
        bypass = omega arith;
      })
