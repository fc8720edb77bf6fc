-- ===== src/Mapspaces/Uber/Pruning/Tests.antt =====
-- Runs of the pruning of the Uber mapspace (src/mapspaces/uber.cpp), and its theorems at a concrete
-- mapspace.
use mathlib.Core.List.Memᴰ
use timeloop.Prelude.{
  ℕ, zero, suc, ◌<◌, ◌≡◌, refl, ap, ap₂, ◌∙◌, Bool, true, false, some, none, List, [], ◌∷◌, Memᴰ,
  arith, if◌then◌else◌, ◌==◌, get_elem?,
}
use timeloop.Numeric.Factors.{Factors}
use timeloop.Mapspaces.Factorizations.{FactorSpace}
use timeloop.Mapspaces.Factorizations
use timeloop.Mapspaces.Factorizations.Rows.{Picks, get_factor_lem}
use timeloop.Mapspaces.Factorizations.Rows
use timeloop.Mapspaces.Permutations.{Pattern}
use timeloop.Mapspaces.Permutations
use timeloop.Mapspaces.Splits
use timeloop.Mapspaces.Splits.{Level}
use timeloop.Mapspaces.Splits.Ids.{Admits}
use timeloop.Mapspaces.Uber.Splitting.{global_id}
use timeloop.Mapspaces.Uber.Construct.{Uber, is_split, factor_of}
use timeloop.Mapspaces.Uber.Construct.Ids.{row_factors}
use timeloop.Mapspaces.Uber.Pruning.{Constraints, init_pruned, unit_dims, user_pattern}
use timeloop.Mapspaces.Uber.Pruning.Reduced.{Prunable, Reduced, init_pruned_lem}
use timeloop.Mapspaces.Uber.Pruning.OneSided.{init_pruned_canonical}

unit_dims_runs : unit_dims (λ d. some (if d == 1 then 4 else 1)) 3 0 ≡ some (0 ∷ 2 ∷ [])
unfolding unit_dims
unit_dims_runs = refl

-- Two dimensions of bounds 4 and 1 at a storage level with a fan-out of 4 along Y; the first dimension
-- is spatial.
abbrev along : Factors
along = record { n = 4; all = 1 ∷ 4 ∷ 2 ∷ []; cofactors = (4 ∷ 1 ∷ []) ∷ [] }

abbrev flat : Factors
flat = record { n = 1; all = 1 ∷ []; cofactors = (1 ∷ 1 ∷ []) ∷ [] }

abbrev column : Uber
column = record {
  bounds = 4 ∷ 1 ∷ [];
  arch = record {
    fanouts = record { fanout_x = 1; fanout_y = 4 } ∷ [];
    spatial_mask = true ∷ false ∷ [];
    two_d_spatial_mask = false ∷ false ∷ [];
    temporal_to_tiling = 1 ∷ [];
    spatial_to_tiling = (0, 0) ∷ [];
    tiling_to_storage = 0 ∷ 0 ∷ [];
  };
  storage_map = λ s. 1;
  arithmetic_map = 0;
  num_levels = 2;
  factors = record {
    dimension_factors = along ∷ flat ∷ [];
    tiling_counter = record {
      order = 2;
      base = 1 ∷ 1 ∷ [];
      value = 0 ∷ 0 ∷ [];
      integer = 0;
      endint = 1;
    };
  };
  permutations = record {
    num_dimensions = 2;
    num_levels = 2;
    patterns = λ l. none;
    size = λ l. none;
  };
  splits = record { num_dimensions = 2; num_levels = 2; levels = λ l. none };
  bypasses = (λ p l. true) ∷ [];
  permutation_size = 1;
  spatial_size = 1;
  split_parts = [];
  part = record { split_id = 0; if_size = 1; num_parent_splits = 1 };
  filter_spatial_fanout = true;
}

column-Ready : Rows.Ready column.factors
column-Ready = record {
  counter = record {
    sized = refl;
    range = omega arith;
    agree = refl;
    end = refl;
    fits = omega arith;
  };
  base = refl;
  some_dimension = λ e. omega arith;
  small = (omega arith, (omega arith, tt));
}

one_row : {row only : List ℕ} → Memᴰ row (only ∷ []) → row ≡ only
one_row (Memᴰ.head e) = e
one_row (Memᴰ.tail m) = absurd (Memᴰ.not-nil m)

picked :
    (rows : List (List ℕ))
    → Picks (along ∷ flat ∷ []) rows
    → rows ≡ (4 ∷ 1 ∷ []) ∷ (1 ∷ 1 ∷ []) ∷ []
picked [] p = absurd p
picked (a ∷ []) (_, p) = absurd p
picked (a ∷ b ∷ []) (x, (y, _)) = ap₂ (λ u v. u ∷ v ∷ []) (one_row x) (one_row y)
picked (a ∷ b ∷ c ∷ rows) (_, (_, p)) = absurd p

abbrev value : ℕ → ℕ → ℕ
value d l = if d == 0 then if l == 0 then 4 else 1 else 1

column_zero : 0 < Factorizations.size_of column.factors
unfolding Factorizations.size_of
column_zero = omega arith

column_factors : (d l : ℕ) → d < 2 → l < 2 → factor_of column.factors 0 d l ≡ some (value d l)
column_factors d l h k =
    let (rows, picks, gives) = (get_factor_lem column.factors column-Ready).0 0 column_zero in
    let same = picked rows picks in
    go d l h k (λ row f e e'.
      row_factors column.factors 0 d l row f rows gives (ap (λ xs. get_elem? xs d) same ∙ e) e')
  where
    go :
        (d l : ℕ)
        → d < 2
        → l < 2
        → ((row : List ℕ) (f : ℕ)
            → get_elem? ((4 ∷ 1 ∷ []) ∷ (1 ∷ 1 ∷ []) ∷ []) d ≡ some row
            → get_elem? row l ≡ some f
            → factor_of column.factors 0 d l ≡ some f)
        → factor_of column.factors 0 d l ≡ some (value d l)
    go zero zero h k read = read (4 ∷ 1 ∷ []) 4 refl refl
    go zero (suc zero) h k read = read (4 ∷ 1 ∷ []) 1 refl refl
    go (suc zero) zero h k read = read (1 ∷ 1 ∷ []) 1 refl refl
    go (suc zero) (suc zero) h k read = read (1 ∷ 1 ∷ []) 1 refl refl
    go (suc (suc d)) l h k read = absurd (omega arith)
    go d (suc (suc l)) h k read = absurd (omega arith)

abbrev no_constraints : Constraints
no_constraints = record { user_permutations = λ l. none; user_spatial_splits = λ l. none }

column_global : global_id column.part 0 ≡ some 0
unfolding global_id
column_global = refl

column_unsplit : is_split column ≡ false
unfolding is_split
column_unsplit = refl

column-Prunable : Prunable no_constraints column 0 value
unfolding user_pattern
column-Prunable = record {
  unsplit = column_unsplit;
  factorization_id = 0;
  global = column_global;
  few = omega arith;
  masks = refl;
  factors = column_factors;
  user = λ l. (tt, λ d. omega arith);
}

init_pruned_lem_example :
    (u' : Uber) × (init_pruned no_constraints 0 column ≡ some u')
    × (u' ≡ record column {
      permutations = u'.permutations;
      permutation_size = u'.permutation_size;
      splits = u'.splits;
      spatial_size = u'.spatial_size;
    })
    × (Permutations.size_of u'.permutations ≡ some u'.permutation_size)
    × (u'.spatial_size ≡ Splits.size_of u'.splits)
    × ((l : ℕ) (spatial two_d : Bool)
        → get_elem? (true ∷ false ∷ []) l ≡ some spatial
        → get_elem? (false ∷ false ∷ []) l ≡ some two_d
        → Reduced no_constraints column value u' l spatial two_d)
init_pruned_lem_example = init_pruned_lem no_constraints column 0 value column-Prunable

init_pruned_canonical_example :
    (u' : Uber) × (p : Pattern) × (e : Level) × (init_pruned no_constraints 0 column ≡ some u')
    × (u'.permutations.patterns 0 ≡ some p)
    × (p.baked_prefix ≡ 0 ∷ 1 ∷ [])
    × (u'.splits.levels 0 ≡ some e)
    × ((v : ℕ) → Admits e v → 0 < v)
init_pruned_canonical_example =
    init_pruned_canonical no_constraints column 0 value 0 1 column-Prunable refl refl refl refl
      (omega arith) refl
