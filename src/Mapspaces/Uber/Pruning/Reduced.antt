-- ===== src/Mapspaces/Uber/Pruning/Reduced.antt =====
-- `InitPruned` (src/mapspaces/uber.cpp) from end to end.
use mathlib.Core.Option.{some-injective}
use timeloop.Prelude.{
  ℕ, zero, suc, get_or, get_elem?-eq-get_or, false, ◌<◌, ◌≤◌, ◌≡◌, refl, ap, ap₂, ◌∙◌, subst, inl,
  inr, Bool, true, Option, some, none, List, [], ◌∷◌, ◌++◌, map, ltb, length, get_elem?,
  get_elem?-map, get_elem?-map-some, get_elem?-lt-length, arith, Bool-cases, Option-cases,
}
use timeloop.Numeric.Factoradic.{max_length}
use timeloop.Numeric.Factoradic.Orders.{fact}
use timeloop.Mapspaces.Permutations.{Pattern, PermutationSpace, dimensions_from}
use timeloop.Mapspaces.Permutations
use timeloop.Mapspaces.Permutations.Keeps
use timeloop.Mapspaces.Splits.{Level, SplitSpace}
use timeloop.Mapspaces.Splits
use timeloop.Mapspaces.Splits.Keeps as SplitKeeps
use timeloop.Mapspaces.Uber.Splitting.{global_id}
use timeloop.Mapspaces.Uber.Construct.{Uber, is_split, factor_of, zip}
use timeloop.Mapspaces.Uber.Pruning.{
  Constraints, user_pattern, pruned_at, units_at, init_pruned, init_loop_permutation_space,
  init_spatial_space,
}
use timeloop.Mapspaces.Uber.Pruning.Levels.{Ordered, UserFits, expected, permutation_levels_lem}
use timeloop.Mapspaces.Uber.Pruning.SplitLevels.{SplitAt, EntryAt, split_levels_lem}
use timeloop.Mapspaces.Uber.Pruning.Units.{
  LevelDims, pruned_levels_lem, Distinct, LevelDims-Distinct, placed-Distinct,
}

length-zip : (xs ys : List Bool) → length xs ≡ length ys → length (zip xs ys) ≡ length xs
length-zip [] ys h = refl
length-zip (x ∷ xs) [] h = absurd (omega arith)
length-zip (x ∷ xs) (y ∷ ys) h = ap suc (length-zip xs ys (omega arith))

get-zip :
    (xs ys : List Bool) (k : ℕ) {x y : Bool}
    → get_elem? xs k ≡ some x
    → get_elem? ys k ≡ some y
    → get_elem? (zip xs ys) k ≡ some (x, y)
get-zip [] ys k h h' = cc
get-zip (x ∷ xs) [] k h h' = cc
get-zip (x ∷ xs) (y ∷ ys) zero h h' =
    ap₂ (λ a b. some (a, b)) (some-injective _ _ h) (some-injective _ _ h')
get-zip (x ∷ xs) (y ∷ ys) (suc k) h h' = get-zip xs ys k h h'

-- What the constraints and the factors of an index factorization id have to be.
pub record Prunable (c : Constraints) (u : Uber) (id : ℕ) (value : ℕ → ℕ → ℕ) : Type 0 where
  pub unsplit : is_split u ≡ false
  pub factorization_id : ℕ
  pub global : global_id u.part id ≡ some factorization_id
  pub few : length u.bounds ≤ max_length
  pub masks : length u.arch.spatial_mask ≡ length u.arch.two_d_spatial_mask
  pub factors :
      (d l : ℕ)
      → d < length u.bounds
      → l < length u.arch.spatial_mask
      → factor_of u.factors factorization_id d l ≡ some (value d l)
  pub user :
      (l : ℕ)
      → Distinct
          (length u.bounds)
          ((user_pattern (c.user_permutations l)).0 ++ (user_pattern (c.user_permutations l)).1)

-- A level of the spaces after `InitPruned`: its pruned dimensions, its pattern and its split.
abbrev pub Reduced : Constraints → Uber → (ℕ → ℕ → ℕ) → Uber → ℕ → Bool → Bool → Type 0
Reduced c u value u' l spatial two_d =
    (dims : List ℕ) × LevelDims (c.user_spatial_splits l) (λ d. value d l) (length u.bounds) dims
    × Ordered c (λ k. some dims) (length u.bounds) l (spatial, two_d) u'.permutations
    × (spatial ≡ true
        → SplitAt (c.user_spatial_splits l) (length dims) (length u.bounds) (u'.splits.levels l))

module _ (c : Constraints) (u : Uber) (id : ℕ) (value : ℕ → ℕ → ℕ) (r : Prunable c u id value)
    (pruned : List (List ℕ))
    (inside : (k : ℕ)
      → k < length u.arch.spatial_mask
      → (dims : List ℕ) × (get_elem? pruned k ≡ some dims)
        × LevelDims (c.user_spatial_splits k) (λ d. value d k) (length u.bounds) dims)
    (outside : (k : ℕ) → length u.arch.spatial_mask ≤ k → get_elem? pruned k ≡ none) where
  Distinct-at :
      (l : ℕ)
      → Distinct (length u.bounds) (pruned_at (get_elem? pruned l))
        × (length (pruned_at (get_elem? pruned l)) ≤ length u.bounds)
  unfolding pruned_at
  Distinct-at l = elim (Bool-cases (ltb l (length u.arch.spatial_mask))) [
    | inl e ↦
        let (dims, found, h) = inside l (ground arith) in
        rw found
          (LevelDims-Distinct (c.user_spatial_splits l) (λ d. value d l) (length u.bounds) dims h)
    | inr e ↦ rw (outside l (ground arith)) ((tt, λ d. omega arith), omega arith)
  ]

  user_fits : (l : ℕ) → UserFits c (get_elem? pruned) (length u.bounds) l
  user_fits l =
      placed-Distinct (length u.bounds) (pruned_at (get_elem? pruned l)) _ _ (Distinct-at l).0
        (r.user l)

  units_low : (l : ℕ) → units_at (get_elem? (map (λ dims. length dims) pruned) l) ≤ length u.bounds
  unfolding units_at pruned_at
  units_low l = elim (Option-cases (get_elem? (map (λ (dims : List ℕ). length dims) pruned) l)) [
    | inl e ↦ rw e (omega arith)
    | inr (n, e) ↦
        let (dims, found, same) = get_elem?-map-some (λ (dims : List ℕ). length dims) pruned l e in
        let low : length dims ≤ length u.bounds =
          subst (λ o. length (pruned_at o) ≤ length u.bounds) found (Distinct-at l).1 in
        rw e (omega arith)
  ]

units_at-eq : {o : Option ℕ} {k : ℕ} → o ≡ some k → units_at o ≡ k
unfolding units_at
units_at-eq h = ap units_at h

-- An id of an index factorization, with factors at every level, for a problem of up to 20 dimensions
-- and patterns of the user's without repetition: `InitPruned` succeeds on a mapspace that is not
-- split, and changes only the permutation and the split space and their sizes, which are those of the
-- new spaces. At a level whose split the user gives it prunes no dimension, at
-- any other exactly those of factor 1. A level that takes the canonical permutation has all dimensions
-- in order; any other has the pruned ones in front, then the rest of the user's prefix, and the rest of
-- the user's suffix behind; every dimension stands in a pattern once. A spatial level has the user's
-- split, or those from the number of pruned dimensions to the number of dimensions.
pub init_pruned_lem :
    (c : Constraints) (u : Uber) (id : ℕ) (value : ℕ → ℕ → ℕ)
    → Prunable c u id value
    → (u' : Uber) × (init_pruned c id u ≡ some u')
      × (u' ≡ record u {
        permutations = u'.permutations;
        permutation_size = u'.permutation_size;
        splits = u'.splits;
        spatial_size = u'.spatial_size;
      })
      × (Permutations.size_of u'.permutations ≡ some u'.permutation_size)
      × (u'.spatial_size ≡ Splits.size_of u'.splits)
      × ((l : ℕ) (spatial two_d : Bool)
          → get_elem? u.arch.spatial_mask l ≡ some spatial
          → get_elem? u.arch.two_d_spatial_mask l ≡ some two_d
          → Reduced c u value u' l spatial two_d)
unfolding init_pruned init_loop_permutation_space init_spatial_space
init_pruned_lem c u id value r =
    let n : ℕ = length u.bounds in
    let levels : ℕ = length u.arch.spatial_mask in
    let (pruned, run, inside0, outside) =
      pruned_levels_lem c (factor_of u.factors r.factorization_id) value n levels 0
        (λ d l low high. r.factors d l low (omega arith)) in
    let inside : (k : ℕ)
        → k < levels
        → (dims : List ℕ) × (get_elem? pruned k ≡ some dims)
          × LevelDims (c.user_spatial_splits k) (λ d. value d k) n dims =
      λ k h.
        let (dims, e, t) = inside0 k h in
        (
          dims,
          e,
          subst (λ j. LevelDims (c.user_spatial_splits j) (λ d. value d j) n dims) (omega arith) t,
        ) in
    let sizes : ℕ → Option ℕ = get_elem? (map (λ (dims : List ℕ). length dims) pruned) in
    let masks : List (Bool × Bool) = zip u.arch.spatial_mask u.arch.two_d_spatial_mask in
    let (dims_eq, levels_eq) = Keeps.init_sizes n levels in
    let (permutations, run', ordered, _, same_levels) =
      permutation_levels_lem c (get_elem? pruned) n 0 masks (Permutations.init n levels) dims_eq
        (omega (arith, length-zip u.arch.spatial_mask u.arch.two_d_spatial_mask r.masks, levels_eq))
        r.few (user_fits c u id value r pruned inside outside) in
    let (split_dims, split_levels) = SplitKeeps.init_sizes n levels in
    let (splits, run'', entries, _) =
      split_levels_lem c sizes n 0 u.arch.spatial_mask (Splits.init n levels) split_dims
        (omega (arith, split_levels)) (omega (arith, r.few))
        (units_low c u id value r pruned inside outside) in
    let (size, run_size) = Keeps.size_of-some permutations (λ l low.
      let here : l < length masks = omega (
        arith,
        same_levels,
        levels_eq,
        length-zip u.arch.spatial_mask u.arch.two_d_spatial_mask r.masks,
      ) in
      let o =
        ordered l (get_or masks l (false, false))
          (get_elem?-eq-get_or masks l (false, false) here) in
      (
        fact (length o.pattern.permutable_infix),
        subst (λ k. permutations.size k ≡ some (fact (length o.pattern.permutable_infix)))
            (omega arith) o.size,
      )) in
    (
      record u {
        permutations = permutations;
        permutation_size = size;
        splits = splits;
        spatial_size = Splits.size_of splits;
      },
      rw (r.unsplit, r.global, run, run', run_size, run'') refl,
      refl,
      run_size,
      refl,
      λ l spatial two_d here here'.
          let (dims, found, now) = inside l (get_elem?-lt-length u.arch.spatial_mask l here) in
          let o : Ordered c (get_elem? pruned) n l (spatial, two_d) permutations =
            subst (λ j. Ordered c (get_elem? pruned) n j (spatial, two_d) permutations)
              (omega arith)
              (ordered l (spatial, two_d)
                (get-zip u.arch.spatial_mask u.arch.two_d_spatial_mask l here here')) in
          (
            dims,
            now,
            record {
              pattern = o.pattern;
              found = o.found;
              size = o.size;
              parts = o.parts ∙ ap (λ x. expected c (λ k. x) n l (spatial, two_d)) found;
              once = o.once;
            },
            λ is_spatial.
                let at : EntryAt c sizes n l splits =
                  subst (λ j. EntryAt c sizes n j splits) (omega arith)
                    (entries l (here ∙ ap some is_spatial)) in
                let count : sizes l ≡ some (length dims) =
                  get_elem?-map (λ (xs : List ℕ). length xs) pruned l found in
                subst (λ k. SplitAt (c.user_spatial_splits l) k n (splits.levels l))
                  (units_at-eq count) at,
          ),
    )
