-- ===== src/Mapspaces/Uber/Pruning/OneSided.antt =====
-- A spatial level with a fan-out in one direction after `InitPruned` (src/mapspaces/uber.cpp).
use timeloop.Prelude.{
  ℕ, ◌<◌, ◌≡◌, refl, ap, ◌∙◌, subst, true, false, Option, some, none, List, [], ◌∷◌, ◌==◌, length,
  get_elem?, arith,
}
use timeloop.Numeric.Factoradic.Orders.{count}
use timeloop.Mapspaces.Permutations.{Pattern, dimensions_from}
use timeloop.Mapspaces.Splits.{Level}
use timeloop.Mapspaces.Splits.Ids.{Admits}
use timeloop.Mapspaces.Uber.Construct.{Uber}
use timeloop.Mapspaces.Uber.Pruning.{
  Constraints, use_canonical, user_pattern, is_empty, init_pruned,
}
use timeloop.Mapspaces.Uber.Pruning.Levels.{expected}
use timeloop.Mapspaces.Uber.Pruning.SplitLevels.{SplitAt}
use timeloop.Mapspaces.Uber.Pruning.Units.{LevelDims}
use timeloop.Mapspaces.Uber.Pruning.Reduced.{Prunable, init_pruned_lem}

expected_canonical :
    (c : Constraints) (pruned : ℕ → Option (List ℕ)) (n l : ℕ)
    → c.user_permutations l ≡ none
    → expected c pruned n l (true, false) ≡ (dimensions_from n 0, [])
unfolding use_canonical user_pattern is_empty
expected_canonical c pruned n l h = rw h refl

some_dim : (d : ℕ) (dims : List ℕ) → count d dims ≡ 1 → 0 < length dims
some_dim d [] h = absurd (omega arith)
some_dim d (x ∷ dims) h = omega arith

-- With what `InitPruned` needs, at a spatial level without a fan-out in both directions and without a
-- pattern or a split of the user's, where some dimension has the factor 1: the pattern of the level
-- stays the canonical one, whatever the factors are, while every split of the level is at least 1.
pub init_pruned_canonical :
    (c : Constraints) (u : Uber) (id : ℕ) (value : ℕ → ℕ → ℕ) (l d : ℕ)
    → Prunable c u id value
    → get_elem? u.arch.spatial_mask l ≡ some true
    → get_elem? u.arch.two_d_spatial_mask l ≡ some false
    → c.user_permutations l ≡ none
    → c.user_spatial_splits l ≡ none
    → d < length u.bounds
    → value d l ≡ 1
    → (u' : Uber) × (p : Pattern) × (e : Level) × (init_pruned c id u ≡ some u')
      × (u'.permutations.patterns l ≡ some p)
      × (p.baked_prefix ≡ dimensions_from (length u.bounds) 0)
      × (u'.splits.levels l ≡ some e)
      × ((v : ℕ) → Admits e v → 0 < v)
init_pruned_canonical c u id value l d r spatial flat no_pattern no_split low one =
    let (u', run, kept, _, _, levels) = init_pruned_lem c u id value r in
    let (dims, units, ordered, splits) = levels l true false spatial flat in
    let (few, counts) =
      subst (λ user. LevelDims user (λ k. value k l) (length u.bounds) dims) no_split units in
    let (e, found, fits, admits) =
      subst (λ user. SplitAt user (length dims) (length u.bounds) (u'.splits.levels l)) no_split
        (splits refl) in
    let unit : (value d l == 1) ≡ true = ground arith in
    let once = counts d in
    let single : count d dims ≡ 1 = ground arith in
    (
      u',
      ordered.pattern,
      e,
      run,
      ordered.found,
      ap (λ (t : List ℕ × List ℕ). t.0)
          (ordered.parts ∙ expected_canonical c (λ k. some dims) (length u.bounds) l no_pattern),
      found,
      λ v h. omega (arith, some_dim d dims single, ((admits v).0 h).0),
    )
