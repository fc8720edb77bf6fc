-- ===== src/Mapspaces/Uber/Pruning/Levels.antt =====
-- The loops over the levels of `InitLoopPermutationSpace` and `InitSpatialSpace`
-- (src/mapspaces/uber.cpp).
use mathlib.Core.Option.{some-injective}
use timeloop.Prelude.{
  ℕ, zero, suc, ◌+◌, ◌<◌, ◌≤◌, ◌≡◌, refl, sym, ◌∙◌, subst, inl, inr, Bool, false, Option, some,
  List, [], ◌∷◌, ◌++◌, ◌==◌, if◌then◌else◌, length, get_elem?, All, arith, Bool-cases,
}
use timeloop.Numeric.Factoradic.{max_length}
use timeloop.Numeric.Factoradic.Orders.{count, fact}
use timeloop.Mapspaces.Permutations.{Pattern, PermutationSpace, absent, dimensions_from}
use timeloop.Mapspaces.Permutations.Levels.{all_of, placed, init_level_lem}
use timeloop.Mapspaces.Permutations.Keeps.{init_level_canonical_lem}
use timeloop.Mapspaces.Permutations.Keeps
use timeloop.Mapspaces.Uber.Pruning.{
  Constraints, use_canonical, user_pattern, pruned_at, permutation_level, permutation_levels,
}

-- The fixed parts of the pattern of a level: all dimensions, or the pruned ones and the rest of the
-- user's.
abbrev pub expected : Constraints → (ℕ → Option (List ℕ)) → ℕ → ℕ → Bool × Bool → List ℕ × List ℕ
expected c pruned n level (spatial, two_d) =
    let user : List ℕ × List ℕ = user_pattern (c.user_permutations level) in
    let dims : List ℕ = pruned_at (pruned level) in
    if use_canonical spatial two_d level user
    then (dimensions_from n 0, [])
    else (dims ++ absent dims user.0, absent dims user.1)

-- A level whose pattern has these parts and each dimension once.
pub record Ordered (c : Constraints) (pruned : ℕ → Option (List ℕ)) (n level : ℕ)
    (entry : Bool × Bool) (s : PermutationSpace) : Type 0 where
  pub pattern : Pattern
  pub found : s.patterns level ≡ some pattern
  pub size : s.size level ≡ some (fact (length pattern.permutable_infix))
  pub parts : (pattern.baked_prefix, pattern.baked_suffix) ≡ expected c pruned n level entry
  pub once : (d : ℕ) → d < n → count d (all_of pattern) ≡ 1

-- The user's and the pruned dimensions of a level are distinct dimensions of the problem.
abbrev pub UserFits : Constraints → (ℕ → Option (List ℕ)) → ℕ → ℕ → Type 0
UserFits c pruned n level =
    let user : List ℕ × List ℕ = user_pattern (c.user_permutations level) in
    All (λ d. d < n) (placed user.0 user.1 (pruned_at (pruned level)))
    × ((d : ℕ) → count d (placed user.0 user.1 (pruned_at (pruned level))) ≤ 1)

abbrev Kept : ℕ → PermutationSpace → PermutationSpace → Type 0
Kept level s s' =
    (s'.num_dimensions ≡ s.num_dimensions)
    × (s'.num_levels ≡ s.num_levels)
    × ((l : ℕ) → (l == level) ≡ false → (s'.patterns l ≡ s.patterns l) × (s'.size l ≡ s.size l))

module _ (c : Constraints) (pruned : ℕ → Option (List ℕ)) where
  permutation_level_lem :
      (level : ℕ) (entry : Bool × Bool) (s : PermutationSpace)
      → level < s.num_levels
      → s.num_dimensions ≤ max_length
      → UserFits c pruned s.num_dimensions level
      → (s' : PermutationSpace) × (permutation_level c pruned level entry s ≡ some s')
        × Ordered c pruned s.num_dimensions level entry s'
        × Kept level s s'
  unfolding permutation_level
  permutation_level_lem level (spatial, two_d) s inside few (below, distinct) =
      let user : List ℕ × List ℕ = user_pattern (c.user_permutations level) in
      let dims : List ℕ = pruned_at (pruned level) in
      elim (Bool-cases (use_canonical spatial two_d level user)) [
        | inl e ↦
            let (s', p, run, found, size, prefix, suffix, once, others, n, l) =
              init_level_canonical_lem level s inside few in
            (
              s',
              rw e run,
              record {
                pattern = p;
                found = found;
                size = size;
                parts = rw (e, prefix, suffix) refl;
                once = once;
              },
              (n, l, others),
            )
        | inr e ↦
            let (s', p, run, found, size, prefix, suffix, once, others) =
              init_level_lem level user.0 user.1 dims s inside few below distinct in
            let (n, l) = Keeps.init_level_keeps level user.0 user.1 dims s run in
            (
              s',
              rw e run,
              record {
                pattern = p;
                found = found;
                size = size;
                parts = rw (e, prefix, suffix) refl;
                once = once;
              },
              (n, l, others),
            )
      ]

  pub permutation_levels_lem :
      (n level : ℕ) (masks : List (Bool × Bool)) (s : PermutationSpace)
      → s.num_dimensions ≡ n
      → length masks + level ≤ s.num_levels
      → n ≤ max_length
      → ((l : ℕ) → UserFits c pruned n l)
      → (s' : PermutationSpace) × (permutation_levels c pruned level masks s ≡ some s')
        × ((k : ℕ) (entry : Bool × Bool)
            → get_elem? masks k ≡ some entry
            → Ordered c pruned n (k + level) entry s')
        × ((l : ℕ) → l < level → (s'.patterns l ≡ s.patterns l) × (s'.size l ≡ s.size l))
        × (s'.num_levels ≡ s.num_levels)
  unfolding permutation_levels
  permutation_levels_lem n level [] s dims inside few fits =
      (s, refl, λ k entry h. cc, λ l low. (refl, refl), refl)
  permutation_levels_lem n level (entry ∷ masks) s dims inside few fits =
      let (next, run, now, (same_dims, same_levels, others)) =
        permutation_level_lem level entry s (omega arith) (omega arith)
          (subst (λ m. UserFits c pruned m level) (sym dims) (fits level)) in
      let (s', run', later, kept, kept_levels) =
        permutation_levels_lem n (level + 1) masks next (same_dims ∙ dims) (omega arith) few fits in
      let here = subst (λ m. Ordered c pruned m level entry next) dims now in
      let (kept_pattern, kept_size) = kept level (omega arith) in
      let first : Ordered c pruned n level entry s' = record {
        pattern = here.pattern;
        found = kept_pattern ∙ here.found;
        size = kept_size ∙ here.size;
        parts = here.parts;
        once = here.once;
      } in
      (
        s',
        rw (run, run') refl,
        λ k e h. at_level s' first later k e h,
        λ l low.
            let apart : (l == level) ≡ false = ground arith in
            let (a, b) = others l apart in let (a', b') = kept l (omega arith) in (a' ∙ a, b' ∙ b),
        kept_levels ∙ same_levels,
      )
    where
      at_level :
          (s' : PermutationSpace)
          → Ordered c pruned n level entry s'
          → ((k : ℕ) (e : Bool × Bool)
              → get_elem? masks k ≡ some e
              → Ordered c pruned n (k + (level + 1)) e s')
          → (k : ℕ) (e : Bool × Bool) → get_elem? (entry ∷ masks) k ≡ some e
          → Ordered c pruned n (k + level) e s'
      at_level s' first later zero e h =
          subst (λ x. Ordered c pruned n (0 + level) x s') (some-injective _ _ h)
            (subst (λ l. Ordered c pruned n l entry s') (omega arith) first)
      at_level s' first later (suc k) e h =
          subst (λ l. Ordered c pruned n l e s') (omega arith) (later k e h)
