-- ===== src/Mapspaces/Permutations/Keeps.antt =====
-- `Init`, `InitLevel` and `InitLevelCanonical` of PermutationSpace (src/mapspaces/subspaces.cpp): what
-- they leave as it is, and the dimensions that the canonical level places.
use timeloop.Prelude.{
  ℕ, zero, suc, ◌+◌, ◌*◌, ◌%◌, ◌<◌, ◌≤◌, ◌≡◌, refl, sym, ap, ◌∙◌, subst, false, some, List, [], ◌∷◌,
  ltb, ◌==◌, guard, length, All, arith, >>=-eq-some,
}
use timeloop.Prelude.Words.{u128_mod}
use mathlib.Core.Option.{some-injective}
use mathlib.Core.List.{append-nil}
use timeloop.Numeric.Factoradic.{factorial, max_length}
use timeloop.Numeric.Factoradic.Orders.{count, fact}
use timeloop.Mapspaces.Permutations.{
  Pattern, PermutationSpace, init, init_level, init_level_canonical, make_pattern, absent,
  dimensions_from, size_product, size_of,
}
use timeloop.Mapspaces.Permutations.Counting.{dimensions_below, count-dimensions_most}
use timeloop.Mapspaces.Permutations.Levels.{all_of, placed, init_level_lem}

pub init_sizes :
    (n levels : ℕ) → ((init n levels).num_dimensions ≡ n) × ((init n levels).num_levels ≡ levels)
unfolding init
init_sizes n levels = (refl, refl)

pub init_level_keeps :
    (level : ℕ) (user_prefix user_suffix pruned : List ℕ) (s : PermutationSpace)
    {s' : PermutationSpace}
    → init_level level user_prefix user_suffix pruned s ≡ some s'
    → (s'.num_dimensions ≡ s.num_dimensions) × (s'.num_levels ≡ s.num_levels)
unfolding init_level
init_level_keeps level user_prefix user_suffix pruned s h =
    let p : Pattern = make_pattern s.num_dimensions user_prefix user_suffix pruned in
    let (_, _, k) = >>=-eq-some (guard (ltb level s.num_levels)) _ h in
    let (_, _, k') =
      >>=-eq-some
        (guard (
          (length p.baked_prefix + length p.permutable_infix + length p.baked_suffix)
          == s.num_dimensions))
        _ k in
    let (n, _, k'') = >>=-eq-some (factorial (length p.permutable_infix)) _ k' in
    let same = some-injective _ _ (sym k'') in
    (
      ap (λ (t : PermutationSpace). t.num_dimensions) same,
      ap (λ (t : PermutationSpace). t.num_levels) same,
    )

absent-nil : (xs : List ℕ) → absent [] xs ≡ xs
absent-nil [] = refl
absent-nil (x ∷ xs) = ap (λ ys. x ∷ ys) (absent-nil xs)

-- The canonical level places all dimensions, in order.
canonical_placed : (n : ℕ) → placed (dimensions_from n 0) [] [] ≡ dimensions_from n 0
canonical_placed n = append-nil (absent [] (dimensions_from n 0)) ∙ absent-nil (dimensions_from n 0)

pub init_level_canonical_lem :
    (level : ℕ) (s : PermutationSpace)
    → level < s.num_levels
    → s.num_dimensions ≤ max_length
    → (s' : PermutationSpace) × (p : Pattern) × (init_level_canonical level s ≡ some s')
      × (s'.patterns level ≡ some p)
      × (s'.size level ≡ some (fact (length p.permutable_infix)))
      × (p.baked_prefix ≡ dimensions_from s.num_dimensions 0)
      × (p.baked_suffix ≡ [])
      × ((d : ℕ) → d < s.num_dimensions → count d (all_of p) ≡ 1)
      × ((l : ℕ) → (l == level) ≡ false → (s'.patterns l ≡ s.patterns l) × (s'.size l ≡ s.size l))
      × (s'.num_dimensions ≡ s.num_dimensions)
      × (s'.num_levels ≡ s.num_levels)
unfolding init_level_canonical
init_level_canonical_lem level s inside few =
    let n : ℕ = s.num_dimensions in
    let all : List ℕ = dimensions_from n 0 in
    let (s', p, run, pattern, size, prefix, suffix, once, others) =
      init_level_lem level all [] [] s inside few
        (subst (All (λ d. d < n)) (sym (canonical_placed n)) (dimensions_below n n 0 (omega arith)))
        (λ d.
          subst (λ xs. count d xs ≤ 1) (sym (canonical_placed n)) (count-dimensions_most n 0 d)) in
    let (dims, levels) = init_level_keeps level all [] [] s run in
    (s', p, run, pattern, size, prefix ∙ absent-nil all, suffix, once, others, dims, levels)

size_product-some :
    (s : PermutationSpace) (left level product : ℕ)
    → ((l : ℕ) → level ≤ l → l < left + level → (n : ℕ) × (s.size l ≡ some n))
    → (size : ℕ) × (size_product s left level product ≡ some size)
unfolding size_product
size_product-some s zero level product h = (product, refl)
size_product-some s (suc left) level product h =
    let (n, e) = h level (omega arith) (omega arith) in
    let (size, run) =
      size_product-some s left (level + 1) (product * n % u128_mod)
        (λ l a b. h l (omega arith) (omega arith)) in
    (size, rw (e, run) refl)

-- `Size` succeeds where each level has a size.
pub size_of-some :
    (s : PermutationSpace)
    → ((l : ℕ) → l < s.num_levels → (n : ℕ) × (s.size l ≡ some n))
    → (size : ℕ) × (size_of s ≡ some size)
unfolding size_of
size_of-some s h = size_product-some s s.num_levels 0 1 (λ l a b. h l (omega arith))
