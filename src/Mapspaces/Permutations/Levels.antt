-- ===== src/Mapspaces/Permutations/Levels.antt =====
-- `InitLevel` of PermutationSpace (src/mapspaces/subspaces.cpp): the pattern of a level.
use timeloop.Prelude.{
  ℕ, ◌+◌, ◌<◌, ◌≤◌, ◌≡◌, refl, true, false, List, ◌++◌, ◌==◌, length, arith, Bool-cases, inl, inr,
  length-append, Option, some, All, lt→ltb, ==_iff,
}
use timeloop.Numeric.Factoradic.{max_length}
use timeloop.Numeric.Factoradic.Orders.{count, fact, factorial-fact}
use timeloop.Mapspaces.Permutations.{
  Pattern, PermutationSpace, absent, found, dimensions_from, make_pattern, init_level, assign,
}
use timeloop.Mapspaces.Permutations.Counting.{
  sum_add, sum-count, sum_least, all_one, found-count, count-absent, count-dimensions, count-append,
  sum-count-eq, absent-below, dimensions_below, count-dimensions_most, count-absent_known,
  found-count_zero, sum_most,
}

-- With as many entries as there are dimensions, the known ones and the others hold each once.
each_once :
    (n : ℕ) (known : List ℕ)
    → length known + length (absent known (dimensions_from n 0)) ≡ n
    → (d : ℕ) → d < n
    → count d known + count d (absent known (dimensions_from n 0)) ≡ 1
each_once n known h =
    all_one n (λ d. count d known + count d (absent known (dimensions_from n 0)))
      (λ d k. elim (Bool-cases (found d known)) [
        | inl is_known ↦ omega (arith, found-count d known is_known)
        | inr new ↦
            let all = count-dimensions n 0 d (omega arith) (omega arith) in
            omega (arith, count-absent d known (dimensions_from n 0) new)
      ])
      (omega (
        arith,
        sum_add n (λ d. count d known) (λ d. count d (absent known (dimensions_from n 0))),
        sum-count n known,
        sum-count n (absent known (dimensions_from n 0)),
      ))

-- The pattern in one list.
abbrev pub all_of : Pattern → List ℕ
all_of p = (p.baked_prefix ++ p.permutable_infix) ++ p.baked_suffix

make_pattern-once :
    (n : ℕ) (user_prefix user_suffix pruned : List ℕ)
    → (let p = make_pattern n user_prefix user_suffix pruned in
        length p.baked_prefix + length p.permutable_infix + length p.baked_suffix ≡ n
        → (d : ℕ) → d < n
        → count d (all_of p) ≡ 1)
unfolding make_pattern
make_pattern-once n user_prefix user_suffix pruned h d k =
    let prefix : List ℕ = pruned ++ absent pruned user_prefix in
    let suffix : List ℕ = absent pruned user_suffix in
    let infix_list : List ℕ = absent (prefix ++ suffix) (dimensions_from n 0) in
    let total = length-append prefix suffix in
    let once = each_once n (prefix ++ suffix) (omega arith) d k in
    omega (
      arith,
      count-append d (prefix ++ infix_list) suffix,
      count-append d prefix infix_list,
      count-append d prefix suffix,
    )

-- Known dimensions that are below the bound and distinct leave as many as are missing.
length-absent :
    (n : ℕ) (known : List ℕ)
    → All (λ x. x < n) known
    → ((d : ℕ) → count d known ≤ 1)
    → length known + length (absent known (dimensions_from n 0)) ≡ n
length-absent n known below distinct =
    let others : List ℕ = absent known (dimensions_from n 0) in
    let f : ℕ → ℕ = λ d. count d known + count d others in
    let most : (d : ℕ) → f d ≤ 1 = λ d. elim (Bool-cases (found d known)) [
      | inl is_known ↦
          let one = distinct d in
          omega (arith, count-absent_known d known (dimensions_from n 0) is_known)
      | inr new ↦ omega (
        arith,
        found-count_zero d known new,
        count-absent d known (dimensions_from n 0) new,
        count-dimensions_most n 0 d,
      )
    ] in
    let least : (d : ℕ) → d < n → 1 ≤ f d = λ d k. elim (Bool-cases (found d known)) [
      | inl is_known ↦ omega (arith, found-count d known is_known)
      | inr new ↦
          let all = count-dimensions n 0 d (omega arith) (omega arith) in
          omega (arith, count-absent d known (dimensions_from n 0) new)
    ] in
    omega (
      arith,
      sum_add n (λ d. count d known) (λ d. count d others),
      sum-count-eq n known below,
      sum-count-eq n others
          (absent-below n known (dimensions_from n 0) (dimensions_below n n 0 (omega arith))),
      sum_most n f most,
      sum_least n f least,
    )

-- The dimensions that the arguments of `InitLevel` place.
abbrev pub placed : List ℕ → List ℕ → List ℕ → List ℕ
placed user_prefix user_suffix pruned =
    (pruned ++ absent pruned user_prefix) ++ absent pruned user_suffix

assign_same : {A : Type 0} (level : ℕ) (a : A) (t : ℕ → Option A) → assign level a t level ≡ some a
assign_same level a t = let same : (level == level) ≡ true = ground arith in rw same

-- On a level in range, for a problem of up to 20 dimensions, where the pruned and the user's
-- dimensions are of the problem and distinct: `InitLevel` succeeds. The level has a pattern then in
-- which each dimension of the problem stands exactly once, with the pruned ones and the rest of the
-- user's prefix in front and the rest of the user's suffix behind, and the factorial of the infix's
-- length as its size; no other level changes.
pub init_level_lem :
    (level : ℕ) (user_prefix user_suffix pruned : List ℕ) (s : PermutationSpace)
    → level < s.num_levels
    → s.num_dimensions ≤ max_length
    → All (λ d. d < s.num_dimensions) (placed user_prefix user_suffix pruned)
    → ((d : ℕ) → count d (placed user_prefix user_suffix pruned) ≤ 1)
    → (s' : PermutationSpace) × (p : Pattern) × (init_level level user_prefix user_suffix pruned s
        ≡ some s')
      × (s'.patterns level ≡ some p)
      × (s'.size level ≡ some (fact (length p.permutable_infix)))
      × (p.baked_prefix ≡ pruned ++ absent pruned user_prefix)
      × (p.baked_suffix ≡ absent pruned user_suffix)
      × ((d : ℕ) → d < s.num_dimensions → count d (all_of p) ≡ 1)
      × ((l : ℕ) → (l == level) ≡ false → (s'.patterns l ≡ s.patterns l) × (s'.size l ≡ s.size l))
unfolding init_level make_pattern
init_level_lem level user_prefix user_suffix pruned s inside few below distinct =
    let n : ℕ = s.num_dimensions in
    let p : Pattern = make_pattern n user_prefix user_suffix pruned in
    let full = length-absent n (placed user_prefix user_suffix pruned) below distinct in
    let sizes = length-append p.baked_prefix p.baked_suffix in
    let sum : length p.baked_prefix + length p.permutable_infix + length p.baked_suffix ≡ n =
      omega arith in
    let entry = factorial-fact (length p.permutable_infix) (omega arith) in
    (
      record s {
        patterns = assign level p s.patterns;
        size = assign level (fact (length p.permutable_infix)) s.size;
      },
      p,
      rw (lt→ltb level s.num_levels inside, (==_iff _ n).1 sum, entry),
      assign_same level p s.patterns,
      assign_same level (fact (length p.permutable_infix)) s.size,
      refl,
      refl,
      make_pattern-once n user_prefix user_suffix pruned sum,
      λ l other. (rw other, rw other),
    )
