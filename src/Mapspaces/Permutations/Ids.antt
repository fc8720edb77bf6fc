-- ===== src/Mapspaces/Permutations/Ids.antt =====
-- `GetPatterns` and `Size` of PermutationSpace (src/mapspaces/subspaces.cpp), and the patterns
-- that they read.
use native.Mathlib.Nat.{mod-lt, mod-eq_of_lt, mul_assoc, le-mul_of_pos_right, mul-pos}
use timeloop.Prelude.{
  ℕ, ◌+◌, ◌*◌, ◌/◌, ◌%◌, ◌<◌, ◌≤◌, ◌≡◌, refl, sym, subst, ap, ◌∙◌, false, some, List, [], ◌∷◌, ◌++◌,
  ◌==◌, length, arith,
}
use timeloop.Prelude.Words.{u64_mod, u128_mod}
use timeloop.Numeric.Factoradic.{permute, max_length}
use timeloop.Numeric.Factoradic.Orders.{fact, fact_pos, fact_mono, SameItems, permute_lem}
use timeloop.Numeric.Factoradic.Items.{SameItems-length}
use timeloop.Numeric.Counter.Digits.{div_digit, mod_digit, digit_bound}
use timeloop.Mapspaces.Permutations.{
  Pattern, PermutationSpace, permuted_infix, patterns_loop, get_patterns, size_product, size_of,
}

-- The levels from one on have these patterns, with the sizes that `InitLevel` sets.
abbrev pub Describes : PermutationSpace → ℕ → List Pattern → Type 0
Describes s level [] = Unit
Describes s level (p ∷ ps) =
    (s.patterns level ≡ some p)
    × (s.size level ≡ some (fact (length p.permutable_infix)))
    × (length p.permutable_infix ≤ max_length)
    × Describes s (level + 1) ps

-- The number of choices.
abbrev pub choices : List Pattern → ℕ
choices [] = 1
choices (p ∷ ps) = fact (length p.permutable_infix) * choices ps

-- One order of the infix for each level.
abbrev pub Chosen : List Pattern → List (List ℕ) → Type 0
Chosen [] [] = Unit
Chosen [] (zs ∷ zss) = ⊥
Chosen (p ∷ ps) [] = ⊥
Chosen (p ∷ ps) (zs ∷ zss) = SameItems p.permutable_infix zs × Chosen ps zss

-- The patterns with these infixes.
abbrev pub with_infixes : List Pattern → List (List ℕ) → List (List ℕ)
with_infixes [] zss = []
with_infixes (p ∷ ps) [] = []
with_infixes (p ∷ ps) (zs ∷ zss) = ((p.baked_prefix ++ zs) ++ p.baked_suffix) ∷ with_infixes ps zss

choices_pos : (ps : List Pattern) → 0 < choices ps
choices_pos [] = omega arith
choices_pos (p ∷ ps) = mul-pos (fact_pos (length p.permutable_infix)) (choices_pos ps)

small_index : (n i : ℕ) → n ≤ max_length → i < fact n → i % u64_mod ≡ i
small_index n i h k = mod-eq_of_lt (omega (arith, fact_mono n 20 h))

-- One level, with the order that `Permute` gives.
permuted_infix-step :
    (x : ℕ) (xs zs : List ℕ) (n id : ℕ)
    → 0 < n
    → permute (x ∷ xs) (id % n % u64_mod) ≡ some zs
    → permuted_infix (x ∷ xs) (some n) id ≡ some (zs, id / n)
unfolding permuted_infix
permuted_infix-step x xs zs n id pos run = let ne : (n == 0) ≡ false = ground arith in rw (ne, run)

-- An id splits into an order at this level and the id of the levels behind it.
infix_order :
    (xs : List ℕ) (id : ℕ)
    → length xs ≤ max_length
    → (zs : List ℕ) × (permuted_infix xs (some (fact (length xs))) id
        ≡ some (zs, id / fact (length xs)))
      × SameItems xs zs
unfolding permuted_infix
infix_order [] id h = ([], ap (λ (t : ℕ). some ([], t)) (omega arith), λ a. refl)
infix_order (x ∷ xs) id h =
    let n : ℕ = fact (length (x ∷ xs)) in
    let below : id % n < n = mod-lt id (fact_pos (length (x ∷ xs))) in
    let (zs, run, same) = (permute_lem (x ∷ xs) (x ∷ xs) (omega arith) h refl).0 (id % n) below in
    (
      zs,
      permuted_infix-step x xs zs n id (fact_pos (length (x ∷ xs)))
          (rw (small_index (length (x ∷ xs)) (id % n) h below) run),
      same,
    )

-- Each order is that of an index, with any id behind it.
infix_index :
    (xs zs : List ℕ) (rest : ℕ)
    → length xs ≤ max_length
    → SameItems xs zs
    → (index : ℕ) × (index < fact (length xs))
      × (permuted_infix xs (some (fact (length xs))) (index + fact (length xs) * rest)
          ≡ some (zs, rest))
unfolding permuted_infix
infix_index [] [] rest h same = (0, omega arith, ap (λ (t : ℕ). some ([], t)) (omega arith))
infix_index [] (z ∷ zs) rest h same =
    absurd (let len = SameItems-length [] (z ∷ zs) same in omega arith)
infix_index (x ∷ xs) zs rest h same =
    let n : ℕ = fact (length (x ∷ xs)) in
    let (index, below, run) =
      (permute_lem (x ∷ xs) zs (omega arith) h (SameItems-length (x ∷ xs) zs same)).1 same in
    let digit = mod_digit index n rest below in
    let run' : permute (x ∷ xs) ((index + n * rest) % n % u64_mod) ≡ some zs =
      rw (digit, small_index (length (x ∷ xs)) index h below) run in
    (
      index,
      below,
      permuted_infix-step x xs zs n (index + n * rest) (fact_pos (length (x ∷ xs))) run'
          ∙ ap (λ (t : ℕ). some (zs, t)) (div_digit index n rest below),
    )

-- The loop of `GetPatterns`: an id below the choices gives one, and each choice has an id.
patterns_loop-Chosen :
    (s : PermutationSpace) (level : ℕ) (ps : List Pattern) (id : ℕ)
    → Describes s level ps
    → (zss : List (List ℕ)) × (patterns_loop s (length ps) level id ≡ some (with_infixes ps zss))
      × Chosen ps zss
unfolding patterns_loop
patterns_loop-Chosen s level [] id d = ([], refl, tt)
patterns_loop-Chosen s level (p ∷ ps) id (known, sized, short, d) =
    let (zs, run, same) = infix_order p.permutable_infix id short in
    let (zss, rest, chosen) =
      patterns_loop-Chosen s (level + 1) ps (id / fact (length p.permutable_infix)) d in
    (zs ∷ zss, rw (known, sized, run, rest), (same, chosen))

patterns_loop-finds :
    (s : PermutationSpace) (level : ℕ) (ps : List Pattern) (zss : List (List ℕ))
    → Describes s level ps
    → Chosen ps zss
    → (id : ℕ) × (id < choices ps)
      × (patterns_loop s (length ps) level id ≡ some (with_infixes ps zss))
unfolding patterns_loop
patterns_loop-finds s level [] [] d c = (0, omega arith, refl)
patterns_loop-finds s level [] (zs ∷ zss) d c = absurd c
patterns_loop-finds s level (p ∷ ps) [] d c = absurd c
patterns_loop-finds s level (p ∷ ps) (zs ∷ zss) (known, sized, short, d) (same, c) =
    let (rest, below, run) = patterns_loop-finds s (level + 1) ps zss d c in
    let (index, small, now) = infix_index p.permutable_infix zs rest short same in
    (
      index + fact (length p.permutable_infix) * rest,
      digit_bound index (fact (length p.permutable_infix)) rest (choices ps) small below,
      rw (known, sized, now, run),
    )

size_product-choices :
    (s : PermutationSpace) (level : ℕ) (ps : List Pattern) (product : ℕ)
    → Describes s level ps
    → product * choices ps < u128_mod
    → size_product s (length ps) level product ≡ some (product * choices ps)
unfolding size_product
size_product-choices s level [] product d h = ap some (omega arith)
size_product-choices s level (p ∷ ps) product (known, sized, short, d) h =
    let f : ℕ = fact (length p.permutable_infix) in
    let eq : product * f * choices ps ≡ product * (f * choices ps) =
      mul_assoc product f (choices ps) in
    let le : product * f ≤ product * f * choices ps =
      le-mul_of_pos_right (product * f) (choices_pos ps) in
    let fits : product * f % u128_mod ≡ product * f = mod-eq_of_lt (omega arith) in
    rw (sized, fits, size_product-choices s (level + 1) ps (product * f) d (omega arith))
      (ap some eq)

-- A space whose levels all have a pattern with an infix in the factorial table, and whose choices
-- fit in 128 bits: `Size` is the number of choices of one order of the infix at each level;
-- `GetPatterns` succeeds at every id below it, with a choice put between the prefix and the suffix
-- of each level, and it gives every such choice at some id below it.
pub get_patterns_lem :
    (s : PermutationSpace) (ps : List Pattern)
    → s.num_levels ≡ length ps
    → Describes s 0 ps
    → choices ps < u128_mod
    → (size_of s ≡ some (choices ps))
      × ((id : ℕ)
          → id < choices ps
          → (zss : List (List ℕ)) × (get_patterns s id ≡ some (with_infixes ps zss))
            × Chosen ps zss)
      × ((zss : List (List ℕ))
          → Chosen ps zss
          → (id : ℕ) × (id < choices ps) × (get_patterns s id ≡ some (with_infixes ps zss)))
unfolding get_patterns size_of
get_patterns_lem s ps levels d fits =
    let one : 1 * choices ps ≡ choices ps = omega arith in
    (
      subst (λ n. size_product s n 0 1 ≡ some (choices ps)) (sym levels)
          (size_product-choices s 0 ps 1 d (omega arith) ∙ ap some one),
      λ id below.
          subst
            (λ n.
              (zss : List (List ℕ)) × (patterns_loop s n 0 id ≡ some (with_infixes ps zss))
              × Chosen ps zss)
            (sym levels) (patterns_loop-Chosen s 0 ps id d),
      λ zss c.
          subst
            (λ n.
              (id : ℕ) × (id < choices ps) × (patterns_loop s n 0 id ≡ some (with_infixes ps zss)))
            (sym levels) (patterns_loop-finds s 0 ps zss d c),
    )
