-- ===== src/Mapspaces/Uber/Construct/Stages.antt =====
-- `InitSubnests` and `PermuteSubnests` (src/mapspaces/uber.cpp): the subnests before the factors.
use timeloop.Prelude.{
  ℕ, zero, suc, ◌+◌, ◌<◌, ◌≤◌, ◌≡◌, refl, ap, ◌∙◌, inl, inr, Bool, true, some, List, [], ◌∷◌, map,
  ltb, ◌==◌, if◌then◌else◌, length, get_elem?, All, arith, Bool-cases, lt→ltb, le→ltb, ltb→le,
}
use timeloop.Mapping.Loops.{Descriptor, SpaceTime, time, space_x}
use timeloop.Numeric.Factoradic.Orders.{count}
use timeloop.Mapspaces.Uber.Assign.Levels.{of_dim}
use timeloop.Mapspaces.Uber.Assign.Nests.{EachOnce}
use timeloop.Mapspaces.Uber.Construct.{
  init_level_loops, init_subnests, permute_level, permute_subnests,
}

-- The dimensions below `n`, each once.
abbrev pub IsOrder : ℕ → List ℕ → Type 0
IsOrder n dims = (length dims ≡ n) × ((d : ℕ) → count d dims ≡ (if ltb d n then 1 else 0))

-- A placeholder loop.
abbrev pub blank : SpaceTime → ℕ → Descriptor
blank spacetime_dim d = record {
  dimension = d;
  start = 0;
  end = 0;
  residual_end = 0;
  stride = 1;
  spacetime_dimension = spacetime_dim;
}

abbrev pub facing : Bool → SpaceTime
facing spatial = if spatial then space_x else time

abbrev pub blanks : List Bool → List (List ℕ) → List (List Descriptor)
blanks [] patterns = []
blanks (spatial ∷ mask) [] = []
blanks (spatial ∷ mask) (dims ∷ patterns) = map (blank (facing spatial)) dims ∷ blanks mask patterns

get-init_level_loops :
    (st : SpaceTime) (left b i : ℕ)
    → i < left
    → get_elem? (init_level_loops st left b) i ≡ some (blank st (i + b))
unfolding init_level_loops
get-init_level_loops st zero b i h = absurd (omega arith)
get-init_level_loops st (suc left) b zero h = ap (λ d. some (blank st d)) (omega arith)
get-init_level_loops st (suc left) b (suc i) h =
    get-init_level_loops st left (b + 1) i (omega arith) ∙ ap (λ d. some (blank st d)) (omega arith)

length-init_level_loops : (st : SpaceTime) (left b : ℕ) → length (init_level_loops st left b) ≡ left
unfolding init_level_loops
length-init_level_loops st zero b = refl
length-init_level_loops st (suc left) b = ap suc (length-init_level_loops st left (b + 1))

pub count_low :
    (n : ℕ) (dims : List ℕ) → ((d : ℕ) → n ≤ d → count d dims ≡ 0) → All (λ d. d < n) dims
count_low n [] h = tt
count_low n (x ∷ xs) h = (
  elim (Bool-cases (ltb x n)) [
    | inl e ↦ ground arith
    | inr e ↦
        let self : (x == x) ≡ true = ground arith in
        let c = h x (ltb→le x n e) in
        absurd (omega (arith, c, ap (λ b. (if b then 1 else 0) + count x xs) self))
  ],
  count_low n xs (λ d k. omega (arith, h d k)),
)

IsOrder-low : (n : ℕ) (dims : List ℕ) → IsOrder n dims → All (λ d. d < n) dims
IsOrder-low n dims (_, counts) =
    count_low n dims (λ d k. counts d ∙ ap (λ b. if b then 1 else 0) (le→ltb d n k))

permute_level_lem :
    (st : SpaceTime) (n : ℕ) (dims : List ℕ)
    → All (λ d. d < n) dims
    → permute_level dims (init_level_loops st n 0) ≡ some (map (blank st) dims)
unfolding permute_level
permute_level_lem st n [] h = refl
permute_level_lem st n (d ∷ dims) (low, h) =
    let read : get_elem? (init_level_loops st n 0) d ≡ some (blank st d) =
      get-init_level_loops st n 0 d low ∙ ap (λ k. some (blank st k)) (omega arith) in
    let self : (d == d) ≡ true = ground arith in rw (read, self, permute_level_lem st n dims h) refl

pub permute_subnests_lem :
    (n : ℕ) (mask : List Bool) (patterns : List (List ℕ))
    → length mask ≡ length patterns
    → All (IsOrder n) patterns
    → permute_subnests patterns (init_subnests n mask) ≡ some (blanks mask patterns)
unfolding permute_subnests init_subnests
permute_subnests_lem n [] [] len h = refl
permute_subnests_lem n [] (dims ∷ patterns) len h = absurd (omega arith)
permute_subnests_lem n (spatial ∷ mask) [] len h = absurd (omega arith)
permute_subnests_lem n (spatial ∷ mask) (dims ∷ patterns) len (order, h) =
    let st : SpaceTime = facing spatial in
    let (size, _) = order in
    let same : (length dims == length (init_level_loops st n 0)) ≡ true =
      rw (length-init_level_loops st n 0, size) (ground arith) in
    rw
      (
        same,
        permute_level_lem st n dims (IsOrder-low n dims order),
        permute_subnests_lem n mask patterns (omega arith) h,
      )
      refl

length-of_dim :
    (st : SpaceTime) (d : ℕ) (dims : List ℕ)
    → length (of_dim d (map (blank st) dims)) ≡ count d dims
length-of_dim st d [] = refl
length-of_dim st d (x ∷ xs) = elim (Bool-cases (x == d)) [
  | inl e ↦ rw e (omega (arith, length-of_dim st d xs))
  | inr e ↦ rw e (omega (arith, length-of_dim st d xs))
]

blank_dims :
    (st : SpaceTime) (n : ℕ) (dims : List ℕ)
    → All (λ d. d < n) dims
    → All (λ loop. loop.dimension < n) (map (blank st) dims)
blank_dims st n [] h = tt
blank_dims st n (d ∷ dims) (low, h) = (low, blank_dims st n dims h)

pub blanks-EachOnce :
    (n : ℕ) (mask : List Bool) (patterns : List (List ℕ))
    → All (IsOrder n) patterns
    → All (EachOnce n) (blanks mask patterns)
blanks-EachOnce n [] patterns h = tt
blanks-EachOnce n (spatial ∷ mask) [] h = tt
blanks-EachOnce n (spatial ∷ mask) (dims ∷ patterns) (order, h) = (
  (
    blank_dims (facing spatial) n dims (IsOrder-low n dims order),
    λ d low.
        length-of_dim (facing spatial) d dims
        ∙ order.1 d
        ∙ ap (λ b. if b then 1 else 0) (lt→ltb d n low),
  ),
  blanks-EachOnce n mask patterns h,
)
