-- ===== src/Mapspaces/Permutations/Counting.antt =====
-- How often a dimension stands among those that `InitLevel` (src/mapspaces/subspaces.cpp) is given,
-- and among the rest.
use timeloop.Prelude.{
  ℕ, zero, suc, ◌+◌, ◌<◌, ◌≤◌, ◌≡◌, refl, sym, ap, ◌∙◌, true, false, List, [], ◌∷◌, ◌++◌, ◌==◌,
  length, arith, Bool-cases, inl, inr, if◌then◌else◌, All,
}
use timeloop.Numeric.Factoradic.Orders.{count}
use timeloop.Mapspaces.Permutations.{absent, found, dimensions_from}

-- The sum of a function over the numbers below a bound.
abbrev pub sum_below : ℕ → (ℕ → ℕ) → ℕ
sum_below zero f = 0
sum_below (suc n) f = f n + sum_below n f

pub sum_add : (n : ℕ) (f g : ℕ → ℕ) → sum_below n (λ d. f d + g d) ≡ sum_below n f + sum_below n g
sum_add zero f g = refl
sum_add (suc n) f g = omega (arith, sum_add n f g)

pub sum_zero : (n x : ℕ) → n ≤ x → sum_below n (λ d. if x == d then 1 else 0) ≡ 0
sum_zero zero x h = refl
sum_zero (suc n) x h =
    let ne : (x == n) ≡ false = ground arith in rw (ne, sum_zero n x (omega arith))

pub sum_one : (n x : ℕ) → sum_below n (λ d. if x == d then 1 else 0) ≤ 1
sum_one zero x = omega arith
sum_one (suc n) x = elim (Bool-cases (x == n)) [
  | inl same ↦ let low = sum_zero n x (ground arith) in rw same (omega (arith, low))
  | inr other ↦ rw other (omega (arith, sum_one n x))
]

pub sum_none : (n : ℕ) → sum_below n (λ d. 0) ≡ 0
sum_none zero = refl
sum_none (suc n) = omega (arith, sum_none n)

pub sum_exact : (n x : ℕ) → x < n → sum_below n (λ d. if x == d then 1 else 0) ≡ 1
sum_exact zero x h = absurd (omega arith)
sum_exact (suc n) x h = elim (Bool-cases (x == n)) [
  | inl same ↦ let low = sum_zero n x (ground arith) in rw same (omega (arith, low))
  | inr other ↦ rw other (omega (arith, sum_exact n x (ground arith)))
]

-- The occurrences of the numbers below a bound are as many as the list is long, at most.
pub sum-count : (n : ℕ) (xs : List ℕ) → sum_below n (λ d. count d xs) ≤ length xs
sum-count n [] = omega (arith, sum_none n)
sum-count n (x ∷ xs) =
    omega (
      arith,
      sum_add n (λ d. if x == d then 1 else 0) (λ d. count d xs),
      sum_one n x,
      sum-count n xs,
    )

pub sum_least : (n : ℕ) (f : ℕ → ℕ) → ((d : ℕ) → d < n → 1 ≤ f d) → n ≤ sum_below n f
sum_least zero f h = omega arith
sum_least (suc n) f h =
    let top = h n (omega arith) in omega (arith, sum_least n f (λ d k. h d (omega arith)))

-- Values of 1 or more that sum up to their number at most are all 1.
pub all_one :
    (n : ℕ) (f : ℕ → ℕ)
    → ((d : ℕ) → d < n → 1 ≤ f d)
    → sum_below n f ≤ n
    → (d : ℕ) → d < n
    → f d ≡ 1
all_one zero f h s d k = absurd (omega arith)
all_one (suc n) f h s d k =
    let top = h n (omega arith) in
    let low = sum_least n f (λ e l. h e (omega arith)) in
    elim (Bool-cases (d == n)) [
      | inl same ↦ let eq : d ≡ n = ground arith in rw eq (omega arith)
      | inr other ↦ all_one n f (λ e l. h e (omega arith)) (omega arith) d (ground arith)
    ]

pub true_ne_false : ¬ (true ≡ false)
true_ne_false e = cc

pub found-count : (d : ℕ) (xs : List ℕ) → found d xs ≡ true → 1 ≤ count d xs
found-count d [] h = cc
found-count d (x ∷ xs) h = elim (Bool-cases (x == d)) [
  | inl same ↦ rw same (omega arith)
  | inr other ↦
      let later : found d xs ≡ true = ground arith in
      rw other (omega (arith, found-count d xs later))
]

pub ne_of_found :
    (x d : ℕ) (known : List ℕ) → found x known ≡ true → found d known ≡ false → (x == d) ≡ false
ne_of_found x d known h k = elim (Bool-cases (x == d)) [
  | inl same ↦
      let eq : x ≡ d = ground arith in
      absurd (true_ne_false (sym h ∙ ap (λ t. found t known) eq ∙ k))
  | inr other ↦ other
]

-- A dimension stands among the known ones or among those that are not.
pub count-absent :
    (d : ℕ) (known xs : List ℕ) → found d known ≡ false → count d (absent known xs) ≡ count d xs
count-absent d known [] h = refl
count-absent d known (x ∷ xs) h = elim (Bool-cases (found x known)) [
  | inl is_known ↦
      let ne = ne_of_found x d known is_known h in
      rw (is_known, ne) (omega (arith, count-absent d known xs h))
  | inr new ↦ rw new (ap (λ (t : ℕ). (if x == d then 1 else 0) + t) (count-absent d known xs h))
]

pub count-dimensions : (n b d : ℕ) → b ≤ d → d < b + n → 1 ≤ count d (dimensions_from n b)
count-dimensions zero b d h k = absurd (omega arith)
count-dimensions (suc n) b d h k = elim (Bool-cases (b == d)) [
  | inl same ↦ rw same (omega arith)
  | inr other ↦ rw other (omega (arith, count-dimensions n (b + 1) d (ground arith) (omega arith)))
]

pub count-append : (d : ℕ) (xs ys : List ℕ) → count d (xs ++ ys) ≡ count d xs + count d ys
count-append d [] ys = omega arith
count-append d (x ∷ xs) ys = omega (arith, count-append d xs ys)

-- In a list of numbers below the bound, all occurrences are counted.
pub sum-count-eq :
    (n : ℕ) (xs : List ℕ) → All (λ x. x < n) xs → sum_below n (λ d. count d xs) ≡ length xs
sum-count-eq n [] h = sum_none n
sum-count-eq n (x ∷ xs) (below, h) = omega (
  arith,
  sum_add n (λ d. if x == d then 1 else 0) (λ d. count d xs),
  sum_exact n x below,
  sum-count-eq n xs h,
)

pub absent-below :
    (n : ℕ) (known xs : List ℕ) → All (λ x. x < n) xs → All (λ x. x < n) (absent known xs)
absent-below n known [] h = tt
absent-below n known (x ∷ xs) (below, h) = elim (Bool-cases (found x known)) [
  | inl is_known ↦ rw is_known (absent-below n known xs h)
  | inr new ↦ rw new (below, absent-below n known xs h)
]

pub dimensions_below : (m n b : ℕ) → b + n ≤ m → All (λ x. x < m) (dimensions_from n b)
dimensions_below m zero b h = tt
dimensions_below m (suc n) b h = (omega arith, dimensions_below m n (b + 1) (omega arith))

pub count-dimensions_low : (n b d : ℕ) → d < b → count d (dimensions_from n b) ≡ 0
count-dimensions_low zero b d h = refl
count-dimensions_low (suc n) b d h =
    let ne : (b == d) ≡ false = ground arith in
    rw ne (omega (arith, count-dimensions_low n (b + 1) d (omega arith)))

pub count-dimensions_most : (n b d : ℕ) → count d (dimensions_from n b) ≤ 1
count-dimensions_most zero b d = omega arith
count-dimensions_most (suc n) b d = elim (Bool-cases (b == d)) [
  | inl same ↦ rw same (omega (arith, count-dimensions_low n (b + 1) d (ground arith)))
  | inr other ↦ rw other (omega (arith, count-dimensions_most n (b + 1) d))
]

pub count-absent_known :
    (d : ℕ) (known xs : List ℕ) → found d known ≡ true → count d (absent known xs) ≡ 0
count-absent_known d known [] h = refl
count-absent_known d known (x ∷ xs) h = elim (Bool-cases (found x known)) [
  | inl is_known ↦ rw is_known (count-absent_known d known xs h)
  | inr new ↦
      let ne : (x == d) ≡ false = elim (Bool-cases (x == d)) [
        | inl same ↦
            let eq : x ≡ d = ground arith in
            absurd (true_ne_false (sym h ∙ ap (λ t. found t known) (sym eq) ∙ new))
        | inr other ↦ other
      ] in
      rw (new, ne) (omega (arith, count-absent_known d known xs h))
]

pub found-count_zero : (d : ℕ) (xs : List ℕ) → found d xs ≡ false → count d xs ≡ 0
found-count_zero d [] h = refl
found-count_zero d (x ∷ xs) h =
    let ne : (x == d) ≡ false = ground arith in
    let later : found d xs ≡ false = ground arith in
    rw ne (omega (arith, found-count_zero d xs later))

pub sum_most : (n : ℕ) (f : ℕ → ℕ) → ((d : ℕ) → f d ≤ 1) → sum_below n f ≤ n
sum_most zero f h = omega arith
sum_most (suc n) f h = let top = h n in omega (arith, sum_most n f h)
