-- ===== src/Numeric/Factors.antt =====
-- Factors (include/util/numeric.hpp, src/util/numeric.cpp): the factorizations of a loop bound into
-- a fixed number of factors, one for each tiling level. `unsigned long` has 64 bits.
mod Tests
pub mod Sqrt
pub mod Divisors
pub mod Split
pub mod Given
pub mod Prune
use timeloop.Prelude.{
  ℕ, zero, suc, ◌+◌, ◌-◌, ◌*◌, ◌/◌, ◌%◌, ◌^◌, ◌<◌, ◌≡◌, refl, Bool, true, false, Option, none, some,
  List, [], ◌∷◌, ◌++◌, map, ltb, leb, ◌==◌, if◌then◌else◌, ◌>>=◌, ◌>>◌, guard, length, get_elem?,
  not,
}
use timeloop.Prelude.Words.{u64_mod}

-- `while (one > op) one >>= 2`
pub shrink : ℕ → ℕ → ℕ → ℕ
shrink zero one op = one
shrink (suc fuel) one op = let rest = shrink fuel (one / 4) op in if ltb op one then rest else one

-- The body of the second loop: the new `op` and `res`.
pub root_step : ℕ → ℕ → ℕ → ℕ × ℕ
root_step op res one =
    let trial = (res + one) % u64_mod in
    if leb trial op then (op - trial, (res + one * 2) % u64_mod / 2) else (op, res / 2)

-- `while (one != 0)`
pub root_loop : ℕ → ℕ → ℕ → ℕ → ℕ
root_loop zero op res one = res
root_loop (suc fuel) op res one =
    let rest = (let (op', res') = root_step op res one in root_loop fuel op' res' (one / 4)) in
    if one == 0 then res else rest

-- Each loop quarters `one`, which starts at 2 ^ 30, so sixteen rounds bring it to 0.
abbrev pub root_rounds : ℕ
root_rounds = 16

-- `ISqrt_`
pub isqrt : ℕ → ℕ
isqrt x = root_loop root_rounds x 0 (shrink root_rounds 1073741824 x)

-- The body of the loop of `CalculateAllFactors_`: what it appends for `i`.
pub factor_pair : ℕ → ℕ → List ℕ
factor_pair n i = if n % i == 0 then (if i * i == n then i ∷ [] else i ∷ (n / i) ∷ []) else []

pub factor_loop : ℕ → ℕ → ℕ → List ℕ
factor_loop zero n i = []
factor_loop (suc rounds) n i = factor_pair n i ++ factor_loop rounds n (i + 1)

-- `CalculateAllFactors_`. Since `i` is at most `ISqrt_(of)`, `i * i` does not wrap.
pub all_factors : ℕ → List ℕ
all_factors n = factor_loop (isqrt n) n 1

-- The loop of `MultiplicativeSplitRecursive_` over the factors, with the recursive call.
pub split_over : (ℕ → Option (List (List ℕ))) → ℕ → List ℕ → Option (List (List ℕ))
split_over recur n [] = some []
split_over recur n (f ∷ fs) =
    if n % f == 0
    then (do
      subproblem ← recur (n / f)
      rest ← split_over recur n fs
      some (map (λ v. v ++ (f ∷ [])) subproblem ++ rest))
    else split_over recur n fs

-- `MultiplicativeSplitRecursive_` over the list `all_factors_`. The assertion fails at order 0 for
-- a number other than 1.
pub multiplicative_split : List ℕ → ℕ → ℕ → Option (List (List ℕ))
multiplicative_split factors zero n = if n == 1 then some ([] ∷ []) else none
multiplicative_split factors (suc zero) n = some ((n ∷ []) ∷ [])
multiplicative_split factors (suc (suc order)) n =
    split_over (multiplicative_split factors (suc order)) n factors

pub record Factors : Type 0 where
  pub n : ℕ
  pub all : List ℕ
  pub cofactors : List (List ℕ)

-- `Factors(n, order)`
pub init : ℕ → ℕ → Option Factors
init n order = do
  cofactors ← multiplicative_split (all_factors n) order n
  some (record { n = n; all = all_factors n; cofactors = cofactors })

-- What is left of the bound after one given factor: `ceil` of a quotient of doubles. It is exact for
-- a number below 2 ^ 53; a greater one, of which the doubles lose digits, is left out. A factor 0
-- divides by zero.
pub divide_out : ℕ → ℕ → Option ℕ
divide_out remaining factor =
    if factor == 0
    then none
    else if remaining % factor == 0
    then some (remaining / factor)
    else if ltb remaining (2 ^ 53)
    then some ((remaining + factor - 1) / factor)
    else none

-- The `std::map` of given factors, as its entries in the order of their keys.
abbrev pub Given : Type 0
Given = List (ℕ × ℕ)

pub remaining_after : ℕ → Given → Option ℕ
unfolding divide_out
remaining_after remaining [] = some remaining
remaining_after remaining ((i, factor) ∷ given) =
    divide_out remaining factor >>= λ rest. remaining_after rest given

-- `cofactors.insert(cofactors.begin() + index, value)`
pub insert_at : ℕ → ℕ → List ℕ → Option (List ℕ)
insert_at zero value xs = some (value ∷ xs)
insert_at (suc index) value [] = none
insert_at (suc index) value (x ∷ xs) = insert_at index value xs >>= λ ys. some (x ∷ ys)

pub insert_given : Given → List ℕ → Option (List ℕ)
insert_given [] cofactors = some cofactors
insert_given ((index, value) ∷ given) cofactors =
    insert_at index value cofactors >>= insert_given given

pub insert_given_all : Given → List (List ℕ) → Option (List (List ℕ))
insert_given_all given [] = some []
insert_given_all given (row ∷ rows) = do
  row' ← insert_given given row
  rows' ← insert_given_all given rows
  some (row' ∷ rows')

-- `Factors(n, order, given)`
pub init_given : ℕ → ℕ → Given → Option Factors
init_given n order given = do
  guard (leb (length given) order)
  remaining ← remaining_after n given
  rows ← multiplicative_split (all_factors remaining) (order - length given) remaining
  cofactors ← insert_given_all given rows
  some (record { n = n; all = all_factors remaining; cofactors = cofactors })

-- The inner loops of `PruneMax` and `PruneMin`: is the set illegal? `at` throws out of range.
pub exceeds_max : List (ℕ × ℕ) → List ℕ → Option Bool
exceeds_max [] row = some false
exceeds_max ((index, max) ∷ maxes) row = do
  value ← get_elem? row index
  let rest = exceeds_max maxes row
  if ltb max value then some true else rest

pub misses_min : List (ℕ × ℕ) → List ℕ → Option Bool
misses_min [] row = some false
misses_min ((index, min) ∷ mins) row = do
  value ← get_elem? row index
  let rest = misses_min mins row
  if ltb value min then some true else rest

-- The outer loop, which erases the illegal sets.
pub erase_illegal : (List ℕ → Option Bool) → List (List ℕ) → Option (List (List ℕ))
erase_illegal illegal [] = some []
erase_illegal illegal (row ∷ rows) = do
  bad ← illegal row
  rest ← erase_illegal illegal rows
  some (if bad then rest else row ∷ rest)

pub prune_max : Factors → List (ℕ × ℕ) → Option Factors
unfolding exceeds_max erase_illegal
prune_max f maxes = do
  rows ← erase_illegal (exceeds_max maxes) f.cofactors
  some (record f { cofactors = rows })

pub prune_min : Factors → List (ℕ × ℕ) → Option Factors
unfolding misses_min erase_illegal
prune_min f mins = do
  rows ← erase_illegal (misses_min mins) f.cofactors
  some (record f { cofactors = rows })
