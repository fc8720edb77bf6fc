-- ===== src/Numeric/Counter.antt =====
-- CartesianCounterDynamic (include/util/numeric.hpp): a mixed-radix counter. The digits `value`
-- and their integer are kept side by side.
mod Tests
pub mod Digits
pub mod Laws
pub mod Setters
pub mod Overflow
pub mod Assign
use timeloop.Prelude.{
  ℕ, zero, suc, ◌+◌, ◌-◌, ◌*◌, ◌/◌, ◌%◌, ◌<◌, ◌≡◌, refl, Bool, true, false, Option, none, some,
  List, [], ◌∷◌, ltb, leb, ◌==◌, if◌then◌else◌, ◌>>=◌, ◌>>◌, guard, length, set, replicate, not,
}
use timeloop.Prelude.Words.{checked_add, checked_mul, pred128}

pub record Counter : Type 0 where
  pub order : ℕ
  pub base : List ℕ
  pub value : List ℕ
  pub integer : ℕ
  pub endint : ℕ

-- `endint_ *= base_[i]` over the positions
end_loop : List ℕ → ℕ → Option ℕ
end_loop [] endint = some endint
end_loop (b ∷ bs) endint = checked_mul endint b >>= end_loop bs

-- The constructor from a vector of bases: `resize`, then `Init`.
pub init : List ℕ → Option Counter
unfolding end_loop
init base = do
  endint ← end_loop base 1
  some (record {
    order = length base;
    base = base;
    value = replicate (length base) 0;
    integer = 0;
    endint = endint;
  })

-- The digits of a carry: the one that is left behind, and what the call on those above it makes.
pub carry_digit : ℕ → Option (List ℕ × Bool) → Option (List ℕ × Bool)
carry_digit digit rest = do (vs, done) ← rest; some (digit ∷ vs, done)

-- One position of `IncrementRecursive_`: its base, its digit, the digits above it, and what the
-- call on those returns.
pub increment_position : ℕ → ℕ → List ℕ → Option (List ℕ × Bool) → Option (List ℕ × Bool)
unfolding carry_digit
increment_position b v vs rest =
    if ltb v (pred128 b)
    then some ((v + 1) ∷ vs, true)
    else elim vs [ [] ↦ some (v ∷ [], false) | _ ∷ _ ↦ carry_digit 0 rest ]

-- `IncrementRecursive_`: the digits from `position` on, with their bases. A position at the end of
-- the vectors is read out of range.
pub increment_recursive : List ℕ → List ℕ → Option (List ℕ × Bool)
increment_recursive (b ∷ bs) (v ∷ vs) = increment_position b v vs (increment_recursive bs vs)
increment_recursive [] vs = none
increment_recursive (b ∷ bs) [] = none

-- `UpdateIntegerFromValue`
pub update_integer : ℕ → ℕ → List ℕ → List ℕ → Option ℕ
update_integer integer base bs [] = some integer
update_integer integer base [] (v ∷ vs) = none
update_integer integer base (b ∷ bs) (v ∷ vs) = do
  digit ← checked_mul v base
  integer' ← checked_add integer digit
  base' ← checked_mul base b
  update_integer integer' base' bs vs

-- `UpdateValueFromInteger`
pub update_value : List ℕ → ℕ → Option (List ℕ)
update_value [] n = some []
update_value (b ∷ bs) n = do guard (not (b == 0)); vs ← update_value bs (n / b); some ((n % b) ∷ vs)

-- `Increment`: the checked `integer_++`, then the digits.
pub increment : Counter → Option (Counter × Bool)
increment c = do
  integer ← checked_add c.integer 1
  (value, done) ← increment_recursive c.base c.value
  some (record c { integer = integer; value = value }, done)

-- `Set(uint128_t)`
pub set_integer : Counter → ℕ → Option Counter
set_integer c n = do
  guard (not (c.order == 0))
  guard (ltb n c.endint)
  value ← update_value c.base n
  some (record c { integer = n; value = value })

-- What the two other setters end with.
pub settle : Counter → Option Counter
settle c = do
  integer ← update_integer 0 1 c.base c.value
  guard (ltb integer c.endint)
  some (record c { integer = integer })

-- `Set(int, uint128_t)`
pub set_digit : Counter → ℕ → ℕ → Option Counter
unfolding settle
set_digit c dim v = do guard (ltb dim c.order); settle (record c { value = set c.value dim v })

-- `Set(std::vector<uint128_t>)`
pub set_value : Counter → List ℕ → Option Counter
unfolding settle
set_value c v = settle (record c { order = length v; value = v })
