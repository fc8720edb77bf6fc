-- ===== src/Mapspaces/Permutations.antt =====
-- PermutationSpace (include/mapspaces/subspaces.hpp, src/mapspaces/subspaces.cpp). A dimension of the
-- problem is its number; the workload gives how many there are. A map from levels is a function.
pub mod Ids
pub mod Counting
pub mod Levels
pub mod Keeps
mod Tests
use timeloop.Prelude.{
  ℕ, zero, suc, ◌+◌, ◌*◌, ◌/◌, ◌%◌, Bool, true, false, not, ◌||◌, Option, some, none, List, [], ◌∷◌,
  ◌++◌, ltb, ◌==◌, if◌then◌else◌, guard, ◌>>=◌, ◌>>◌, length,
}
use timeloop.Prelude.Words.{u64_mod, u128_mod}
use timeloop.Numeric.Factoradic.{factorial, permute}

pub record Pattern : Type 0 where
  pub baked_prefix : List ℕ
  pub permutable_infix : List ℕ
  pub baked_suffix : List ℕ

pub record PermutationSpace : Type 0 where
  pub num_dimensions : ℕ
  pub num_levels : ℕ
  pub patterns : ℕ → Option Pattern
  pub size : ℕ → Option ℕ

-- `map[level] = value`
abbrev pub assign : {A : Type 0} → ℕ → A → (ℕ → Option A) → ℕ → Option A
assign level value table l = if l == level then some value else table l

-- `std::find`
abbrev pub found : ℕ → List ℕ → Bool
found d [] = false
found d (x ∷ xs) = (x == d) || found d xs

-- The entries of the second list that are not in the first, in order.
abbrev pub absent : List ℕ → List ℕ → List ℕ
absent known [] = []
absent known (x ∷ xs) = if found x known then absent known xs else x ∷ absent known xs

-- `n` dimensions from `d` on: a `std::set` of numbers goes through them in order.
abbrev pub dimensions_from : ℕ → ℕ → List ℕ
dimensions_from zero d = []
dimensions_from (suc n) d = d ∷ dimensions_from n (d + 1)

-- `Init`
pub init : ℕ → ℕ → PermutationSpace
init num_dimensions num_levels = record {
  num_dimensions = num_dimensions;
  num_levels = num_levels;
  patterns = λ level. none;
  size = λ level. none;
}

-- The pattern that `InitLevel` makes.
pub make_pattern : ℕ → List ℕ → List ℕ → List ℕ → Pattern
make_pattern num_dimensions user_prefix user_suffix pruned =
    let prefix : List ℕ = pruned ++ absent pruned user_prefix in
    let suffix : List ℕ = absent pruned user_suffix in
    record {
      baked_prefix = prefix;
      permutable_infix = absent (prefix ++ suffix) (dimensions_from num_dimensions 0);
      baked_suffix = suffix;
    }

-- `InitLevel`
pub init_level : ℕ → List ℕ → List ℕ → List ℕ → PermutationSpace → Option PermutationSpace
init_level level user_prefix user_suffix pruned s = do
  guard (ltb level s.num_levels)
  let p : Pattern = make_pattern s.num_dimensions user_prefix user_suffix pruned
  guard (
      (length p.baked_prefix + length p.permutable_infix + length p.baked_suffix)
      == s.num_dimensions)
  n ← factorial (length p.permutable_infix)
  some (record s { patterns = assign level p s.patterns; size = assign level n s.size })

-- `InitLevelCanonical`: all dimensions are the prefix, in order.
pub init_level_canonical : ℕ → PermutationSpace → Option PermutationSpace
init_level_canonical level s = init_level level (dimensions_from s.num_dimensions 0) [] [] s

-- The infix at one level of `GetPatterns`, and the rest of the id.
pub permuted_infix : List ℕ → Option ℕ → ℕ → Option (List ℕ × ℕ)
permuted_infix [] size id = some ([], id)
permuted_infix (x ∷ xs) size id = do
  n ← size
  guard (not (n == 0))
  zs ← permute (x ∷ xs) (id % n % u64_mod)
  some (zs, id / n)

-- The loop of `GetPatterns` from `level` on, with the levels left.
pub patterns_loop : PermutationSpace → ℕ → ℕ → ℕ → Option (List (List ℕ))
patterns_loop s zero level id = some []
patterns_loop s (suc left) level id = do
  p ← s.patterns level
  (infix_now, rest_id) ← permuted_infix p.permutable_infix (s.size level) id
  rest ← patterns_loop s left (level + 1) rest_id
  some (((p.baked_prefix ++ infix_now) ++ p.baked_suffix) ∷ rest)

-- `GetPatterns`
pub get_patterns : PermutationSpace → ℕ → Option (List (List ℕ))
get_patterns s id = patterns_loop s s.num_levels 0 id

-- The loop of `Size` from `level` on.
pub size_product : PermutationSpace → ℕ → ℕ → ℕ → Option ℕ
size_product s zero level product = some product
size_product s (suc left) level product = do
  n ← s.size level
  size_product s left (level + 1) (product * n % u128_mod)

-- `Size`
pub size_of : PermutationSpace → Option ℕ
size_of s = size_product s s.num_levels 0 1
