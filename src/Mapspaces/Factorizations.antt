-- ===== src/Mapspaces/Factorizations.antt =====
-- IndexFactorizationSpace (include/mapspaces/subspaces.hpp, src/mapspaces/subspaces.cpp). The maps
-- that `Init` takes, from the dimensions of the problem, and the bounds of the workload are one list
-- of requests, one for each dimension.
pub mod Rows
mod Tests
use timeloop.Prelude.{
  ℕ, ◌%◌, ◌^◌, ltb, if◌then◌else◌, Option, some, none, List, [], ◌∷◌, map, length, get_elem?, ◌>>=◌,
}
use timeloop.Prelude.Words.{u32_mod, u64_mod}
use timeloop.Numeric.Counter.{Counter, set_integer}
use timeloop.Numeric.Counter
use timeloop.Numeric.Factors.{Factors, Given, init_given, prune_max, prune_min}
use timeloop.Numeric.Factors

-- The flattened bound of a dimension and its entries in the four maps.
pub record Request : Type 0 where
  pub bound : ℕ
  pub order : ℕ
  pub prefactors : Option Given
  pub maxfactors : Option (List (ℕ × ℕ))
  pub minfactors : Option (List (ℕ × ℕ))

pub record FactorSpace : Type 0 where
  pub dimension_factors : List Factors
  pub tiling_counter : Counter

-- The factor set of a dimension: the one constructor or the other.
pub build : Request → Option Factors
build q = elim q.prefactors [
  | none ↦ Factors.init q.bound q.order
  | some given ↦ init_given q.bound q.order given
]

-- The two prunings, where they are asked for.
pub prune : Request → Factors → Option Factors
prune q f = do
  g ← elim q.maxfactors [ none ↦ some f | some maxes ↦ prune_max f maxes ]
  elim q.minfactors [ none ↦ some g | some mins ↦ prune_min g mins ]

-- The loop of `Init`.
pub build_all : List Request → Option (List Factors)
build_all [] = some []
build_all (q ∷ qs) = do f ← build q; g ← prune q f; rest ← build_all qs; some (g ∷ rest)

-- `counter_base`
abbrev pub sizes : List Factors → List ℕ
sizes = map (λ f. length f.cofactors)

-- `Init`
pub init : List Request → Option FactorSpace
init qs = do
  factors ← build_all qs
  counter ← Counter.init (sizes factors)
  some (record { dimension_factors = factors; tiling_counter = counter })

-- The index of `Factors::operator[]`, which is an `int`: from 2 ^ 31 on it is negative and reads out of
-- range.
pub int_index : ℕ → Option ℕ
int_index n = if ltb (n % u32_mod) (2 ^ 31) then some (n % u32_mod) else none

-- `Factors::operator[]` at an index of 64 bits.
pub row_at : Factors → ℕ → Option (List ℕ)
row_at f n = do index ← int_index n; get_elem? f.cofactors index

-- `GetFactor`, which leaves the counter at the id.
pub get_factor : FactorSpace → ℕ → ℕ → ℕ → Option (ℕ × FactorSpace)
get_factor s nest_id dim level = do
  counter ← set_integer s.tiling_counter nest_id
  index ← get_elem? counter.value dim
  f ← get_elem? s.dimension_factors dim
  row ← row_at f (index % u64_mod)
  factor ← get_elem? row level
  some (factor, record s { tiling_counter = counter })

-- `Size`
unfoldable pub size_of : FactorSpace → ℕ
size_of s = s.tiling_counter.endint
