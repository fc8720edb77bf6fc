-- ===== src/Search.antt =====
-- The search algorithms over a mapspace (src/search): what they share (include/search/search.hpp,
-- include/mapspaces/mapspace-base.hpp).
mod Tests
pub mod Ids
pub mod Order
pub mod Uniform
pub mod Close
pub mod Settle
pub mod Round
pub mod Complete
pub mod LinearPruned
pub mod Exhaustive
use timeloop.Prelude.{ℕ, suc, ◌+◌, ◌*◌, ◌%◌, ◌-◌, ◌<◌, List, [], ◌∷◌, Option, some, ◌>>=◌}
use timeloop.Prelude.Words.{u128_mod}
use timeloop.Numeric.Counter.{Counter, init, set_digit}

-- `mapspace::Dimension`
pub data Dimension : Type 0 where
  index_factorization loop_permutation spatial datatype_bypass : Dimension

-- An array with one number for each dimension: `AllSizes`, and the iterator of a search.
pub record Indices : Type 0 where
  pub factors : ℕ
  pub permutation : ℕ
  pub split : ℕ
  pub bypass : ℕ

abbrev pub get : Indices → Dimension → ℕ
get it index_factorization = it.factors
get it loop_permutation = it.permutation
get it spatial = it.split
get it datatype_bypass = it.bypass

abbrev pub put : Dimension → ℕ → Indices → Indices
put index_factorization n it = record it { factors = n }
put loop_permutation n it = record it { permutation = n }
put spatial n it = record it { split = n }
put datatype_bypass n it = record it { bypass = n }

abbrev pub read : Indices → List ℕ
read it = it.factors ∷ it.permutation ∷ it.split ∷ it.bypass ∷ []

-- `search::Status`
pub data Status : Type 0 where
  success mapping_construction_failure eval_failure : Status

-- `State`
pub data State : Type 0 where
  ready waiting_for_status terminated : State

-- `++` on `uint128_t`.
abbrev pub inc128 : ℕ → ℕ
inc128 n = (n + 1) % u128_mod

-- `mapping_id.Set(i, ...)` for the dimensions from `i` on.
unfoldable pub set_digits : ℕ → List ℕ → Counter → Option Counter
set_digits i [] c = some c
set_digits i (v ∷ vs) c = set_digit c i v >>= set_digits (i + 1) vs

-- The mapping ID that `Next` makes of the iterator.
unfoldable pub make_id : Indices → Indices → Option Counter
make_id sizes it = init (read sizes) >>= set_digits 0 (read it)
