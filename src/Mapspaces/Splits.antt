-- ===== src/Mapspaces/Splits.antt =====
-- SpatialSplitSpace (include/mapspaces/subspaces.hpp, src/mapspaces/subspaces.cpp). The four maps
-- from levels have an entry at the same levels, so one map has it. `retval` is a list of its
-- entries in the order of their levels.
pub mod Ids
pub mod Keeps
mod Tests
use timeloop.Prelude.{
  ℕ, zero, suc, ◌+◌, ◌-◌, ◌*◌, ◌/◌, ◌%◌, Bool, true, false, not, Option, some, none, List, [], ◌∷◌,
  ltb, ◌==◌, if◌then◌else◌, guard, ◌>>=◌, ◌>>◌,
}
use timeloop.Prelude.Words.{u32_mod, u64_mod, u128_mod}

-- The entries at one level: of `user_splits_`, or of `unit_factors_` and `size_`.
pub data Level : Type 0 where
  user_specified : ℕ → Level
  variable : ℕ → ℕ → Level

pub record SplitSpace : Type 0 where
  pub num_dimensions : ℕ
  pub num_levels : ℕ
  pub levels : ℕ → Option Level

-- `size_[level]`
abbrev pub level_size : Level → ℕ
level_size (user_specified split) = 1
level_size (variable unit_factors size) = size

-- `Init`
pub init : ℕ → ℕ → SplitSpace
init num_dimensions num_levels = record {
  num_dimensions = num_dimensions;
  num_levels = num_levels;
  levels = λ level. none;
}

pub set_level : ℕ → Level → SplitSpace → SplitSpace
set_level level entry s = record s { levels = λ l. if l == level then some entry else s.levels l }

-- `InitLevel`: the size is an `int` less an `unsigned`, which wraps at 32 bits.
pub init_level : ℕ → ℕ → SplitSpace → Option SplitSpace
unfolding set_level
init_level level unit_factors s = do
  guard (ltb level s.num_levels)
  some (
      set_level level
        (variable unit_factors ((s.num_dimensions + 1 + u32_mod - unit_factors) % u32_mod)) s)

-- `InitLevelUserSpecified`
pub init_level_user_specified : ℕ → ℕ → SplitSpace → Option SplitSpace
unfolding set_level
init_level_user_specified level user_split s =
    guard (ltb level s.num_levels) >> some (set_level level (user_specified user_split) s)

-- One level of `GetSplits`: its split and the rest of the id.
pub split_at : Level → ℕ → Option (ℕ × ℕ)
split_at (user_specified split) id = some (split, id)
split_at (variable unit_factors size) id = do
  guard (not (size == 0))
  some ((unit_factors + id % size % u32_mod) % u32_mod, id / size)

-- The loop of `GetSplits` from `level` on, with the levels left.
pub splits_loop : SplitSpace → ℕ → ℕ → ℕ → Option (List (ℕ × ℕ))
splits_loop s zero level id = some []
splits_loop s (suc left) level id = elim (s.levels level) [
  | none ↦ splits_loop s left (level + 1) id
  | some entry ↦ do
    (split, rest_id) ← split_at entry id
    rest ← splits_loop s left (level + 1) rest_id
    some ((level, split) ∷ rest)
]

-- `GetSplits`
pub get_splits : SplitSpace → ℕ → Option (List (ℕ × ℕ))
get_splits s id = splits_loop s s.num_levels 0 id

-- The loop of `Size` over the levels with an entry.
pub size_product : SplitSpace → ℕ → ℕ → ℕ → ℕ
size_product s zero level product = product
size_product s (suc left) level product = elim (s.levels level) [
  | none ↦ size_product s left (level + 1) product
  | some entry ↦ size_product s left (level + 1) (product * level_size entry % u128_mod)
]

-- `Size`
pub size_of : SplitSpace → ℕ
size_of s = size_product s s.num_levels 0 1
