-- ===== src/Mapspaces/Uber/Bypass.antt =====
-- The data-type bypass space of the Uber mapspace (`InitDatatypeBypassNestSpace` and
-- `ConstructDatatypeBypassNest` of src/mapspaces/uber.cpp). A mask nest, a bitset for each data
-- space, is a function from the data space and the level. There is a data space at least.
pub mod Choices
pub mod Masks
pub mod Space
pub mod Sizes
mod Tests
use timeloop.Prelude.{
  ℕ, zero, suc, ◌+◌, ◌-◌, ◌%◌, ◌^◌, Bool, true, false, not, ◌&&◌, Option, some, none, List, [], ◌∷◌,
  ◌++◌, map, ltb, leb, ◌==◌, if◌then◌else◌, guard, ◌>>=◌, ◌>>◌, length, get_elem?,
}
use timeloop.Prelude.Words.{u32_mod}

-- `CompoundMaskNest`
abbrev pub MaskNest : Type 0
MaskNest = ℕ → ℕ → Bool

-- `MaxTilingLevels`, the length of a bitset
abbrev pub max_tiling_levels : ℕ
max_tiling_levels = 32

-- The characters '0', '1' and 'X' of a user's string, and any other.
pub data MaskSpec : Type 0 where
  bypass : MaskSpec
  keep : MaskSpec
  evaluate_both : MaskSpec
  unknown : MaskSpec

abbrev pub is_place : ℕ → ℕ → ℕ → ℕ → Bool
is_place pvi level p l = (p == pvi) && (l == level)

-- `at(pvi).set(level)` and `at(pvi).reset(level)`
pub set_bit : ℕ → ℕ → Bool → MaskNest → MaskNest
set_bit pvi level bit nest = λ p l. if is_place pvi level p l then bit else nest p l

-- The copy of the space, with the bit reset in the space and set in the copy.
pub expand : ℕ → ℕ → List MaskNest → List MaskNest
expand pvi level space = map (set_bit pvi level false) space ++ map (set_bit pvi level true) space

-- The `switch` on a character.
pub apply_spec : ℕ → ℕ → MaskSpec → List MaskNest → Option (List MaskNest)
apply_spec pvi level bypass space = some (map (set_bit pvi level false) space)
apply_spec pvi level keep space = some (map (set_bit pvi level true) space)
apply_spec pvi level evaluate_both space = some (expand pvi level space)
apply_spec pvi level unknown space = none

-- The loop over the characters of a string, from `level` on.
pub user_levels : ℕ → List MaskSpec → ℕ → List MaskNest → Option (List MaskNest)
user_levels pvi [] level space = some space
user_levels pvi (spec ∷ specs) level space = do
  edited ← apply_spec pvi level spec space
  user_levels pvi specs (level + 1) edited

-- The loop over the `left` levels from `level` on that the string leaves out.
pub other_levels : ℕ → ℕ → ℕ → List MaskNest → List MaskNest
other_levels pvi zero level space = space
other_levels pvi (suc left) level space = other_levels pvi left (level + 1) (expand pvi level space)

-- The loop over the data spaces from `pvi` on.
pub data_spaces : ℕ → List (List MaskSpec) → ℕ → List MaskNest → Option (List MaskNest)
data_spaces num_levels [] pvi space = some space
data_spaces num_levels (specs ∷ strings) pvi space = do
  guard (leb (length specs) num_levels)
  edited ← user_levels pvi specs 0 space
  data_spaces num_levels strings (pvi + 1)
      (other_levels pvi (num_levels - 1 - length specs) (length specs) edited)

-- `seed_mask_nest`
pub seed : ℕ → ℕ → MaskNest
seed num_data_spaces num_levels = λ p l. ltb p num_data_spaces && ltb l num_levels

-- `InitDatatypeBypassNestSpace`, from the number of storage levels and the strings of the data
-- spaces. Without a level, `NumStorageLevels() - 1` wraps and the last loop leaves the bitset.
pub init_bypass : ℕ → List (List MaskSpec) → Option (List MaskNest)
init_bypass num_levels strings = do
  guard (not (num_levels == 0))
  guard (leb num_levels max_tiling_levels)
  data_spaces num_levels strings 0 (seed (length strings) num_levels ∷ [])

-- `ConstructDatatypeBypassNest`, which reads at the id cast to `int`: a negative index throws.
pub construct_bypass : List MaskNest → ℕ → Option MaskNest
construct_bypass space id = do
  guard (ltb id (length space))
  guard (ltb (id % u32_mod) (2 ^ 31))
  get_elem? space (id % u32_mod)
