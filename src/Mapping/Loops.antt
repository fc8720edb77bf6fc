-- ===== src/Mapping/Loops.antt =====
-- loop::Descriptor, loop::Nest and spacetime::Dimension (include/mapping/loop.hpp,
-- src/mapping/loop.cpp, include/mapping/nest.hpp, src/mapping/nest.cpp,
-- include/mapping/spacetime.hpp). The `int`s of a loop are numbers that are not negative.
use timeloop.Prelude.{
  ℕ, ◌+◌, ◌-◌, Bool, true, false, not, Option, some, List, [], ◌∷◌, ◌++◌, leb, ◌==◌, if◌then◌else◌,
  guard, ◌>>◌, length,
}

-- `spacetime::Dimension`
pub data SpaceTime : Type 0 where
  time : SpaceTime
  space_x : SpaceTime
  space_y : SpaceTime

-- `Descriptor`
pub record Descriptor : Type 0 where
  pub dimension : ℕ
  pub start : ℕ
  pub end : ℕ
  pub residual_end : ℕ
  pub stride : ℕ
  pub spacetime_dimension : SpaceTime

-- `IsSpatial`
unfoldable pub is_spatial : SpaceTime → Bool
is_spatial time = false
is_spatial space_x = true
is_spatial space_y = true

-- The constructor with the start and the stride.
unfoldable pub make_descriptor : ℕ → ℕ → ℕ → ℕ → SpaceTime → ℕ → Option Descriptor
make_descriptor dimension start end stride spacetime_dimension residual_end = do
  guard (leb (start + stride) end)
  some (record {
    dimension = dimension;
    start = start;
    end = end;
    residual_end = if residual_end == 0 then end else residual_end;
    stride = stride;
    spacetime_dimension = spacetime_dimension;
  })

-- The loops and the boundaries of `Nest`.
pub record Nest : Type 0 where
  pub loops : List Descriptor
  pub storage_tiling_boundaries : List ℕ

unfoldable pub empty_nest : Nest
empty_nest = record { loops = []; storage_tiling_boundaries = [] }

-- `AddLoop`
unfoldable pub add_loop : Descriptor → Nest → Nest
add_loop descriptor nest = record nest { loops = nest.loops ++ (descriptor ∷ []) }

-- `back() == level` of a list that has elements.
unfoldable pub last_is : List ℕ → ℕ → Bool
last_is [] level = false
last_is (x ∷ []) level = x == level
last_is (x ∷ y ∷ ys) level = last_is (y ∷ ys) level

-- `AddStorageTilingBoundary`, with what it returns.
unfoldable pub add_storage_tiling_boundary : Nest → Option (Bool × Nest)
add_storage_tiling_boundary nest = do
  guard (not (length nest.loops == 0))
  let level : ℕ = length nest.loops - 1
  some (
      if last_is nest.storage_tiling_boundaries level then (false, nest) else (
        true,
        record nest { storage_tiling_boundaries = nest.storage_tiling_boundaries ++ (level ∷ []) },
      ))
