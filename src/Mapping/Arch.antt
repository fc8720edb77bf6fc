-- ===== src/Mapping/Arch.antt =====
-- ArchProperties (include/mapping/arch-properties.hpp, src/mapping/arch-properties.cpp), from the
-- meshes of the levels. A map from the storage levels, or from the tiling levels, is the list of its
-- values; the map from the storage levels with a fan-out is the list of its entries.
pub mod Entries
pub mod Levels
pub mod Meshes
mod Tests
use timeloop.Prelude.{
  ℕ, zero, suc, ◌+◌, ◌*◌, ◌/◌, ◌%◌, Bool, true, false, not, ◌&&◌, Option, some, none, List, [], ◌∷◌,
  ◌++◌, ltb, ◌==◌, if◌then◌else◌, guard, ◌>>=◌, ◌>>◌, length,
}
use timeloop.Prelude.Words.{u64_mod}

-- `meshX` and `meshY` of a level of the topology.
pub record Mesh : Type 0 where
  pub mesh_x : ℕ
  pub mesh_y : ℕ

-- `fanoutX_map_` and `fanoutY_map_` at a storage level.
pub record FanOut : Type 0 where
  pub fanout_x : ℕ
  pub fanout_y : ℕ

pub record ArchProperties : Type 0 where
  pub fanouts : List FanOut
  pub spatial_mask : List Bool
  pub two_d_spatial_mask : List Bool
  pub temporal_to_tiling : List ℕ
  pub spatial_to_tiling : List (ℕ × ℕ)
  pub tiling_to_storage : List ℕ

-- `DeriveFanouts` from the level inside: the arithmetic level, then each storage level; a mesh of 0
-- divides by 0.
pub derive_fanouts : Mesh → List Mesh → Option (List FanOut)
derive_fanouts inner [] = some []
derive_fanouts inner (outer ∷ levels) = do
  guard (not (outer.mesh_x == 0))
  guard (not (outer.mesh_y == 0))
  guard (inner.mesh_x % outer.mesh_x == 0)
  guard (inner.mesh_y % outer.mesh_y == 0)
  rest ← derive_fanouts outer levels
  some (
      record { fanout_x = inner.mesh_x / outer.mesh_x; fanout_y = inner.mesh_y / outer.mesh_y }
      ∷ rest)

-- `Fanout`
pub fanout : FanOut → ℕ
fanout f = f.fanout_x * f.fanout_y % u64_mod

-- A spatial tiling level of the storage level `i`. The next tiling level is `cur_tiling_level`.
pub add_spatial : ℕ → FanOut → ArchProperties → ArchProperties
add_spatial i f props =
    let cur_tiling_level : ℕ = length props.spatial_mask in
    record props {
      spatial_mask = props.spatial_mask ++ (true ∷ []);
      two_d_spatial_mask =
          props.two_d_spatial_mask ++ ((ltb 1 f.fanout_x && ltb 1 f.fanout_y) ∷ []);
      spatial_to_tiling = props.spatial_to_tiling ++ ((i, cur_tiling_level) ∷ []);
      tiling_to_storage = props.tiling_to_storage ++ (i ∷ []);
    }

-- The temporal tiling level of the storage level `i`.
pub add_temporal : ℕ → ArchProperties → ArchProperties
add_temporal i props =
    let cur_tiling_level : ℕ = length props.spatial_mask in
    record props {
      spatial_mask = props.spatial_mask ++ (false ∷ []);
      two_d_spatial_mask = props.two_d_spatial_mask ++ (false ∷ []);
      temporal_to_tiling = props.temporal_to_tiling ++ (cur_tiling_level ∷ []);
      tiling_to_storage = props.tiling_to_storage ++ (i ∷ []);
    }

-- The loop of `Construct` over the storage levels from `i` on.
pub construct_levels : ℕ → List FanOut → ArchProperties → ArchProperties
construct_levels i [] props = props
construct_levels i (f ∷ fs) props =
    construct_levels (i + 1) fs
      (add_temporal i (if ltb 1 (fanout f) then add_spatial i f props else props))

-- `Construct`
pub construct : Mesh → List Mesh → Option ArchProperties
construct arithmetic storage = do
  fs ← derive_fanouts arithmetic storage
  some (
      construct_levels 0 fs (record {
        fanouts = fs;
        spatial_mask = [];
        two_d_spatial_mask = [];
        temporal_to_tiling = [];
        spatial_to_tiling = [];
        tiling_to_storage = [];
      }))

-- `TilingLevels`
pub tiling_levels : ArchProperties → ℕ
tiling_levels props = length props.spatial_mask
