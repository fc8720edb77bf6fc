-- ===== src/Mapping/Arch/Tests.antt =====
-- Runs of ArchProperties (src/mapping/arch-properties.cpp), and its theorem at concrete meshes.
use timeloop.Prelude.{ℕ, ◌≡◌, refl, true, false, some, none, List, [], ◌∷◌}
use timeloop.Mapping.Arch.{
  Mesh, construct, derive_fanouts, construct_levels, add_spatial, add_temporal, fanout,
}

abbrev mesh : ℕ → ℕ → Mesh
mesh x y = record { mesh_x = x; mesh_y = y }

-- Registers at each of 12 units, a buffer for each row, and a memory.
abbrev storage : List Mesh
storage = mesh 4 3 ∷ mesh 1 3 ∷ mesh 1 1 ∷ []

construct_runs :
    construct (mesh 4 3) storage
    ≡ some (record {
      fanouts =
          record { fanout_x = 1; fanout_y = 1 }
          ∷ record { fanout_x = 4; fanout_y = 1 }
          ∷ record { fanout_x = 1; fanout_y = 3 }
          ∷ [];
      spatial_mask = false ∷ true ∷ false ∷ true ∷ false ∷ [];
      two_d_spatial_mask = false ∷ false ∷ false ∷ false ∷ false ∷ [];
      temporal_to_tiling = 0 ∷ 2 ∷ 4 ∷ [];
      spatial_to_tiling = (1, 1) ∷ (2, 3) ∷ [];
      tiling_to_storage = 0 ∷ 1 ∷ 1 ∷ 2 ∷ 2 ∷ [];
    })
unfolding construct derive_fanouts construct_levels add_spatial add_temporal fanout
construct_runs = refl

construct_fails : construct (mesh 4 3) (mesh 3 3 ∷ []) ≡ none
unfolding construct derive_fanouts
construct_fails = refl
