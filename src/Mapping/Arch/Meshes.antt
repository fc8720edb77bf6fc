-- ===== src/Mapping/Arch/Meshes.antt =====
-- `DeriveFanouts` and `Construct` (src/mapping/arch-properties.cpp) from the meshes of the levels.
use timeloop.Prelude.{◌*◌, ◌%◌, ◌<◌, ◌≡◌, List, [], ◌∷◌, map, length, product}
use timeloop.Mapping.Arch.{Mesh, FanOut}

-- Each level's mesh divides that of the level inside.
abbrev pub Nested : Mesh → List Mesh → Type 0
Nested inner [] = Unit
Nested inner (outer ∷ levels) =
    (0 < outer.mesh_x)
    × (0 < outer.mesh_y)
    × (inner.mesh_x % outer.mesh_x ≡ 0)
    × (inner.mesh_y % outer.mesh_y ≡ 0)
    × Nested outer levels

abbrev pub outermost : Mesh → List Mesh → Mesh
outermost inner [] = inner
outermost inner (outer ∷ levels) = outermost outer levels

-- The fan-outs between the level inside and the outermost.
abbrev pub Spans : Mesh → List Mesh → List FanOut → Type 0
Spans inner levels fs =
    (length fs ≡ length levels)
    × (product (map (λ f. f.fanout_x) fs) * (outermost inner levels).mesh_x ≡ inner.mesh_x)
    × (product (map (λ f. f.fanout_y) fs) * (outermost inner levels).mesh_y ≡ inner.mesh_y)
