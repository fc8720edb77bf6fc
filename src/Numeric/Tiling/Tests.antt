-- ===== src/Numeric/Tiling/Tests.antt =====
-- Runs of GetTiling (util/numeric), and the theorems at concrete inputs.
use native.Mathlib.Omega.{arith}
use timeloop.Prelude.{ℕ, ◌*◌, ◌≤◌, ◌≡◌, refl, some}
use timeloop.Numeric.Tiling.{
  smallest_factor, get_tiling, get_tiling_lem, smallest_loop, sides, factor_list,
}

get_tiling_runs : get_tiling 24 ≡ some (4, 6)
unfolding get_tiling factor_list smallest_factor smallest_loop sides
get_tiling_runs = refl

get_tiling_lem_example : (h w : ℕ) × (get_tiling 24 ≡ some (h, w)) × (h * w ≡ 24) × (h ≤ w)
get_tiling_lem_example = get_tiling_lem 24 (omega arith) (omega arith)
