-- ===== src/Numeric/Factoradic/Tests.antt =====
-- Runs of Factoradic (util/numeric), and the theorems at concrete inputs.
use native.Mathlib.Omega.{arith}
use timeloop.Prelude.{ℕ, ◌<◌, ◌≡◌, refl, some, List, [], ◌∷◌}
use timeloop.Numeric.Factoradic.{permute, permute_loop, move_front, behind_front, table_entry}
use timeloop.Numeric.Factoradic.Orders.{SameItems, permute_lem}

permute_runs : permute {A = ℕ} (7 ∷ 8 ∷ 9 ∷ []) 3 ≡ some (8 ∷ 9 ∷ 7 ∷ [])
unfolding permute permute_loop move_front behind_front table_entry
permute_runs = refl

permute_lem_example :
    ((index : ℕ)
      → index < 6
      → (zs : List ℕ) × (permute {A = ℕ} (7 ∷ 8 ∷ 9 ∷ []) index ≡ some zs)
        × SameItems (7 ∷ 8 ∷ 9 ∷ []) zs)
    × (SameItems (7 ∷ 8 ∷ 9 ∷ []) (9 ∷ 7 ∷ 8 ∷ [])
        → (index : ℕ) × (index < 6)
          × (permute {A = ℕ} (7 ∷ 8 ∷ 9 ∷ []) index ≡ some (9 ∷ 7 ∷ 8 ∷ [])))
permute_lem_example = permute_lem (7 ∷ 8 ∷ 9 ∷ []) (9 ∷ 7 ∷ 8 ∷ []) (omega arith) (omega arith) refl
