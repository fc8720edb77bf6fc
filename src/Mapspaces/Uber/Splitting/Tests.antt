-- ===== src/Mapspaces/Uber/Splitting/Tests.antt =====
-- Runs of `Split` (src/mapspaces/uber.cpp), and the theorems at concrete inputs.
use timeloop.Prelude.{
  ℕ, ◌<◌, ◌≡◌, refl, true, some, List, [], ◌∷◌, arith, length, get_elem?, ltb, product,
}
use timeloop.Prelude.Words.{u128_mod}
use timeloop.Mapspaces.Uber.Splitting.{
  Part, split, split_loop, init_split, global_id, check_sizes, divide_all, size_of, size_from,
}
use timeloop.Mapspaces.Uber.Splitting.Overflow.{check_sizes_lem}
use timeloop.Mapspaces.Uber.Splitting.Ids.{split_lem}

-- Seven ids in three splits.
split_runs :
    split 7 3
    ≡ some (
        record { split_id = 0; if_size = 3; num_parent_splits = 3 }
        ∷ record { split_id = 1; if_size = 2; num_parent_splits = 3 }
        ∷ record { split_id = 2; if_size = 2; num_parent_splits = 3 }
        ∷ [])
unfolding split split_loop init_split
split_runs = refl

check_sizes_runs : check_sizes (2 ∷ 3 ∷ 1 ∷ 4 ∷ []) ≡ some true
unfolding check_sizes divide_all size_of size_from
check_sizes_runs = refl

check_sizes_lem_example :
    check_sizes (u128_mod ∷ 3 ∷ []) ≡ some (ltb (product (u128_mod ∷ 3 ∷ [])) u128_mod)
check_sizes_lem_example = check_sizes_lem (u128_mod ∷ 3 ∷ []) (omega arith, (omega arith, tt))

split_lem_example :
    (parts : List Part) × (split 7 3 ≡ some parts)
    × (length parts ≡ 3)
    × ((i id : ℕ) (p : Part)
        → get_elem? parts i ≡ some p
        → id < p.if_size
        → (g : ℕ) × (global_id p id ≡ some g) × (g < 7))
    × ((g : ℕ)
        → g < 7
        → (i id : ℕ) × (p : Part) × (get_elem? parts i ≡ some p)
          × (global_id p id ≡ some g)
          × ((i' id' : ℕ) (p' : Part)
              → get_elem? parts i' ≡ some p'
              → global_id p' id' ≡ some g
              → (i' ≡ i) × (id' ≡ id)))
split_lem_example = split_lem 7 3 (omega arith) (omega arith) (omega arith) (omega arith)
