-- ===== src/Mapspaces/Uber/Splitting.antt =====
-- The sizes of a mapspace and its splits: `Size` of include/mapspaces/mapspace-base.hpp, the check for
-- overflow at the end of `Init`, the parts that `Split` and `InitSplit` of src/mapspaces/uber.cpp make, and the
-- global index factorization id that `InitPruned` and `ConstructMapping` compute.
pub mod Overflow
pub mod Parts
pub mod Ids
mod Tests
use timeloop.Prelude.{
  ℕ, zero, suc, ◌+◌, ◌-◌, ◌*◌, ◌/◌, ◌%◌, Bool, true, false, not, Option, some, none, List, [], ◌∷◌,
  ltb, ◌==◌, if◌then◌else◌, guard, ◌>>=◌, ◌>>◌,
}
use timeloop.Prelude.Words.{u32_mod, u64_mod, u128_mod}

-- The loop of `Size` over the sizes left.
pub size_from : List ℕ → ℕ → ℕ
size_from [] size = size
size_from (s ∷ sizes) size = size_from sizes (size * s % u128_mod)

-- `Size`
pub size_of : List ℕ → ℕ
unfolding size_from
size_of sizes = size_from sizes 1

-- The divisions of `Init`; a size of 0 divides by 0.
pub divide_all : List ℕ → ℕ → Option ℕ
divide_all [] cumulative = some cumulative
divide_all (s ∷ sizes) cumulative = guard (not (s == 0)) >> divide_all sizes (cumulative / s)

-- Whether `Init` goes on: `some false` is the exit with the message on overflow.
pub check_sizes : List ℕ → Option Bool
check_sizes sizes = do cumulative ← divide_all sizes (size_of sizes); some (cumulative == 1)

-- What a split keeps of its own.
pub record Part : Type 0 where
  pub split_id : ℕ
  pub if_size : ℕ
  pub num_parent_splits : ℕ

-- `InitSplit`
pub init_split : ℕ → ℕ → ℕ → Part
init_split split_id split_if_size num_parent_splits = record {
  split_id = split_id;
  if_size = split_if_size;
  num_parent_splits = num_parent_splits;
}

-- The loop of `Split` over the `left` splits from `i` on. The counter `i` and `num_splits` are
-- converted to the 128 bits of `split_residue`, where the subtraction wraps.
pub split_loop : ℕ → ℕ → ℕ → ℕ → ℕ → List Part
split_loop num_splits split_size split_residue zero i = []
split_loop num_splits split_size split_residue (suc left) i =
    let first : ℕ = (num_splits + u128_mod - split_residue) % u128_mod in
    let if_size : ℕ = if ltb i first then split_size else (split_size + u128_mod - 1) % u128_mod in
    init_split i if_size num_splits ∷ split_loop num_splits split_size split_residue left (i + 1)

-- `Split`. The counter is of 32 bits: with more splits its loop does not end.
pub split : ℕ → ℕ → Option (List Part)
split size num_splits = do
  guard (not (size == 0))
  guard (not (num_splits == 0))
  guard (ltb num_splits u32_mod)
  let split_size : ℕ = (1 + (size - 1) / num_splits) % u128_mod
  let split_residue : ℕ = (split_size * num_splits % u128_mod + u128_mod - size) % u128_mod
  some (split_loop num_splits split_size split_residue num_splits 0)

-- `mapping_index_factorization_id`, behind the check of the id against the size.
unfoldable pub global_id : Part → ℕ → Option ℕ
global_id part id = do
  guard (ltb id part.if_size)
  some ((id * part.num_parent_splits + part.split_id) % u128_mod)
