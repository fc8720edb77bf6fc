-- ===== src/Search/LinearPruned.antt =====
-- LinearPrunedSearch (include/search/linear-pruned.hpp, src/search/linear-pruned.cpp). `prune` gives
-- the sizes of the mapspace after `InitPruned` of an index factorization, and a cost is a `double`,
-- with its zero, its test for zero and its minimum. The dump of the costs is left out.
pub mod Refines
pub mod Client
use timeloop.Prelude.{
  ℕ, ◌+◌, ◌%◌, Bool, true, false, List, [], ◌∷◌, Option, some, none, ltb, ◌==◌, if◌then◌else◌,
  guard, ◌>>=◌, ◌>>◌,
}
use timeloop.Prelude.Words.{u64_mod, pred128}
use timeloop.Numeric.Counter.{Counter}
use timeloop.Search.{
  Dimension, index_factorization, loop_permutation, spatial, datatype_bypass, Indices, get, put,
  Status, success, mapping_construction_failure, eval_failure, State, ready, waiting_for_status,
  terminated, inc128, make_id,
}
use timeloop.Search.Exhaustive.{origin, fast_forward, is_waiting}

-- What the search needs of costs.
pub record Costs (Cost : Type 0) : Type 0 where
  pub zero_cost : Cost
  pub is_zero : Cost → Bool
  pub least : Cost → Cost → Cost

-- The search, with the sizes that its mapspace has now.
pub record PrunedSearch (Cost : Type 0) : Type 0 where
  pub sizes : Indices
  pub state : State
  pub iterator : Indices
  pub valid_mappings : ℕ
  pub eval_fail_count : ℕ
  pub best_cost : Cost

module _ {Cost : Type 0} (costs : Costs Cost) (prune : ℕ → Indices) where
  -- The constructor. `InitPruned(0)` where there is a factorization.
  unfoldable pub start_pruned : Indices → PrunedSearch Cost
  start_pruned sizes = record {
    sizes = if sizes.factors == 0 then sizes else prune 0;
    state = if sizes.factors == 0 then terminated else ready;
    iterator = origin;
    valid_mappings = 0;
    eval_fail_count = 0;
    best_cost = costs.zero_cost;
  }

  -- To the next number in a dimension: a new factorization prunes the mapspace and resets the cost.
  unfoldable pub step_in : Dimension → PrunedSearch Cost → PrunedSearch Cost
  step_in index_factorization s =
      let n : ℕ = inc128 s.iterator.factors in
      record s {
        iterator = put index_factorization n s.iterator;
        sizes = prune n;
        best_cost = costs.zero_cost;
      }
  step_in loop_permutation s = record s {
    iterator = put loop_permutation (inc128 s.iterator.permutation) s.iterator;
  }
  step_in spatial s = record s { iterator = put spatial (inc128 s.iterator.split) s.iterator }
  step_in datatype_bypass s = record s {
    iterator = put datatype_bypass (inc128 s.iterator.bypass) s.iterator;
  }

  -- `IncrementRecursive_` at a dimension of `dim_order_`, with those behind it.
  unfoldable pub increment_pruned :
      Dimension → List Dimension → PrunedSearch Cost → PrunedSearch Cost × Bool
  increment_pruned dim [] s =
      if ltb (inc128 (get s.iterator dim)) (get s.sizes dim)
      then (step_in dim s, true)
      else (s, false)
  increment_pruned dim (next ∷ rest) s =
      if ltb (inc128 (get s.iterator dim)) (get s.sizes dim)
      then (step_in dim s, true)
      else increment_pruned next rest (record s { iterator = put dim 0 s.iterator })

  -- `IncrementRecursive_()`
  unfoldable pub increment_all_pruned : PrunedSearch Cost → PrunedSearch Cost × Bool
  increment_all_pruned =
      increment_pruned datatype_bypass (spatial ∷ loop_permutation ∷ index_factorization ∷ [])

  -- `Next`
  unfoldable pub next_pruned : PrunedSearch Cost → Option (Option Counter × PrunedSearch Cost)
  next_pruned s = elim s.state [
    | terminated ↦ some (none, s)
    | waiting_for_status ↦ none
    | ready ↦
        make_id s.sizes s.iterator >>= λ id. some (some id, record s { state = waiting_for_status })
  ]

  -- What `Report` counts for a status, and the best cost, where 0 stands for none.
  unfoldable pub count_cost : Status → Cost → PrunedSearch Cost → PrunedSearch Cost
  count_cost success cost s = record s {
    valid_mappings = inc128 s.valid_mappings;
    best_cost = if costs.is_zero s.best_cost then cost else costs.least s.best_cost cost;
  }
  count_cost mapping_construction_failure cost s = s
  count_cost eval_failure cost s = record s { eval_fail_count = (s.eval_fail_count + 1) % u64_mod }

  -- `Report` at the last bypass.
  unfoldable pub close_pruned : PrunedSearch Cost → PrunedSearch Cost
  close_pruned s =
      if inc128 s.iterator.bypass == s.sizes.bypass
      then record s {
        iterator =
            if s.eval_fail_count == s.sizes.bypass
            then fast_forward s.sizes s.iterator
            else s.iterator;
        eval_fail_count = 0;
      }
      else s

  -- A construction failure skips the other bypasses.
  unfoldable pub skip_pruned : Status → PrunedSearch Cost → PrunedSearch Cost
  skip_pruned success s = s
  skip_pruned mapping_construction_failure s = record s {
    iterator = record s.iterator { bypass = pred128 s.sizes.bypass };
  }
  skip_pruned eval_failure s = s

  -- The end of `Report`.
  unfoldable pub move_on_pruned : PrunedSearch Cost × Bool → PrunedSearch Cost
  move_on_pruned (s, remaining) = record s { state = if remaining then ready else terminated }

  -- `Report`
  unfoldable pub report_pruned : Status → Cost → PrunedSearch Cost → Option (PrunedSearch Cost)
  report_pruned status cost s =
      guard (is_waiting s.state)
      >> some (
          move_on_pruned
            (increment_all_pruned (skip_pruned status (close_pruned (count_cost status cost s)))))
