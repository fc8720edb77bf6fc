-- ===== src/Search/Exhaustive.antt =====
-- ExhaustiveSearch (include/search/exhaustive.hpp, src/search/exhaustive.cpp). The mapspace is
-- the array of its sizes, which the search never changes.
use timeloop.Prelude.{
  ℕ, ◌+◌, ◌%◌, Bool, true, false, List, [], ◌∷◌, Option, some, none, ltb, ◌==◌, if◌then◌else◌,
  guard, ◌>>=◌, ◌>>◌,
}
use timeloop.Prelude.Words.{u64_mod, pred128}
use timeloop.Numeric.Counter.{Counter}
use timeloop.Search.{
  Dimension, index_factorization, loop_permutation, spatial, datatype_bypass, Indices, get, put,
  Status, success, mapping_construction_failure, eval_failure, State, ready, waiting_for_status,
  terminated, inc128, make_id,
}

pub record Search : Type 0 where
  pub state : State
  pub iterator : Indices
  pub valid_mappings : ℕ
  pub eval_fail_count : ℕ

abbrev pub origin : Indices
origin = record { factors = 0; permutation = 0; split = 0; bypass = 0 }

-- The constructor.
unfoldable pub start : Indices → Search
start sizes = record {
  state = if sizes.factors == 0 then terminated else ready;
  iterator = origin;
  valid_mappings = 0;
  eval_fail_count = 0;
}

-- `IncrementRecursive_` at a dimension of `dim_order_`, with those behind it.
unfoldable pub increment : Indices → Dimension → List Dimension → Indices → Indices × Bool
increment sizes dim [] it =
    if ltb (inc128 (get it dim)) (get sizes dim)
    then (put dim (inc128 (get it dim)) it, true)
    else (it, false)
increment sizes dim (next ∷ rest) it =
    if ltb (inc128 (get it dim)) (get sizes dim)
    then (put dim (inc128 (get it dim)) it, true)
    else increment sizes next rest (put dim 0 it)

-- `IncrementRecursive_()`, which starts at position 0 of `dim_order_`.
unfoldable pub increment_all : Indices → Indices → Indices × Bool
increment_all sizes it =
    increment sizes datatype_bypass (spatial ∷ loop_permutation ∷ index_factorization ∷ []) it

-- `Next`: no mapping ID once terminated; it fails an assertion while it waits for a status.
unfoldable pub next : Indices → Search → Option (Option Counter × Search)
next sizes s = elim s.state [
  | terminated ↦ some (none, s)
  | waiting_for_status ↦ none
  | ready ↦
      make_id sizes s.iterator >>= λ id. some (some id, record s { state = waiting_for_status })
]

-- What `Report` counts for a status.
unfoldable pub count_status : Status → Search → Search
count_status success s = record s { valid_mappings = inc128 s.valid_mappings }
count_status mapping_construction_failure s = s
count_status eval_failure s = record s { eval_fail_count = (s.eval_fail_count + 1) % u64_mod }

-- To the last spatial split and the last permutation of this index factorization.
abbrev pub fast_forward : Indices → Indices → Indices
fast_forward sizes it = record it {
  split = pred128 sizes.split;
  permutation = pred128 sizes.permutation;
}

-- `Report` at the last bypass.
unfoldable pub close_bypasses : Indices → Search → Search
close_bypasses sizes s =
    if inc128 s.iterator.bypass == sizes.bypass
    then record s {
      iterator =
          if s.eval_fail_count == sizes.bypass then fast_forward sizes s.iterator else s.iterator;
      eval_fail_count = 0;
    }
    else s

-- A construction failure skips the other bypasses.
unfoldable pub skip_bypasses : Status → Indices → Search → Search
skip_bypasses success sizes s = s
skip_bypasses mapping_construction_failure sizes s = record s {
  iterator = record s.iterator { bypass = pred128 sizes.bypass };
}
skip_bypasses eval_failure sizes s = s

-- The end of `Report`.
unfoldable pub move_on : Search → Indices × Bool → Search
move_on s (it, remaining) = record s {
  iterator = it;
  state = if remaining then ready else terminated;
}

unfoldable pub is_waiting : State → Bool
is_waiting ready = false
is_waiting waiting_for_status = true
is_waiting terminated = false

-- `Report`
unfoldable pub report : Indices → Status → Search → Option Search
report sizes status s =
    let settled : Search =
      skip_bypasses status sizes (close_bypasses sizes (count_status status s)) in
    guard (is_waiting s.state) >> some (move_on settled (increment_all sizes settled.iterator))
