-- ===== src/Search/LinearPruned/Refines.antt =====
-- The parts of LinearPrunedSearch against those of ExhaustiveSearch (src/search).
use timeloop.Prelude.{ℕ, ◌≡◌, refl, Bool, true, List, [], ◌∷◌, ltb, ◌==◌, Bool-cases, inl, inr}
use timeloop.Search.{
  Dimension, index_factorization, loop_permutation, spatial, datatype_bypass, Indices, get, put,
  Status, success, mapping_construction_failure, eval_failure, inc128,
}
use timeloop.Search.Exhaustive.{
  Search, increment, next, count_status, close_bypasses, skip_bypasses, move_on,
}
use timeloop.Search.LinearPruned.{
  Costs, PrunedSearch, step_in, increment_pruned, count_cost, close_pruned, skip_pruned,
  move_on_pruned,
}

-- The search without its sizes and its cost.
abbrev pub erase : {Cost : Type 0} → PrunedSearch Cost → Search
erase s = record {
  state = s.state;
  iterator = s.iterator;
  valid_mappings = s.valid_mappings;
  eval_fail_count = s.eval_fail_count;
}

module _ {Cost : Type 0} (costs : Costs Cost) (prune : ℕ → Indices) (sizes : Indices) where
  -- What the two increments of a search agree in.
  abbrev pub Agree : PrunedSearch Cost → PrunedSearch Cost × Bool → Indices × Bool → Type 0
  Agree s (s', b) (it, c) =
      (s'.iterator ≡ it)
      × (b ≡ c)
      × (s'.sizes ≡ s.sizes)
      × (s'.valid_mappings ≡ s.valid_mappings)
      × (s'.eval_fail_count ≡ s.eval_fail_count)

  step_agrees :
      (dim : Dimension) (s : PrunedSearch Cost)
      → ((n : ℕ) → prune n ≡ s.sizes)
      → Agree s
          (step_in costs prune dim s, true)
          (put dim (inc128 (get s.iterator dim)) s.iterator, true)
  unfolding step_in
  step_agrees index_factorization s h = (refl, refl, h _, refl, refl)
  step_agrees loop_permutation s h = (refl, refl, refl, refl, refl)
  step_agrees spatial s h = (refl, refl, refl, refl, refl)
  step_agrees datatype_bypass s h = (refl, refl, refl, refl, refl)

  pub increment_agrees :
      (dim : Dimension) (rest : List Dimension) (s : PrunedSearch Cost)
      → ((n : ℕ) → prune n ≡ s.sizes)
      → Agree s (increment_pruned costs prune dim rest s) (increment s.sizes dim rest s.iterator)
  unfolding increment_pruned increment
  increment_agrees dim [] s h =
      elim (Bool-cases (ltb (inc128 (get s.iterator dim)) (get s.sizes dim))) [
        | inl more ↦ rw more (step_agrees dim s h)
        | inr last ↦ rw last (refl, refl, refl, refl, refl)
      ]
  increment_agrees dim (next ∷ rest) s h =
      elim (Bool-cases (ltb (inc128 (get s.iterator dim)) (get s.sizes dim))) [
        | inl more ↦ rw more (step_agrees dim s h)
        | inr last ↦
            rw last (increment_agrees next rest (record s { iterator = put dim 0 s.iterator }) h)
      ]

  pub erase-move_on :
      (s : PrunedSearch Cost) (p : PrunedSearch Cost × Bool) (r : Indices × Bool)
      → Agree s p r
      → (erase (move_on_pruned costs prune p) ≡ move_on (erase s) r)
        × ((move_on_pruned costs prune p).sizes ≡ s.sizes)
  unfolding move_on_pruned move_on
  erase-move_on s (s', b) (it, c) (i, d, z, v, e) = (rw (i, d, v, e), z)

  pub erase-close :
      (s : PrunedSearch Cost)
      → erase (close_pruned costs prune s) ≡ close_bypasses s.sizes (erase s)
  unfolding close_pruned close_bypasses
  erase-close s = elim (Bool-cases (inc128 s.iterator.bypass == s.sizes.bypass)) [
    | inl last ↦ rw last
    | inr more ↦ rw more
  ]

  pub sizes-close : (s : PrunedSearch Cost) → (close_pruned costs prune s).sizes ≡ s.sizes
  unfolding close_pruned
  sizes-close s = elim (Bool-cases (inc128 s.iterator.bypass == s.sizes.bypass)) [
    | inl last ↦ rw last
    | inr more ↦ rw more
  ]

  pub erase-count :
      (st : Status) (cost : Cost) (s : PrunedSearch Cost)
      → (erase (count_cost costs prune st cost s) ≡ count_status st (erase s))
        × ((count_cost costs prune st cost s).sizes ≡ s.sizes)
  unfolding count_cost count_status
  erase-count success cost s = (refl, refl)
  erase-count mapping_construction_failure cost s = (refl, refl)
  erase-count eval_failure cost s = (refl, refl)

  pub erase-skip :
      (st : Status) (s : PrunedSearch Cost)
      → (erase (skip_pruned costs prune st s) ≡ skip_bypasses st s.sizes (erase s))
        × ((skip_pruned costs prune st s).sizes ≡ s.sizes)
  unfolding skip_pruned skip_bypasses
  erase-skip success s = (refl, refl)
  erase-skip mapping_construction_failure s = (refl, refl)
  erase-skip eval_failure s = (refl, refl)
