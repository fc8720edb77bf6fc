-- ===== src/Search/LinearPruned/Client.antt =====
-- A client of LinearPrunedSearch (src/search/linear-pruned.cpp) against one of ExhaustiveSearch.
use timeloop.Prelude.{
  ℕ, zero, suc, ◌≡◌, refl, sym, ◌∙◌, List, [], ◌∷◌, Option, some, none, ◌>>=◌, Bool-cases,
  Option-cases, inl, inr, ◌⊎◌, ◌==◌,
}
use timeloop.Numeric.Counter.{Counter}
use timeloop.Search.{
  index_factorization, loop_permutation, spatial, datatype_bypass, Indices, Status, State, ready,
  waiting_for_status, terminated, make_id,
}
use timeloop.Search.Complete.{explore}
use timeloop.Search.Exhaustive.{
  Search, next, report, increment_all, is_waiting, start, skip_bypasses, close_bypasses,
  count_status, move_on,
}
use timeloop.Search.LinearPruned.{
  Costs, PrunedSearch, start_pruned, increment_all_pruned, next_pruned, count_cost, close_pruned,
  skip_pruned, report_pruned, move_on_pruned,
}
use timeloop.Search.LinearPruned.Refines.{
  erase, increment_agrees, erase-move_on, erase-close, sizes-close, erase-count, erase-skip,
}

module _ {Cost : Type 0} (costs : Costs Cost) (prune : ℕ → Indices) where
  -- One mapping ID of a client that knows the outcome and the cost of each, or the end.
  abbrev try_pruned :
      (List ℕ → Status)
      → (List ℕ → Cost)
      → (PrunedSearch Cost → Option (List (List ℕ) × PrunedSearch Cost))
      → Option Counter
      → PrunedSearch Cost
      → Option (List (List ℕ) × PrunedSearch Cost)
  try_pruned outcome cost again none s = some ([], s)
  try_pruned outcome cost again (some id) s =
      report_pruned costs prune (outcome id.value) (cost id.value) s >>= again >>= λ (ids, end).
      some (id.value ∷ ids, end)

  -- A client of the search, as `explore` is of the exhaustive one.
  abbrev pub explore_pruned :
      (List ℕ → Status)
      → (List ℕ → Cost)
      → ℕ
      → PrunedSearch Cost
      → Option (List (List ℕ) × PrunedSearch Cost)
  explore_pruned outcome cost zero s = none
  explore_pruned outcome cost (suc fuel) s = next_pruned costs prune s >>= λ (id, s').
      try_pruned outcome cost (explore_pruned outcome cost fuel) id s'

-- What a client sees of such a run.
abbrev pub seen :
    {Cost : Type 0} → Option (List (List ℕ) × PrunedSearch Cost) → Option (List (List ℕ) × Search)
seen none = none
seen (some (ids, s)) = some (ids, erase s)

seen_cons :
    {Cost : Type 0} (id : List ℕ) (run : Option (List (List ℕ) × PrunedSearch Cost))
    → seen (run >>= λ (ids, end). some (id ∷ ids, end))
      ≡ (seen run >>= λ (ids, end). some (id ∷ ids, end))
seen_cons id none = refl
seen_cons id (some (ids, s)) = refl

State-cases : (x : State) → (x ≡ ready) ⊎ ((x ≡ waiting_for_status) ⊎ (x ≡ terminated))
State-cases ready = inl refl
State-cases waiting_for_status = inr (inl refl)
State-cases terminated = inr (inr refl)

module _ {Cost : Type 0} (costs : Costs Cost) (prune : ℕ → Indices) (sizes : Indices) where
  settled_pruned : Status → Cost → PrunedSearch Cost → PrunedSearch Cost
  settled_pruned st cost s =
      skip_pruned costs prune st (close_pruned costs prune (count_cost costs prune st cost s))

  sizes-settled :
      (st : Status) (cost : Cost) (s : PrunedSearch Cost)
      → (settled_pruned st cost s).sizes ≡ s.sizes
  unfolding settled_pruned
  sizes-settled st cost s =
      (erase-skip costs prune sizes st
        (close_pruned costs prune (count_cost costs prune st cost s))).1
      ∙ sizes-close costs prune sizes (count_cost costs prune st cost s)
      ∙ (erase-count costs prune sizes st cost s).1

  erase-settled :
      (st : Status) (cost : Cost) (s : PrunedSearch Cost)
      → erase (settled_pruned st cost s)
        ≡ skip_bypasses st s.sizes (close_bypasses s.sizes (count_status st (erase s)))
  unfolding settled_pruned
  erase-settled st cost s =
      let counted = count_cost costs prune st cost s in
      let closed = close_pruned costs prune counted in
      (erase-skip costs prune sizes st closed).0
      ∙ rw (
        sizes-close costs prune sizes counted,
        erase-close costs prune sizes counted,
        (erase-count costs prune sizes st cost s).1,
        (erase-count costs prune sizes st cost s).0,
      )

  -- The two move on alike from settled states that agree.
  moves_alike :
      (t : PrunedSearch Cost) (u : Search)
      → erase t ≡ u
      → t.sizes ≡ sizes
      → ((n : ℕ) → prune n ≡ sizes)
      → (erase (move_on_pruned costs prune (increment_all_pruned costs prune t))
          ≡ move_on u (increment_all sizes u.iterator))
        × ((move_on_pruned costs prune (increment_all_pruned costs prune t)).sizes ≡ sizes)
  unfolding increment_all_pruned increment_all
  moves_alike t u e z h =
      let (alike, kept) = erase-move_on costs prune sizes t _ _ (
        increment_agrees costs prune sizes datatype_bypass
          (spatial ∷ loop_permutation ∷ index_factorization ∷ []) t (λ n. h n ∙ sym z)) in
      (rw (← e, ← z) alike, kept ∙ z)

  -- `Report` of the two.
  report-erase :
      (st : Status) (cost : Cost) (s : PrunedSearch Cost)
      → s.sizes ≡ sizes
      → ((n : ℕ) → prune n ≡ sizes)
      → ((report_pruned costs prune st cost s ≡ none) × (report sizes st (erase s) ≡ none))
        ⊎ ((s' : PrunedSearch Cost) × (report_pruned costs prune st cost s ≡ some s')
            × (report sizes st (erase s) ≡ some (erase s'))
            × (s'.sizes ≡ sizes))
  unfolding report_pruned report settled_pruned
  report-erase st cost s e h =
      let t = settled_pruned st cost s in
      let (alike, kept) =
        moves_alike t (skip_bypasses st sizes (close_bypasses sizes (count_status st (erase s))))
          (rw (← e) (erase-settled st cost s)) (sizes-settled st cost s ∙ e) h in
      elim (Bool-cases (is_waiting s.state)) [
        | inl waiting ↦ inr (
          move_on_pruned costs prune (increment_all_pruned costs prune t),
          rw waiting,
          rw (waiting, alike),
          kept,
        )
        | inr other ↦ inl (rw other, rw other)
      ]

  -- `Next` of the two.
  next-erase :
      (s : PrunedSearch Cost)
      → s.sizes ≡ sizes
      → ((next_pruned costs prune s ≡ none) × (next sizes (erase s) ≡ none))
        ⊎ ((id : Option Counter) × (s' : PrunedSearch Cost) × (next_pruned costs prune s
              ≡ some (id, s'))
            × (next sizes (erase s) ≡ some (id, erase s'))
            × (s'.sizes ≡ sizes))
  unfolding next_pruned next
  next-erase s e = elim (State-cases s.state) [
    | inl is_ready ↦ elim (Option-cases (make_id sizes s.iterator)) [
      | inl fails ↦ inl (rw (is_ready, e, fails), rw (is_ready, fails))
      | inr (id, made) ↦ inr (
        some id,
        record s { state = waiting_for_status },
        rw (is_ready, e, made),
        rw (is_ready, made),
        e,
      )
    ]
    | inr (inl is_waiting) ↦ inl (rw is_waiting, rw is_waiting)
    | inr (inr is_over) ↦ inr (none, s, rw is_over, rw is_over, e)
  ]

  -- The runs of the two clients, for any fuel.
  pub seen-explore_pruned :
      (outcome : List ℕ → Status) (cost : List ℕ → Cost) (fuel : ℕ) (s : PrunedSearch Cost)
      → s.sizes ≡ sizes
      → ((n : ℕ) → prune n ≡ sizes)
      → seen (explore_pruned costs prune outcome cost fuel s) ≡ explore sizes outcome fuel (erase s)
  seen-explore_pruned outcome cost zero s e h = refl
  seen-explore_pruned outcome cost (suc fuel) s e h = elim (next-erase s e) [
    | inl (a, b) ↦ rw (a, b)
    | inr (none, s', a, b, e') ↦ rw (a, b)
    | inr (some id, s', a, b, e') ↦ elim (report-erase (outcome id.value) (cost id.value) s' e' h) [
      | inl (c, d) ↦ rw (a, b, c, d)
      | inr (s'', c, d, e'') ↦
          rw (a, b, c, d, ← seen-explore_pruned outcome cost fuel s'' e'' h)
            (seen_cons id.value (explore_pruned costs prune outcome cost fuel s''))
    ]
  ]

-- On a mapspace whose sizes `InitPruned` leaves as they are, a client of LinearPrunedSearch with
-- any outcomes, costs and fuel gets the mapping IDs that it gets from ExhaustiveSearch, and the two
-- end alike in their state, iterator and counts, or both fail.
pub explore_pruned-start :
    {Cost : Type 0} (costs : Costs Cost) (prune : ℕ → Indices) (sizes : Indices)
    (outcome : List ℕ → Status) (cost : List ℕ → Cost) (fuel : ℕ)
    → ((n : ℕ) → prune n ≡ sizes)
    → seen (explore_pruned costs prune outcome cost fuel (start_pruned costs prune sizes))
      ≡ explore sizes outcome fuel (start sizes)
unfolding start_pruned start
explore_pruned-start costs prune sizes outcome cost fuel h =
    let kept : (start_pruned costs prune sizes).sizes ≡ sizes =
      elim (Bool-cases (sizes.factors == 0)) [ inl empty ↦ rw empty | inr full ↦ rw (full, h 0) ] in
    seen-explore_pruned costs prune sizes outcome cost fuel (start_pruned costs prune sizes) kept h
