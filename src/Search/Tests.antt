-- ===== src/Search/Tests.antt =====
-- Runs of the searches (src/search), and the theorems at concrete inputs.
use timeloop.Prelude.{
  ℕ, zero, suc, ◌≢◌, ◌+◌, ◌≡◌, refl, List, [], ◌∷◌, map, Memᴰ, All, subst, ◌==◌, min, some, arith,
}
use timeloop.Prelude.Words.{pred128}
use timeloop.Search.{
  Indices, read, Status, success, mapping_construction_failure, eval_failure, terminated, ready,
  waiting_for_status,
}
use timeloop.Search.Ids.{Within}
use timeloop.Search.Order.{total}
use timeloop.Search.Uniform.{Uniform}
use timeloop.Search.Complete.{explore, Chain, Sizes, explore_complete}
use timeloop.Search.LinearPruned.{Costs, start_pruned}
use timeloop.Search.LinearPruned.Client.{explore_pruned, seen, explore_pruned-start}
use timeloop.Search.Exhaustive.{
  Search, origin, start, report, increment, increment_all, count_status, close_bypasses,
  skip_bypasses, move_on, is_waiting,
}

-- Two factorizations, one permutation, two splits and two bypasses.
abbrev small : Indices
small = record { factors = 2; permutation = 1; split = 2; bypass = 2 }

-- The first factorization never fits; in the second the first split cannot be constructed.
abbrev verdict : List ℕ → Status
verdict (zero ∷ rest) = eval_failure
verdict (suc f ∷ p ∷ zero ∷ rest) = mapping_construction_failure
verdict other = success

-- The second failed evaluation skips the rest of the first factorization.
report_runs :
    report small eval_failure (record {
      state = waiting_for_status;
      iterator = record { factors = 0; permutation = 0; split = 0; bypass = 1 };
      valid_mappings = 0;
      eval_fail_count = 1;
    })
    ≡ some (record {
      state = ready;
      iterator = record { factors = 1; permutation = 0; split = 0; bypass = 0 };
      valid_mappings = 0;
      eval_fail_count = 0;
    })
unfolding report increment increment_all count_status close_bypasses skip_bypasses move_on
    is_waiting pred128
report_runs = refl

small-Sizes : Sizes small
small-Sizes = (
  record {
    factors = omega arith;
    permutation = omega arith;
    split = omega arith;
    bypass = omega arith;
  },
  record {
    factors = omega arith;
    permutation = omega arith;
    split = omega arith;
    bypass = omega arith;
  },
  omega arith,
  omega arith,
)

same_verdict :
    (f p s b d : ℕ)
    → verdict (f ∷ p ∷ s ∷ b ∷ []) ≡ mapping_construction_failure
    → verdict (f ∷ p ∷ s ∷ d ∷ []) ≡ mapping_construction_failure
same_verdict zero p s b d e = cc
same_verdict (suc f) p zero b d e = refl
same_verdict (suc f) p (suc s) b d e = cc

bad_factors :
    (f p s b p' s' b' : ℕ)
    → verdict (f ∷ p ∷ s ∷ b ∷ []) ≡ eval_failure
    → verdict (f ∷ p' ∷ s' ∷ b' ∷ []) ≢ success
bad_factors zero p s b p' s' b' e g = cc
bad_factors (suc f) p zero b p' s' b' e g = cc
bad_factors (suc f) p (suc s) b p' s' b' e g = cc

verdict-Uniform : Uniform small verdict
verdict-Uniform = record {
  construction = λ it d e. same_verdict it.factors it.permutation it.split it.bypass d e;
  evaluation = λ it x same failed good.
      bad_factors it.factors it.permutation it.split 0 x.permutation x.split x.bypass
        (failed 0 (omega arith))
        (subst (λ f. verdict (f ∷ x.permutation ∷ x.split ∷ x.bypass ∷ []) ≡ success) same good);
}

explore_complete_example :
    (places : List Indices) × (end : Search) × (explore small verdict
        (total small + 1)
        (start small)
      ≡ some (map read (origin ∷ places), end))
    × (end.state ≡ terminated)
    × Chain origin places
    × All (Within small) (origin ∷ places)
    × ((x : Indices) → Within small x → verdict (read x) ≡ success → Memᴰ x (origin ∷ places))
explore_complete_example = explore_complete small verdict small-Sizes verdict-Uniform

-- Costs as numbers.
abbrev number_costs : Costs ℕ
number_costs = record { zero_cost = 0; is_zero = λ c. c == 0; least = min }

explore_pruned-start_example :
    seen (
      explore_pruned number_costs
        (λ n. small)
        verdict
        (λ id. 5)
        9
        (start_pruned number_costs (λ n. small) small))
    ≡ explore small verdict 9 (start small)
explore_pruned-start_example =
    explore_pruned-start number_costs (λ n. small) small verdict (λ id. 5) 9 (λ n. refl)
