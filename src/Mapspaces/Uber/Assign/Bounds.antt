-- ===== src/Mapspaces/Uber/Assign/Bounds.antt =====
-- `AssignIndexFactors` with its checks (src/mapspaces/uber.cpp), from the bounds of the workload.
use native.Mathlib.Nat.{zero-mul}
use timeloop.Prelude.{
  ℕ, zero, suc, ◌+◌, ◌-◌, ◌*◌, ◌%◌, ◌<◌, ◌≤◌, ◌≡◌, refl, ap, ◌∙◌, subst, inl, inr, true, Option,
  some, none, List, [], ◌∷◌, ◌==◌, guard, length, get_or, All, map, arith, Option-cases,
  >>=-eq-some, guard-true,
}
use timeloop.Prelude.Words.{u32_mod}
use timeloop.Mapping.Loops.{Descriptor}
use timeloop.Mapspaces.Uber.Assign.{outer_first, recurrence, check_dims, assign_index_factors}
use timeloop.Mapspaces.Uber.Assign.Levels.{shape, Sound}
use timeloop.Mapspaces.Uber.Assign.Sums.{end_product, runs, runs-terms, terms, recurrence-terms}
use timeloop.Mapspaces.Uber.Assign.Nests.{EachOnce, factor_product, AllFactors, assign_levels_lem}

check_dims_pass :
    (loops : List Descriptor) (dim : ℕ) (bounds remaining : List ℕ)
    → length remaining ≡ length bounds
    → ((d : ℕ) → d < length bounds → get_or remaining d 0 ≡ 1)
    → ((d : ℕ) → d < length bounds → recurrence (d + dim) loops 1 ≡ get_or bounds d 0 % u32_mod)
    → check_dims loops dim bounds remaining ≡ some tt
unfolding check_dims
check_dims_pass loops dim [] remaining len ones sums = refl
check_dims_pass loops dim (bound ∷ bounds) [] len ones sums = absurd (omega arith)
check_dims_pass loops dim (bound ∷ bounds) (left ∷ remaining) len ones sums =
    let one : left ≡ 1 = ones 0 (omega arith) in
    let first : recurrence dim loops 1 ≡ bound % u32_mod =
      subst (λ k. recurrence k loops 1 ≡ bound % u32_mod) (omega arith) (sums 0 (omega arith)) in
    let e : (left == 1) ≡ true = ground arith in
    let e' : (recurrence dim loops 1 == bound % u32_mod) ≡ true = ground arith in
    rw (e, e')
      (check_dims_pass loops (dim + 1) bounds remaining (omega arith)
        (λ d h. ones (suc d) (omega arith))
        (λ d h.
          subst (λ k. recurrence k loops 1 ≡ get_or bounds d 0 % u32_mod) (omega arith)
            (sums (suc d) (omega arith))))

check_dims_ones :
    (loops : List Descriptor) (dim : ℕ) (bounds remaining : List ℕ) {u : Unit {0}}
    → check_dims loops dim bounds remaining ≡ some u
    → (d : ℕ) → d < length bounds
    → get_or remaining d 0 ≡ 1
unfolding check_dims
check_dims_ones loops dim [] remaining h d low = absurd (omega arith)
check_dims_ones loops dim (bound ∷ bounds) [] h d low = cc
check_dims_ones loops dim (bound ∷ bounds) (left ∷ remaining) h zero low =
    let (_, e, k) = >>=-eq-some (guard (left == 1)) _ h in
    let one = guard-true (left == 1) e in ground arith
check_dims_ones loops dim (bound ∷ bounds) (left ∷ remaining) h (suc d) low =
    let (_, _, k) = >>=-eq-some (guard (left == 1)) _ h in
    let (_, _, k') = >>=-eq-some (guard (recurrence dim loops 1 == bound % u32_mod)) _ k in
    check_dims_ones loops (dim + 1) bounds remaining k' d (omega arith)

-- Subnests with one loop for each dimension at each level, positive bounds, positive factors below
-- 2 ^ 31 at each level, and bounds that the products of the factors reach: the factors are assigned
-- and the checks pass, the loops keep all but their ends, the ends and residual ends are positive
-- with the residual end at most the end, and along each dimension the nest, with each loop cut to
-- its residual end in the last iteration of those around it, runs as often as the bound says.
pub assign_index_factors_lem :
    (factor : ℕ → ℕ → Option ℕ) (bounds : List ℕ) (subnests : List (List Descriptor))
    → All (EachOnce (length bounds)) subnests
    → ((d : ℕ) → d < length bounds → 0 < get_or bounds d 0)
    → AllFactors factor (length bounds) 0 (length subnests)
    → ((d : ℕ)
        → d < length bounds
        → get_or bounds d 0 ≤ factor_product factor d 0 (length subnests))
    → (assigned : List (List Descriptor)) × (assign_index_factors factor bounds subnests
        ≡ some assigned)
      × (map (map shape) assigned ≡ map (map shape) subnests)
      × All Sound (outer_first assigned)
      × ((d : ℕ) → d < length bounds → runs d (outer_first assigned) true ≡ get_or bounds d 0)
unfolding assign_index_factors
assign_index_factors_lem factor bounds subnests once positive factors covers =
    let n : ℕ = length bounds in
    let (assigned, remaining, run, len, kept, sound, along) =
      assign_levels_lem factor n 0 subnests bounds once refl positive factors in
    (
      assigned,
      rw
          (
            run,
            check_dims_pass (outer_first assigned) 0 bounds remaining len
                (λ d low. (along d low).covered (covers d low))
                (λ d low.
                  ap (λ k. recurrence k (outer_first assigned) 1) (omega arith)
                  ∙ recurrence-terms d (outer_first assigned) 1
                  ∙ ap (λ t. t % u32_mod)
                      (exact (outer_first assigned) d (get_or remaining d 0) (get_or bounds d 0)
                        ((along d low).covered (covers d low)) (along d low).sum)),
          )
          refl,
      kept,
      sound,
      λ d low.
          runs-terms d (outer_first assigned) sound
          ∙ exact (outer_first assigned) d (get_or remaining d 0) (get_or bounds d 0)
              ((along d low).covered (covers d low)) (along d low).sum,
    )
  where
    exact :
        (loops : List Descriptor) (d left bound : ℕ)
        → left ≡ 1
        → bound ≡ 1 + terms d loops + (left - 1) * end_product d loops
        → 1 + terms d loops ≡ bound
    exact loops d left bound one h =
        let gone : (left - 1) * end_product d loops ≡ 0 * end_product d loops =
          ap (λ t. t * end_product d loops) (omega arith) in
        omega (arith, zero-mul (end_product d loops))

-- With such subnests, bounds and factors, where the product of the factors of one dimension stays
-- below its bound, the assignment fails.
pub assign_index_factors_short :
    (factor : ℕ → ℕ → Option ℕ) (bounds : List ℕ) (subnests : List (List Descriptor)) (d : ℕ)
    → All (EachOnce (length bounds)) subnests
    → ((c : ℕ) → c < length bounds → 0 < get_or bounds c 0)
    → AllFactors factor (length bounds) 0 (length subnests)
    → d < length bounds
    → factor_product factor d 0 (length subnests) < get_or bounds d 0
    → assign_index_factors factor bounds subnests ≡ none
unfolding assign_index_factors
assign_index_factors_short factor bounds subnests d once positive factors low short =
    let (assigned, remaining, run, len, kept, sound, along) =
      assign_levels_lem factor (length bounds) 0 subnests bounds once refl positive factors in
    let more : 1 < get_or remaining d 0 = (along d low).short short in
    rw run (elim (Option-cases (check_dims (outer_first assigned) 0 bounds remaining)) [
      | inl e ↦ rw e refl
      | inr (u, e) ↦
          absurd (omega (arith, check_dims_ones (outer_first assigned) 0 bounds remaining e d low))
    ])
