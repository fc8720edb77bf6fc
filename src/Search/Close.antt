-- ===== src/Search/Close.antt =====
-- `Report` at the last bypass, and for evaluations and successes (src/search/exhaustive.cpp).
use native.Mathlib.Nat.{mod-eq_of_lt}
use timeloop.Prelude.{
  ℕ, ◌+◌, ◌%◌, ◌<◌, ◌≡◌, refl, sym, ◌∙◌, true, false, inl, inr, arith, ltb, Bool-cases, List, ◌==◌,
  ==_iff,
}
use timeloop.Prelude.Words.{u128_mod, u64_mod, pred128_pos}
use timeloop.Search.{Indices, read, inc128, Status, success, eval_failure}
use timeloop.Search.Ids.{Within}
use timeloop.Search.Order.{Upto, Fits, inc128-eq}
use timeloop.Search.Uniform.{
  with_bypass, Uniform, Counted, NoneSkipped, Settled, success_ne_construction,
  eval_ne_construction, built_next, failed_next, stay, here,
}
use timeloop.Search.Exhaustive.{Search, count_status, close_bypasses, skip_bypasses, fast_forward}

-- `close_bypasses` before the last bypass.
pub close_early :
    (sizes : Indices) (s : Search)
    → s.iterator.bypass + 1 < sizes.bypass
    → sizes.bypass < u128_mod
    → close_bypasses sizes s ≡ s
unfolding close_bypasses
close_early sizes s h k =
    let ne : ((s.iterator.bypass + 1) == sizes.bypass) ≡ false = ground arith in
    rw (inc128-eq s.iterator.bypass sizes.bypass (omega arith) k, ne)

-- `close_bypasses` at the last bypass, where not all failed.
pub close_last :
    (sizes : Indices) (s : Search)
    → s.iterator.bypass + 1 ≡ sizes.bypass
    → sizes.bypass < u128_mod
    → (s.eval_fail_count == sizes.bypass) ≡ false
    → close_bypasses sizes s ≡ record s { eval_fail_count = 0 }
unfolding close_bypasses
close_last sizes s h k f = rw (
  inc128-eq s.iterator.bypass sizes.bypass (omega arith) k,
  (==_iff (s.iterator.bypass + 1) sizes.bypass).1 h,
  f,
)

-- And where all failed.
pub close_failed :
    (sizes : Indices) (s : Search)
    → s.iterator.bypass + 1 ≡ sizes.bypass
    → sizes.bypass < u128_mod
    → (s.eval_fail_count == sizes.bypass) ≡ true
    → close_bypasses sizes s
      ≡ record s { iterator = fast_forward sizes s.iterator; eval_fail_count = 0 }
unfolding close_bypasses
close_failed sizes s h k f = rw (
  inc128-eq s.iterator.bypass sizes.bypass (omega arith) k,
  (==_iff (s.iterator.bypass + 1) sizes.bypass).1 h,
  f,
)

pub settle_success :
    (sizes : Indices) (outcome : List ℕ → Status) (s : Search)
    → Fits sizes
    → Within sizes s.iterator
    → Counted outcome s.iterator s.eval_fail_count
    → outcome (read s.iterator) ≡ success
    → Settled sizes outcome s.iterator
        (skip_bypasses success sizes (close_bypasses sizes (count_status success s)))
unfolding skip_bypasses count_status
settle_success sizes outcome s fits w c e =
    let few = c.few in
    let wb = w.bypass in
    elim (Bool-cases (ltb (s.iterator.bypass + 1) sizes.bypass)) [
      | inl below ↦
          rw
            (close_early sizes (record s { valid_mappings = inc128 s.valid_mappings })
              (ground arith) fits.bypass)
            (
              w,
              here s.iterator,
              stay sizes outcome s.iterator,
              inl (
                refl,
                ground arith,
                record {
                  few = omega arith;
                  all_failed = λ eq. absurd (omega arith);
                  built =
                      built_next outcome s.iterator s.eval_fail_count c
                        (λ e'. success_ne_construction (sym e ∙ e'));
                },
              ),
            )
      | inr top ↦
          let last : s.iterator.bypass + 1 ≡ sizes.bypass = ground arith in
          rw
            (close_last sizes (record s { valid_mappings = inc128 s.valid_mappings }) last
              fits.bypass (ground arith))
            (w, here s.iterator, stay sizes outcome s.iterator, inr (last, refl))
    ]

-- The last place of an index factorization all of whose bypasses fail.
pub none_of_factors :
    (sizes : Indices) (outcome : List ℕ → Status) (it : Indices)
    → Uniform sizes outcome
    → Fits sizes
    → Within sizes it
    → ((d : ℕ) → d < sizes.bypass → outcome (read (with_bypass it d)) ≡ eval_failure)
    → Upto it (fast_forward sizes it)
      × NoneSkipped sizes outcome it (fast_forward sizes it)
      × Within sizes (fast_forward sizes it)
none_of_factors sizes outcome it u fits w f =
    let p = pred128_pos sizes.permutation (omega (arith, w.permutation)) fits.permutation in
    let q = pred128_pos sizes.split (omega (arith, w.split)) fits.split in
    let wp = w.permutation in
    let ws = w.split in
    rw (p, q)
      (
        ground arith,
        λ x wx e k. elim (Bool-cases (ltb x.factors it.factors)) [
          | inl below ↦ inl (inl (ground arith))
          | inr same ↦ absurd (u.evaluation it x (ground arith) f e)
        ],
        record {
          factors = w.factors;
          permutation = omega arith;
          split = omega arith;
          bypass = w.bypass;
        },
      )

pub settle_eval :
    (sizes : Indices) (outcome : List ℕ → Status) (s : Search)
    → Uniform sizes outcome
    → Fits sizes
    → sizes.bypass < u64_mod
    → Within sizes s.iterator
    → Counted outcome s.iterator s.eval_fail_count
    → outcome (read s.iterator) ≡ eval_failure
    → Settled sizes outcome s.iterator
        (skip_bypasses eval_failure sizes (close_bypasses sizes (count_status eval_failure s)))
unfolding skip_bypasses count_status
settle_eval sizes outcome s u fits small w c e =
    let few = c.few in
    let wb = w.bypass in
    let inc : (s.eval_fail_count + 1) % u64_mod ≡ s.eval_fail_count + 1 =
      mod-eq_of_lt (omega arith) in
    let counted : Search = record s { eval_fail_count = s.eval_fail_count + 1 } in
    let built =
      built_next outcome s.iterator s.eval_fail_count c (λ e'. eval_ne_construction (sym e ∙ e')) in
    elim (Bool-cases (ltb (s.iterator.bypass + 1) sizes.bypass)) [
      | inl below ↦
          rw (inc, close_early sizes counted (ground arith) fits.bypass)
            (
              w,
              here s.iterator,
              stay sizes outcome s.iterator,
              inl (
                refl,
                ground arith,
                record {
                  few = omega arith;
                  all_failed =
                      λ eq. failed_next outcome s.iterator s.eval_fail_count c e (omega arith);
                  built = built;
                },
              ),
            )
      | inr top ↦
          let last : s.iterator.bypass + 1 ≡ sizes.bypass = ground arith in
          elim (Bool-cases ((s.eval_fail_count + 1) == sizes.bypass)) [
            | inl all ↦
                let failed = failed_next outcome s.iterator s.eval_fail_count c e (ground arith) in
                let (a, b, d) =
                  none_of_factors sizes outcome s.iterator u fits w
                    (λ x lt. failed x (omega arith)) in
                rw (inc, close_failed sizes counted last fits.bypass all)
                  (d, a, b, inr (last, refl))
            | inr some_built ↦
                rw (inc, close_last sizes counted last fits.bypass some_built)
                  (w, here s.iterator, stay sizes outcome s.iterator, inr (last, refl))
          ]
    ]
