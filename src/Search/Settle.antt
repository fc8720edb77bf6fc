-- ===== src/Search/Settle.antt =====
-- What `Report` does to the iterator before it moves on (src/search/exhaustive.cpp).
use timeloop.Prelude.{
  ℕ, ◌+◌, ◌-◌, ◌<◌, ◌≡◌, refl, sym, ◌∙◌, ◌⊎◌, inl, inr, arith, ltb, Bool-cases, List, ◌==◌,
}
use timeloop.Prelude.Words.{u64_mod, pred128_pos}
use timeloop.Search.{Indices, read, Status, success, mapping_construction_failure, eval_failure}
use timeloop.Search.Ids.{Within}
use timeloop.Search.Order.{Upto, Before, Fits}
use timeloop.Search.Uniform.{
  with_bypass, Uniform, Counted, NoneSkipped, Settled, success_ne_construction,
}
use timeloop.Search.Exhaustive.{Search, count_status, close_bypasses, skip_bypasses}
use timeloop.Search.Close.{close_early, close_last, settle_success, settle_eval}

abbrev SameRow : Indices → Indices → Type 0
SameRow x y = (x.factors ≡ y.factors) × (x.permutation ≡ y.permutation) × (x.split ≡ y.split)

same_row : (x y : Indices) → SameRow x y ⊎ ¬ (SameRow x y)
same_row x y = elim (Bool-cases (x.factors == y.factors)) [
  | inl f ↦ elim (Bool-cases (x.permutation == y.permutation)) [
    | inl p ↦ elim (Bool-cases (x.split == y.split)) [
      | inl s ↦ inl (ground arith)
      | inr s ↦ inr (λ e. ground arith)
    ]
    | inr p ↦ inr (λ e. ground arith)
  ]
  | inr f ↦ inr (λ e. ground arith)
]

apart_row : (x y : Indices) (d : ℕ) → ¬ (SameRow x y) → Upto x (with_bypass y d) → Before x y
apart_row x y d h k = ground arith

-- The last bypass of a place that cannot be constructed.
none_of_bypasses :
    (sizes : Indices) (outcome : List ℕ → Status) (it : Indices)
    → Uniform sizes outcome
    → Within sizes it
    → outcome (read it) ≡ mapping_construction_failure
    → NoneSkipped sizes outcome it (with_bypass it (sizes.bypass - 1))
none_of_bypasses sizes outcome it u w e x wx good k = elim (same_row x it) [
  | inl (f, p, q) ↦
      let bad : outcome (read (with_bypass it x.bypass)) ≡ mapping_construction_failure =
        u.construction it x.bypass e in
      let also : outcome (read x) ≡ mapping_construction_failure = rw (f, p, q) bad in
      absurd (success_ne_construction (sym good ∙ also))
  | inr apart ↦ inl (apart_row x it (sizes.bypass - 1) apart k)
]

-- A construction failure only comes at bypass 0.
first_bypass :
    (outcome : List ℕ → Status) (it : Indices) (n : ℕ)
    → Counted outcome it n
    → outcome (read (with_bypass it 0)) ≡ mapping_construction_failure
    → it.bypass ≡ 0
first_bypass outcome it n c e = elim (Bool-cases (ltb 0 it.bypass)) [
  | inl below ↦ absurd (c.built 0 (ground arith) e)
  | inr above ↦ ground arith
]

-- `close_bypasses` keeps the iterator where fewer have failed than there are bypasses.
close_kept :
    (sizes : Indices) (s : Search)
    → Fits sizes
    → Within sizes s.iterator
    → s.eval_fail_count < sizes.bypass
    → ((close_bypasses sizes s).iterator ≡ s.iterator)
      × (s.eval_fail_count ≡ 0 → (close_bypasses sizes s).eval_fail_count ≡ 0)
close_kept sizes s fits w h =
    let wb = w.bypass in
    elim (Bool-cases (ltb (s.iterator.bypass + 1) sizes.bypass)) [
      | inl below ↦ rw (close_early sizes s (ground arith) fits.bypass) (refl, λ z. z)
      | inr top ↦
          rw (close_last sizes s (ground arith) fits.bypass (ground arith)) (refl, λ z. refl)
    ]

settle_construction :
    (sizes : Indices) (outcome : List ℕ → Status) (s : Search)
    → Uniform sizes outcome
    → Fits sizes
    → Within sizes s.iterator
    → Counted outcome s.iterator s.eval_fail_count
    → outcome (read s.iterator) ≡ mapping_construction_failure
    → Settled sizes outcome s.iterator (
        skip_bypasses mapping_construction_failure sizes
          (close_bypasses sizes (count_status mapping_construction_failure s)))
unfolding skip_bypasses count_status
settle_construction sizes outcome s u fits w c e =
    let first =
      first_bypass outcome s.iterator s.eval_fail_count c (u.construction s.iterator 0 e) in
    let few = c.few in
    let wb = w.bypass in
    let kept : (close_bypasses sizes s).iterator ≡ s.iterator =
      (close_kept sizes s fits w (omega arith)).0 in
    let count : (close_bypasses sizes s).eval_fail_count ≡ 0 =
      (close_kept sizes s fits w (omega arith)).1 (omega arith) in
    rw (kept, count, pred128_pos sizes.bypass (omega arith) fits.bypass)
      (
        record {
          factors = w.factors;
          permutation = w.permutation;
          split = w.split;
          bypass = omega arith;
        },
        ground arith,
        none_of_bypasses sizes outcome s.iterator u w e,
        inr (omega arith, refl),
      )

-- `Report` leaves the iterator and the count settled before it moves on, for any status.
pub settle_lem :
    (sizes : Indices) (outcome : List ℕ → Status) (s : Search)
    → Uniform sizes outcome
    → Fits sizes
    → sizes.bypass < u64_mod
    → Within sizes s.iterator
    → Counted outcome s.iterator s.eval_fail_count
    → (st : Status) → outcome (read s.iterator) ≡ st
    → Settled sizes outcome s.iterator
        (skip_bypasses st sizes (close_bypasses sizes (count_status st s)))
settle_lem sizes outcome s u fits small w c success e = settle_success sizes outcome s fits w c e
settle_lem sizes outcome s u fits small w c mapping_construction_failure e =
    settle_construction sizes outcome s u fits w c e
settle_lem sizes outcome s u fits small w c eval_failure e =
    settle_eval sizes outcome s u fits small w c e
