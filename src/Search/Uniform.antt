-- ===== src/Search/Uniform.antt =====
-- What ExhaustiveSearch (src/search/exhaustive.cpp) assumes of its mapspace, and what holds while
-- it searches.
use timeloop.Prelude.{
  ℕ, ◌+◌, ◌<◌, ◌≤◌, ◌≡◌, ◌≢◌, refl, subst, ◌⊎◌, inl, inr, arith, ltb, Bool-cases, List,
}
use timeloop.Search.{Indices, read, Status, success, mapping_construction_failure, eval_failure}
use timeloop.Search.Ids.{Within}
use timeloop.Search.Order.{Upto}
use timeloop.Search.Exhaustive.{Search}

-- A place with another bypass.
abbrev pub with_bypass : Indices → ℕ → Indices
with_bypass it d = record it { bypass = d }

-- What the search assumes of its mapspace: whether a mapping can be constructed does not depend on
-- the bypass, and no mapping with some factors succeeds if all bypasses of one of them fail their
-- evaluation.
pub record Uniform (sizes : Indices) (outcome : List ℕ → Status) : Type 0 where
  pub construction :
      (it : Indices) (d : ℕ)
      → outcome (read it) ≡ mapping_construction_failure
      → outcome (read (with_bypass it d)) ≡ mapping_construction_failure
  pub evaluation :
      (it x : Indices)
      → x.factors ≡ it.factors
      → ((d : ℕ) → d < sizes.bypass → outcome (read (with_bypass it d)) ≡ eval_failure)
      → outcome (read x) ≢ success

-- What `eval_fail_count_` has counted when the search is at a place.
pub record Counted (outcome : List ℕ → Status) (it : Indices) (n : ℕ) : Type 0 where
  pub few : n ≤ it.bypass
  pub all_failed :
      n ≡ it.bypass → (d : ℕ) → d < it.bypass → outcome (read (with_bypass it d)) ≡ eval_failure
  pub built :
      (d : ℕ) → d < it.bypass → outcome (read (with_bypass it d)) ≢ mapping_construction_failure

-- Nothing up to the second place and behind the first succeeds.
abbrev pub NoneSkipped : Indices → (List ℕ → Status) → Indices → Indices → Type 0
NoneSkipped sizes outcome it it' =
    (x : Indices) → Within sizes x → outcome (read x) ≡ success → Upto x it' → Upto x it

-- The iterator and the count that `Report` moves on from: at the same place, with bypasses left,
-- or at a last bypass with the count reset.
abbrev pub Settled : Indices → (List ℕ → Status) → Indices → Search → Type 0
Settled sizes outcome it s =
    Within sizes s.iterator
    × Upto it s.iterator
    × NoneSkipped sizes outcome it s.iterator
    × (((s.iterator ≡ it)
          × (it.bypass + 1 < sizes.bypass)
          × Counted outcome (with_bypass it (it.bypass + 1)) s.eval_fail_count)
        ⊎ ((s.iterator.bypass + 1 ≡ sizes.bypass) × (s.eval_fail_count ≡ 0)))

pub success_ne_construction : success ≢ mapping_construction_failure
success_ne_construction e = cc

pub eval_ne_construction : eval_failure ≢ mapping_construction_failure
eval_ne_construction e = cc

-- The next bypass is built if this one is.
pub built_next :
    (outcome : List ℕ → Status) (it : Indices) (n : ℕ)
    → Counted outcome it n
    → outcome (read it) ≢ mapping_construction_failure
    → (d : ℕ) → d < it.bypass + 1
    → outcome (read (with_bypass it d)) ≢ mapping_construction_failure
built_next outcome it n c h d lt e = elim (Bool-cases (ltb d it.bypass)) [
  | inl below ↦ c.built d (ground arith) e
  | inr above ↦
      let eq : d ≡ it.bypass = ground arith in
      h (subst (λ t. outcome (read (with_bypass it t)) ≡ mapping_construction_failure) eq e)
]

pub failed_next :
    (outcome : List ℕ → Status) (it : Indices) (n : ℕ)
    → Counted outcome it n
    → outcome (read it) ≡ eval_failure
    → n ≡ it.bypass
    → (d : ℕ) → d < it.bypass + 1
    → outcome (read (with_bypass it d)) ≡ eval_failure
failed_next outcome it n c h e d lt = elim (Bool-cases (ltb d it.bypass)) [
  | inl below ↦ c.all_failed e d (ground arith)
  | inr above ↦
      let eq : it.bypass ≡ d = ground arith in
      subst (λ t. outcome (read (with_bypass it t)) ≡ eval_failure) eq h
]

pub stay :
    (sizes : Indices) (outcome : List ℕ → Status) (it : Indices) → NoneSkipped sizes outcome it it
stay sizes outcome it x w e u = u

pub here : (it : Indices) → Upto it it
here it = inr (refl, refl, refl, refl)
