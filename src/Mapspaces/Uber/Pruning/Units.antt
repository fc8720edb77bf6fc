-- ===== src/Mapspaces/Uber/Pruning/Units.antt =====
-- The pruned dimensions that `InitPruned` collects (src/mapspaces/uber.cpp).
use timeloop.Prelude.{
  ℕ, zero, suc, ◌+◌, ◌<◌, ◌≤◌, ◌≡◌, refl, sym, ap, ◌∙◌, subst, inl, inr, true, false, ◌&&◌, Option,
  some, none, List, [], ◌∷◌, ◌++◌, ltb, leb, ◌==◌, if◌then◌else◌, length, get_elem?, All,
  All-append, arith, Bool-cases,
}
use timeloop.Numeric.Factoradic.Orders.{count}
use timeloop.Mapspaces.Permutations.{absent, found}
use timeloop.Mapspaces.Permutations.Counting.{
  count-append, count-absent, count-absent_known, found-count_zero, absent-below,
}
use timeloop.Mapspaces.Permutations.Levels.{placed}
use timeloop.Mapspaces.Uber.Pruning.{Constraints, unit_dims, level_dims, pruned_levels}
use timeloop.Mapspaces.Uber.Construct.Stages.{count_low}

-- The dimensions from `dim` on, `left` of them, that have the factor 1: each once, and no other.
abbrev pub Units : (ℕ → ℕ) → ℕ → ℕ → List ℕ → Type 0
Units value left dim dims =
    (length dims ≤ left)
    × ((d : ℕ)
        → count d dims ≡ (if leb dim d && ltb d (dim + left) && (value d == 1) then 1 else 0))

unit_dims_lem :
    (factor : ℕ → Option ℕ) (value : ℕ → ℕ) (left dim : ℕ)
    → ((d : ℕ) → dim ≤ d → d < dim + left → factor d ≡ some (value d))
    → (dims : List ℕ) × (unit_dims factor left dim ≡ some dims) × Units value left dim dims
unfolding unit_dims
unit_dims_lem factor value zero dim known = ([], refl, (omega arith, λ d. ground arith))
unit_dims_lem factor value (suc left) dim known =
    let (rest, run, (few, counts)) =
      unit_dims_lem factor value left (dim + 1)
        (λ d low high. known d (omega arith) (omega arith)) in
    let now = known dim (omega arith) (omega arith) in
    elim (Bool-cases (value dim == 1)) [
      | inl e ↦ (
        dim ∷ rest,
        rw (now, run, e) refl,
        (
          omega arith,
          λ d. elim (Bool-cases (dim == d)) [
            | inl s ↦
                let same : dim ≡ d = ground arith in
                let one : (value d == 1) ≡ true = ap (λ k. value k == 1) (sym same) ∙ e in
                let c = counts d in ground arith
            | inr s ↦ let c = counts d in ground arith
          ],
        ),
      )
      | inr e ↦ (
        rest,
        rw (now, run, e) refl,
        (
          omega arith,
          λ d. elim (Bool-cases (dim == d)) [
            | inl s ↦
                let same : dim ≡ d = ground arith in
                let one : (value d == 1) ≡ false = ap (λ k. value k == 1) (sym same) ∙ e in
                let c = counts d in ground arith
            | inr s ↦ let c = counts d in ground arith
          ],
        ),
      )
    ]

-- The dimensions that a level prunes: those with a factor of 1, or none where the user gives the split.
abbrev pub LevelDims : Option ℕ → (ℕ → ℕ) → ℕ → List ℕ → Type 0
LevelDims (some split) value n dims = dims ≡ []
LevelDims none value n dims = Units value n 0 dims

level_dims_lem :
    (user : Option ℕ) (factor : ℕ → Option ℕ) (value : ℕ → ℕ) (n : ℕ)
    → ((d : ℕ) → d < n → factor d ≡ some (value d))
    → (dims : List ℕ) × (level_dims user factor n ≡ some dims) × LevelDims user value n dims
unfolding level_dims
level_dims_lem (some split) factor value n known = ([], refl, refl)
level_dims_lem none factor value n known =
    unit_dims_lem factor value n 0 (λ d low high. known d (omega arith))

pub pruned_levels_lem :
    (c : Constraints) (factor : ℕ → ℕ → Option ℕ) (value : ℕ → ℕ → ℕ) (n left level : ℕ)
    → ((d l : ℕ) → d < n → l < left + level → factor d l ≡ some (value d l))
    → (pruned : List (List ℕ)) × (pruned_levels c factor n left level ≡ some pruned)
      × ((k : ℕ)
          → k < left
          → (dims : List ℕ) × (get_elem? pruned k ≡ some dims)
            × LevelDims (c.user_spatial_splits (k + level)) (λ d. value d (k + level)) n dims)
      × ((k : ℕ) → left ≤ k → get_elem? pruned k ≡ none)
unfolding pruned_levels
pruned_levels_lem c factor value n zero level known =
    ([], refl, λ k h. absurd (omega arith), λ k h. refl)
pruned_levels_lem c factor value n (suc left) level known =
    let (dims, run, now) =
      level_dims_lem (c.user_spatial_splits level) (λ d. factor d level) (λ d. value d level) n
        (λ d low. known d level low (omega arith)) in
    let (rest, run', later, beyond) =
      pruned_levels_lem c factor value n left (level + 1)
        (λ d l low k. known d l low (omega arith)) in
    (
      dims ∷ rest,
      rw (run, run') refl,
      λ k h. at_level dims rest now later k h,
      λ k h. past dims rest beyond k h,
    )
  where
    at_level :
        (dims : List ℕ) (rest : List (List ℕ))
        → LevelDims (c.user_spatial_splits level) (λ d. value d level) n dims
        → ((k : ℕ)
            → k < left
            → (xs : List ℕ) × (get_elem? rest k ≡ some xs)
              × LevelDims
                  (c.user_spatial_splits (k + (level + 1)))
                  (λ d. value d (k + (level + 1)))
                  n
                  xs)
        → (k : ℕ) → k < suc left
        → (xs : List ℕ) × (get_elem? (dims ∷ rest) k ≡ some xs)
          × LevelDims (c.user_spatial_splits (k + level)) (λ d. value d (k + level)) n xs
    at_level dims rest now later zero h = (
      dims,
      refl,
      subst (λ l. LevelDims (c.user_spatial_splits l) (λ d. value d l) n dims) (omega arith) now,
    )
    at_level dims rest now later (suc k) h =
        let (xs, e, t) = later k (omega arith) in
        (
          xs,
          e,
          subst (λ l. LevelDims (c.user_spatial_splits l) (λ d. value d l) n xs) (omega arith) t,
        )

    past :
        (dims : List ℕ) (rest : List (List ℕ))
        → ((k : ℕ) → left ≤ k → get_elem? rest k ≡ none)
        → (k : ℕ) → suc left ≤ k
        → get_elem? (dims ∷ rest) k ≡ none
    past dims rest beyond zero h = absurd (omega arith)
    past dims rest beyond (suc k) h = beyond k (omega arith)

-- Distinct dimensions of the problem.
abbrev pub Distinct : ℕ → List ℕ → Type 0
Distinct n dims = All (λ d. d < n) dims × ((d : ℕ) → count d dims ≤ 1)

pub LevelDims-Distinct :
    (user : Option ℕ) (value : ℕ → ℕ) (n : ℕ) (dims : List ℕ)
    → LevelDims user value n dims
    → Distinct n dims × (length dims ≤ n)
LevelDims-Distinct (some split) value n dims h = rw h ((tt, λ d. omega arith), omega arith)
LevelDims-Distinct none value n dims (few, counts) = (
  (
    count_low n dims (λ d k. let c = counts d in ground arith),
    λ d. let c = counts d in ground arith,
  ),
  few,
)

All-both :
    (n : ℕ) (xs ys : List ℕ)
    → All (λ d. d < n) (xs ++ ys)
    → All (λ d. d < n) xs × All (λ d. d < n) ys
All-both n [] ys h = (tt, h)
All-both n (x ∷ xs) ys (p, h) = let (a, b) = All-both n xs ys h in ((p, a), b)

-- Distinct pruned dimensions and a distinct pattern of the user's are placed without repetition.
pub placed-Distinct :
    (n : ℕ) (pruned prefix suffix : List ℕ)
    → Distinct n pruned
    → Distinct n (prefix ++ suffix)
    → Distinct n (placed prefix suffix pruned)
placed-Distinct n pruned prefix suffix (low, once) (user_low, user_once) =
    let (a, b) = All-both n prefix suffix user_low in
    (
      All-append (λ d. d < n) (pruned ++ absent pruned prefix) (absent pruned suffix)
          (All-append (λ d. d < n) pruned (absent pruned prefix) low
            (absent-below n pruned prefix a))
          (absent-below n pruned suffix b),
      λ d.
          let outer = count-append d (pruned ++ absent pruned prefix) (absent pruned suffix) in
          let inner = count-append d pruned (absent pruned prefix) in
          let user = count-append d prefix suffix in
          elim (Bool-cases (found d pruned)) [
            | inl e ↦ omega (
              arith,
              once d,
              count-absent_known d pruned prefix e,
              count-absent_known d pruned suffix e,
            )
            | inr e ↦ omega (
              arith,
              user_once d,
              found-count_zero d pruned e,
              count-absent d pruned prefix e,
              count-absent d pruned suffix e,
            )
          ],
    )
