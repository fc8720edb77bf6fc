-- ===== src/Mapspaces/Uber/Init/Handover.antt =====
-- What `InitIndexFactorizationSpace` (src/mapspaces/uber.cpp) hands over for a dimension.
use mathlib.Core.List.Memᴰ
use timeloop.Prelude.{
  true, false, leb, le→leb, guard, ◌>>◌, ◌⊎◌, ℕ, ◌+◌, ◌<◌, ◌≤◌, ◌≡◌, ◌↔◌, refl, ap, Option, some,
  none, List, [], ◌∷◌, Memᴰ, ◌>>=◌, arith, length, false, ◌∙◌, subst, inl, inr, Bool-cases,
  Option-cases, ◌==◌,
}
use timeloop.Mapspaces.Factorizations.{Request}
use timeloop.Mapspaces.Factorizations
use timeloop.Mapspaces.Uber.Init.{
  exactly, FactorConstraints, user_factor, prefactors_from, limits_from, entry_of, request_of,
  requests_from, init_index_factorization_space,
}
use timeloop.Mapspaces.Uber.Init.Requests.{
  remaining_count, Copies, Handed, prefactors_from-Handed, limits_from-Copies,
}

-- A value stands in the map of a dimension, at a level.
abbrev pub Has : Option (List (ℕ × ℕ)) → ℕ → ℕ → Type 0
Has none l f = ⊥
Has (some xs) l f = Memᴰ (l, f) xs

-- The map has the user's values at the levels below a number, and no other.
abbrev pub Agrees {ℓ} : {A : Type ℓ} → (ℕ → A) → (ℕ → A) → ℕ → Option (List (ℕ × ℕ)) → Type ℓ
Agrees user value levels given = (l f : ℕ) → Has given l f ↔ ((l < levels) × (user l ≡ value f))

entry_of-Has : (xs : List (ℕ × ℕ)) (l f : ℕ) → Has (entry_of xs) l f ↔ Memᴰ (l, f) xs
unfolding entry_of
entry_of-Has [] l f = (λ h. absurd h, λ m. absurd (Memᴰ.not-nil m))
entry_of-Has (x ∷ xs) l f = (λ h. h, λ m. m)

Copies-Agrees :
    {A : Type 0} (user value : ℕ → A) (levels : ℕ) (xs : List (ℕ × ℕ))
    → Copies user value levels 0 xs
    → Agrees user value levels (entry_of xs)
Copies-Agrees user value levels xs copies l f = (
  λ h. let (a, b, e) = (copies l f).0 ((entry_of-Has xs l f).0 h) in (omega arith, e),
  λ (b, e). (entry_of-Has xs l f).1 ((copies l f).1 (omega arith, omega arith, e)),
)

-- What the user gives for the dimension arrives.
abbrev pub Handover : FactorConstraints → ℕ → ℕ → ℕ → Request → Type 0
Handover c levels bound dim q =
    (q.bound ≡ bound)
    × (q.order ≡ levels)
    × Agrees (λ l. user_factor c l dim) (λ f. some (exactly f)) levels q.prefactors
    × Agrees (λ l. c.user_max_factors l dim) some levels q.maxfactors
    × Agrees (λ l. c.user_min_factors l dim) some levels q.minfactors

request_of_lem :
    (c : FactorConstraints) (levels bound dim : ℕ)
    → (remaining_count (λ l. user_factor c l dim) levels 0 ≤ 1
        → (q : Request) × (request_of c levels bound dim ≡ some q) × Handover c levels bound dim q)
      × (1 < remaining_count (λ l. user_factor c l dim) levels 0
          → request_of c levels bound dim ≡ none)
unfolding request_of
request_of_lem c levels bound dim = (
  λ few.
      let (xs, e, copies) = handed.0 (omega arith) in
      (
        finish xs,
        ap (λ r. r >>= (λ given. some (finish given))) e,
        (
          refl,
          refl,
          Copies-Agrees _ _ levels xs copies,
          Copies-Agrees _ _ levels _ (limits_from-Copies (λ l. c.user_max_factors l dim) levels 0),
          Copies-Agrees _ _ levels _ (limits_from-Copies (λ l. c.user_min_factors l dim) levels 0),
        ),
      ),
  λ many. ap (λ r. r >>= (λ given. some (finish given))) (handed.1 (omega arith)),
)
  where
    handed :
        Handed
          (λ l. user_factor c l dim)
          levels
          0
          (prefactors_from (λ l. user_factor c l dim) levels 0 false)
          (0 + remaining_count (λ l. user_factor c l dim) levels 0)
    handed = prefactors_from-Handed (λ l. user_factor c l dim) levels 0 false

    finish : List (ℕ × ℕ) → Request
    finish given = record {
      bound = bound;
      order = levels;
      prefactors = entry_of given;
      maxfactors = entry_of (limits_from (λ level. c.user_max_factors level dim) levels 0);
      minfactors = entry_of (limits_from (λ level. c.user_min_factors level dim) levels 0);
    }

-- The dimensions from `dim` on, one request each.
abbrev pub Handovers : FactorConstraints → ℕ → List ℕ → ℕ → List Request → Type 0
Handovers c levels [] dim [] = Unit
Handovers c levels [] dim (q ∷ qs) = ⊥
Handovers c levels (bound ∷ bounds) dim [] = ⊥
Handovers c levels (bound ∷ bounds) dim (q ∷ qs) =
    Handover c levels bound dim q × Handovers c levels bounds (dim + 1) qs

-- The levels that a dimension leaves open.
abbrev pub open_levels : FactorConstraints → ℕ → ℕ → ℕ
open_levels c levels dim = remaining_count (λ l. user_factor c l dim) levels 0

requests_from-Handovers :
    (c : FactorConstraints) (levels : ℕ) (bounds : List ℕ) (dim : ℕ)
    → ((d : ℕ) → dim ≤ d → d < length bounds + dim → open_levels c levels d ≤ 1)
    → (qs : List Request) × (requests_from c levels bounds dim ≡ some qs)
      × Handovers c levels bounds dim qs
unfolding requests_from
requests_from-Handovers c levels [] dim few = ([], refl, tt)
requests_from-Handovers c levels (bound ∷ bounds) dim few =
    let (q, e, here) =
      (request_of_lem c levels bound dim).0 (few dim (omega arith) (omega arith)) in
    let (qs, e', later) =
      requests_from-Handovers c levels bounds (dim + 1)
        (λ d a b. few d (omega arith) (omega arith)) in
    (
      q ∷ qs,
      ap (λ r. r >>= (λ x. requests_from c levels bounds (dim + 1) >>= (λ rest. some (x ∷ rest)))) e
          ∙ ap (λ r. r >>= (λ rest. some (q ∷ rest))) e',
      (here, later),
    )

requests_from-none :
    (c : FactorConstraints) (levels : ℕ) (bounds : List ℕ) (dim d : ℕ)
    → dim ≤ d
    → d < length bounds + dim
    → 1 < open_levels c levels d
    → requests_from c levels bounds dim ≡ none
unfolding requests_from
requests_from-none c levels [] dim d a b many = absurd (omega arith)
requests_from-none c levels (bound ∷ bounds) dim d a b many = elim (Bool-cases (d == dim)) [
  | inl s ↦
      let same : d ≡ dim = ground arith in
      ap (λ r. r >>= (λ x. requests_from c levels bounds (dim + 1) >>= (λ rest. some (x ∷ rest))))
        ((request_of_lem c levels bound dim).1 (subst (λ x. 1 < open_levels c levels x) same many))
  | inr s ↦ elim (Option-cases (request_of c levels bound dim)) [
    | inl e ↦
        ap (λ r. r >>= (λ x. requests_from c levels bounds (dim + 1) >>= (λ rest. some (x ∷ rest))))
          e
    | inr (q, e) ↦
        ap (λ r. r >>= (λ x. requests_from c levels bounds (dim + 1) >>= (λ rest. some (x ∷ rest))))
          e
        ∙ ap (λ r. r >>= (λ rest. some (q ∷ rest)))
            (requests_from-none c levels bounds (dim + 1) d (ground arith) (omega arith) many)
  ]
]

-- Where the user names factors at no more levels than there are, and leaves each dimension the remaining factor at no more than one level,
-- `InitIndexFactorizationSpace` gives the factorization space, for each dimension in turn, its bound,
-- the number of tiling levels, and as fixed, greatest and least factors those of the user for this
-- dimension at these levels, and no other. Where it is left at two levels or more for some dimension,
-- or the user names more levels than there are, the function fails.
pub init_index_factorization_space_lem :
    (c : FactorConstraints) (levels : ℕ) (bounds : List ℕ)
    → (length c.user_factors ≤ levels
        → ((d : ℕ) → d < length bounds → open_levels c levels d ≤ 1)
        → (qs : List Request) × (init_index_factorization_space c levels bounds
            ≡ Factorizations.init qs)
          × Handovers c levels bounds 0 qs)
      × ((d : ℕ)
          → d < length bounds
          → 1 < open_levels c levels d
          → init_index_factorization_space c levels bounds ≡ none)
      × (levels < length c.user_factors → init_index_factorization_space c levels bounds ≡ none)
unfolding init_index_factorization_space
init_index_factorization_space_lem c levels bounds = (
  λ enough few.
      let (qs, e, handovers) =
        requests_from-Handovers c levels bounds 0 (λ d a b. few d (omega arith)) in
      let fits : leb (length c.user_factors) levels ≡ true = le→leb _ _ enough in
      (qs, rw fits (ap (λ r. r >>= Factorizations.init) e), handovers),
  λ d b many. fails d b many (Bool-cases (leb (length c.user_factors) levels)),
  λ more. let over : leb (length c.user_factors) levels ≡ false = ground arith in rw over refl,
)
  where
    fails :
        (d : ℕ)
        → d < length bounds
        → 1 < open_levels c levels d
        → (leb (length c.user_factors) levels ≡ true) ⊎ (leb (length c.user_factors) levels ≡ false)
        → (guard (leb (length c.user_factors) levels)
            >> (requests_from c levels bounds 0 >>= Factorizations.init))
          ≡ none
    fails d b many (inl e) = rw e (
        ap (λ r. r >>= Factorizations.init)
          (requests_from-none c levels bounds 0 d (omega arith) (omega arith) many))
    fails d b many (inr e) = rw e refl
