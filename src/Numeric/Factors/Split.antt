-- ===== src/Numeric/Factors/Split.antt =====
-- `MultiplicativeSplitRecursive_` (src/util/numeric.cpp): the rows that it makes.
use timeloop.Prelude.{
  ℕ, zero, suc, ◌*◌, ◌/◌, ◌%◌, ◌<◌, ◌≡◌, refl, inl, inr, List, [], ◌∷◌, ◌++◌, ◌==◌, arith,
  Bool-cases, ap, sym, ◌∙◌, subst, All, Memᴰ, All-append, All-map, Memᴰ-map, ==_iff, ==_ne, ◌↔◌,
  All-Memᴰ, length, product, product-append, length-append, Option, some, map, All-weaken,
}
use mathlib.Core.List.Memᴰ
use mathlib.Core.Option.{some-injective}
use native.Mathlib.Nat.{mul-one}
use timeloop.Numeric.Factors.{multiplicative_split, split_over, all_factors, Factors, init}
use timeloop.Numeric.Factors.Divisors.{
  Divides, Divides-mul, Divides-div, Divides-of_mul, Divides-trans, all_factors_lem,
  all_factors-Divides,
}

-- A row of the right number of factors with the right product.
abbrev pub IsSplit : ℕ → ℕ → List ℕ → Type 0
IsSplit order n row = (length row ≡ order) × (product row ≡ n)

-- A successful result, all of whose rows satisfy `P`.
abbrev pub Returns : Option (List (List ℕ)) → (List ℕ → Type 0) → Type 0
Returns result P = (rows : List (List ℕ)) × (result ≡ some rows) × All P rows

IsSplit-snoc :
    (order n f : ℕ) (row : List ℕ)
    → Divides f n
    → IsSplit order (n / f) row
    → IsSplit (suc order) n (row ++ (f ∷ []))
IsSplit-snoc order n f row d (len, prod) = (
  omega (arith, length-append row (f ∷ [])),
  product-append row (f ∷ []) ∙ rw prod (omega (arith, Divides-mul f n d)),
)

split_over-IsSplit :
    (order n : ℕ) (recur : ℕ → Option (List (List ℕ))) (fs : List ℕ)
    → All (λ f. 0 < f) fs
    → ((m : ℕ) → Returns (recur m) (IsSplit order m))
    → Returns (split_over recur n fs) (IsSplit (suc order) n)
unfolding split_over
split_over-IsSplit order n recur [] p h = ([], refl, tt)
split_over-IsSplit order n recur (f ∷ fs) p h =
    let (rest, run, all) = split_over-IsSplit order n recur fs p.1 h in
    elim (Bool-cases (n % f == 0)) [
      | inl e ↦
          let (subs, run', all') = h (n / f) in
          (
            map (λ v. v ++ (f ∷ [])) subs ++ rest,
            rw (e, run', run),
            All-append _ _ rest
                (All-map _ _ _ subs (λ row. IsSplit-snoc order n f row (p.0, (==_iff _ _).0 e))
                  all')
                all,
          )
      | inr e ↦ (rest, rw (e, run), all)
    ]

pub multiplicative_split-IsSplit :
    (fs : List ℕ) (order n : ℕ)
    → All (λ f. 0 < f) fs
    → Returns (multiplicative_split fs (suc order) n) (IsSplit (suc order) n)
unfolding multiplicative_split
multiplicative_split-IsSplit fs zero n p = ((n ∷ []) ∷ [], refl, ((refl, mul-one n), tt))
multiplicative_split-IsSplit fs (suc order) n p =
    split_over-IsSplit (suc order) n (multiplicative_split fs (suc order)) fs p
      (λ m. multiplicative_split-IsSplit fs order m p)

-- The last entry of a row, and the row before it.
snoc-cases :
    (order : ℕ) (row : List ℕ)
    → length row ≡ suc order
    → (front : List ℕ) × (f : ℕ) × (row ≡ front ++ (f ∷ [])) × (length front ≡ order)
snoc-cases order [] h = absurd (omega arith)
snoc-cases zero (x ∷ []) h = ([], x, refl, refl)
snoc-cases zero (x ∷ y ∷ row) h = absurd (omega arith)
snoc-cases (suc order) (x ∷ []) h = absurd (omega arith)
snoc-cases (suc order) (x ∷ y ∷ row) h =
    let (front, f, eq, len) = snoc-cases order (y ∷ row) (omega arith) in
    (x ∷ front, f, ap (λ t. x ∷ t) eq, omega arith)

-- A successful result that holds every row with `Q`.
abbrev Finds : Option (List (List ℕ)) → (List ℕ → Type 0) → Type 0
Finds result Q =
    (rows : List (List ℕ)) × (result ≡ some rows) × ((row : List ℕ) → Q row → Memᴰ row rows)

-- A row whose last factor is on the list, and whose front splits the quotient.
abbrev Ends : ℕ → ℕ → List ℕ → List ℕ → Type 0
Ends order n fs row =
    (front : List ℕ) × (f : ℕ) × (row ≡ front ++ (f ∷ []))
    × Memᴰ f fs
    × Divides f n
    × IsSplit order (n / f) front

single : (n : ℕ) (row : List ℕ) → IsSplit 1 n row → row ≡ n ∷ []
single n [] h = absurd (omega arith)
single n (x ∷ []) h = ap (λ t. t ∷ []) (omega (arith, h.1))
single n (x ∷ y ∷ row) h = absurd (omega arith)

split_over-Finds :
    (order n : ℕ) (recur : ℕ → Option (List (List ℕ))) (fs : List ℕ)
    → All (λ f. 0 < f) fs
    → ((f : ℕ) → Divides f n → Finds (recur (n / f)) (IsSplit order (n / f)))
    → Finds (split_over recur n fs) (Ends order n fs)
unfolding split_over
split_over-Finds order n recur [] p h =
    ([], refl, λ row (_, _, _, m, _, _). absurd (Memᴰ.not-nil m))
split_over-Finds order n recur (g ∷ fs) p h =
    let (rest, run, finds) = split_over-Finds order n recur fs p.1 h in
    elim (Bool-cases (n % g == 0)) [
      | inl e ↦
          let (subs, run', finds') = h g (p.0, (==_iff _ _).0 e) in
          let new = map (λ v. v ++ (g ∷ [])) subs in
          (
            new ++ rest,
            rw (e, run', run),
            λ row (front, f, eq, m, d, split). elim (Memᴰ.cases_cons m) [
              | inl same ↦ Memᴰ.append_left rest (
                  rw (eq, same)
                    (Memᴰ-map (λ v. v ++ (g ∷ []))
                      (finds' front (subst (λ t. IsSplit order (n / t) front) same split))))
              | inr later ↦ Memᴰ.append_right new (finds row (front, f, eq, later, d, split))
            ],
          )
      | inr e ↦ (
        rest,
        rw (e, run),
        λ row (front, f, eq, m, d, split). elim (Memᴰ.cases_cons m) [
          | inl same ↦ absurd (==_ne _ _ e (subst (λ t. n % t ≡ 0) same d.1))
          | inr later ↦ finds row (front, f, eq, later, d, split)
        ],
      )
    ]

-- A list that holds every divisor of `n`.
abbrev pub Covers : List ℕ → ℕ → Type 0
Covers fs n = (d : ℕ) → Divides d n → Memᴰ d fs

Covers-div : (fs : List ℕ) (n f : ℕ) → 0 < n → Covers fs n → Divides f n → Covers fs (n / f)
Covers-div fs n f pos c h d k = c d (Divides-trans d f n pos h k)

ends :
    (order n : ℕ) (fs row : List ℕ)
    → 0 < n
    → Covers fs n
    → IsSplit (suc (suc order)) n row
    → Ends (suc order) n fs row
ends order n fs row pos c (len, prod) =
    let (front, f, eq, len') = snoc-cases (suc order) row len in
    let total : f * product front ≡ n =
      omega (arith, product-append front (f ∷ []), ap product eq) in
    let (d, quot) = Divides-of_mul f (product front) n pos total in
    (front, f, eq, c f d, d, (len', sym quot))

multiplicative_split-Finds :
    (fs : List ℕ) (order n : ℕ)
    → All (λ f. 0 < f) fs
    → 0 < n
    → Covers fs n
    → Finds (multiplicative_split fs (suc order) n) (IsSplit (suc order) n)
unfolding multiplicative_split
multiplicative_split-Finds fs zero n p pos c =
    ((n ∷ []) ∷ [], refl, λ row h. Memᴰ.head (single n row h))
multiplicative_split-Finds fs (suc order) n p pos c =
    let (rows, run, finds) =
      split_over-Finds (suc order) n (multiplicative_split fs (suc order)) fs p (λ f d.
        multiplicative_split-Finds fs order (n / f) p (Divides-div f n pos d).0.0
          (Covers-div fs n f pos c d)) in
    (rows, run, λ row h. finds row (ends order n fs row pos c h))

-- For a positive order and a bound from 1 up to 2 ^ 32 - 1 the constructor succeeds, and its rows
-- are exactly the lists of `order` factors whose product is the bound.
pub init_lem :
    (n order : ℕ)
    → 0 < n
    → n < 4294967296
    → (f : Factors) × (init n (suc order) ≡ some f)
      × ((row : List ℕ) → Memᴰ row f.cofactors ↔ IsSplit (suc order) n row)
unfolding init
init_lem n order pos small =
    let fs = all_factors n in
    let positive : All (λ d. 0 < d) fs =
      All-weaken _ _ fs (λ d h. h.0) (all_factors-Divides n pos) in
    let (rows, run, all) = multiplicative_split-IsSplit fs order n positive in
    let (rows', run', finds) =
      multiplicative_split-Finds fs order n positive pos (λ d. (all_factors_lem n d pos small).1) in
    let same : rows' ≡ rows = some-injective _ _ (sym run' ∙ run) in
    (
      record { n = n; all = fs; cofactors = rows },
      rw run,
      λ row. (All-Memᴰ (IsSplit (suc order) n) all, λ h. subst (Memᴰ row) same (finds row h)),
    )
