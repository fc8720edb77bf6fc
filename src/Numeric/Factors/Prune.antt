-- ===== src/Numeric/Factors/Prune.antt =====
-- `PruneMax` and `PruneMin`: which rows are left.
use timeloop.Prelude.{
  ℕ, ◌≤◌, ◌<◌, ◌≡◌, refl, Bool, true, false, ◌⊎◌, inl, inr, List, [], ◌∷◌, arith, Bool-cases, sym,
  subst, All, Memᴰ, ◌↔◌, ltb, ltb→lt, ltb→le, get_or, length, Option, some, get_elem?-eq-get_or,
}
use mathlib.Core.List.Memᴰ
use timeloop.Numeric.Factors.{Factors, exceeds_max, misses_min, erase_illegal, prune_max, prune_min}

-- Every bound is about a position of a row of that length.
abbrev pub Inside : ℕ → List (ℕ × ℕ) → Type 0
Inside len = All (λ e. e.0 < len)

abbrev pub AtMost : List (ℕ × ℕ) → List ℕ → Type 0
AtMost maxes row = All (λ e. get_or row e.0 0 ≤ e.1) maxes

abbrev pub AtLeast : List (ℕ × ℕ) → List ℕ → Type 0
AtLeast mins row = All (λ e. e.1 ≤ get_or row e.0 0) mins

-- What the inner loop answers: no failure, and false exactly for the rows with `Keep`.
abbrev Decides : Option Bool → Type 0 → Type 0
Decides result Keep = ((result ≡ some false) × Keep) ⊎ ((result ≡ some true) × ¬ Keep)

exceeds_max_lem :
    (maxes : List (ℕ × ℕ)) (row : List ℕ)
    → Inside (length row) maxes
    → Decides (exceeds_max maxes row) (AtMost maxes row)
unfolding exceeds_max
exceeds_max_lem [] row h = inl (refl, tt)
exceeds_max_lem ((i, m) ∷ maxes) row h =
    rw (get_elem?-eq-get_or row i 0 h.0) (elim (Bool-cases (ltb m (get_or row i 0))) [
      | inl e ↦ rw e (inr (refl, λ k. absurd (omega (arith, ltb→lt _ _ e, k.0))))
      | inr e ↦ rw e (elim (exceeds_max_lem maxes row h.1) [
        | inl (run, keep) ↦ inl (run, (ltb→le _ _ e, keep))
        | inr (run, drop) ↦ inr (run, λ k. drop k.1)
      ])
    ])

misses_min_lem :
    (mins : List (ℕ × ℕ)) (row : List ℕ)
    → Inside (length row) mins
    → Decides (misses_min mins row) (AtLeast mins row)
unfolding misses_min
misses_min_lem [] row h = inl (refl, tt)
misses_min_lem ((i, m) ∷ mins) row h =
    rw (get_elem?-eq-get_or row i 0 h.0) (elim (Bool-cases (ltb (get_or row i 0) m)) [
      | inl e ↦ rw e (inr (refl, λ k. absurd (omega (arith, ltb→lt _ _ e, k.0))))
      | inr e ↦ rw e (elim (misses_min_lem mins row h.1) [
        | inl (run, keep) ↦ inl (run, (ltb→le _ _ e, keep))
        | inr (run, drop) ↦ inr (run, λ k. drop k.1)
      ])
    ])

-- The outer loop keeps the rows with `Keep`, and those alone.
erase_illegal_lem :
    (illegal : List ℕ → Option Bool) (Keep : List ℕ → Type 0) (rows : List (List ℕ))
    → All (λ row. Decides (illegal row) (Keep row)) rows
    → (rows' : List (List ℕ)) × (erase_illegal illegal rows ≡ some rows')
      × ((row : List ℕ) → Memᴰ row rows' ↔ (Memᴰ row rows × Keep row))
unfolding erase_illegal
erase_illegal_lem illegal Keep [] h = ([], refl, λ row. ((λ m. absurd (Memᴰ.not-nil m)), λ k. k.0))
erase_illegal_lem illegal Keep (r ∷ rows) (d, h) =
    let (rows', run, iff) = erase_illegal_lem illegal Keep rows h in
    elim d [
      | inl (e, keep) ↦ (
        r ∷ rows',
        rw (e, run),
        λ row. (
          (λ m. elim (Memᴰ.cases_cons m) [
            | inl same ↦ (Memᴰ.head same, subst Keep (sym same) keep)
            | inr later ↦ let k = (iff row).0 later in (Memᴰ.tail k.0, k.1)
          ]),
          λ (m, k). elim (Memᴰ.cases_cons m) [
            | inl same ↦ Memᴰ.head same
            | inr later ↦ Memᴰ.tail ((iff row).1 (later, k))
          ],
        ),
      )
      | inr (e, drop) ↦ (
        rows',
        rw (e, run),
        λ row. (
          (λ m. let k = (iff row).0 m in (Memᴰ.tail k.0, k.1)),
          λ (m, k). elim (Memᴰ.cases_cons m) [
            | inl same ↦ absurd (drop (subst Keep same k))
            | inr later ↦ (iff row).1 (later, k)
          ],
        ),
      )
    ]

-- All rows of the object have this length.
abbrev pub Rectangular : ℕ → Factors → Type 0
Rectangular order f = All (λ row. length row ≡ order) f.cofactors

decide_rows :
    (order : ℕ) (illegal : List ℕ → Option Bool) (Keep : List ℕ → Type 0) (rows : List (List ℕ))
    → ((row : List ℕ) → length row ≡ order → Decides (illegal row) (Keep row))
    → All (λ row. length row ≡ order) rows
    → All (λ row. Decides (illegal row) (Keep row)) rows
decide_rows order illegal Keep [] h all = tt
decide_rows order illegal Keep (row ∷ rows) h all =
    (h row all.0, decide_rows order illegal Keep rows h all.1)

-- With bounds on positions of the rows, `PruneMax` succeeds and keeps exactly the rows none of
-- whose bounded factors exceeds its bound; the bound and the divisors are unchanged.
pub prune_max_lem :
    (order : ℕ) (f : Factors) (maxes : List (ℕ × ℕ))
    → Rectangular order f
    → Inside order maxes
    → (f' : Factors) × (prune_max f maxes ≡ some f')
      × (f'.n ≡ f.n)
      × (f'.all ≡ f.all)
      × ((row : List ℕ) → Memᴰ row f'.cofactors ↔ (Memᴰ row f.cofactors × AtMost maxes row))
unfolding prune_max
prune_max_lem order f maxes rect inside =
    let (rows, run, iff) = erase_illegal_lem (exceeds_max maxes) (AtMost maxes) f.cofactors (
      decide_rows order (exceeds_max maxes) (AtMost maxes) f.cofactors
        (λ row e. exceeds_max_lem maxes row (rw e inside)) rect) in
    (record f { cofactors = rows }, rw run, refl, refl, iff)

-- `PruneMin` keeps exactly the rows none of whose bounded factors is less than its bound.
pub prune_min_lem :
    (order : ℕ) (f : Factors) (mins : List (ℕ × ℕ))
    → Rectangular order f
    → Inside order mins
    → (f' : Factors) × (prune_min f mins ≡ some f')
      × (f'.n ≡ f.n)
      × (f'.all ≡ f.all)
      × ((row : List ℕ) → Memᴰ row f'.cofactors ↔ (Memᴰ row f.cofactors × AtLeast mins row))
unfolding prune_min
prune_min_lem order f mins rect inside =
    let (rows, run, iff) = erase_illegal_lem (misses_min mins) (AtLeast mins) f.cofactors (
      decide_rows order (misses_min mins) (AtLeast mins) f.cofactors
        (λ row e. misses_min_lem mins row (rw e inside)) rect) in
    (record f { cofactors = rows }, rw run, refl, refl, iff)
