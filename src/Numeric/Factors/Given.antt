-- ===== src/Numeric/Factors/Given.antt =====
-- `Factors(n, order, given)` (src/util/numeric.cpp): where the given factors go.
use timeloop.Prelude.{
  ℕ, zero, suc, ◌+◌, ◌-◌, ◌*◌, ◌/◌, ◌%◌, ◌≤◌, ◌<◌, ◌≡◌, refl, true, false, inl, inr, List, [], ◌∷◌,
  ◌==◌, arith, Bool-cases, ap, sym, ◌∙◌, subst, All, ==_iff, ==_ne, leb, le→leb, get_elem?, length,
  ltb, lt→ltb, ◌^◌, product, some, map, All-weaken,
}
use native.Mathlib.Nat.{
  div-add-mod, mul_comm, mul_assoc, mod-lt, mul-le-mul_right, le-mul_of_pos_right, add-mul, one-mul,
}
use timeloop.Numeric.Factors.{
  Factors, Given, divide_out, remaining_after, insert_at, insert_given, insert_given_all,
  init_given, multiplicative_split, all_factors,
}
use timeloop.Numeric.Factors.Divisors.{all_factors-Divides}
use timeloop.Numeric.Factors.Split.{IsSplit, Returns, multiplicative_split-IsSplit}

-- The given factors are positive.
abbrev pub Positive : Given → Type 0
Positive = All (λ e. 0 < e.1)

-- Each given factor divides what the factors before it leave of the bound.
abbrev pub Perfect : ℕ → Given → Type 0
Perfect n [] = Unit
Perfect n ((i, factor) ∷ given) = (n % factor ≡ 0) × Perfect (n / factor) given

-- The indices increase from `lo` on, and each is a position of the row that it is inserted in.
abbrev pub Fits : ℕ → ℕ → Given → Type 0
Fits lo len [] = Unit
Fits lo len ((i, factor) ∷ given) = (lo ≤ i) × (i ≤ len) × Fits (i + 1) (len + 1) given

abbrev pub values : Given → List ℕ
values = map (λ e. e.1)

-- Every given factor stands at its index.
abbrev pub Placed : Given → List ℕ → Type 0
Placed given row = All (λ e. get_elem? row e.0 ≡ some e.1) given

divide_out_lem :
    (r f : ℕ)
    → 0 < f
    → 0 < r
    → r < 2 ^ 53
    → (q : ℕ) × (divide_out r f ≡ some q)
      × (0 < q)
      × (q ≤ r)
      × (r ≤ q * f)
      × (r % f ≡ 0 → (q ≡ r / f) × (q * f ≡ r))
unfolding divide_out
divide_out_lem r f h pos few =
    let ne : (f == 0) ≡ false = ground arith in
    elim (Bool-cases (r % f == 0)) [
      | inl e ↦
          let z = (==_iff (r % f) 0).0 e in
          let eq : r / f * f ≡ r = omega (arith, div-add-mod r f) in
          (
            r / f,
            rw (ne, e),
            grind arith,
            no_more (r / f) (omega arith) (grind arith),
            omega arith,
            λ _. (refl, eq),
          )
      | inr e ↦
          let up : r ≤ (r + f - 1) / f * f =
            omega (arith, div-add-mod (r + f - 1) f, mod-lt (r + f - 1) h) in
          let down : (r + f - 1) / f * f ≤ r + f - 1 = omega (arith, div-add-mod (r + f - 1) f) in
          let small : ltb r (2 ^ 53) ≡ true = lt→ltb r (2 ^ 53) few in
          let some_q : 0 < (r + f - 1) / f = grind arith in
          (
            (r + f - 1) / f,
            rw (ne, e, small),
            some_q,
            no_more ((r + f - 1) / f) down some_q,
            up,
            λ z. absurd (==_ne _ _ e z),
          )
    ]
  where
    no_more : (q : ℕ) → q * f ≤ r + f - 1 → 0 < q → q ≤ r
    no_more q low some_q =
        let back : q - 1 + 1 ≡ q = omega arith in
        omega (
          arith,
          le-mul_of_pos_right (q - 1) h,
          add-mul (q - 1) 1 f,
          one-mul f,
          ap (λ t. t * f) back,
        )

remaining_after_lem :
    (n : ℕ) (given : Given)
    → Positive given
    → 0 < n
    → n < 2 ^ 53
    → (m : ℕ) × (remaining_after n given ≡ some m)
      × (0 < m)
      × (n ≤ m * product (values given))
      × (Perfect n given → m * product (values given) ≡ n)
unfolding remaining_after
remaining_after_lem n [] p pos few = (n, refl, pos, omega arith, λ _. omega arith)
remaining_after_lem n ((i, f) ∷ given) p pos few =
    let (q, run, qpos, low, up, exact) = divide_out_lem n f p.0 pos few in
    let (m, run', mpos, up', exact') = remaining_after_lem q given p.1 qpos (omega arith) in
    let P = product (values given) in
    let regroup : m * (f * P) ≡ m * P * f = omega arith in
    let step : q * f ≤ m * P * f = mul-le-mul_right f up' in
    (
      m,
      rw run run',
      mpos,
      omega arith,
      λ perfect.
          let (qe, eq) = exact perfect.0 in
          omega (
            arith,
            ap (λ (t : ℕ). t * f) (exact' (subst (λ t. Perfect t given) (sym qe) perfect.1)),
          ),
    )

insert_at_lem :
    (i v : ℕ) (xs : List ℕ)
    → i ≤ length xs
    → (ys : List ℕ) × (insert_at i v xs ≡ some ys)
      × (length ys ≡ length xs + 1)
      × (product ys ≡ product xs * v)
      × (get_elem? ys i ≡ some v)
      × ((j : ℕ) → j < i → get_elem? ys j ≡ get_elem? xs j)
unfolding insert_at
insert_at_lem zero v xs h =
    (v ∷ xs, refl, omega arith, mul_comm v (product xs), refl, λ j k. absurd (omega arith))
insert_at_lem (suc i) v [] h = absurd (omega arith)
insert_at_lem (suc i) v (x ∷ xs) h =
    let (ys, run, len, prod, at, before) = insert_at_lem i v xs (omega arith) in
    (
      x ∷ ys,
      rw run,
      omega arith,
      ap (λ (t : ℕ). x * t) prod ∙ sym (mul_assoc x (product xs) v),
      at,
      elim [ zero ↦ λ _. refl | suc j ↦ λ k. before j (omega arith) ],
    )

insert_given_lem :
    (lo : ℕ) (given : Given) (row : List ℕ)
    → Fits lo (length row) given
    → (row' : List ℕ) × (insert_given given row ≡ some row')
      × (length row' ≡ length row + length given)
      × (product row' ≡ product row * product (values given))
      × Placed given row'
      × ((j : ℕ) → j < lo → get_elem? row' j ≡ get_elem? row j)
unfolding insert_given
insert_given_lem lo [] row h = (row, refl, omega arith, omega arith, tt, λ j _. refl)
insert_given_lem lo ((i, v) ∷ given) row h =
    let (mid, run, len, prod, at, before) = insert_at_lem i v row h.1 in
    let (row', run', len', prod', placed, before') =
      insert_given_lem (i + 1) given mid (rw len h.2) in
    (
      row',
      rw run run',
      omega arith,
      prod' ∙ rw prod (mul_assoc (product row) v (product (values given))),
      (before' i (omega arith) ∙ at, placed),
      λ j k. before' j (omega arith) ∙ before j (omega arith),
    )

insert_given_all_lem :
    (len p : ℕ) (given : Given) (rows : List (List ℕ))
    → Fits 0 len given
    → All (IsSplit len p) rows
    → Returns
        (insert_given_all given rows)
        (λ row. IsSplit (len + length given) (p * product (values given)) row × Placed given row)
unfolding insert_given_all
insert_given_all_lem len p given [] h all = ([], refl, tt)
insert_given_all_lem len p given (row ∷ rows) h ((l, pr), all) =
    let (row', run, len', prod, placed, _) = insert_given_lem 0 given row (rw l h) in
    let (rows', run', all') = insert_given_all_lem len p given rows h all in
    (row' ∷ rows', rw (run, run'), (((rw len' (rw l), rw prod (rw pr)), placed), all'))

given_rows_lem :
    (free m : ℕ) (given : Given)
    → 0 < free
    → 0 < m
    → Fits 0 free given
    → (rows rows' : List (List ℕ)) × (multiplicative_split (all_factors m) free m ≡ some rows)
      × (insert_given_all given rows ≡ some rows')
      × All
          (λ row. IsSplit (free + length given) (m * product (values given)) row × Placed given row)
          rows'
given_rows_lem zero m given h pos fits = absurd (omega arith)
given_rows_lem (suc k) m given h pos fits =
    let positive = All-weaken _ _ _ (λ d h. h.0) (all_factors-Divides m pos) in
    let (rows, run, all) = multiplicative_split-IsSplit (all_factors m) k m positive in
    let (rows', run', all') = insert_given_all_lem (suc k) m given rows fits all in
    (rows, rows', run, run', all')

-- For a bound below 2 ^ 53 and positive given factors that leave a free position and stand in the range of the
-- rows they are inserted in, the constructor succeeds. Every row has
-- `order` factors, the given ones at their positions, and a product that covers the bound; where
-- the given factors divide the bound one after the other, the product is the bound.
pub init_given_lem :
    (n order : ℕ) (given : Given)
    → 0 < n
    → n < 2 ^ 53
    → length given < order
    → Positive given
    → Fits 0 (order - length given) given
    → (f : Factors) × (init_given n order given ≡ some f)
      × All
          (λ row.
            (length row ≡ order)
            × Placed given row
            × (n ≤ product row)
            × (Perfect n given → product row ≡ n))
          f.cofactors
unfolding init_given
init_given_lem n order given pos few free p fits =
    let (m, run, mpos, up, exact) = remaining_after_lem n given p pos few in
    let ok : leb (length given) order ≡ true = le→leb _ _ (omega arith) in
    let (rows, rows', run', run'', all) =
      given_rows_lem (order - length given) m given (omega arith) mpos fits in
    (
      record { n = n; all = all_factors m; cofactors = rows' },
      rw (ok, run, run', run''),
      All-weaken _ _ rows'
          (λ row ((len, prod), placed).
            (omega arith, placed, rw prod up, λ perfect. prod ∙ exact perfect))
          all,
    )
