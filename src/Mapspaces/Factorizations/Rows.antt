-- ===== src/Mapspaces/Factorizations/Rows.antt =====
-- `GetFactor` and `Size` of IndexFactorizationSpace (src/mapspaces/subspaces.cpp).
use native.Mathlib.Nat.{mod-eq_of_lt}
use mathlib.Core.List.Memᴰ
use mathlib.Core.Option.{some-injective}
use timeloop.Prelude.{
  ℕ, zero, suc, ◌%◌, ◌<◌, ◌≤◌, ◌^◌, ltb, lt→ltb, true, ◌≡◌, ◌≢◌, refl, sym, ap, ◌∙◌, subst, inl,
  inr, List, [], ◌∷◌, Memᴰ, All, some, length, get_elem?, arith, product,
}
use timeloop.Prelude.Words.{u32_mod, u64_mod, u128_mod}
use timeloop.Numeric.Counter.{Counter}
use timeloop.Numeric.Counter.Digits.{
  InRange, InRange-Positive, Positive, encode, decode, decode-InRange, decode-encode,
  encode-lt-product,
}
use timeloop.Numeric.Counter.Laws.{IsValid, init-IsValid, init-eq}
use timeloop.Numeric.Counter.Setters.{set_integer_lem}
use timeloop.Numeric.Factors.{Factors}
use timeloop.Mapspaces.Factorizations.{
  Request, FactorSpace, build_all, init, sizes, get_factor, size_of, row_at, int_index,
}

-- A valid counter over the numbers of rows, which an `int` counts, with a dimension at least.
pub record Ready (s : FactorSpace) : Type 0 where
  pub counter : IsValid s.tiling_counter
  pub base : s.tiling_counter.base ≡ sizes s.dimension_factors
  pub some_dimension : s.tiling_counter.order ≢ 0
  pub small : All (λ f. length f.cofactors ≤ 2 ^ 31) s.dimension_factors

-- One row of each factor set.
abbrev pub Picks : List Factors → List (List ℕ) → Type 0
Picks [] [] = Unit
Picks [] (row ∷ rows) = ⊥
Picks (f ∷ fs) [] = ⊥
Picks (f ∷ fs) (row ∷ rows) = Memᴰ row f.cofactors × Picks fs rows

-- The rows at these positions.
abbrev At : List Factors → List ℕ → List (List ℕ) → Type 0
At [] [] [] = Unit
At (f ∷ fs) (d ∷ ds) (row ∷ rows) =
    (d < length f.cofactors) × (get_elem? f.cofactors d ≡ some row) × At fs ds rows
At fs ds rows = ⊥

get_row :
    (rows : List (List ℕ)) (d : ℕ)
    → d < length rows
    → (row : List ℕ) × (get_elem? rows d ≡ some row) × Memᴰ row rows
get_row [] d h = absurd (omega arith)
get_row (row ∷ rows) zero h = (row, refl, Memᴰ.head refl)
get_row (row ∷ rows) (suc d) h = let (r, e, m) = get_row rows d (omega arith) in (r, e, Memᴰ.tail m)

find_row :
    (rows : List (List ℕ)) (row : List ℕ)
    → Memᴰ row rows
    → (d : ℕ) × (d < length rows) × (get_elem? rows d ≡ some row)
find_row [] row m = absurd (Memᴰ.not-nil m)
find_row (r ∷ rows) row (Memᴰ.head e) = (0, omega arith, ap some (sym e))
find_row (r ∷ rows) row (Memᴰ.tail m) =
    let (d, h, e) = find_row rows row m in (suc d, omega arith, e)

InRange-At :
    (fs : List Factors) (ds : List ℕ)
    → InRange (sizes fs) ds
    → (rows : List (List ℕ)) × At fs ds rows × Picks fs rows
InRange-At [] [] h = ([], tt, tt)
InRange-At [] (d ∷ ds) h = absurd h
InRange-At (f ∷ fs) [] h = absurd h
InRange-At (f ∷ fs) (d ∷ ds) (low, h) =
    let (row, e, m) = get_row f.cofactors d low in
    let (rows, a, p) = InRange-At fs ds h in (row ∷ rows, (low, e, a), (m, p))

Picks-At :
    (fs : List Factors) (rows : List (List ℕ))
    → Picks fs rows
    → (ds : List ℕ) × InRange (sizes fs) ds × At fs ds rows
Picks-At [] [] h = ([], tt, tt)
Picks-At [] (row ∷ rows) h = absurd h
Picks-At (f ∷ fs) [] h = absurd h
Picks-At (f ∷ fs) (row ∷ rows) (m, h) =
    let (d, low, e) = find_row f.cofactors row m in
    let (ds, r, a) = Picks-At fs rows h in (d ∷ ds, (low, r), (low, e, a))

-- What the reads of `GetFactor` find.
abbrev Reads : List Factors → List ℕ → ℕ → List ℕ → Type 0
Reads fs ds dim row =
    (d : ℕ) × (f : Factors) × (get_elem? ds dim ≡ some d)
    × (get_elem? fs dim ≡ some f)
    × (row_at f (d % u64_mod) ≡ some row)

row_at-low : (f : Factors) (d : ℕ) → d < 2 ^ 31 → row_at f d ≡ get_elem? f.cofactors d
unfolding row_at int_index
row_at-low f d h =
    let same : d % u32_mod ≡ d = mod-eq_of_lt (omega arith) in
    let low : ltb d (2 ^ 31) ≡ true = lt→ltb d (2 ^ 31) h in rw (same, low) refl

At-Reads :
    (fs : List Factors) (ds : List ℕ) (rows : List (List ℕ))
    → At fs ds rows
    → All (λ f. length f.cofactors ≤ 2 ^ 31) fs
    → (dim : ℕ) (row : List ℕ) → get_elem? rows dim ≡ some row
    → Reads fs ds dim row
At-Reads [] [] [] a small dim row e = cc
At-Reads [] [] (r ∷ rows) a small dim row e = absurd a
At-Reads [] (d ∷ ds) rows a small dim row e = absurd a
At-Reads (f ∷ fs) [] rows a small dim row e = absurd a
At-Reads (f ∷ fs) (d ∷ ds) [] a small dim row e = absurd a
At-Reads (f ∷ fs) (d ∷ ds) (r ∷ rows) (low, here, a) (few, small) zero row e =
    let same : d % u64_mod ≡ d = mod-eq_of_lt (omega arith) in
    (d, f, refl, refl, rw same (row_at-low f d (omega arith) ∙ here ∙ e))
At-Reads (f ∷ fs) (d ∷ ds) (r ∷ rows) (low, here, a) (few, small) (suc dim) row e =
    At-Reads fs ds rows a small dim row e

-- `GetFactor` at an id and a position of a row that the digits of the id find.
abbrev Gives : FactorSpace → ℕ → List (List ℕ) → Type 0
Gives s id rows =
    (dim level : ℕ) (row : List ℕ) (factor : ℕ)
    → get_elem? rows dim ≡ some row
    → get_elem? row level ≡ some factor
    → (c : Counter) × (get_factor s id dim level ≡ some (factor, record s { tiling_counter = c }))

gives :
    (s : FactorSpace) (id : ℕ) (rows : List (List ℕ))
    → Ready s
    → id < size_of s
    → At s.dimension_factors (decode (sizes s.dimension_factors) id) rows
    → Gives s id rows
unfolding get_factor size_of
gives s id rows ready below at dim level row factor e e' =
    let (d, f, x, y, z) = At-Reads s.dimension_factors _ rows at ready.small dim row e in
    elim (set_integer_lem s.tiling_counter id ready.counter ready.some_dimension) [
      | inl (_, (c, run, valid, number, value)) ↦
          let read : get_elem? c.value dim ≡ some d =
            subst (λ ds. get_elem? ds dim ≡ some d)
              (sym (value ∙ ap (λ bs. decode bs id) ready.base)) x in
          (c, rw (run, read, y, z, e'))
      | inr (above, _) ↦ absurd (omega arith)
    ]

-- A space with a dimension at least, a valid counter over the numbers of rows of its factor sets, and
-- at most 2 ^ 31 rows in each: at every id below `Size` there is one row for each dimension, from
-- its factor set, whose factors `GetFactor` returns at each dimension and level; and every choice of
-- one row for each dimension has such an id.
pub get_factor_lem :
    (s : FactorSpace)
    → Ready s
    → ((id : ℕ)
        → id < size_of s
        → (rows : List (List ℕ)) × Picks s.dimension_factors rows
          × ((dim level : ℕ) (row : List ℕ) (factor : ℕ)
              → get_elem? rows dim ≡ some row
              → get_elem? row level ≡ some factor
              → (c : Counter) × (get_factor s id dim level
                  ≡ some (factor, record s { tiling_counter = c }))))
      × ((rows : List (List ℕ))
          → Picks s.dimension_factors rows
          → (id : ℕ) × (id < size_of s)
            × ((dim level : ℕ) (row : List ℕ) (factor : ℕ)
                → get_elem? rows dim ≡ some row
                → get_elem? row level ≡ some factor
                → (c : Counter) × (get_factor s id dim level
                    ≡ some (factor, record s { tiling_counter = c }))))
unfolding size_of
get_factor_lem s ready =
    let v = ready.counter in
    let bases : List ℕ = sizes s.dimension_factors in
    let positive : Positive bases =
      subst Positive ready.base
        (InRange-Positive s.tiling_counter.base s.tiling_counter.value v.range) in
    (
      λ id below.
          let (rows, at, picks) =
            InRange-At s.dimension_factors (decode bases id) (decode-InRange bases id positive) in
          (rows, picks, gives s id rows ready below at),
      λ rows picks.
          let (ds, range, at) = Picks-At s.dimension_factors rows picks in
          let end : s.tiling_counter.endint ≡ product bases = v.end ∙ ap product ready.base in
          let below : encode bases ds < s.tiling_counter.endint =
            omega (arith, encode-lt-product bases ds range) in
          (
            encode bases ds,
            below,
            gives s (encode bases ds) rows ready below (
                subst (λ xs. At s.dimension_factors xs rows) (sym (decode-encode bases ds range))
                  at),
          ),
    )

-- Where `Init` has built factor sets with rows, at most 2 ^ 31 each and with a product below
-- 2 ^ 128, for one dimension or more, it succeeds with such a space over them.
init-Ready :
    (qs : List Request) (f : Factors) (fs : List Factors)
    → build_all qs ≡ some (f ∷ fs)
    → Positive (sizes (f ∷ fs))
    → product (sizes (f ∷ fs)) < u128_mod
    → All (λ g. length g.cofactors ≤ 2 ^ 31) (f ∷ fs)
    → (s : FactorSpace) × (init qs ≡ some s) × Ready s × (s.dimension_factors ≡ f ∷ fs)
unfolding init
init-Ready qs f fs built positive fits small =
    let (c, run, valid, end, zero_id) = init-IsValid (sizes (f ∷ fs)) positive fits in
    let same = some-injective _ _ (sym run ∙ init-eq (sizes (f ∷ fs)) positive fits) in
    let base : c.base ≡ sizes (f ∷ fs) = ap (λ (x : Counter). x.base) same in
    let order : c.order ≡ length (sizes (f ∷ fs)) = ap (λ (x : Counter). x.order) same in
    (
      record { dimension_factors = f ∷ fs; tiling_counter = c },
      rw (built, run),
      record { counter = valid; base = base; some_dimension = λ e. omega arith; small = small },
      refl,
    )
