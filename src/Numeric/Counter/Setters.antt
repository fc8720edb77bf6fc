-- ===== src/Numeric/Counter/Setters.antt =====
-- CartesianCounterDynamic: the setters, `Read` and `Integer`, and a run of increments.
use timeloop.Prelude.{
  ℕ, zero, suc, ◌+◌, ◌*◌, ◌≤◌, ◌<◌, ◌≡◌, refl, true, false, Option, none, some, ◌⊎◌, inl, inr, List,
  [], ◌∷◌, ltb, ◌==◌, if◌then◌else◌, ◌>>=◌, length, product, arith, Bool-cases, lt→ltb, set,
  get_elem?, get_elem?-lt-length, ap₂, sym, ◌∙◌, ◌≢◌, ltb→lt, ltb→le,
}
use native.Mathlib.Nat.{add-zero}
use timeloop.Prelude.Words.{u128_mod}
use timeloop.Numeric.Counter.{Counter, increment, set_integer, set_digit, set_value, settle}
use timeloop.Numeric.Counter.Digits.{
  encode, decode, InRange, encode-lt-product, encode-decode, decode-encode, decode-InRange,
  update_value-eq, update_integer-eq, InRange-Positive, InRange-length,
}
use timeloop.Numeric.Counter.Laws.{IsValid, increment-IsValid}

-- `Set(n)` on a valid counter with positions accepts exactly the numbers below `EndInteger()`: it
-- leaves a valid counter that reads `n`, and its digits are those of `n`; else its assertion fails.
pub set_integer_lem :
    (c : Counter) (n : ℕ)
    → IsValid c
    → c.order ≢ 0
    → ((n < c.endint)
        × ((c' : Counter) × (set_integer c n ≡ some c')
            × IsValid c'
            × (c'.integer ≡ n)
            × (c'.value ≡ decode c.base n)))
      ⊎ ((c.endint ≤ n) × (set_integer c n ≡ none))
unfolding set_integer
set_integer_lem c n v ne = elim (Bool-cases (ltb n c.endint)) [
  | inl e ↦
      let lt = ltb→lt n c.endint e in
      let p = InRange-Positive c.base c.value v.range in
      inl (
        lt,
        (
          record c { integer = n; value = decode c.base n },
          rw (e, nonzero, update_value-eq c.base n p),
          record {
            sized = v.sized;
            range = decode-InRange c.base n p;
            agree = sym (encode-decode c.base n p (omega arith));
            end = v.end;
            fits = v.fits;
          },
          refl,
          refl,
        ),
      )
  | inr e ↦ inr (ltb→le n c.endint e, rw (nonzero, e))
]
  where
    nonzero : (c.order == 0) ≡ false
    nonzero = ground arith

settle_lem :
    (c : Counter)
    → InRange c.base c.value
    → c.order ≡ length c.base
    → c.endint ≡ product c.base
    → product c.base < u128_mod
    → (c' : Counter) × (settle c ≡ some c')
      × IsValid c'
      × (c'.value ≡ c.value)
      × (c'.integer ≡ encode c.base c.value)
unfolding settle
settle_lem c range sized end fits =
    let below = encode-lt-product c.base c.value range in
    let accepted : ltb (encode c.base c.value) c.endint ≡ true = lt→ltb _ _ (omega arith) in
    let run = update_integer-eq c.base c.value 0 1 range (omega arith) (omega arith) in
    let eq : 0 + 1 * encode c.base c.value ≡ encode c.base c.value = omega arith in
    (
      record c { integer = encode c.base c.value },
      rw (run, eq, accepted),
      record { sized = sized; range = range; agree = refl; end = end; fits = fits },
      refl,
      refl,
    )

-- `Set(vector)` with a digit below each base leaves a valid counter that reads those digits, and
-- `Set(Integer())` on it brings the same digits back.
pub set_value_lem :
    (c : Counter) (vs : List ℕ)
    → IsValid c
    → InRange c.base vs
    → (c' : Counter) × (set_value c vs ≡ some c')
      × IsValid c'
      × (c'.value ≡ vs)
      × (decode c.base c'.integer ≡ vs)
unfolding set_value
set_value_lem c vs v h =
    let sized : length vs ≡ length c.base = InRange-length c.base vs h in
    let (c', run, valid, value, number) =
      settle_lem (record c { order = length vs; value = vs }) h sized v.end v.fits in
    (c', run, valid, value, rw number (decode-encode c.base vs h))

set-InRange :
    (bs vs : List ℕ) (i v b : ℕ)
    → InRange bs vs
    → get_elem? bs i ≡ some b
    → v < b
    → InRange bs (set vs i v)
set-InRange [] [] i v b h e k = tt
set-InRange [] (w ∷ vs) i v b h e k = absurd h
set-InRange (c ∷ bs) [] i v b h e k = absurd h
set-InRange (c ∷ bs) (w ∷ vs) zero v b h e k = (ground arith, h.1)
set-InRange (c ∷ bs) (w ∷ vs) (suc i) v b h e k = (h.0, set-InRange bs vs i v b h.1 e k)

-- `Set(dim, v)` with `v` below the base of that position changes that digit alone and leaves a
-- valid counter.
pub set_digit_lem :
    (c : Counter) (dim v b : ℕ)
    → IsValid c
    → get_elem? c.base dim ≡ some b
    → v < b
    → (c' : Counter) × (set_digit c dim v ≡ some c') × IsValid c' × (c'.value ≡ set c.value dim v)
unfolding set_digit
set_digit_lem c dim v b val e h =
    let inside : ltb dim c.order ≡ true =
      lt→ltb _ _ (omega (arith, get_elem?-lt-length c.base dim e)) in
    let (c', run, valid, value, _) =
      settle_lem (record c { value = set c.value dim v })
        (set-InRange c.base c.value dim v b val.range e h) val.sized val.end val.fits in
    (c', rw inside run, valid, value)

-- `k` calls of `Increment`, all of which must return true.
abbrev pub increments : ℕ → Counter → Option Counter
increments zero c = some c
increments (suc k) c = increment c >>= λ (c', done). if done then increments k c' else none

IsValid-value : {c : Counter} → IsValid c → c.value ≡ decode c.base c.integer
IsValid-value {c} v = rw v.agree (sym (decode-encode c.base c.value v.range))

no_digits-product : (bs : List ℕ) → length bs ≡ 0 → product bs ≡ 1
no_digits-product [] h = refl
no_digits-product (b ∷ bs) h = absurd (omega arith)

-- A counter with a number after this one has a position.
some_position : (k : ℕ) (c : Counter) → IsValid c → c.integer + suc k < c.endint → c.order ≢ 0
some_position k c v h none_there =
    let one : product c.base ≡ 1 = no_digits-product c.base (sym v.sized ∙ none_there) in
    let end : c.endint ≡ product c.base = v.end in absurd (omega arith)

-- From a valid counter, `k` increments that stay below `EndInteger()` all return true, and the
-- digits are then those of the number `k` higher: every number is visited, in order.
pub increments_lem :
    (k : ℕ) (c : Counter)
    → IsValid c
    → c.integer + k < c.endint
    → (c' : Counter) × (increments k c ≡ some c')
      × IsValid c'
      × (c'.integer ≡ c.integer + k)
      × (c'.value ≡ decode c.base (c.integer + k))
increments_lem zero c v h = (c, refl, v, omega arith, rw add-zero (IsValid-value v))
increments_lem (suc k) c v h =
    let (c', done, run, next, base, top, end) = increment-IsValid c v (some_position k c v h) in
    elim end [
      | inl (d, below, valid) ↦
          let (c'', rest, valid', number, value) = increments_lem k c' valid (omega arith) in
          let sum : c'.integer + k ≡ c.integer + suc k = omega arith in
          (c'', rw (run, d) rest, valid', number ∙ sum, value ∙ ap₂ decode base sum)
      | inr (d, last, _) ↦ absurd (omega arith)
    ]
