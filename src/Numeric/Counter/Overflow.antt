-- ===== src/Numeric/Counter/Overflow.antt =====
-- `Increment` at the last number: the comment in the code says that it saturates.
use timeloop.Prelude.{
  ℕ, ◌+◌, ◌*◌, ◌<◌, ◌≡◌, Bool, false, Option, some, none, ap, length, refl, inl, inr, List, [], ◌∷◌,
  ltb, product, arith, sym, ◌∙◌, subst, ◌≢◌,
}
use mathlib.Core.Option.{some-injective}
use native.Mathlib.Decide.{dec_lt}
use timeloop.Prelude.Words.{u128_mod, checked_add-some}
use timeloop.Numeric.Counter.{
  Counter, increment, increment_recursive, increment_position, carry_digit,
}
use timeloop.Numeric.Counter.Digits.{
  encode, InRange, encode-lt-product, digit_bound, product_pos, InRange-Positive,
}
use timeloop.Numeric.Counter.Laws.{IsValid, increment_recursive_lem, increment_digit, head_fits}

head_eq : {x y : ℕ} {xs ys : List ℕ} → x ∷ xs ≡ y ∷ ys → x ≡ y
head_eq h = cc

-- The lowest digit is at its greatest when the number is.
top_digit : (b v e p : ℕ) → v < b → e < p → v + b * e + 1 ≡ b * p → v + 1 ≡ b
top_digit b v e p h k eq = elim (dec_lt (v + 1) b) [
  | yes more ↦ absurd (omega (arith, digit_bound (v + 1) b e p more k))
  | no full ↦ omega arith
]

carried_head :
    (b v w : ℕ) (vs vs' : List ℕ) (done : Bool) (rest : Option (List ℕ × Bool))
    → v + 1 ≡ b
    → b < u128_mod
    → increment_position b v (w ∷ vs) rest ≡ some (vs', done)
    → (us : List ℕ) × (vs' ≡ 0 ∷ us)
unfolding increment_position carry_digit
carried_head b v w vs vs' done none h k run = absurd (none-some (sym here ∙ run))
  where
    full : ltb (v + 1) b ≡ false
    full = ground arith

    here : increment_position b v (w ∷ vs) none ≡ none
    here = rw (increment_digit b v (omega arith) k, full) refl

    none-some : {p : List ℕ × Bool} → none ≡ some p → ⊥
    none-some e = cc
carried_head b v w vs vs' done (some (us, d)) h k run =
    (us, sym (ap (λ (t : List ℕ × Bool). t.0) (some-injective _ _ (sym here ∙ run))))
  where
    full : ltb (v + 1) b ≡ false
    full = ground arith

    here : increment_position b v (w ∷ vs) (some (us, d)) ≡ some (0 ∷ us, d)
    here = rw (increment_digit b v (omega arith) k, full) refl

overflow_digits :
    (b b' : ℕ) (bs vs vs' : List ℕ) (done : Bool)
    → InRange (b ∷ b' ∷ bs) vs
    → product (b ∷ b' ∷ bs) < u128_mod
    → 1 < b
    → encode (b ∷ b' ∷ bs) vs + 1 ≡ product (b ∷ b' ∷ bs)
    → increment_recursive (b ∷ b' ∷ bs) vs ≡ some (vs', done)
    → vs' ≢ vs
unfolding increment_recursive
overflow_digits b b' bs [] vs' done h k one last run = absurd h
overflow_digits b b' bs (v ∷ []) vs' done h k one last run = absurd h.1
overflow_digits b b' bs (v ∷ w ∷ vs) vs' done h k one last run = λ same.
    let pos = product_pos (b' ∷ bs) (InRange-Positive (b' ∷ bs) (w ∷ vs) h.1) in
    let below = encode-lt-product (b' ∷ bs) (w ∷ vs) h.1 in
    let top = top_digit b v (encode (b' ∷ bs) (w ∷ vs)) (product (b' ∷ bs)) h.0 below last in
    let (us, zero_head) =
      carried_head b v w vs vs' done (increment_recursive (b' ∷ bs) (w ∷ vs)) top
        (head_fits b (product (b' ∷ bs)) pos k) run in
    absurd (omega (arith, head_eq (sym zero_head ∙ same)))

end_of :
    (bs vs : List ℕ)
    → InRange bs vs
    → product bs < u128_mod
    → 0 < length bs
    → encode bs vs + 1 ≡ product bs
    → (vs' : List ℕ) × (increment_recursive bs vs ≡ some (vs', false))
      × (encode bs vs' < product bs)
end_of bs vs h k some_digit last =
    let (vs', done, run, range, end) = increment_recursive_lem bs vs h k some_digit in
    let below = encode-lt-product bs vs' range in
    let stopped : done ≡ false = elim end [ inl (d, n) ↦ absurd (omega arith) | inr (d, n) ↦ d ] in
    (vs', run ∙ ap (λ d. some (vs', d)) stopped, below)

-- On a valid counter with two positions or more whose lowest base is above 1, `Increment` at the
-- last number returns false and moves the counter: the digits differ from those before the call,
-- and no longer stand for the integer, which is `EndInteger()`. So it does not saturate.
pub increment_overflow :
    (c : Counter) (b b' : ℕ) (bs : List ℕ)
    → IsValid c
    → c.base ≡ b ∷ b' ∷ bs
    → 1 < b
    → c.integer + 1 ≡ c.endint
    → (c' : Counter) × (increment c ≡ some (c', false))
      × (c'.integer ≡ c.endint)
      × (c'.value ≢ c.value)
      × (encode c'.base c'.value ≢ c'.integer)
unfolding increment
increment_overflow c b b' bs v e h last =
    let top : encode c.base c.value + 1 ≡ product c.base = omega (arith, v.agree, v.end) in
    let fits : c.integer + 1 < u128_mod = omega (arith, last, v.end, v.fits) in
    let (value, run, below) =
      end_of c.base c.value v.range v.fits (subst (λ t. 0 < length t) (sym e) (omega arith)) top in
    let moved : value ≢ c.value =
      subst
        (λ t.
          InRange t c.value
          → product t < u128_mod
          → encode t c.value + 1 ≡ product t
          → increment_recursive t c.value ≡ some (value, false)
          → value ≢ c.value)
        (sym e) (λ r k l here. overflow_digits b b' bs c.value value false r k h l here) v.range
        v.fits top run in
    (
      record c { integer = c.integer + 1; value = value },
      rw (checked_add-some c.integer 1 fits, run) refl,
      last,
      moved,
      λ same. absurd (omega arith),
    )
