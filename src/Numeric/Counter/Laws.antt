-- ===== src/Numeric/Counter/Laws.antt =====
-- CartesianCounterDynamic (include/util/numeric.hpp): its invariant, the constructor and `Increment`.
use timeloop.Prelude.{
  ℕ, ◌+◌, ◌*◌, ◌≤◌, ◌<◌, ◌≡◌, ◌≢◌, refl, Bool, true, false, Option, some, none, ◌⊎◌, inl, inr, List,
  [], ◌∷◌, ltb, length, replicate, product, arith, Bool-cases, ap, sym, ltb→lt, ltb→le,
}
use native.Mathlib.Nat.{mul_comm, mul_assoc, one-mul, le-mul_of_pos_right, mul-zero}
use timeloop.Prelude.Words.{u128_mod, checked_add-some, checked_mul-some, pred128, pred128_pos}
use timeloop.Numeric.Counter.{
  Counter, init, increment_position, increment_recursive, carry_digit, increment, end_loop,
}
use timeloop.Numeric.Counter.Digits.{
  encode, InRange, Positive, encode-lt-product, product_pos, InRange-Positive,
}

-- What holds of a counter between calls.
pub record IsValid (c : Counter) : Type 0 where
  pub sized : c.order ≡ length c.base
  pub range : InRange c.base c.value
  pub agree : c.integer ≡ encode c.base c.value
  pub end : c.endint ≡ product c.base
  pub fits : product c.base < u128_mod

-- How a call of `IncrementRecursive_` at the digits `vs` ends.
abbrev Incremented : List ℕ → List ℕ → Option (List ℕ × Bool) → Type 0
Incremented bs vs result =
    (vs' : List ℕ) × (done : Bool) × (result ≡ some (vs', done))
    × InRange bs vs'
    × (((done ≡ true) × (encode bs vs' ≡ encode bs vs + 1))
        ⊎ ((done ≡ false) × (encode bs vs + 1 ≡ product bs)))

pub increment_digit : (b v : ℕ) → v < b → b < u128_mod → ltb v (pred128 b) ≡ ltb (v + 1) b
increment_digit b v h k = rw (pred128_pos b (omega arith) k) (ground arith)

carry : (b e p v : ℕ) → e + 1 ≡ p → v + 1 ≡ b → v + b * e + 1 ≡ b * p
carry b e p v h k = omega (arith, ap (λ (t : ℕ). b * t) h)

carried : (b e e' v : ℕ) → e' ≡ e + 1 → v + 1 ≡ b → 0 + b * e' ≡ v + b * e + 1
carried b e e' v h k = omega (arith, ap (λ (t : ℕ). b * t) h)

pub head_fits : (b p : ℕ) → 0 < p → b * p < u128_mod → b < u128_mod
head_fits b p h k = let le : b ≤ b * p = le-mul_of_pos_right b h in omega arith

tail_fits : (b p : ℕ) → 0 < b → b * p < u128_mod → p < u128_mod
tail_fits b p h k = let le : p ≤ p * b = le-mul_of_pos_right p h in omega (arith, mul_comm b p)

increment_last :
    (b v : ℕ)
    → v < b
    → b < u128_mod
    → Incremented (b ∷ []) (v ∷ []) (increment_position b v [] none)
unfolding increment_position
increment_last b v h k = elim (Bool-cases (ltb (v + 1) b)) [
  | inl e ↦
      rw (increment_digit b v h k, e)
        ((v + 1) ∷ [], true, refl, (ltb→lt _ _ e, tt), inl (refl, omega arith))
  | inr e ↦
      rw (increment_digit b v h k, e)
        (v ∷ [], false, refl, (h, tt), inr (refl, omega (arith, ltb→le _ _ e)))
]

increment_inner :
    (b v : ℕ) (bs : List ℕ) (w : ℕ) (vs : List ℕ) (rest : Option (List ℕ × Bool))
    → v < b
    → b < u128_mod
    → InRange bs (w ∷ vs)
    → Incremented bs (w ∷ vs) rest
    → Incremented (b ∷ bs) (v ∷ w ∷ vs) (increment_position b v (w ∷ vs) rest)
unfolding increment_position carry_digit
increment_inner b v bs w vs rest h k hs (vs', done, run, range, end) =
    elim (Bool-cases (ltb (v + 1) b)) [
      | inl e ↦
          rw (increment_digit b v h k, e)
            ((v + 1) ∷ w ∷ vs, true, refl, (ltb→lt _ _ e, hs), inl (refl, omega arith))
      | inr e ↦
          let top : v + 1 ≡ b = omega (arith, ltb→le _ _ e) in
          rw (increment_digit b v h k, e, run)
            (
              0 ∷ vs',
              done,
              refl,
              (omega arith, range),
              elim end [
                | inl (d, n) ↦ inl (d, carried b (encode bs (w ∷ vs)) (encode bs vs') v n top)
                | inr (d, n) ↦ inr (d, carry b (encode bs (w ∷ vs)) (product bs) v n top)
              ],
            )
    ]

pub increment_recursive_lem :
    (bs vs : List ℕ)
    → InRange bs vs
    → product bs < u128_mod
    → 0 < length bs
    → Incremented bs vs (increment_recursive bs vs)
unfolding increment_recursive
increment_recursive_lem [] vs h k some_digit = absurd (omega arith)
increment_recursive_lem (b ∷ bs) [] h k some_digit = absurd h
increment_recursive_lem (b ∷ []) (v ∷ []) h k some_digit = increment_last b v h.0 (omega arith)
increment_recursive_lem (b ∷ []) (v ∷ w ∷ vs) h k some_digit = absurd h.1
increment_recursive_lem (b ∷ c ∷ bs) (v ∷ []) h k some_digit = absurd h.1
increment_recursive_lem (b ∷ c ∷ bs) (v ∷ w ∷ vs) h k some_digit =
    let pos = product_pos (c ∷ bs) (InRange-Positive (c ∷ bs) (w ∷ vs) h.1) in
    increment_inner b v (c ∷ bs) w vs (increment_recursive (c ∷ bs) (w ∷ vs)) h.0
      (head_fits b (product (c ∷ bs)) pos k) h.1
      (increment_recursive_lem (c ∷ bs) (w ∷ vs) h.1
        (tail_fits b (product (c ∷ bs)) (omega arith) k) (omega arith))

end_loop-eq :
    (bs : List ℕ) (e : ℕ)
    → Positive bs
    → e * product bs < u128_mod
    → end_loop bs e ≡ some (e * product bs)
unfolding end_loop
end_loop-eq [] e p h = ap some (omega arith)
end_loop-eq (b ∷ bs) e p h =
    let pos = product_pos bs p.1 in
    let eq : e * b * product bs ≡ e * (b * product bs) = mul_assoc e b (product bs) in
    let le : e * b ≤ e * b * product bs = le-mul_of_pos_right (e * b) pos in
    rw (checked_mul-some e b (omega arith), end_loop-eq bs (e * b) p.1 (omega arith)) (ap some eq)

pub init-eq :
    (bs : List ℕ)
    → Positive bs
    → product bs < u128_mod
    → init bs
      ≡ some (record {
        order = length bs;
        base = bs;
        value = replicate (length bs) 0;
        integer = 0;
        endint = product bs;
      })
unfolding init
init-eq bs p h = rw (end_loop-eq bs 1 p (omega arith), one-mul (product bs))

zeros-InRange :
    (bs : List ℕ)
    → Positive bs
    → InRange bs (replicate (length bs) 0) × (encode bs (replicate (length bs) 0) ≡ 0)
zeros-InRange [] p = (tt, refl)
zeros-InRange (b ∷ bs) p =
    let (range, zeros) = zeros-InRange bs p.1 in ((p.0, range), rw (zeros, mul-zero) (omega arith))

-- The constructor succeeds on positive bases whose product fits in 128 bits, and the counter that
-- it makes is valid, reads all zeros and ends at the product of the bases.
pub init-IsValid :
    (bs : List ℕ)
    → Positive bs
    → product bs < u128_mod
    → (c : Counter) × (init bs ≡ some c) × IsValid c × (c.endint ≡ product bs) × (c.integer ≡ 0)
unfolding init
init-IsValid bs p h =
    let (range, zeros) = zeros-InRange bs p in
    (
      record {
        order = length bs;
        base = bs;
        value = replicate (length bs) 0;
        integer = 0;
        endint = product bs;
      },
      rw (end_loop-eq bs 1 p (omega arith)) (
          ap some (λ i. record {
            order = length bs;
            base = bs;
            value = replicate (length bs) 0;
            integer = 0;
            endint = one-mul (product bs) i;
          })),
      record { sized = refl; range = range; agree = sym zeros; end = refl; fits = h },
      refl,
      refl,
    )

-- On a valid counter with a position `Increment` succeeds. Before the last number it returns true and the counter is
-- valid at the next number; at the last it returns false, and the digits stay in range.
pub increment-IsValid :
    (c : Counter)
    → IsValid c
    → c.order ≢ 0
    → (c' : Counter) × (done : Bool) × (increment c ≡ some (c', done))
      × (c'.integer ≡ c.integer + 1)
      × (c'.base ≡ c.base)
      × (c'.endint ≡ c.endint)
      × (((done ≡ true) × (c.integer + 1 < c.endint) × IsValid c')
          ⊎ ((done ≡ false) × (c.integer + 1 ≡ c.endint) × InRange c'.base c'.value))
unfolding increment
increment-IsValid c v some_digit =
    let below = encode-lt-product c.base c.value v.range in
    let fits : c.integer + 1 < u128_mod = omega arith in
    let sized : c.order ≡ length c.base = v.sized in
    let (value, done, run, range, end) =
      increment_recursive_lem c.base c.value v.range v.fits (ground arith) in
    (
      record c { integer = c.integer + 1; value = value },
      done,
      rw (checked_add-some c.integer 1 fits, run) refl,
      refl,
      refl,
      refl,
      elim end [
        | inl (d, n) ↦ inl (
          d,
          omega (arith, encode-lt-product c.base value range),
          record {
            sized = v.sized;
            range = range;
            agree = omega arith;
            end = v.end;
            fits = v.fits;
          },
        )
        | inr (d, n) ↦ inr (d, omega arith, range)
      ],
    )
