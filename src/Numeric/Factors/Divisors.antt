-- ===== src/Numeric/Factors/Divisors.antt =====
-- `CalculateAllFactors_` (src/util/numeric.cpp): the list that it fills.
use timeloop.Prelude.{
  ℕ, zero, suc, ◌+◌, ◌*◌, ◌/◌, ◌%◌, ◌≤◌, ◌<◌, ◌≡◌, refl, true, inl, inr, ◌==◌, arith, Bool-cases,
  ap, ◌∙◌, subst, All, Memᴰ, All-append, ==_iff, ◌↔◌, All-Memᴰ,
}
use mathlib.Core.List.Memᴰ
use native.Mathlib.Nat.{
  mul-le-mul, div-add-mod, mul-mod_left, mul-mod_right, mul-div_cancel_left, mul-div_cancel,
  mul_left_comm,
}
use native.Mathlib.Decide.{dec_le}
use timeloop.Numeric.Factors.{isqrt, factor_pair, factor_loop, all_factors}
use timeloop.Numeric.Factors.Sqrt.{isqrt_lem}

-- `d` divides `n`, by the code's test.
abbrev pub Divides : ℕ → ℕ → Type 0
Divides d n = (0 < d) × (n % d ≡ 0)

pub Divides-mul : (d n : ℕ) → Divides d n → d * (n / d) ≡ n
Divides-mul d n h = omega (arith, div-add-mod n d)

-- The quotient by a divisor divides too, and the quotient by that is the divisor.
pub Divides-div : (d n : ℕ) → 0 < n → Divides d n → Divides (n / d) n × (n / (n / d) ≡ d)
Divides-div d n pos h =
    let eq = Divides-mul d n h in
    let q : 0 < n / d = grind arith in
    (
      (q, subst (λ t. t % (n / d) ≡ 0) eq (mul-mod_left d (n / d))),
      subst (λ t. t / (n / d) ≡ d) eq (mul-div_cancel d q),
    )

pub Divides-of_mul : (d q n : ℕ) → 0 < n → d * q ≡ n → Divides d n × (n / d ≡ q)
Divides-of_mul d q n pos e =
    let pos' : 0 < d = grind arith in
    (
      (pos', subst (λ t. t % d ≡ 0) e (mul-mod_right d q)),
      subst (λ t. t / d ≡ q) e (mul-div_cancel_left q pos'),
    )

pub Divides-trans : (c d n : ℕ) → 0 < n → Divides d n → Divides c (n / d) → Divides c n
Divides-trans c d n pos h k =
    let eq : d * (c * (n / d / c)) ≡ n =
      ap (λ (t : ℕ). d * t) (Divides-mul c (n / d) k) ∙ Divides-mul d n h in
    (Divides-of_mul c (d * (n / d / c)) n pos (mul_left_comm c d (n / d / c) ∙ eq)).0

factor_pair-Divides : (n i : ℕ) → 0 < n → 0 < i → All (λ d. Divides d n) (factor_pair n i)
unfolding factor_pair
factor_pair-Divides n i pos h = elim (Bool-cases (n % i == 0)) [
  | inl e ↦
      let d : Divides i n = (h, (==_iff _ _).0 e) in
      rw e (elim (Bool-cases (i * i == n)) [
        | inl s ↦ rw s (d, tt)
        | inr s ↦ rw s (d, ((Divides-div i n pos d).0, tt))
      ])
  | inr e ↦ rw e tt
]

factor_loop-Divides :
    (rounds n i : ℕ) → 0 < n → 0 < i → All (λ d. Divides d n) (factor_loop rounds n i)
unfolding factor_loop
factor_loop-Divides zero n i pos h = tt
factor_loop-Divides (suc rounds) n i pos h =
    All-append _ (factor_pair n i) _ (factor_pair-Divides n i pos h)
      (factor_loop-Divides rounds n (i + 1) pos (omega arith))

-- Round `i` finds a divisor `i` and its cofactor.
factor_pair-finds :
    (n i : ℕ) → Divides i n → Memᴰ i (factor_pair n i) × Memᴰ (n / i) (factor_pair n i)
unfolding factor_pair
factor_pair-finds n i d =
    let e : (n % i == 0) ≡ true = (==_iff _ _).1 d.1 in
    rw e (elim (Bool-cases (i * i == n)) [
      | inl s ↦ rw s (Memᴰ.head refl, Memᴰ.head (square s))
      | inr s ↦ rw s (Memᴰ.head refl, Memᴰ.tail (Memᴰ.head refl))
    ])
  where
    square : (i * i == n) ≡ true → n / i ≡ i
    square s = subst (λ t. t / i ≡ i) ((==_iff (i * i) n).0 s) (mul-div_cancel i d.0)

factor_loop-finds :
    (rounds n i d : ℕ)
    → i ≤ d
    → d < i + rounds
    → Divides d n
    → Memᴰ d (factor_loop rounds n i) × Memᴰ (n / d) (factor_loop rounds n i)
unfolding factor_loop
factor_loop-finds zero n i d lo hi h = absurd (omega arith)
factor_loop-finds (suc rounds) n i d lo hi h = elim (dec_le d i) [
  | yes le ↦
      let eq : d ≡ i = omega arith in
      let (l, r) = factor_pair-finds n i (subst (λ t. Divides t n) eq h) in
      let rest = factor_loop rounds n (i + 1) in
      rw eq (Memᴰ.append_left rest l, Memᴰ.append_left rest r)
  | no gt ↦
      let (l, r) = factor_loop-finds rounds n (i + 1) d (omega arith) (omega arith) h in
      (Memᴰ.append_right (factor_pair n i) l, Memᴰ.append_right (factor_pair n i) r)
]

pub all_factors-Divides : (n : ℕ) → 0 < n → All (λ d. Divides d n) (all_factors n)
unfolding all_factors
all_factors-Divides n pos = factor_loop-Divides (isqrt n) n 1 pos (omega arith)

-- Of a divisor and its cofactor, one is at most the root.
small_side : (d q n r : ℕ) → d * q ≡ n → n < (r + 1) * (r + 1) → r < d → q ≤ r
small_side d q n r e h k = elim (dec_le q r) [
  | yes le ↦ le
  | no gt ↦
      let big : (r + 1) * (r + 1) ≤ d * q = mul-le-mul (omega arith) (omega arith) in
      absurd (omega arith)
]

-- For a bound from 1 up to 2 ^ 32 - 1 the list holds exactly its divisors.
pub all_factors_lem : (n d : ℕ) → 0 < n → n < 4294967296 → Memᴰ d (all_factors n) ↔ Divides d n
unfolding all_factors
all_factors_lem n d pos small =
    (All-Memᴰ _ (factor_loop-Divides (isqrt n) n 1 pos (omega arith)), finds)
  where
    finds : Divides d n → Memᴰ d (factor_loop (isqrt n) n 1)
    finds h = elim (dec_le d (isqrt n)) [
      | yes le ↦ (factor_loop-finds (isqrt n) n 1 d h.0 (omega arith) h).0
      | no gt ↦
          let (div, back) = Divides-div d n pos h in
          let side =
            small_side d (n / d) n (isqrt n) (Divides-mul d n h) ((isqrt_lem n).1 small)
              (omega arith) in
          subst (λ t. Memᴰ t (factor_loop (isqrt n) n 1)) back
            (factor_loop-finds (isqrt n) n 1 (n / d) div.0 (omega arith) div).1
    ]
