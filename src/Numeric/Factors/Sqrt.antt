-- ===== src/Numeric/Factors/Sqrt.antt =====
-- `ISqrt_`: the integer square root, bit by bit.
use timeloop.Prelude.{
  ℕ, zero, suc, ◌+◌, ◌*◌, ◌/◌, ◌%◌, ◌≤◌, ◌<◌, ◌≡◌, refl, false, ◌⊎◌, inl, inr, ltb, leb, ◌==◌,
  arith, Bool-cases, ltb→lt, leb→le, ap, ◌∙◌,
}
use native.Mathlib.Nat.{mul-le-mul}
use timeloop.Prelude.Words.{u64_mod}
use timeloop.Numeric.Factors.{shrink, root_step, root_loop, root_rounds, isqrt}

abbrev pow2 : ℕ → ℕ
pow2 zero = 1
pow2 (suc k) = 2 * pow2 k

-- `q` holds the bits of the root above the one of weight `p`, and `res` and `op` go with it.
record Partial (x q p op res : ℕ) : Type 0 where
  rest : op + q * q ≡ x
  scaled : res ≡ 2 * (q * p)
  small : q + 2 * p ≤ 65536

-- How the loop ends, started at `q` with the bit of weight `p` next.
record Root (x q p r : ℕ) : Type 0 where
  below : r * r ≤ x
  from : q ≤ r
  upto : r < q + 2 * p
  above : x < (q + 2 * p) * (q + 2 * p) → x < (r + 1) * (r + 1)
  capped : (q + 2 * p) * (q + 2 * p) ≤ x → r + 1 ≡ q + 2 * p

square_mono : (a b : ℕ) → a ≤ b → a * a ≤ b * b
square_mono a b h = mul-le-mul h h

no_wrap : (q p : ℕ) → q + 2 * p ≤ 65536 → 2 * (q * p) + p * p * 2 < u64_mod
no_wrap q p h =
    let big : (q + 2 * p) * (q + 2 * p) ≤ 65536 * 65536 = square_mono _ _ h in omega arith

-- One round: the bit of weight `p` is set exactly if the square still fits.
root_step_lem :
    (x q p op res : ℕ)
    → Partial x q p op res
    → (((q + p) * (q + p) ≤ x)
        × ((root_step op res (p * p)).0 + (q + p) * (q + p) ≡ x)
        × ((root_step op res (p * p)).1 ≡ (q + p) * p))
      ⊎ ((x < (q + p) * (q + p))
          × ((root_step op res (p * p)).0 + q * q ≡ x)
          × ((root_step op res (p * p)).1 ≡ q * p))
unfolding root_step
root_step_lem x q p op res v =
    let fits = no_wrap q p v.small in
    let trial : (res + p * p) % u64_mod ≡ res + p * p = omega arith in
    let grown : (res + p * p * 2) % u64_mod ≡ res + p * p * 2 = omega arith in
    rw (trial, grown)
      (elim (Bool-cases (leb (res + p * p) op)) [
        | inl e ↦ let le = leb→le _ _ e in rw e (inl (omega arith, omega arith, omega arith))
        | inr e ↦
            let lt : op < res + p * p = ground arith in
            rw e (inr (omega arith, omega arith, omega arith))
      ])

quarter : (p : ℕ) → (2 * p) * (2 * p) / 4 ≡ p * p
quarter p = omega arith

-- The last round brings `one` to 0, and the loop ends by its test or at the end of the fuel.
root_loop-zero : (fuel op res : ℕ) → root_loop fuel op res 0 ≡ res
unfolding root_loop
root_loop-zero zero op res = refl
root_loop-zero (suc fuel) op res = refl

too_big : (x q p : ℕ) → x < (q + p) * (q + p) → ¬ ((q + 2 * p) * (q + 2 * p) ≤ x)
too_big x q p h k =
    let le : (q + p) * (q + p) ≤ (q + 2 * p) * (q + 2 * p) = square_mono _ _ (omega arith) in
    omega arith

Root-set : (x q p r : ℕ) → Root x (q + 2 * p) p r → Root x q (2 * p) r
Root-set x q p r n = record {
  below = n.below;
  from = omega arith;
  upto = omega arith;
  above = λ h. n.above (omega arith);
  capped = λ h. omega (arith, n.capped (omega arith));
}

Root-clear : (x q p r : ℕ) → x < (q + 2 * p) * (q + 2 * p) → Root x q p r → Root x q (2 * p) r
Root-clear x q p r lt n = record {
  below = n.below;
  from = n.from;
  upto = omega arith;
  above = λ _. n.above lt;
  capped = λ h. absurd (too_big x q (2 * p) lt h);
}

square_pos : (k : ℕ) → 0 < pow2 k * pow2 k
square_pos zero = omega arith
square_pos (suc k) = omega (arith, square_pos k)

shift : (q p : ℕ) → q * (2 * p) ≡ 2 * (q * p)
shift q p = omega arith

shrink-zero : (fuel x : ℕ) → shrink fuel 0 x ≡ 0
unfolding shrink
shrink-zero zero x = refl
shrink-zero (suc fuel) x = let no : ltb x 0 ≡ false = ground arith in rw no

root_loop-suc :
    (fuel op res one : ℕ)
    → 0 < one
    → root_loop (suc fuel) op res one
      ≡ root_loop fuel (root_step op res one).0 (root_step op res one).1 (one / 4)
unfolding root_loop
root_loop-suc fuel op res one h = let ne : (one == 0) ≡ false = ground arith in rw ne

root_loop_lem :
    (k fuel x q op res : ℕ)
    → k < fuel
    → Partial x q (pow2 k) op res
    → q * q ≤ x
    → Root x q (pow2 k) (root_loop fuel op res (pow2 k * pow2 k))
root_loop_lem k zero x q op res h v le = absurd (omega arith)
root_loop_lem zero (suc fuel) x q op res h v le =
    rw (root_loop-suc fuel op res 1 (omega arith), root_loop-zero)
      (elim (root_step_lem x q 1 op res v) [
        | inl (sq, _, r) ↦ rw r (record {
          below = omega arith;
          from = omega arith;
          upto = omega arith;
          above = λ h. omega arith;
          capped = λ h. omega arith;
        })
        | inr (sq, _, r) ↦ rw r (record {
          below = omega arith;
          from = omega arith;
          upto = omega arith;
          above = λ h. omega arith;
          capped = λ h. absurd (too_big x q 1 sq h);
        })
      ])
root_loop_lem (suc k) (suc fuel) x q op res h v le =
    rw
      (
        root_loop-suc fuel op res (pow2 (suc k) * pow2 (suc k)) (square_pos (suc k)),
        quarter (pow2 k),
      )
      (elim (root_step_lem x q (2 * pow2 k) op res v) [
        | inl (sq, o, r) ↦ Root-set x q (pow2 k) _ (
            root_loop_lem k fuel x (q + 2 * pow2 k) _ _ (omega arith)
              (record {
                rest = o;
                scaled = r ∙ shift (q + 2 * pow2 k) (pow2 k);
                small = omega arith;
              })
              sq)
        | inr (sq, o, r) ↦ Root-clear x q (pow2 k) _ sq (
            root_loop_lem k fuel x q _ _ (omega arith)
              (record { rest = o; scaled = r ∙ shift q (pow2 k); small = omega arith }) le)
      ])

-- How the first loop ends: at 0 for 0, else at a power of four, the greatest or one above `x`.
shrink_lem :
    (k fuel x : ℕ)
    → k < fuel
    → ((x ≡ 0) × (shrink fuel (pow2 k * pow2 k) x ≡ 0))
      ⊎ ((j : ℕ) × (j ≤ k)
          × (shrink fuel (pow2 k * pow2 k) x ≡ pow2 j * pow2 j)
          × ((j ≡ k) ⊎ (x < (2 * pow2 j) * (2 * pow2 j))))
unfolding shrink
shrink_lem k zero x h = absurd (omega arith)
shrink_lem zero (suc fuel) x h = elim (Bool-cases (ltb x 1)) [
  | inl e ↦ inl (omega (arith, ltb→lt x 1 e), rw e (shrink-zero fuel x))
  | inr e ↦ inr (0, omega arith, rw e, inl refl)
]
shrink_lem (suc k) (suc fuel) x h = elim (Bool-cases (ltb x (pow2 (suc k) * pow2 (suc k)))) [
  | inl e ↦
      rw (e, quarter (pow2 k))
        (elim (shrink_lem k fuel x (omega arith)) [
          | inl zeros ↦ inl zeros
          | inr (j, le, eq, end) ↦
              inr (
                j,
                omega arith,
                eq,
                inr (elim end [ inl top ↦ rw top (ltb→lt _ _ e) | inr lt ↦ lt ]),
              )
        ])
  | inr e ↦ inr (suc k, omega arith, rw e, inl refl)
]

pow2_mono : (j k : ℕ) → j ≤ k → pow2 j ≤ pow2 k
pow2_mono zero zero h = omega arith
pow2_mono zero (suc k) h = omega (arith, pow2_mono zero k (omega arith))
pow2_mono (suc j) zero h = absurd (omega arith)
pow2_mono (suc j) (suc k) h = omega (arith, pow2_mono j k (omega arith))

-- What `ISqrt_` returns for any 64-bit number: a root from below of at most 16 bits.
pub isqrt_lem :
    (x : ℕ)
    → (isqrt x * isqrt x ≤ x)
      × (x < 4294967296 → x < (isqrt x + 1) * (isqrt x + 1))
      × (4294967296 ≤ x → isqrt x ≡ 65535)
unfolding isqrt
isqrt_lem x = elim (shrink_lem 15 root_rounds x (omega arith)) [
  | inl (z, one) ↦
      rw (one, root_loop-zero) (omega arith, λ h. omega arith, λ h. absurd (omega arith))
  | inr (j, le, one, end) ↦
      let small : 0 + 2 * pow2 j ≤ 65536 = omega (arith, pow2_mono j 15 le) in
      let r =
        root_loop_lem j root_rounds x 0 x 0 (omega arith)
          (record { rest = omega arith; scaled = omega arith; small = small }) (omega arith) in
      rw one (elim end [
        | inl top ↦
            let p : pow2 j ≡ 32768 = ap pow2 top in
            (
              r.below,
              (λ h. r.above (rw p (omega arith))),
              λ h. omega (arith, r.capped (rw p (omega arith))),
            )
        | inr lt ↦
            let p : (0 + 2 * pow2 j) * (0 + 2 * pow2 j) ≤ 65536 * 65536 = square_mono _ _ small in
            (r.below, (λ h. r.above (omega arith)), λ h. absurd (omega arith))
      ])
]
