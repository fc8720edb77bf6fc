-- ===== src/Mapspaces/Uber/Assign/Recurrence.antt =====
-- One loop of `AssignIndexFactors` (src/mapspaces/uber.cpp) as arithmetic.
use native.Mathlib.Nat.{
  mod-lt, div-add-mod', mul-le-mul_right, div-eq_of_lt-le, add-mul, one-mul, zero-mul, mul_comm,
  mul_assoc,
}
use timeloop.Prelude.{
  ℕ, ◌+◌, ◌-◌, ◌*◌, ◌/◌, ◌%◌, ◌<◌, ◌≤◌, ◌≡◌, ap, ◌∙◌, inl, inr, ltb, ◌==◌, if◌then◌else◌, arith,
  Bool-cases, ltb→lt, ltb→le,
}
use timeloop.Mapspaces.Uber.Assign.{residual_of, left_after}

-- What a loop does to what remains: the end and the residual end bound each other, and together
-- with what is left they make up what remained.
pub record Step (remaining end residual left : ℕ) : Type 0 where
  pub end_positive : 0 < end
  pub residual_positive : 0 < residual
  pub residual_low : residual ≤ end
  pub left_positive : 0 < left
  pub whole : remaining ≡ residual + (left - 1) * end

pub step_lem :
    (remaining end : ℕ)
    → 0 < remaining
    → 0 < end
    → Step remaining end (residual_of remaining end) (left_after remaining end)
unfolding residual_of left_after
step_lem remaining end positive end_positive =
    let q : ℕ = remaining / end in
    let parts : q * end + remaining % end ≡ remaining = div-add-mod' remaining end in
    let low : remaining % end < end = mod-lt remaining end_positive in
    elim (Bool-cases (remaining % end == 0)) [
      | inl e ↦
          let even : remaining % end ≡ 0 = ground arith in
          let some_q : 0 < q = elim (Bool-cases (q == 0)) [
            | inl z ↦
                let none_q : q ≡ 0 = ground arith in
                absurd (omega (arith, ap (λ t. t * end) none_q, zero-mul end))
            | inr z ↦ ground arith
          ] in
          let split : (q - 1 + 1) * end ≡ (q - 1) * end + 1 * end = add-mul (q - 1) 1 end in
          let back : q - 1 + 1 ≡ q = omega arith in
          rw e (record {
            end_positive = end_positive;
            residual_positive = end_positive;
            residual_low = omega arith;
            left_positive = some_q;
            whole = omega (arith, split, ap (λ t. t * end) back, one-mul end);
          })
      | inr e ↦
          let odd : 0 < remaining % end = ground arith in
          let up : (remaining + end - 1) / end ≡ q + 1 =
            div-eq_of_lt-le end (omega (arith, add-mul q 1 end, one-mul end))
              (omega (arith, add-mul (q + 1) 1 end, add-mul q 1 end, one-mul end)) in
          let same : q + 1 - 1 ≡ q = omega arith in
          rw (e, up)
            (record {
              end_positive = end_positive;
              residual_positive = odd;
              residual_low = omega arith;
              left_positive = omega arith;
              whole = omega (arith, ap (λ t. t * end) same, parts);
            })
    ]

-- A factor that covers what remains, together with those to come, leaves what they cover.
pub Step-cover :
    (remaining whole end residual left rest : ℕ)
    → Step remaining end residual left
    → end ≡ (if ltb remaining whole then remaining else whole)
    → 0 < rest
    → remaining ≤ whole * rest
    → left ≤ rest
Step-cover remaining whole end residual left rest step taken positive cover =
    elim (Bool-cases (ltb rest left)) [
      | inr e ↦ ltb→le rest left e
      | inl e ↦
          let more : rest ≤ left - 1 = omega (arith, ltb→lt rest left e) in
          let bound : rest * end ≤ (left - 1) * end = mul-le-mul_right end more in
          let r : remaining ≡ residual + (left - 1) * end = step.whole in
          let some_r : 0 < residual = step.residual_positive in
          elim (Bool-cases (ltb remaining whole)) [
            | inl f ↦
                let same : end ≡ remaining = taken ∙ ap (λ b. if b then remaining else whole) f in
                let once : 1 * end ≤ rest * end = mul-le-mul_right end positive in
                absurd (omega (arith, once, one-mul end))
            | inr f ↦
                let same : end ≡ whole = taken ∙ ap (λ b. if b then remaining else whole) f in
                let swap : rest * end ≡ whole * rest =
                  ap (λ t. rest * t) same ∙ mul_comm rest whole in
                absurd (omega arith)
          ]
    ]

-- The recurrence through one more loop.
pub Step-sum :
    (remaining end residual left sum rest final : ℕ)
    → Step remaining end residual left
    → left ≡ 1 + sum + (final - 1) * rest
    → remaining ≡ 1 + (sum * end + (residual - 1)) + (final - 1) * (rest * end)
Step-sum remaining end residual left sum rest final step h =
    let r : remaining ≡ residual + (left - 1) * end = step.whole in
    let some_r : 0 < residual = step.residual_positive in
    let e : (left - 1) * end ≡ sum * end + (final - 1) * (rest * end) =
      ap (λ t. t * end) (omega arith)
      ∙ add-mul sum ((final - 1) * rest) end
      ∙ ap (λ t. sum * end + t) (mul_assoc (final - 1) rest end) in
    omega arith

-- A factor that does not cover what remains, with those to come, leaves more than they cover.
pub Step-short :
    (remaining whole end residual left rest : ℕ)
    → Step remaining end residual left
    → end ≤ whole
    → whole * rest < remaining
    → rest < left
Step-short remaining whole end residual left rest step low short =
    elim (Bool-cases (ltb rest left)) [
      | inl e ↦ ltb→lt rest left e
      | inr e ↦
          let r : remaining ≡ residual + (left - 1) * end = step.whole in
          let some_r : residual ≤ end = step.residual_low in
          let some_left : 0 < left = step.left_positive in
          let whole_left : (left - 1 + 1) * end ≡ (left - 1) * end + 1 * end =
            add-mul (left - 1) 1 end in
          let back : (left - 1 + 1) * end ≡ left * end = ap (λ t. t * end) (omega arith) in
          let bound : left * end ≤ rest * end = mul-le-mul_right end (ltb→le rest left e) in
          let bound' : end * rest ≤ whole * rest = mul-le-mul_right rest low in
          let swap : rest * end ≡ end * rest = mul_comm rest end in
          absurd (omega (arith, one-mul end))
    ]
