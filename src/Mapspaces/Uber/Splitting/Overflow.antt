-- ===== src/Mapspaces/Uber/Splitting/Overflow.antt =====
-- The check for overflow of `Init` (src/mapspaces/uber.cpp).
use native.Mathlib.Nat.{
  mod-lt, mod-eq_of_lt, div-div-eq-div-mul, div_self, div-eq_of_lt, div-one, mul_assoc, one-mul,
  mul-pos, mul-one,
}
use timeloop.Prelude.{
  ℕ, ◌*◌, ◌/◌, ◌%◌, ◌<◌, ◌≡◌, refl, sym, ap, ◌∙◌, inl, inr, false, some, List, [], ◌∷◌, All, ltb,
  ◌==◌, product, arith, Bool-cases, ltb→lt, ltb→le,
}
use timeloop.Prelude.Words.{u128_mod, mod-mul}
use timeloop.Mapspaces.Uber.Splitting.{size_from, size_of, divide_all, check_sizes}

size_from-product :
    (sizes : List ℕ) (size : ℕ)
    → size < u128_mod
    → size_from sizes size ≡ size * product sizes % u128_mod
unfolding size_from
size_from-product [] size h =
    sym (mod-eq_of_lt (omega (arith, mul-one size))) ∙ ap (λ t. t % u128_mod) (sym (mul-one size))
size_from-product (s ∷ sizes) size h =
    size_from-product sizes (size * s % u128_mod) (mod-lt (size * s) (omega arith))
    ∙ mod-mul (size * s) (product sizes) u128_mod
    ∙ ap (λ t. t % u128_mod) (mul_assoc size s (product sizes))

divide_all-product :
    (sizes : List ℕ) (n : ℕ)
    → All (λ s. 0 < s) sizes
    → divide_all sizes n ≡ some (n / product sizes)
unfolding divide_all
divide_all-product [] n h = ap some (sym (div-one n))
divide_all-product (s ∷ sizes) n (h, hs) =
    let e : (s == 0) ≡ false = ground arith in
    rw e (divide_all-product sizes (n / s) hs ∙ ap some (div-div-eq-div-mul n s (product sizes)))

product-pos : (sizes : List ℕ) → All (λ s. 0 < s) sizes → 0 < product sizes
product-pos [] h = omega arith
product-pos (s ∷ sizes) (h, hs) = mul-pos h (product-pos sizes hs)

-- For positive sizes, `Init` divides by no zero, and it goes on where the product of the sizes is
-- below 2 ^ 128 and exits where it is not.
pub check_sizes_lem :
    (sizes : List ℕ)
    → All (λ s. 0 < s) sizes
    → check_sizes sizes ≡ some (ltb (product sizes) u128_mod)
unfolding check_sizes size_of
check_sizes_lem sizes h =
    let p : ℕ = product sizes in
    let positive = product-pos sizes h in
    let size : size_from sizes 1 ≡ p % u128_mod =
      size_from-product sizes 1 (omega arith) ∙ ap (λ n. n % u128_mod) (one-mul p) in
    rw (size, divide_all-product sizes (p % u128_mod) h)
      (elim (Bool-cases (ltb p u128_mod)) [
        | inl e ↦
            let low : p % u128_mod ≡ p = mod-eq_of_lt (ltb→lt p u128_mod e) in
            rw (e, low, div_self positive) refl
        | inr e ↦
            let none_left : p % u128_mod / p ≡ 0 =
              div-eq_of_lt (omega (arith, mod-lt p, ltb→le p u128_mod e)) in
            rw (e, none_left) refl
      ])
