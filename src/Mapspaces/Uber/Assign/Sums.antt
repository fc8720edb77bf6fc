-- ===== src/Mapspaces/Uber/Assign/Sums.antt =====
-- The recurrence that `AssignIndexFactors` checks (src/mapspaces/uber.cpp), as a count of the
-- iterations of the nest.
use native.Mathlib.Nat.{add-mul, mul_assoc, one-mul, mul-one, zero-mul, mul_comm}
use mathlib.Core.List.{head-eq_of_cons-eq, tail-eq_of_cons-eq}
use timeloop.Prelude.{
  ℕ, ◌+◌, ◌-◌, ◌*◌, ◌%◌, ◌≡◌, refl, sym, ap, ◌∙◌, inl, inr, Bool, true, false, List, [], ◌∷◌, ◌++◌,
  ◌==◌, if◌then◌else◌, All, arith, Bool-cases,
}
use timeloop.Prelude.Words.{u32_mod, mod-mul}
use timeloop.Mapping.Loops.{Descriptor}
use timeloop.Mapspaces.Uber.Assign.{backwards, curterm, recurrence}
use timeloop.Mapspaces.Uber.Assign.Levels.{of_dim, of_dim-here, of_dim-skip, Sound}

-- How often the body of these loops, outermost first, is reached along a dimension: each loop ends at
-- its end, but at its residual end in the last iteration of all the loops around it.
abbrev pub runs : ℕ → List Descriptor → Bool → ℕ
runs d [] last = 1
runs d (loop ∷ loops) last =
    let inner : ℕ = runs d loops false in
    let final : ℕ = runs d loops last in
    if loop.dimension == d
    then ((if last then loop.residual_end else loop.end) - 1) * inner + final
    else final

-- The ends of the loops of a dimension, multiplied.
unfoldable pub end_product : ℕ → List Descriptor → ℕ
end_product dim [] = 1
end_product dim (loop ∷ loops) =
    let rest : ℕ = end_product dim loops in if loop.dimension == dim then loop.end * rest else rest

-- What the loops add to `d0`, without wrapping.
abbrev pub terms : ℕ → List Descriptor → ℕ
terms d [] = 0
terms d (loop ∷ loops) =
    let rest : ℕ = terms d loops in
    if loop.dimension == d then end_product d loops * (loop.residual_end - 1) + rest else rest

curterm-eq : (d : ℕ) (loops : List Descriptor) → curterm d loops ≡ end_product d loops % u32_mod
unfolding curterm end_product
curterm-eq d [] = refl
curterm-eq d (loop ∷ loops) = elim (Bool-cases (loop.dimension == d)) [
  | inl e ↦
      rw (e, curterm-eq d loops, mul_comm loop.end (end_product d loops % u32_mod))
        (mod-mul (end_product d loops) loop.end u32_mod
          ∙ ap (λ t. t % u32_mod) (mul_comm (end_product d loops) loop.end))
  | inr e ↦ rw e (curterm-eq d loops)
]

wrap_step :
    (d0 x y : ℕ) → x % u32_mod ≡ y % u32_mod → (d0 % u32_mod + x) % u32_mod ≡ (d0 + y) % u32_mod
wrap_step d0 x y h = omega arith

-- The recurrence is the sum of the terms, up to the wraps.
pub recurrence-terms :
    (d : ℕ) (loops : List Descriptor) (d0 : ℕ)
    → recurrence d loops (d0 % u32_mod) ≡ (d0 + terms d loops) % u32_mod
unfolding recurrence
recurrence-terms d [] d0 = ap (λ t. t % u32_mod) (omega arith)
recurrence-terms d (loop ∷ loops) d0 = elim (Bool-cases (loop.dimension == d)) [
  | inl e ↦
      let extra : ℕ = loop.residual_end - 1 in
      let wrapped : curterm d loops * extra % u32_mod ≡ end_product d loops * extra % u32_mod =
        ap (λ t. t * extra % u32_mod) (curterm-eq d loops)
        ∙ mod-mul (end_product d loops) extra u32_mod in
      rw e (
        ap (recurrence d loops)
          (wrap_step d0 (curterm d loops * extra) (end_product d loops * extra) wrapped)
        ∙ recurrence-terms d loops (d0 + end_product d loops * extra)
        ∙ ap (λ t. t % u32_mod) (omega arith))
  | inr e ↦ rw e (recurrence-terms d loops d0)
]

pub runs_full :
    (d : ℕ) (loops : List Descriptor) → All Sound loops → runs d loops false ≡ end_product d loops
unfolding end_product
runs_full d [] h = refl
runs_full d (loop ∷ loops) ((positive, _, _), h) = elim (Bool-cases (loop.dimension == d)) [
  | inl e ↦
      let split = add-mul (loop.end - 1) 1 (end_product d loops) in
      let back : loop.end - 1 + 1 ≡ loop.end = omega arith in
      rw (e, runs_full d loops h)
        (omega
          (arith, split, ap (λ t. t * end_product d loops) back, one-mul (end_product d loops)))
  | inr e ↦ rw e (runs_full d loops h)
]

pub runs-terms :
    (d : ℕ) (loops : List Descriptor) → All Sound loops → runs d loops true ≡ 1 + terms d loops
runs-terms d [] h = omega arith
runs-terms d (loop ∷ loops) (_, h) = elim (Bool-cases (loop.dimension == d)) [
  | inl e ↦
      rw (e, runs_full d loops h, runs-terms d loops h)
        (omega (arith, mul_comm (loop.residual_end - 1) (end_product d loops)))
  | inr e ↦ rw e (runs-terms d loops h)
]

pub end_product-append :
    (d : ℕ) (xs ys : List Descriptor)
    → end_product d (xs ++ ys) ≡ end_product d xs * end_product d ys
unfolding end_product
end_product-append d [] ys = sym (one-mul (end_product d ys))
end_product-append d (x ∷ xs) ys = elim (Bool-cases (x.dimension == d)) [
  | inl e ↦ rw e (
      ap (λ t. x.end * t) (end_product-append d xs ys)
      ∙ sym (mul_assoc x.end (end_product d xs) (end_product d ys)))
  | inr e ↦ rw e (end_product-append d xs ys)
]

pub terms-append :
    (d : ℕ) (xs ys : List Descriptor)
    → terms d (xs ++ ys) ≡ terms d xs * end_product d ys + terms d ys
terms-append d [] ys = omega (arith, zero-mul (end_product d ys))
terms-append d (x ∷ xs) ys = elim (Bool-cases (x.dimension == d)) [
  | inl e ↦
      let p : ℕ = end_product d xs in
      let q : ℕ = end_product d ys in
      let r : ℕ = x.residual_end - 1 in
      let split = add-mul (p * r) (terms d xs) q in
      let swap : p * q * r ≡ p * r * q =
        mul_assoc p q r ∙ ap (λ t. p * t) (mul_comm q r) ∙ sym (mul_assoc p r q) in
      rw (e, end_product-append d xs ys, terms-append d xs ys) (omega (arith, split, swap))
  | inr e ↦ rw e (terms-append d xs ys)
]

-- A level that has no loop of the dimension, and one that has one.
backwards_none :
    (d : ℕ) (nest : List Descriptor)
    → of_dim d nest ≡ []
    → (end_product d (backwards nest) ≡ 1) × (terms d (backwards nest) ≡ 0)
unfolding backwards end_product
backwards_none d [] h = (refl, refl)
backwards_none d (x ∷ xs) h = elim (Bool-cases (x.dimension == d)) [
  | inl e ↦ absurd (cons-nil (sym (of_dim-here d x xs e) ∙ h))
  | inr e ↦
      let (p, t) = backwards_none d xs (sym (of_dim-skip d x xs e) ∙ h) in
      (
        end_product-append d (backwards xs) (x ∷ []) ∙ rw (e, p) refl,
        terms-append d (backwards xs) (x ∷ []) ∙ rw (e, t) refl,
      )
]
  where
    cons-nil : {y : Descriptor} {ys : List Descriptor} → y ∷ ys ≡ [] → ⊥
    cons-nil k = cc

pub backwards_one :
    (d : ℕ) (nest : List Descriptor) (loop : Descriptor)
    → of_dim d nest ≡ loop ∷ []
    → (end_product d (backwards nest) ≡ loop.end)
      × (terms d (backwards nest) ≡ loop.residual_end - 1)
unfolding backwards end_product
backwards_one d [] loop h = cc
backwards_one d (x ∷ xs) loop h = elim (Bool-cases (x.dimension == d)) [
  | inl e ↦
      let split = sym (of_dim-here d x xs e) ∙ h in
      let (p, t) = backwards_none d xs (tail-eq_of_cons-eq split) in
      let same : x ≡ loop = head-eq_of_cons-eq split in
      (
        end_product-append d (backwards xs) (x ∷ [])
            ∙ rw (e, p)
                (omega (arith, one-mul (x.end * 1), mul-one x.end)
                  ∙ ap (λ (l : Descriptor). l.end) same),
        terms-append d (backwards xs) (x ∷ [])
            ∙ rw (e, t)
                (omega (arith, zero-mul (x.end * 1), one-mul (x.residual_end - 1))
                  ∙ ap (λ (l : Descriptor). l.residual_end - 1) same),
      )
  | inr e ↦
      let (p, t) = backwards_one d xs loop (sym (of_dim-skip d x xs e) ∙ h) in
      (
        end_product-append d (backwards xs) (x ∷ []) ∙ rw (e, p) (mul-one loop.end),
        terms-append d (backwards xs) (x ∷ [])
            ∙ rw (e, t) (omega (arith, mul-one (loop.residual_end - 1))),
      )
]
