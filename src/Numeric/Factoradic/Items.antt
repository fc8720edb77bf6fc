-- ===== src/Numeric/Factoradic/Items.antt =====
-- Lists with the same entries, as `Permute` (include/util/numeric.hpp) leaves them.
use timeloop.Prelude.{
  ℕ, suc, ◌+◌, ◌<◌, ◌≡◌, refl, List, [], ◌∷◌, length, ◌==◌, if◌then◌else◌, arith, Bool-cases, inl,
  inr, ap,
}
use timeloop.Numeric.Factoradic.Orders.{count, SameItems}

-- Without the first occurrence.
abbrev remove : ℕ → List ℕ → List ℕ
remove x [] = []
remove x (y ∷ ys) = if y == x then ys else y ∷ remove x ys

count-remove :
    (x a : ℕ) (ys : List ℕ)
    → 0 < count x ys
    → count a ys ≡ (if x == a then 1 else 0) + count a (remove x ys)
count-remove x a [] h = absurd (omega arith)
count-remove x a (y ∷ ys) h = elim (Bool-cases (y == x)) [
  | inl same ↦ let eq : y ≡ x = ground arith in rw same (rw eq)
  | inr other ↦
      let later : 0 < count x ys = ground arith in
      rw other (omega (arith, count-remove x a ys later))
]

length-remove : (x : ℕ) (ys : List ℕ) → 0 < count x ys → length ys ≡ suc (length (remove x ys))
length-remove x [] h = absurd (omega arith)
length-remove x (y ∷ ys) h = elim (Bool-cases (y == x)) [
  | inl same ↦ rw same
  | inr other ↦
      let later : 0 < count x ys = ground arith in rw other (ap suc (length-remove x ys later))
]

pub SameItems-length : (xs ys : List ℕ) → SameItems xs ys → length ys ≡ length xs
SameItems-length [] [] h = refl
SameItems-length [] (y ∷ ys) h = absurd (let c = h y in ground arith)
SameItems-length (x ∷ xs) ys h =
    let here : 0 < count x ys = (let c = h x in ground arith) in
    let rest : SameItems xs (remove x ys) =
      λ a. (let c = h a in omega (arith, count-remove x a ys here)) in
    omega (arith, length-remove x ys here, SameItems-length xs (remove x ys) rest)
