-- ===== src/Numeric/Counter/Digits.antt =====
-- What the digits of a counter stand for, and the laws of encoding and decoding.
use native.Mathlib.Nat.{
  mod-lt, mul_comm, mul_assoc, div-lt_iff_lt-mul, div-add-mod, mul-pos, add-mul-div_left,
  div-eq_of_lt, add-mul-mod_self_left, mod-eq_of_lt, le-mul_of_pos_right,
}
use timeloop.Prelude.{
  ℕ, suc, ◌+◌, ◌*◌, ◌/◌, ◌%◌, ◌≤◌, ◌<◌, ◌≡◌, refl, false, some, List, [], ◌∷◌, ◌==◌, length,
  product, arith, All, ap,
}
use timeloop.Prelude.Words.{u128_mod, checked_add-some, checked_mul-some}
use timeloop.Numeric.Counter.{update_integer, update_value}

-- The number that digits stand for, least significant first.
abbrev pub encode : List ℕ → List ℕ → ℕ
encode (b ∷ bs) (v ∷ vs) = v + b * encode bs vs
encode [] vs = 0
encode (b ∷ bs) [] = 0

-- One digit below each base.
abbrev pub InRange : List ℕ → List ℕ → Type 0
InRange [] [] = Unit
InRange (b ∷ bs) (v ∷ vs) = (v < b) × InRange bs vs
InRange [] (v ∷ vs) = ⊥
InRange (b ∷ bs) [] = ⊥

abbrev pub Positive : List ℕ → Type 0
Positive = All (λ b. 0 < b)

pub digit_bound : (v b e p : ℕ) → v < b → e < p → v + b * e < b * p
digit_bound v b e p h k = grind arith

pub encode-lt-product : (bs vs : List ℕ) → InRange bs vs → encode bs vs < product bs
encode-lt-product [] [] h = omega arith
encode-lt-product [] (v ∷ vs) h = absurd h
encode-lt-product (b ∷ bs) [] h = absurd h
encode-lt-product (b ∷ bs) (v ∷ vs) h =
    digit_bound v b (encode bs vs) (product bs) h.0 (encode-lt-product bs vs h.1)

pub product_pos : (bs : List ℕ) → Positive bs → 0 < product bs
product_pos [] h = omega arith
product_pos (b ∷ bs) h = mul-pos h.0 (product_pos bs h.1)

-- The digits of a number.
abbrev pub decode : List ℕ → ℕ → List ℕ
decode [] n = []
decode (b ∷ bs) n = (n % b) ∷ decode bs (n / b)

pub decode-InRange : (bs : List ℕ) (n : ℕ) → Positive bs → InRange bs (decode bs n)
decode-InRange [] n p = tt
decode-InRange (b ∷ bs) n p = (mod-lt n p.0, decode-InRange bs (n / b) p.1)

pub div_bound : (b n q : ℕ) → 0 < b → n < b * q → n / b < q
div_bound b n q p h = (div-lt_iff_lt-mul {k = b} {x = n} {y = q} p).1 (rw (mul_comm q b) h)

pub encode-decode :
    (bs : List ℕ) (n : ℕ) → Positive bs → n < product bs → encode bs (decode bs n) ≡ n
encode-decode [] n p h = omega arith
encode-decode (b ∷ bs) n p h = omega (
  arith,
  ap (λ (t : ℕ). b * t) (encode-decode bs (n / b) p.1 (div_bound b n (product bs) p.0 h)),
  div-add-mod n b,
)

pub update_value-eq : (bs : List ℕ) (n : ℕ) → Positive bs → update_value bs n ≡ some (decode bs n)
unfolding update_value
update_value-eq [] n p = refl
update_value-eq (b ∷ bs) n p =
    let pb : (b == 0) ≡ false = ground arith in rw (pb, update_value-eq bs (n / b) p.1)

pub div_digit : (v b e : ℕ) → v < b → (v + b * e) / b ≡ e
div_digit v b e h = rw (add-mul-div_left v e {y = b} (omega arith), div-eq_of_lt h) (omega arith)

pub mod_digit : (v b e : ℕ) → v < b → (v + b * e) % b ≡ v
mod_digit v b e h = rw (add-mul-mod_self_left v b e) (mod-eq_of_lt h)

pub decode-encode : (bs vs : List ℕ) → InRange bs vs → decode bs (encode bs vs) ≡ vs
decode-encode [] [] h = refl
decode-encode [] (v ∷ vs) h = absurd h
decode-encode (b ∷ bs) [] h = absurd h
decode-encode (b ∷ bs) (v ∷ vs) h =
    rw (div_digit v b (encode bs vs) h.0, mod_digit v b (encode bs vs) h.0)
      (ap (λ t. v ∷ t) (decode-encode bs vs h.1))

pub InRange-Positive : (bs vs : List ℕ) → InRange bs vs → Positive bs
InRange-Positive [] vs h = tt
InRange-Positive (b ∷ bs) [] h = absurd h
InRange-Positive (b ∷ bs) (v ∷ vs) h = (omega arith, InRange-Positive bs vs h.1)

pub InRange-length : (bs vs : List ℕ) → InRange bs vs → length vs ≡ length bs
InRange-length [] [] h = refl
InRange-length [] (v ∷ vs) h = absurd h
InRange-length (b ∷ bs) [] h = absurd h
InRange-length (b ∷ bs) (v ∷ vs) h = ap suc (InRange-length bs vs h.1)

next_weight :
    (i w b v p : ℕ)
    → i < w
    → v < b
    → 0 < p
    → w * (b * p) < u128_mod
    → (i + v * w < w * b) × (w * b < u128_mod) × (w * b * p < u128_mod) × (v * w < u128_mod)
next_weight i w b v p hi hv hp h =
    let low : w * b ≤ w * b * p = le-mul_of_pos_right (w * b) hp in
    let eq : w * b * p ≡ w * (b * p) = mul_assoc w b p in
    let digit : i + v * w < w * b = rw (mul_comm w b) (grind arith) in
    (digit, omega arith, omega arith, omega arith)

-- Encoding in the code's order, with its running weight, never overflows.
pub update_integer-eq :
    (bs vs : List ℕ) (i w : ℕ)
    → InRange bs vs
    → i < w
    → w * product bs < u128_mod
    → update_integer i w bs vs ≡ some (i + w * encode bs vs)
unfolding update_integer
update_integer-eq [] [] i w h hi hw = ap some (omega arith)
update_integer-eq [] (v ∷ vs) i w h hi hw = absurd h
update_integer-eq (b ∷ bs) [] i w h hi hw = absurd h
update_integer-eq (b ∷ bs) (v ∷ vs) i w h hi hw =
    let pos = product_pos bs (InRange-Positive bs vs h.1) in
    let (below, fits, rest, digit) = next_weight i w b v (product bs) hi h.0 pos hw in
    rw
      (
        checked_mul-some v w digit,
        checked_add-some i (v * w) (omega arith),
        checked_mul-some w b fits,
      )
      (rw (update_integer-eq bs vs (i + v * w) (w * b) h.1 below rest)
        (ap some (omega (arith, mul_assoc w b (encode bs vs)))))
