-- ===== src/Numeric/Factoradic/Orders.antt =====
-- The orders that `Permute` (include/util/numeric.hpp) makes of a buffer.
use timeloop.Prelude.{
  ℕ, zero, suc, ◌+◌, ◌-◌, ◌*◌, ◌/◌, ◌%◌, ◌≤◌, ◌<◌, ◌≡◌, refl, false, inl, inr, List, [], ◌∷◌, arith,
  Bool-cases, ap, sym, ◌∙◌, subst, ◌==◌, ==_iff, lt→ltb, le→leb, length, some, if◌then◌else◌, leb,
  true,
}
use native.Mathlib.Nat.{
  mul-div_cancel_left, mul_comm, mod-lt, div-lt_iff_lt-mul, add-mul-div_left, div-eq_of_lt,
  add-mul-mod_self_left, mod-eq_of_lt, mul-pos,
}
use timeloop.Prelude.Words.{u64_mod}
use timeloop.Numeric.Factoradic.{
  table_entry, factorial, move_front, behind_front, permute_loop, permute, max_length,
}

-- n!
abbrev pub fact : ℕ → ℕ
fact zero = 1
fact (suc n) = suc n * fact n

pub fact_pos : (n : ℕ) → 0 < fact n
fact_pos zero = omega arith
fact_pos (suc n) = mul-pos (omega arith) (fact_pos n)

pub fact_mono : (m n : ℕ) → m ≤ n → fact m ≤ fact n
fact_mono zero n h = fact_pos n
fact_mono (suc m) zero h = absurd (omega arith)
fact_mono (suc m) (suc n) h = grind (arith, fact_mono m n (omega arith))

-- No product of the table wraps.
pub table_entry-fact : (n : ℕ) → n ≤ max_length → table_entry n ≡ fact n
unfolding table_entry
table_entry-fact zero h = refl
table_entry-fact (suc n) h =
    let small : fact (suc n) < u64_mod = omega (arith, fact_mono (suc n) 20 h) in
    rw (table_entry-fact n (omega arith)) (rw (mul_comm (fact n) (suc n)) (mod-eq_of_lt small))

pub factorial-fact : (n : ℕ) → n ≤ max_length → factorial n ≡ some (fact n)
unfolding factorial
factorial-fact n h =
    let short : leb n max_length ≡ true = le→leb _ _ h in rw (short, table_entry-fact n h)

-- How often a number stands in a list.
abbrev pub count : ℕ → List ℕ → ℕ
count a [] = 0
count a (x ∷ xs) = (if x == a then 1 else 0) + count a xs

-- Two buffers hold the same entries, each as often.
abbrev pub SameItems : List ℕ → List ℕ → Type 0
SameItems xs ys = (a : ℕ) → count a xs ≡ count a ys

-- In range, the moved entry stands in front, and the entries are the same.
move_front_lem :
    (d : ℕ) (xs : List ℕ)
    → d < length xs
    → (c : ℕ) × (rest : List ℕ) × (move_front d xs ≡ c ∷ rest)
      × (length xs ≡ suc (length rest))
      × SameItems xs (c ∷ rest)
unfolding move_front
move_front_lem d [] h = absurd (omega arith)
move_front_lem zero (x ∷ xs) h = (x, xs, refl, refl, λ a. refl)
move_front_lem (suc d) (x ∷ xs) h =
    let (c, rest, eq, len, same) = move_front_lem d xs (omega arith) in
    (c, x ∷ rest, rw eq, omega arith, λ a. omega (arith, same a))

-- The digits of an index: the entry to move, and the index among the rest.
record Digits (n index : ℕ) : Type 0 where
  entry : index / fact n < suc n
  rest : index % fact n < fact n

digits : (n index : ℕ) → index < fact (suc n) → Digits n index
digits n index h = record {
  entry = (div-lt_iff_lt-mul {k = fact n} {x = index} {y = suc n} (fact_pos n)).1 h;
  rest = mod-lt index (fact_pos n);
}

-- One round, by the digits of the index.
permute_loop-suc :
    (n index d low c : ℕ) (xs rest : List ℕ)
    → length xs ≡ suc (suc n)
    → index / fact (suc n) ≡ d
    → index % fact (suc n) ≡ low
    → move_front d xs ≡ c ∷ rest
    → permute_loop (suc n) (fact (suc (suc n))) index xs
      ≡ c ∷ permute_loop n (fact (suc n)) low rest
unfolding permute_loop behind_front
permute_loop-suc n index d low c xs rest l q r e =
    rw (l, mul-div_cancel_left (fact (suc n)) {n = suc (suc n)} (omega arith), q, r, e)

permute_loop-SameItems :
    (n : ℕ) (xs : List ℕ) (index : ℕ)
    → length xs ≡ suc n
    → index < fact (suc n)
    → SameItems xs (permute_loop n (fact (suc n)) index xs)
unfolding permute_loop behind_front
permute_loop-SameItems zero xs index len h = λ a. refl
permute_loop-SameItems (suc n) xs index len h =
    let d = digits (suc n) index h in
    let (c, rest, eq, len', same) = move_front_lem (index / fact (suc n)) xs (rw len d.entry) in
    rw (permute_loop-suc n index _ _ c xs rest len refl refl eq) (λ a.
      same a
      ∙ ap (λ (t : ℕ). (if c == a then 1 else 0) + t)
          (permute_loop-SameItems n rest (index % fact (suc n)) (omega arith) d.rest a))

-- An entry that a list holds can be moved to its front.
find_entry :
    (y : ℕ) (xs : List ℕ)
    → 0 < count y xs
    → (d : ℕ) × (rest : List ℕ) × (d < length xs) × (move_front d xs ≡ y ∷ rest)
unfolding move_front
find_entry y [] h = absurd (omega arith)
find_entry y (x ∷ xs) h = elim (Bool-cases (x == y)) [
  | inl e ↦ (0, xs, omega arith, ap (λ t. t ∷ xs) ((==_iff x y).0 e))
  | inr e ↦
      let (d, rest, lt, eq) = find_entry y xs (ground arith) in
      (suc d, x ∷ rest, omega arith, rw eq)
]

count_self : (y : ℕ) (ys : List ℕ) → count y (y ∷ ys) ≡ suc (count y ys)
count_self y ys = ground arith

SameItems-tail : (c : ℕ) (xs ys : List ℕ) → SameItems (c ∷ xs) (c ∷ ys) → SameItems xs ys
SameItems-tail c xs ys h a = omega (arith, h a)

-- The index whose digits are `d` and those of `index`.
compose :
    (n d index : ℕ)
    → d < suc n
    → index < fact n
    → (d * fact n + index < fact (suc n))
      × ((d * fact n + index) / fact n ≡ d)
      × ((d * fact n + index) % fact n ≡ index)
compose n d index h k =
    let F = fact n in
    let eq : d * F + index ≡ index + F * d = omega arith in
    (
      grind arith,
      rw eq (add-mul-div_left index d {y = F} (fact_pos n) ∙ rw (div-eq_of_lt k) (omega arith)),
      rw eq (add-mul-mod_self_left index F d ∙ mod-eq_of_lt k),
    )

single :
    (xs : List ℕ) (y : ℕ) (ys : List ℕ)
    → length xs ≡ 1
    → length ys ≡ 0
    → SameItems xs (y ∷ ys)
    → xs ≡ y ∷ ys
single [] y ys l m s = absurd (omega arith)
single (x ∷ []) y [] l m s =
    ap (λ t. t ∷ []) ((==_iff x y).0 (ground (arith, s y, count_self y [])))
single (x ∷ []) y (z ∷ ys) l m s = absurd (omega arith)
single (x ∷ z ∷ xs) y ys l m s = absurd (omega arith)

permute_loop-finds :
    (n : ℕ) (xs ys : List ℕ)
    → length xs ≡ suc n
    → length ys ≡ suc n
    → SameItems xs ys
    → (index : ℕ) × (index < fact (suc n)) × (permute_loop n (fact (suc n)) index xs ≡ ys)
unfolding permute_loop behind_front
permute_loop-finds n xs [] l m s = absurd (omega arith)
permute_loop-finds zero xs (y ∷ ys) l m s =
    (0, omega arith, single xs y ys (omega arith) (omega arith) s)
permute_loop-finds (suc n) xs (y ∷ ys) l m s =
    let (d, rest, lt, eq) = find_entry y xs (omega (arith, s y, count_self y ys)) in
    let (c, rest', eq', len, same) = move_front_lem d xs lt in
    let e : c ∷ rest' ≡ y ∷ rest = sym eq' ∙ eq in
    let same' : SameItems xs (y ∷ rest) = subst (λ t. SameItems xs t) e same in
    let (index, below, found) =
      permute_loop-finds n rest ys (omega (arith, ap length e)) (omega arith)
        (λ a. omega (arith, s a, same' a)) in
    let (small, quot, remd) = compose (suc n) d index (omega arith) below in
    (
      d * fact (suc n) + index,
      small,
      permute_loop-suc n _ d index y xs rest l quot remd eq ∙ ap (λ t. y ∷ t) found,
    )

permute_run :
    (x : ℕ) (xs : List ℕ) (index : ℕ)
    → suc (length xs) ≤ max_length
    → index < fact (suc (length xs))
    → permute (x ∷ xs) index
      ≡ some (permute_loop (length xs) (fact (suc (length xs))) index (x ∷ xs))
unfolding permute
permute_run x xs index le h =
    let some_entries : (suc (length xs) == 0) ≡ false = ground arith in
    let rounds : suc (length xs) - 1 ≡ length xs = omega arith in
    rw (some_entries, le→leb _ _ le, table_entry-fact (suc (length xs)) le, lt→ltb _ _ h, rounds)

-- Take two buffers of the same length, not empty and within the factorial table. `Permute` returns
-- for every index below `length!` a buffer with the same entries, each as often; and if the second
-- buffer has the entries of the first, each as often, `Permute` returns it at some such index.
pub permute_lem :
    (xs ys : List ℕ)
    → 0 < length xs
    → length xs ≤ max_length
    → length ys ≡ length xs
    → ((index : ℕ)
        → index < fact (length xs)
        → (zs : List ℕ) × (permute xs index ≡ some zs) × SameItems xs zs)
      × (SameItems xs ys → (index : ℕ) × (index < fact (length xs)) × (permute xs index ≡ some ys))
permute_lem [] ys pos le len = absurd (omega arith)
permute_lem (x ∷ xs) ys pos le len = (
  (λ index h. (
    permute_loop (length xs) (fact (suc (length xs))) index (x ∷ xs),
    permute_run x xs index le h,
    permute_loop-SameItems (length xs) (x ∷ xs) index refl h,
  )),
  λ same.
      let (index, h, found) = permute_loop-finds (length xs) (x ∷ xs) ys refl len same in
      (index, h, permute_run x xs index le h ∙ ap some found),
)
