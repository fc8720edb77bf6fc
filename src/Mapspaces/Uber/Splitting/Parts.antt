-- ===== src/Mapspaces/Uber/Splitting/Parts.antt =====
-- The splits that `Split` makes (src/mapspaces/uber.cpp), in closed form.
use native.Mathlib.Nat.{mod-lt, mod-eq_of_lt, div-add-mod', add-mul, one-mul, div-le_self}
use timeloop.Prelude.{
  ℕ, zero, suc, ◌+◌, ◌-◌, ◌*◌, ◌/◌, ◌%◌, ◌<◌, ◌≤◌, ◌≡◌, refl, sym, ap, ap₂, ◌∙◌, inl, inr, true,
  false, some, List, [], ◌∷◌, ltb, ◌==◌, if◌then◌else◌, arith, get_elem?, length, Bool-cases,
  lt→ltb, le→ltb, ltb→lt, ltb→le,
}
use timeloop.Prelude.Words.{u32_mod, u128_mod}
use timeloop.Mapspaces.Uber.Splitting.{Part, init_split, split_loop, split}

-- The split with an id of its own, of a mapspace of `size` ids in `n` splits: the first splits, up to
-- the remainder of the last id, have one id more.
abbrev pub part_of : ℕ → ℕ → ℕ → Part
part_of size n i = record {
  split_id = i;
  if_size = if ltb ((size - 1) % n) i then (size - 1) / n else (size - 1) / n + 1;
  num_parent_splits = n;
}

abbrev pub parts_from : ℕ → ℕ → ℕ → ℕ → List Part
parts_from size n zero i = []
parts_from size n (suc left) i = part_of size n i ∷ parts_from size n left (i + 1)

module _ (size n : ℕ) (size_positive : 0 < size) (positive : 0 < n) (fits : size < u128_mod)
    (few : n < u32_mod) where
  pub last_id : size - 1 ≡ (size - 1) / n * n + (size - 1) % n
  last_id = sym (div-add-mod' (size - 1) n)

  rest_low : (size - 1) % n < n
  rest_low = mod-lt (size - 1) positive

  quotient_low : (size - 1) / n < u128_mod
  quotient_low = omega (arith, div-le_self (size - 1) n)

  residue_lem :
      ((1 + (size - 1) / n) % u128_mod * n % u128_mod + u128_mod - size) % u128_mod
      ≡ n - 1 - (size - 1) % n
  residue_lem =
      let q : ℕ = (size - 1) / n in
      let r : ℕ = (size - 1) % n in
      let whole : (1 + q) % u128_mod ≡ 1 + q =
        mod-eq_of_lt (omega (arith, div-le_self (size - 1) n)) in
      let product : (1 + q) * n ≡ n + q * n = add-mul 1 q n ∙ ap (λ t. t + q * n) (one-mul n) in
      rw (whole, product) (omega (arith, last_id, rest_low))

  first_lem :
      (i : ℕ)
      → i < n
      → init_split i
          (if ltb i ((n + u128_mod - (n - 1 - (size - 1) % n)) % u128_mod)
            then 1 + (size - 1) / n
            else (1 + (size - 1) / n + u128_mod - 1) % u128_mod)
          n
        ≡ part_of size n i
  unfolding init_split
  first_lem i h =
      let q : ℕ = (size - 1) / n in
      let r : ℕ = (size - 1) % n in
      let first : (n + u128_mod - (n - 1 - r)) % u128_mod ≡ r + 1 = omega (arith, rest_low) in
      let less : (1 + q + u128_mod - 1) % u128_mod ≡ q = omega (arith, quotient_low) in
      elim (Bool-cases (ltb r i)) [
        | inl e ↦
            let off : ltb i (r + 1) ≡ false = le→ltb i (r + 1) (omega (arith, ltb→lt r i e)) in
            rw (first, off, e, less) refl
        | inr e ↦
            let on : ltb i (r + 1) ≡ true = lt→ltb i (r + 1) (omega (arith, ltb→le r i e)) in
            let swap : 1 + q ≡ q + 1 = omega arith in
            rw (first, on, e) (ap (λ k. init_split i k n) swap)
      ]

  split_loop_lem :
      (left i : ℕ)
      → left + i ≤ n
      → split_loop n (1 + (size - 1) / n) (n - 1 - (size - 1) % n) left i ≡ parts_from size n left i
  unfolding split_loop init_split
  split_loop_lem zero i h = refl
  split_loop_lem (suc left) i h =
      ap₂ ◌∷◌ (first_lem i (omega arith)) (split_loop_lem left (i + 1) (omega arith))

  pub split_eq : split size n ≡ some (parts_from size n n 0)
  unfolding split
  split_eq =
      let some_id : (size == 0) ≡ false = ground arith in
      let some_split : (n == 0) ≡ false = ground arith in
      let whole : (1 + (size - 1) / n) % u128_mod ≡ 1 + (size - 1) / n =
        mod-eq_of_lt (omega (arith, div-le_self (size - 1) n)) in
      let residue : ((1 + (size - 1) / n) * n % u128_mod + u128_mod - size) % u128_mod
          ≡ n - 1 - (size - 1) % n =
        ap (λ t. (t * n % u128_mod + u128_mod - size) % u128_mod) (sym whole) ∙ residue_lem in
      rw (some_id, some_split, lt→ltb n u32_mod few, whole, residue)
        (ap some (split_loop_lem n 0 (omega arith)))

pub length-parts_from : (size n left i : ℕ) → length (parts_from size n left i) ≡ left
length-parts_from size n zero i = refl
length-parts_from size n (suc left) i = ap suc (length-parts_from size n left (i + 1))

pub get-parts_from :
    (size n left i k : ℕ)
    → k < left
    → get_elem? (parts_from size n left i) k ≡ some (part_of size n (k + i))
get-parts_from size n zero i k h = absurd (omega arith)
get-parts_from size n (suc left) i zero h = ap (λ j. some (part_of size n j)) (omega arith)
get-parts_from size n (suc left) i (suc k) h =
    get-parts_from size n left (i + 1) k (omega arith)
    ∙ ap (λ j. some (part_of size n j)) (omega arith)
