-- ===== src/Numeric/Tiling.antt =====
-- SmallestFactor and GetTiling (src/util/numeric.cpp): close-to-square layouts of an array.
mod Tests
use timeloop.Prelude.{
  ℕ, zero, suc, ◌+◌, ◌-◌, ◌*◌, ◌/◌, ◌%◌, ◌≤◌, ◌<◌, ◌≡◌, refl, Bool, true, false, ◌⊎◌, inl, inr,
  Option, none, some, ltb, ◌==◌, if◌then◌else◌, ◌>>=◌, arith, Bool-cases, lt→ltb, le→ltb, ltb→lt,
  ltb→le, ◌∙◌, ap, List, [], ◌∷◌, product, not, ==_iff, ==_ne, sym, subst,
}
use native.Mathlib.Nat.{
  div-add-mod, mul_comm, mul_assoc, mul_left_comm, mod-eq_of_lt, le-mul_of_pos_right, mul-pos,
}
use native.Mathlib.Decide.{ℕ_discrete}
use timeloop.Prelude.Words.{u64_mod}

-- The loop of `SmallestFactor` from `i` on, with the rounds left: the factor and the quotient.
pub smallest_loop : ℕ → ℕ → ℕ → ℕ × ℕ
smallest_loop zero i n = (n, 1)
smallest_loop (suc rounds) i n =
    let rest = smallest_loop rounds (i + 1) n in if n % i == 0 then (i, n / i) else rest

-- `SmallestFactor`: `i` goes from 2 up to `n - 1`.
pub smallest_factor : ℕ → ℕ × ℕ
unfolding smallest_loop
smallest_factor n = smallest_loop (n - 2) 2 n

-- The `while` loop of `GetTiling`, on fuel: the factors, first one first.
pub factor_list : ℕ → ℕ → Option (List ℕ)
factor_list zero residue = none
factor_list (suc fuel) residue =
    let (factor, rest) = smallest_factor residue in
    let more = (factor_list fuel rest >>= λ fs. some (factor ∷ fs)) in
    if ltb 1 residue then more else some []

-- The loop that multiplies the factors at even places into one side, the others into the other.
pub sides : Bool → List ℕ → ℕ × ℕ → ℕ × ℕ
sides even [] (height, width) = (height, width)
sides even (f ∷ fs) (height, width) =
    sides (not even) fs
      (if even then (height * f % u64_mod, width) else (height, width * f % u64_mod))

-- `GetTiling`: height and width.
pub get_tiling : ℕ → Option (ℕ × ℕ)
get_tiling num_elems = do
  factors ← factor_list (num_elems + 1) num_elems
  let (height, width) = sides true factors (1, 1)
  some (if ltb width height then (width, height) else (height, width))

-- The factor is the least divisor from 2 on, and the quotient goes with it.
record Smallest (n factor quotient : ℕ) : Type 0 where
  splits : factor * quotient ≡ n
  proper : 2 ≤ factor
  least : (d : ℕ) → 2 ≤ d → d < factor → ¬ (n % d ≡ 0)

smallest_loop_lem :
    (rounds i n : ℕ)
    → i + rounds ≡ n
    → 2 ≤ i
    → ((d : ℕ) → 2 ≤ d → d < i → ¬ (n % d ≡ 0))
    → Smallest n (smallest_loop rounds i n).0 (smallest_loop rounds i n).1
unfolding smallest_loop
smallest_loop_lem zero i n e two clear = record {
  splits = omega arith;
  proper = omega arith;
  least = λ d lo hi. clear d lo (omega arith);
}
smallest_loop_lem (suc rounds) i n e two clear = elim (Bool-cases (n % i == 0)) [
  | inl hit ↦
      let z = (==_iff (n % i) 0).0 hit in
      rw hit (record { splits = omega (arith, div-add-mod n i); proper = two; least = clear })
  | inr miss ↦ rw miss (
      smallest_loop_lem rounds (i + 1) n (omega arith) (omega arith) (λ d lo hi.
        elim (ℕ_discrete d i) [
          | yes same ↦ subst (λ t. ¬ (n % t ≡ 0)) (sym same) (==_ne _ _ miss)
          | no other ↦ clear d lo (omega arith)
        ]))
]

-- For a number from 2 on, `SmallestFactor` returns its least divisor from 2 on, and the quotient.
pub smallest_factor_lem :
    (n : ℕ)
    → 2 ≤ n
    → ((smallest_factor n).0 * (smallest_factor n).1 ≡ n)
      × (2 ≤ (smallest_factor n).0)
      × ((d : ℕ) → 2 ≤ d → d < (smallest_factor n).0 → ¬ (n % d ≡ 0))
unfolding smallest_factor
smallest_factor_lem n h =
    let s =
      smallest_loop_lem (n - 2) 2 n (omega arith) (omega arith) (λ d lo hi. absurd (omega arith)) in
    (s.splits, s.proper, s.least)

factor_list_lem :
    (fuel n : ℕ)
    → n < fuel
    → 0 < n
    → (fs : List ℕ) × (factor_list fuel n ≡ some fs) × (product fs ≡ n)
unfolding factor_list
factor_list_lem zero n h pos = absurd (omega arith)
factor_list_lem (suc fuel) n h pos = elim (Bool-cases (ltb 1 n)) [
  | inl more ↦
      let (eq, two, _) = smallest_factor_lem n (ltb→lt 1 n more) in
      let f = (smallest_factor n).0 in
      let q = (smallest_factor n).1 in
      let qpos : 0 < q = grind arith in
      let less : q < n = grind arith in
      let (fs, run, prod) = factor_list_lem fuel q (omega arith) qpos in
      (f ∷ fs, rw (more, run), ap (λ (t : ℕ). f * t) prod ∙ eq)
  | inr done ↦ ([], rw done, omega (arith, ltb→le 1 n done))
]

side_fits :
    (h w f p n : ℕ) → 0 < w → 0 < p → h * w * (f * p) ≡ n → n < u64_mod → h * f % u64_mod ≡ h * f
side_fits h w f p n hw hp e k =
    let swap : h * f * (w * p) ≡ n = omega arith in
    let le : h * f ≤ h * f * (w * p) = le-mul_of_pos_right (h * f) (mul-pos hw hp) in
    mod-eq_of_lt (omega arith)

pos_parts : (a b n : ℕ) → 0 < n → a * b ≡ n → (0 < a) × (0 < b)
pos_parts a b n h e = (grind arith, grind arith)

-- The two sides multiply to the number, and no product wraps.
sides_lem :
    (even : Bool) (fs : List ℕ) (h w n : ℕ)
    → 0 < n
    → n < u64_mod
    → h * w * product fs ≡ n
    → (sides even fs (h, w)).0 * (sides even fs (h, w)).1 ≡ n
unfolding sides
sides_lem even [] h w n pos k e = omega arith
sides_lem true (f ∷ fs) h w n pos k e =
    let (hw, fp) = pos_parts (h * w) (f * product fs) n pos e in
    let (hh, ww) = pos_parts h w (h * w) hw refl in
    let (ff, pp) = pos_parts f (product fs) (f * product fs) fp refl in
    rw (side_fits h w f (product fs) n ww pp e k, sides)
      (sides_lem false fs (h * f) w n pos k (omega arith))
sides_lem false (f ∷ fs) h w n pos k e =
    let (hw, fp) = pos_parts (h * w) (f * product fs) n pos e in
    let (hh, ww) = pos_parts h w (h * w) hw refl in
    let (ff, pp) = pos_parts f (product fs) (f * product fs) fp refl in
    rw (side_fits w h f (product fs) n hh pp (omega arith) k, sides)
      (sides_lem true fs h (w * f) n pos k (omega arith))

-- For a number of elements from 1 up to 2 ^ 64 - 1 the loop of `GetTiling` ends, and its height and
-- width multiply to that number, with the height at most the width.
pub get_tiling_lem :
    (n : ℕ) → 0 < n → n < u64_mod → (h w : ℕ) × (get_tiling n ≡ some (h, w)) × (h * w ≡ n) × (h ≤ w)
unfolding get_tiling
get_tiling_lem n pos k =
    let (fs, run, prod) = factor_list_lem (n + 1) n (omega arith) pos in
    let eq = sides_lem true fs 1 1 n pos k (omega arith) in
    let r = sides true fs (1, 1) in
    elim (Bool-cases (ltb r.1 r.0)) [
      | inl e ↦ (r.1, r.0, rw (run, e), omega arith, omega (arith, ltb→lt _ _ e))
      | inr e ↦ (r.0, r.1, rw (run, e), eq, ltb→le _ _ e)
    ]
