-- ===== src/Mapspaces/Uber/Assign/Nests.antt =====
-- `AssignIndexFactors` over all levels (src/mapspaces/uber.cpp).
use native.Mathlib.Nat.{mul-pos, mul-one}
use timeloop.Prelude.{
  ℕ, zero, suc, ◌+◌, ◌-◌, ◌*◌, ◌<◌, ◌≤◌, ◌≡◌, refl, sym, ap, ap₂, ◌∙◌, subst, inl, inr, false,
  Option, some, none, List, [], ◌∷◌, ◌++◌, ltb, ◌==◌, if◌then◌else◌, length, get_or, All, map,
  arith, Bool-cases, ltb→lt, ltb→le, All-append,
}
use timeloop.Mapping.Loops.{Descriptor}
use timeloop.Mapspaces.Uber.Assign.{assign_levels, backwards, outer_first}
use timeloop.Mapspaces.Uber.Assign.Recurrence.{Step-cover, Step-short, Step-sum}
use timeloop.Mapspaces.Uber.Assign.Levels.{
  of_dim, of_dim-skip, shape, Sound, Factors, Taken, assign_level_lem,
}
use timeloop.Mapspaces.Uber.Assign.Sums.{
  end_product, terms, terms-append, end_product-append, backwards_one,
}

-- Each of `n` dimensions has one loop at the level, and there is no other.
abbrev pub EachOnce : ℕ → List Descriptor → Type 0
EachOnce n nest =
    All (λ loop. loop.dimension < n) nest × ((d : ℕ) → d < n → length (of_dim d nest) ≡ 1)

-- The product of the factors of a dimension at `left` levels from `level` on.
abbrev pub factor_or : Option ℕ → ℕ
factor_or none = 0
factor_or (some f) = f

abbrev pub factor_product : (ℕ → ℕ → Option ℕ) → ℕ → ℕ → ℕ → ℕ
factor_product factor d level zero = 1
factor_product factor d level (suc left) =
    factor_or (factor d level) * factor_product factor d (level + 1) left

-- Each dimension has a factor at each of these levels.
abbrev pub AllFactors : (ℕ → ℕ → Option ℕ) → ℕ → ℕ → ℕ → Type 0
AllFactors factor n level zero = Unit
AllFactors factor n level (suc left) = Factors factor n level × AllFactors factor n (level + 1) left

above_none :
    (n d : ℕ) (nest : List Descriptor)
    → All (λ loop. loop.dimension < n) nest
    → n ≤ d
    → of_dim d nest ≡ []
above_none n d [] h k = refl
above_none n d (loop ∷ loops) (low, h) k =
    let e : (loop.dimension == d) ≡ false = ground arith in
    of_dim-skip d loop loops e ∙ above_none n d loops h k

at_most_once :
    (n : ℕ) (nest : List Descriptor) → EachOnce n nest → (d : ℕ) → length (of_dim d nest) ≤ 1
at_most_once n nest (dims, once) d = elim (Bool-cases (ltb d n)) [
  | inl e ↦ omega (arith, once d (ltb→lt d n e))
  | inr e ↦ omega (arith, ap length (above_none n d nest dims (ltb→le d n e)))
]

the_loop : (xs : List Descriptor) → length xs ≡ 1 → (x : Descriptor) × (xs ≡ x ∷ [])
the_loop [] h = cc
the_loop (x ∷ []) h = (x, refl)
the_loop (x ∷ y ∷ ys) h = absurd (omega arith)

factor_product-pos :
    (factor : ℕ → ℕ → Option ℕ) (n level left d : ℕ)
    → AllFactors factor n level left
    → d < n
    → 0 < factor_product factor d level left
factor_product-pos factor n level zero d h k = omega arith
factor_product-pos factor n level (suc left) d (h, hs) k =
    let (f, e, positive, _) = h d k in
    rw e (mul-pos positive (factor_product-pos factor n (level + 1) left d hs k))

-- What the levels do to one dimension.
pub record Along (factor : ℕ → ℕ → Option ℕ) (level left d before after : ℕ)
    (loops : List Descriptor) : Type 0 where
  pub after_positive : 0 < after
  pub sum : before ≡ 1 + terms d loops + (after - 1) * end_product d loops
  pub covered : before ≤ factor_product factor d level left → after ≡ 1
  pub short : factor_product factor d level left < before → 1 < after

Along-none :
    (factor : ℕ → ℕ → Option ℕ) (level d before : ℕ)
    → 0 < before
    → Along factor level 0 d before before []
unfolding end_product
Along-none factor level d before positive = record {
  after_positive = positive;
  sum = omega (arith, mul-one (before - 1));
  covered = λ h. omega arith;
  short = λ h. h;
}

Along-cons :
    (factor : ℕ → ℕ → Option ℕ) (n level left d before middle after : ℕ) (nest : List Descriptor)
    (loop : Descriptor) (loops : List Descriptor)
    → of_dim d nest ≡ loop ∷ []
    → AllFactors factor n (level + 1) left
    → d < n
    → Taken factor level d before middle loop
    → Along factor (level + 1) left d middle after loops
    → Along factor level (suc left) d before after (loops ++ backwards nest)
Along-cons factor n level left d before middle after nest loop loops single factors low
      (f, e, taken, step) along =
    let (p, t) = backwards_one d nest loop single in
    let product : factor_product factor d level (suc left)
        ≡ f * factor_product factor d (level + 1) left =
      ap (λ o. factor_or o * factor_product factor d (level + 1) left) e in
    let rest : ℕ = factor_product factor d (level + 1) left in
    let rest_positive : 0 < rest = factor_product-pos factor n (level + 1) left d factors low in
    let end_low : loop.end ≤ f = elim (Bool-cases (ltb before f)) [
      | inl b ↦ omega (arith, taken ∙ ap (λ b. if b then before else f) b, ltb→lt before f b)
      | inr b ↦ omega (arith, taken ∙ ap (λ b. if b then before else f) b)
    ] in
    record {
      after_positive = along.after_positive;
      sum =
          Step-sum before loop.end loop.residual_end middle (terms d loops) (end_product d loops)
            after step along.sum
          ∙ sym (
              ap₂ (λ x y. 1 + x + (after - 1) * y)
                (terms-append d loops (backwards nest) ∙ rw (p, t) refl)
                (end_product-append d loops (backwards nest) ∙ rw p refl));
      covered = λ h. along.covered (
          Step-cover before f loop.end loop.residual_end middle rest step taken rest_positive
            (subst (λ k. before ≤ k) product h));
      short = λ h. along.short (
          Step-short before f loop.end loop.residual_end middle rest step end_low
            (subst (λ k. k < before) product h));
    }

backwards-Sound : (nest : List Descriptor) → All Sound nest → All Sound (backwards nest)
unfolding backwards
backwards-Sound [] h = tt
backwards-Sound (loop ∷ loops) (x, h) =
    All-append Sound (backwards loops) (loop ∷ []) (backwards-Sound loops h) (x, tt)

pub assign_levels_lem :
    (factor : ℕ → ℕ → Option ℕ) (n level : ℕ) (nests : List (List Descriptor)) (remaining : List ℕ)
    → All (EachOnce n) nests
    → length remaining ≡ n
    → ((d : ℕ) → d < n → 0 < get_or remaining d 0)
    → AllFactors factor n level (length nests)
    → (nests' : List (List Descriptor)) × (remaining' : List ℕ) × (assign_levels factor level nests
          remaining
        ≡ some (nests', remaining'))
      × (length remaining' ≡ n)
      × (map (map shape) nests' ≡ map (map shape) nests)
      × All Sound (outer_first nests')
      × ((d : ℕ)
          → d < n
          → Along factor level
              (length nests)
              d
              (get_or remaining d 0)
              (get_or remaining' d 0)
              (outer_first nests'))
unfolding assign_levels outer_first
assign_levels_lem factor n level [] remaining once len positive factors =
    ([], remaining, refl, len, refl, tt, λ d low. Along-none factor level d _ (positive d low))
assign_levels_lem factor n level (nest ∷ nests) remaining (once, others) len positive
      (factors, later) =
    let (dims, single) = once in
    let (nest', remaining', run, len', kept, sound, changes) =
      assign_level_lem factor level nest remaining
        (subst (λ m. All (λ loop. loop.dimension < m) nest) (sym len) dims)
        (at_most_once n nest once) (λ d low. positive d (omega arith))
        (subst (λ m. Factors factor m level) (sym len) factors) in
    let (nests', remaining'', run', len'', kept', sound', along) =
      assign_levels_lem factor n (level + 1) nests remaining' others (len' ∙ len)
        (λ d low.
          let (loop, e) = the_loop (of_dim d nest) (single d low) in
          let (loop', e', (f, e'', taken, step)) = (changes d).1 loop e in step.left_positive)
        later in
    (
      nest' ∷ nests',
      remaining'',
      rw (run, run') refl,
      len'',
      ap₂ ◌∷◌ kept kept',
      All-append Sound (outer_first nests') (backwards nest') sound' (backwards-Sound nest' sound),
      λ d low.
          let (loop, e) = the_loop (of_dim d nest) (single d low) in
          let (loop', e', taken) = (changes d).1 loop e in
          Along-cons factor n level (length nests) d (get_or remaining d 0) (get_or remaining' d 0)
            (get_or remaining'' d 0) nest' loop' (outer_first nests') e' later low taken
            (along d low),
    )
