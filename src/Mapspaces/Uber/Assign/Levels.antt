-- ===== src/Mapspaces/Uber/Assign/Levels.antt =====
-- One level of `AssignIndexFactors` (src/mapspaces/uber.cpp), dimension by dimension.
use timeloop.Prelude.{
  ℕ, ◌^◌, ◌<◌, ◌≤◌, ◌≡◌, ◌≢◌, refl, sym, ap, ap₂, ◌∙◌, subst, inl, inr, true, false, Option, some,
  List, [], ◌∷◌, ltb, ◌==◌, if◌then◌else◌, length, get_or, set, All, map, arith, Bool-cases, lt→ltb,
  ==_ne, length-set, get_or-set_same, get_or-set_other, get_elem?-eq-get_or,
}
use timeloop.Mapping.Loops.{Descriptor}
use timeloop.Mapspaces.Uber.Assign.{int_of, residual_of, left_after, assign_loop, assign_level}
use timeloop.Mapspaces.Uber.Assign.Recurrence.{Step, step_lem}

-- The loops of a dimension.
abbrev pub of_dim : ℕ → List Descriptor → List Descriptor
of_dim d [] = []
of_dim d (loop ∷ loops) =
    let rest : List Descriptor = of_dim d loops in if loop.dimension == d then loop ∷ rest else rest

-- What a level's loops keep: all but the two ends.
abbrev pub shape : Descriptor → Descriptor
shape loop = record loop { end = 0; residual_end = 0 }

abbrev pub Sound : Descriptor → Type 0
Sound loop = (0 < loop.end) × (0 < loop.residual_end) × (loop.residual_end ≤ loop.end)

-- Every dimension below `n` has a factor at the level that is positive and an `int`.
abbrev pub Factors : (ℕ → ℕ → Option ℕ) → ℕ → ℕ → Type 0
Factors factor n level =
    (d : ℕ) → d < n → (f : ℕ) × (factor d level ≡ some f) × (0 < f) × (f < 2 ^ 31)

-- What a loop of this dimension has become.
abbrev pub Taken : (ℕ → ℕ → Option ℕ) → ℕ → ℕ → ℕ → ℕ → Descriptor → Type 0
Taken factor level d before after loop =
    (f : ℕ) × (factor d level ≡ some f)
    × (loop.end ≡ (if ltb before f then before else f))
    × Step before loop.end loop.residual_end after

abbrev pub Changes :
    (ℕ → ℕ → Option ℕ) → ℕ → List Descriptor → List ℕ → List Descriptor → List ℕ → ℕ → Type 0
Changes factor level nest remaining nest' remaining' d =
    (of_dim d nest ≡ [] → (of_dim d nest' ≡ []) × (get_or remaining' d 0 ≡ get_or remaining d 0))
    × ((loop : Descriptor)
        → of_dim d nest ≡ loop ∷ []
        → (loop' : Descriptor) × (of_dim d nest' ≡ loop' ∷ [])
          × Taken factor level d (get_or remaining d 0) (get_or remaining' d 0) loop')

assign_loop_lem :
    (factor : ℕ → ℕ → Option ℕ) (level : ℕ) (loop : Descriptor) (remaining : List ℕ)
    → loop.dimension < length remaining
    → 0 < get_or remaining loop.dimension 0
    → Factors factor (length remaining) level
    → (loop' : Descriptor) × (left : ℕ) × (assign_loop factor level loop remaining
        ≡ some (loop', set remaining loop.dimension left))
      × (loop'.dimension ≡ loop.dimension)
      × (shape loop' ≡ shape loop)
      × Taken factor level loop.dimension (get_or remaining loop.dimension 0) left loop'
unfolding assign_loop int_of
assign_loop_lem factor level loop remaining low positive factors =
    let d : ℕ = loop.dimension in
    let before : ℕ = get_or remaining d 0 in
    let (f, e, f_positive, f_low) = factors d low in
    let end : ℕ = if ltb before f then before else f in
    let end_positive : 0 < end = ground arith in
    let some_end : (end == 0) ≡ false = ground arith in
    let read = get_elem?-eq-get_or remaining d 0 low in
    (
      record loop { end = end; residual_end = residual_of before end },
      left_after before end,
      rw (e, lt→ltb f (2 ^ 31) f_low, read, some_end) refl,
      refl,
      refl,
      (f, e, refl, step_lem before end positive end_positive),
    )

pub of_dim-here :
    (d : ℕ) (loop : Descriptor) (loops : List Descriptor)
    → (loop.dimension == d) ≡ true
    → of_dim d (loop ∷ loops) ≡ loop ∷ of_dim d loops
of_dim-here d loop loops e = rw e refl

pub of_dim-skip :
    (d : ℕ) (loop : Descriptor) (loops : List Descriptor)
    → (loop.dimension == d) ≡ false
    → of_dim d (loop ∷ loops) ≡ of_dim d loops
of_dim-skip d loop loops e = rw e refl

of_dim-length :
    (d : ℕ) (loop : Descriptor) (loops : List Descriptor)
    → length (of_dim d loops) ≤ length (of_dim d (loop ∷ loops))
of_dim-length d loop loops = elim (Bool-cases (loop.dimension == d)) [
  | inl e ↦ rw e (omega arith)
  | inr e ↦ rw e (omega arith)
]

pub none_left : (xs : List Descriptor) → length xs ≤ 0 → xs ≡ []
none_left [] h = refl
none_left (x ∷ xs) h = absurd (omega arith)

-- One loop more, before loops that the level has been through.
Changes-cons :
    (factor : ℕ → ℕ → Option ℕ) (level : ℕ) (loop loop' : Descriptor)
    (loops loops' : List Descriptor) (remaining remaining' : List ℕ) (left d : ℕ)
    → length (of_dim d (loop ∷ loops)) ≤ 1
    → loop.dimension < length remaining'
    → loop'.dimension ≡ loop.dimension
    → get_or remaining' loop.dimension 0 ≡ get_or remaining loop.dimension 0
    → Taken factor level loop.dimension (get_or remaining' loop.dimension 0) left loop'
    → Changes factor level loops remaining loops' remaining' d
    → Changes factor level
        (loop ∷ loops)
        remaining
        (loop' ∷ loops')
        (set remaining' loop.dimension left)
        d
Changes-cons factor level loop loop' loops loops' remaining remaining' left d few low same old taken
      (none_there, one_there) =
    elim (Bool-cases (loop.dimension == d)) [
      | inl e ↦
          let here : loop.dimension ≡ d = ground arith in
          let e' : (loop'.dimension == d) ≡ true = subst (λ n. (n == d) ≡ true) (sym same) e in
          let cons = of_dim-here d loop loops e in
          let empty : of_dim d loops ≡ [] = none_left _ (omega (arith, few, ap length cons)) in
          let (empty', _) = none_there empty in
          (
            λ h. absurd (cons-nil (sym cons ∙ h)),
            λ l h. (
              loop',
              of_dim-here d loop' loops' e' ∙ ap (λ xs. loop' ∷ xs) empty',
              subst (λ n. Taken factor level d (get_or remaining d 0) n loop')
                  (sym (
                    ap (λ n. get_or (set remaining' n left) d 0) here
                    ∙ get_or-set_same remaining' d left 0 (omega arith)))
                  (subst (λ n. Taken factor level n (get_or remaining n 0) left loop') here
                    (subst (λ n. Taken factor level loop.dimension n left loop') old taken)),
            ),
          )
      | inr e ↦
          let apart : loop.dimension ≢ d = ==_ne loop.dimension d e in
          let e' : (loop'.dimension == d) ≡ false = subst (λ n. (n == d) ≡ false) (sym same) e in
          let skip = of_dim-skip d loop loops e in
          let skip' = of_dim-skip d loop' loops' e' in
          let kept = get_or-set_other remaining' loop.dimension d left 0 apart in
          (
            λ h. let (x, y) = none_there (sym skip ∙ h) in (skip' ∙ x, kept ∙ y),
            λ l h.
                let (l', x, t) = one_there l (sym skip ∙ h) in
                (
                  l',
                  skip' ∙ x,
                  subst (λ n. Taken factor level d (get_or remaining d 0) n l') (sym kept) t,
                ),
          )
    ]
  where
    cons-nil : {x : Descriptor} {xs : List Descriptor} → x ∷ xs ≡ [] → ⊥
    cons-nil h = cc

-- A level whose loops are of dimensions below the number of bounds, each once at most.
pub assign_level_lem :
    (factor : ℕ → ℕ → Option ℕ) (level : ℕ) (nest : List Descriptor) (remaining : List ℕ)
    → All (λ loop. loop.dimension < length remaining) nest
    → ((d : ℕ) → length (of_dim d nest) ≤ 1)
    → ((d : ℕ) → d < length remaining → 0 < get_or remaining d 0)
    → Factors factor (length remaining) level
    → (nest' : List Descriptor) × (remaining' : List ℕ) × (assign_level factor level nest remaining
        ≡ some (nest', remaining'))
      × (length remaining' ≡ length remaining)
      × (map shape nest' ≡ map shape nest)
      × All Sound nest'
      × ((d : ℕ) → Changes factor level nest remaining nest' remaining' d)
unfolding assign_level
assign_level_lem factor level [] remaining dims few positive factors =
    ([], remaining, refl, refl, refl, tt, λ d. (λ h. (refl, refl), λ l h. cc))
assign_level_lem factor level (loop ∷ loops) remaining (low, dims) few positive factors =
    let (loops', remaining', run, len, shapes, sound, changes) =
      assign_level_lem factor level loops remaining dims
        (λ d. omega (arith, few d, of_dim-length d loop loops)) positive factors in
    let d : ℕ = loop.dimension in
    let self : (d == d) ≡ true = ground arith in
    let empty : of_dim d loops ≡ [] =
      none_left _ (omega (arith, few d, ap length (of_dim-here d loop loops self))) in
    let old : get_or remaining' d 0 ≡ get_or remaining d 0 = ((changes d).0 empty).1 in
    let low' : d < length remaining' = omega arith in
    let (loop', left, run', same, kept, taken) =
      assign_loop_lem factor level loop remaining' low'
        (subst (λ n. 0 < n) (sym old) (positive d low))
        (subst (λ n. Factors factor n level) (sym len) factors) in
    let (_, _, _, step) = taken in
    (
      loop' ∷ loops',
      set remaining' d left,
      rw (run, run') refl,
      length-set remaining' d left ∙ len,
      ap₂ ◌∷◌ kept shapes,
      ((step.end_positive, step.residual_positive, step.residual_low), sound),
      λ c.
          Changes-cons factor level loop loop' loops loops' remaining remaining' left c (few c) low'
            same old taken (changes c),
    )
