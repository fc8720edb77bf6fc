-- ===== src/Mapspaces/Uber/Bypass/Choices.antt =====
-- The masks of the data-type bypass space (`InitDatatypeBypassNestSpace` of src/mapspaces/uber.cpp).
use mathlib.Core.Bool.{true≢false}
use timeloop.Prelude.{
  ℕ, ◌+◌, ◌≡◌, refl, sym, ap, ◌∙◌, subst, inl, inr, Bool, true, false, some, List, map,
  if◌then◌else◌, length, get_elem?, Bool-cases, arith, get_elem?-lt-length, get_elem?-map,
  get_elem?-map-some, get_elem?-append_left, get_elem?-append_right, get_elem?-append_cases,
}
use timeloop.Mapspaces.Uber.Bypass.{MaskNest, is_place, set_bit, expand}

-- What a bit may be.
pub data Choice : Type 0 where
  fixed : Bool → Choice
  free : Choice

abbrev pub Fits : Choice → Bool → Type 0
Fits (fixed b) x = x ≡ b
Fits free x = Unit

abbrev pub Choices : Type 0
Choices = ℕ → ℕ → Choice

abbrev pub Fitting : (ℕ → ℕ → Choice) → MaskNest → Type 0
Fitting c nest = (p l : ℕ) → Fits (c p l) (nest p l)

abbrev pub Only : List MaskNest → MaskNest → Type 0
Only space nest =
    (i : ℕ) × (get_elem? space i ≡ some nest) × ((j : ℕ) → get_elem? space j ≡ some nest → j ≡ i)

-- The space holds the nests that fit, each once.
pub record Lists (c : Choices) (space : List MaskNest) : Type 0 where
  pub sound : (i : ℕ) (nest : MaskNest) → get_elem? space i ≡ some nest → Fitting c nest
  pub complete : (nest : MaskNest) → Fitting c nest → Only space nest

abbrev pub choose : ℕ → ℕ → Choice → Choices → Choices
choose pvi level x c = λ p l. if is_place pvi level p l then x else c p l

is_place_refl : (pvi level : ℕ) → is_place pvi level pvi level ≡ true
is_place_refl pvi level = ground arith

pub is_place-eq : (pvi level p l : ℕ) → is_place pvi level p l ≡ true → (p ≡ pvi) × (l ≡ level)
is_place-eq pvi level p l h = ground arith

set_bit-here : (pvi level : ℕ) (b : Bool) (nest : MaskNest) → set_bit pvi level b nest pvi level ≡ b
unfolding set_bit
set_bit-here pvi level b nest = rw (is_place_refl pvi level)

set_bit_back :
    (pvi level : ℕ) (b d : Bool) (nest : MaskNest)
    → nest pvi level ≡ b
    → set_bit pvi level b (set_bit pvi level d nest) ≡ nest
unfolding set_bit
set_bit_back pvi level b d nest h = λ i p l. go p l i
  where
    go :
        (p l : ℕ)
        → (if is_place pvi level p l then b else if is_place pvi level p l then d else nest p l)
          ≡ nest p l
    go p l = elim (Bool-cases (is_place pvi level p l)) [
      | inl e ↦ let (x, y) = is_place-eq pvi level p l e in rw e (rw x (rw y (sym h)))
      | inr e ↦ rw e refl
    ]

set_bit_other :
    (pvi level : ℕ) (b : Bool) (nest : MaskNest) (c : Choices)
    → Fitting c nest
    → Fitting (choose pvi level free c) (set_bit pvi level b nest)
unfolding set_bit
set_bit_other pvi level b nest c h p l = elim (Bool-cases (is_place pvi level p l)) [
  | inl e ↦ rw e tt
  | inr e ↦ rw e (h p l)
]

-- A nest that fits where one place is free fits again with that place set as before.
set_bit_restore :
    (pvi level : ℕ) (b : Bool) (nest : MaskNest) (c : Choices)
    → c pvi level ≡ fixed b
    → Fitting (choose pvi level free c) nest
    → Fitting c (set_bit pvi level b nest)
unfolding set_bit
set_bit_restore pvi level b nest c known h p l = elim (Bool-cases (is_place pvi level p l)) [
  | inl e ↦ let (x, y) = is_place-eq pvi level p l e in rw e (rw x (rw y (rw known refl)))
  | inr e ↦
      let t : Fits (if is_place pvi level p l then free else c p l) (nest p l) = h p l in
      rw e (subst (λ z. Fits (if z then free else c p l) (nest p l)) e t)
]

module _ (space : List MaskNest) (c : Choices) (pvi level : ℕ) where
  -- One half of the space that an edit makes.
  half_sound :
      (b : Bool) (i : ℕ) (nest : MaskNest)
      → Lists c space
      → get_elem? (map (set_bit pvi level b) space) i ≡ some nest
      → (nest pvi level ≡ b) × Fitting (choose pvi level free c) nest
  half_sound b i nest lists h =
      let (old, e, made) = get_elem?-map-some (set_bit pvi level b) space i h in
      subst (λ (n : MaskNest). (n pvi level ≡ b) × Fitting (choose pvi level free c) n) made
        (set_bit-here pvi level b old, set_bit_other pvi level b old c (lists.sound i old e))

  half_complete :
      (b d : Bool) (nest : MaskNest)
      → Lists c space
      → c pvi level ≡ fixed d
      → nest pvi level ≡ b
      → Fitting (choose pvi level free c) nest
      → Only (map (set_bit pvi level b) space) nest
  half_complete b d nest lists known bit h =
      let (i, e, only) =
        lists.complete (set_bit pvi level d nest) (set_bit_restore pvi level d nest c known h) in
      (
        i,
        get_elem?-map (set_bit pvi level b) space i e
            ∙ ap some (set_bit_back pvi level b d nest bit),
        λ j t.
            let (old, e', made) = get_elem?-map-some (set_bit pvi level b) space j t in
            let was : old pvi level ≡ d =
              subst (λ x. Fits x (old pvi level)) known (lists.sound j old e' pvi level) in
            only j (
              e'
              ∙ ap some (sym (set_bit_back pvi level d b old was) ∙ ap (set_bit pvi level d) made)),
      )

-- The rest fits and the bit is this: the nest fits where the bit is fixed.
fix_choice :
    (c : Choices) (pvi level : ℕ) (b : Bool) (nest : MaskNest)
    → nest pvi level ≡ b
    → Fitting (choose pvi level free c) nest
    → Fitting (choose pvi level (fixed b) c) nest
fix_choice c pvi level b nest bit h p l = elim (Bool-cases (is_place pvi level p l)) [
  | inl e ↦ let (x, y) = is_place-eq pvi level p l e in rw e (rw x (rw y bit))
  | inr e ↦ rw e (subst (λ z. Fits (if z then free else c p l) (nest p l)) e (h p l))
]

free_choice :
    (c : Choices) (pvi level : ℕ) (b : Bool) (nest : MaskNest)
    → Fitting (choose pvi level (fixed b) c) nest
    → (nest pvi level ≡ b) × Fitting (choose pvi level free c) nest
free_choice c pvi level b nest h = (
  subst (λ z. Fits (if z then fixed b else c pvi level) (nest pvi level)) (is_place_refl pvi level)
      (h pvi level),
  λ p l. elim (Bool-cases (is_place pvi level p l)) [
    | inl e ↦ rw e tt
    | inr e ↦ rw e (subst (λ z. Fits (if z then fixed b else c p l) (nest p l)) e (h p l))
  ],
)

module _ (space : List MaskNest) (c : Choices) (pvi level : ℕ) (d : Bool) where
  pub fix-Lists :
      (b : Bool)
      → Lists c space
      → c pvi level ≡ fixed d
      → Lists (choose pvi level (fixed b) c) (map (set_bit pvi level b) space)
  fix-Lists b lists known = record {
    sound = λ i nest h.
        let (bit, rest) = half_sound space c pvi level b i nest lists h in
        fix_choice c pvi level b nest bit rest;
    complete = λ nest h.
        let (bit, rest) = free_choice c pvi level b nest h in
        half_complete space c pvi level b d nest lists known bit rest;
  }

  pub expand-Lists :
      Lists c space
      → c pvi level ≡ fixed d
      → Lists (choose pvi level free c) (expand pvi level space)
  unfolding expand
  expand-Lists lists known =
      let resets : List MaskNest = map (set_bit pvi level false) space in
      let sets : List MaskNest = map (set_bit pvi level true) space in
      record {
        sound = λ i nest h. elim (get_elem?-append_cases resets sets i h) [
          | inl (_, t) ↦ (half_sound space c pvi level false i nest lists t).1
          | inr (j, _, t) ↦ (half_sound space c pvi level true j nest lists t).1
        ];
        complete = λ nest h. elim (Bool-cases (nest pvi level)) [
          | inl e ↦
              let (i, t, only) = half_complete space c pvi level true d nest lists known e h in
              (
                length resets + i,
                get_elem?-append_right resets sets i ∙ t,
                λ j u. elim (get_elem?-append_cases resets sets j u) [
                  | inl (_, v) ↦
                      absurd
                        (true≢false (sym e ∙ (half_sound space c pvi level false j nest lists v).0))
                  | inr (k, place, v) ↦ place ∙ ap (λ n. length resets + n) (only k v)
                ],
              )
          | inr e ↦
              let (i, t, only) = half_complete space c pvi level false d nest lists known e h in
              (
                i,
                get_elem?-append_left resets sets i (get_elem?-lt-length _ i t) ∙ t,
                λ j u. elim (get_elem?-append_cases resets sets j u) [
                  | inl (_, v) ↦ only j v
                  | inr (k, _, v) ↦
                      absurd (
                        true≢false (sym ((half_sound space c pvi level true k nest lists v).0) ∙ e))
                ],
              )
        ];
      }
