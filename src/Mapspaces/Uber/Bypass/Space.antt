-- ===== src/Mapspaces/Uber/Bypass/Space.antt =====
-- `InitDatatypeBypassNestSpace` and `ConstructDatatypeBypassNest` (src/mapspaces/uber.cpp) from end
-- to end.
use native.Mathlib.Nat.{add-suc}
use mathlib.Core.Option.{some-injective}
use timeloop.Prelude.{
  ℕ, zero, suc, ◌+◌, ◌-◌, ◌<◌, ◌≤◌, ◌≡◌, refl, sym, ap, ◌∙◌, subst, inl, inr, false, ◌&&◌, some,
  List, [], ◌∷◌, ltb, ◌==◌, if◌then◌else◌, length, get_elem?, Bool-cases, arith, All, le→leb,
  lt→ltb, ltb→le,
}
use timeloop.Mapspaces.Uber.Bypass.{
  MaskNest, MaskSpec, user_levels, other_levels, data_spaces, seed, init_bypass, max_tiling_levels,
}
use timeloop.Mapspaces.Uber.Bypass.Choices.{fixed, free, Choices, Fitting, Lists}
use timeloop.Mapspaces.Uber.Bypass.Masks.{
  Accepted, row_choice, choice, cut, user_levels_lem, other_levels_lem,
}

row_choice_end :
    (num_levels : ℕ) (specs : List MaskSpec) (l : ℕ)
    → length specs ≤ num_levels
    → row_choice num_levels specs (l + length specs) ≡ (
        if ltb (l + length specs + 1) num_levels
        then free
        else fixed (ltb (l + length specs) num_levels))
row_choice_end num_levels [] l h = refl
row_choice_end num_levels (spec ∷ specs) l h =
    rw (add-suc l (length specs))
      (row_choice_end (num_levels - 1) specs l (omega arith) ∙ ground arith)

-- The bits of the seed.
abbrev seeded : ℕ → ℕ → Choices
seeded num_data_spaces num_levels = λ p l. fixed (ltb p num_data_spaces && ltb l num_levels)

seed-Lists : (d n : ℕ) → Lists (seeded d n) (seed d n ∷ [])
unfolding seed
seed-Lists d n = record {
  sound = go;
  complete = λ nest h. (0, ap some (λ i p l. sym (h p l) i), λ j t. index j t);
}
  where
    go :
        (i : ℕ) (nest : MaskNest)
        → get_elem? (seed d n ∷ []) i ≡ some nest
        → Fitting (seeded d n) nest
    go zero nest h =
        λ p l. subst (λ (m : MaskNest). m p l ≡ seed d n p l) (some-injective _ _ h) refl
    go (suc i) nest h = cc

    index : (j : ℕ) {nest : MaskNest} → get_elem? (seed d n ∷ []) j ≡ some nest → j ≡ 0
    index zero h = refl
    index (suc j) h = cc

module _ (num_levels : ℕ) (target start : Choices) where
  beyond :
      (pvi : ℕ) (specs : List MaskSpec) (l : ℕ)
      → length specs ≤ num_levels
      → num_levels - 1 - length specs + length specs ≤ l
      → start pvi l ≡ fixed (ltb l num_levels)
      → target pvi l ≡ row_choice num_levels specs l
      → start pvi l ≡ target pvi l
  beyond pvi specs l short far was will =
      let place : l - length specs + length specs ≡ l = omega arith in
      let last : ltb (l + 1) num_levels ≡ false = ground arith in
      let e = row_choice_end num_levels specs (l - length specs) short in
      was
      ∙ sym (
          will
          ∙ ap (row_choice num_levels specs) (sym place)
          ∙ e
          ∙ ap (λ n. if ltb (n + 1) num_levels then free else fixed (ltb n num_levels)) place
          ∙ ap (λ b. if b then free else fixed (ltb l num_levels)) last)

  row_end :
      (pvi : ℕ) (specs : List MaskSpec)
      → Accepted num_levels specs
      → ((l : ℕ) → start pvi l ≡ fixed (ltb l num_levels))
      → ((l : ℕ) → target pvi l ≡ row_choice num_levels specs l)
      → cut target start pvi (num_levels - 1 - length specs + length specs)
        ≡ cut target start (pvi + 1) 0
  row_end pvi specs (short, known) was will = λ i p l. go p l i
    where
      go :
          (p l : ℕ)
          → cut target start pvi (num_levels - 1 - length specs + length specs) p l
            ≡ cut target start (pvi + 1) 0 p l
      go p l = elim (Bool-cases (p == pvi)) [
        | inl e ↦
            let here : p ≡ pvi = ground arith in
            let stop = num_levels - 1 - length specs + length specs in
            elim (Bool-cases (ltb l stop)) [
              | inl f ↦ ground arith
              | inr f ↦
                  let same : start p l ≡ target p l =
                    rw here (beyond pvi specs l short (ltb→le l stop f) (was l) (will l)) in
                  ground arith
            ]
        | inr e ↦ ground arith
      ]

  row_lem :
      (pvi : ℕ) (specs : List MaskSpec) (space : List MaskNest)
      → Accepted num_levels specs
      → ((l : ℕ) → start pvi l ≡ fixed (ltb l num_levels))
      → ((l : ℕ) → target pvi l ≡ row_choice num_levels specs l)
      → Lists (cut target start pvi 0) space
      → (edited : List MaskNest) × (user_levels pvi specs 0 space ≡ some edited)
        × Lists
            (cut target start (pvi + 1) 0)
            (other_levels pvi (num_levels - 1 - length specs) (length specs) edited)
  row_lem pvi specs space (short, known) was will lists =
      let left : ℕ = num_levels - 1 - length specs in
      let (edited, run, l) =
        user_levels_lem target start pvi num_levels specs 0 space known
          (λ l h. was (l + 0) ∙ ap fixed (lt→ltb (l + 0) num_levels (omega arith)))
          (λ l. subst (λ n. target pvi n ≡ row_choice num_levels specs l) (omega arith) (will l))
          lists in
      let l' =
        other_levels_lem target start pvi left (length specs) edited
          (λ l h.
            was (l + length specs) ∙ ap fixed (lt→ltb (l + length specs) num_levels (omega arith)))
          (λ l h.
            will (l + length specs)
            ∙ row_choice_end num_levels specs l short
            ∙ ap (λ b. if b then free else fixed (ltb (l + length specs) num_levels))
                (lt→ltb (l + length specs + 1) num_levels (omega arith)))
          (subst (λ n. Lists (cut target start pvi n) edited) (omega arith) l) in
      (
        edited,
        run,
        subst (λ (c : Choices). Lists c (other_levels pvi left (length specs) edited))
            (row_end pvi specs (short, known) was will) l',
      )

  data_spaces_lem :
      (strings : List (List MaskSpec)) (pvi : ℕ) (space : List MaskNest)
      → All (Accepted num_levels) strings
      → ((p l : ℕ) → p < length strings → start (p + pvi) l ≡ fixed (ltb l num_levels))
      → ((p l : ℕ) → target (p + pvi) l ≡ choice num_levels strings p l)
      → Lists (cut target start pvi 0) space
      → (space' : List MaskNest) × (data_spaces num_levels strings pvi space ≡ some space')
        × Lists (cut target start (length strings + pvi) 0) space'
  unfolding data_spaces
  data_spaces_lem [] pvi space ok was will lists =
      (space, refl, subst (λ n. Lists (cut target start n 0) space) (omega arith) lists)
  data_spaces_lem (specs ∷ strings) pvi space ((short, known), others) was will lists =
      let (edited, run, l) =
        row_lem pvi specs space (short, known)
          (λ l.
            subst (λ n. start n l ≡ fixed (ltb l num_levels)) (omega arith) (was 0 l (omega arith)))
          (λ l. subst (λ n. target n l ≡ row_choice num_levels specs l) (omega arith) (will 0 l))
          lists in
      let (space', run', l') =
        data_spaces_lem strings (pvi + 1) _ others
          (λ p l h.
            subst (λ n. start n l ≡ fixed (ltb l num_levels)) (omega arith)
              (was (suc p) l (omega arith)))
          (λ p l.
            subst (λ n. target n l ≡ choice num_levels strings p l) (omega arith) (will (suc p) l))
          l in
      (
        space',
        rw (le→leb (length specs) num_levels short, run, run'),
        subst (λ n. Lists (cut target start n 0) space') (omega arith) l',
      )

choice_beyond :
    (n : ℕ) (strings : List (List MaskSpec)) (p l : ℕ)
    → length strings ≤ p
    → choice n strings p l ≡ fixed false
choice_beyond n [] p l h = refl
choice_beyond n (specs ∷ strings) zero l h = absurd (omega arith)
choice_beyond n (specs ∷ strings) (suc p) l h = choice_beyond n strings p l (omega arith)

pub init-Lists :
    (num_levels : ℕ) (strings : List (List MaskSpec))
    → 0 < num_levels
    → num_levels ≤ max_tiling_levels
    → All (Accepted num_levels) strings
    → (space : List MaskNest) × (init_bypass num_levels strings ≡ some space)
      × Lists (choice num_levels strings) space
unfolding init_bypass
init-Lists num_levels strings positive fits ok =
    let d : ℕ = length strings in
    let target : Choices = choice num_levels strings in
    let start : Choices = seeded d num_levels in
    let (space, run, lists) =
      data_spaces_lem num_levels target start strings 0 (seed d num_levels ∷ []) ok
        (λ p l h. ap fixed (ap (λ b. b && ltb l num_levels) (lt→ltb (p + 0) d (omega arith))))
        (λ p l. ap (λ n. target n l) (omega arith))
        (subst (λ c. Lists c (seed d num_levels ∷ [])) (λ i p l. before p l i)
          (seed-Lists d num_levels)) in
    let positive_levels : (num_levels == 0) ≡ false = ground arith in
    (
      space,
      rw (positive_levels, le→leb num_levels max_tiling_levels fits, run),
      subst (λ c. Lists c space) (λ i p l. after p l i) lists,
    )
  where
    before :
        (p l : ℕ)
        → seeded (length strings) num_levels p l
          ≡ cut (choice num_levels strings) (seeded (length strings) num_levels) 0 0 p l
    before p l = ground arith

    after :
        (p l : ℕ)
        → cut
            (choice num_levels strings)
            (seeded (length strings) num_levels)
            (length strings + 0)
            0
            p
            l
          ≡ choice num_levels strings p l
    after p l = elim (Bool-cases (ltb p (length strings))) [
      | inl e ↦ ground arith
      | inr e ↦
          let far = choice_beyond num_levels strings p l (ltb→le p (length strings) e) in
          ground arith
    ]
