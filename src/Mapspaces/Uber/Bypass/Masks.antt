-- ===== src/Mapspaces/Uber/Bypass/Masks.antt =====
-- The loops of `InitDatatypeBypassNestSpace` (src/mapspaces/uber.cpp) over the data spaces and levels.
use timeloop.Prelude.{
  ℕ, zero, suc, ◌+◌, ◌-◌, ◌<◌, ◌≤◌, ◌≡◌, refl, sym, ap, ◌∙◌, subst, true, false, ◌&&◌, ◌||◌, some,
  List, [], ◌∷◌, map, ltb, ◌==◌, if◌then◌else◌, length, arith, All,
}
use timeloop.Mapspaces.Uber.Bypass.{
  MaskNest, MaskSpec, bypass, keep, evaluate_both, unknown, set_bit, expand, apply_spec,
  user_levels, other_levels,
}
use timeloop.Mapspaces.Uber.Bypass.Choices.{
  Choice, fixed, free, Choices, choose, Lists, fix-Lists, expand-Lists,
}

-- What a character asks of a bit, and an unspecified level: both values, but 1 at the outermost.
abbrev pub spec_choice : MaskSpec → Choice
spec_choice bypass = fixed false
spec_choice keep = fixed true
spec_choice evaluate_both = free
spec_choice unknown = free

abbrev pub row_choice : ℕ → List MaskSpec → ℕ → Choice
row_choice num_levels [] l = if ltb (l + 1) num_levels then free else fixed (ltb l num_levels)
row_choice num_levels (spec ∷ specs) zero = spec_choice spec
row_choice num_levels (spec ∷ specs) (suc l) = row_choice (num_levels - 1) specs l

abbrev pub choice : ℕ → List (List MaskSpec) → ℕ → ℕ → Choice
choice num_levels [] p l = fixed false
choice num_levels (specs ∷ strings) zero l = row_choice num_levels specs l
choice num_levels (specs ∷ strings) (suc p) l = choice num_levels strings p l

abbrev pub IsKnown : MaskSpec → Type 0
IsKnown unknown = ⊥
IsKnown _ = Unit

-- A string that the two assertions let through.
abbrev pub Accepted : ℕ → List MaskSpec → Type 0
Accepted num_levels specs = (length specs ≤ num_levels) × All IsKnown specs

-- The choices of `target` at the places done, those of `start` at the others.
abbrev pub cut : Choices → Choices → ℕ → ℕ → Choices
cut target start pvi level =
    λ p l. if ltb p pvi || ((p == pvi) && ltb l level) then target p l else start p l

module _ (target start : Choices) (pvi : ℕ) where
  cut_step :
      (level : ℕ)
      → choose pvi level (target pvi level) (cut target start pvi level)
        ≡ cut target start pvi (level + 1)
  cut_step level = λ i p l. go p l i
    where
      go :
          (p l : ℕ)
          → choose pvi level (target pvi level) (cut target start pvi level) p l
            ≡ cut target start pvi (level + 1) p l
      go p l = ground arith

  cut_here : (level : ℕ) → cut target start pvi level pvi level ≡ start pvi level
  cut_here level = ground arith

  cut-Lists :
      (level : ℕ) (x : Choice) (space : List MaskNest)
      → target pvi level ≡ x
      → Lists (choose pvi level x (cut target start pvi level)) space
      → Lists (cut target start pvi (level + 1)) space
  cut-Lists level x space e lists =
      subst (λ k. Lists k space)
        (ap (λ y. choose pvi level y (cut target start pvi level)) (sym e) ∙ cut_step level) lists

  edit_lem :
      (spec : MaskSpec) (level : ℕ) (space : List MaskNest)
      → IsKnown spec
      → start pvi level ≡ fixed true
      → target pvi level ≡ spec_choice spec
      → Lists (cut target start pvi level) space
      → (space' : List MaskNest) × (apply_spec pvi level spec space ≡ some space')
        × Lists (cut target start pvi (level + 1)) space'
  unfolding apply_spec
  edit_lem bypass level space known was will lists = (
    map (set_bit pvi level false) space,
    refl,
    cut-Lists level (fixed false) _ will (
        fix-Lists space (cut target start pvi level) pvi level true false lists
          (cut_here level ∙ was)),
  )
  edit_lem keep level space known was will lists = (
    map (set_bit pvi level true) space,
    refl,
    cut-Lists level (fixed true) _ will (
        fix-Lists space (cut target start pvi level) pvi level true true lists
          (cut_here level ∙ was)),
  )
  edit_lem evaluate_both level space known was will lists = (
    expand pvi level space,
    refl,
    cut-Lists level free _ will (
        expand-Lists space (cut target start pvi level) pvi level true lists
          (cut_here level ∙ was)),
  )
  edit_lem unknown level space known was will lists = absurd known

  pub user_levels_lem :
      (num_levels : ℕ) (specs : List MaskSpec) (level : ℕ) (space : List MaskNest)
      → All IsKnown specs
      → ((l : ℕ) → l < length specs → start pvi (l + level) ≡ fixed true)
      → ((l : ℕ) → target pvi (l + level) ≡ row_choice num_levels specs l)
      → Lists (cut target start pvi level) space
      → (space' : List MaskNest) × (user_levels pvi specs level space ≡ some space')
        × Lists (cut target start pvi (length specs + level)) space'
  unfolding user_levels
  user_levels_lem num_levels [] level space known was will lists =
      (space, refl, subst (λ n. Lists (cut target start pvi n) space) (omega arith) lists)
  user_levels_lem num_levels (spec ∷ specs) level space (known, others) was will lists =
      let first : start pvi level ≡ fixed true =
        subst (λ n. start pvi n ≡ fixed true) (omega arith) (was 0 (omega arith)) in
      let aim : target pvi level ≡ spec_choice spec =
        subst (λ n. target pvi n ≡ spec_choice spec) (omega arith) (will 0) in
      let (edited, run, l) = edit_lem spec level space known first aim lists in
      let (space', run', l') =
        user_levels_lem (num_levels - 1) specs (level + 1) edited others
          (λ l h. subst (λ n. start pvi n ≡ fixed true) (omega arith) (was (suc l) (omega arith)))
          (λ l.
            subst (λ n. target pvi n ≡ row_choice (num_levels - 1) specs l) (omega arith)
              (will (suc l)))
          l in
      (space', rw (run, run'), subst (λ n. Lists (cut target start pvi n) space') (omega arith) l')

  pub other_levels_lem :
      (left level : ℕ) (space : List MaskNest)
      → ((l : ℕ) → l < left → start pvi (l + level) ≡ fixed true)
      → ((l : ℕ) → l < left → target pvi (l + level) ≡ free)
      → Lists (cut target start pvi level) space
      → Lists (cut target start pvi (left + level)) (other_levels pvi left level space)
  unfolding other_levels
  other_levels_lem zero level space was will lists =
      subst (λ n. Lists (cut target start pvi n) space) (omega arith) lists
  other_levels_lem (suc left) level space was will lists =
      let first : start pvi level ≡ fixed true =
        subst (λ n. start pvi n ≡ fixed true) (omega arith) (was 0 (omega arith)) in
      let aim : target pvi level ≡ free =
        subst (λ n. target pvi n ≡ free) (omega arith) (will 0 (omega arith)) in
      subst
        (λ n.
          Lists (cut target start pvi n)
            (other_levels pvi left (level + 1) (expand pvi level space)))
        (omega arith)
        (other_levels_lem left (level + 1) (expand pvi level space)
          (λ l h. subst (λ n. start pvi n ≡ fixed true) (omega arith) (was (suc l) (omega arith)))
          (λ l h. subst (λ n. target pvi n ≡ free) (omega arith) (will (suc l) (omega arith)))
          (cut-Lists level free _ aim (
            expand-Lists space (cut target start pvi level) pvi level true lists
              (cut_here level ∙ first))))
