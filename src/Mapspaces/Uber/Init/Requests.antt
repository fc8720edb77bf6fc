-- ===== src/Mapspaces/Uber/Init/Requests.antt =====
-- The requests of `InitIndexFactorizationSpace` (src/mapspaces/uber.cpp).
use mathlib.Core.List.Memᴰ
use mathlib.Core.Option.{some-injective}
use timeloop.Prelude.{
  ℕ, zero, suc, ◌+◌, ◌<◌, ◌≤◌, ◌≡◌, ◌⊎◌, ◌↔◌, refl, sym, ap, ◌∙◌, ap₂, ◌≢◌, subst, inl, inr, Bool,
  true, false, not, Option, some, none, List, [], ◌∷◌, Memᴰ, ◌==◌, if◌then◌else◌, guard, ◌>>=◌,
  ◌>>◌, arith, Bool-cases, Option-cases,
}
use timeloop.Mapspaces.Uber.Init.{
  UserFactor, remaining, exactly, prefactor_step, prefactors_from, limit_step, limits_from,
}

-- The levels where the user leaves a dimension what remains of it.
abbrev pub is_remaining : Option UserFactor → ℕ
is_remaining none = 0
is_remaining (some remaining) = 1
is_remaining (some (exactly f)) = 0

abbrev pub remaining_count : (ℕ → Option UserFactor) → ℕ → ℕ → ℕ
remaining_count user zero level = 0
remaining_count user (suc left) level =
    is_remaining (user level) + remaining_count user left (level + 1)

-- A list has the entries of a map at these levels, and no other.
abbrev pub Copies {ℓ} : {A : Type ℓ} → (ℕ → A) → (ℕ → A) → ℕ → ℕ → List (ℕ × ℕ) → Type ℓ
Copies user value left level xs =
    (l f : ℕ) → Memᴰ (l, f) xs ↔ ((level ≤ l) × (l < left + level) × (user l ≡ value f))

exactly-injective : {a b : ℕ} → some (exactly a) ≡ some (exactly b) → a ≡ b
exactly-injective h = cc

factor_cases :
    (x : Option UserFactor) → (x ≡ none) ⊎ ((x ≡ some remaining) ⊎ (g : ℕ) × (x ≡ some (exactly g)))
factor_cases none = inl refl
factor_cases (some remaining) = inr (inl refl)
factor_cases (some (exactly g)) = inr (inr (g, refl))

-- One level more: no entry, or one.
Copies-skip :
    {A : Type 0} (user value : ℕ → A) (left level : ℕ) (xs : List (ℕ × ℕ))
    → ((f : ℕ) → user level ≢ value f)
    → Copies user value left (level + 1) xs
    → Copies user value (suc left) level xs
Copies-skip user value left level xs other h l f = (
  λ m. let (a, b, e) = (h l f).0 m in (omega arith, omega arith, e),
  λ (a, b, e). elim (Bool-cases (level == l)) [
    | inl s ↦ let same : l ≡ level = ground arith in absurd (other f (ap user (sym same) ∙ e))
    | inr s ↦ (h l f).1 (ground arith, omega arith, e)
  ],
)

Copies-cons :
    {A : Type 0} (user value : ℕ → A) (left level g : ℕ) (xs : List (ℕ × ℕ))
    → user level ≡ value g
    → ((f : ℕ) → value g ≡ value f → g ≡ f)
    → Copies user value left (level + 1) xs
    → Copies user value (suc left) level ((level, g) ∷ xs)
Copies-cons user value left level g xs here injective h l f = (
  forth,
  λ (a, b, e). elim (Bool-cases (level == l)) [
    | inl s ↦
        let same : level ≡ l = ground arith in
        let equal : g ≡ f = injective f (sym here ∙ ap user same ∙ e) in
        Memᴰ.head (ap₂ (λ x y. (x, y)) (sym same) (sym equal))
    | inr s ↦ Memᴰ.tail ((h l f).1 (ground arith, omega arith, e))
  ],
)
  where
    forth :
        Memᴰ (l, f) ((level, g) ∷ xs) → (level ≤ l) × (l < suc left + level) × (user l ≡ value f)
    forth (Memᴰ.head e) =
        let x : l ≡ level = ap (λ (p : ℕ × ℕ). p.0) e in
        let y : f ≡ g = ap (λ (p : ℕ × ℕ). p.1) e in
        (omega arith, omega arith, ap user x ∙ here ∙ ap value (sym y))
    forth (Memᴰ.tail m) = let (a, b, e) = (h l f).0 m in (omega arith, omega arith, e)

pub limits_from-Copies :
    (user : ℕ → Option ℕ) (left level : ℕ)
    → Copies user some left level (limits_from user left level)
unfolding limits_from limit_step
limits_from-Copies user zero level =
    λ l f. (λ m. absurd (Memᴰ.not-nil m), λ (a, b, e). absurd (omega arith))
limits_from-Copies user (suc left) level = elim (Option-cases (user level)) [
  | inl e ↦ rw e (
      Copies-skip user some left level _ (λ f k. none-some (sym e ∙ k))
        (limits_from-Copies user left (level + 1)))
  | inr (g, e) ↦ rw e (
      Copies-cons user some left level g _ e (λ f k. some-injective _ _ k)
        (limits_from-Copies user left (level + 1)))
]
  where
    none-some : {f : ℕ} → none ≡ some f → ⊥
    none-some k = cc

-- What comes of the fixed factors: where at most one level takes what remains, the entries of the
-- map, and otherwise the failed assertion.
abbrev pub Handed : (ℕ → Option UserFactor) → ℕ → ℕ → Option (List (ℕ × ℕ)) → ℕ → Type 0
Handed user left level result count =
    (count ≤ 1
      → (xs : List (ℕ × ℕ)) × (result ≡ some xs)
        × Copies user (λ f. some (exactly f)) left level xs)
    × (1 < count → result ≡ none)

abbrev pub flag : Bool → ℕ
flag exhausted = if exhausted then 1 else 0

Handed-skip :
    (user : ℕ → Option UserFactor) (left level count : ℕ) (result : Option (List (ℕ × ℕ)))
    → ((f : ℕ) → user level ≢ some (exactly f))
    → Handed user left (level + 1) result count
    → Handed user (suc left) level result count
Handed-skip user left level count result other h = (
  λ k.
      let (xs, e, copies) = h.0 k in
      (xs, e, Copies-skip user (λ f. some (exactly f)) left level xs other copies),
  λ k. h.1 k,
)

Handed-cons :
    (user : ℕ → Option UserFactor) (left level count g : ℕ) (result : Option (List (ℕ × ℕ)))
    → user level ≡ some (exactly g)
    → Handed user left (level + 1) result count
    → Handed user (suc left) level (result >>= (λ rest. some ((level, g) ∷ rest))) count
Handed-cons user left level count g result here h = (
  λ k.
      let (xs, e, copies) = h.0 k in
      (
        (level, g) ∷ xs,
        ap (λ r. r >>= (λ rest. some ((level, g) ∷ rest))) e,
        Copies-cons user (λ f. some (exactly f)) left level g xs here (λ f. exactly-injective)
            copies,
      ),
  λ k. ap (λ r. r >>= (λ rest. some ((level, g) ∷ rest))) (h.1 k),
)

pub prefactors_from-Handed :
    (user : ℕ → Option UserFactor) (left level : ℕ) (exhausted : Bool)
    → Handed user left level
        (prefactors_from user left level exhausted)
        (flag exhausted + remaining_count user left level)
unfolding prefactors_from prefactor_step
prefactors_from-Handed user zero level true = (
  λ h. ([], refl, λ l f. (λ m. absurd (Memᴰ.not-nil m), λ (a, b, e). absurd (omega arith))),
  λ h. absurd (omega arith),
)
prefactors_from-Handed user zero level false = (
  λ h. ([], refl, λ l f. (λ m. absurd (Memᴰ.not-nil m), λ (a, b, e). absurd (omega arith))),
  λ h. absurd (omega arith),
)
prefactors_from-Handed user (suc left) level exhausted = elim (factor_cases (user level)) [
  | inl e ↦
      subst
        (λ x.
          Handed user (suc left) level (prefactor_step x level exhausted later)
            (flag exhausted + (is_remaining x + remaining_count user left (level + 1))))
        (sym e)
        (recount (
          Handed-skip user left level _ _ (λ f k. none-other (sym e ∙ k))
            (prefactors_from-Handed user left (level + 1) exhausted)))
  | inr (inl e) ↦
      subst
        (λ x.
          Handed user (suc left) level (prefactor_step x level exhausted later)
            (flag exhausted + (is_remaining x + remaining_count user left (level + 1))))
        (sym e)
        (Handed-rest (λ f k. remaining-other (sym e ∙ k)) exhausted
          (prefactors_from-Handed user left (level + 1) true))
  | inr (inr (g, e)) ↦
      subst
        (λ x.
          Handed user (suc left) level (prefactor_step x level exhausted later)
            (flag exhausted + (is_remaining x + remaining_count user left (level + 1))))
        (sym e)
        (recount (
          Handed-cons user left level _ g _ e
            (prefactors_from-Handed user left (level + 1) exhausted)))
]
  where
    later : Bool → Option (List (ℕ × ℕ))
    later = prefactors_from user left (level + 1)

    recount :
        {r : Option (List (ℕ × ℕ))}
        → Handed user (suc left) level r (flag exhausted + remaining_count user left (level + 1))
        → Handed user
            (suc left)
            level
            r
            (flag exhausted + (0 + remaining_count user left (level + 1)))
    recount {r} h = subst (Handed user (suc left) level r) (omega arith) h

    none-other : {f : ℕ} → none ≡ some (exactly f) → ⊥
    none-other k = cc

    remaining-other : {f : ℕ} → some remaining ≡ some (exactly f) → ⊥
    remaining-other k = cc

    Handed-rest :
        ((f : ℕ) → user level ≢ some (exactly f))
        → (b : Bool)
        → Handed user left (level + 1) (later true) (1 + remaining_count user left (level + 1))
        → Handed user
            (suc left)
            level
            (guard (not b) >> later true)
            (flag b + (1 + remaining_count user left (level + 1)))
    Handed-rest other true h = (λ k. absurd (omega arith), λ k. refl)
    Handed-rest other false h =
        let same : 1 + remaining_count user left (level + 1)
            ≡ 0 + (1 + remaining_count user left (level + 1)) =
          omega arith in
        subst (Handed user (suc left) level (later true)) same
          (Handed-skip user left level _ _ other h)
