-- ===== src/Mapspaces/Uber/Construct/Rows.antt =====
-- The rows of factors that an id of a Uber mapspace picks (src/mapspaces/subspaces.cpp,
-- src/mapspaces/uber.cpp).
use timeloop.Prelude.{
  ℕ, zero, suc, ◌+◌, ◌*◌, ◌^◌, ◌<◌, ◌≤◌, ◌≡◌, refl, ap, subst, Bool, true, false, Option, some,
  none, List, [], ◌∷◌, length, get_elem?, get_or, All, All-Memᴰ, product, arith,
}
use timeloop.Mapping.Arch.{FanOut}
use timeloop.Numeric.Factors.{Factors}
use timeloop.Mapspaces.Factorizations.Rows.{Picks}
use timeloop.Mapspaces.Splits.{Level}
use timeloop.Mapspaces.Uber.Assign.Nests.{factor_product, AllFactors}
use timeloop.Mapspaces.Uber.Construct.{Uber}

-- A row of a factor set: a factor for each level, positive and an `int`, that reach the bound together.
abbrev pub IsRow : ℕ → ℕ → List ℕ → Type 0
IsRow levels bound row =
    (length row ≡ levels) × All (λ f. (0 < f) × (f < 2 ^ 31)) row × (bound ≤ product row)

abbrev pub Reaches : ℕ → List ℕ → List Factors → Type 0
Reaches levels [] [] = Unit
Reaches levels [] (f ∷ fs) = ⊥
Reaches levels (bound ∷ bounds) [] = ⊥
Reaches levels (bound ∷ bounds) (f ∷ fs) =
    All (IsRow levels bound) f.cofactors × Reaches levels bounds fs

-- The spatial levels have an entry in the split space, a fan-out and a level of the topology.
abbrev pub Entries : Uber → List (Bool × ℕ) → List (Option Level) → Type 0
Entries u [] [] = Unit
Entries u [] (l ∷ ls) = ⊥
Entries u (e ∷ es) [] = ⊥
Entries u ((false, storage) ∷ es) (l ∷ ls) = Entries u es ls
Entries u ((true, storage) ∷ es) (none ∷ ls) = ⊥
Entries u ((true, storage) ∷ es) (some l ∷ ls) =
    ((hardware : FanOut) × (get_elem? u.arch.fanouts storage ≡ some hardware))
    × (u.storage_map storage < u.num_levels)
    × Entries u es ls

pub pick-IsRow :
    (levels : ℕ) (bounds : List ℕ) (fs : List Factors) (rows : List (List ℕ))
    → Reaches levels bounds fs
    → Picks fs rows
    → (d : ℕ) → d < length bounds
    → (row : List ℕ) × (get_elem? rows d ≡ some row) × IsRow levels (get_or bounds d 0) row
pick-IsRow levels [] fs rows r p d h = absurd (omega arith)
pick-IsRow levels (bound ∷ bounds) [] rows r p d h = absurd r
pick-IsRow levels (bound ∷ bounds) (f ∷ fs) [] r p d h = absurd p
pick-IsRow levels (bound ∷ bounds) (f ∷ fs) (row ∷ rows) (now, r) (m, p) zero h =
    (row, refl, All-Memᴰ (IsRow levels bound) now m)
pick-IsRow levels (bound ∷ bounds) (f ∷ fs) (row ∷ rows) (now, r) (m, p) (suc d) h =
    pick-IsRow levels bounds fs rows r p d (omega arith)

pub get_positive :
    (row : List ℕ) (level : ℕ)
    → All (λ f. (0 < f) × (f < 2 ^ 31)) row
    → level < length row
    → (f : ℕ) × (get_elem? row level ≡ some f) × (0 < f) × (f < 2 ^ 31)
get_positive [] level h low = absurd (omega arith)
get_positive (f ∷ row) zero ((a, b), h) low = (f, refl, a, b)
get_positive (f ∷ row) (suc level) (_, h) low = get_positive row level h (omega arith)

module _ (factor : ℕ → ℕ → Option ℕ) where
  pub rows-AllFactors :
      (n level left : ℕ)
      → ((d l : ℕ)
          → d < n
          → l < level + left
          → (f : ℕ) × (factor d l ≡ some f) × (0 < f) × (f < 2 ^ 31))
      → AllFactors factor n level left
  rows-AllFactors n level zero h = tt
  rows-AllFactors n level (suc left) h = (
    λ d low. h d level low (omega arith),
    rows-AllFactors n (level + 1) left (λ d l low k. h d l low (omega arith)),
  )

  pub row_product :
      (d level : ℕ) (row : List ℕ)
      → ((i : ℕ) (f : ℕ) → get_elem? row i ≡ some f → factor d (i + level) ≡ some f)
      → factor_product factor d level (length row) ≡ product row
  row_product d level [] h = refl
  row_product d level (f ∷ row) h =
      let now : factor d level ≡ some f =
        subst (λ l. factor d l ≡ some f) (omega arith) (h 0 f refl) in
      rw now (
        ap (λ t. f * t)
          (row_product d (level + 1) row
            (λ i g e. subst (λ l. factor d l ≡ some g) (omega arith) (h (suc i) g e))))
