-- ===== src/Mapspaces/Splits/Ids.antt =====
-- `GetSplits` and `Size` of SpatialSplitSpace (src/mapspaces/subspaces.cpp), and the levels
-- that they read.
use native.Mathlib.Nat.{mod-lt, mod-eq_of_lt, mul_assoc, le-mul_of_pos_right, mul-pos}
use timeloop.Prelude.{
  ℕ, ◌+◌, ◌-◌, ◌*◌, ◌/◌, ◌%◌, ◌<◌, ◌≤◌, ◌≡◌, refl, sym, subst, ap, ◌∙◌, false, Option, some, none,
  List, [], ◌∷◌, ◌==◌, length, arith, ltb, lt→ltb, true, ◌↔◌,
}
use timeloop.Prelude.Words.{u32_mod, u128_mod}
use timeloop.Numeric.Counter.Digits.{div_digit, mod_digit, digit_bound}
use timeloop.Mapspaces.Splits.{
  Level, user_specified, variable, level_size, SplitSpace, split_at, splits_loop, get_splits,
  size_product, size_of, init_level, init_level_user_specified, set_level,
}

-- A size that is positive, and splits in 32 bits.
abbrev pub FitsLevel : Level → Type 0
FitsLevel (user_specified split) = Unit
FitsLevel (variable unit_factors size) = (0 < size) × (unit_factors + size ≤ u32_mod)

-- The levels from one on have these entries, or none.
abbrev pub Describes : SplitSpace → ℕ → List (Option Level) → Type 0
Describes s level [] = Unit
Describes s level (none ∷ ls) = (s.levels level ≡ none) × Describes s (level + 1) ls
Describes s level (some e ∷ ls) =
    (s.levels level ≡ some e) × FitsLevel e × Describes s (level + 1) ls

-- The number of choices.
abbrev pub choices : List (Option Level) → ℕ
choices [] = 1
choices (none ∷ ls) = choices ls
choices (some e ∷ ls) = level_size e * choices ls

-- The splits of a level: the user's, or those from its unit factors on.
abbrev pub Admits : Level → ℕ → Type 0
Admits (user_specified split) v = v ≡ split
Admits (variable unit_factors size) v = (unit_factors ≤ v) × (v < unit_factors + size)

-- One split for each level that has an entry, in the order of the levels.
abbrev pub Chosen : ℕ → List (Option Level) → List (ℕ × ℕ) → Type 0
Chosen level [] [] = Unit
Chosen level [] (x ∷ xs) = ⊥
Chosen level (none ∷ ls) xs = Chosen (level + 1) ls xs
Chosen level (some e ∷ ls) [] = ⊥
Chosen level (some e ∷ ls) ((l, v) ∷ xs) = (l ≡ level) × Admits e v × Chosen (level + 1) ls xs

size_pos : (e : Level) → FitsLevel e → 0 < level_size e
size_pos (user_specified split) f = omega arith
size_pos (variable unit_factors size) f = f.0

choices_pos :
    (s : SplitSpace) (level : ℕ) (ls : List (Option Level)) → Describes s level ls → 0 < choices ls
choices_pos s level [] d = omega arith
choices_pos s level (none ∷ ls) d = choices_pos s (level + 1) ls d.1
choices_pos s level (some e ∷ ls) (known, fits, d) =
    mul-pos (size_pos e fits) (choices_pos s (level + 1) ls d)

variable_step :
    (unit_factors size id digit : ℕ)
    → 0 < size
    → unit_factors + size ≤ u32_mod
    → id % size ≡ digit
    → digit < size
    → split_at (variable unit_factors size) id ≡ some (unit_factors + digit, id / size)
unfolding split_at
variable_step unit_factors size id digit pos fits e below =
    let ne : (size == 0) ≡ false = ground arith in
    let small : digit % u32_mod ≡ digit = mod-eq_of_lt (omega arith) in
    let sum : (unit_factors + digit) % u32_mod ≡ unit_factors + digit =
      mod-eq_of_lt (omega arith) in
    rw (ne, e, small, sum)

split_at-Admits :
    (e : Level) (id : ℕ)
    → FitsLevel e
    → (v : ℕ) × (split_at e id ≡ some (v, id / level_size e)) × Admits e v
unfolding split_at
split_at-Admits (user_specified split) id f =
    (split, ap (λ (t : ℕ). some (split, t)) (omega arith), refl)
split_at-Admits (variable unit_factors size) id (pos, fits) =
    let below = mod-lt id pos in
    (
      unit_factors + id % size,
      variable_step unit_factors size id (id % size) pos fits refl below,
      (omega arith, omega arith),
    )

split_at-finds :
    (e : Level) (v rest : ℕ)
    → FitsLevel e
    → Admits e v
    → (digit : ℕ) × (digit < level_size e)
      × (split_at e (digit + level_size e * rest) ≡ some (v, rest))
unfolding split_at
split_at-finds (user_specified split) v rest f a =
    (0, omega arith, rw a (ap (λ (t : ℕ). some (split, t)) (omega arith)))
split_at-finds (variable unit_factors size) v rest (pos, fits) (low, high) =
    let digit : ℕ = v - unit_factors in
    let below : digit < size = omega arith in
    let back : unit_factors + digit ≡ v = omega arith in
    (
      digit,
      below,
      variable_step unit_factors size (digit + size * rest) digit pos fits
            (mod_digit digit size rest below) below
          ∙ rw (back, div_digit digit size rest below),
    )

splits_loop-Chosen :
    (s : SplitSpace) (level : ℕ) (ls : List (Option Level)) (id : ℕ)
    → Describes s level ls
    → (xs : List (ℕ × ℕ)) × (splits_loop s (length ls) level id ≡ some xs) × Chosen level ls xs
unfolding splits_loop
splits_loop-Chosen s level [] id d = ([], refl, tt)
splits_loop-Chosen s level (none ∷ ls) id (known, d) =
    let (xs, run, chosen) = splits_loop-Chosen s (level + 1) ls id d in (xs, rw known run, chosen)
splits_loop-Chosen s level (some e ∷ ls) id (known, fits, d) =
    let (v, now, admitted) = split_at-Admits e id fits in
    let (xs, run, chosen) = splits_loop-Chosen s (level + 1) ls (id / level_size e) d in
    ((level, v) ∷ xs, rw (known, now, run), (refl, admitted, chosen))

splits_loop-finds :
    (s : SplitSpace) (level : ℕ) (ls : List (Option Level)) (xs : List (ℕ × ℕ))
    → Describes s level ls
    → Chosen level ls xs
    → (id : ℕ) × (id < choices ls) × (splits_loop s (length ls) level id ≡ some xs)
unfolding splits_loop
splits_loop-finds s level [] [] d c = (0, omega arith, refl)
splits_loop-finds s level [] (x ∷ xs) d c = absurd c
splits_loop-finds s level (none ∷ ls) xs (known, d) c =
    let (id, below, run) = splits_loop-finds s (level + 1) ls xs d c in (id, below, rw known run)
splits_loop-finds s level (some e ∷ ls) [] d c = absurd c
splits_loop-finds s level (some e ∷ ls) ((l, v) ∷ xs) (known, fits, d) (same, admitted, c) =
    let (rest, below, run) = splits_loop-finds s (level + 1) ls xs d c in
    let (digit, small, now) = split_at-finds e v rest fits admitted in
    (
      digit + level_size e * rest,
      digit_bound digit (level_size e) rest (choices ls) small below,
      rw (known, now, run, same),
    )

size_product-choices :
    (s : SplitSpace) (level : ℕ) (ls : List (Option Level)) (product : ℕ)
    → Describes s level ls
    → product * choices ls < u128_mod
    → size_product s (length ls) level product ≡ product * choices ls
unfolding size_product
size_product-choices s level [] product d h = omega arith
size_product-choices s level (none ∷ ls) product (known, d) h =
    rw known (size_product-choices s (level + 1) ls product d h)
size_product-choices s level (some e ∷ ls) product (known, fits, d) h =
    let f : ℕ = level_size e in
    let eq : product * f * choices ls ≡ product * (f * choices ls) =
      mul_assoc product f (choices ls) in
    let le : product * f ≤ product * f * choices ls =
      le-mul_of_pos_right (product * f) (choices_pos s (level + 1) ls d) in
    let small : product * f % u128_mod ≡ product * f = mod-eq_of_lt (omega arith) in
    rw (known, small) (size_product-choices s (level + 1) ls (product * f) d (omega arith) ∙ eq)

-- A space whose levels all have an entry with a positive size and splits in 32 bits, or none, and
-- whose choices fit in 128 bits: `Size` is the number of choices of one split for each entry;
-- `GetSplits` succeeds at every id below it, with a choice, and it gives every choice at some id
-- below it. A choice has the user's split, or one from the unit factors on, as many as the size.
pub get_splits_lem :
    (s : SplitSpace) (ls : List (Option Level))
    → s.num_levels ≡ length ls
    → Describes s 0 ls
    → choices ls < u128_mod
    → (size_of s ≡ choices ls)
      × ((id : ℕ)
          → id < choices ls
          → (xs : List (ℕ × ℕ)) × (get_splits s id ≡ some xs) × Chosen 0 ls xs)
      × ((xs : List (ℕ × ℕ))
          → Chosen 0 ls xs
          → (id : ℕ) × (id < choices ls) × (get_splits s id ≡ some xs))
unfolding get_splits size_of
get_splits_lem s ls levels d fits =
    let one : 1 * choices ls ≡ choices ls = omega arith in
    (
      subst (λ n. size_product s n 0 1 ≡ choices ls) (sym levels)
          (size_product-choices s 0 ls 1 d (omega arith) ∙ one),
      λ id below.
          subst (λ n. (xs : List (ℕ × ℕ)) × (splits_loop s n 0 id ≡ some xs) × Chosen 0 ls xs)
            (sym levels) (splits_loop-Chosen s 0 ls id d),
      λ xs c.
          subst (λ n. (id : ℕ) × (id < choices ls) × (splits_loop s n 0 id ≡ some xs)) (sym levels)
            (splits_loop-finds s 0 ls xs d c),
    )

-- On a level in range, with no more unit factors than dimensions: `InitLevel` succeeds and gives the
-- level the splits from the unit factors up to the number of dimensions; `InitLevelUserSpecified`
-- succeeds and gives it the user's split; other levels keep their entries.
pub init_level-Admits :
    (level unit_factors user_split : ℕ) (s : SplitSpace)
    → level < s.num_levels
    → unit_factors ≤ s.num_dimensions
    → s.num_dimensions + 1 < u32_mod
    → ((s' : SplitSpace) × (e : Level) × (init_level level unit_factors s ≡ some s')
        × (s'.levels level ≡ some e)
        × FitsLevel e
        × ((v : ℕ) → Admits e v ↔ ((unit_factors ≤ v) × (v ≤ s.num_dimensions)))
        × ((l : ℕ) → (l == level) ≡ false → s'.levels l ≡ s.levels l))
      × ((s' : SplitSpace) × (init_level_user_specified level user_split s ≡ some s')
          × (s'.levels level ≡ some (user_specified user_split))
          × ((l : ℕ) → (l == level) ≡ false → s'.levels l ≡ s.levels l))
unfolding init_level init_level_user_specified set_level
init_level-Admits level unit_factors user_split s inside few small =
    let ok : ltb level s.num_levels ≡ true = lt→ltb _ _ inside in
    let same : (level == level) ≡ true = ground arith in
    let size : ℕ = s.num_dimensions + 1 - unit_factors in
    let wraps : (s.num_dimensions + 1 + u32_mod - unit_factors) % u32_mod ≡ size = omega arith in
    (
      (
        set_level level (variable unit_factors size) s,
        variable unit_factors size,
        rw (ok, wraps),
        rw same,
        (omega arith, omega arith),
        λ v. (λ (low, high). (omega arith, omega arith), λ (low, high). (omega arith, omega arith)),
        λ l other. rw other,
      ),
      (set_level level (user_specified user_split) s, rw ok, rw same, λ l other. rw other),
    )
