-- ===== src/Mapspaces/Uber/Pruning/SplitLevels.antt =====
-- The loop over the levels of `InitSpatialSpace` (src/mapspaces/uber.cpp).
use timeloop.Prelude.{
  ℕ, zero, suc, ◌+◌, ◌<◌, ◌≤◌, ◌≡◌, ◌↔◌, refl, sym, ◌∙◌, subst, Bool, true, false, Option, some,
  none, List, [], ◌∷◌, ◌==◌, length, get_elem?, arith,
}
use timeloop.Prelude.Words.{u32_mod}
use timeloop.Mapspaces.Splits.{Level, user_specified, SplitSpace}
use timeloop.Mapspaces.Splits.Ids.{FitsLevel, Admits, init_level-Admits}
use timeloop.Mapspaces.Splits.Keeps.{init_level_keeps, init_level_user_specified_keeps}
use timeloop.Mapspaces.Uber.Pruning.{Constraints, units_at, split_level, split_levels}

-- The entry of a spatial level: the user's split, or those from the unit factors to `n`.
abbrev pub SplitAt : Option ℕ → ℕ → ℕ → Option Level → Type 0
SplitAt (some split) units n entry = entry ≡ some (user_specified split)
SplitAt none units n entry =
    (e : Level) × (entry ≡ some e) × FitsLevel e × ((v : ℕ) → Admits e v ↔ ((units ≤ v) × (v ≤ n)))

split_level_lem :
    (user : Option ℕ) (units level : ℕ) (s : SplitSpace)
    → level < s.num_levels
    → units ≤ s.num_dimensions
    → s.num_dimensions + 1 < u32_mod
    → (s' : SplitSpace) × (split_level user units level s ≡ some s')
      × SplitAt user units s.num_dimensions (s'.levels level)
      × (s'.num_dimensions ≡ s.num_dimensions)
      × (s'.num_levels ≡ s.num_levels)
      × ((l : ℕ) → (l == level) ≡ false → s'.levels l ≡ s.levels l)
unfolding split_level
split_level_lem none units level s inside few small =
    let (s', entry, run, found, fits, admits, others) =
      (init_level-Admits level units 0 s inside few small).0 in
    let (n, l) = init_level_keeps level units s run in
    (s', run, (entry, found, fits, admits), n, l, others)
split_level_lem (some split) units level s inside few small =
    let (s', run, found, others) =
      (init_level-Admits level 0 split s inside (omega arith) small).1 in
    let (n, l) = init_level_user_specified_keeps level split s run in (s', run, found, n, l, others)

module _ (c : Constraints) (units : ℕ → Option ℕ) where
  abbrev pub EntryAt : ℕ → ℕ → SplitSpace → Type 0
  EntryAt n level s =
      SplitAt (c.user_spatial_splits level) (units_at (units level)) n (s.levels level)

  pub split_levels_lem :
      (n level : ℕ) (mask : List Bool) (s : SplitSpace)
      → s.num_dimensions ≡ n
      → length mask + level ≤ s.num_levels
      → n + 1 < u32_mod
      → ((l : ℕ) → units_at (units l) ≤ n)
      → (s' : SplitSpace) × (split_levels c units level mask s ≡ some s')
        × ((k : ℕ) → get_elem? mask k ≡ some true → EntryAt n (k + level) s')
        × ((l : ℕ) → l < level → s'.levels l ≡ s.levels l)
  unfolding split_levels
  split_levels_lem n level [] s dims inside small few = (s, refl, λ k h. cc, λ l low. refl)
  split_levels_lem n level (false ∷ mask) s dims inside small few =
      let (s', run, later, kept) =
        split_levels_lem n (level + 1) mask s dims (omega arith) small few in
      (s', run, λ k h. skip s' later k h, λ l low. kept l (omega arith))
    where
      skip :
          (s' : SplitSpace)
          → ((k : ℕ) → get_elem? mask k ≡ some true → EntryAt n (k + (level + 1)) s')
          → (k : ℕ) → get_elem? (false ∷ mask) k ≡ some true
          → EntryAt n (k + level) s'
      skip s' later zero h = cc
      skip s' later (suc k) h = subst (λ l. EntryAt n l s') (omega arith) (later k h)
  split_levels_lem n level (true ∷ mask) s dims inside small few =
      let (next, run, now, same_dims, same_levels, others) =
        split_level_lem (c.user_spatial_splits level) (units_at (units level)) level s (omega arith)
          (omega (arith, few level)) (omega arith) in
      let (s', run', later, kept) =
        split_levels_lem n (level + 1) mask next (same_dims ∙ dims) (omega arith) small few in
      let first : EntryAt n level s' =
        subst (SplitAt (c.user_spatial_splits level) (units_at (units level)) n)
          (sym (kept level (omega arith))) (subst (λ m. EntryAt m level next) dims now) in
      (
        s',
        rw (run, run') refl,
        λ k h. at_level s' first later k h,
        λ l low.
            let apart : (l == level) ≡ false = ground arith in
            kept l (omega arith) ∙ others l apart,
      )
    where
      at_level :
          (s' : SplitSpace)
          → EntryAt n level s'
          → ((k : ℕ) → get_elem? mask k ≡ some true → EntryAt n (k + (level + 1)) s')
          → (k : ℕ) → get_elem? (true ∷ mask) k ≡ some true
          → EntryAt n (k + level) s'
      at_level s' first later zero h = subst (λ l. EntryAt n l s') (omega arith) first
      at_level s' first later (suc k) h = subst (λ l. EntryAt n l s') (omega arith) (later k h)
