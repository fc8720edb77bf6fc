-- ===== src/Mapspaces/Splits/Keeps.antt =====
-- `Init`, `InitLevel` and `InitLevelUserSpecified` of SpatialSplitSpace (src/mapspaces/subspaces.cpp):
-- what they leave as it is.
use timeloop.Prelude.{ℕ, ◌≡◌, refl, sym, ap, some, ltb, guard, >>=-eq-some}
use mathlib.Core.Option.{some-injective}
use timeloop.Mapspaces.Splits.{SplitSpace, init, init_level, init_level_user_specified, set_level}

pub init_sizes :
    (n levels : ℕ) → ((init n levels).num_dimensions ≡ n) × ((init n levels).num_levels ≡ levels)
unfolding init
init_sizes n levels = (refl, refl)

pub init_level_keeps :
    (level unit_factors : ℕ) (s : SplitSpace) {s' : SplitSpace}
    → init_level level unit_factors s ≡ some s'
    → (s'.num_dimensions ≡ s.num_dimensions) × (s'.num_levels ≡ s.num_levels)
unfolding init_level set_level
init_level_keeps level unit_factors s h =
    let (_, _, k) = >>=-eq-some (guard (ltb level s.num_levels)) _ h in
    let same = some-injective _ _ (sym k) in
    (ap (λ (t : SplitSpace). t.num_dimensions) same, ap (λ (t : SplitSpace). t.num_levels) same)

pub init_level_user_specified_keeps :
    (level user_split : ℕ) (s : SplitSpace) {s' : SplitSpace}
    → init_level_user_specified level user_split s ≡ some s'
    → (s'.num_dimensions ≡ s.num_dimensions) × (s'.num_levels ≡ s.num_levels)
unfolding init_level_user_specified set_level
init_level_user_specified_keeps level user_split s h =
    let (_, _, k) = >>=-eq-some (guard (ltb level s.num_levels)) _ h in
    let same = some-injective _ _ (sym k) in
    (ap (λ (t : SplitSpace). t.num_dimensions) same, ap (λ (t : SplitSpace). t.num_levels) same)
