-- ===== src/Mapspaces/Uber/Construct/Directions.antt =====
-- `AssignSpatialTilingDirections` (src/mapspaces/uber.cpp): what it needs, and what the loops keep.
use mathlib.Core.List.{head-eq_of_cons-eq, tail-eq_of_cons-eq}
use timeloop.Prelude.{
  ℕ, ◌+◌, ◌-◌, ◌*◌, ◌%◌, ◌<◌, ◌≡◌, refl, ap, ap₂, ◌∙◌, inl, inr, Bool, true, false, not, ◌&&◌, some,
  List, [], ◌∷◌, map, ltb, ◌==◌, if◌then◌else◌, length, get_elem?, get_or, get_elem?-eq-get_or, set,
  length-set, All, arith, Bool-cases,
}
use timeloop.Prelude.Words.{u64_mod}
use timeloop.Mapping.Loops.{Descriptor, time, space_x, space_y, is_spatial}
use timeloop.Mapping.Arch.{FanOut}
use timeloop.Mapspaces.Uber.Assign.Levels.{shape}
use timeloop.Mapspaces.Uber.Construct.{
  Uber, expand_loops, fits_fanout, find_split, merge_status, assign_directions,
}
use timeloop.Mapspaces.Uber.Construct.Stages.{facing, blank, blanks}

-- What a loop keeps when its direction is set.
abbrev pub extent : Descriptor → Descriptor
extent loop = record loop { spacetime_dimension = time }

-- A loop of a placeholder's shape.
abbrev pub Facing : Bool → Descriptor → Type 0
Facing spatial loop =
    (loop.start ≡ 0) × (loop.stride ≡ 1) × (loop.spacetime_dimension ≡ facing spatial)

abbrev pub FacingNests : List Bool → List (List Descriptor) → Type 0
FacingNests [] [] = Unit
FacingNests [] (nest ∷ nests) = ⊥
FacingNests (spatial ∷ mask) [] = ⊥
FacingNests (spatial ∷ mask) (nest ∷ nests) = All (Facing spatial) nest × FacingNests mask nests

shape-Facing :
    (spatial : Bool) (loops : List Descriptor) (dims : List ℕ)
    → map shape loops ≡ map shape (map (blank (facing spatial)) dims)
    → All (Facing spatial) loops
shape-Facing spatial [] dims h = tt
shape-Facing spatial (loop ∷ loops) [] h = cc
shape-Facing spatial (loop ∷ loops) (d ∷ dims) h = (
  (
    ap (λ (l : Descriptor). l.start) (head-eq_of_cons-eq h),
    ap (λ (l : Descriptor). l.stride) (head-eq_of_cons-eq h),
    ap (λ (l : Descriptor). l.spacetime_dimension) (head-eq_of_cons-eq h),
  ),
  shape-Facing spatial loops dims (tail-eq_of_cons-eq h),
)

pub shapes-FacingNests :
    (mask : List Bool) (patterns : List (List ℕ)) (nests : List (List Descriptor))
    → length mask ≡ length patterns
    → map (map shape) nests ≡ map (map shape) (blanks mask patterns)
    → FacingNests mask nests
shapes-FacingNests [] patterns [] len h = tt
shapes-FacingNests [] patterns (nest ∷ nests) len h = cc
shapes-FacingNests (spatial ∷ mask) [] nests len h = absurd (omega arith)
shapes-FacingNests (spatial ∷ mask) (dims ∷ patterns) [] len h = cc
shapes-FacingNests (spatial ∷ mask) (dims ∷ patterns) (nest ∷ nests) len h = (
  shape-Facing spatial nest dims (head-eq_of_cons-eq h),
  shapes-FacingNests mask patterns nests (omega arith) (tail-eq_of_cons-eq h),
)

expand_loops_lem :
    (split i : ℕ) (loops : List Descriptor) (x y : ℕ)
    → All (Facing true) loops
    → (loops' : List Descriptor) × (x' y' : ℕ) × (expand_loops split i loops x y
        ≡ some (loops', x', y'))
      × (map extent loops' ≡ map extent loops)
unfolding expand_loops is_spatial
expand_loops_lem split i [] x y h = ([], x, y, refl, refl)
expand_loops_lem split i (loop ∷ loops) x y ((start, stride, st), h) =
    let one : (loop.stride == 1) ≡ true = ground arith in
    let spatial : is_spatial loop.spacetime_dimension ≡ true = ap is_spatial st in
    let (loops', x', y', run, kept) =
      expand_loops_lem split (i + 1) loops
        (if ltb i split then x * (loop.end - loop.start) % u64_mod else x)
        (if ltb i split then y else y * (loop.end - loop.start) % u64_mod) h in
    (
      record loop { spacetime_dimension = if ltb i split then space_x else space_y } ∷ loops',
      x',
      y',
      rw (spatial, one, run) refl,
      ap (λ xs. extent loop ∷ xs) kept,
    )

pub merge_status_lem :
    (level : ℕ) (success : Bool) (statuses : List Bool)
    → level < length statuses
    → (merged : List Bool) × (merge_status level success statuses ≡ some merged)
      × (length merged ≡ length statuses)
unfolding merge_status
merge_status_lem level success statuses low =
    let read = get_elem?-eq-get_or statuses level true low in
    (
      set statuses level (get_or statuses level true && success),
      rw read refl,
      length-set statuses level (get_or statuses level true && success),
    )

-- What the spatial levels from `level` on read is there.
abbrev pub Supported : Uber → List (ℕ × ℕ) → ℕ → List (Bool × ℕ) → Type 0
Supported u splits level [] = Unit
Supported u splits level ((false, storage) ∷ mask) = Supported u splits (level + 1) mask
Supported u splits level ((true, storage) ∷ mask) =
    ((split : ℕ) × (find_split level splits ≡ some split))
    × ((hardware : FanOut) × (get_elem? u.arch.fanouts storage ≡ some hardware))
    × (u.storage_map storage < u.num_levels)
    × Supported u splits (level + 1) mask

-- The mask of the levels.
abbrev pub mask_of : List (Bool × ℕ) → List Bool
mask_of [] = []
mask_of ((spatial, storage) ∷ entries) = spatial ∷ mask_of entries

pub assign_directions_lem :
    (u : Uber) (break_on_failure : Bool) (splits : List (ℕ × ℕ)) (level : ℕ)
    (entries : List (Bool × ℕ)) (nests : List (List Descriptor)) (statuses : List Bool)
    → Supported u splits level entries
    → FacingNests (mask_of entries) nests
    → length statuses ≡ u.num_levels
    → (directed : List (List Descriptor)) × (statuses' : List Bool) × (used : List (ℕ × ℕ × FanOut))
      × (assign_directions u break_on_failure splits level entries nests statuses
          ≡ some (directed, statuses', used))
      × (map (map extent) directed ≡ map (map extent) nests)
      × (length statuses' ≡ u.num_levels)
unfolding assign_directions
assign_directions_lem u brk splits level [] nests statuses ok facing_ok len =
    (nests, statuses, [], refl, refl, len)
assign_directions_lem u brk splits level ((false, storage) ∷ mask) [] statuses ok facing_ok len =
    absurd facing_ok
assign_directions_lem u brk splits level ((true, storage) ∷ mask) [] statuses ok facing_ok len =
    absurd facing_ok
assign_directions_lem u brk splits level ((false, storage) ∷ mask) (nest ∷ nests) statuses ok
      (_, facing_ok) len =
    let (directed, statuses', used, run, kept, len') =
      assign_directions_lem u brk splits (level + 1) mask nests statuses ok facing_ok len in
    (nest ∷ directed, statuses', used, rw run refl, ap (λ xs. map extent nest ∷ xs) kept, len')
assign_directions_lem u brk splits level ((true, storage) ∷ mask) (nest ∷ nests) statuses
      ((split, found), (hardware, read), low, ok) (now, facing_ok) len =
    let (expanded, x, y, run, kept) = expand_loops_lem split 0 nest 1 1 now in
    let success : Bool = fits_fanout u.filter_spatial_fanout hardware x y in
    let (merged, run', len') =
      merge_status_lem (u.storage_map storage) success statuses (omega arith) in
    elim (Bool-cases (brk && not success)) [
      | inl e ↦ (
        expanded ∷ nests,
        merged,
        (x, y, hardware) ∷ [],
        rw (found, read, run, run', e) refl,
        ap (λ xs. xs ∷ map (map extent) nests) kept,
        len' ∙ len,
      )
      | inr e ↦
          let (directed, statuses', used, run'', kept', len'') =
            assign_directions_lem u brk splits (level + 1) mask nests merged ok facing_ok
              (len' ∙ len) in
          (
            expanded ∷ directed,
            statuses',
            (x, y, hardware) ∷ used,
            rw (found, read, run, run', e, run'') refl,
            ap₂ ◌∷◌ kept kept',
            len'',
          )
    ]
