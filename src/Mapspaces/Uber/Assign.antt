-- ===== src/Mapspaces/Uber/Assign.antt =====
-- `AssignIndexFactors` of src/mapspaces/uber.cpp: the bounds of the loops, with what remains of each
-- dimension, and the check of the result. The subspace's `GetFactor` is a function of the dimension
-- and the level. A level's loops are gone through from the last.
pub mod Recurrence
pub mod Levels
pub mod Sums
pub mod Nests
pub mod Bounds
mod Tests
use timeloop.Prelude.{
  ℕ, zero, suc, ◌+◌, ◌-◌, ◌*◌, ◌/◌, ◌%◌, ◌^◌, Bool, true, false, not, Option, some, none, List, [],
  ◌∷◌, ◌++◌, ltb, ◌==◌, if◌then◌else◌, guard, ◌>>=◌, ◌>>◌, length, get_elem?, set,
}
use timeloop.Prelude.Words.{u32_mod}
use timeloop.Mapping.Loops.{Descriptor}

-- The cast of a factor to `int`; numbers from 2 ^ 31 on, which it makes negative, are left out.
pub int_of : ℕ → Option ℕ
int_of n = if ltb n (2 ^ 31) then some n else none

-- `loop.residual_end`, from what remains and the end.
pub residual_of : ℕ → ℕ → ℕ
residual_of remaining end = if remaining % end == 0 then end else remaining % end

-- What remains after a loop. The quotient of two `int`s as `double`s rounds up to the same integer as
-- the exact one.
pub left_after : ℕ → ℕ → ℕ
left_after remaining end =
    if remaining % end == 0 then remaining / end else (remaining + end - 1) / end

-- The body of the loop; an end of 0 divides by 0.
pub assign_loop : (ℕ → ℕ → Option ℕ) → ℕ → Descriptor → List ℕ → Option (Descriptor × List ℕ)
assign_loop factor level loop remaining = do
  value ← factor loop.dimension level
  whole ← int_of value
  left ← get_elem? remaining loop.dimension
  let end : ℕ = if ltb left whole then left else whole
  guard (not (end == 0))
  some (
    record loop { end = end; residual_end = residual_of left end },
    set remaining loop.dimension (left_after left end),
  )

-- The loops of one level, from the last.
pub assign_level :
    (ℕ → ℕ → Option ℕ) → ℕ → List Descriptor → List ℕ → Option (List Descriptor × List ℕ)
assign_level factor level [] remaining = some ([], remaining)
assign_level factor level (loop ∷ loops) remaining = do
  (later, remaining') ← assign_level factor level loops remaining
  (now, remaining'') ← assign_loop factor level loop remaining'
  some (now ∷ later, remaining'')

-- The levels from `level` on.
pub assign_levels :
    (ℕ → ℕ → Option ℕ)
    → ℕ
    → List (List Descriptor)
    → List ℕ
    → Option (List (List Descriptor) × List ℕ)
assign_levels factor level [] remaining = some ([], remaining)
assign_levels factor level (nest ∷ nests) remaining = do
  (now, remaining') ← assign_level factor level nest remaining
  (later, remaining'') ← assign_levels factor (level + 1) nests remaining'
  some (now ∷ later, remaining'')

-- A list in reverse.
unfoldable pub backwards : List Descriptor → List Descriptor
backwards [] = []
backwards (loop ∷ loops) = backwards loops ++ (loop ∷ [])

-- `loops`: from the last level to the first, each from its last loop.
unfoldable pub outer_first : List (List Descriptor) → List Descriptor
outer_first [] = []
outer_first (nest ∷ nests) = outer_first nests ++ backwards nest

-- `curterm`: the ends of the loops of a dimension. An `int` stands as its 32 bits, round which its
-- arithmetic is taken to wrap: near 2 ^ 31 the product can leave them, where the loop adds 0 times it.
pub curterm : ℕ → List Descriptor → ℕ
curterm dim [] = 1
curterm dim (loop ∷ loops) =
    let rest : ℕ = curterm dim loops in
    if loop.dimension == dim then loop.end * rest % u32_mod else rest

-- The loop that adds to `d0`, also of 32 bits; a residual end is at least 1.
pub recurrence : ℕ → List Descriptor → ℕ → ℕ
recurrence dim [] d0 = d0
recurrence dim (loop ∷ loops) d0 = recurrence dim loops (
    if loop.dimension == dim
    then (d0 + curterm dim loops * (loop.residual_end - 1)) % u32_mod
    else d0)

-- The checks, for the dimensions from `dim` on with their bounds and what remains of them: an
-- assertion, and an exit.
pub check_dims : List Descriptor → ℕ → List ℕ → List ℕ → Option (Unit {0})
check_dims loops dim [] remaining = some tt
check_dims loops dim (bound ∷ bounds) [] = none
check_dims loops dim (bound ∷ bounds) (left ∷ remaining) = do
  guard (left == 1)
  guard (recurrence dim loops 1 == bound % u32_mod)
  check_dims loops (dim + 1) bounds remaining

-- `AssignIndexFactors`
pub assign_index_factors :
    (ℕ → ℕ → Option ℕ) → List ℕ → List (List Descriptor) → Option (List (List Descriptor))
assign_index_factors factor bounds subnests = do
  (assigned, remaining) ← assign_levels factor 0 subnests bounds
  check_dims (outer_first assigned) 0 bounds remaining
  some assigned
