-- ===== src/PointSet/Aahr.antt =====
-- AxisAlignedHyperRectangle (include/loop-analysis/point-set-aahr.hpp and
-- src/loop-analysis/point-set-aahr.cpp). The coordinates of `min_` and `max_` at one rank stand
-- together, so `order_` is the number of ranks. Coordinates are 32-bit signed; their sums and
-- differences are taken where they do not overflow, which C++ leaves undefined.
pub mod Difference
pub mod Union
pub mod Shift
pub mod Subtract
pub mod Remainder
pub mod Merge
mod Tests
use timeloop.Prelude.{
  ℕ, suc, ◌+◌, ◌-◌, ◌*◌, ◌%◌, Bool, true, false, ◌&&◌, ◌||◌, not, Option, none, some, List, [], ◌∷◌,
  ◌++◌, map, ◌==◌, if◌then◌else◌, ◌>>=◌, ◌>>◌, guard, length,
}
use timeloop.Prelude.Words.{u64_mod}
use timeloop.Prelude.Int.{ℤ, pos, negsuc, ◌+ℤ◌, ◌-ℤ◌, ltb_ℤ, leb_ℤ, eqb_ℤ}

-- `min_[rank]` (inclusive) and `max_[rank]` (exclusive).
pub record Rank : Type 0 where
  pub low : ℤ
  pub high : ℤ

-- `Gradient`, whose order is that of the rectangle.
pub record Gradient : Type 0 where
  pub dimension : ℕ
  pub value : ℤ

pub record Aahr : Type 0 where
  pub ranks : List Rank
  pub gradient : Gradient

-- `Gradient(order)`, and `Gradient::Reset`
abbrev pub no_gradient : Gradient
no_gradient = record { dimension = 0; value = pos 0 }

-- `Gradient::Sign`
pub sign : Gradient → ℤ
sign g = if ltb_ℤ g.value (pos 0) then negsuc 0 else if eqb_ℤ g.value (pos 0) then pos 0 else pos 1

-- The conversion of an `int` to `std::size_t`.
pub to_size : ℤ → ℕ
to_size (pos n) = n % u64_mod
to_size (negsuc n) = (u64_mod - suc n % u64_mod) % u64_mod

pub size_loop : ℕ → List Rank → ℕ
size_loop size [] = size
size_loop size (r ∷ rs) = size_loop (size * to_size (r.high -ℤ r.low) % u64_mod) rs

-- `size`. It reads `max_[0]`, which an order of 0 does not have.
pub size : List Rank → Option ℕ
unfolding size_loop to_size
size [] = none
size (r ∷ rs) = some (size_loop (to_size (r.high -ℤ r.low)) rs)

-- `Reset` of the two points.
pub zero_ranks : List Rank → List Rank
zero_ranks = map (λ _. record { low = pos 0; high = pos 0 })

-- `Reset`
pub reset : Aahr → Aahr
reset a = record { ranks = zero_ranks a.ranks; gradient = no_gradient }

pub same_rank : Rank → Rank → Bool
same_rank r s = eqb_ℤ r.low s.low && eqb_ℤ r.high s.high

-- The loop of `operator ==`.
pub same : List Rank → List Rank → Bool
same [] ss = true
same (r ∷ rs) [] = false
same (r ∷ rs) (s ∷ ss) = same_rank r s && same rs ss

-- One round of the loop of `Add`: the rank after it, and `need_update`. It fails where the ranks
-- are apart and may not be extruded.
pub add_rank : Bool → Rank → Rank → Option (Rank × Bool)
add_rank extrude r s =
    if leb_ℤ r.low s.high && leb_ℤ s.low r.high
    then some (
      record {
        low = if ltb_ℤ s.low r.low then s.low else r.low;
        high = if ltb_ℤ r.high s.high then s.high else r.high;
      },
      ltb_ℤ s.low r.low || ltb_ℤ r.high s.high,
    )
    else if not extrude
    then none
    else if ltb_ℤ s.high r.low
    then some (record r { low = s.low }, true)
    else some (record r { high = s.high }, true)

-- The loop of `Add`. A second rank that needs an update makes a shape that is no rectangle.
pub add_ranks : Bool → Bool → List Rank → List Rank → Option (List Rank)
add_ranks extrude found [] ss = some []
add_ranks extrude found (r ∷ rs) [] = none
add_ranks extrude found (r ∷ rs) (s ∷ ss) = do
  (u, need_update) ← add_rank extrude r s
  guard (not (found && need_update))
  us ← add_ranks extrude (found || need_update) rs ss
  some (u ∷ us)

-- `Add(const AxisAlignedHyperRectangle&, bool)`
pub add : Bool → Aahr → Aahr → Option Aahr
add extrude a s = do
  guard (length a.ranks == length s.ranks)
  own ← size a.ranks
  other ← size s.ranks
  if own == 0
      then some s
      else if other == 0
      then some a
      else if same a.ranks s.ranks
      then some a
      else (add_ranks extrude false a.ranks s.ranks >>= λ us. some (record a { ranks = us }))

-- How the loop of `Subtract` ends: it keeps the rectangle, empties it, fails an assertion, or cuts it.
pub data Cut : Type 0 where
  keep clear fault : Cut
  cut : List Rank → Gradient → Cut

pub under : Rank → Cut → Cut
under r keep = keep
under r clear = clear
under r fault = fault
under r (cut rs g) = cut (r ∷ rs) g

-- A rank in which the two differ: the rank after the cut and the gradient, or a fracture.
pub cut_rank : ℕ → Rank → Rank → Option (Rank × Gradient)
cut_rank dim r s =
    if leb_ℤ s.low r.low
    then (if leb_ℤ s.high r.high
        then some (record r { low = s.high }, record { dimension = dim; value = s.high -ℤ r.low })
        else some (record r { high = r.low }, no_gradient))
    else (if ltb_ℤ s.high r.high
        then none
        else some (record r { high = s.low }, record { dimension = dim; value = s.low -ℤ r.high }))

-- What a differing rank, the first one, makes of the rest of the loop.
pub after_cut : Option (Rank × Gradient) → (Gradient → Cut) → Cut
after_cut none rest = fault
after_cut (some (u, g)) rest = if eqb_ℤ u.low u.high then clear else under u (rest g)

-- The loop of `Subtract` from rank `dim` on.
pub cut_loop : ℕ → Bool → List Rank → List Rank → Gradient → Cut
cut_loop dim found [] ss g = if found then cut [] g else fault
cut_loop dim found (r ∷ rs) [] g = fault
cut_loop dim found (r ∷ rs) (s ∷ ss) g =
    if same_rank r s
    then under r (cut_loop (dim + 1) found rs ss g)
    else if found
    then keep
    else after_cut (cut_rank dim r s) (cut_loop (dim + 1) true rs ss)

-- No overlap along a rank.
pub apart : List Rank → List Rank → Bool
apart [] ss = false
apart (r ∷ rs) [] = false
apart (r ∷ rs) (s ∷ ss) = (leb_ℤ s.high r.low || leb_ℤ r.high s.low) || apart rs ss

pub settle_cut : Aahr → Cut → Option (Aahr × Gradient)
settle_cut a keep = some (a, no_gradient)
settle_cut a clear = some (reset a, no_gradient)
settle_cut a fault = none
settle_cut a (cut rs g) = some (record a { ranks = rs }, g)

-- `Subtract`: the rectangle after it, and the gradient that it returns.
pub subtract : Aahr → Aahr → Option (Aahr × Gradient)
subtract a s = do
  guard (length a.ranks == length s.ranks)
  own ← size a.ranks
  other ← size s.ranks
  if own == 0 || other == 0
      then some (a, no_gradient)
      else if same a.ranks s.ranks
      then some (reset a, no_gradient)
      else if apart a.ranks s.ranks
      then some (a, no_gradient)
      else settle_cut a (cut_loop 0 false a.ranks s.ranks no_gradient)

-- `operator -`, for the value of `gResetOnStrideChange`: the left operand, whose gradient it sets,
-- and the delta, which carries none.
pub minus : Bool → Aahr → Aahr → Option (Aahr × Aahr)
minus stride a s = do
  (delta, g) ← subtract a s
  let plain : Aahr = record delta { gradient = no_gradient }
  let turned : Aahr × Aahr = (record a { gradient = g }, plain)
  let whole : Aahr = record a { gradient = no_gradient }
  gone ← size delta.ranks
  some (
      if not stride
      then (a, plain)
      else if eqb_ℤ s.gradient.value (pos 0)
      then turned
      else if eqb_ℤ g.value (pos 0) && gone == 0
      then turned
      else if s.gradient.dimension == g.dimension && eqb_ℤ (sign s.gradient) (sign g)
      then turned
      else (whole, whole))

-- The slices to the left and to the right of `s` at one rank, over the ranks behind it.
pub side_slices : Rank → Rank → List Rank → List (List Rank)
side_slices m b rest =
    let left = (if ltb_ℤ m.low b.low then (record m { high = b.low } ∷ rest) ∷ [] else []) in
    let right =
      (if ltb_ℤ b.high m.high then (record { low = b.high; high = m.high } ∷ rest) ∷ [] else []) in
    left ++ right

-- What is left of `middle` at that rank.
pub middle_rank : Rank → Rank → Rank
middle_rank m b = record {
  low = if ltb_ℤ m.low b.low then b.low else m.low;
  high = if ltb_ℤ b.high m.high then b.high else m.high;
}

-- The loop of `MultiSubtract`: later slices have the middle at this rank.
pub slices : List Rank → List Rank → List (List Rank)
slices [] bs = []
slices (m ∷ ms) [] = []
slices (m ∷ ms) (b ∷ bs) = side_slices m b ms ++ map (λ ps. middle_rank m b ∷ ps) (slices ms bs)

-- `MultiSubtract`
pub multi_subtract : List Rank → List Rank → List (List Rank)
multi_subtract a b = if apart a b then a ∷ [] else slices a b

-- The loop of `Contains`.
pub inside : List Rank → List ℤ → Bool
inside [] ps = true
inside (r ∷ rs) [] = false
inside (r ∷ rs) (p ∷ ps) = leb_ℤ r.low p && ltb_ℤ p r.high && inside rs ps

-- `Contains`
pub contains : Aahr → List ℤ → Option Bool
contains a p = guard (length p == length a.ranks) >> some (inside a.ranks p)

-- `MergeIfAdjacent`, on a rectangle that is not empty: the ranks with the matching one grown.
pub merge_ranks : Bool → List Rank → List ℤ → Option (List Rank)
merge_ranks match [] ps = if match then some [] else none
merge_ranks match (r ∷ rs) [] = none
merge_ranks match (r ∷ rs) (p ∷ ps) =
    let before = eqb_ℤ p (r.low -ℤ pos 1) in
    let grown : Rank =
      if before then record r { low = r.low -ℤ pos 1 } else record r { high = r.high +ℤ pos 1 } in
    if before || eqb_ℤ p r.high
    then (if match then none else merge_ranks true rs ps >>= λ us. some (grown ∷ us))
    else if eqb_ℤ p r.low && eqb_ℤ (r.low +ℤ pos 1) r.high
    then (merge_ranks match rs ps >>= λ us. some (r ∷ us))
    else none

-- `AxisAlignedHyperRectangle(order, unit)`
pub unit_ranks : List ℤ → List Rank
unit_ranks = map (λ p. record { low = p; high = p +ℤ pos 1 })

pub merge_if_adjacent : Aahr → List ℤ → Option (Aahr × Bool)
merge_if_adjacent a p = do
  guard (length p == length a.ranks)
  own ← size a.ranks
  some (
      if own == 0
      then (record a { ranks = unit_ranks p }, true)
      else elim (merge_ranks false a.ranks p) [
        | none ↦ (a, false)
        | some us ↦ (record a { ranks = us }, true)
      ])

-- `Translate`
pub translate_ranks : List Rank → List ℤ → List Rank
translate_ranks [] ps = []
translate_ranks (r ∷ rs) [] = []
translate_ranks (r ∷ rs) (p ∷ ps) =
    record { low = r.low +ℤ p; high = r.high +ℤ p } ∷ translate_ranks rs ps

pub translate : Aahr → List ℤ → Option Aahr
unfolding translate_ranks
translate a p =
    guard (length a.ranks == length p) >> some (record a { ranks = translate_ranks a.ranks p })

-- The loop of `GetTranslation`, with its assertion on the shape.
pub translation_ranks : List Rank → List Rank → Option (List ℤ)
translation_ranks [] ss = some []
translation_ranks (r ∷ rs) [] = none
translation_ranks (r ∷ rs) (s ∷ ss) = do
  guard (eqb_ℤ (s.low -ℤ r.low) (s.high -ℤ r.high))
  rest ← translation_ranks rs ss
  some ((s.low -ℤ r.low) ∷ rest)

-- `GetTranslation`
pub get_translation : Aahr → Aahr → Option (List ℤ)
get_translation a s = guard (length a.ranks == length s.ranks) >> translation_ranks a.ranks s.ranks
