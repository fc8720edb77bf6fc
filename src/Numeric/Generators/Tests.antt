-- ===== src/Numeric/Generators/Tests.antt =====
-- Runs of the generators (util/numeric), and the theorems at concrete inputs.
use native.Mathlib.Omega.{arith}
use timeloop.Prelude.{ℕ, ◌+◌, ◌*◌, ◌≤◌, ◌<◌, ◌≡◌, refl, true, none, some, ◌⊎◌}
use timeloop.Prelude.Words.{pred128}
use timeloop.Numeric.Generators.{
  Sequence, InBound, next, advance, random_init, random_next, uint64_max, advance-next,
  random_next_large,
}

abbrev five : Sequence
five = record { bound = 5; autoloop = true; cur = 3 }

five-InBound : InBound five
five-InBound = omega arith

advance-next_example : (g g' : Sequence) × (advance 4 five ≡ some g) × (next g ≡ some (2, g'))
advance-next_example = advance-next 4 five five-InBound refl

random_next_large_example :
    ((random_next (random_init (2 * uint64_max)) 5 1 ≡ none)
      × ◌≡◌ {A = ℕ} 5 uint64_max
      × ◌≡◌ {A = ℕ} 2 2
      × ◌≡◌ {A = ℕ} 0 0)
    ⊎ ((random_next (random_init (2 * uint64_max)) 5 1 ≡ some (5 + 1 * uint64_max))
        × (5 + 1 * uint64_max < 2 * uint64_max)
        × (5 + 1 * uint64_max ≤ 2 * uint64_max))
unfolding random_init pred128
random_next_large_example =
    random_next_large (2 * uint64_max) 5 1 (omega arith) (omega arith) (omega arith) (omega arith)
      (omega arith)
