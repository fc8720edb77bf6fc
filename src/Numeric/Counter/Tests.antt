-- ===== src/Numeric/Counter/Tests.antt =====
-- Runs of CartesianCounterDynamic (util/numeric), and the theorems at concrete inputs.
use native.Mathlib.Omega.{arith}
use timeloop.Prelude.{ℕ, ◌≤◌, ◌<◌, ◌≡◌, refl, Bool, true, false, none, some, ◌⊎◌, [], ◌∷◌, ◌≢◌}
use timeloop.Prelude.Words.{checked_add, pred128}
use timeloop.Numeric.Counter
use timeloop.Numeric.Counter.{
  Counter, increment, set_integer, set_digit, set_value, increment_recursive, increment_position,
  carry_digit, update_value,
}
use timeloop.Numeric.Counter.Digits.{encode, decode, InRange}
use timeloop.Numeric.Counter.Laws.{IsValid, init-IsValid, increment-IsValid}
use timeloop.Numeric.Counter.Setters.{
  increments, set_integer_lem, set_value_lem, set_digit_lem, increments_lem,
}
use timeloop.Numeric.Counter.Overflow.{increment_overflow}

-- Bases 2, 3 and 4, at the number 9.
abbrev clock : Counter
clock = record {
  order = 3;
  base = 2 ∷ 3 ∷ 4 ∷ [];
  value = 1 ∷ 1 ∷ 1 ∷ [];
  integer = 9;
  endint = 24;
}

abbrev clock_end : Counter
clock_end = record clock { value = 1 ∷ 2 ∷ 3 ∷ []; integer = 23 }

clock-IsValid : IsValid clock
clock-IsValid = record {
  sized = refl;
  range = omega arith;
  agree = refl;
  end = refl;
  fits = omega arith;
}

clock_end-IsValid : IsValid clock_end
clock_end-IsValid = record {
  sized = refl;
  range = omega arith;
  agree = refl;
  end = refl;
  fits = omega arith;
}

increment_runs :
    increment clock ≡ some (record clock { value = 0 ∷ 2 ∷ 1 ∷ []; integer = 10 }, true)
unfolding increment increment_recursive increment_position carry_digit checked_add pred128
increment_runs = refl

init-IsValid_example :
    (c : Counter) × (Counter.init (2 ∷ 3 ∷ []) ≡ some c)
    × IsValid c
    × (c.endint ≡ 6)
    × (c.integer ≡ 0)
init-IsValid_example = init-IsValid (2 ∷ 3 ∷ []) (omega arith) (omega arith)

increment-IsValid_example :
    (c : Counter) × (done : Bool) × (increment clock ≡ some (c, done))
    × (c.integer ≡ 10)
    × (c.base ≡ 2 ∷ 3 ∷ 4 ∷ [])
    × (c.endint ≡ 24)
    × (((done ≡ true) × (10 < 24) × IsValid c)
        ⊎ ((done ≡ false) × ◌≡◌ {A = ℕ} 10 24 × InRange c.base c.value))
increment-IsValid_example = increment-IsValid clock clock-IsValid (λ e. omega arith)

increments_lem_example :
    (c : Counter) × (increments 5 clock ≡ some c)
    × IsValid c
    × (c.integer ≡ 14)
    × (c.value ≡ 0 ∷ 1 ∷ 2 ∷ [])
increments_lem_example = increments_lem 5 clock clock-IsValid (omega arith)

set_integer_lem_example :
    ((17 < 24)
      × ((c : Counter) × (set_integer clock 17 ≡ some c)
          × IsValid c
          × (c.integer ≡ 17)
          × (c.value ≡ 1 ∷ 2 ∷ 2 ∷ [])))
    ⊎ ((24 ≤ 17) × (set_integer clock 17 ≡ none))
set_integer_lem_example = set_integer_lem clock 17 clock-IsValid (omega arith)

set_value_lem_example :
    (c : Counter) × (set_value clock (0 ∷ 2 ∷ 3 ∷ []) ≡ some c)
    × IsValid c
    × (c.value ≡ 0 ∷ 2 ∷ 3 ∷ [])
    × (decode (2 ∷ 3 ∷ 4 ∷ []) c.integer ≡ 0 ∷ 2 ∷ 3 ∷ [])
set_value_lem_example = set_value_lem clock (0 ∷ 2 ∷ 3 ∷ []) clock-IsValid (omega arith)

set_digit_lem_example :
    (c : Counter) × (set_digit clock 2 3 ≡ some c) × IsValid c × (c.value ≡ 1 ∷ 1 ∷ 3 ∷ [])
set_digit_lem_example = set_digit_lem clock 2 3 4 clock-IsValid refl (omega arith)

increment_overflow_example :
    (c : Counter) × (increment clock_end ≡ some (c, false))
    × (c.integer ≡ 24)
    × (c.value ≢ 1 ∷ 2 ∷ 3 ∷ [])
    × (encode c.base c.value ≢ c.integer)
increment_overflow_example =
    increment_overflow clock_end 2 3 (4 ∷ []) clock_end-IsValid refl (omega arith) refl
