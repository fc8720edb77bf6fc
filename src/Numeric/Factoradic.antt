-- ===== src/Numeric/Factoradic.antt =====
-- Factoradic (include/util/numeric.hpp): the permutations of a buffer, numbered in the factorial
-- number system.
mod Tests
pub mod Orders
pub mod Items
use timeloop.Prelude.{
  ℕ, zero, suc, ◌+◌, ◌-◌, ◌*◌, ◌/◌, ◌%◌, ◌^◌, Option, none, some, List, [], ◌∷◌, ltb, leb, ◌>>=◌,
  ◌>>◌, guard, length, ◌==◌, if◌then◌else◌, not,
}
use timeloop.Prelude.Words.{u64_mod}

-- `MaxLength`
abbrev pub max_length : ℕ
max_length = 20

-- An entry of `factorial_table_`, by the constructor's running product.
pub table_entry : ℕ → ℕ
table_entry zero = 1
table_entry (suc i) = table_entry i * suc i % u64_mod

-- `Factorial`
pub factorial : ℕ → Option ℕ
unfolding table_entry
factorial n = do guard (leb n max_length); some (table_entry n)

module _ {ℓ} {A : Type ℓ} where
  -- `c = buffer[i + d]; memmove(buffer + i + 1, buffer + i, d * sizeof(T)); buffer[i] = c`, on the
  -- part of the buffer from `i` on: the entry `d` goes to the front.
  pub move_front : ℕ → List A → List A
  move_front zero xs = xs
  move_front (suc d) [] = []
  move_front (suc d) (x ∷ xs) = elim (move_front d xs) [ [] ↦ x ∷ [] | c ∷ rest ↦ c ∷ x ∷ rest ]

  -- The next round works on the part behind the entry that is placed.
  pub behind_front : List A → (List A → List A) → List A
  behind_front [] f = []
  behind_front (c ∷ rest) f = c ∷ f rest

  -- The loop of `Permute`, on the part of the buffer from `i` on and the rounds left.
  pub permute_loop : ℕ → ℕ → ℕ → List A → List A
  permute_loop zero scale index xs = xs
  permute_loop (suc rounds) scale index xs =
      let scale' = scale / length xs in
      behind_front (move_front (index / scale') xs) (permute_loop rounds scale' (index % scale'))

  -- `Permute`. The bound `length - 1` of its loop wraps for an empty buffer, and a length above
  -- `MaxLength` reads past the table; neither has a result here.
  pub permute : List A → ℕ → Option (List A)
  unfolding permute_loop table_entry
  permute buffer index = do
    guard (not (length buffer == 0))
    guard (leb (length buffer) max_length)
    let scale = table_entry (length buffer)
    guard (ltb index scale)
    some (permute_loop (length buffer - 1) scale index buffer)
