-- ===== src/Prelude/Words.antt =====
-- The program's unsigned machine words, and boost's `checked_uint128_t`, which throws where a
-- result does not fit (`none`).
use Prim.Native.Nat.{ℕ, ◌+◌, ◌-◌, ◌*◌, ◌/◌, ◌%◌, ◌^◌, ◌<◌}
use native.Mathlib.Nat.{add-mul-mod_self_left, mul_assoc, add-mul, mod-add-div}
use mathlib.Core.Path.{◌≡◌, sym, ap, ◌∙◌}
use mathlib.Core.Option.{Option, none, some}
use native.Mathlib.Omega.{arith}
use timeloop.Prelude.Tests.{ltb, if◌then◌else◌, lt→ltb}

abbrev pub u32_mod : ℕ
u32_mod = 2 ^ 32

abbrev pub u64_mod : ℕ
u64_mod = 2 ^ 64

abbrev pub u128_mod : ℕ
u128_mod = 2 ^ 128

unfoldable pub checked_add : ℕ → ℕ → Option ℕ
checked_add a b = if ltb (a + b) u128_mod then some (a + b) else none

unfoldable pub checked_mul : ℕ → ℕ → Option ℕ
checked_mul a b = if ltb (a * b) u128_mod then some (a * b) else none

-- `a - 1` on `uint128_t`, which wraps.
unfoldable pub pred128 : ℕ → ℕ
pred128 a = (a + u128_mod - 1) % u128_mod

pub checked_add-some : (a b : ℕ) → a + b < u128_mod → checked_add a b ≡ some (a + b)
unfolding checked_add
checked_add-some a b h = rw (lt→ltb _ _ h)

pub checked_mul-some : (a b : ℕ) → a * b < u128_mod → checked_mul a b ≡ some (a * b)
unfolding checked_mul
checked_mul-some a b h = rw (lt→ltb _ _ h)

pub checked_mul_bound : (a b : ℕ) {c : ℕ} → checked_mul a b ≡ some c → (c ≡ a * b) × (c < u128_mod)
unfolding checked_mul
checked_mul_bound a b h = ground arith

pub pred128_pos : (a : ℕ) → 0 < a → a < u128_mod → pred128 a ≡ a - 1
unfolding pred128
pred128_pos a h k = omega arith

pub mod-mul : (a b m : ℕ) → a % m * b % m ≡ a * b % m
mod-mul a b m =
    sym (add-mul-mod_self_left (a % m * b) m (a / m * b))
    ∙ ap (λ t. t % m)
        (ap (λ t. a % m * b + t) (sym (mul_assoc m (a / m) b))
          ∙ sym (add-mul (a % m) (m * (a / m)) b)
          ∙ ap (λ t. t * b) (mod-add-div a m))
