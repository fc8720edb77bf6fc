-- ===== src/Numeric/Generators.antt =====
-- PatternGenerator128 (include/util/numeric.hpp, src/util/numeric.cpp): numbers below a bound, in
-- sequence or at random. The random engine is no part of the program: its draws are arguments.
mod Tests
use timeloop.Prelude.{
  ℕ, zero, suc, ◌+◌, ◌-◌, ◌*◌, ◌/◌, ◌%◌, ◌≤◌, ◌<◌, ◌≡◌, refl, Bool, true, false, ◌⊎◌, inl, inr,
  Option, none, some, ltb, ◌==◌, if◌then◌else◌, ◌>>=◌, ◌>>◌, guard, arith, Bool-cases, lt→ltb,
  le→ltb, ltb→lt, ltb→le, ◌∙◌, ap,
}
use native.Mathlib.Nat.{
  mod-eq_of_lt, mod-add-mod, mod_self, mod-lt, div-add-mod, mul-le-mul_right, add-zero,
}
use timeloop.Prelude.Words.{u64_mod, u128_mod, pred128, pred128_pos}

-- `SequenceGenerator128`
pub record Sequence : Type 0 where
  pub bound : ℕ
  pub autoloop : Bool
  pub cur : ℕ

-- `SequenceGenerator128::Next`
pub next : Sequence → Option (ℕ × Sequence)
next g =
    if g.cur == pred128 g.bound
    then (guard g.autoloop >> some (g.cur, record g { cur = 0 }))
    else some (g.cur, record g { cur = (g.cur + 1) % u128_mod })

pub record InBound (g : Sequence) : Type 0 where
  pub below : g.cur < g.bound
  pub word : g.bound < u128_mod

-- A looping generator within its bound yields its counter and steps it, round the bound.
next_lem :
    (g : Sequence)
    → InBound g
    → g.autoloop ≡ true
    → (g' : Sequence) × (next g ≡ some (g.cur, g'))
      × (g'.bound ≡ g.bound)
      × (g'.autoloop ≡ true)
      × (g'.cur ≡ (g.cur + 1) % g.bound)
      × InBound g'
unfolding next
next_lem g v auto =
    let top : pred128 g.bound ≡ g.bound - 1 = pred128_pos g.bound (omega arith) v.word in
    elim (Bool-cases (g.cur == (g.bound - 1))) [
      | inl e ↦
          let full : g.cur + 1 ≡ g.bound = ground arith in
          (
            record g { cur = 0 },
            rw (top, e, auto),
            refl,
            auto,
            rw (full, mod_self),
            record { below = omega arith; word = v.word },
          )
      | inr e ↦
          let more : g.cur + 1 < g.bound = ground arith in
          let same : (g.cur + 1) % u128_mod ≡ g.cur + 1 = omega arith in
          (
            record g { cur = g.cur + 1 },
            rw (top, e, same),
            refl,
            auto,
            rw (mod-eq_of_lt more),
            record { below = more; word = v.word },
          )
    ]

-- The generator after `k` calls.
abbrev pub advance : ℕ → Sequence → Option Sequence
advance zero g = some g
advance (suc k) g = next g >>= λ (_, g'). advance k g'

next_round : (k c b c' b' : ℕ) → b' ≡ b → c' ≡ (c + 1) % b → (c' + k) % b' ≡ (c + suc k) % b
next_round k c b c' b' e f = rw (e, f, mod-add-mod) (ap (λ (t : ℕ). t % b) (omega arith))

-- From any counter within the bound, the calls go round all numbers below the bound: after `k` of
-- them a looping generator yields the start plus `k`, modulo the bound.
pub advance-next :
    (k : ℕ) (g : Sequence)
    → InBound g
    → g.autoloop ≡ true
    → (g' g'' : Sequence) × (advance k g ≡ some g') × (next g' ≡ some ((g.cur + k) % g.bound, g''))
advance-next zero g v auto =
    let (g', run, _, _, _, _) = next_lem g v auto in
    let same : (g.cur + 0) % g.bound ≡ g.cur = rw add-zero (mod-eq_of_lt v.below) in
    (g, g', refl, rw same run)
advance-next (suc k) g v auto =
    let (g', run, bound, auto', cur, v') = next_lem g v auto in
    let (h, h', run', value) = advance-next k g' v' auto' in
    (
      h,
      h',
      rw run run',
      value ∙ ap (λ (t : ℕ). some (t, h')) (next_round k g.cur g.bound g'.cur g'.bound bound cur),
    )

-- `RandomGenerator128`: its constructor's choice of the engines' ranges.
pub record Random : Type 0 where
  pub bound : ℕ
  pub two_generators : Bool
  pub low_max : ℕ
  pub high_max : ℕ

abbrev pub uint64_max : ℕ
uint64_max = u64_mod - 1

-- `bound/uint64_max_ - 1` and `bound - 1` wrap before their casts to 64 bits.
pub random_init : ℕ → Random
random_init bound = record {
  bound = bound;
  two_generators = ltb uint64_max bound;
  low_max = if ltb uint64_max bound then uint64_max else pred128 bound % u64_mod;
  high_max = pred128 (bound / uint64_max) % u64_mod;
}

-- `RandomGenerator128::Next` for one draw of each engine.
pub random_next : Random → ℕ → ℕ → Option ℕ
random_next g low drawn =
    let high = (if g.two_generators then drawn else 0) in
    let rand = (low + high * uint64_max) % u128_mod in guard (ltb rand g.bound) >> some rand

-- Take a bound above 2 ^ 64 - 1 whose quotient by that number fits in the second engine, and any
-- draws in the engines' ranges. `Next` fails its assertion exactly when both draws are the greatest
-- and the bound is a multiple of 2 ^ 64 - 1; else it returns the number with these two digits,
-- which is below the bound and never above the greatest multiple of 2 ^ 64 - 1 up to the bound.
pub random_next_large :
    (bound low drawn : ℕ)
    → uint64_max < bound
    → bound / uint64_max ≤ u64_mod
    → bound < u128_mod
    → low ≤ (random_init bound).low_max
    → drawn ≤ (random_init bound).high_max
    → ((random_next (random_init bound) low drawn ≡ none)
        × (low ≡ uint64_max)
        × (drawn + 1 ≡ bound / uint64_max)
        × (bound % uint64_max ≡ 0))
      ⊎ ((random_next (random_init bound) low drawn ≡ some (low + drawn * uint64_max))
          × (low + drawn * uint64_max < bound)
          × (low + drawn * uint64_max ≤ bound / uint64_max * uint64_max))
unfolding random_init random_next
random_next_large bound low drawn big quot word hl hd =
    let two : ltb uint64_max bound ≡ true = lt→ltb _ _ big in
    let one_less : pred128 (bound / uint64_max) ≡ bound / uint64_max - 1 =
      pred128_pos _ (omega arith) (omega arith) in
    let low_in : low ≤ uint64_max = rw two at hl in
    let high_in : drawn ≤ (bound / uint64_max - 1) % u64_mod = rw one_less at hd in
    let whole : (low + drawn * uint64_max) % u128_mod ≡ low + drawn * uint64_max = omega arith in
    rw (two, whole)
      (elim (Bool-cases (ltb (low + drawn * uint64_max) bound)) [
        | inl e ↦ rw e (inr (refl, ltb→lt _ _ e, omega arith))
        | inr e ↦
            let at_top = ltb→le _ _ e in rw e (inl (refl, omega arith, omega arith, omega arith))
      ])
