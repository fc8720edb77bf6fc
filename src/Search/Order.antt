-- ===== src/Search/Order.antt =====
-- The order in which ExhaustiveSearch visits (src/search/exhaustive.cpp): by factors, then
-- permutation, then split, then bypass.
use native.Mathlib.Nat.{mod-eq_of_lt}
use timeloop.Prelude.{
  ℕ, ◌+◌, ◌*◌, ◌<◌, ◌≡◌, refl, Bool, true, false, ◌⊎◌, inl, inr, arith, ltb, Bool-cases, ltb→lt,
}
use timeloop.Prelude.Words.{u128_mod}
use timeloop.Search.{Indices, inc128}
use timeloop.Search.Ids.{Within}
use timeloop.Search.Exhaustive.{increment, increment_all}

abbrev pub Same : Indices → Indices → Type 0
Same x y =
    (x.factors ≡ y.factors)
    × (x.permutation ≡ y.permutation)
    × (x.split ≡ y.split)
    × (x.bypass ≡ y.bypass)

abbrev pub Before : Indices → Indices → Type 0
Before x y =
    (x.factors < y.factors)
    ⊎ ((x.factors ≡ y.factors)
        × ((x.permutation < y.permutation)
            ⊎ ((x.permutation ≡ y.permutation)
                × ((x.split < y.split) ⊎ ((x.split ≡ y.split) × (x.bypass < y.bypass))))))

abbrev pub Upto : Indices → Indices → Type 0
Upto x y = Before x y ⊎ Same x y

-- Sizes that a 128-bit number holds.
pub record Fits (sizes : Indices) : Type 0 where
  pub factors : sizes.factors < u128_mod
  pub permutation : sizes.permutation < u128_mod
  pub split : sizes.split < u128_mod
  pub bypass : sizes.bypass < u128_mod

pub inc128-eq : (n m : ℕ) → n < m → m < u128_mod → inc128 n ≡ n + 1
inc128-eq n m h k = mod-eq_of_lt (omega arith)

-- How an increment ends: at the next place in the order, in the bypass alone or with bypass 0, or
-- at the last place.
abbrev pub Advanced : Indices → Indices → Indices × Bool → Type 0
Advanced sizes it (it', true) =
    Within sizes it'
    × Before it it'
    × ((x : Indices) → Within sizes x → Before x it' → Upto x it)
    × (((it.bypass + 1 ≡ sizes.bypass) × (it'.bypass ≡ 0))
        ⊎ ((it'.factors ≡ it.factors)
            × (it'.permutation ≡ it.permutation)
            × (it'.split ≡ it.split)
            × (it'.bypass ≡ it.bypass + 1)))
Advanced sizes it (it', false) = (x : Indices) → Within sizes x → Upto x it

next_bypass :
    (sizes it : Indices)
    → Within sizes it
    → it.bypass + 1 < sizes.bypass
    → Advanced sizes it (record it { bypass = it.bypass + 1 }, true)
next_bypass sizes it w h = (
  record { factors = w.factors; permutation = w.permutation; split = w.split; bypass = h },
  inr (refl, inr (refl, inr (refl, omega arith))),
  λ x wx b. ground arith,
  inr (refl, refl, refl, refl),
)

next_split :
    (sizes it : Indices)
    → Within sizes it
    → it.bypass + 1 ≡ sizes.bypass
    → it.split + 1 < sizes.split
    → Advanced sizes it (record it { bypass = 0; split = it.split + 1 }, true)
next_split sizes it w e h = (
  record { factors = w.factors; permutation = w.permutation; split = h; bypass = omega arith },
  inr (refl, inr (refl, inl (omega arith))),
  λ x wx b. let top = wx.bypass in ground arith,
  inl (e, refl),
)

next_permutation :
    (sizes it : Indices)
    → Within sizes it
    → it.bypass + 1 ≡ sizes.bypass
    → it.split + 1 ≡ sizes.split
    → it.permutation + 1 < sizes.permutation
    → Advanced sizes it
        (record it { bypass = 0; split = 0; permutation = it.permutation + 1 }, true)
next_permutation sizes it w e e' h = (
  record { factors = w.factors; permutation = h; split = omega arith; bypass = omega arith },
  inr (refl, inl (omega arith)),
  λ x wx b. let top = wx.bypass in let side = wx.split in ground arith,
  inl (e, refl),
)

next_factors :
    (sizes it : Indices)
    → Within sizes it
    → it.bypass + 1 ≡ sizes.bypass
    → it.split + 1 ≡ sizes.split
    → it.permutation + 1 ≡ sizes.permutation
    → it.factors + 1 < sizes.factors
    → Advanced sizes it
        (record { bypass = 0; split = 0; permutation = 0; factors = it.factors + 1 }, true)
next_factors sizes it w e e' e'' h = (
  record { factors = h; permutation = omega arith; split = omega arith; bypass = omega arith },
  inl (omega arith),
  λ x wx b.
      let top = wx.bypass in let side = wx.split in let order = wx.permutation in ground arith,
  inl (e, refl),
)

last_place :
    (sizes it : Indices)
    → Within sizes it
    → it.bypass + 1 ≡ sizes.bypass
    → it.split + 1 ≡ sizes.split
    → it.permutation + 1 ≡ sizes.permutation
    → it.factors + 1 ≡ sizes.factors
    → (x : Indices) → Within sizes x
    → Upto x it
last_place sizes it w e e' e'' e''' x wx =
    let top = wx.bypass in
    let side = wx.split in let order = wx.permutation in let row = wx.factors in ground arith

-- `IncrementRecursive_` from a place within the sizes.
pub increment_all_lem :
    (sizes it : Indices) → Fits sizes → Within sizes it → Advanced sizes it (increment_all sizes it)
unfolding increment_all increment
increment_all_lem sizes it fits w =
    let b = inc128-eq it.bypass sizes.bypass w.bypass fits.bypass in
    let s = inc128-eq it.split sizes.split w.split fits.split in
    let p = inc128-eq it.permutation sizes.permutation w.permutation fits.permutation in
    let f = inc128-eq it.factors sizes.factors w.factors fits.factors in
    let wb = w.bypass in
    let ws = w.split in
    let wp = w.permutation in
    let wf = w.factors in
    elim (Bool-cases (ltb (it.bypass + 1) sizes.bypass)) [
      | inl yes_b ↦ rw (b, yes_b) (next_bypass sizes it w (ltb→lt _ _ yes_b))
      | inr no_b ↦
          let eb : it.bypass + 1 ≡ sizes.bypass = ground arith in
          elim (Bool-cases (ltb (it.split + 1) sizes.split)) [
            | inl yes_s ↦ rw (b, no_b, s, yes_s) (next_split sizes it w eb (ltb→lt _ _ yes_s))
            | inr no_s ↦
                let es : it.split + 1 ≡ sizes.split = ground arith in
                elim (Bool-cases (ltb (it.permutation + 1) sizes.permutation)) [
                  | inl yes_p ↦
                      rw (b, no_b, s, no_s, p, yes_p)
                        (next_permutation sizes it w eb es (ltb→lt _ _ yes_p))
                  | inr no_p ↦
                      let ep : it.permutation + 1 ≡ sizes.permutation = ground arith in
                      elim (Bool-cases (ltb (it.factors + 1) sizes.factors)) [
                        | inl yes_f ↦
                            rw (b, no_b, s, no_s, p, no_p, f, yes_f)
                              (next_factors sizes it w eb es ep (ltb→lt _ _ yes_f))
                        | inr no_f ↦
                            rw (b, no_b, s, no_s, p, no_p, f, no_f)
                              (last_place sizes it w eb es ep (ground arith))
                      ]
                ]
          ]
    ]

pub Before-Upto : (x y z : Indices) → Upto x y → Before y z → Before x z
Before-Upto x y z h k = ground arith

-- The number of a place in that order.
abbrev pub rank : Indices → Indices → ℕ
rank sizes it =
    it.bypass
    + sizes.bypass * (it.split + sizes.split * (it.permutation + sizes.permutation * it.factors))

abbrev pub total : Indices → ℕ
total sizes = sizes.bypass * (sizes.split * (sizes.permutation * sizes.factors))

lift : (b b' B a a' : ℕ) → b < B → a < a' → b + B * a < b' + B * a'
lift b b' B a a' h k = grind arith

below_top : (b B a A : ℕ) → b < B → a < A → b + B * a < B * A
below_top b B a A h k = grind arith

pub rank_mono :
    (sizes x y : Indices)
    → Within sizes x
    → Within sizes y
    → Before x y
    → rank sizes x < rank sizes y
rank_mono sizes x y wx wy (inl f) =
    lift _ _ _ _ _ wx.bypass (lift _ _ _ _ _ wx.split (lift _ _ _ _ _ wx.permutation f))
rank_mono sizes x y wx wy (inr (f, inl p)) =
    rw f (lift _ _ _ _ _ wx.bypass (lift _ _ _ _ _ wx.split (omega arith)))
rank_mono sizes x y wx wy (inr (f, inr (p, inl s))) =
    rw (f, p) (lift _ _ _ _ _ wx.bypass (omega arith))
rank_mono sizes x y wx wy (inr (f, inr (p, inr (s, b)))) = rw (f, p, s) (omega arith)

pub rank-lt-total : (sizes x : Indices) → Within sizes x → rank sizes x < total sizes
rank-lt-total sizes x w =
    below_top _ _ _ _ w.bypass
      (below_top _ _ _ _ w.split (below_top _ _ _ _ w.permutation w.factors))
