-- ===== src/PointSet/Aahr/Remainder.antt =====
-- `Subtract` (src/loop-analysis/point-set-aahr.cpp), the whole of it: its special cases and its loop.
use timeloop.Prelude.{
  ℕ, suc, ◌≡◌, refl, sym, subst, ap, ◌∙◌, Bool, true, false, ◌&&◌, not, inl, inr, List, [], ◌∷◌,
  arith, Bool-cases, length, Option, some, ◌==◌, ==_iff,
}
use timeloop.Prelude.Int.{ℤ, ◌-ℤ◌, ◌≤ℤ◌, leb_ℤ, eqb_ℤ}
use timeloop.PointSet.Aahr.{
  Rank, Gradient, Aahr, no_gradient, inside, size, same, same_rank, reset, zero_ranks, apart,
  subtract, Cut, keep, clear, fault, cut, cut_rank, after_cut, cut_loop, settle_cut,
}
use timeloop.PointSet.Aahr.Difference.{Ordered, apart_lem}
use timeloop.PointSet.Aahr.Union.{HasPoints, same-eq}
use timeloop.PointSet.Aahr.Subtract.{OneCut, Exact, cut_loop-Exact}

-- A rectangle that has a size has a rank, so none of its points is in it after `Reset`.
inside-zero_ranks :
    (rs : List Rank) (n : ℕ) → size rs ≡ some n → (p : List ℤ) → inside (zero_ranks rs) p ≡ false
unfolding size zero_ranks inside
inside-zero_ranks [] n e p = cc
inside-zero_ranks (r ∷ rs) n e [] = refl
inside-zero_ranks (r ∷ rs) n e (q ∷ p) = ground arith

inside-reset : (a : Aahr) → HasPoints a.ranks → (p : List ℤ) → inside (reset a).ranks p ≡ false
unfolding reset
inside-reset a (n, run, some_own) p = inside-zero_ranks a.ranks n run p

OneCut-length : (rs ss : List Rank) → OneCut rs ss → length rs ≡ length ss
OneCut-length [] [] h = refl
OneCut-length [] (s ∷ ss) h = absurd h
OneCut-length (r ∷ rs) [] h = absurd h
OneCut-length (r ∷ rs) (s ∷ ss) (inl (_, h)) = ap suc (OneCut-length rs ss h)
OneCut-length (r ∷ rs) (s ∷ ss) (inr (_, e)) = ap (λ t. suc (length t)) e

and_not_self : (b : Bool) → false ≡ (b && not b)
and_not_self b = ground arith

and_not-false : (a b : Bool) → (a ≡ true → b ≡ false) → a ≡ (a && not b)
and_not-false a b h = ground arith

-- What `Subtract` must leave.
abbrev Remains : Aahr → Aahr → Option (Aahr × Gradient) → Type 0
Remains a s run =
    (c : Aahr) × (g : Gradient) × (run ≡ some (c, g))
    × ((p : List ℤ)
        → length p ≡ length a.ranks
        → inside c.ranks p ≡ (inside a.ranks p && not (inside s.ranks p)))

settle_cut-Remains :
    (a s : Aahr) (c : Cut)
    → HasPoints a.ranks
    → Exact a.ranks s.ranks c
    → Remains a s (settle_cut a c)
unfolding settle_cut
settle_cut-Remains a s keep h e = absurd e
settle_cut-Remains a s fault h e = absurd e
settle_cut-Remains a s clear h e =
    (reset a, no_gradient, refl, λ p len. inside-reset a h p ∙ sym (e p len))
settle_cut-Remains a s (cut us g) h (len, e) = (record a { ranks = us }, g, refl, e)

-- Two rectangles with points and with bounds in order that agree at every rank but one at most,
-- where the second does not lie strictly within the first: `Subtract` succeeds, and a point is in
-- its result exactly if it was in the first and is not in the second.
pub subtract-OneCut :
    (a s : Aahr)
    → Ordered a.ranks
    → Ordered s.ranks
    → HasPoints a.ranks
    → HasPoints s.ranks
    → OneCut a.ranks s.ranks
    → (c : Aahr) × (g : Gradient) × (subtract a s ≡ some (c, g))
      × ((p : List ℤ)
          → length p ≡ length a.ranks
          → inside c.ranks p ≡ (inside a.ranks p && not (inside s.ranks p)))
unfolding subtract
subtract-OneCut a s o o' (n, run, some_own) (m, run', some_other) h =
    let len = OneCut-length a.ranks s.ranks h in
    let ok : (length a.ranks == length s.ranks) ≡ true = (==_iff _ _).1 len in
    let ne : (n == 0) ≡ false = ground arith in
    let ne' : (m == 0) ≡ false = ground arith in
    elim (Bool-cases (same a.ranks s.ranks)) [
      | inl e ↦
          let eq = same-eq a.ranks s.ranks len e in
          (
            reset a,
            no_gradient,
            rw (ok, run, run', ne, ne', e),
            λ p l.
                inside-reset a (n, run, some_own) p
                ∙ subst (λ t. false ≡ (inside a.ranks p && not (inside t p))) eq
                    (and_not_self (inside a.ranks p)),
          )
      | inr e ↦ elim (Bool-cases (apart a.ranks s.ranks)) [
        | inl away ↦ (
          a,
          no_gradient,
          rw (ok, run, run', ne, ne', e, away),
          λ p l.
              and_not-false (inside a.ranks p) (inside s.ranks p)
                (apart_lem a.ranks s.ranks p away),
        )
        | inr meets ↦
            let (c, g, done, exact) =
              settle_cut-Remains a s _ (n, run, some_own)
                (cut_loop-Exact 0 a.ranks s.ranks o o' meets e h) in
            (c, g, rw (ok, run, run', ne, ne', e, meets) done, exact)
      ]
    ]

covered_rank :
    (dim : ℕ) (r t : Rank)
    → t.low ≤ℤ r.low
    → r.high ≤ℤ t.high
    → (u : Rank) × (g : Gradient) × (cut_rank dim r t ≡ some (u, g)) × (eqb_ℤ u.low u.high ≡ true)
unfolding cut_rank
covered_rank dim r t h k = elim (Bool-cases (leb_ℤ t.high r.high)) [
  | inl high ↦
      let low : leb_ℤ t.low r.low ≡ true = ground arith in
      (
        record r { low = t.high },
        record { dimension = dim; value = t.high -ℤ r.low },
        rw (low, high),
        ground arith,
      )
  | inr high ↦
      let low : leb_ℤ t.low r.low ≡ true = ground arith in
      (record r { high = r.low }, no_gradient, rw (low, high), ground arith)
]

same-differ :
    (r t : Rank) (rs ts : List Rank) → same_rank r t ≡ false → same (r ∷ rs) (t ∷ ts) ≡ false
unfolding same
same-differ r t rs ts d = rw d

settle_cut-clear : (a : Aahr) → settle_cut a clear ≡ some (reset a, no_gradient)
unfolding settle_cut
settle_cut-clear a = refl

cut_loop-clear :
    (r t : Rank) (rs ts : List Rank)
    → same_rank r t ≡ false
    → t.low ≤ℤ r.low
    → r.high ≤ℤ t.high
    → cut_loop 0 false (r ∷ rs) (t ∷ ts) no_gradient ≡ clear
unfolding cut_loop after_cut
cut_loop-clear r t rs ts d low high =
    let (u, g, run, empty) = covered_rank 0 r t low high in rw (d, run, empty)

clears :
    (a s : Aahr) (r t : Rank) (rs ts : List Rank)
    → a.ranks ≡ r ∷ rs
    → s.ranks ≡ t ∷ ts
    → same_rank r t ≡ false
    → t.low ≤ℤ r.low
    → r.high ≤ℤ t.high
    → cut_loop 0 false a.ranks s.ranks no_gradient ≡ clear
clears a s r t rs ts ea es d low high = rw (ea, es) (cut_loop-clear r t rs ts d low high)

-- Two rectangles with points that overlap and whose first ranks differ, the second's covering the
-- first's: whatever the other ranks are, `Subtract` empties the first, and no point is left.
pub subtract_covered :
    (a s : Aahr) (r t : Rank) (rs ts : List Rank)
    → a.ranks ≡ r ∷ rs
    → s.ranks ≡ t ∷ ts
    → length rs ≡ length ts
    → HasPoints a.ranks
    → HasPoints s.ranks
    → apart a.ranks s.ranks ≡ false
    → same_rank r t ≡ false
    → t.low ≤ℤ r.low
    → r.high ≤ℤ t.high
    → (subtract a s ≡ some (reset a, no_gradient))
      × ((p : List ℤ) → inside (reset a).ranks p ≡ false)
unfolding subtract
subtract_covered a s r t rs ts ea es len (n, run, some_own) (m, run', some_other) meets d low high =
    let ok : (length a.ranks == length s.ranks) ≡ true =
      (==_iff _ _).1 (ap length ea ∙ ap suc len ∙ sym (ap length es)) in
    let ne : (n == 0) ≡ false = ground arith in
    let ne' : (m == 0) ≡ false = ground arith in
    let differ : same a.ranks s.ranks ≡ false = rw (ea, es) (same-differ r t rs ts d) in
    (
      rw (ok, run, run', ne, ne', differ, meets)
          (subst (λ c. settle_cut a c ≡ some (reset a, no_gradient))
            (sym (clears a s r t rs ts ea es d low high)) (settle_cut-clear a)),
      inside-reset a (n, run, some_own),
    )
