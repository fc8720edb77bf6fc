-- ===== src/PointSet/Aahr/Union.antt =====
-- `Add` (src/loop-analysis/point-set-aahr.cpp) on two rectangles that differ along one rank.
use timeloop.Prelude.{
  ℕ, suc, ◌<◌, ◌≡◌, refl, Bool, true, false, ◌&&◌, ◌||◌, ◌⊎◌, inl, inr, List, [], ◌∷◌, arith,
  Bool-cases, ap, ap₂, sym, ◌∙◌, subst, if◌then◌else◌, length, some, ◌==◌, ==_iff,
}
use timeloop.Prelude.Int.{ℤ, ◌≤ℤ◌, ltb_ℤ, eqb_ℤ_iff}
use timeloop.PointSet.Aahr.{Rank, Aahr, inside, size, same, same_rank, add_rank, add_ranks, add}
use timeloop.PointSet.Aahr.Difference.{Ordered, holds}

-- The least rank that holds both.
abbrev pub hull : Rank → Rank → Rank
hull r s = record {
  low = if ltb_ℤ s.low r.low then s.low else r.low;
  high = if ltb_ℤ r.high s.high then s.high else r.high;
}

abbrev pub Touch : Rank → Rank → Type 0
Touch r s = (r.low ≤ℤ s.high) × (s.low ≤ℤ r.high)

-- The two agree at every rank but one at most, and touch or overlap there.
abbrev pub OneAxis : List Rank → List Rank → Type 0
OneAxis [] [] = Unit
OneAxis [] (s ∷ ss) = ⊥
OneAxis (r ∷ rs) [] = ⊥
OneAxis (r ∷ rs) (s ∷ ss) = ((r ≡ s) × OneAxis rs ss) ⊎ (Touch r s × (rs ≡ ss))

abbrev hulls : List Rank → List Rank → List Rank
hulls [] ss = []
hulls (r ∷ rs) [] = []
hulls (r ∷ rs) (s ∷ ss) = hull r s ∷ hulls rs ss

hull_self : (r : Rank) → hull r r ≡ r
hull_self r = ground arith

hulls_self : (rs : List Rank) → hulls rs rs ≡ rs
hulls_self [] = refl
hulls_self (r ∷ rs) = ap₂ ◌∷◌ (hull_self r) (hulls_self rs)

add_rank-Touch :
    (extrude : Bool) (r s : Rank)
    → Touch r s
    → add_rank extrude r s ≡ some (hull r s, ltb_ℤ s.low r.low || ltb_ℤ r.high s.high)
unfolding add_rank
add_rank-Touch extrude r s t = ground arith

add_rank_self :
    (extrude : Bool) (r : Rank) → r.low ≤ℤ r.high → add_rank extrude r r ≡ some (r, false)
unfolding add_rank
add_rank_self extrude r h = ground arith

add_ranks_self :
    (extrude found : Bool) (rs : List Rank) → Ordered rs → add_ranks extrude found rs rs ≡ some rs
unfolding add_ranks
add_ranks_self extrude found [] o = refl
add_ranks_self extrude true (r ∷ rs) o =
    rw (add_rank_self extrude r o.0, add_ranks_self extrude true rs o.1)
add_ranks_self extrude false (r ∷ rs) o =
    rw (add_rank_self extrude r o.0, add_ranks_self extrude false rs o.1)

add_ranks-OneAxis :
    (extrude : Bool) (rs ss : List Rank)
    → Ordered rs
    → OneAxis rs ss
    → add_ranks extrude false rs ss ≡ some (hulls rs ss)
unfolding add_ranks
add_ranks-OneAxis extrude [] [] o h = refl
add_ranks-OneAxis extrude [] (s ∷ ss) o h = absurd h
add_ranks-OneAxis extrude (r ∷ rs) [] o h = absurd h
add_ranks-OneAxis extrude (r ∷ rs) (s ∷ ss) o (inl (e, h)) =
    rw (← e, add_rank_self extrude r o.0, add_ranks-OneAxis extrude rs ss o.1 h)
      (ap (λ t. some (t ∷ hulls rs ss)) (sym (hull_self r)))
add_ranks-OneAxis extrude (r ∷ rs) (s ∷ ss) o (inr (t, e)) =
    rw (← e, hulls_self, add_rank-Touch extrude r s t, add_ranks_self extrude _ rs o.1)

holds-hull :
    (r s : Rank) (q : ℤ)
    → r.low ≤ℤ r.high
    → s.low ≤ℤ s.high
    → Touch r s
    → holds (hull r s) q ≡ (holds r q || holds s q)
holds-hull r s q o o' t = ground arith

or_self : (a : Bool) → a ≡ (a || a)
or_self a = ground arith

and_or : (a b c : Bool) → (a && (b || c)) ≡ ((a && b) || (a && c))
and_or a b c = ground arith

or_and : (a b c : Bool) → ((a || b) && c) ≡ ((a && c) || (b && c))
or_and a b c = ground arith

inside-hulls :
    (rs ss : List Rank) (p : List ℤ)
    → length p ≡ length rs
    → Ordered rs
    → Ordered ss
    → OneAxis rs ss
    → inside (hulls rs ss) p ≡ (inside rs p || inside ss p)
unfolding inside
inside-hulls [] [] p e o o' h = refl
inside-hulls [] (s ∷ ss) p e o o' h = absurd h
inside-hulls (r ∷ rs) [] p e o o' h = absurd h
inside-hulls (r ∷ rs) (s ∷ ss) [] e o o' h = absurd (omega arith)
inside-hulls (r ∷ rs) (s ∷ ss) (q ∷ p) e o o' (inl (same_head, h)) =
    let ih = inside-hulls rs ss p (omega arith) o.1 o'.1 h in
    rw (← same_head) (
      ap₂ ◌&&◌ (ap (λ t. holds t q) (hull_self r)) ih
      ∙ and_or (holds r q) (inside rs p) (inside ss p))
inside-hulls (r ∷ rs) (s ∷ ss) (q ∷ p) e o o' (inr (t, same_tail)) =
    rw (← same_tail, hulls_self)
      (ap (λ b. b && inside rs p) (holds-hull r s q o.0 o'.0 t)
        ∙ or_and (holds r q) (holds s q) (inside rs p))

pub and_true : (a b : Bool) → (a && b) ≡ true → (a ≡ true) × (b ≡ true)
and_true true b h = (refl, h)
and_true false b h = cc

same_rank-eq : (r s : Rank) → same_rank r s ≡ true → r ≡ s
unfolding same_rank
same_rank-eq r s h = ground (arith, eqb_ℤ_iff r.low s.low, eqb_ℤ_iff r.high s.high)

pub same-eq : (rs ss : List Rank) → length rs ≡ length ss → same rs ss ≡ true → rs ≡ ss
unfolding same
same-eq [] [] e h = refl
same-eq [] (s ∷ ss) e h = absurd (omega arith)
same-eq (r ∷ rs) [] e h = absurd (omega arith)
same-eq (r ∷ rs) (s ∷ ss) e h =
    let (x, y) = and_true (same_rank r s) (same rs ss) h in
    ap₂ ◌∷◌ (same_rank-eq r s x) (same-eq rs ss (omega arith) y)

OneAxis-length : (rs ss : List Rank) → OneAxis rs ss → length rs ≡ length ss
OneAxis-length [] [] h = refl
OneAxis-length [] (s ∷ ss) h = absurd h
OneAxis-length (r ∷ rs) [] h = absurd h
OneAxis-length (r ∷ rs) (s ∷ ss) (inl (_, h)) = ap suc (OneAxis-length rs ss h)
OneAxis-length (r ∷ rs) (s ∷ ss) (inr (_, e)) = ap (λ t. suc (length t)) e

-- A size that is defined and not zero.
abbrev pub HasPoints : List Rank → Type 0
HasPoints rs = (n : ℕ) × (size rs ≡ some n) × (0 < n)

-- Two rectangles with points and with bounds in order that agree at every rank but one at most, and
-- touch or overlap there: `Add` succeeds, whether it may extrude or not, and a point is in its
-- result exactly if it is in one of the two.
pub add-OneAxis :
    (extrude : Bool) (a s : Aahr)
    → Ordered a.ranks
    → Ordered s.ranks
    → HasPoints a.ranks
    → HasPoints s.ranks
    → OneAxis a.ranks s.ranks
    → (c : Aahr) × (add extrude a s ≡ some c)
      × ((p : List ℤ)
          → length p ≡ length a.ranks
          → inside c.ranks p ≡ (inside a.ranks p || inside s.ranks p))
unfolding add
add-OneAxis extrude a s o o' (n, run, pos) (m, run', pos') h =
    let ok : (length a.ranks == length s.ranks) ≡ true =
      (==_iff _ _).1 (OneAxis-length a.ranks s.ranks h) in
    let ne : (n == 0) ≡ false = ground arith in
    let ne' : (m == 0) ≡ false = ground arith in
    elim (Bool-cases (same a.ranks s.ranks)) [
      | inl e ↦
          let eq = same-eq a.ranks s.ranks (OneAxis-length a.ranks s.ranks h) e in
          (
            a,
            rw (ok, run, run', ne, ne', e),
            λ p len.
                subst (λ t. inside a.ranks p ≡ (inside a.ranks p || inside t p)) eq
                  (or_self (inside a.ranks p)),
          )
      | inr e ↦ (
        record a { ranks = hulls a.ranks s.ranks },
        rw (ok, run, run', ne, ne', e, add_ranks-OneAxis extrude a.ranks s.ranks o h),
        λ p len. inside-hulls a.ranks s.ranks p len o o' h,
      )
    ]
