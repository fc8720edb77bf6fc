-- ===== src/PointSet/Aahr/Merge.antt =====
-- `MergeIfAdjacent` (src/loop-analysis/point-set-aahr.cpp).
use mathlib.Core.Option.{some-injective}
use timeloop.Prelude.{
  suc, ◌≡◌, refl, sym, subst, ap, ap₂, ◌∙◌, Bool, true, false, ◌&&◌, ◌||◌, ◌⊎◌, inl, inr, List, [],
  ◌∷◌, arith, Bool-cases, Option-cases, if◌then◌else◌, length, some, none, ◌==◌, ◌>>=◌, ==_iff,
  >>=-eq-some,
}
use timeloop.Prelude.Int.{ℤ, pos, ◌+ℤ◌, ◌-ℤ◌, ◌≤ℤ◌, eqb_ℤ, +ℤ_parts, -ℤ_parts}
use timeloop.PointSet.Aahr.{Rank, Aahr, inside, merge_ranks, merge_if_adjacent}
use timeloop.PointSet.Aahr.Difference.{Ordered, holds}
use timeloop.PointSet.Aahr.Shift.{same_point}
use timeloop.PointSet.Aahr.Union.{HasPoints}

-- The tests at one rank: is the point in front of it, behind it, or all of it?
abbrev before : Rank → ℤ → Bool
before r p = eqb_ℤ p (r.low -ℤ pos 1)

abbrev behind : Rank → ℤ → Bool
behind r p = eqb_ℤ p r.high

abbrev single : Rank → ℤ → Bool
single r p = eqb_ℤ p r.low && eqb_ℤ (r.low +ℤ pos 1) r.high

abbrev grown : Rank → ℤ → Rank
grown r p =
    if before r p then record r { low = r.low -ℤ pos 1 } else record r { high = r.high +ℤ pos 1 }

holds-grown :
    (r : Rank) (p q : ℤ)
    → r.low ≤ℤ r.high
    → (before r p || behind r p) ≡ true
    → holds (grown r p) q ≡ (holds r q || eqb_ℤ q p)
holds-grown r p q o h = elim (Bool-cases (before r p)) [
  | inl front ↦ rw front (ground (arith, -ℤ_parts r.low (pos 1)))
  | inr other ↦ rw other (ground (arith, +ℤ_parts r.high (pos 1)))
]

holds-single : (r : Rank) (p q : ℤ) → single r p ≡ true → holds r q ≡ eqb_ℤ q p
holds-single r p q h = ground (arith, +ℤ_parts r.low (pos 1))

-- One round, by what the tests say.
merge_ranks-match :
    (m : Bool) (r : Rank) (rs : List Rank) (p : ℤ) (ps : List ℤ)
    → (before r p || behind r p) ≡ true
    → merge_ranks m (r ∷ rs) (p ∷ ps)
      ≡ (if m then none else merge_ranks true rs ps >>= λ us. some (grown r p ∷ us))
unfolding merge_ranks
merge_ranks-match m r rs p ps h = rw h

merge_ranks-single :
    (m : Bool) (r : Rank) (rs : List Rank) (p : ℤ) (ps : List ℤ)
    → (before r p || behind r p) ≡ false
    → single r p ≡ true
    → merge_ranks m (r ∷ rs) (p ∷ ps) ≡ (merge_ranks m rs ps >>= λ us. some (r ∷ us))
unfolding merge_ranks
merge_ranks-single m r rs p ps h k = rw (h, k)

merge_ranks-apart :
    (m : Bool) (r : Rank) (rs : List Rank) (p : ℤ) (ps : List ℤ)
    → (before r p || behind r p) ≡ false
    → single r p ≡ false
    → merge_ranks m (r ∷ rs) (p ∷ ps) ≡ none
unfolding merge_ranks
merge_ranks-apart m r rs p ps h k = rw (h, k)

grown_point : (h e i j : Bool) → i ≡ j → ((h || e) && i) ≡ ((h && i) || (e && j))
grown_point h e i j k = rw (← k) (ground arith)

single_point : (h e i j k : Bool) → h ≡ e → k ≡ (i || j) → (h && k) ≡ ((h && i) || (e && j))
single_point h e i j k a b = rw (← a, b) (ground arith)

none-some : {A : Type 0} {a : A} → ¬ (none ≡ some a)
none-some e = cc

no_ranks : (q ps : List ℤ) → length q ≡ 0 → inside [] q ≡ same_point q ps
unfolding inside
no_ranks [] ps l = refl
no_ranks (x ∷ q) ps l = absurd (omega arith)

merged_none : (us : List Rank) (ps : List ℤ) → merge_ranks true [] ps ≡ some us → us ≡ []
unfolding merge_ranks
merged_none us ps run = sym (some-injective _ _ run)

single_points :
    (r : Rank) (rs : List Rank) (p : ℤ) (ps : List ℤ)
    → single r p ≡ true
    → ((q : List ℤ) → length q ≡ length rs → inside rs q ≡ same_point q ps)
    → (q : List ℤ) → length q ≡ suc (length rs)
    → inside (r ∷ rs) q ≡ same_point q (p ∷ ps)
unfolding inside
single_points r rs p ps h e [] l = absurd (omega arith)
single_points r rs p ps h e (x ∷ q) l = ap₂ ◌&&◌ (holds-single r p x h) (e q (omega arith))

-- Once a rank has matched, the others must be the point's, and stay.
merge_ranks_rest :
    (rs us : List Rank) (ps : List ℤ)
    → length ps ≡ length rs
    → merge_ranks true rs ps ≡ some us
    → (us ≡ rs) × ((q : List ℤ) → length q ≡ length rs → inside rs q ≡ same_point q ps)
unfolding inside
merge_ranks_rest [] us ps len run = (merged_none us ps run, λ q l. no_ranks q ps l)
merge_ranks_rest (r ∷ rs) us [] len run = absurd (omega arith)
merge_ranks_rest (r ∷ rs) us (p ∷ ps) len run = elim (Bool-cases (before r p || behind r p)) [
  | inl match ↦ absurd (none-some (sym (merge_ranks-match true r rs p ps match) ∙ run))
  | inr other ↦ elim (Bool-cases (single r p)) [
    | inr away ↦ absurd (none-some (sym (merge_ranks-apart true r rs p ps other away) ∙ run))
    | inl here ↦
        let (vs, run', eq) =
          >>=-eq-some _ _ (sym (merge_ranks-single true r rs p ps other here) ∙ run) in
        let (same, points) = merge_ranks_rest rs vs ps (omega arith) run' in
        (sym (some-injective _ _ eq) ∙ ap (λ t. r ∷ t) same, single_points r rs p ps here points)
  ]
]

grown_points :
    (r : Rank) (rs us : List Rank) (p : ℤ) (ps : List ℤ)
    → r.low ≤ℤ r.high
    → (before r p || behind r p) ≡ true
    → us ≡ rs
    → ((q : List ℤ) → length q ≡ length rs → inside rs q ≡ same_point q ps)
    → (q : List ℤ) → length q ≡ suc (length rs)
    → inside (grown r p ∷ us) q ≡ (inside (r ∷ rs) q || same_point q (p ∷ ps))
unfolding inside
grown_points r rs us p ps o h same e [] l = absurd (omega arith)
grown_points r rs us p ps o h same e (x ∷ q) l =
    ap₂ ◌&&◌ (holds-grown r p x o h) (ap (λ t. inside t q) same)
    ∙ grown_point (holds r x) (eqb_ℤ x p) (inside rs q) (same_point q ps) (e q (omega arith))

more_points :
    (r : Rank) (rs us : List Rank) (p : ℤ) (ps : List ℤ)
    → single r p ≡ true
    → ((q : List ℤ) → length q ≡ length rs → inside us q ≡ (inside rs q || same_point q ps))
    → (q : List ℤ) → length q ≡ suc (length rs)
    → inside (r ∷ us) q ≡ (inside (r ∷ rs) q || same_point q (p ∷ ps))
unfolding inside
more_points r rs us p ps h e [] l = absurd (omega arith)
more_points r rs us p ps h e (x ∷ q) l =
    single_point (holds r x) (eqb_ℤ x p) (inside rs q) (same_point q ps) (inside us q)
      (holds-single r p x h) (e q (omega arith))

no_match : (ps : List ℤ) → merge_ranks false [] ps ≡ none
unfolding merge_ranks
no_match ps = refl

merge_ranks-points :
    (rs us : List Rank) (ps : List ℤ)
    → length ps ≡ length rs
    → Ordered rs
    → merge_ranks false rs ps ≡ some us
    → (q : List ℤ) → length q ≡ length rs
    → inside us q ≡ (inside rs q || same_point q ps)
merge_ranks-points [] us ps len o run = absurd (none-some (sym (no_match ps) ∙ run))
merge_ranks-points (r ∷ rs) us [] len o run = absurd (omega arith)
merge_ranks-points (r ∷ rs) us (p ∷ ps) len o run = elim (Bool-cases (before r p || behind r p)) [
  | inl match ↦
      let (vs, run', eq) = >>=-eq-some _ _ (sym (merge_ranks-match false r rs p ps match) ∙ run) in
      let (same, points) = merge_ranks_rest rs vs ps (omega arith) run' in
      subst
        (λ t.
          (q : List ℤ)
          → length q ≡ suc (length rs)
          → inside t q ≡ (inside (r ∷ rs) q || same_point q (p ∷ ps)))
        (some-injective _ _ eq) (grown_points r rs vs p ps o.0 match same points)
  | inr other ↦ elim (Bool-cases (single r p)) [
    | inr away ↦ absurd (none-some (sym (merge_ranks-apart false r rs p ps other away) ∙ run))
    | inl here ↦
        let (vs, run', eq) =
          >>=-eq-some _ _ (sym (merge_ranks-single false r rs p ps other here) ∙ run) in
        subst
          (λ t.
            (q : List ℤ)
            → length q ≡ suc (length rs)
            → inside t q ≡ (inside (r ∷ rs) q || same_point q (p ∷ ps)))
          (some-injective _ _ eq)
          (more_points r rs vs p ps here (merge_ranks-points rs vs ps (omega arith) o.1 run'))
  ]
]

-- A rectangle with points and with bounds in order, and a point of its order: `MergeIfAdjacent` does
-- not fail. Where it returns true, its rectangle holds exactly the points that it held and the new
-- one; where it returns false, the rectangle is as it was.
pub merge_if_adjacent_lem :
    (a : Aahr) (p : List ℤ)
    → length p ≡ length a.ranks
    → Ordered a.ranks
    → HasPoints a.ranks
    → (c : Aahr) × (merged : Bool) × (merge_if_adjacent a p ≡ some (c, merged))
      × (((merged ≡ true)
            × ((q : List ℤ)
                → length q ≡ length a.ranks
                → inside c.ranks q ≡ (inside a.ranks q || same_point q p)))
          ⊎ ((merged ≡ false) × (c ≡ a)))
unfolding merge_if_adjacent
merge_if_adjacent_lem a p len o (n, run, some_own) =
    let ok : (length p == length a.ranks) ≡ true = (==_iff _ _).1 len in
    let ne : (n == 0) ≡ false = ground arith in
    elim (Option-cases (merge_ranks false a.ranks p)) [
      | inl fails ↦ (a, false, rw (ok, run, ne, fails), inr (refl, refl))
      | inr (us, done) ↦ (
        record a { ranks = us },
        true,
        rw (ok, run, ne, done),
        inl (refl, merge_ranks-points a.ranks us p len o done),
      )
    ]
