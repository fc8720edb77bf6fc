-- ===== src/PointSet/Aahr/Subtract.antt =====
-- `Subtract` (src/loop-analysis/point-set-aahr.cpp).
use timeloop.Prelude.{
  ℕ, suc, ◌+◌, ◌≡◌, refl, sym, subst, ap, ◌∙◌, Bool, true, false, ◌&&◌, ◌||◌, not, ◌⊎◌, inl, inr,
  List, [], ◌∷◌, arith, Bool-cases, length, some,
}
use timeloop.Prelude.Int.{ℤ, ◌-ℤ◌, ◌≤ℤ◌, ltb_ℤ, leb_ℤ, eqb_ℤ}
use timeloop.PointSet.Aahr.{
  Rank, Gradient, no_gradient, inside, same, same_rank, apart, Cut, keep, clear, fault, cut, under,
  cut_rank, after_cut, cut_loop,
}
use timeloop.PointSet.Aahr.Difference.{Ordered, holds, or_false}

-- The second rank does not lie strictly within the first.
abbrev pub Unbroken : Rank → Rank → Type 0
Unbroken r s = (s.low ≤ℤ r.low) ⊎ (r.high ≤ℤ s.high)

-- The two agree at every rank but one at most, and the first is not broken in two there.
abbrev pub OneCut : List Rank → List Rank → Type 0
OneCut [] [] = Unit
OneCut [] (s ∷ ss) = ⊥
OneCut (r ∷ rs) [] = ⊥
OneCut (r ∷ rs) (s ∷ ss) = ((r ≡ s) × OneCut rs ss) ⊎ (Unbroken r s × (rs ≡ ss))

-- The points of the first that are not in the second.
abbrev pub left_over : List Rank → List Rank → List ℤ → Bool
left_over rs ss p = inside rs p && not (inside ss p)

-- A cut that keeps exactly those points.
abbrev pub Exact : List Rank → List Rank → Cut → Type 0
Exact rs ss keep = ⊥
Exact rs ss fault = ⊥
Exact rs ss clear = (p : List ℤ) → length p ≡ length rs → left_over rs ss p ≡ false
Exact rs ss (cut us g) =
    (length us ≡ length rs)
    × ((p : List ℤ) → length p ≡ length rs → inside us p ≡ left_over rs ss p)

same_rank_self : (r : Rank) → same_rank r r ≡ true
unfolding same_rank
same_rank_self r = ground arith

same_self : (rs : List Rank) → same rs rs ≡ true
unfolding same
same_self [] = refl
same_self (r ∷ rs) = rw (same_rank_self r, same_self rs)

-- Behind the rank that differs, the loop keeps the ranks.
cut_loop_same : (dim : ℕ) (rs : List Rank) (g : Gradient) → cut_loop dim true rs rs g ≡ cut rs g
unfolding cut_loop under
cut_loop_same dim [] g = refl
cut_loop_same dim (r ∷ rs) g = rw (same_rank_self r, cut_loop_same (dim + 1) rs g)

-- The rank that differs.
cut_rank_lem :
    (dim : ℕ) (r s : Rank)
    → r.low ≤ℤ r.high
    → s.low ≤ℤ s.high
    → leb_ℤ s.high r.low ≡ false
    → leb_ℤ r.high s.low ≡ false
    → Unbroken r s
    → (u : Rank) × (g : Gradient) × (cut_rank dim r s ≡ some (u, g))
      × ((q : ℤ) → holds u q ≡ (holds r q && not (holds s q)))
      × (eqb_ℤ u.low u.high ≡ true → (q : ℤ) → (holds r q && not (holds s q)) ≡ false)
unfolding cut_rank
cut_rank_lem dim r s o o' m m' b = elim (Bool-cases (leb_ℤ s.low r.low)) [
  | inl low ↦ elim (Bool-cases (leb_ℤ s.high r.high)) [
    | inl high ↦ (
      record r { low = s.high },
      record { dimension = dim; value = s.high -ℤ r.low },
      rw (low, high),
      λ q. ground arith,
      λ e q. ground arith,
    )
    | inr high ↦ (
      record r { high = r.low },
      no_gradient,
      rw (low, high),
      λ q. ground arith,
      λ e q. ground arith,
    )
  ]
  | inr low ↦
      let whole : ltb_ℤ s.high r.high ≡ false = ground arith in
      (
        record r { high = s.low },
        record { dimension = dim; value = s.low -ℤ r.high },
        rw (low, whole),
        λ q. ground arith,
        λ e q. ground arith,
      )
]

only_rank : (a b : Bool) → b ≡ true → (a && b) ≡ false → a ≡ false
only_rank a b e h = ground arith

drop_same : (h i j : Bool) → (h && (i && not j)) ≡ ((h && i) && not (h && j))
drop_same h i j = ground arith

drop_rank : (h k i : Bool) → ((h && not k) && i) ≡ ((h && i) && not (k && i))
drop_rank h k i = ground arith

left_over-same :
    (r : Rank) (rs ss : List Rank) (q : ℤ) (p : List ℤ)
    → left_over (r ∷ rs) (r ∷ ss) (q ∷ p) ≡ (holds r q && left_over rs ss p)
unfolding inside
left_over-same r rs ss q p = sym (drop_same (holds r q) (inside rs p) (inside ss p))

none_left :
    (r : Rank) (rs ss : List Rank)
    → ((p : List ℤ) → length p ≡ length rs → left_over rs ss p ≡ false)
    → (p : List ℤ) → length p ≡ suc (length rs)
    → left_over (r ∷ rs) (r ∷ ss) p ≡ false
none_left r rs ss e [] len = absurd (omega arith)
none_left r rs ss e (q ∷ p) len = left_over-same r rs ss q p ∙ rw (e p (omega arith)) (ground arith)

same_left :
    (r : Rank) (rs ss us : List Rank)
    → ((p : List ℤ) → length p ≡ length rs → inside us p ≡ left_over rs ss p)
    → (p : List ℤ) → length p ≡ suc (length rs)
    → inside (r ∷ us) p ≡ left_over (r ∷ rs) (r ∷ ss) p
unfolding inside
same_left r rs ss us e [] len = absurd (omega arith)
same_left r rs ss us e (q ∷ p) len =
    ap (λ b. holds r q && b) (e p (omega arith)) ∙ sym (left_over-same r rs ss q p)

under-Exact :
    (r : Rank) (rs ss : List Rank) (c : Cut) → Exact rs ss c → Exact (r ∷ rs) (r ∷ ss) (under r c)
unfolding under
under-Exact r rs ss keep e = e
under-Exact r rs ss fault e = e
under-Exact r rs ss clear e = none_left r rs ss e
under-Exact r rs ss (cut us g) (len, e) = (ap suc len, same_left r rs ss us e)

-- The points that a cut at the first rank leaves.
left_at :
    (r s u : Rank) (rs : List Rank)
    → ((q : ℤ) → holds u q ≡ (holds r q && not (holds s q)))
    → (p : List ℤ) → length p ≡ suc (length rs)
    → inside (u ∷ rs) p ≡ left_over (r ∷ rs) (s ∷ rs) p
unfolding inside
left_at r s u rs e [] len = absurd (omega arith)
left_at r s u rs e (q ∷ p) len =
    ap (λ b. b && inside rs p) (e q) ∙ drop_rank (holds r q) (holds s q) (inside rs p)

none_at :
    (r s : Rank) (rs : List Rank)
    → ((q : ℤ) → (holds r q && not (holds s q)) ≡ false)
    → (p : List ℤ) → length p ≡ suc (length rs)
    → left_over (r ∷ rs) (s ∷ rs) p ≡ false
unfolding inside
none_at r s rs e [] len = absurd (omega arith)
none_at r s rs e (q ∷ p) len =
    sym (drop_rank (holds r q) (holds s q) (inside rs p)) ∙ ap (λ b. b && inside rs p) (e q)

after_cut-Exact :
    (dim : ℕ) (r s u : Rank) (g : Gradient) (rs : List Rank)
    → ((q : ℤ) → holds u q ≡ (holds r q && not (holds s q)))
    → (eqb_ℤ u.low u.high ≡ true → (q : ℤ) → (holds r q && not (holds s q)) ≡ false)
    → Exact (r ∷ rs) (s ∷ rs) (after_cut (some (u, g)) (cut_loop dim true rs rs))
unfolding after_cut under
after_cut-Exact dim r s u g rs e z = elim (Bool-cases (eqb_ℤ u.low u.high)) [
  | inl empty ↦ rw empty (none_at r s rs (z empty))
  | inr full ↦ rw (full, cut_loop_same dim rs g) (refl, left_at r s u rs e)
]

pub cut_loop-Exact :
    (dim : ℕ) (rs ss : List Rank)
    → Ordered rs
    → Ordered ss
    → apart rs ss ≡ false
    → same rs ss ≡ false
    → OneCut rs ss
    → Exact rs ss (cut_loop dim false rs ss no_gradient)
unfolding cut_loop apart same
cut_loop-Exact dim [] [] o o' m d h = cc
cut_loop-Exact dim [] (s ∷ ss) o o' m d h = absurd h
cut_loop-Exact dim (r ∷ rs) [] o o' m d h = absurd h
cut_loop-Exact dim (r ∷ rs) (s ∷ ss) o o' m d (inl (e, h)) =
    let later = (or_false (leb_ℤ s.high r.low || leb_ℤ r.high s.low) (apart rs ss) m).1 in
    let agree : same_rank r s ≡ true = subst (λ t. same_rank r t ≡ true) e (same_rank_self r) in
    let differ : same rs ss ≡ false = subst (λ b. (b && same rs ss) ≡ false) agree d in
    rw agree (
      subst (λ t. Exact (r ∷ rs) (t ∷ ss) (under r (cut_loop (dim + 1) false rs ss no_gradient))) e
        (under-Exact r rs ss _ (cut_loop-Exact (dim + 1) rs ss o.1 o'.1 later differ h)))
cut_loop-Exact dim (r ∷ rs) (s ∷ ss) o o' m d (inr (b, e)) =
    let here = (or_false (leb_ℤ s.high r.low || leb_ℤ r.high s.low) (apart rs ss) m).0 in
    let (x, y) = or_false (leb_ℤ s.high r.low) (leb_ℤ r.high s.low) here in
    let differ : same_rank r s ≡ false =
      only_rank (same_rank r s) (same rs ss) (subst (λ t. same rs t ≡ true) e (same_self rs)) d in
    let (u, g, run, exact, empty) = cut_rank_lem dim r s o.0 o'.0 x y b in
    rw (differ, run, ← e) (after_cut-Exact (dim + 1) r s u g rs exact empty)
