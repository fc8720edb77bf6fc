-- ===== src/PointSet/Aahr/Difference.antt =====
-- `MultiSubtract` and `Contains` (src/loop-analysis/point-set-aahr.cpp).
use timeloop.Prelude.{
  ℕ, ◌+◌, ◌≡◌, refl, Bool, true, false, ◌&&◌, ◌||◌, not, inl, inr, List, [], ◌∷◌, ◌++◌, map, arith,
  Bool-cases, ap, ap₂, ◌∙◌, if◌then◌else◌, length,
}
use timeloop.Prelude.Int.{ℤ, ◌≤ℤ◌, ltb_ℤ, leb_ℤ}
use timeloop.PointSet.Aahr.{Rank, inside, side_slices, middle_rank, slices, apart, multi_subtract}

-- 1 for true.
abbrev pub one_if : Bool → ℕ
one_if true = 1
one_if false = 0

-- How many rectangles of a list hold the point.
abbrev pub cover : List ℤ → List (List Rank) → ℕ
cover p [] = 0
cover p (rs ∷ rows) = one_if (inside rs p) + cover p rows

abbrev pub holds : Rank → ℤ → Bool
holds r p = leb_ℤ r.low p && ltb_ℤ p r.high

-- Bounds in order at every rank.
abbrev pub Ordered : List Rank → Type 0
Ordered [] = Unit
Ordered (r ∷ rs) = (r.low ≤ℤ r.high) × Ordered rs

cover-append :
    (p : List ℤ) (xs ys : List (List Rank)) → cover p (xs ++ ys) ≡ cover p xs + cover p ys
cover-append p [] ys = omega arith
cover-append p (x ∷ xs) ys = omega (arith, cover-append p xs ys)

cover-map :
    (m : Rank) (q : ℤ) (p : List ℤ) (rows : List (List Rank))
    → cover (q ∷ p) (map (λ ps. m ∷ ps) rows) ≡ (if holds m q then cover p rows else 0)
unfolding inside
cover-map m q p [] = ground arith
cover-map m q p (row ∷ rows) = ground (arith, cover-map m q p rows)

left_slice :
    (m b : Rank) (q : ℤ) (rest : List Rank) (p : List ℤ)
    → cover (q ∷ p) (if ltb_ℤ m.low b.low then (record m { high = b.low } ∷ rest) ∷ [] else [])
      ≡ (if leb_ℤ m.low q && ltb_ℤ q b.low then one_if (inside rest p) else 0)
unfolding inside
left_slice m b q rest p = ground arith

right_slice :
    (m b : Rank) (q : ℤ) (rest : List Rank) (p : List ℤ)
    → cover
        (q ∷ p)
        (if ltb_ℤ b.high m.high then (record { low = b.high; high = m.high } ∷ rest) ∷ [] else [])
      ≡ (if leb_ℤ b.high q && ltb_ℤ q m.high then one_if (inside rest p) else 0)
unfolding inside
right_slice m b q rest p = ground arith

both_sides :
    (m b : Rank) (q : ℤ) (n : ℕ)
    → b.low ≤ℤ b.high
    → b.low ≤ℤ m.high
    → m.low ≤ℤ b.high
    → (if leb_ℤ m.low q && ltb_ℤ q b.low then n else 0)
        + (if leb_ℤ b.high q && ltb_ℤ q m.high then n else 0)
      ≡ (if holds m q && not (holds b q) then n else 0)
both_sides m b q n h k l = ground arith

-- One rank: the sides hold what the second rectangle does not, the middle what it does.
cover-side_slices :
    (m b : Rank) (q : ℤ) (rest : List Rank) (p : List ℤ)
    → b.low ≤ℤ b.high
    → b.low ≤ℤ m.high
    → m.low ≤ℤ b.high
    → cover (q ∷ p) (side_slices m b rest)
      ≡ (if holds m q && not (holds b q) then one_if (inside rest p) else 0)
unfolding side_slices
cover-side_slices m b q rest p h k l =
    cover-append (q ∷ p) (if ltb_ℤ m.low b.low then (record m { high = b.low } ∷ rest) ∷ [] else [])
      _
    ∙ ap₂ ◌+◌ (left_slice m b q rest p) (right_slice m b q rest p)
    ∙ both_sides m b q (one_if (inside rest p)) h k l

holds-middle_rank : (m b : Rank) (q : ℤ) → holds (middle_rank m b) q ≡ (holds m q && holds b q)
unfolding middle_rank
holds-middle_rank m b q = ground arith

-- No rank where the two are apart.
abbrev Meet : List Rank → List Rank → Type 0
Meet [] [] = Unit
Meet [] (b ∷ bs) = ⊥
Meet (m ∷ ms) [] = ⊥
Meet (m ∷ ms) (b ∷ bs) = (b.low ≤ℤ m.high) × (m.low ≤ℤ b.high) × Meet ms bs

pub or_false : (a b : Bool) → (a || b) ≡ false → (a ≡ false) × (b ≡ false)
or_false true b h = cc
or_false false b h = (refl, h)

apart-false : (ms bs : List Rank) → length ms ≡ length bs → apart ms bs ≡ false → Meet ms bs
unfolding apart
apart-false [] [] e h = tt
apart-false [] (b ∷ bs) e h = absurd (omega arith)
apart-false (m ∷ ms) [] e h = absurd (omega arith)
apart-false (m ∷ ms) (b ∷ bs) e h =
    let (here, later) = or_false (leb_ℤ b.high m.low || leb_ℤ m.high b.low) (apart ms bs) h in
    let (x, y) = or_false (leb_ℤ b.high m.low) (leb_ℤ m.high b.low) here in
    (ground arith, ground arith, apart-false ms bs (omega arith) later)

-- A point that both hold, or that the first holds, as the loop counts it.
combine :
    (l h l' h' u v : Bool) (n : ℕ)
    → n ≡ one_if (u && not v)
    → (if (l && h) && not (l' && h') then one_if u else 0)
        + (if (l && h) && (l' && h') then n else 0)
      ≡ one_if ((l && h && u) && not (l' && h' && v))
combine l h l' h' u v n e = ground arith

slices_lem :
    (ms bs : List Rank) (p : List ℤ)
    → length p ≡ length ms
    → Ordered bs
    → Meet ms bs
    → cover p (slices ms bs) ≡ one_if (inside ms p && not (inside bs p))
unfolding slices inside
slices_lem [] [] p e o h = refl
slices_lem [] (b ∷ bs) p e o h = absurd h
slices_lem (m ∷ ms) [] p e o h = absurd h
slices_lem (m ∷ ms) (b ∷ bs) [] e o h = absurd (omega arith)
slices_lem (m ∷ ms) (b ∷ bs) (q ∷ p) e o h =
    cover-append (q ∷ p) (side_slices m b ms) _
    ∙ ap₂ ◌+◌ (cover-side_slices m b q ms p o.0 h.0 h.1) (
        cover-map (middle_rank m b) q p (slices ms bs)
        ∙ ap (λ t. if t then cover p (slices ms bs) else 0) (holds-middle_rank m b q))
    ∙ combine (leb_ℤ m.low q) (ltb_ℤ q m.high) (leb_ℤ b.low q) (ltb_ℤ q b.high) (inside ms p)
        (inside bs p) (cover p (slices ms bs)) (slices_lem ms bs p (omega arith) o.1 h.2)

-- Where two rectangles are apart, no point lies in both.
pub apart_lem :
    (ms bs : List Rank) (p : List ℤ) → apart ms bs ≡ true → inside ms p ≡ true → inside bs p ≡ false
unfolding apart inside
apart_lem [] bs p h k = cc
apart_lem (m ∷ ms) [] p h k = cc
apart_lem (m ∷ ms) (b ∷ bs) [] h k = cc
apart_lem (m ∷ ms) (b ∷ bs) (q ∷ p) h k = ground (arith, apart_lem ms bs p)

-- For a point of the right order, and a second rectangle with its bounds in order, the number of
-- rectangles of `MultiSubtract` that hold the point is 1 if the first rectangle holds it and the
-- second does not, and else 0: they are disjoint, and make up the set difference.
pub cover-multi_subtract :
    (a b : List Rank) (p : List ℤ)
    → length p ≡ length a
    → length a ≡ length b
    → Ordered b
    → cover p (multi_subtract a b) ≡ one_if (inside a p && not (inside b p))
unfolding multi_subtract
cover-multi_subtract a b p e e' o = elim (Bool-cases (apart a b)) [
  | inl yes_apart ↦ rw yes_apart (ground (arith, apart_lem a b p yes_apart))
  | inr meet ↦ rw meet (slices_lem a b p e o (apart-false a b e' meet))
]
