-- ===== src/PointSet/Aahr/Shift.antt =====
-- `Translate`, `GetTranslation` and `MergeIfAdjacent` (src/loop-analysis/point-set-aahr.cpp).
use timeloop.Prelude.{
  suc, ◌≡◌, refl, Bool, true, false, ◌&&◌, List, [], ◌∷◌, arith, ap, ap₂, sym, length, some, ◌==◌,
  ==_iff,
}
use timeloop.Prelude.Int.{ℤ, ◌+ℤ◌, ◌-ℤ◌, eqb_ℤ, eqb_ℤ_iff, +ℤ_parts, -ℤ_parts}
use timeloop.PointSet.Aahr.{
  Rank, Aahr, inside, translate, translate_ranks, get_translation, translation_ranks,
}
use timeloop.PointSet.Aahr.Difference.{holds}

-- A point moved by a vector.
abbrev pub moved : List ℤ → List ℤ → List ℤ
moved [] ps = []
moved (q ∷ qs) [] = []
moved (q ∷ qs) (p ∷ ps) = (q +ℤ p) ∷ moved qs ps

-- The same coordinates.
abbrev pub same_point : List ℤ → List ℤ → Bool
same_point [] ps = true
same_point (q ∷ qs) [] = false
same_point (q ∷ qs) (p ∷ ps) = eqb_ℤ q p && same_point qs ps

back : (a p : ℤ) → (a +ℤ p) -ℤ a ≡ p
back a p = (eqb_ℤ_iff ((a +ℤ p) -ℤ a) p).0 (ground (arith, +ℤ_parts a p, -ℤ_parts (a +ℤ p) a))

holds-moved :
    (r : Rank) (q p : ℤ)
    → holds (record { low = r.low +ℤ p; high = r.high +ℤ p }) (q +ℤ p) ≡ holds r q
holds-moved r q p = ground (arith, +ℤ_parts r.low p, +ℤ_parts r.high p, +ℤ_parts q p)

translation-translate :
    (rs : List Rank) (p : List ℤ)
    → length rs ≡ length p
    → translation_ranks rs (translate_ranks rs p) ≡ some p
unfolding translation_ranks translate_ranks
translation-translate [] [] e = refl
translation-translate [] (q ∷ p) e = absurd (omega arith)
translation-translate (r ∷ rs) [] e = absurd (omega arith)
translation-translate (r ∷ rs) (q ∷ p) e =
    rw (
      back r.low q,
      back r.high q,
      (eqb_ℤ_iff q q).1 refl,
      translation-translate rs p (omega arith),
    )

length-translate :
    (rs : List Rank) (p : List ℤ) → length rs ≡ length p → length (translate_ranks rs p) ≡ length rs
unfolding translate_ranks
length-translate [] p e = refl
length-translate (r ∷ rs) [] e = absurd (omega arith)
length-translate (r ∷ rs) (q ∷ p) e = ap suc (length-translate rs p (omega arith))

inside-translate :
    (rs : List Rank) (p q : List ℤ)
    → length rs ≡ length p
    → length q ≡ length rs
    → inside (translate_ranks rs p) (moved q p) ≡ inside rs q
unfolding inside translate_ranks
inside-translate [] p q e e' = refl
inside-translate (r ∷ rs) [] q e e' = absurd (omega arith)
inside-translate (r ∷ rs) (x ∷ p) [] e e' = absurd (omega arith)
inside-translate (r ∷ rs) (x ∷ p) (y ∷ q) e e' =
    ap₂ ◌&&◌ (holds-moved r y x) (inside-translate rs p q (omega arith) (omega arith))

-- A vector of the rectangle's order: `Translate` succeeds, `GetTranslation` then gives the vector
-- back, and a point is in the rectangle exactly if the point moved by the vector is in the result.
pub get_translation-translate :
    (a : Aahr) (p : List ℤ)
    → length a.ranks ≡ length p
    → (b : Aahr) × (translate a p ≡ some b)
      × (get_translation a b ≡ some p)
      × ((q : List ℤ) → length q ≡ length a.ranks → inside b.ranks (moved q p) ≡ inside a.ranks q)
unfolding translate get_translation
get_translation-translate a p e =
    let ok : (length a.ranks == length p) ≡ true = (==_iff _ _).1 e in
    let ok' : (length a.ranks == length (translate_ranks a.ranks p)) ≡ true =
      (==_iff _ _).1 (sym (length-translate a.ranks p e)) in
    (
      record a { ranks = translate_ranks a.ranks p },
      rw (ok),
      rw (ok') (translation-translate a.ranks p e),
      λ q e'. inside-translate a.ranks p q e e',
    )
