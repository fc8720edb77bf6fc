-- ===== src/Mapspaces/Uber/Construct/Mappings.antt =====
-- `ConstructMapping` (src/mapspaces/uber.cpp) from the first stage to the last.
use mathlib.Core.List.{head-eq_of_cons-eq, tail-eq_of_cons-eq}
use timeloop.Prelude.{
  ℕ, suc, ◌<◌, ◌≡◌, refl, sym, ap, ◌∙◌, subst, Bool, List, [], ◌∷◌, ◌++◌, map, length, length-map,
  All, arith,
}
use timeloop.Mapping.Loops.{Descriptor}
use timeloop.Mapspaces.Uber.Assign.{backwards, outer_first}
use timeloop.Mapspaces.Uber.Assign.Levels.{Sound}
use timeloop.Mapspaces.Uber.Construct.Stages.{IsOrder, blank, facing, blanks}
use timeloop.Mapspaces.Uber.Construct.Directions.{extent, Facing, FacingNests}
use timeloop.Mapspaces.Uber.Construct.Joins.{Plain}

All-split : (xs ys : List Descriptor) → All Sound (xs ++ ys) → All Sound xs × All Sound ys
All-split [] ys h = (tt, h)
All-split (x ∷ xs) ys (p, h) = let (a, b) = All-split xs ys h in ((p, a), b)

unturn : (xs : List Descriptor) → All Sound (backwards xs) → All Sound xs
unfolding backwards
unturn [] h = tt
unturn (x ∷ xs) h = let (a, (b, _)) = All-split (backwards xs) (x ∷ []) h in (b, unturn xs a)

-- A loop as the last stage finds it: its shape is a placeholder's, and its ends are sound.
settled :
    (spatial : Bool) (loops : List Descriptor)
    → All (Facing spatial) loops
    → All Sound loops
    → All Plain loops
settled spatial [] f s = tt
settled spatial (loop ∷ loops) ((start, stride, _), f) (s, ss) =
    ((start, stride, s), settled spatial loops f ss)

pub settled_all :
    (mask : List Bool) (nests : List (List Descriptor))
    → FacingNests mask nests
    → All Sound (outer_first nests)
    → All (All Plain) nests
unfolding outer_first
settled_all mask [] f s = tt
settled_all [] (nest ∷ nests) f s = absurd f
settled_all (spatial ∷ mask) (nest ∷ nests) (f, fs) s =
    let (a, b) = All-split (outer_first nests) (backwards nest) s in
    (settled spatial nest f (unturn nest b), settled_all mask nests fs a)

Plain-extent :
    (xs ys : List Descriptor) → map extent xs ≡ map extent ys → All Plain ys → All Plain xs
Plain-extent [] ys h p = tt
Plain-extent (x ∷ xs) [] h p = cc
Plain-extent (x ∷ xs) (y ∷ ys) h (p, ps) =
    let e : extent x ≡ extent y = head-eq_of_cons-eq h in
    (subst Plain' (sym e) p, Plain-extent xs ys (tail-eq_of_cons-eq h) ps)
  where
    Plain' : Descriptor → Type 0
    Plain' loop = Plain loop

pub Plain-extents :
    (xss yss : List (List Descriptor))
    → map (map extent) xss ≡ map (map extent) yss
    → All (All Plain) yss
    → All (All Plain) xss
Plain-extents [] yss h p = tt
Plain-extents (xs ∷ xss) [] h p = cc
Plain-extents (xs ∷ xss) (ys ∷ yss) h (p, ps) =
    (Plain-extent xs ys (head-eq_of_cons-eq h) p, Plain-extents xss yss (tail-eq_of_cons-eq h) ps)

map-length-eq :
    (f : Descriptor → Descriptor) (xs ys : List Descriptor)
    → map f xs ≡ map f ys
    → length xs ≡ length ys
map-length-eq f xs ys h = sym (length-map f xs) ∙ ap length h ∙ length-map f ys

pub filled :
    (f : Descriptor → Descriptor) (xss yss : List (List Descriptor))
    → map (map f) xss ≡ map (map f) yss
    → All (λ ys. 0 < length ys) yss
    → All (λ xs. 0 < length xs) xss
filled f [] yss h p = tt
filled f (xs ∷ xss) [] h p = cc
filled f (xs ∷ xss) (ys ∷ yss) h (p, ps) = (
  subst (λ n. 0 < n) (sym (map-length-eq f xs ys (head-eq_of_cons-eq h))) p,
  filled f xss yss (tail-eq_of_cons-eq h) ps,
)

pub nests-length :
    (f : Descriptor → Descriptor) (xss yss : List (List Descriptor))
    → map (map f) xss ≡ map (map f) yss
    → length xss ≡ length yss
nests-length f xss yss h = sym (length-map (map f) xss) ∙ ap length h ∙ length-map (map f) yss

pub blanks_filled :
    (n : ℕ) (mask : List Bool) (patterns : List (List ℕ))
    → 0 < n
    → All (IsOrder n) patterns
    → All (λ xs. 0 < length xs) (blanks mask patterns)
blanks_filled n [] patterns some_dim h = tt
blanks_filled n (spatial ∷ mask) [] some_dim h = tt
blanks_filled n (spatial ∷ mask) (dims ∷ patterns) some_dim (order, h) = (
  omega (arith, length-map (blank (facing spatial)) dims, order.0),
  blanks_filled n mask patterns some_dim h,
)

pub blanks-length :
    (mask : List Bool) (patterns : List (List ℕ))
    → length mask ≡ length patterns
    → length (blanks mask patterns) ≡ length mask
blanks-length [] patterns h = refl
blanks-length (spatial ∷ mask) [] h = absurd (omega arith)
blanks-length (spatial ∷ mask) (dims ∷ patterns) h =
    ap suc (blanks-length mask patterns (omega arith))
