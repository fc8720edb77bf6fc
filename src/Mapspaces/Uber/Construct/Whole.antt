-- ===== src/Mapspaces/Uber/Construct/Whole.antt =====
-- `ConstructMapping` (src/mapspaces/uber.cpp): all its stages together, from what the subspaces give.
use mathlib.Core.List.{append_assoc, append-nil}
use timeloop.Prelude.{
  ℕ, ◌+◌, ◌<◌, ◌≡◌, refl, sym, ap, ap₂, ◌∙◌, subst, Bool, true, false, some, List, [], ◌∷◌, ◌++◌,
  map, length, All, arith,
}
use timeloop.Mapping.Loops.{Descriptor, Nest}
use timeloop.Mapspaces.Uber.Assign.{backwards, outer_first}
use timeloop.Mapspaces.Uber.Assign.Sums.{runs}
use timeloop.Mapspaces.Uber.Construct.{concatenate}
use timeloop.Mapspaces.Uber.Construct.Directions.{extent}
use timeloop.Mapspaces.Uber.Construct.Joins.{Plain, add_loops_lem}
use timeloop.Mapspaces.Uber.Construct.Levels.{Joined, Joined-spatial, close_level_lem}

abbrev pub flat : List (List Descriptor) → List Descriptor
flat [] = []
flat (nest ∷ nests) = nest ++ flat nests

abbrev pub temporal_count : List Bool → ℕ
temporal_count [] = 0
temporal_count (true ∷ mask) = temporal_count mask
temporal_count (false ∷ mask) = 1 + temporal_count mask

backwards-append : (xs ys : List Descriptor) → backwards (xs ++ ys) ≡ backwards ys ++ backwards xs
unfolding backwards
backwards-append [] ys = sym (append-nil (backwards ys))
backwards-append (x ∷ xs) ys =
    ap (λ zs. zs ++ (x ∷ [])) (backwards-append xs ys)
    ∙ append_assoc (backwards ys) (backwards xs) (x ∷ [])

pub backwards-flat : (nests : List (List Descriptor)) → backwards (flat nests) ≡ outer_first nests
unfolding backwards outer_first
backwards-flat [] = refl
backwards-flat (nest ∷ nests) =
    backwards-append nest (flat nests) ∙ ap (λ xs. xs ++ backwards nest) (backwards-flat nests)

pub concatenate_lem :
    (dims : ℕ) (mask : List Bool) (nests : List (List Descriptor)) (nest complete : Nest)
    (loops : List Descriptor) (n : ℕ)
    → length mask ≡ length nests
    → All (All Plain) nests
    → All (λ xs. 0 < length xs) nests
    → Joined nest complete loops n
    → (nest' complete' : Nest) × (concatenate dims mask nests nest complete
        ≡ some (nest', complete'))
      × Joined nest' complete' (loops ++ flat nests) (n + temporal_count mask)
unfolding concatenate
concatenate_lem dims [] [] nest complete loops n len plain some_loop joined = (
  nest,
  complete,
  refl,
  subst (λ xs. Joined nest complete xs (n + 0)) (sym (append-nil loops))
      (subst (Joined nest complete loops) (omega arith) joined),
)
concatenate_lem dims [] (x ∷ xs) nest complete loops n len plain some_loop joined =
    absurd (omega arith)
concatenate_lem dims (spatial ∷ mask) [] nest complete loops n len plain some_loop joined =
    absurd (omega arith)
concatenate_lem dims (true ∷ mask) (subnest ∷ nests) nest complete loops n len (now, plain)
      (_, some_loop) joined =
    let (nest', complete', after, run, added) =
      add_loops_lem subnest nest complete 0 now joined.alike in
    let (m, c, run', joined') =
      concatenate_lem dims mask nests nest' complete' (loops ++ subnest) n (omega arith) plain
        some_loop
        (Joined-spatial subnest loops n nest complete nest' complete' after joined added) in
    (
      m,
      c,
      rw run run',
      subst (λ xs. Joined m c xs (n + temporal_count mask))
          (append_assoc loops subnest (flat nests)) joined',
    )
concatenate_lem dims (false ∷ mask) (subnest ∷ nests) nest complete loops n len (now, plain)
      (first, some_loop) joined =
    let (nest', complete', after, run, added) =
      add_loops_lem subnest nest complete 0 now joined.alike in
    let (b, cb, run', joined') =
      close_level_lem subnest loops n nest complete nest' complete' after joined added dims first in
    let (m, c, run'', joined'') =
      concatenate_lem dims mask nests b cb (loops ++ subnest) (n + 1) (omega arith) plain some_loop
        joined' in
    (
      m,
      c,
      rw (run, run') run'',
      subst (λ xs. Joined m c xs (n + (1 + temporal_count mask)))
          (append_assoc loops subnest (flat nests))
          (subst (Joined m c ((loops ++ subnest) ++ flat nests)) (omega arith) joined''),
    )

-- Setting directions changes no count.
runs-extent :
    (d : ℕ) (loops : List Descriptor) (last : Bool)
    → runs d (map extent loops) last ≡ runs d loops last
runs-extent d [] last = refl
runs-extent d (loop ∷ loops) last = rw (runs-extent d loops false, runs-extent d loops last) refl

map-append : (xs ys : List Descriptor) → map extent (xs ++ ys) ≡ map extent xs ++ map extent ys
map-append [] ys = refl
map-append (x ∷ xs) ys = ap (λ zs. extent x ∷ zs) (map-append xs ys)

map-backwards : (xs : List Descriptor) → map extent (backwards xs) ≡ backwards (map extent xs)
unfolding backwards
map-backwards [] = refl
map-backwards (x ∷ xs) =
    map-append (backwards xs) (x ∷ []) ∙ ap (λ zs. zs ++ (extent x ∷ [])) (map-backwards xs)

map-outer_first :
    (nests : List (List Descriptor))
    → map extent (outer_first nests) ≡ outer_first (map (map extent) nests)
unfolding outer_first
map-outer_first [] = refl
map-outer_first (nest ∷ nests) =
    map-append (outer_first nests) (backwards nest)
    ∙ ap₂ ◌++◌ (map-outer_first nests) (map-backwards nest)

pub runs_directed :
    (d : ℕ) (directed assigned : List (List Descriptor))
    → map (map extent) directed ≡ map (map extent) assigned
    → runs d (outer_first directed) true ≡ runs d (outer_first assigned) true
runs_directed d directed assigned h =
    sym (runs-extent d (outer_first directed) true)
    ∙ ap (λ xs. runs d xs true)
        (map-outer_first directed ∙ ap outer_first h ∙ sym (map-outer_first assigned))
    ∙ runs-extent d (outer_first assigned) true
