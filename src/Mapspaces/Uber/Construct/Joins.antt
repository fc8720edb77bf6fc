-- ===== src/Mapspaces/Uber/Construct/Joins.antt =====
-- The concatenation of the subnests in `ConstructMapping` (src/mapspaces/uber.cpp).
use native.Mathlib.Nat.{zero-mul}
use mathlib.Core.List.{append-nil, append_assoc}
use timeloop.Prelude.{
  ℕ, ◌+◌, ◌-◌, ◌*◌, ◌≡◌, refl, sym, ap, ap₂, ◌∙◌, inl, inr, Bool, true, false, List, [], ◌∷◌, ◌++◌,
  ltb, ◌==◌, if◌then◌else◌, length, length-append, All, arith, Bool-cases, ltb→le,
}
use timeloop.Mapping.Loops.{Descriptor, Nest, add_loop}
use timeloop.Mapspaces.Uber.Assign.{backwards}
use timeloop.Mapspaces.Uber.Assign.Levels.{Sound}
use timeloop.Mapspaces.Uber.Assign.Sums.{runs}
use timeloop.Mapspaces.Uber.Construct.{add_loops}

-- A loop from 0 in steps of 1.
abbrev pub Plain : Descriptor → Type 0
Plain loop = (loop.start ≡ 0) × (loop.stride ≡ 1) × Sound loop

backwards-snoc :
    (xs : List Descriptor) (loop : Descriptor) → backwards (xs ++ (loop ∷ [])) ≡ loop ∷ backwards xs
unfolding backwards
backwards-snoc [] loop = refl
backwards-snoc (x ∷ xs) loop = ap (λ ys. ys ++ (x ∷ [])) (backwards-snoc xs loop)

abbrev iterations : ℕ → Bool → Nest → ℕ
iterations d last nest = runs d (backwards nest.loops) last

-- Along every dimension, the two nests run equally often.
abbrev pub Alike : Nest → Nest → Type 0
Alike nest complete =
    (d : ℕ) (last : Bool)
    → runs d (backwards nest.loops) last ≡ runs d (backwards complete.loops) last

add_both :
    (loop : Descriptor) (nest complete : Nest)
    → Alike nest complete
    → Alike (add_loop loop nest) (add_loop loop complete)
unfolding add_loop
add_both loop nest complete h d last =
    ap (λ xs. runs d xs last) (backwards-snoc nest.loops loop)
    ∙ ap₂
        (λ a b.
          if loop.dimension == d
          then ((if last then loop.residual_end else loop.end) - 1) * a + b
          else b)
        (h d false) (h d last)
    ∙ sym (ap (λ xs. runs d xs last) (backwards-snoc complete.loops loop))

-- A loop that runs once changes no count.
pub add_once :
    (loop : Descriptor) (nest : Nest) (d : ℕ) (last : Bool)
    → loop.end ≡ 1
    → loop.residual_end ≡ 1
    → runs d (backwards (add_loop loop nest).loops) last ≡ runs d (backwards nest.loops) last
unfolding add_loop
add_once loop nest d last e r = ap (λ xs. runs d xs last) (backwards-snoc nest.loops loop) ∙ go last
  where
    none_more :
        (l : Bool)
        → ((if l then loop.residual_end else loop.end) - 1) * runs d (backwards nest.loops) false
            + runs d (backwards nest.loops) l
          ≡ runs d (backwards nest.loops) l
    none_more true = rw r (
        ap (λ t. t + runs d (backwards nest.loops) true)
          (zero-mul (runs d (backwards nest.loops) false))
        ∙ omega arith)
    none_more false = rw e (
        ap (λ t. t + runs d (backwards nest.loops) false)
          (zero-mul (runs d (backwards nest.loops) false))
        ∙ omega arith)

    go : (l : Bool) → runs d (loop ∷ backwards nest.loops) l ≡ runs d (backwards nest.loops) l
    go l = elim (Bool-cases (loop.dimension == d)) [
      | inl s ↦ rw s (none_more l)
      | inr s ↦ rw s refl
    ]

-- What adding a level's loops does.
pub record Added (loops : List Descriptor) (nest complete nest' complete' : Nest) (before after : ℕ)
    : Type 0 where
  pub alike : Alike nest' complete'
  pub whole : complete'.loops ≡ complete.loops ++ loops
  pub bounds : nest'.storage_tiling_boundaries ≡ nest.storage_tiling_boundaries
  pub complete_bounds : complete'.storage_tiling_boundaries ≡ complete.storage_tiling_boundaries
  pub longer : length nest'.loops + before ≡ length nest.loops + after

pub add_loops_lem :
    (loops : List Descriptor) (nest complete : Nest) (added : ℕ)
    → All Plain loops
    → Alike nest complete
    → (nest' complete' : Nest) × (after : ℕ) × (add_loops loops nest complete added
        ≡ (nest', complete', after))
      × Added loops nest complete nest' complete' added after
unfolding add_loops add_loop
add_loops_lem [] nest complete added h alike = (
  nest,
  complete,
  added,
  refl,
  record {
    alike = alike;
    whole = sym (append-nil complete.loops);
    bounds = refl;
    complete_bounds = refl;
    longer = refl;
  },
)
add_loops_lem (loop ∷ loops) nest complete added
      ((start, stride, (end_positive, residual_positive, low)), h) alike =
    elim (Bool-cases (ltb (loop.start + loop.stride) loop.end)) [
      | inl e ↦
          let (nest', complete', after, run, done) =
            add_loops_lem loops (add_loop loop nest) (add_loop loop complete) (added + 1) h
              (add_both loop nest complete alike) in
          (
            nest',
            complete',
            after,
            rw e run,
            record {
              alike = done.alike;
              whole = done.whole ∙ append_assoc complete.loops (loop ∷ []) loops;
              bounds = done.bounds;
              complete_bounds = done.complete_bounds;
              longer = omega (arith, done.longer, length-append nest.loops (loop ∷ []));
            },
          )
      | inr e ↦
          let one : loop.end ≡ 1 = omega (arith, ltb→le (loop.start + loop.stride) loop.end e) in
          let one' : loop.residual_end ≡ 1 = omega arith in
          let (nest', complete', after, run, done) =
            add_loops_lem loops nest (add_loop loop complete) added h
              (λ d last. alike d last ∙ sym (add_once loop complete d last one one')) in
          (
            nest',
            complete',
            after,
            rw e run,
            record {
              alike = done.alike;
              whole = done.whole ∙ append_assoc complete.loops (loop ∷ []) loops;
              bounds = done.bounds;
              complete_bounds = done.complete_bounds;
              longer = done.longer;
            },
          )
    ]
