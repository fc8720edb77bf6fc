-- ===== src/Mapspaces/Uber/Construct/Levels.antt =====
-- The storage boundaries in the concatenation of `ConstructMapping` (src/mapspaces/uber.cpp).
use timeloop.Prelude.{
  ℕ, ◌+◌, ◌-◌, ◌<◌, ◌≡◌, refl, sym, ap, ◌∙◌, subst, inl, inr, true, false, some, List, [], ◌∷◌,
  ◌++◌, ◌==◌, length, length-append, All, All-append, All-weaken, arith, Bool-cases,
}
use timeloop.Mapping.Loops.{
  Descriptor, time, Nest, make_descriptor, add_loop, add_storage_tiling_boundary, last_is,
}
use timeloop.Mapspaces.Uber.Assign.{backwards}
use timeloop.Mapspaces.Uber.Assign.Sums.{runs}
use timeloop.Mapspaces.Uber.Construct.{close_level}
use timeloop.Mapspaces.Uber.Construct.Joins.{Alike, Added, add_once}

-- The boundaries are at loops of the nest.
abbrev pub Bounded : Nest → Type 0
Bounded nest = All (λ b. b < length nest.loops) nest.storage_tiling_boundaries

last_is-false : (bs : List ℕ) (level : ℕ) → All (λ b. b < level) bs → last_is bs level ≡ false
unfolding last_is
last_is-false [] level h = refl
last_is-false (b ∷ []) level (low, _) = ground arith
last_is-false (b ∷ c ∷ bs) level (_, h) = last_is-false (c ∷ bs) level h

boundary_lem :
    (nest : Nest) (k : ℕ)
    → All (λ b. b < k) nest.storage_tiling_boundaries
    → k < length nest.loops
    → (nest' : Nest) × (add_storage_tiling_boundary nest ≡ some (true, nest'))
      × (nest'.loops ≡ nest.loops)
      × (length nest'.storage_tiling_boundaries ≡ length nest.storage_tiling_boundaries + 1)
      × Bounded nest'
unfolding add_storage_tiling_boundary
boundary_lem nest k h low =
    let level : ℕ = length nest.loops - 1 in
    let some_loop : (length nest.loops == 0) ≡ false = ground arith in
    let new = last_is-false nest.storage_tiling_boundaries level (
      All-weaken (λ b. b < k) (λ b. b < level) nest.storage_tiling_boundaries (λ b l. omega arith)
        h) in
    (
      record nest { storage_tiling_boundaries = nest.storage_tiling_boundaries ++ (level ∷ []) },
      rw (some_loop, new) refl,
      refl,
      length-append nest.storage_tiling_boundaries (level ∷ []),
      All-append (λ b. b < length nest.loops) nest.storage_tiling_boundaries (level ∷ [])
          (All-weaken (λ b. b < k) (λ b. b < length nest.loops) nest.storage_tiling_boundaries
            (λ b l. omega arith) h)
          (omega arith, tt),
    )

abbrev pub trivial_loop : ℕ → Descriptor
trivial_loop d = record {
  dimension = d;
  start = 0;
  end = 1;
  residual_end = 1;
  stride = 1;
  spacetime_dimension = time;
}

-- What the concatenation keeps, after `n` temporal levels and these loops.
pub record Joined (nest complete : Nest) (loops : List Descriptor) (n : ℕ) : Type 0 where
  pub alike : Alike nest complete
  pub whole : complete.loops ≡ loops
  pub bounded : Bounded nest
  pub complete_bounded : Bounded complete
  pub temporal : length nest.storage_tiling_boundaries ≡ n
  pub complete_temporal : length complete.storage_tiling_boundaries ≡ n

module _ (subnest loops : List Descriptor) (n : ℕ) (nest complete nest' complete' : Nest)
    (after : ℕ) (joined : Joined nest complete loops n)
    (added : Added subnest nest complete nest' complete' 0 after) where
  whole_length : length complete'.loops ≡ length complete.loops + length subnest
  whole_length = ap length added.whole ∙ length-append complete.loops subnest

  pub Joined-spatial : Joined nest' complete' (loops ++ subnest) n
  Joined-spatial = record {
    alike = added.alike;
    whole = added.whole ∙ ap (λ xs. xs ++ subnest) joined.whole;
    bounded = subst (All (λ b. b < length nest'.loops)) (sym added.bounds) (
        All-weaken (λ b. b < length nest.loops) (λ b. b < length nest'.loops)
          nest.storage_tiling_boundaries (λ b l. omega (arith, added.longer)) joined.bounded);
    complete_bounded = subst (All (λ b. b < length complete'.loops)) (sym added.complete_bounds) (
        All-weaken (λ b. b < length complete.loops) (λ b. b < length complete'.loops)
          complete.storage_tiling_boundaries (λ b l. omega (arith, whole_length))
          joined.complete_bounded);
    temporal = ap length added.bounds ∙ joined.temporal;
    complete_temporal = ap length added.complete_bounds ∙ joined.complete_temporal;
  }

  pub close_level_lem :
      (dims : ℕ)
      → 0 < length subnest
      → (bounded complete_bounded : Nest) × (close_level dims nest' complete' after
          ≡ some (bounded, complete_bounded))
        × Joined bounded complete_bounded (loops ++ subnest) (n + 1)
  unfolding close_level make_descriptor add_loop
  close_level_lem dims some_loop =
      let trivial : Descriptor = trivial_loop (dims - 1) in
      let before : All (λ b. b < length nest.loops) nest'.storage_tiling_boundaries =
        subst (All (λ b. b < length nest.loops)) (sym added.bounds) joined.bounded in
      let complete_before : All (λ b. b < length complete.loops)
          complete'.storage_tiling_boundaries =
        subst (All (λ b. b < length complete.loops)) (sym added.complete_bounds)
          joined.complete_bounded in
      let (c, run, c_loops, c_length, c_bounded) =
        boundary_lem complete' (length complete.loops) complete_before
          (omega (arith, whole_length)) in
      let whole = c_loops ∙ added.whole ∙ ap (λ xs. xs ++ subnest) joined.whole in
      elim (Bool-cases (after == 0)) [
        | inl e ↦
            let (m, run', m_loops, m_length, m_bounded) =
              boundary_lem (add_loop trivial nest') (length nest.loops) before
                (omega (arith, added.longer, length-append nest'.loops (trivial ∷ []))) in
            (
              m,
              c,
              rw (e, run', run) refl,
              record {
                alike = λ d last.
                    ap (λ xs. runs d (backwards xs) last) m_loops
                    ∙ add_once trivial nest' d last refl refl
                    ∙ added.alike d last
                    ∙ sym (ap (λ xs. runs d (backwards xs) last) c_loops);
                whole = whole;
                bounded = m_bounded;
                complete_bounded = c_bounded;
                temporal = omega (arith, m_length, ap length added.bounds, joined.temporal);
                complete_temporal =
                    omega
                      (arith, c_length, ap length added.complete_bounds, joined.complete_temporal);
              },
            )
        | inr e ↦
            let grown : 0 < after = ground arith in
            let (m, run', m_loops, m_length, m_bounded) =
              boundary_lem nest' (length nest.loops) before (omega (arith, added.longer)) in
            (
              m,
              c,
              rw (e, run', run) refl,
              record {
                alike = λ d last.
                    ap (λ xs. runs d (backwards xs) last) m_loops
                    ∙ added.alike d last
                    ∙ sym (ap (λ xs. runs d (backwards xs) last) c_loops);
                whole = whole;
                bounded = m_bounded;
                complete_bounded = c_bounded;
                temporal = omega (arith, m_length, ap length added.bounds, joined.temporal);
                complete_temporal =
                    omega
                      (arith, c_length, ap length added.complete_bounds, joined.complete_temporal);
              },
            )
      ]
