-- ===== src/Mapping/Arch/Levels.antt =====
-- The tiling levels that `Construct` makes (src/mapping/arch-properties.cpp).
use mathlib.Core.Option.{some-injective}
use timeloop.Prelude.{
  ℕ, suc, ◌+◌, ◌<◌, ◌≡◌, sym, ap, ◌∙◌, subst, ◌⊎◌, inl, inr, Bool, true, false, ◌&&◌, some, List,
  [], ◌∷◌, ◌++◌, ltb, ◌==◌, length, length-append, get_elem?, get_elem?-lt-length, arith,
  Bool-cases, ltb→le,
}
use timeloop.Mapping.Arch.{
  FanOut, ArchProperties, fanout, add_spatial, add_temporal, construct_levels,
}
use timeloop.Mapping.Arch.Entries.{
  Found, IsLevel, Placed, get-old, get-new, get-cases, Memᴰ-left, Memᴰ-last,
}

module _ (fs : List FanOut) (n : ℕ) (props : ArchProperties) (placed : Placed fs n props) where
  level_old :
      (b c : Bool) (s i t : ℕ)
      → IsLevel props b i t
      → (get_elem? (props.spatial_mask ++ (c ∷ [])) t ≡ some b)
        × (get_elem? (props.tiling_to_storage ++ (s ∷ [])) t ≡ some i)
  level_old b c s i t (m, l) =
      (get-old props.spatial_mask c t m, get-old props.tiling_to_storage s t l)

  -- The next tiling level, of the kind `c` and the storage level `n`.
  level_new :
      (c : Bool)
      → (get_elem? (props.spatial_mask ++ (c ∷ [])) (length props.spatial_mask) ≡ some c)
        × (get_elem? (props.tiling_to_storage ++ (n ∷ [])) (length props.spatial_mask) ≡ some n)
  level_new c = (
    get-new props.spatial_mask c,
    ap (get_elem? (props.tiling_to_storage ++ (n ∷ []))) placed.masks
        ∙ get-new props.tiling_to_storage n,
  )

  -- A tiling level after one is added, of the kind `c`.
  IsLevel-cases :
      (b c : Bool) (s t : ℕ)
      → get_elem? (props.spatial_mask ++ (c ∷ [])) t ≡ some b
      → get_elem? (props.tiling_to_storage ++ (n ∷ [])) t ≡ some s
      → IsLevel props b s t ⊎ ((t ≡ length props.spatial_mask) × (b ≡ c) × (s ≡ n))
  IsLevel-cases b c s t m l = elim (get-cases props.spatial_mask c t m) [
    | inl old ↦ elim (get-cases props.tiling_to_storage n t l) [
      | inl old' ↦ inl (old, old')
      | inr (place, _) ↦
          absurd (omega (arith, get_elem?-lt-length props.spatial_mask t old, placed.masks))
    ]
    | inr (place, e) ↦ elim (get-cases props.tiling_to_storage n t l) [
      | inl old' ↦
          absurd (omega (arith, get_elem?-lt-length props.tiling_to_storage t old', placed.masks))
      | inr (_, e') ↦ inr (place, e, e')
    ]
  ]

  lengths :
      (b c : Bool)
      → (length (props.spatial_mask ++ (b ∷ [])) ≡ length (props.tiling_to_storage ++ (n ∷ [])))
        × (length (props.two_d_spatial_mask ++ (c ∷ [])) ≡ length (props.spatial_mask ++ (b ∷ [])))
  lengths b c = (
    length-append props.spatial_mask (b ∷ [])
        ∙ ap (λ k. k + 1) placed.masks
        ∙ sym (length-append props.tiling_to_storage (n ∷ [])),
    length-append props.two_d_spatial_mask (c ∷ [])
        ∙ ap (λ k. k + 1) placed.flat_masks
        ∙ sym (length-append props.spatial_mask (b ∷ [])),
  )

  -- The spatial level of the storage level `n`, which comes next.
  abbrev Pending : ArchProperties → Type 0
  Pending next =
      (f : FanOut)
      → get_elem? fs n ≡ some f
      → 1 < fanout f
      → (t : ℕ) × Found next true n t × IsLevel next true n t × (length next.spatial_mask ≡ t + 1)

  spatial_lem : (f : FanOut) → Placed fs n (add_spatial n f props) × Pending (add_spatial n f props)
  unfolding add_spatial
  spatial_lem f = (
    record {
      masks = (lengths true (ltb 1 f.fanout_x && ltb 1 f.fanout_y)).0;
      flat_masks = (lengths true (ltb 1 f.fanout_x && ltb 1 f.fanout_y)).1;
      temporal_length = placed.temporal_length;
      back = back;
      temporal = λ i low.
          let (t, e, level) = placed.temporal i low in (t, e, level_old false true n i t level);
      spatial = λ i g low e big.
          let (t, m, level, e') = placed.spatial i g low e big in
          (
            t,
            Memᴰ-left props.spatial_to_tiling ((n, length props.spatial_mask) ∷ []) m,
            level_old true true n i t level,
            e',
          );
    },
    λ g e big. (
      length props.spatial_mask,
      Memᴰ-last props.spatial_to_tiling (n, length props.spatial_mask),
      level_new true,
      length-append props.spatial_mask (true ∷ []),
    ),
  )
    where
      back :
          (b : Bool) (s t : ℕ)
          → IsLevel (add_spatial n f props) b s t
          → Found (add_spatial n f props) b s t
      back true s t (m, l) = elim (IsLevel-cases true true s t m l) [
        | inl old ↦
            Memᴰ-left props.spatial_to_tiling ((n, length props.spatial_mask) ∷ [])
              (placed.back true s t old)
        | inr (place, _, e) ↦
            rw (place, e) (Memᴰ-last props.spatial_to_tiling (n, length props.spatial_mask))
      ]
      back false s t (m, l) = elim (IsLevel-cases false true s t m l) [
        | inl old ↦ placed.back false s t old
        | inr (_, e, _) ↦ cc
      ]

  temporal_lem : Pending props → Placed fs (n + 1) (add_temporal n props)
  unfolding add_temporal
  temporal_lem pending = record {
    masks = (lengths false false).0;
    flat_masks = (lengths false false).1;
    temporal_length =
        length-append props.temporal_to_tiling (length props.spatial_mask ∷ [])
        ∙ ap (λ k. k + 1) placed.temporal_length;
    back = back;
    temporal = λ i low. elim (Bool-cases (i == n)) [
      | inl e ↦
          let last : n ≡ i = ground arith in
          subst
            (λ k.
              (t : ℕ) × Found (add_temporal n props) false k t
              × IsLevel (add_temporal n props) false k t)
            last (length props.spatial_mask, new, level_new false)
      | inr e ↦
          let (t, e', level) = placed.temporal i (ground arith) in
          (
            t,
            get-old props.temporal_to_tiling (length props.spatial_mask) i e',
            level_old false false n i t level,
          )
    ];
    spatial = λ i f low e big. elim (Bool-cases (i == n)) [
      | inl s ↦
          let last : i ≡ n = ground arith in
          let (t, m, level, len) = pending f (subst (λ k. get_elem? fs k ≡ some f) last e) big in
          subst
            (λ k.
              (t' : ℕ) × Found (add_temporal n props) true k t'
              × IsLevel (add_temporal n props) true k t'
              × Found (add_temporal n props) false k (t' + 1))
            (sym last) (t, m, level_old true false n n t level, new ∙ ap some len)
      | inr s ↦
          let (t, m, level, e') = placed.spatial i f (ground arith) e big in
          (
            t,
            m,
            level_old true false n i t level,
            get-old props.temporal_to_tiling (length props.spatial_mask) i e',
          )
    ];
  }
    where
      new :
          get_elem? (props.temporal_to_tiling ++ (length props.spatial_mask ∷ [])) n
          ≡ some (length props.spatial_mask)
      new =
          ap (get_elem? (props.temporal_to_tiling ++ (length props.spatial_mask ∷ [])))
            (sym placed.temporal_length)
          ∙ get-new props.temporal_to_tiling (length props.spatial_mask)

      back :
          (b : Bool) (s t : ℕ)
          → IsLevel (add_temporal n props) b s t
          → Found (add_temporal n props) b s t
      back true s t (m, l) = elim (IsLevel-cases true false s t m l) [
        | inl old ↦ placed.back true s t old
        | inr (_, e, _) ↦ cc
      ]
      back false s t (m, l) = elim (IsLevel-cases false false s t m l) [
        | inl old ↦
            get-old props.temporal_to_tiling (length props.spatial_mask) s
              (placed.back false s t old)
        | inr (place, _, e) ↦ rw (place, e) new
      ]

pub construct_levels-Placed :
    (fs rest : List FanOut) (n : ℕ) (props : ArchProperties)
    → length fs ≡ n + length rest
    → ((i : ℕ) → get_elem? rest i ≡ get_elem? fs (n + i))
    → Placed fs n props
    → Placed fs (length fs) (construct_levels n rest props)
unfolding construct_levels
construct_levels-Placed fs [] n props len same placed =
    subst (λ k. Placed fs k props) (omega arith) placed
construct_levels-Placed fs (f ∷ rest) n props len same placed =
    let now : get_elem? fs n ≡ some f = ap (get_elem? fs) (omega arith) ∙ sym (same 0) in
    elim (Bool-cases (ltb 1 (fanout f))) [
      | inl e ↦
          let (after, pending) = spatial_lem fs n props placed f in
          rw e (
            construct_levels-Placed fs rest (n + 1) _ (omega arith)
              (λ i. same (suc i) ∙ ap (get_elem? fs) (omega arith))
              (temporal_lem fs n (add_spatial n f props) after pending))
      | inr e ↦
          let pending : Pending fs n props placed props = λ g e' big.
            let same_f : g ≡ f = some-injective _ _ (sym e' ∙ now) in
            absurd (omega (arith, ltb→le 1 (fanout f) e, ap fanout same_f)) in
          rw e (
            construct_levels-Placed fs rest (n + 1) _ (omega arith)
              (λ i. same (suc i) ∙ ap (get_elem? fs) (omega arith))
              (temporal_lem fs n props placed pending))
    ]
