-- ===== src/Mapspaces/Uber/Construct/Ids.antt =====
-- Every id of an Uber mapspace through `ConstructMapping` (src/mapspaces/uber.cpp), from the
-- subspaces it is the product of (src/mapspaces/subspaces.cpp).
use timeloop.Prelude.{
  ℕ, suc, ◌+◌, ◌^◌, ◌<◌, ◌≤◌, ◌≡◌, refl, sym, ap, ◌∙◌, subst, inl, inr, Bool, true, false, Option,
  some, none, List, [], ◌∷◌, ◌++◌, ◌==◌, length, length-append, get_elem?, get_or,
  get_elem?-eq-get_or, All, arith, Bool-cases,
}
use timeloop.Prelude.Words.{u128_mod}
use timeloop.Mapping.Arch.{FanOut}
use timeloop.Numeric.Counter.{Counter}
use timeloop.Numeric.Factoradic.Orders.{count}
use timeloop.Numeric.Factoradic.Items.{SameItems-length}
use timeloop.Mapspaces.Factorizations.{FactorSpace, get_factor}
use timeloop.Mapspaces.Factorizations
use timeloop.Mapspaces.Factorizations.Rows.{Picks, get_factor_lem}
use timeloop.Mapspaces.Factorizations.Rows
use timeloop.Mapspaces.Permutations.{Pattern}
use timeloop.Mapspaces.Permutations.Counting.{count-append}
use timeloop.Mapspaces.Permutations.Levels.{all_of}
use timeloop.Mapspaces.Permutations.Ids.{with_infixes, get_patterns_lem}
use timeloop.Mapspaces.Permutations.Ids as Orders
use timeloop.Mapspaces.Splits.{Level}
use timeloop.Mapspaces.Splits.Ids.{get_splits_lem}
use timeloop.Mapspaces.Splits.Ids as Choices
use timeloop.Mapspaces.Uber.Bypass.{MaskNest, construct_bypass}
use timeloop.Mapspaces.Uber.Bypass.Sizes.{construct-read}
use timeloop.Mapspaces.Uber.Splitting.{global_id}
use timeloop.Mapspaces.Uber.Assign.Nests.{factor_product}
use timeloop.Mapspaces.Uber.Construct.{
  Uber, is_split, Mapping, construct_mapping, factor_of, find_split, zip,
}
use timeloop.Mapspaces.Uber.Construct.Stages.{IsOrder}
use timeloop.Mapspaces.Uber.Construct.Directions.{Supported}
use timeloop.Mapspaces.Uber.Construct.Needs.{Ready}
use timeloop.Mapspaces.Uber.Construct.Ready.{Outcome, construct_mapping-Ready}
use timeloop.Search.{Indices}
use timeloop.Mapspaces.Uber.Construct.Rows.{
  Reaches, Entries, pick-IsRow, get_positive, rows-AllFactors, row_product,
}

orders-Chosen :
    (n : ℕ) (ps : List Pattern) (zss : List (List ℕ))
    → All (λ p. IsOrder n (all_of p)) ps
    → Orders.Chosen ps zss
    → (length ps ≡ length (with_infixes ps zss)) × All (IsOrder n) (with_infixes ps zss)
orders-Chosen n [] [] h c = (refl, tt)
orders-Chosen n [] (zs ∷ zss) h c = absurd c
orders-Chosen n (p ∷ ps) [] h c = absurd c
orders-Chosen n (p ∷ ps) (zs ∷ zss) ((size, counts), h) (same, c) =
    let (len, rest) = orders-Chosen n ps zss h c in
    (
      ap suc len,
      (
        (
          length-append (p.baked_prefix ++ zs) p.baked_suffix
              ∙ ap (λ t. t + length p.baked_suffix)
                  (length-append p.baked_prefix zs
                    ∙ ap (λ t. length p.baked_prefix + t)
                        (SameItems-length p.permutable_infix zs same)
                    ∙ sym (length-append p.baked_prefix p.permutable_infix))
              ∙ sym (length-append (p.baked_prefix ++ p.permutable_infix) p.baked_suffix)
              ∙ size,
          λ d.
              count-append d (p.baked_prefix ++ zs) p.baked_suffix
              ∙ ap (λ t. t + count d p.baked_suffix)
                  (count-append d p.baked_prefix zs
                    ∙ ap (λ t. count d p.baked_prefix + t) (sym (same d))
                    ∙ sym (count-append d p.baked_prefix p.permutable_infix))
              ∙ sym (count-append d (p.baked_prefix ++ p.permutable_infix) p.baked_suffix)
              ∙ counts d,
        ),
        rest,
      ),
    )

Supported-cons :
    (u : Uber) (x : ℕ × ℕ) (splits : List (ℕ × ℕ)) (level : ℕ) (entries : List (Bool × ℕ))
    → Supported u splits level entries
    → Supported u (x ∷ splits) level entries
unfolding find_split
Supported-cons u x splits level [] h = tt
Supported-cons u x splits level ((false, storage) ∷ es) h =
    Supported-cons u x splits (level + 1) es h
Supported-cons u (l, v) splits level ((true, storage) ∷ es) ((split, found), hw, low, h) = (
  elim (Bool-cases (l == level)) [ inl e ↦ (v, rw e refl) | inr e ↦ (split, rw e found) ],
  hw,
  low,
  Supported-cons u (l, v) splits (level + 1) es h,
)

Chosen-Supported :
    (u : Uber) (level : ℕ) (entries : List (Bool × ℕ)) (ls : List (Option Level))
    (xs : List (ℕ × ℕ))
    → Entries u entries ls
    → Choices.Chosen level ls xs
    → Supported u xs level entries
unfolding find_split
Chosen-Supported u level [] ls xs h c = tt
Chosen-Supported u level (e ∷ es) [] xs h c = absurd h
Chosen-Supported u level ((false, storage) ∷ es) (none ∷ ls) xs h c =
    Chosen-Supported u (level + 1) es ls xs h c
Chosen-Supported u level ((false, storage) ∷ es) (some l ∷ ls) [] h c = absurd c
Chosen-Supported u level ((false, storage) ∷ es) (some l ∷ ls) ((k, v) ∷ xs) h (same, admitted, c) =
    Supported-cons u (k, v) xs (level + 1) es (Chosen-Supported u (level + 1) es ls xs h c)
Chosen-Supported u level ((true, storage) ∷ es) (none ∷ ls) xs h c = absurd h
Chosen-Supported u level ((true, storage) ∷ es) (some l ∷ ls) [] h c = absurd c
Chosen-Supported u level ((true, storage) ∷ es) (some l ∷ ls) ((k, v) ∷ xs) (hw, low, h)
      (same, admitted, c) =
    let here : (k == level) ≡ true = ground arith in
    (
      (v, rw here refl),
      hw,
      low,
      Supported-cons u (k, v) xs (level + 1) es (Chosen-Supported u (level + 1) es ls xs h c),
    )

-- What `Init` leaves: bounds, an architecture, and the subspaces over them.
pub record IsValid (u : Uber) : Type 0 where
  pub unsplit : is_split u ≡ false
  pub some_dimension : 0 < length u.bounds
  pub bounds_positive : (d : ℕ) → d < length u.bounds → 0 < get_or u.bounds d 0
  pub masks : length u.arch.spatial_mask ≡ length u.arch.tiling_to_storage
  pub arithmetic : u.arithmetic_map < u.num_levels
  pub factors_ready : Rows.Ready u.factors
  pub reaches : Reaches (length u.arch.spatial_mask) u.bounds u.factors.dimension_factors
  pub part_fits :
      (id : ℕ)
      → id < u.part.if_size
      → (g : ℕ) × (global_id u.part id ≡ some g) × (g < Factorizations.size_of u.factors)
  pub patterns : List Pattern
  pub pattern_levels : u.permutations.num_levels ≡ length patterns
  pub described_patterns : Orders.Describes u.permutations 0 patterns
  pub few_patterns : Orders.choices patterns < u128_mod
  pub patterns_length : length u.arch.spatial_mask ≡ length patterns
  pub patterns_whole : All (λ p. IsOrder (length u.bounds) (all_of p)) patterns
  pub levels : List (Option Level)
  pub split_levels : u.splits.num_levels ≡ length levels
  pub described_levels : Choices.Describes u.splits 0 levels
  pub few_splits : Choices.choices levels < u128_mod
  pub entries : Entries u (zip u.arch.spatial_mask u.arch.tiling_to_storage) levels
  pub few_bypasses : length u.bypasses < 2 ^ 31

-- An id below the sizes of the dimensions of the mapspace.
pub record InRange (u : Uber) (v : IsValid u) (mapping_id : Indices) : Type 0 where
  pub factors : mapping_id.factors < u.part.if_size
  pub permutation : mapping_id.permutation < Orders.choices v.patterns
  pub split : mapping_id.split < Choices.choices v.levels
  pub bypass : mapping_id.bypass < length u.bypasses

pub row_factors :
    (s : FactorSpace) (g d l : ℕ) (row : List ℕ) (f : ℕ) (rows : List (List ℕ))
    → ((dim level : ℕ) (r : List ℕ) (factor : ℕ)
        → get_elem? rows dim ≡ some r
        → get_elem? r level ≡ some factor
        → (c : Counter) × (get_factor s g dim level
            ≡ some (factor, record s { tiling_counter = c })))
    → get_elem? rows d ≡ some row
    → get_elem? row l ≡ some f
    → factor_of s g d l ≡ some f
unfolding factor_of
row_factors s g d l row f rows gives e e' = let (c, run) = gives d l row f e e' in rw run refl

valid-Ready :
    (u : Uber) (v : IsValid u) (mapping_id : Indices) → InRange u v mapping_id → Ready u mapping_id
valid-Ready u v mapping_id r =
    let n : ℕ = length u.bounds in
    let levels : ℕ = length u.arch.spatial_mask in
    let (g, global, low) = v.part_fits mapping_id.factors r.factors in
    let (rows, picks, gives) = (get_factor_lem u.factors v.factors_ready).0 g low in
    let factor : ℕ → ℕ → Option ℕ = factor_of u.factors g in
    let (zss, found, chosen) =
      (get_patterns_lem u.permutations v.patterns v.pattern_levels v.described_patterns
          v.few_patterns).1
        mapping_id.permutation r.permutation in
    let (same, whole) = orders-Chosen n v.patterns zss v.patterns_whole chosen in
    let (splits, found_splits, chosen_splits) =
      (get_splits_lem u.splits v.levels v.split_levels v.described_levels v.few_splits).1
        mapping_id.split r.split in
    record {
      unsplit = v.unsplit;
      some_dimension = v.some_dimension;
      bounds_positive = v.bounds_positive;
      masks = v.masks;
      factorization_id = g;
      global = global;
      factors = rows-AllFactors factor n 0 levels (λ d l d_low l_low.
          let (row, e, (len, positive, _)) =
            pick-IsRow levels u.bounds u.factors.dimension_factors rows v.reaches picks d d_low in
          let (f, e', a, b) = get_positive row l positive (omega arith) in
          (f, row_factors u.factors g d l row f rows gives e e', a, b));
      reach = λ d d_low.
          let (row, e, (len, positive, reach)) =
            pick-IsRow levels u.bounds u.factors.dimension_factors rows v.reaches picks d d_low in
          let product_eq = row_product factor d 0 row (λ i f e'.
            row_factors u.factors g d (i + 0) row f rows gives e
              (subst (λ k. get_elem? row k ≡ some f) (omega arith) e')) in
          subst (λ k. get_or u.bounds d 0 ≤ factor_product factor d 0 k) len
            (subst (λ k. get_or u.bounds d 0 ≤ k) (sym product_eq) reach);
      patterns = with_infixes v.patterns zss;
      found_patterns = found;
      patterns_length = v.patterns_length ∙ same;
      orders = whole;
      splits = splits;
      found_splits = found_splits;
      supported =
          Chosen-Supported u 0 (zip u.arch.spatial_mask u.arch.tiling_to_storage) v.levels splits
            v.entries chosen_splits;
      arithmetic = v.arithmetic;
      bypass_nest = get_or u.bypasses mapping_id.bypass (λ p l. false);
      found_bypass =
          construct-read u.bypasses mapping_id.bypass r.bypass v.few_bypasses
          ∙ get_elem?-eq-get_or u.bypasses mapping_id.bypass (λ p l. false) r.bypass;
    }

-- An Uber mapspace that is not split, whose factor sets reach the bounds with positive factors below 2 ^ 31, whose
-- patterns hold every dimension once, whose spatial levels have splits and fan-outs, with fewer than
-- 2 ^ 31 mask nests, and an id below the sizes of its dimensions, with any judgement on the
-- parallelism: `ConstructMapping` returns, with a status for each level of the topology. It gives no
-- mapping only where it is asked to break on a failure and a status fails; otherwise both nests of
-- the mapping run, along each dimension, as often as the bound says, both have a storage boundary at
-- one of their loops for each temporal level, and the mapping has the mask nest of the id.
pub construct_mapping_lem :
    (parallelism_low : List (ℕ × ℕ × FanOut) → Bool) (u : Uber) (break_on_failure : Bool)
    (v : IsValid u) (mapping_id : Indices)
    → InRange u v mapping_id
    → (bypass_nest : MaskNest) × (statuses : List Bool) × (outcome : Option Mapping)
      × (construct_bypass u.bypasses mapping_id.bypass ≡ some bypass_nest)
      × (construct_mapping parallelism_low u break_on_failure mapping_id ≡ some (statuses, outcome))
      × (length statuses ≡ u.num_levels)
      × Outcome parallelism_low u bypass_nest break_on_failure statuses outcome
construct_mapping_lem parallelism_low u brk v mapping_id r =
    let ready = valid-Ready u v mapping_id r in
    let (statuses, outcome, run, len, result) =
      construct_mapping-Ready parallelism_low u brk mapping_id ready in
    (ready.bypass_nest, statuses, outcome, ready.found_bypass, run, len, result)
