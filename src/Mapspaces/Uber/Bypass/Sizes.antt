-- ===== src/Mapspaces/Uber/Bypass/Sizes.antt =====
-- The size of the data-type bypass space, and `ConstructDatatypeBypassNest` at each id below it
-- (src/mapspaces/uber.cpp).
use native.Mathlib.Nat.{
  mod-eq_of_lt, pow-suc, mul_assoc, one-mul, mul_left_comm, mul-one, pow-le-pow_right, suc-add,
  zero-add,
}
use mathlib.Core.Option.{some-injective}
use timeloop.Prelude.{
  ℕ, zero, suc, ◌+◌, ◌-◌, ◌*◌, ◌%◌, ◌^◌, ◌<◌, ◌≤◌, ◌≡◌, sym, ap, ◌∙◌, true, false, not, some, none,
  List, [], ◌∷◌, map, ltb, leb, ◌==◌, guard, length, get_elem?, get_elem?-lt-length, get_or,
  get_elem?-eq-get_or, Bool-cases, inl, inr, ltb→lt, arith, All, lt→ltb, length-append, length-map,
  >>=-eq-some,
}
use timeloop.Prelude.Words.{u32_mod}
use timeloop.Mapspaces.Uber.Bypass.{
  MaskNest, MaskSpec, bypass, keep, evaluate_both, unknown, set_bit, expand, apply_spec,
  user_levels, other_levels, data_spaces, init_bypass, construct_bypass, max_tiling_levels,
}
use timeloop.Mapspaces.Uber.Bypass.Choices.{Fitting}
use timeloop.Mapspaces.Uber.Bypass.Masks.{Accepted, choice}
use timeloop.Mapspaces.Uber.Bypass.Space.{init-Lists}

-- The places where both values are asked for.
abbrev pub both_count : List MaskSpec → ℕ
both_count [] = 0
both_count (bypass ∷ specs) = both_count specs
both_count (keep ∷ specs) = both_count specs
both_count (evaluate_both ∷ specs) = suc (both_count specs)
both_count (unknown ∷ specs) = both_count specs

abbrev pub free_count : ℕ → List (List MaskSpec) → ℕ
free_count num_levels [] = 0
free_count num_levels (specs ∷ strings) =
    both_count specs + (num_levels - 1 - length specs) + free_count num_levels strings

length-expand :
    (pvi level : ℕ) (space : List MaskNest) → length (expand pvi level space) ≡ 2 * length space
unfolding expand
length-expand pvi level space =
    length-append (map (set_bit pvi level false) space) (map (set_bit pvi level true) space)
    ∙ omega (
      arith,
      length-map (set_bit pvi level false) space,
      length-map (set_bit pvi level true) space,
    )

double_step : (k n : ℕ) → 2 ^ k * (2 * n) ≡ 2 ^ suc k * n
double_step k n = sym (mul_assoc (2 ^ k) 2 n) ∙ ap (λ t. t * n) (sym (pow-suc 2 k))

pow_merge : (a b n : ℕ) → 2 ^ a * (2 ^ b * n) ≡ 2 ^ (a + b) * n
pow_merge zero b n = one-mul (2 ^ b * n) ∙ ap (λ k. 2 ^ k * n) (sym (zero-add b))
pow_merge (suc a) b n =
    sym (double_step a (2 ^ b * n))
    ∙ ap (λ t. 2 ^ a * t) (mul_left_comm 2 (2 ^ b) n)
    ∙ pow_merge a b (2 * n)
    ∙ double_step (a + b) n
    ∙ ap (λ k. 2 ^ k * n) (sym (suc-add a b))

user_levels-length :
    (pvi : ℕ) (specs : List MaskSpec) (level : ℕ) (space : List MaskNest) {edited : List MaskNest}
    → user_levels pvi specs level space ≡ some edited
    → length edited ≡ 2 ^ both_count specs * length space
unfolding user_levels apply_spec
user_levels-length pvi [] level space h =
    ap length (sym (some-injective _ _ h)) ∙ sym (one-mul (length space))
user_levels-length pvi (bypass ∷ specs) level space h =
    user_levels-length pvi specs (level + 1) _ h
    ∙ ap (λ n. 2 ^ both_count specs * n) (length-map (set_bit pvi level false) space)
user_levels-length pvi (keep ∷ specs) level space h =
    user_levels-length pvi specs (level + 1) _ h
    ∙ ap (λ n. 2 ^ both_count specs * n) (length-map (set_bit pvi level true) space)
user_levels-length pvi (evaluate_both ∷ specs) level space h =
    user_levels-length pvi specs (level + 1) _ h
    ∙ ap (λ n. 2 ^ both_count specs * n) (length-expand pvi level space)
    ∙ double_step (both_count specs) (length space)
user_levels-length pvi (unknown ∷ specs) level space h = cc

other_levels-length :
    (pvi left level : ℕ) (space : List MaskNest)
    → length (other_levels pvi left level space) ≡ 2 ^ left * length space
unfolding other_levels
other_levels-length pvi zero level space = sym (one-mul (length space))
other_levels-length pvi (suc left) level space =
    other_levels-length pvi left (level + 1) (expand pvi level space)
    ∙ ap (λ n. 2 ^ left * n) (length-expand pvi level space)
    ∙ double_step left (length space)

data_spaces-length :
    (num_levels : ℕ) (strings : List (List MaskSpec)) (pvi : ℕ) (space : List MaskNest)
    {space' : List MaskNest}
    → data_spaces num_levels strings pvi space ≡ some space'
    → length space' ≡ 2 ^ free_count num_levels strings * length space
unfolding data_spaces
data_spaces-length num_levels [] pvi space h =
    ap length (sym (some-injective _ _ h)) ∙ sym (one-mul (length space))
data_spaces-length num_levels (specs ∷ strings) pvi space h =
    let left : ℕ = num_levels - 1 - length specs in
    let rest : ℕ = free_count num_levels strings in
    let (_, _, k) = >>=-eq-some (guard (leb (length specs) num_levels)) _ h in
    let (edited, run, k') = >>=-eq-some (user_levels pvi specs 0 space) _ k in
    data_spaces-length num_levels strings (pvi + 1) _ k'
    ∙ ap (λ n. 2 ^ rest * n)
        (other_levels-length pvi left (length specs) edited
          ∙ ap (λ n. 2 ^ left * n) (user_levels-length pvi specs 0 space run))
    ∙ powers (both_count specs) left rest (length space)
  where
    powers : (a b c n : ℕ) → 2 ^ c * (2 ^ b * (2 ^ a * n)) ≡ 2 ^ (a + b + c) * n
    powers a b c n =
        ap (λ t. 2 ^ c * t) (pow_merge b a n)
        ∙ pow_merge c (b + a) n
        ∙ ap (λ k. 2 ^ k * n) (omega arith)

init-length :
    (num_levels : ℕ) (strings : List (List MaskSpec)) {space : List MaskNest}
    → init_bypass num_levels strings ≡ some space
    → length space ≡ 2 ^ free_count num_levels strings
unfolding init_bypass
init-length num_levels strings h =
    let (_, _, k) = >>=-eq-some (guard (not (num_levels == 0))) _ h in
    let (_, _, k') = >>=-eq-some (guard (leb num_levels max_tiling_levels)) _ k in
    data_spaces-length num_levels strings 0 _ k' ∙ mul-one (2 ^ free_count num_levels strings)

pub construct-read :
    (space : List MaskNest) (id : ℕ)
    → id < length space
    → length space < 2 ^ 31
    → construct_bypass space id ≡ get_elem? space id
unfolding construct_bypass
construct-read space id low small =
    let same : id % u32_mod ≡ id = mod-eq_of_lt (omega arith) in
    rw (lt→ltb id (length space) low, same, lt→ltb id (2 ^ 31) (omega arith))

construct-lt-length :
    (space : List MaskNest) (id : ℕ) {nest : MaskNest}
    → construct_bypass space id ≡ some nest
    → id < length space
unfolding construct_bypass
construct-lt-length space id h =
    let (u, e, k) = >>=-eq-some (guard (ltb id (length space))) _ h in
    elim (Bool-cases (ltb id (length space))) [
      | inl t ↦ ltb→lt id (length space) t
      | inr t ↦ absurd (none-some (ap guard (sym t) ∙ e))
    ]
  where
    none-some : {u : Unit {0}} → none ≡ some u → ⊥
    none-some k = cc

-- At least one and at most 32 storage levels, strings of '0', '1' and 'X' that are no longer than
-- that, and fewer than 31 places for both values: the space is made, and has two to the number of
-- those places ids. Each stands for a mask nest that has, at the places of a string, the bits it asks
-- for, both values allowed at the levels after it but the outermost, which is 1, and 0 elsewhere; and
-- each such nest has one id.
pub init_bypass_lem :
    (num_levels : ℕ) (strings : List (List MaskSpec))
    → 0 < num_levels
    → num_levels ≤ max_tiling_levels
    → All (Accepted num_levels) strings
    → free_count num_levels strings < 31
    → (space : List MaskNest) × (init_bypass num_levels strings ≡ some space)
      × (length space ≡ 2 ^ free_count num_levels strings)
      × ((id : ℕ)
          → id < length space
          → (nest : MaskNest) × (construct_bypass space id ≡ some nest)
            × Fitting (choice num_levels strings) nest)
      × ((nest : MaskNest)
          → Fitting (choice num_levels strings) nest
          → (id : ℕ) × (id < length space)
            × (construct_bypass space id ≡ some nest)
            × ((other : ℕ) → construct_bypass space other ≡ some nest → other ≡ id))
init_bypass_lem num_levels strings positive fits ok few =
    let (space, run, lists) = init-Lists num_levels strings positive fits ok in
    let size = init-length num_levels strings run in
    let bound : 2 ^ free_count num_levels strings ≤ 2 ^ 30 =
      pow-le-pow_right (omega arith) {j = 30} (omega arith) in
    let small : length space < 2 ^ 31 = omega (arith, size, bound) in
    (
      space,
      run,
      size,
      λ id low.
          let nest : MaskNest = get_or space id (λ p l. false) in
          let e = get_elem?-eq-get_or space id (λ p l. false) low in
          (nest, construct-read space id low small ∙ e, lists.sound id nest e),
      λ nest h.
          let (id, e, only) = lists.complete nest h in
          let low = get_elem?-lt-length space id e in
          (
            id,
            low,
            construct-read space id low small ∙ e,
            λ other t.
                only other
                  (sym (construct-read space other (construct-lt-length space other t) small) ∙ t),
          ),
    )
