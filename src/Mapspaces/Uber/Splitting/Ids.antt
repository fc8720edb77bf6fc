-- ===== src/Mapspaces/Uber/Splitting/Ids.antt =====
-- The index factorization ids of the splits of a mapspace (`Split`, `InitSplit` and the global id of
-- src/mapspaces/uber.cpp).
use native.Mathlib.Nat.{
  mod-lt, mod-eq_of_lt, mul-le-mul_right, div-add-mod', div-eq_of_lt, mul-add-div_right,
  mul-add-mod_self_right, add-mul, one-mul,
}
use mathlib.Core.Option.{some-injective}
use timeloop.Prelude.{
  ℕ, ◌+◌, ◌-◌, ◌*◌, ◌/◌, ◌%◌, ◌<◌, ◌≤◌, ◌≡◌, refl, sym, ap, ◌∙◌, subst, inl, inr, some, List, ltb,
  if◌then◌else◌, guard, arith, get_elem?, get_elem?-lt-length, length, Bool-cases, lt→ltb, ltb→lt,
  ltb→le, >>=-eq-some, guard-true,
}
use timeloop.Prelude.Words.{u32_mod, u128_mod}
use timeloop.Mapspaces.Uber.Splitting.{Part, split, global_id}
use timeloop.Mapspaces.Uber.Splitting.Parts.{
  part_of, parts_from, last_id, split_eq, length-parts_from, get-parts_from,
}

module _ (size n : ℕ) (size_positive : 0 < size) (positive : 0 < n) (fits : size < u128_mod)
    (few : n < u32_mod) where
  abbrev parts : List Part
  parts = parts_from size n n 0

  found_part : (i : ℕ) {p : Part} → get_elem? parts i ≡ some p → (i < n) × (p ≡ part_of size n i)
  found_part i h =
      let low : i < n =
        omega (arith, get_elem?-lt-length parts i h, length-parts_from size n n 0) in
      (
        low,
        some-injective _ _ (sym h ∙ get-parts_from size n n 0 i low)
            ∙ ap (part_of size n) (omega arith),
      )

  -- The ids of a split stay below the size.
  global_bound : (i id : ℕ) → i < n → id < (part_of size n i).if_size → id * n + i < size
  global_bound i id low h =
      let q : ℕ = (size - 1) / n in
      let last = last_id size n size_positive positive fits few in
      elim (Bool-cases (ltb ((size - 1) % n) i)) [
        | inl e ↦
            let less : id < q = subst (λ b. id < (if b then q else q + 1)) e h in
            let bound : (id + 1) * n ≤ q * n = mul-le-mul_right n (omega arith) in
            omega (arith, add-mul id 1 n, one-mul n, bound, last)
        | inr e ↦
            let less : id < q + 1 = subst (λ b. id < (if b then q else q + 1)) e h in
            let bound : id * n ≤ q * n = mul-le-mul_right n (omega arith) in
            omega (arith, bound, last, ltb→le ((size - 1) % n) i e)
      ]

  -- Each id below the size is one of a split's.
  part_bound : (g : ℕ) → g < size → g / n < (part_of size n (g % n)).if_size
  part_bound g h =
      let q : ℕ = (size - 1) / n in
      let r : ℕ = (size - 1) % n in
      let last = last_id size n size_positive positive fits few in
      let whole = div-add-mod' g n in
      let far : q < g / n → ⊥ = λ k.
        let bound : (q + 1) * n ≤ g / n * n = mul-le-mul_right n (omega arith) in
        omega (arith, add-mul q 1 n, one-mul n, bound, last, mod-lt (size - 1) positive) in
      elim (Bool-cases (ltb r (g % n))) [
        | inl e ↦ rw e (elim (Bool-cases (ltb (g / n) q)) [
          | inl k ↦ ltb→lt (g / n) q k
          | inr k ↦
              let same : g / n ≡ q = elim (Bool-cases (ltb q (g / n))) [
                | inl l ↦ absurd (far (ltb→lt q (g / n) l))
                | inr l ↦ omega (arith, ltb→le (g / n) q k, ltb→le q (g / n) l)
              ] in
              let x : g / n * n ≡ q * n = ap (λ t. t * n) same in
              absurd (omega (arith, x, whole, last, ltb→lt r (g % n) e))
        ])
        | inr e ↦ rw e (elim (Bool-cases (ltb q (g / n))) [
          | inl l ↦ absurd (far (ltb→lt q (g / n) l))
          | inr l ↦ omega (arith, ltb→le q (g / n) l)
        ])
      ]

  global_lem :
      (i id : ℕ)
      → i < n
      → id < (part_of size n i).if_size
      → global_id (part_of size n i) id ≡ some (id * n + i)
  unfolding global_id
  global_lem i id low h =
      let whole : (id * n + i) % u128_mod ≡ id * n + i =
        mod-eq_of_lt (omega (arith, global_bound i id low h)) in
      rw (lt→ltb id (part_of size n i).if_size h, whole) refl

  global_back :
      (i id : ℕ) {g : ℕ}
      → i < n
      → global_id (part_of size n i) id ≡ some g
      → (i ≡ g % n) × (id ≡ g / n)
  unfolding global_id
  global_back i id {g} low h =
      let (_, pass, _) = >>=-eq-some (guard (ltb id (part_of size n i).if_size)) _ h in
      let below : id < (part_of size n i).if_size =
        ltb→lt id (part_of size n i).if_size (guard-true _ pass) in
      let same : id * n + i ≡ g = some-injective _ _ (sym (global_lem i id low below) ∙ h) in
      (
        sym (ap (λ t. t % n) (sym same) ∙ mul-add-mod_self_right id n i ∙ mod-eq_of_lt low),
        sym (
            ap (λ t. t / n) (sym same)
            ∙ mul-add-div_right positive id i
            ∙ omega (arith, div-eq_of_lt low)),
      )

-- A mapspace of a size from 1 to 2 ^ 128 - 1 in a number of splits from 1 to 2 ^ 32 - 1: each id of
-- a split below its own size has a global id below the size of the mapspace, and each id below that
-- size is the global id of one id of one split.
pub split_lem :
    (size n : ℕ)
    → 0 < size
    → 0 < n
    → size < u128_mod
    → n < u32_mod
    → (parts : List Part) × (split size n ≡ some parts)
      × (length parts ≡ n)
      × ((i id : ℕ) (p : Part)
          → get_elem? parts i ≡ some p
          → id < p.if_size
          → (g : ℕ) × (global_id p id ≡ some g) × (g < size))
      × ((g : ℕ)
          → g < size
          → (i id : ℕ) × (p : Part) × (get_elem? parts i ≡ some p)
            × (global_id p id ≡ some g)
            × ((i' id' : ℕ) (p' : Part)
                → get_elem? parts i' ≡ some p'
                → global_id p' id' ≡ some g
                → (i' ≡ i) × (id' ≡ id)))
split_lem size n size_positive positive fits few = (
  parts_from size n n 0,
  split_eq size n size_positive positive fits few,
  length-parts_from size n n 0,
  λ i id p e h.
      let (low, same) = found_part size n size_positive positive fits few i e in
      let below : id < (part_of size n i).if_size = subst (λ q. id < q.if_size) same h in
      (
        id * n + i,
        ap (λ q. global_id q id) same
            ∙ global_lem size n size_positive positive fits few i id low below,
        global_bound size n size_positive positive fits few i id low below,
      ),
  λ g h.
      let low : g % n < n = mod-lt g positive in
      (
        g % n,
        g / n,
        part_of size n (g % n),
        get-parts_from size n n 0 (g % n) low ∙ ap (λ j. some (part_of size n j)) (omega arith),
        global_lem size n size_positive positive fits few (g % n) (g / n) low
              (part_bound size n size_positive positive fits few g h)
            ∙ ap some (div-add-mod' g n),
        λ i' id' p' e k.
            let (low', same) = found_part size n size_positive positive fits few i' e in
            global_back size n size_positive positive fits few i' id' low'
              (ap (λ q. global_id q id') (sym same) ∙ k),
      ),
)
