-- ===== src/Numeric/FindBounds.antt =====
-- FindBounds (include/util/numeric.hpp): the entries of a `std::map` round a key. The map is the
-- list of its keys in order; the keys are numbers.
mod Tests
use timeloop.Prelude.{
  ℕ, zero, suc, ◌+◌, ◌≤◌, ◌<◌, ◌≡◌, refl, Bool, true, false, ◌⊎◌, inl, inr, Option, none, some, ltb,
  ◌==◌, if◌then◌else◌, arith, Bool-cases, ltb→lt, ltb→le, List, [], ◌∷◌, All, All-Memᴰ, Memᴰ, sym,
  ==_ne, lt→ltb, le→ltb, ==_iff,
}
use mathlib.Core.List.Memᴰ

-- `TaggedBound`
pub record TaggedBound : Type 0 where
  pub valid : Bool
  pub bound : ℕ

abbrev pub invalid : TaggedBound
invalid = record { valid = false; bound = 0 }

abbrev pub tagged : ℕ → TaggedBound
tagged k = record { valid = true; bound = k }

-- The search loop, and what follows it: the keys from the iterator on, and the key before it.
pub bounds_from : Option ℕ → List ℕ → ℕ → TaggedBound × TaggedBound
bounds_from none [] key = (invalid, invalid)
bounds_from (some before) [] key = (tagged before, invalid)
bounds_from none (k ∷ ks) key =
    if ltb k key
    then bounds_from (some k) ks key
    else ((if key == k then tagged k else invalid), tagged k)
bounds_from (some before) (k ∷ ks) key =
    if ltb k key then bounds_from (some k) ks key else (tagged before, tagged k)

-- `FindBounds`: the lower and the upper bound.
pub find_bounds : List ℕ → ℕ → TaggedBound × TaggedBound
unfolding bounds_from
find_bounds keys key = bounds_from none keys key

-- The keys of a map ascend.
abbrev pub Ascending : List ℕ → Type 0
Ascending [] = Unit
Ascending (k ∷ ks) = All (λ j. k < j) ks × Ascending ks

-- The greatest key below `key`.
abbrev pub GreatestBelow : List ℕ → ℕ → ℕ → Type 0
GreatestBelow keys key b = Memᴰ b keys × (b < key) × ((j : ℕ) → Memᴰ j keys → j < key → j ≤ b)

-- The least key from `key` on.
abbrev pub LeastFrom : List ℕ → ℕ → ℕ → Type 0
LeastFrom keys key b = Memᴰ b keys × (key ≤ b) × ((j : ℕ) → Memᴰ j keys → key ≤ j → b ≤ j)

-- What the upper bound says of the keys.
abbrev pub UpperOf : List ℕ → ℕ → TaggedBound → Type 0
UpperOf keys key up =
    ((up.valid ≡ true) × LeastFrom keys key up.bound)
    ⊎ ((up.valid ≡ false) × ((j : ℕ) → Memᴰ j keys → j < key))

-- What the lower bound says: the greatest key below, or the key itself if none is below.
abbrev pub LowerOf : List ℕ → ℕ → TaggedBound → Type 0
LowerOf keys key lo =
    ((lo.valid ≡ true) × GreatestBelow keys key lo.bound)
    ⊎ ((lo.valid ≡ true) × (lo.bound ≡ key) × Memᴰ key keys × ((j : ℕ) → Memᴰ j keys → key ≤ j))
    ⊎ ((lo.valid ≡ false) × ((j : ℕ) → Memᴰ j keys → key < j))

above_head : (k : ℕ) (ks : List ℕ) (j : ℕ) → All (λ i. k < i) ks → Memᴰ j (k ∷ ks) → k ≤ j
above_head k ks j h m = elim (Memᴰ.cases_cons m) [
  | inl e ↦ omega arith
  | inr t ↦ let lt : k < j = All-Memᴰ (λ i. k < i) h t in omega arith
]

-- A smaller key in front changes neither bound.
UpperOf-cons :
    (b key : ℕ) (ks : List ℕ) (up : TaggedBound)
    → b < key
    → UpperOf ks key up
    → UpperOf (b ∷ ks) key up
UpperOf-cons b key ks up h (inl (v, (m, ge, least))) = inl (
  v,
  (
    Memᴰ.tail m,
    ge,
    λ j n k. elim (Memᴰ.cases_cons n) [ inl e ↦ absurd (omega arith) | inr t ↦ least j t k ],
  ),
)
UpperOf-cons b key ks up h (inr (v, all)) =
    inr (v, λ j n. elim (Memᴰ.cases_cons n) [ inl e ↦ omega arith | inr t ↦ all j t ])

GreatestBelow-cons :
    (b k key lo : ℕ) (ks : List ℕ)
    → b < k
    → k < key
    → GreatestBelow (k ∷ ks) key lo
    → GreatestBelow (b ∷ k ∷ ks) key lo
GreatestBelow-cons b k key lo ks h l (m, lt, greatest) = (
  Memᴰ.tail m,
  lt,
  λ j n i. elim (Memᴰ.cases_cons n) [
    | inl e ↦ let le = greatest k (Memᴰ.head refl) l in omega arith
    | inr t ↦ greatest j t i
  ],
)

stop_upper : (k key : ℕ) (ks : List ℕ) → All (λ i. k < i) ks → key ≤ k → LeastFrom (k ∷ ks) key k
stop_upper k key ks h le = (Memᴰ.head refl, le, λ j m _. above_head k ks j h m)

bounds_from_lem :
    (b key : ℕ) (ks : List ℕ)
    → b < key
    → All (λ i. b < i) ks
    → Ascending ks
    → let (lo, up) = bounds_from (some b) ks key in
      (lo.valid ≡ true) × GreatestBelow (b ∷ ks) key lo.bound × UpperOf ks key up
unfolding bounds_from
bounds_from_lem b key [] h all asc = (
  refl,
  (
    Memᴰ.head refl,
    h,
    λ j m _. elim (Memᴰ.cases_cons m) [ inl e ↦ omega arith | inr t ↦ absurd (Memᴰ.not-nil t) ],
  ),
  inr (refl, λ j m. absurd (Memᴰ.not-nil m)),
)
bounds_from_lem b key (k ∷ ks) h all asc = elim (Bool-cases (ltb k key)) [
  | inl e ↦
      let lt = ltb→lt k key e in
      let (v, low, up) = bounds_from_lem k key ks lt asc.0 asc.1 in
      rw e (v, GreatestBelow-cons b k key _ ks all.0 lt low, UpperOf-cons k key ks _ lt up)
  | inr e ↦
      let le = ltb→le k key e in
      rw e (
        refl,
        (
          Memᴰ.head refl,
          h,
          λ j m i. elim (Memᴰ.cases_cons m) [
            | inl same ↦ omega arith
            | inr t ↦ let ge = above_head k ks j asc.0 t in absurd (omega arith)
          ],
        ),
        inl (refl, stop_upper k key ks asc.0 le),
      )
]

-- On ascending keys the upper bound is the least key from the given one on, and is invalid exactly
-- if all keys are below it. The lower bound is the greatest key below; where no key is below it is
-- the key itself if that is in the map, and else invalid.
pub find_bounds_lem :
    (keys : List ℕ) (key : ℕ)
    → Ascending keys
    → LowerOf keys key (find_bounds keys key).0 × UpperOf keys key (find_bounds keys key).1
unfolding find_bounds
find_bounds_lem [] key asc =
    (inr (inr (refl, λ j m. absurd (Memᴰ.not-nil m))), inr (refl, λ j m. absurd (Memᴰ.not-nil m)))
find_bounds_lem (k ∷ ks) key asc = elim (Bool-cases (ltb k key)) [
  | inl e ↦
      let lt = ltb→lt k key e in
      let (v, low, up) = bounds_from_lem k key ks lt asc.0 asc.1 in
      rw e (inl (v, low), UpperOf-cons k key ks _ lt up)
  | inr e ↦
      let le = ltb→le k key e in
      let up = stop_upper k key ks asc.0 le in
      rw e (elim (Bool-cases (key == k)) [
        | inl same ↦
            let eq : key ≡ k = (==_iff key k).0 same in
            rw same (
              inr (
                  inl
                    (refl, sym eq, Memᴰ.head eq, λ j m. omega (arith, above_head k ks j asc.0 m))),
              inl (refl, up),
            )
        | inr other ↦
            let less : key < k = ground arith in
            rw other
              (inr (inr (refl, λ j m. omega (arith, above_head k ks j asc.0 m))), inl (refl, up))
      ])
]
