-- ===== src/Search/Complete.antt =====
-- A client of ExhaustiveSearch (src/search/exhaustive.cpp), from its constructor to its end.
use timeloop.Prelude.{
  ℕ, zero, suc, ◌+◌, ◌<◌, ◌≡◌, refl, false, ◌⊎◌, inl, inr, List, [], ◌∷◌, map, Memᴰ, All, Option,
  some, none, arith, ◌>>=◌, product, ◌==◌,
}
use timeloop.Prelude.Words.{u64_mod, u128_mod}
use timeloop.Numeric.Counter.{Counter}
use timeloop.Search.{Indices, read, Status, success, ready, terminated}
use timeloop.Search.Ids.{Within}
use timeloop.Search.Order.{Before, Upto, Fits, rank, total, rank_mono, rank-lt-total}
use timeloop.Search.Uniform.{Uniform}
use timeloop.Search.Round.{Counted-zero, At, indices_ext, report_lem, next-ready, next-terminated}
use timeloop.Search.Exhaustive.{Search, origin, start, next, report}

-- One mapping ID of a client, or the end.
abbrev try_id :
    Indices
    → (List ℕ → Status)
    → (Search → Option (List (List ℕ) × Search))
    → Option Counter
    → Search
    → Option (List (List ℕ) × Search)
try_id sizes outcome again none s = some ([], s)
try_id sizes outcome again (some id) s =
    report sizes (outcome id.value) s >>= again >>= λ (ids, end). some (id.value ∷ ids, end)

-- A client of the search: it asks for mapping IDs until there are none, and reports how each ends.
-- The result has the digits of the IDs; it is `none` if an assertion fails or the fuel runs out.
abbrev pub explore : Indices → (List ℕ → Status) → ℕ → Search → Option (List (List ℕ) × Search)
explore sizes outcome zero s = none
explore sizes outcome (suc fuel) s =
    next sizes s >>= λ (id, s'). try_id sizes outcome (explore sizes outcome fuel) id s'

-- The places from one on, in the order of the search.
abbrev pub Chain : Indices → List Indices → Type 0
Chain x [] = Unit
Chain x (y ∷ ys) = Before x y × Chain y ys

-- The places that a search visits from a place on: in order, within the sizes, and all that succeed.
abbrev pub Explored : Indices → (List ℕ → Status) → Indices → List Indices → Type 0
Explored sizes outcome it places =
    Chain it places
    × All (Within sizes) (it ∷ places)
    × ((x : Indices)
        → Within sizes x
        → outcome (read x) ≡ success
        → Before x it ⊎ Memᴰ x (it ∷ places))

member :
    (sizes : Indices) (outcome : List ℕ → Status) (it : Indices) (places : List Indices)
    (x : Indices)
    → Upto x it
    → Before x it ⊎ Memᴰ x (it ∷ places)
member sizes outcome it places x (inl b) = inl b
member sizes outcome it places x (inr m) = inr (Memᴰ.head (indices_ext x it m))

extend :
    (sizes : Indices) (outcome : List ℕ → Status) (it it' : Indices) (places : List Indices)
    → Within sizes it
    → Before it it'
    → ((x : Indices) → Within sizes x → outcome (read x) ≡ success → Before x it' → Upto x it)
    → Explored sizes outcome it' places
    → Explored sizes outcome it (it' ∷ places)
extend sizes outcome it it' places w b n (chain, all, found) = (
  (b, chain),
  (w, all),
  λ x wx e. elim (found x wx e) [
    | inl before ↦ member sizes outcome it (it' ∷ places) x (n x wx e before)
    | inr later ↦ inr (Memᴰ.tail later)
  ],
)

finish :
    (sizes : Indices) (outcome : List ℕ → Status) (it : Indices)
    → Within sizes it
    → ((x : Indices) → Within sizes x → outcome (read x) ≡ success → Upto x it)
    → Explored sizes outcome it []
finish sizes outcome it w n = (tt, (w, tt), λ x wx e. member sizes outcome it [] x (n x wx e))

-- What `explore` returns from a place on.
abbrev Outcome : Indices → (List ℕ → Status) → ℕ → Search → Type 0
Outcome sizes outcome fuel s =
    (places : List Indices) × (end : Search) × (explore sizes outcome fuel s
      ≡ some (map read (s.iterator ∷ places), end))
    × (end.state ≡ terminated)
    × Explored sizes outcome s.iterator places

explore_end :
    (sizes : Indices) (outcome : List ℕ → Status) (fuel : ℕ) (s : Search)
    → 0 < fuel
    → s.state ≡ terminated
    → explore sizes outcome fuel s ≡ some ([], s)
explore_end sizes outcome zero s h e = absurd (omega arith)
explore_end sizes outcome (suc fuel) s h e = rw (next-terminated sizes s e)

-- The search from a place on, with fuel for every place that is left.
explore_lem :
    (sizes : Indices) (outcome : List ℕ → Status)
    → Uniform sizes outcome
    → Fits sizes
    → sizes.bypass < u64_mod
    → product (read sizes) < u128_mod
    → (fuel : ℕ) (s : Search) → At sizes outcome s
    → total sizes < rank sizes s.iterator + fuel
    → Outcome sizes outcome fuel s
explore_lem sizes outcome u fits small prod zero s at enough =
    absurd (let below = rank-lt-total sizes s.iterator at.1 in omega arith)
explore_lem sizes outcome u fits small prod (suc fuel) s at enough =
    let (id, asked, value) = next-ready sizes outcome s prod at in
    let (s', reported, how) = report_lem sizes outcome s u fits small at in
    let w = at.1 in
    let below = rank-lt-total sizes s.iterator w in
    elim how [
      | inl (at', before, none_skipped) ↦
          let higher = rank_mono sizes s.iterator s'.iterator w at'.1 before in
          let (places, end, run, over, found) =
            explore_lem sizes outcome u fits small prod fuel s' at' (omega arith) in
          (
            s'.iterator ∷ places,
            end,
            rw (asked, value, reported, run),
            over,
            extend sizes outcome s.iterator s'.iterator places w before none_skipped found,
          )
      | inr (over, none_skipped) ↦ (
        [],
        s',
        rw (asked, value, reported, explore_end sizes outcome fuel s' (omega arith) over),
        over,
        finish sizes outcome s.iterator w none_skipped,
      )
    ]

-- Sizes that are positive, as `Size` returns them for a mapspace that is not empty.
abbrev pub Sizes : Indices → Type 0
Sizes sizes =
    Within sizes origin × Fits sizes × (sizes.bypass < u64_mod) × (product (read sizes) < u128_mod)

-- A mapspace that is not empty and fits its counters, where construction does not depend on the
-- bypass and no mapping succeeds whose factors fail their evaluation under all bypasses: the search
-- from its constructor on ends within one round for each place and one more, with no assertion
-- failed. It visits places of the mapspace in order, each one once, from the first on, and among
-- them is every place whose mapping succeeds.
pub explore_complete :
    (sizes : Indices) (outcome : List ℕ → Status)
    → Sizes sizes
    → Uniform sizes outcome
    → (places : List Indices) × (end : Search) × (explore sizes outcome
          (total sizes + 1)
          (start sizes)
        ≡ some (map read (origin ∷ places), end))
      × (end.state ≡ terminated)
      × Chain origin places
      × All (Within sizes) (origin ∷ places)
      × ((x : Indices) → Within sizes x → outcome (read x) ≡ success → Memᴰ x (origin ∷ places))
unfolding start
explore_complete sizes outcome (w, fits, small, prod) u =
    let ne : (sizes.factors == 0) ≡ false = let pos = w.factors in ground arith in
    let first : Search = record {
      state = ready;
      iterator = origin;
      valid_mappings = 0;
      eval_fail_count = 0;
    } in
    let at : At sizes outcome first = (refl, w, Counted-zero outcome origin 0 refl refl) in
    let (places, end, run, over, (chain, all, found)) =
      explore_lem sizes outcome u fits small prod (total sizes + 1) first at (omega arith) in
    (
      places,
      end,
      rw (ne) run,
      over,
      chain,
      all,
      λ x wx e. elim (found x wx e) [ inl before ↦ absurd (omega arith) | inr later ↦ later ],
    )
