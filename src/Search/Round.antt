-- ===== src/Search/Round.antt =====
-- One round of ExhaustiveSearch (src/search/exhaustive.cpp): `Next`, and `Report` of the outcome.
use timeloop.Prelude.{
  ℕ, ◌+◌, ◌<◌, ◌≡◌, refl, sym, subst, ap, ◌∙◌, Bool, true, false, ◌⊎◌, inl, inr, List, some, none,
  arith, product,
}
use timeloop.Prelude.Words.{u64_mod, u128_mod}
use timeloop.Numeric.Counter.{Counter}
use timeloop.Search.{Indices, read, Status, success, ready, waiting_for_status, terminated}
use timeloop.Search.Ids.{Within, id_counter, make_id-eq}
use timeloop.Search.Order.{Before, Same, Upto, Fits, Advanced, increment_all_lem, Before-Upto}
use timeloop.Search.Uniform.{with_bypass, Uniform, Counted, Settled}
use timeloop.Search.Settle.{settle_lem}
use timeloop.Search.Exhaustive.{
  Search, next, report, move_on, is_waiting, increment_all, skip_bypasses, close_bypasses,
  count_status,
}

-- Asking for the next mapping.
abbrev pub At : Indices → (List ℕ → Status) → Search → Type 0
At sizes outcome s =
    (s.state ≡ ready) × Within sizes s.iterator × Counted outcome s.iterator s.eval_fail_count

-- What a report at a place leads to: a later place, or the end, with nothing that succeeds passed over.
abbrev pub Reported : Indices → (List ℕ → Status) → Indices → Search → Type 0
Reported sizes outcome it s =
    (At sizes outcome s
      × Before it s.iterator
      × ((x : Indices)
          → Within sizes x
          → outcome (read x) ≡ success
          → Before x s.iterator
          → Upto x it))
    ⊎ ((s.state ≡ terminated)
        × ((x : Indices) → Within sizes x → outcome (read x) ≡ success → Upto x it))

pub indices_ext : (x y : Indices) → Same x y → x ≡ y
indices_ext x y (f, p, s, b) =
    λ i. record { factors = f i; permutation = p i; split = s i; bypass = b i }

pub Counted-zero :
    (outcome : List ℕ → Status) (it : Indices) (n : ℕ)
    → it.bypass ≡ 0
    → n ≡ 0
    → Counted outcome it n
Counted-zero outcome it n b e = record {
  few = omega arith;
  all_failed = λ eq d lt. absurd (omega arith);
  built = λ d lt. absurd (omega arith);
}

Counted-next :
    (sizes : Indices) (outcome : List ℕ → Status) (it : Indices) (t : Search) (it' : Indices)
    → Settled sizes outcome it t
    → Advanced sizes t.iterator (it', true)
    → Counted outcome it' t.eval_fail_count
Counted-next sizes outcome it t it' (w, u, n, inr (top, zero_count)) (w', b, k, inl (_, first)) =
    Counted-zero outcome it' t.eval_fail_count first zero_count
Counted-next sizes outcome it t it' (w, u, n, inr (top, zero_count))
      (w', b, k, inr (ef, ep, es, eb)) =
    absurd (let wb = w'.bypass in omega arith)
Counted-next sizes outcome it t it' (w, u, n, inl (same, more, c)) (w', b, k, inl (top, first)) =
    absurd (let eq = ap (λ (x : Indices). x.bypass) same in omega arith)
Counted-next sizes outcome it t it' (w, u, n, inl (same, more, c))
      (w', b, k, inr (ef, ep, es, eb)) =
    let eq : with_bypass it (it.bypass + 1) ≡ it' = indices_ext _ _ (
      sym (ef ∙ ap (λ (x : Indices). x.factors) same),
      sym (ep ∙ ap (λ (x : Indices). x.permutation) same),
      sym (es ∙ ap (λ (x : Indices). x.split) same),
      sym (eb ∙ ap (λ (x : Indices). x.bypass + 1) same),
    ) in
    subst (λ x. Counted outcome x t.eval_fail_count) eq c

move_on_lem :
    (sizes : Indices) (outcome : List ℕ → Status) (it : Indices) (t : Search) (r : Indices × Bool)
    → Settled sizes outcome it t
    → Advanced sizes t.iterator r
    → Reported sizes outcome it (move_on t r)
unfolding move_on
move_on_lem sizes outcome it t (it', true) (w, u, n, c) (w', b, k, j) = inl (
  (refl, w', Counted-next sizes outcome it t it' (w, u, n, c) (w', b, k, j)),
  Before-Upto it t.iterator it' u b,
  λ x wx e before. n x wx e (k x wx before),
)
move_on_lem sizes outcome it t (it', false) (w, u, n, c) a = inr (refl, λ x wx e. n x wx e (a x wx))

pub report_lem :
    (sizes : Indices) (outcome : List ℕ → Status) (s : Search)
    → Uniform sizes outcome
    → Fits sizes
    → sizes.bypass < u64_mod
    → At sizes outcome s
    → (s' : Search) × (report sizes
          (outcome (read s.iterator))
          (record s { state = waiting_for_status })
        ≡ some s')
      × Reported sizes outcome s.iterator s'
unfolding report is_waiting
report_lem sizes outcome s u fits small (r, w, c) =
    let st = outcome (read s.iterator) in
    let t : Search =
      skip_bypasses st sizes
        (close_bypasses sizes (count_status st (record s { state = waiting_for_status }))) in
    let settled =
      settle_lem sizes outcome (record s { state = waiting_for_status }) u fits small w c st refl in
    (
      move_on t (increment_all sizes t.iterator),
      refl,
      move_on_lem sizes outcome s.iterator t (increment_all sizes t.iterator) settled
          (increment_all_lem sizes t.iterator fits settled.0),
    )

pub next-ready :
    (sizes : Indices) (outcome : List ℕ → Status) (s : Search)
    → product (read sizes) < u128_mod
    → At sizes outcome s
    → (id : Counter) × (next sizes s ≡ some (some id, record s { state = waiting_for_status }))
      × (id.value ≡ read s.iterator)
unfolding next
next-ready sizes outcome s fits (r, w, c) =
    (id_counter sizes s.iterator, rw (r, make_id-eq sizes s.iterator w fits), refl)

pub next-terminated :
    (sizes : Indices) (s : Search) → s.state ≡ terminated → next sizes s ≡ some (none, s)
unfolding next
next-terminated sizes s e = rw e
