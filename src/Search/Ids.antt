-- ===== src/Search/Ids.antt =====
-- The mapping IDs that `Next` hands out.
use timeloop.Prelude.{ℕ, ◌<◌, ◌≡◌, refl, some, List, [], ◌∷◌, product, arith}
use timeloop.Prelude.Words.{u128_mod}
use timeloop.Numeric.Counter.{Counter}
use timeloop.Numeric.Counter.Digits.{encode}
use timeloop.Numeric.Counter.Assign.{set_digit-eq}
use timeloop.Numeric.Counter.Laws.{init-eq}
use timeloop.Search.{Indices, read, set_digits, make_id}

-- A number below the size in each dimension.
pub record Within (sizes it : Indices) : Type 0 where
  pub factors : it.factors < sizes.factors
  pub permutation : it.permutation < sizes.permutation
  pub split : it.split < sizes.split
  pub bypass : it.bypass < sizes.bypass

abbrev pub id_counter : Indices → Indices → Counter
id_counter sizes it = record {
  order = 4;
  base = read sizes;
  value = read it;
  integer = encode (read sizes) (read it);
  endint = product (read sizes);
}

pub make_id-eq :
    (sizes it : Indices)
    → Within sizes it
    → product (read sizes) < u128_mod
    → make_id sizes it ≡ some (id_counter sizes it)
unfolding make_id set_digits
make_id-eq sizes it w fits =
    let p : 0 < sizes.permutation = omega (arith, w.permutation) in
    let s : 0 < sizes.split = omega (arith, w.split) in
    let b : 0 < sizes.bypass = omega (arith, w.bypass) in
    let f : 0 < sizes.factors = omega (arith, w.factors) in
    let start : Counter = record {
      order = 4;
      base = read sizes;
      value = 0 ∷ 0 ∷ 0 ∷ 0 ∷ [];
      integer = 0;
      endint = product (read sizes);
    } in
    let at : List ℕ → Counter = (λ v. record {
      order = 4;
      base = read sizes;
      value = v;
      integer = encode (read sizes) v;
      endint = product (read sizes);
    }) in
    rw (
      init-eq (read sizes) (f, (p, (s, (b, tt)))) fits,
      set_digit-eq start 0 it.factors (w.factors, (p, (s, (b, tt)))) (omega arith) refl fits,
      set_digit-eq (at (it.factors ∷ 0 ∷ 0 ∷ 0 ∷ [])) 1 it.permutation
          (w.factors, (w.permutation, (s, (b, tt)))) (omega arith) refl fits,
      set_digit-eq (at (it.factors ∷ it.permutation ∷ 0 ∷ 0 ∷ [])) 2 it.split
          (w.factors, (w.permutation, (w.split, (b, tt)))) (omega arith) refl fits,
      set_digit-eq (at (it.factors ∷ it.permutation ∷ it.split ∷ 0 ∷ [])) 3 it.bypass
          (w.factors, (w.permutation, (w.split, (w.bypass, tt)))) (omega arith) refl fits,
    )
