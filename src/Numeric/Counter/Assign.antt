-- ===== src/Numeric/Counter/Assign.antt =====
-- `Set(dim, v)` with the counter that it leaves written out.
use timeloop.Prelude.{ℕ, ◌+◌, ◌*◌, ◌<◌, ◌≡◌, true, some, ltb, product, set, arith, lt→ltb}
use timeloop.Prelude.Words.{u128_mod}
use timeloop.Numeric.Counter.{Counter, set_digit, settle}
use timeloop.Numeric.Counter.Digits.{InRange, encode, encode-lt-product, update_integer-eq}

pub set_digit-eq :
    (c : Counter) (dim v : ℕ)
    → InRange c.base (set c.value dim v)
    → dim < c.order
    → c.endint ≡ product c.base
    → product c.base < u128_mod
    → set_digit c dim v
      ≡ some (record c { value = set c.value dim v; integer = encode c.base (set c.value dim v) })
unfolding set_digit settle
set_digit-eq c dim v range inside end fits =
    let below = encode-lt-product c.base (set c.value dim v) range in
    let accepted : ltb (encode c.base (set c.value dim v)) c.endint ≡ true =
      lt→ltb _ _ (omega arith) in
    let run = update_integer-eq c.base (set c.value dim v) 0 1 range (omega arith) (omega arith) in
    let eq : 0 + 1 * encode c.base (set c.value dim v) ≡ encode c.base (set c.value dim v) =
      omega arith in
    let ok : ltb dim c.order ≡ true = lt→ltb _ _ inside in rw (ok, run, eq, accepted)
