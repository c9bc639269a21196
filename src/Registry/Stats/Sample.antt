-- ===== src/Registry/Stats/Sample.antt =====
-- Natural numbers in the place of floating-point numbers, for examples.
use pulld.Base.{ℕ, ◌+◌, ◌-◌, ◌*◌, ◌/◌, ltb, leb}
use pulld.Registry.Stats.{Float}

abbrev pub nat_float : Float
nat_float = record {
  F = ℕ;
  of_nat = λ n. n;
  alpha = 1;
  add = λ a b. a + b;
  sub = λ a b. a - b;
  mul = λ a b. a * b;
  div = λ a b. a / b;
  lt = ltb;
  le = leb;
  as_secs_f64 = λ n. n;
}
