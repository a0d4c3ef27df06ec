-- ===== src/Base/Fixed.antt =====
-- Test data: instances of the float interface, in thousandths and in parts of 10^9.
use Prim.Native.Nat.{◌*◌, ◌+◌, ◌-◌, ◌/◌, min, ℕ}
use tarsk.Base.Tests.{leb, ltb}
use tarsk.Base.Float.{Float}

abbrev pub thousandths : Float
thousandths = record {
  F64 = ℕ;
  of_ℕ = λ n. n * 1000;
  add = λ a b. a + b;
  sub = λ a b. a - b;
  mul = λ a b. a * b / 1000;
  div = λ a b. a * 1000 / b;
  min_of = min;
  leq = leb;
  less = ltb;
  ceil = λ a. (a + 999) / 1000;
  from_secs_f64 = λ a. a * 1000000;
}

abbrev pub billionths : Float
billionths = record {
  F64 = ℕ;
  of_ℕ = λ n. n * 1000000000;
  add = λ a b. a + b;
  sub = λ a b. a - b;
  mul = λ a b. a * b / 1000000000;
  div = λ a b. a * 1000000000 / b;
  min_of = min;
  leq = leb;
  less = ltb;
  ceil = λ a. (a + 999999999) / 1000000000;
  from_secs_f64 = λ a. a;
}
