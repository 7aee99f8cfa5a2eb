-- ===== src/Scenarios/Fixed.antt =====
-- A stand-in for `float64` that can be run: numbers of thousandths.
use smokeng.Common.{ℕ, ◌+◌, ◌-◌, ◌*◌, ◌/◌, false, ltb, leb}
use smokeng.Common.Int.{pos, pos_part}
use smokeng.Common.Float.{FloatOps}

abbrev pub fixed : FloatOps ℕ
fixed = record {
  of_int = λ n. pos_part n * 1000;
  add = λ a b. a + b;
  sub = λ a b. a - b;
  mul = λ a b. a * b / 1000;
  div = λ a b. a * 1000 / b;
  lt = ltb;
  le = leb;
  is_nan = λ _. false;
  is_inf = λ _. false;
  trunc = λ a. pos (a / 1000);
}
