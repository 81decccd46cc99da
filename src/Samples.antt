-- ===== src/Samples.antt =====
-- Numbers in thousandths, on which the theorems over any kind of number are tried out.
use malacca_port_resilience.Prelude.{
  ℕ, ◌+◌, ◌-◌, ◌*◌, ◌/◌, true, Floats, FloatsLaws, arith, ltb, leb, ◌==◌,
}
use Prim.Native.Nat.{◌^◌}

abbrev pub thousandths : Floats ℕ
thousandths = record {
  lt = ltb;
  le = leb;
  eq = ◌==◌;
  is_finite = λ _. true;
  decimal = λ m d. m * 1000 / 10 ^ d;
  of_ℕ = λ n. n * 1000;
  add = ◌+◌;
  sub = ◌-◌;
  mul = λ a b. a * b / 1000;
  div = λ a b. a * 1000 / b;
  abs = λ a. a;
}

pub thousandths-FloatsLaws : FloatsLaws thousandths
thousandths-FloatsLaws = record {
  total = λ a b ha hb h. ground (arith, h);
  strict = λ a b h. ground (arith, h);
  literal = λ m d. ground arith;
  finite = λ a h. ground arith;
}
