-- ===== src/Tests/Floats.antt =====
-- Whole numbers in place of floating point: what lies below 0 is 0.
use markets_service.Base.{
  ℕ, ltb, refl, some, none, arith, if◌then◌else◌, ◌-◌, ◌+◌, ◌*◌, ◌^◌, suc, zero,
}
use markets_service.Base.Int.{pos_part}
use markets_service.Float.{Float64}
use markets_service.Funding.Mark.{FloatOrder}
use markets_service.Text.Decimal.{set_string}

abbrev half : ℕ → ℕ
half zero = zero
half (suc zero) = zero
half (suc (suc n)) = suc (half n)

abbrev pub floats : Float64
floats = record {
  F = ℕ;
  of_nat = λ n. n;
  plus = λ a b. a + b;
  minus = λ a b. a - b;
  times = λ a b. a * b;
  divide = λ a b. half a;
  negate = λ a. 0;
  less = ltb;
  max = λ a b. if ltb a b then b else a;
  min = λ a b. if ltb a b then a else b;
  abs = λ a. a;
  sqrt = λ a. a;
  round = λ a. a;
  pow10 = λ n. 10 ^ n;
  parse_float = λ t. elim (set_string t) [ none ↦ none | some z ↦ some (pos_part z) ];
}

pub floats-order : FloatOrder floats
floats-order = record {
  max_above = λ a b. ground arith;
  max_below = λ a b c h k. ground arith;
  min_below = λ a b. ground arith;
  abs_around = λ a. ground arith;
  abs_above = λ a. ground arith;
  negate_below = λ a. refl;
  plus_above = λ a b h k. ground arith;
  half_above = λ a h. ground arith;
}
