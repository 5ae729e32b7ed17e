-- ===== src/Api/Amounts.antt =====
-- internal/api/orders.go and spot_contract.go: decimals and the amounts in atomic units:
-- `parseDecimal`, `parsePositiveDecimal`, `normalizeAmountToAtomicUnits`, `amountAtomicStep` and
-- `compareIntegerStrings`. `Rat.SetString` is a parameter.
use Prim.Native.Nat.{Ordering}
use markets_service.Api.{
  ApiError, decimal_required, invalid_decimal, invalid_amount_step, misaligned_amount, zero_size,
  negative_desired, negative_filled, invalid_integer, required,
}
use markets_service.Base.{
  Bool, not, ◌&&◌, Option, Result, ok, err, ◌>>=◌, ◌>>◌, or_error, fail_if, if◌then◌else◌,
}
use markets_service.Base.Int.{pos, ltb_ℤ, eqb_ℤ}
use markets_service.Instruments.{Metadata, cngn_apr2026_symbol}
use markets_service.Orders.Amounts.{cmp}
use markets_service.Rational.{Rat, quotient, is_int, integer, not_above_zero}
use markets_service.Text.{Text, codes, text_eq, is_empty, trim_space}
use markets_service.Text.Decimal.{set_string, print_int}

-- `amountAtomicStep`
unfoldable pub amount_atomic_step : Metadata → Text
amount_atomic_step m = if text_eq m.symbol cngn_apr2026_symbol then m.min_size else codes "1"

-- `compareIntegerStrings`
unfoldable pub compare_integer_strings : Text → Text → Result ApiError Ordering
compare_integer_strings a b = do
  left ← or_error (set_string (trim_space a)) (invalid_integer a)
  right ← or_error (set_string (trim_space b)) (invalid_integer b)
  ok (cmp left right)

-- A step that is no decimal is the same error as one that is not positive.
abbrev pub step_or_error : Result ApiError Rat → Result ApiError Rat
step_or_error (ok step) = ok step
step_or_error (err e) = err invalid_amount_step

module _ (parse_rat : Text → Option Rat) where
  -- `parseDecimal`
  unfoldable pub parse_decimal : Text → Result ApiError Rat
  parse_decimal raw = do
    let trimmed = trim_space raw
    fail_if (is_empty trimmed) (decimal_required raw)
    or_error (parse_rat trimmed) (invalid_decimal raw)

  -- `parsePositiveDecimal`
  unfoldable pub parse_positive_decimal : Text → Text → Result ApiError Rat
  parse_positive_decimal raw label = do
    value ← parse_decimal raw
    fail_if (not_above_zero value) (required label)
    ok value

  -- `normalizeAmountToAtomicUnits`; the flag is `requirePositive`.
  unfoldable pub normalize_amount_to_atomic_units : Metadata → Text → Bool → Result ApiError Text
  normalize_amount_to_atomic_units m raw require_positive = do
    value ← parse_decimal raw
    step ← step_or_error (parse_decimal (amount_atomic_step m))
    fail_if (not_above_zero step) invalid_amount_step
    let atomic_rat = quotient value step
    fail_if (not (is_int atomic_rat)) misaligned_amount
    let atomic = integer atomic_rat
    fail_if (require_positive && eqb_ℤ atomic (pos 0)) zero_size
    fail_if (ltb_ℤ atomic (pos 0)) (if require_positive then negative_desired else negative_filled)
    ok (print_int atomic)
