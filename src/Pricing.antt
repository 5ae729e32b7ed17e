-- ===== src/Pricing.antt =====
-- internal/pricing/pricing.go: prices in decimals and in ticks: `decimalToFraction`, `NewConverter`,
-- `Converter.Parse` and `Converter.FormatTicks`.
pub mod Aligned
pub mod Variance
use Prim.Native.Nat.{max}
use mathlib.Core.List.{reverse}
use markets_service.Base.{
  ℕ, ◌-◌, ◌^◌, Bool, true, false, not, ◌&&◌, List, [], ◌∷◌, ◌++◌, length, replicate, ltb, ◌==◌,
  Result, ok, err, ◌>>=◌, ◌>>◌, fail_if, or_error, if◌then◌else◌,
}
use markets_service.Base.Int.{ℤ, pos, ◌*ℤ◌, quo, rem, leb_ℤ, ltb_ℤ, eqb_ℤ}
use markets_service.Text.{Text, codes, is_empty, trim_space, trim_prefix}
use markets_service.Text.Decimal.{is_digit, set_string, print_int}

-- Division by zero is a panic in the program.
pub data PriceError : Type 0 where
  value_required invalid_decimal misaligned not_positive : PriceError
  invalid_ticks negative_ticks division_by_zero : PriceError

-- `strings.Split(s, ".")`
unfoldable pub to_first : ℕ → List Text → List Text
to_first c [] = (c ∷ []) ∷ []
to_first c (part ∷ parts) = (c ∷ part) ∷ parts

unfoldable pub split_point : Text → List Text
unfolding to_first
split_point [] = [] ∷ []
split_point (c ∷ s) = if c == b'.' then [] ∷ split_point s else to_first c (split_point s)

unfoldable pub all_digits : Text → Bool
all_digits [] = true
all_digits (c ∷ s) = is_digit c && all_digits s

-- The numerator, the denominator and the number of digits behind the point.
pub record Fraction : Type 0 where
  pub numerator : ℤ
  pub denominator : ℤ
  pub scale : ℕ

-- `decimalToFraction` with the two parts of the text.
unfoldable pub fraction_of : Text → Text → Result PriceError Fraction
fraction_of int_part frac_part = do
  let digits = (if is_empty int_part then codes "0" else int_part) ++ frac_part
  fail_if (is_empty digits) invalid_decimal
  fail_if (not (all_digits digits)) invalid_decimal
  numerator ← or_error (set_string digits) invalid_decimal
  ok (record {
    numerator = numerator;
    denominator = pos (10 ^ length frac_part);
    scale = length frac_part;
  })

unfoldable pub fraction_of_parts : List Text → Result PriceError Fraction
fraction_of_parts (int_part ∷ []) = fraction_of int_part []
fraction_of_parts (int_part ∷ frac_part ∷ []) = fraction_of int_part frac_part
fraction_of_parts _ = err invalid_decimal

-- `decimalToFraction`
unfoldable pub decimal_to_fraction : Text → Result PriceError Fraction
decimal_to_fraction raw = do
  let trimmed = trim_space raw
  fail_if (is_empty trimmed) value_required
  fraction_of_parts (split_point (trim_prefix trimmed (codes "+")))

pub record Converter : Type 0 where
  pub tick_size : Text
  pub quote_precision : ℕ
  pub scale : ℕ
  pub tick_numerator : ℤ
  pub tick_denominator : ℤ

-- `NewConverter`
unfoldable pub new_converter : Text → ℕ → Result PriceError Converter
new_converter tick_size quote_precision = do
  f ← decimal_to_fraction tick_size
  ok (record {
    tick_size = tick_size;
    quote_precision = quote_precision;
    scale = f.scale;
    tick_numerator = f.numerator;
    tick_denominator = f.denominator;
  })

-- `strings.TrimRight(s, "0")`
unfoldable pub skip_zeros : Text → Text
skip_zeros [] = []
skip_zeros (c ∷ s) = if c == b'0' then skip_zeros s else c ∷ s

unfoldable pub trim_zeros : Text → Text
trim_zeros s = reverse (skip_zeros (reverse s))

-- A number with zeros before it up to a width.
unfoldable pub pad : ℕ → Text → Text
pad width s = replicate (width - length s) b'0' ++ s

unfoldable pub with_fraction : Text → Text → Text
with_fraction whole fraction = if is_empty fraction then whole else whole ++ codes "." ++ fraction

-- `FormatTicks`. The remainder is taken of numbers that are not negative, where `Mod` is `rem`.
unfoldable pub format_ticks : Converter → Text → Result PriceError Text
format_ticks c ticks = do
  value ← or_error (set_string (trim_space ticks)) invalid_ticks
  fail_if (ltb_ℤ value (pos 0)) negative_ticks
  let numerator = value *ℤ c.tick_numerator
  let whole = print_int (quo numerator c.tick_denominator)
  let remainder = rem numerator c.tick_denominator
  let scale = max c.scale c.quote_precision
  let fraction = print_int (quo (remainder *ℤ pos (10 ^ scale)) c.tick_denominator)
  ok (
      if eqb_ℤ remainder (pos 0)
      then whole
      else with_fraction whole (trim_zeros (pad scale fraction)))

-- The ticks of a price and its text.
pub record Parsed : Type 0 where
  pub ticks : Text
  pub display : Text

-- `Parse`
unfoldable pub parse : Converter → Text → Result PriceError Parsed
parse c price = do
  f ← decimal_to_fraction price
  let scaled_numerator = f.numerator *ℤ c.tick_denominator
  let scaled_denominator = f.denominator *ℤ c.tick_numerator
  fail_if (eqb_ℤ scaled_denominator (pos 0)) division_by_zero
  fail_if (not (eqb_ℤ (rem scaled_numerator scaled_denominator) (pos 0))) misaligned
  fail_if (leb_ℤ (quo scaled_numerator scaled_denominator) (pos 0)) not_positive
  display ← format_ticks c (print_int (quo scaled_numerator scaled_denominator))
  ok (record { ticks = print_int (quo scaled_numerator scaled_denominator); display = display })
