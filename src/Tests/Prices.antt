-- ===== src/Tests/Prices.antt =====
-- A price in ticks of five cents.
use markets_service.Base.{◌≡◌, refl, ok}
use markets_service.Base.Int.{pos, quo, rem, ◌*ℤ◌}
use markets_service.Pricing.{
  Converter, Parsed, to_first, split_point, all_digits, fraction_of, fraction_of_parts,
  decimal_to_fraction, new_converter, skip_zeros, trim_zeros, pad, with_fraction, format_ticks,
  parse,
}
use markets_service.Pricing.Aligned.{IsAligned, parse-IsAligned}
use markets_service.Text.{codes, is_space, trim_left, trim_space, strip, trim_prefix}
use markets_service.Text.Decimal.{scan, scan_nat, set_string, digits, print_nat, print_int}

abbrev cents : Converter
cents = record {
  tick_size = codes "0.05";
  quote_precision = 2;
  scale = 2;
  tick_numerator = pos 5;
  tick_denominator = pos 100;
}

abbrev price : Parsed
price = record { ticks = codes "25"; display = codes "1.25" }

converter : new_converter (codes "0.05") 2 ≡ ok cents
unfolding new_converter decimal_to_fraction fraction_of_parts fraction_of all_digits split_point
    to_first is_space trim_left trim_space strip trim_prefix scan scan_nat set_string
converter = refl

priced : parse cents (codes "+1.250") ≡ ok price
unfolding parse format_ticks with_fraction pad trim_zeros skip_zeros decimal_to_fraction
    fraction_of_parts fraction_of all_digits split_point to_first is_space trim_left trim_space
    strip trim_prefix scan scan_nat set_string digits print_nat print_int quo rem ◌*ℤ◌
priced = refl

parse-IsAligned_example : IsAligned cents (codes "0.05") (codes "+1.250") price
parse-IsAligned_example =
    parse-IsAligned (codes "0.05") (codes "+1.250") 2 cents price converter priced
