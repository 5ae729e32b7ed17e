-- ===== src/Tests/Backfill.antt =====
-- A backfill of a row without ticks, and of one whose instrument is unknown.
use markets_service.Base.{◌≡◌, refl, true, List, [], ◌∷◌, map, some, none, ok, ap}
use markets_service.Base.Int.{quo, rem, ◌*ℤ◌}
use markets_service.Instruments.{Registry, by_asset_and_sub_id, is_keyed, asset_and_sub_id_key}
use markets_service.Orders.Backfill.{
  PricedRow, backfill_limit_price_ticks, backfill_rows, after_item, ticks_of, ticks_with, put_ticks,
}
use markets_service.Orders.Backfill.Filled.{Unique, filled, backfill_limit_price_ticks_lem}
use markets_service.Pricing.{
  to_first, split_point, all_digits, fraction_of, fraction_of_parts, decimal_to_fraction,
  new_converter, skip_zeros, trim_zeros, pad, with_fraction, format_ticks, parse,
}
use markets_service.Tests.Samples.{asset}
use markets_service.Text.{
  Text, codes, text_eq, to_lower, lower, is_space, trim_left, trim_space, strip, trim_prefix,
}
use markets_service.Text.Laws.{text_eq_iff}
use markets_service.Text.Decimal.{scan, scan_nat, set_string, digits, print_nat, print_int}

abbrev registry : Registry
registry =
    record {
      symbol = codes "A";
      asset_address = asset;
      sub_id = codes "3";
      contract_type = codes "spot";
      tick_size = codes "0.05";
      min_size = codes "1";
      quote_precision = 2;
      is_enabled = true;
    }
    ∷ []

abbrev row : Text → Text → PricedRow
row id sub = record {
  order_id = id;
  asset_address = asset;
  sub_id = sub;
  limit_price = codes "1.25";
  limit_price_ticks = none;
}

abbrev rows : List PricedRow
rows = row (codes "a") (codes "3") ∷ row (codes "b") (codes "4") ∷ []

abbrev after : List PricedRow
after = (backfill_limit_price_ticks (some registry) rows).1

priced : backfill_limit_price_ticks (some registry) rows ≡ (
  ok tt,
  record (row (codes "a") (codes "3")) { limit_price_ticks = some (codes "25") }
      ∷ row (codes "b") (codes "4")
      ∷ [],
)
unfolding backfill_limit_price_ticks backfill_rows after_item ticks_of ticks_with put_ticks
    by_asset_and_sub_id is_keyed asset_and_sub_id_key new_converter decimal_to_fraction
    fraction_of_parts fraction_of all_digits split_point to_first is_space trim_left trim_space
    strip trim_prefix scan scan_nat set_string parse format_ticks with_fraction pad trim_zeros
    skip_zeros digits print_nat print_int quo rem ◌*ℤ◌ text_eq to_lower lower
priced = refl

rows-Unique : Unique rows
unfolding Unique text_eq
rows-Unique = ((λ h. cc ((text_eq_iff (codes "b") (codes "a")).1 h), tt), (tt, tt))

backfill_limit_price_ticks_lem_example : after ≡ map (filled registry) rows
backfill_limit_price_ticks_lem_example =
    backfill_limit_price_ticks_lem registry rows rows-Unique (ap (λ x. x.0) priced)
