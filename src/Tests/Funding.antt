-- ===== src/Tests/Funding.antt =====
-- The funding rate of the sample book, whose best bid is above its best ask.
use markets_service.Base.{ℕ, ◌≡◌, refl, true, false, [], none, some, ok, ◌⊎◌}
use markets_service.Base.Int.{pos, quo, rem, ◌*ℤ◌, ◌-ℤ◌}
use markets_service.Funding.{
  Snapshot, Service, new_service, refresh, calculate_funding, current_mark_price, refresh_with,
  with_mark, started, clamp, mark_of, mark_price, of_book, of_price, price_ticks_to_float,
}
use markets_service.Funding.Refreshed.{refresh-Ends, refresh-Bounded, Bounded, IsServed, IsPriced}
use markets_service.Instruments.{Metadata}
use markets_service.Oracle
use markets_service.Oracle.{Payload}
use markets_service.Orders.Book.{
  best_bid_and_ask, best_by_side, list_by_side, side_of_book, order_by, insert_row, precedes,
  keyed_rows, expire_orders, is_due,
}
use markets_service.Orders.Table.{update_where}
use markets_service.Pricing.{
  to_first, split_point, all_digits, fraction_of, fraction_of_parts, decimal_to_fraction,
  new_converter, skip_zeros, trim_zeros, pad, with_fraction, format_ticks,
}
use markets_service.Pricing.Variance.{
  ticks_to_variance_float64, parse_variance_float64, in_variance,
}
use markets_service.Tests.Floats.{floats, floats-order}
use markets_service.Tests.Samples.{plain, asset, book}
use markets_service.Text.{
  codes, text_eq, to_lower, is_space, trim_left, trim_space, strip, trim_prefix,
}
use markets_service.Text.Decimal.{scan, scan_nat, set_string, digits, print_nat, print_int}

abbrev variance : Metadata
variance = record {
  symbol = codes "BTCVAR30-PERP";
  asset_address = asset;
  sub_id = codes "3";
  contract_type = codes "perpetual";
  tick_size = codes "1";
  min_size = codes "1";
  quote_precision = 0;
  is_enabled = true;
}

abbrev oracle : Oracle.Service ℕ
oracle = record {
  latest = some (record {
    symbol = codes "BTCVAR30";
    source = codes "deribit";
    timestamp = pos 20;
    vol_30d = 200;
    variance_30d = 4;
    methodology_version = codes "deribit-vol-index-v1";
    signature = [];
    stale = false;
  });
  last_success_at = pos 40;
  last_failure_at = pos 0;
  last_update_error = none;
}

abbrev service : Service ℕ
service = new_service floats variance 2 5

abbrev after : Snapshot ℕ
after = (refresh floats plain service (pos 60) oracle (pos 50) (pos 50) (pos 50) book).1

-- The mark price is the bid's.
rated : after ≡ record {
  symbol = codes "BTCVAR30-PERP";
  timestamp = pos 50;
  variance_mark_price = 12;
  oracle_variance_30 = 4;
  variance_premium = 8;
  funding_rate = 5;
  paused = false;
  reason = [];
}
unfolding refresh refresh_with with_mark started clamp new_service current_mark_price mark_of
    mark_price of_book of_price price_ticks_to_float ticks_to_variance_float64
    parse_variance_float64 in_variance new_converter decimal_to_fraction fraction_of_parts
    fraction_of all_digits split_point to_first is_space trim_left trim_space strip trim_prefix scan
    scan_nat set_string format_ticks with_fraction pad trim_zeros skip_zeros digits print_nat
    print_int quo rem ◌*ℤ◌ best_bid_and_ask best_by_side list_by_side side_of_book order_by
    insert_row precedes keyed_rows expire_orders is_due text_eq to_lower Oracle.latest_at
    Oracle.is_stale Oracle.is_older ◌-ℤ◌ update_where
rated = refl

refresh-Ends_example :
    let (reply, snap, book') =
      refresh floats plain service (pos 60) oracle (pos 50) (pos 50) (pos 50) book in
    ((snap.paused ≡ true) × (snap.funding_rate ≡ 0))
    ⊎ ((snap.paused ≡ false)
        × (reply ≡ ok tt)
        × (p : Payload ℕ) × IsServed floats oracle (pos 60) (pos 50) (pos 50) p
        × IsPriced floats service
            (pos 50)
            p
            (current_mark_price floats plain service.instrument (pos 50) book).0
            snap)
refresh-Ends_example =
    refresh-Ends floats floats-order plain service (pos 60) oracle (pos 50) (pos 50) (pos 50) book

refresh-Bounded_example :
    let (reply, snap, book') =
      refresh floats plain service (pos 60) oracle (pos 50) (pos 50) (pos 50) book in
    Bounded floats 5 snap.funding_rate
    × (((snap.paused ≡ true) × (snap.funding_rate ≡ 0))
        ⊎ (snap.funding_rate
            ≡ calculate_funding floats snap.variance_mark_price snap.oracle_variance_30 2 5))
refresh-Bounded_example =
    refresh-Bounded floats floats-order plain variance 2 5 (pos 60) oracle (pos 50) (pos 50)
      (pos 50) book
