-- ===== src/Tests/Engine.antt =====
-- The matcher's tick on the sample book.
use mathlib.Core.Option
use markets_service.Base.{◌≡◌, refl, [], ◌∷◌, some, ok, err, ◌⊎◌, inl, arith}
use markets_service.Base.Int.{pos, quo, rem, ◌*ℤ◌, ◌-ℤ◌, ◌+ℤ◌}
use markets_service.Json.{text_field, read_members, assign}
use markets_service.Matching.Crossing.{
  crosses, remaining_amount, min_decimal_string, subtract_decimal_string,
}
use markets_service.Matching.Engine.{
  World, check_candidate, log_price, wrap_error, Submission, Outcome, executed, reconciled,
  zero_fill, ids_of, tick_instrument,
}
use markets_service.Matching.TradeData.{
  set_from, set_bytes, word, int256_from_word, trade_data_of_bytes, decode_trade_data,
  parse_trade_action,
}
use markets_service.Matching.TradeData.Words.{be_bytes, word_of_int}
use markets_service.Matching.TradeData.RoundTrip.{encode_trade_data, tuple_words, join}
use markets_service.Matching.Units.{
  parse_non_negative_int, parse_positive_int, validate_action_market, infer_shared_scale,
  scaled_remaining, validate_price_scale_alignment, scale_fill, compute_execution_units,
}
use markets_service.Orders.{is_expired, Order, Store, MatchCandidate}
use markets_service.Orders.Book.{
  keyed_rows, precedes, insert_row, order_by, side_of_book, list_by_side, best_by_side, is_due,
  expire_orders,
}
use markets_service.Orders.Matches.{
  choose_taker_maker, reserve_orders, reserve_pair, acquire_match_candidate,
}
use markets_service.Orders.Table.{find_row, update_where, count_where, id_among}
use markets_service.Text.{
  codes, text_eq, text_lt, is_space, trim_left, trim_space, lower, to_lower, strip, trim_prefix,
}
use markets_service.Text.Decimal.{scan, scan_nat, set_string, digits, print_nat, print_int}
use markets_service.Text.Hex.{hex_value, hex_digit, decode_string, encode_to_string}
use markets_service.Matching.Engine.Progress.{IsSettled, tick_settles}
use markets_service.Matching.Engine.Release.{NoneReserved, tick_releases}
use markets_service.Matching.Engine.Undo.{tick_undone}
use markets_service.Matching.Engine.Stuck.{ticks, IsCalm, zero_fill_repeats}
use markets_service.Orders.Reach.{start}
use markets_service.Orders.Validity.{IsValid, terms}
use markets_service.Tests.Samples.{
  plain, asset, maker, taker, candidate, book, book-IsValid, reserved, store_of, world,
}

acquired :
    acquire_match_candidate plain asset (codes "3") (pos 50) book
    ≡ ok (some candidate, store_of (reserved maker ∷ reserved taker ∷ []))
unfolding acquire_match_candidate reserve_pair reserve_orders choose_taker_maker find_row
    update_where count_where id_among keyed_rows precedes insert_row order_by side_of_book
    list_by_side best_by_side is_due expire_orders text_eq text_lt lower to_lower scan scan_nat
    set_string
acquired = refl

abbrev submission : Submission
submission = record {
  price = codes "10";
  amount = codes "5";
  units = record { fill_price = codes "1000"; fill_amount = codes "50" };
}

checked : check_candidate (world (ok tt)) candidate ≡ ok submission
unfolding check_candidate wrap_error log_price is_expired crosses remaining_amount
    min_decimal_string subtract_decimal_string parse_non_negative_int parse_positive_int
    validate_action_market infer_shared_scale scaled_remaining validate_price_scale_alignment
    scale_fill compute_execution_units text_field read_members assign set_from set_bytes word
    int256_from_word trade_data_of_bytes decode_trade_data parse_trade_action be_bytes word_of_int
    encode_trade_data tuple_words join text_eq text_lt is_space trim_left trim_space lower to_lower
    strip trim_prefix scan scan_nat set_string digits print_nat print_int hex_value hex_digit
    decode_string encode_to_string quo rem ◌*ℤ◌ ◌-ℤ◌ ◌+ℤ◌ Option.bind
checked = refl

abbrev held : Store
held = store_of (reserved maker ∷ reserved taker ∷ [])

tick_settles_example :
    (o : Outcome) × (u : Store) × (tick_instrument plain (world (ok tt)) asset (codes "3") book
      ≡ (o, u))
    × ((o ≡ executed) ⊎ (o ≡ reconciled))
    × IsSettled candidate submission held u
tick_settles_example =
    tick_settles plain (world (ok tt)) asset (codes "3") book held candidate submission book-IsValid
      acquired checked (inl refl) refl start tt tt

tick_releases_example :
    NoneReserved
      (ids_of candidate)
      (tick_instrument plain (world (err (codes "timeout"))) asset (codes "3") book).1.orders
tick_releases_example =
    tick_releases plain (world (err (codes "timeout"))) asset (codes "3") book held candidate
      book-IsValid acquired start refl

-- An order that was accepted as filled to the end.
abbrev full : Order
full = record taker { filled_amount = codes "5" }

abbrev stuck : MatchCandidate
stuck = record { taker = full; maker = maker }

abbrev stuck_book : Store
stuck_book = store_of (maker ∷ full ∷ [])

stuck_book-IsValid : IsValid plain stuck_book
unfolding terms text_eq set_string scan scan_nat
stuck_book-IsValid = record {
  no_clash = ((refl, tt), (tt, tt));
  sound =
      ((7, 0, refl, refl, omega arith, inl refl), ((5, 5, refl, refl, omega arith, inl refl), tt));
}

stuck_acquired :
    acquire_match_candidate plain asset (codes "3") (pos 50) stuck_book
    ≡ ok (some stuck, store_of (reserved maker ∷ reserved full ∷ []))
unfolding acquire_match_candidate reserve_pair reserve_orders choose_taker_maker find_row
    update_where count_where id_among keyed_rows precedes insert_row order_by side_of_book
    list_by_side best_by_side is_due expire_orders text_eq text_lt lower to_lower scan scan_nat
    set_string
stuck_acquired = refl

stuck_checked : check_candidate (world (ok tt)) stuck ≡ err zero_fill
unfolding check_candidate wrap_error is_expired crosses remaining_amount min_decimal_string
    subtract_decimal_string text_eq scan scan_nat set_string digits print_nat print_int ◌-ℤ◌
stuck_checked = refl

tick_undone_example :
    tick_instrument plain (world (ok tt)) asset (codes "3") stuck_book
    ≡ (zero_fill, expire_orders (pos 50) stuck_book)
tick_undone_example =
    tick_undone plain (world (ok tt)) asset (codes "3") stuck_book
      (store_of (reserved maker ∷ reserved full ∷ [])) stuck zero_fill stuck_book-IsValid
      stuck_acquired stuck_checked refl

-- A later tick, at its own instant and with an executor that refuses.
abbrev later : World
later = record (world (err (codes "down"))) { now = pos 60 }

calm : IsCalm stuck (expire_orders (pos 50) stuck_book) later
unfolding expire_orders is_due update_where is_expired
calm = record { releases = refl; none_due = refl; in_time = refl }

zero_fill_repeats_example :
    ticks plain asset (codes "3") (world (ok tt) ∷ later ∷ later ∷ []) stuck_book
    ≡ (zero_fill ∷ zero_fill ∷ zero_fill ∷ [], expire_orders (pos 50) stuck_book)
zero_fill_repeats_example =
    zero_fill_repeats plain asset (codes "3") (world (ok tt)) stuck stuck_book
      (store_of (reserved maker ∷ reserved full ∷ [])) (later ∷ later ∷ []) stuck_book-IsValid
      stuck_acquired stuck_checked refl (calm, (calm, tt))
