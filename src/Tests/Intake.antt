-- ===== src/Tests/Intake.antt =====
-- An order request of the sample market, from the API to the table.
use mathlib.Core.Option
use markets_service.Api.{side_of}
use markets_service.Api.Action.{
  ParsedTradeActionData, signed_word_to_big_int, parsed_of_payload, parse_action_trade_data,
  parse_positive_int_string, reciprocal_scale, is_compatible, validate_action_data_invariants,
  validate_action_json,
}
use markets_service.Api.Action.Agreement.{
  Agree, parse_action_trade_data-parse_trade_action,
  validate_action_data_invariants-validate_action_market,
}
use markets_service.Api.Action.Prefix.{has_capital_prefix}
use markets_service.Api.Amounts.{
  amount_atomic_step, compare_integer_strings, parse_decimal, normalize_amount_to_atomic_units,
}
use markets_service.Api.Intake.{
  CreateOrderRequest, Config, is_allowed_instrument, wrap_price, check_required, is_unexpected,
  is_foreign_side, exceeds, instrument_for, engine_terms, params_of, to_params,
}
use markets_service.Api.Intake.Sound.{IsPriced, to_params-IsPriced, create-to_params}
use markets_service.Api.Spot.{is_spot_contract_instrument}
use markets_service.Base.{sym, arith, ◌≡◌, refl, true, false, [], ◌∷◌, ◌++◌, some, none, ok, Option}
use markets_service.Base.Int.{pos, leb_ℤ, quo, rem, ◌*ℤ◌, ◌-ℤ◌, ◌+ℤ◌}
use markets_service.Instruments.{enabled, by_asset_and_sub_id}
use markets_service.Json.{str, obj, member, end, RawMessage, text_field, read_members, assign}
use markets_service.Json.Column.{IsJsonb, times_named, times}
use markets_service.Matching.TradeData.{
  TradeActionData, set_from, set_bytes, word, parse_trade_action,
}
use markets_service.Matching.TradeData.RoundTrip.{encode_trade_data, tuple_words, join}
use markets_service.Matching.TradeData.Words.{be_bytes, word_of_int}
use markets_service.Matching.Units.{validate_action_market}
use markets_service.Orders.{Order, Store, buy}
use markets_service.Orders.Entry.{CreateOrderParams, create, new_row}
use markets_service.Orders.Table.{find_row}
use markets_service.Orders.Validity.{IsValid}
use markets_service.Pricing.{
  to_first, split_point, all_digits, fraction_of, fraction_of_parts, decimal_to_fraction,
  new_converter, skip_zeros, trim_zeros, pad, with_fraction, format_ticks, parse,
}
use markets_service.Rational.{Rat, quotient, inverse, is_int, integer, not_above_zero}
use markets_service.Tests.Samples.{plain, asset, signed, taker, book, book-IsValid}
use markets_service.Text.{
  Text, codes, text_eq, is_space, trim_left, trim_space, lower, to_lower, strip, trim_prefix,
}
use markets_service.Text.Decimal.{scan, scan_nat, set_string, digits, print_nat, print_int}
use markets_service.Text.Hex.{hex_value, hex_digit, decode_string, encode_to_string}

-- Rationals that are integers, which are all that the request holds.
abbrev pub whole : Text → Option Rat
whole t = Option.map (λ z. record { num = z; den = 1 }) (set_string t)

abbrev action : RawMessage
action = some (
    obj (
      member (codes "subaccount_id") (str (codes "1")) (
        member (codes "nonce") (str (codes "8")) (
          member (codes "owner") (str (codes "0xB")) (
            member (codes "signer") (str (codes "0xB"))
              (member (codes "data") (str (encode_trade_data (signed true 1200 50))) end))))))

abbrev pub request : CreateOrderRequest
request = record {
  order_id = codes "n";
  owner_address = codes "0xB";
  signer_address = codes "0xb";
  subaccount_id = codes "1";
  recipient_id = codes "1";
  nonce = codes "8";
  side = codes "BUY";
  asset_address = asset;
  sub_id = codes "3";
  desired_amount = codes "5";
  filled_amount = [];
  limit_price = codes "12";
  worst_fee = codes "0";
  expiry = pos 100;
  order_entry_spec = [];
  ui_intent = none;
  action_json = action;
  signature = codes "0x1";
}

abbrev pub cfg : Config
cfg = record {
  expected_order_owner = [];
  expected_order_signer = [];
  enforce_action_data_invariants = true;
  registry = [];
}

abbrev params : CreateOrderParams
params = record {
  order_id = codes "n";
  owner_address = codes "0xb";
  signer_address = codes "0xb";
  subaccount_id = codes "1";
  recipient_id = codes "1";
  nonce = codes "8";
  side = buy;
  asset_address = asset;
  sub_id = codes "3";
  desired_amount = codes "5";
  filled_amount = codes "0";
  limit_price = codes "12";
  limit_price_ticks = codes "12";
  worst_fee = codes "0";
  expiry = pos 100;
  action_json = action;
  signature = codes "0x1";
}

validated :
    validate_action_data_invariants whole action buy asset
      (codes "3")
      (codes "12")
      (codes "5")
      (codes "1")
    ≡ ok tt
unfolding validate_action_data_invariants parse_action_trade_data parsed_of_payload
    signed_word_to_big_int parse_positive_int_string is_compatible reciprocal_scale inverse is_int
    integer not_above_zero text_field read_members assign set_from set_bytes word be_bytes
    word_of_int encode_trade_data tuple_words join text_eq is_space trim_left trim_space lower
    to_lower strip trim_prefix scan scan_nat set_string digits print_nat hex_value hex_digit
    decode_string encode_to_string quo rem ◌*ℤ◌ ◌-ℤ◌ ◌+ℤ◌ Option.bind
validated = refl

accepted : to_params whole (λ t. true) cfg (pos 50) request ≡ ok params
unfolding to_params params_of engine_terms instrument_for exceeds is_foreign_side is_unexpected
    check_required wrap_price is_allowed_instrument enabled by_asset_and_sub_id side_of
    is_spot_contract_instrument amount_atomic_step compare_integer_strings parse_decimal
    normalize_amount_to_atomic_units quotient validate_action_json new_converter parse format_ticks
    with_fraction pad trim_zeros skip_zeros decimal_to_fraction fraction_of_parts fraction_of
    all_digits split_point to_first print_int validate_action_data_invariants
    parse_action_trade_data parsed_of_payload signed_word_to_big_int parse_positive_int_string
    is_compatible reciprocal_scale inverse is_int integer not_above_zero text_field read_members
    assign set_from set_bytes word be_bytes word_of_int encode_trade_data tuple_words join text_eq
    is_space trim_left trim_space lower to_lower strip trim_prefix scan scan_nat set_string digits
    print_nat hex_value hex_digit decode_string encode_to_string quo rem ◌*ℤ◌ ◌-ℤ◌ ◌+ℤ◌ Option.bind
accepted = refl

to_params-IsPriced_example :
    IsPriced params
    × (to_lower params.asset_address ≡ params.asset_address)
    × (leb_ℤ (pos 100) (pos 50) ≡ false)
to_params-IsPriced_example =
    to_params-IsPriced whole (λ t. true) cfg (pos 50) request params accepted

abbrev row : Order
row = new_row params (codes "1") (codes "1") (codes "8") (codes "3") action 9

abbrev grown : Store
grown = record book { orders = book.orders ++ row ∷ [] }

stored : create plain params 9 book ≡ ok (row, grown)
unfolding create find_row text_eq new_row
stored = refl

create-to_params_example : IsValid plain grown × (grown.orders ≡ book.orders ++ row ∷ [])
create-to_params_example =
    create-to_params whole (λ t. true) cfg (pos 50) request params plain 9 book grown row
      book-IsValid accepted stored

abbrev bid : Order
bid = record taker { action_json = action }

given : text_field (codes "data") action ≡ some (encode_trade_data (signed true 1200 50))
unfolding text_field read_members assign text_eq to_lower lower
given = refl

small : has_capital_prefix (trim_space (encode_trade_data (signed true 1200 50))) ≡ false
unfolding trim_space trim_left is_space be_bytes word_of_int encode_trade_data tuple_words join
    hex_digit encode_to_string
small = refl

kept_members : IsJsonb plain.jsonb
kept_members = record {
  object = λ ms r h. (
    ms,
    sym (some_injective h),
    record { last_value = λ key v s f p. f; no_more = λ tag. omega arith },
  );
}
  where
    some_injective : {A : Type 0} {a b : A} → ◌≡◌ {A = Option A} (some a) (some b) → a ≡ b
    some_injective h = cc

once : times_named (codes "data") action ≡ 1
unfolding times_named times text_eq to_lower lower
once = refl

abbrev parsed : ParsedTradeActionData
parsed = record {
  asset_address = asset;
  sub_id = codes "3";
  limit_price = pos 1200;
  desired_amount = pos 50;
  is_bid = true;
}

read : parse_action_trade_data action ≡ ok parsed
unfolding parse_action_trade_data parsed_of_payload signed_word_to_big_int text_field read_members
    assign set_from set_bytes word be_bytes word_of_int encode_trade_data tuple_words join text_eq
    is_space trim_left trim_space lower to_lower strip trim_prefix digits print_nat hex_value
    hex_digit decode_string encode_to_string ◌-ℤ◌ Option.bind
read = refl

parse_action_trade_data-parse_trade_action_example :
    (t : TradeActionData) × (parse_trade_action bid ≡ ok t) × Agree parsed t
parse_action_trade_data-parse_trade_action_example =
    parse_action_trade_data-parse_trade_action plain action bid
      (encode_trade_data (signed true 1200 50)) parsed kept_members refl once given small read

validate_action_data_invariants-validate_action_market_example :
    (t : TradeActionData) × (parse_trade_action bid ≡ ok t)
    × (validate_action_market (codes "taker") bid t ≡ ok tt)
validate_action_data_invariants-validate_action_market_example =
    validate_action_data_invariants-validate_action_market plain whole (codes "taker") action bid
      (encode_trade_data (signed true 1200 50)) (codes "12") (codes "5") (codes "1") kept_members
      refl once given small validated
