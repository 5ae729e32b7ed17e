-- ===== src/Tests/Codec.antt =====
-- Signed trade data, amounts and units at small values.
use Prim.Native.Nat.{min}
use mathlib.Core.Option
use markets_service.Base.{◌-◌, ◌≤◌, ◌<◌, ◌^◌, ◌≡◌, ◌⊎◌, refl, true, some, ok, arith, replicate}
use markets_service.Base.Int.{pos, neg_part, pos_part, quo, rem, ◌*ℤ◌, ◌-ℤ◌, ◌+ℤ◌}
use markets_service.Json.{text_field, read_members, assign}
use markets_service.Matching.Crossing.{min_decimal_string, remaining_amount}
use markets_service.Matching.Crossing.Laws.{min_decimal_string-remaining_amount}
use markets_service.Matching.TradeData.{
  set_from, set_bytes, word, int256_from_word, trade_data_of_bytes, decode_trade_data,
  parse_trade_action,
}
use markets_service.Matching.TradeData.Words.{be_bytes, word_of_int, int256_from_word_lem}
use markets_service.Matching.TradeData.RoundTrip.{
  InRange, encode_trade_data, tuple_words, join, action_of, decode-encode_trade_data,
}
use markets_service.Matching.Units.{
  ExecutionUnits, parse_non_negative_int, parse_positive_int, validate_action_market,
  infer_shared_scale, scaled_remaining, validate_price_scale_alignment, scale_fill,
  compute_execution_units,
}
use markets_service.Matching.Units.Safety.{Settles, compute_execution_units-Settles}
use markets_service.Text.{
  codes, text_eq, is_space, trim_left, trim_space, lower, to_lower, strip, trim_prefix,
}
use markets_service.Text.Decimal.{scan, scan_nat, set_string, digits, print_nat, print_int}
use markets_service.Text.Hex.{hex_value, hex_digit, decode_string, encode_to_string}
use markets_service.Tests.Samples.{signed, candidate, maker, taker}

signed_range : InRange (signed true 1200 50)
signed_range = record {
  asset = (refl, omega arith);
  sub_id = omega arith;
  limit_price = (omega arith, omega arith);
  desired_amount = (omega arith, omega arith);
  worst_fee = (refl, omega arith);
  recipient_id = (refl, omega arith);
}

decode-encode_trade_data_example :
    decode_trade_data (encode_trade_data (signed true 1200 50))
    ≡ ok (action_of (signed true 1200 50))
decode-encode_trade_data_example = decode-encode_trade_data (signed true 1200 50) signed_range

int256_from_word_lem_example :
    (neg_part (int256_from_word (replicate 32 255)) ≤ 2 ^ 255)
    × (pos_part (int256_from_word (replicate 32 255)) < 2 ^ 255)
    × ((int256_from_word (replicate 32 255) ≡ pos (set_bytes (replicate 32 255)))
        ⊎ (int256_from_word (replicate 32 255) +ℤ pos (2 ^ 256)
            ≡ pos (set_bytes (replicate 32 255))))
int256_from_word_lem_example = int256_from_word_lem (replicate 32 255) refl (omega arith)

abbrev units : ExecutionUnits
units = record { fill_price = codes "1000"; fill_amount = codes "50" }

computed : compute_execution_units candidate (codes "10") (codes "5") ≡ ok units
unfolding parse_non_negative_int parse_positive_int validate_action_market infer_shared_scale
    scaled_remaining validate_price_scale_alignment scale_fill compute_execution_units text_field
    read_members assign set_from set_bytes word int256_from_word trade_data_of_bytes
    decode_trade_data parse_trade_action be_bytes word_of_int encode_trade_data tuple_words join
    text_eq is_space trim_left trim_space lower to_lower strip trim_prefix scan scan_nat set_string
    digits print_nat print_int hex_value hex_digit decode_string encode_to_string quo rem ◌*ℤ◌ ◌-ℤ◌
    ◌+ℤ◌ Option.bind
computed = refl

compute_execution_units-Settles_example : Settles candidate (codes "10") (codes "5") units
compute_execution_units-Settles_example =
    compute_execution_units-Settles candidate (codes "10") (codes "5") units computed

amounts :
    (set_string (codes "5") ≡ some (pos 5))
    × (set_string (codes "0") ≡ some (pos 0))
    × (set_string (codes "7") ≡ some (pos 7))
unfolding set_string scan scan_nat
amounts = (refl, refl, refl)

min_decimal_string-remaining_amount_example :
    min_decimal_string (remaining_amount taker) (remaining_amount maker)
    ≡ ok (print_int (pos (min (5 - 0) (7 - 0))))
min_decimal_string-remaining_amount_example =
    min_decimal_string-remaining_amount taker maker 5 0 7 0 (amounts.0) (amounts.1) (amounts.2)
      (amounts.1) (omega arith) (omega arith)
