-- ===== src/Matching/TradeData.antt =====
-- internal/matching/trade_units.go: the signed trade data of an order, seven words of 32 bytes in
-- hexadecimal: `parseTradeAction`, `decodeTradeData` and `int256FromWord`.
pub mod Words
pub mod RoundTrip
use markets_service.Base.{
  ℕ, ◌+◌, ◌*◌, ◌/◌, ◌%◌, ◌^◌, Bool, true, false, not, List, [], ◌∷◌, ◌++◌, take, drop, length,
  Result, ok, err, ◌>>=◌, ◌>>◌, or_error, fail_if, ◌==◌, if◌then◌else◌,
}
use markets_service.Base.Int.{ℤ, pos, ◌-ℤ◌}
use markets_service.Json.{text_field}
use markets_service.Matching.{
  MatchError, bad_action_json, missing_action_data, bad_hex, unexpected_trade_data_length,
}
use markets_service.Orders.{Order}
use markets_service.Text.{Text, codes, is_empty, trim_space, trim_prefix, to_lower}
use markets_service.Text.Hex.{Bytes, decode_string, encode_to_string}

pub record TradeActionData : Type 0 where
  pub asset : Text
  pub sub_id : ℕ
  pub limit_price : ℤ
  pub desired_amount : ℤ
  pub is_bid : Bool

-- `new(big.Int).SetBytes`: the bytes as digits in base 256, the first one the highest.
unfoldable pub set_from : ℕ → Bytes → ℕ
set_from n [] = n
set_from n (b ∷ bs) = set_from (n * 256 + b) bs

unfoldable pub set_bytes : Bytes → ℕ
unfolding set_from
set_bytes bs = set_from 0 bs

-- `word(i)`: the 32 bytes from 32 * i on.
unfoldable pub word : Bytes → ℕ → Bytes
word bs i = take 32 (drop (i * 32) bs)

-- `word[0]&0x80 == 0`
abbrev pub high_bit_clear : Bytes → Bool
high_bit_clear [] = true
high_bit_clear (b ∷ bs) = b / 128 % 2 == 0

-- `int256FromWord`
unfoldable pub int256_from_word : Bytes → ℤ
int256_from_word w =
    let value = pos (set_bytes w) in
    if not (length w == 32)
    then value
    else if high_bit_clear w
    then value
    else value -ℤ pos (2 ^ 256)

-- The fields of the words, once the text has been decoded.
unfoldable pub trade_data_of_bytes : Bytes → TradeActionData
trade_data_of_bytes bs = record {
  asset = to_lower (codes "0x" ++ encode_to_string (drop 12 (word bs 0)));
  sub_id = set_bytes (word bs 1);
  limit_price = int256_from_word (word bs 2);
  desired_amount = int256_from_word (word bs 3);
  is_bid = not (set_bytes (word bs 6) == 0);
}

-- `decodeTradeData`
unfoldable pub decode_trade_data : Text → Result MatchError TradeActionData
decode_trade_data raw = do
  let hex_value = trim_prefix (trim_space raw) (codes "0x")
  fail_if (not (length hex_value == 64 * 7)) (unexpected_trade_data_length (length hex_value))
  bytes_value ← or_error (decode_string hex_value) bad_hex
  ok (trade_data_of_bytes bytes_value)

-- `parseTradeAction`
unfoldable pub parse_trade_action : Order → Result MatchError TradeActionData
parse_trade_action o = do
  action_data ← or_error (text_field (codes "data") o.action_json) bad_action_json
  fail_if (is_empty (trim_space action_data)) missing_action_data
  decode_trade_data action_data
