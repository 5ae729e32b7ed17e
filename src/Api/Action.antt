-- ===== src/Api/Action.antt =====
-- internal/api/orders.go: the signed action of a new order: `parseActionTradeData`,
-- `signedWordToBigInt`, `parsePositiveIntString`, `validateActionJSON`, `reciprocalScale` and
-- `validateActionDataInvariants`. `Rat.SetString` is a parameter.
pub mod Prefix
pub mod Agreement
use markets_service.Api.{
  ApiError, bad_action_json, wrong_subaccount, wrong_nonce, wrong_owner, wrong_signer, bad_tuple,
  bad_hex, limit_price_not_positive, desired_amount_not_positive, wrong_asset, wrong_sub_id,
  wrong_is_bid, price_not_aligned, amount_not_aligned, invalid_integer,
}
use markets_service.Base.{
  ℕ, ◌*◌, ◌-◌, ◌/◌, ◌%◌, ◌^◌, Bool, true, false, not, ◌&&◌, ◌||◌, [], ◌∷◌, ◌++◌, drop, length,
  Option, none, some, Result, ok, err, ◌>>=◌, ◌>>◌, or_error, fail_if, ◌==◌, if◌then◌else◌,
}
use markets_service.Base.Int.{ℤ, pos, ◌-ℤ◌, ◌*ℤ◌, quo, rem, leb_ℤ, eqb_ℤ}
use markets_service.Json.{RawMessage, text_field}
use markets_service.Matching.TradeData.{set_bytes, word, high_bit_clear}
use markets_service.Orders.{Side, buy, side_eq}
use markets_service.Rational.{Rat, inverse, is_int, integer, not_above_zero}
use markets_service.Text.{Text, codes, text_eq, trim_space, trim_prefix, to_lower}
use markets_service.Text.Decimal.{set_string, print_nat}
use markets_service.Text.Hex.{Bytes, decode_string, encode_to_string}

pub record ParsedTradeActionData : Type 0 where
  pub asset_address : Text
  pub sub_id : Text
  pub limit_price : ℤ
  pub desired_amount : ℤ
  pub is_bid : Bool

-- `signedWordToBigInt`
unfoldable pub signed_word_to_big_int : Bytes → ℤ
signed_word_to_big_int w =
    let value = pos (set_bytes w) in
    if not (length w == 32)
    then value
    else if high_bit_clear w
    then value
    else value -ℤ pos (2 ^ 256)

-- The fields of the words, once the text has been decoded.
unfoldable pub parsed_of_payload : Bytes → Result ApiError ParsedTradeActionData
parsed_of_payload payload = do
  let limit_price = signed_word_to_big_int (word payload 2)
  let desired_amount = signed_word_to_big_int (word payload 3)
  fail_if (leb_ℤ limit_price (pos 0)) limit_price_not_positive
  fail_if (leb_ℤ desired_amount (pos 0)) desired_amount_not_positive
  ok (record {
    asset_address = to_lower (codes "0x" ++ encode_to_string (drop 12 (word payload 0)));
    sub_id = print_nat (set_bytes (word payload 1));
    limit_price = limit_price;
    desired_amount = desired_amount;
    is_bid = not (set_bytes (word payload 6) == 0);
  })

-- `parseActionTradeData`
unfoldable pub parse_action_trade_data : RawMessage → Result ApiError ParsedTradeActionData
parse_action_trade_data raw = do
  action_data ← or_error (text_field (codes "data") raw) bad_action_json
  let hex_value = trim_prefix (to_lower (trim_space action_data)) (codes "0x")
  fail_if (not (length hex_value == 64 * 7)) bad_tuple
  payload ← or_error (decode_string hex_value) bad_hex
  parsed_of_payload payload

-- `parsePositiveIntString`
unfoldable pub parse_positive_int_string : Text → Text → Result ApiError ℤ
parse_positive_int_string raw field = do
  value ← or_error (set_string (trim_space raw)) (invalid_integer field)
  fail_if (leb_ℤ value (pos 0)) (invalid_integer field)
  ok value

-- `reciprocalScale`
unfoldable pub reciprocal_scale : (Text → Option Rat) → Text → Option ℤ
reciprocal_scale parse_rat raw = elim (parse_rat (trim_space raw)) [
  | none ↦ none
  | some step ↦
      if not_above_zero step
      then none
      else if is_int (inverse step)
      then some (integer (inverse step))
      else none
]

-- The raw amount of the action, in units of the step, is the stored amount.
unfoldable pub is_compatible : (Text → Option Rat) → Text → ℤ → ℤ → Bool
is_compatible parse_rat step signed_amount desired = elim (reciprocal_scale parse_rat step) [
  | none ↦ false
  | some scale ↦ eqb_ℤ (signed_amount *ℤ scale) desired
]

-- `validateActionDataInvariants`, with the amount step of the instrument.
unfoldable pub validate_action_data_invariants :
    (Text → Option Rat)
    → RawMessage
    → Side
    → Text
    → Text
    → Text
    → Text
    → Text
    → Result ApiError (Unit {0})
validate_action_data_invariants parse_rat raw side asset sub ticks desired step = do
  action ← parse_action_trade_data raw
  fail_if (not (text_eq action.asset_address (to_lower asset))) wrong_asset
  fail_if (not (text_eq action.sub_id (trim_space sub))) wrong_sub_id
  fail_if (if action.is_bid then not (side_eq side buy) else side_eq side buy) wrong_is_bid
  price_ticks ← parse_positive_int_string ticks (codes "limit_price_ticks")
  desired_atomic ← parse_positive_int_string desired (codes "desired_amount")
  fail_if
      (not (eqb_ℤ (rem action.limit_price price_ticks) (pos 0))
        || leb_ℤ (quo action.limit_price price_ticks) (pos 0))
      price_not_aligned
  fail_if
      (not (
        eqb_ℤ (rem action.desired_amount desired_atomic) (pos 0)
          && not (leb_ℤ (quo action.desired_amount desired_atomic) (pos 0))
        || is_compatible parse_rat step action.desired_amount desired_atomic))
      amount_not_aligned

-- `validateActionJSON`
unfoldable pub validate_action_json :
    RawMessage → Text → Text → Text → Text → Result ApiError (Unit {0})
validate_action_json raw owner signer subaccount nonce = do
  action_subaccount ← or_error (text_field (codes "subaccount_id") raw) bad_action_json
  action_nonce ← or_error (text_field (codes "nonce") raw) bad_action_json
  action_owner ← or_error (text_field (codes "owner") raw) bad_action_json
  action_signer ← or_error (text_field (codes "signer") raw) bad_action_json
  fail_if (not (text_eq action_subaccount subaccount)) wrong_subaccount
  fail_if (not (text_eq action_nonce nonce)) wrong_nonce
  fail_if (not (text_eq (to_lower action_owner) owner)) wrong_owner
  fail_if (not (text_eq (to_lower action_signer) signer)) wrong_signer
