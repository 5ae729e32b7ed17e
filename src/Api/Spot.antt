-- ===== src/Api/Spot.antt =====
-- internal/api/spot_contract.go: the intent of a user of the spot market in the engine's terms:
-- `isSpotContractInstrument`, `decimalStringsMatch`, `formatDecimal`, `translateSpotUIIntent` and
-- `validateOrTranslateSpotUIIntent`.
use markets_service.Api.{
  ApiError, bad_side, wrong_entry_spec, ui_intent_required, side_mismatch, price_mismatch,
  amount_mismatch, side_of,
}
use markets_service.Api.Amounts.{parse_decimal, parse_positive_decimal}
use markets_service.Base.{
  ℕ, ◌^◌, Bool, true, false, not, ◌&&◌, [], ◌++◌, Option, none, some, Result, ok, err, ◌>>=◌, ◌>>◌,
  fail_if, if◌then◌else◌,
}
use markets_service.Base.Int.{pos, ◌+ℤ◌, ◌-ℤ◌, ◌*ℤ◌, quo, rem, ltb_ℤ, leb_ℤ}
use markets_service.Instruments.{Metadata, cngn_spot_symbol}
use markets_service.Orders.{Side, buy, sell, other, side_eq}
use markets_service.Pricing.{pad, trim_zeros, with_fraction}
use markets_service.Rational.{Rat, inverse, product, difference}
use markets_service.Text.{Text, codes, text_eq, is_empty, trim_space, to_lower}
use markets_service.Text.Decimal.{print_int}

pub record SpotOrderIntent : Type 0 where
  pub side : Text
  pub price : Text
  pub size : Text

-- The engine's side, price and amount.
pub record SpotEngineOrder : Type 0 where
  pub side : Side
  pub price : Text
  pub amount : Text

-- `isSpotContractInstrument`
unfoldable pub is_spot_contract_instrument : Metadata → Bool
is_spot_contract_instrument m =
    text_eq m.symbol cngn_spot_symbol && text_eq m.contract_type (codes "spot")

-- `formatDecimal`: rounded to the scale, halves up, without zeros at the end.
unfoldable pub format_decimal : Rat → ℕ → Text
format_decimal value scale =
    let scaled = value.num *ℤ pos (10 ^ scale) in
    let truncated = quo scaled (pos value.den) in
    let rounded =
      if leb_ℤ (pos value.den) (rem scaled (pos value.den) *ℤ pos 2)
      then truncated +ℤ pos 1
      else truncated in
    let magnitude = if ltb_ℤ rounded (pos 0) then pos 0 -ℤ rounded else rounded in
    let sign = if ltb_ℤ rounded (pos 0) then codes "-" else [] in
    sign
    ++ with_fraction (print_int (quo magnitude (pos (10 ^ scale))))
        (trim_zeros (pad scale (print_int (rem magnitude (pos (10 ^ scale))))))

-- The absolute difference is at most 10 ^ -18.
unfoldable pub is_close : Rat → Rat → Bool
is_close a b =
    let d = difference a b in
    let magnitude = if ltb_ℤ d.num (pos 0) then pos 0 -ℤ d.num else d.num in
    leb_ℤ (magnitude *ℤ pos (10 ^ 18)) (pos d.den)

module _ (parse_rat : Text → Option Rat) where
  -- `decimalStringsMatch`
  unfoldable pub decimal_strings_match : Text → Text → Bool
  decimal_strings_match left right = elim (parse_decimal parse_rat left) [
    | err e ↦ false
    | ok a ↦ elim (parse_decimal parse_rat right) [ err e ↦ false | ok b ↦ is_close a b ]
  ]

  -- `translateSpotUIIntent`: a user's buy of USDC is a sell of cNGN. The engine's order is what
  -- order intake reads of the result.
  unfoldable pub translate_spot_ui_intent : SpotOrderIntent → Result ApiError SpotEngineOrder
  translate_spot_ui_intent intent = do
    let ui_side = side_of (to_lower (trim_space intent.side))
    fail_if (not (side_eq ui_side buy) && not (side_eq ui_side sell)) bad_side
    ui_price ← parse_positive_decimal parse_rat intent.price (codes "ui_intent.price")
    ui_size ← parse_positive_decimal parse_rat intent.size (codes "ui_intent.size")
    ok (record {
      side = if side_eq ui_side buy then sell else buy;
      price = format_decimal (inverse ui_price) 18;
      amount = format_decimal (product ui_size ui_price) 18;
    })

  -- `validateOrTranslateSpotUIIntent` once it has an intent.
  unfoldable pub check_translation :
      Side → Text → Text → SpotOrderIntent → Result ApiError SpotEngineOrder
  check_translation side price amount intent = do
    translated ← translate_spot_ui_intent intent
    fail_if (is_given side && not (side_eq side translated.side)) side_mismatch
    fail_if
        (not (is_empty (trim_space price)) && not (decimal_strings_match price translated.price))
        price_mismatch
    fail_if
        (not (is_empty (trim_space amount)) && not (decimal_strings_match amount translated.amount))
        amount_mismatch
    ok translated
    where
      is_given : Side → Bool
      is_given buy = true
      is_given sell = true
      is_given (other t) = not (is_empty t)

  -- `validateOrTranslateSpotUIIntent`
  unfoldable pub validate_or_translate_spot_ui_intent :
      Text → Option SpotOrderIntent → Side → Text → Text → Result ApiError SpotEngineOrder
  validate_or_translate_spot_ui_intent spec none side price amount = do
    fail_if (not (is_empty spec) && not (text_eq spec (codes "usdc_cngn_spot_v1"))) wrong_entry_spec
    fail_if (not (is_empty spec)) ui_intent_required
    ok (record { side = side; price = price; amount = amount })
  validate_or_translate_spot_ui_intent spec (some intent) side price amount = do
    fail_if (not (text_eq spec (codes "usdc_cngn_spot_v1"))) wrong_entry_spec
    check_translation side price amount intent
