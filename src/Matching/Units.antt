-- ===== src/Matching/Units.antt =====
-- internal/matching/trade_units.go: `computeExecutionUnits`, which turns a fill in ticks and atomic
-- units into the units that the two orders signed, and the checks that it makes.
pub mod Checks
pub mod Safety
use markets_service.Base.{
  ℕ, Bool, true, false, not, [], ◌∷◌, Result, ok, err, ◌>>=◌, ◌>>◌, or_error, fail_if,
  if◌then◌else◌, ◌||◌,
}
use markets_service.Base.Int.{ℤ, pos, ◌-ℤ◌, ◌*ℤ◌, quo, rem, leb_ℤ, ltb_ℤ, eqb_ℤ}
use markets_service.Matching.{
  MatchError, invalid, not_non_negative, not_positive, asset_mismatch, sub_id_mismatch,
  side_mismatch, base_not_positive, signed_not_positive, taker_scale_mismatch, maker_scale_mismatch,
  scales_differ, scale_not_positive, filled_exceeds_desired, fill_exceeds_taker, fill_exceeds_maker,
  fill_above_buy_limit, fill_below_sell_limit,
}
use markets_service.Matching.TradeData.{TradeActionData, parse_trade_action}
use markets_service.Orders.{Order, Side, buy, sell, other, MatchCandidate, side_eq}
use markets_service.Text.{Text, codes, text_eq, to_lower, trim_space}
use markets_service.Text.Decimal.{set_string, print_int, print_nat}

pub record ExecutionUnits : Type 0 where
  pub fill_price : Text
  pub fill_amount : Text

-- `parseNonNegativeInt`
unfoldable pub parse_non_negative_int : Text → Text → Result MatchError ℤ
parse_non_negative_int value label = do
  parsed ← or_error (set_string (trim_space value)) (invalid label)
  fail_if (ltb_ℤ parsed (pos 0)) (not_non_negative label)
  ok parsed

-- `parsePositiveInt`
unfoldable pub parse_positive_int : Text → Text → Result MatchError ℤ
parse_positive_int value label = do
  parsed ← parse_non_negative_int value label
  fail_if (eqb_ℤ parsed (pos 0)) (not_positive label)
  ok parsed

abbrev pub is_bool : Bool → Bool → Bool
is_bool true b = b
is_bool false b = not b

-- `validateActionMarket`
unfoldable pub validate_action_market :
    Text → Order → TradeActionData → Result MatchError (Unit {0})
validate_action_market role o action = do
  fail_if (not (text_eq (to_lower action.asset) (to_lower o.asset_address))) (asset_mismatch role)
  fail_if (not (text_eq (print_nat action.sub_id) (trim_space o.sub_id))) (sub_id_mismatch role)
  fail_if (not (is_bool action.is_bid (side_eq o.side buy))) (side_mismatch role)

-- `inferSharedScale`
unfoldable pub infer_shared_scale : Text → ℤ → ℤ → ℤ → ℤ → Result MatchError ℤ
infer_shared_scale label left_base left_signed right_base right_signed = do
  fail_if (leb_ℤ left_base (pos 0) || leb_ℤ right_base (pos 0)) (base_not_positive label)
  fail_if (leb_ℤ left_signed (pos 0) || leb_ℤ right_signed (pos 0)) (signed_not_positive label)
  fail_if (not (eqb_ℤ (rem left_signed left_base) (pos 0))) (taker_scale_mismatch label)
  fail_if (not (eqb_ℤ (rem right_signed right_base) (pos 0))) (maker_scale_mismatch label)
  fail_if (not (eqb_ℤ (quo left_signed left_base) (quo right_signed right_base)))
      (scales_differ label)
  fail_if (leb_ℤ (quo left_signed left_base) (pos 0)) (scale_not_positive label)
  ok (quo left_signed left_base)

-- `scaledRemaining`
unfoldable pub scaled_remaining : Order → ℤ → Result MatchError ℤ
scaled_remaining o scale = do
  desired ← parse_positive_int o.desired_amount (codes "desired_amount")
  filled ← parse_non_negative_int o.filled_amount (codes "filled_amount")
  fail_if (ltb_ℤ (desired -ℤ filled) (pos 0)) filled_exceeds_desired
  ok ((desired -ℤ filled) *ℤ scale)

-- `validatePriceScaleAlignment`
unfoldable pub validate_price_scale_alignment :
    Order → TradeActionData → ℤ → Text → Result MatchError (Unit {0})
validate_price_scale_alignment o action fill_price role = elim (o.side) [
  | buy ↦ fail_if (ltb_ℤ action.limit_price fill_price) (fill_above_buy_limit role)
  | sell ↦ fail_if (ltb_ℤ fill_price action.limit_price) (fill_below_sell_limit role)
  | other t ↦ ok tt
]

-- `computeExecutionUnits` from the fill on, with the two scales known.
unfoldable pub scale_fill :
    MatchCandidate
    → TradeActionData
    → TradeActionData
    → ℤ
    → ℤ
    → ℤ
    → ℤ
    → Result MatchError ExecutionUnits
scale_fill c taker_action maker_action fill_price_ticks fill_amount_atomic price_scale
      amount_scale =
    do
      let fill_price = fill_price_ticks *ℤ price_scale
      let fill_amount = fill_amount_atomic *ℤ amount_scale
      taker_remaining ← scaled_remaining (c.taker) amount_scale
      maker_remaining ← scaled_remaining (c.maker) amount_scale
      fail_if (ltb_ℤ taker_remaining fill_amount) fill_exceeds_taker
      fail_if (ltb_ℤ maker_remaining fill_amount) fill_exceeds_maker
      validate_price_scale_alignment (c.taker) taker_action fill_price (codes "taker")
      validate_price_scale_alignment (c.maker) maker_action fill_price (codes "maker")
      ok (record { fill_price = print_int fill_price; fill_amount = print_int fill_amount })

-- `computeExecutionUnits`
unfoldable pub compute_execution_units :
    MatchCandidate → Text → Text → Result MatchError ExecutionUnits
compute_execution_units c fill_price_ticks fill_amount_atomic = do
  taker_action ← parse_trade_action (c.taker)
  maker_action ← parse_trade_action (c.maker)
  validate_action_market (codes "taker") (c.taker) taker_action
  validate_action_market (codes "maker") (c.maker) maker_action
  taker_limit ← parse_positive_int (c.taker).limit_price_ticks (codes "taker limit_price_ticks")
  maker_limit ← parse_positive_int (c.maker).limit_price_ticks (codes "maker limit_price_ticks")
  fill_price ← parse_positive_int fill_price_ticks (codes "fill_price_ticks")
  taker_desired ← parse_positive_int (c.taker).desired_amount (codes "taker desired_amount")
  maker_desired ← parse_positive_int (c.maker).desired_amount (codes "maker desired_amount")
  fill_amount ← parse_positive_int fill_amount_atomic (codes "fill_amount_atomic")
  price_scale ←
      infer_shared_scale (codes "price") taker_limit taker_action.limit_price maker_limit
        maker_action.limit_price
  amount_scale ←
      infer_shared_scale (codes "amount") taker_desired taker_action.desired_amount maker_desired
        maker_action.desired_amount
  scale_fill c taker_action maker_action fill_price fill_amount price_scale amount_scale
