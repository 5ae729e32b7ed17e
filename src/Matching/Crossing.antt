-- ===== src/Matching/Crossing.antt =====
-- internal/matching/engine.go: `crosses`, `remainingAmount`, `minDecimalString` and
-- `subtractDecimalString`.
pub mod Laws
pub mod Market
use markets_service.Base.{
  Bool, [], ◌∷◌, Result, ok, err, ◌>>=◌, ◌>>◌, or_error, fail_if, if◌then◌else◌,
}
use markets_service.Base.Int.{◌-ℤ◌, leb_ℤ, ltb_ℤ}
use markets_service.Matching.{
  MatchError, invalid_decimal, filled_exceeds_desired, invalid_taker_price, invalid_maker_price,
  unsupported_taker_side,
}
use markets_service.Orders.{Order, Side, buy, sell, other}
use markets_service.Text.{Text, codes}
use markets_service.Text.Decimal.{set_string, print_int}

-- `crosses`
unfoldable pub crosses : Order → Order → Result MatchError Bool
crosses taker maker = do
  taker_price ← or_error (set_string taker.limit_price_ticks) invalid_taker_price
  maker_price ← or_error (set_string maker.limit_price_ticks) invalid_maker_price
  elim (taker.side) [
    | buy ↦ ok (leb_ℤ maker_price taker_price)
    | sell ↦ ok (leb_ℤ taker_price maker_price)
    | other t ↦ err (unsupported_taker_side t)
  ]

-- `minDecimalString`
unfoldable pub min_decimal_string : Text → Text → Result MatchError Text
min_decimal_string a b = do
  left ← or_error (set_string a) invalid_decimal
  right ← or_error (set_string b) invalid_decimal
  ok (if leb_ℤ left right then print_int left else print_int right)

-- `subtractDecimalString`
unfoldable pub subtract_decimal_string : Text → Text → Result MatchError Text
subtract_decimal_string a b = do
  left ← or_error (set_string a) invalid_decimal
  right ← or_error (set_string b) invalid_decimal
  fail_if (ltb_ℤ left right) filled_exceeds_desired
  ok (print_int (left -ℤ right))

-- `remainingAmount`
unfoldable pub remaining_amount : Order → Text
remaining_amount o = elim (subtract_decimal_string o.desired_amount o.filled_amount) [
  | ok remaining ↦ remaining
  | err e ↦ codes "0"
]
