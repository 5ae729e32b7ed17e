-- ===== src/Api/Server.antt =====
-- internal/api/server.go: what a handler answers, and the helpers that the handlers share.
pub mod Headers
pub mod Create
pub mod Cancel
pub mod Trades
use markets_service.Api.{ApiError}
use markets_service.Api.Custody.{CustodyError}
use markets_service.Base.{
  ℕ, Bool, true, false, List, [], ◌∷◌, Option, none, some, Result, ok, err, ◌>>=◌, ◌>>◌, fail_if,
  or_error, if◌then◌else◌,
}
use markets_service.Base.Int.{ℤ, pos, ◌-ℤ◌, ltb_ℤ}
use markets_service.Instruments.{
  Metadata, Registry, by_symbol, by_asset_and_sub_id, cngn_spot_symbol, btc_convex_perp_symbol,
}
use markets_service.Orders.{RepoError}
use markets_service.Text.{Text, codes, is_empty, to_lower, trim_space}
use markets_service.Text.Decimal.{set_string, print_int}

-- The text of an error: one of the handler's own, or that of the error it passes on.
pub data Failure : Type 0 where
  message : Text → Failure
  intake : ApiError → Failure
  custody : CustodyError → Failure
  repository : RepoError → Failure
  namespace : Text → Failure

-- A status code with an error or with a payload.
pub data Reply (A : Type 0) : Type 0 where
  failed : ℕ → Failure → Reply A
  sent : ℕ → A → Reply A

abbrev pub refuse : {A : Type 0} → ℕ → Text → Reply A
refuse code text = failed code (message text)

pub data RemainingError : Type 0 where
  invalid_desired_amount invalid_filled_amount filled_exceeds_desired : RemainingError

-- `remainingAmountString`
unfoldable pub remaining_amount_string : Text → Text → Result RemainingError Text
remaining_amount_string desired filled = do
  desired_int ← or_error (set_string (trim_space desired)) invalid_desired_amount
  filled_int ← or_error (set_string (trim_space filled)) invalid_filled_amount
  fail_if (ltb_ℤ (desired_int -ℤ filled_int) (pos 0)) filled_exceeds_desired
  ok (print_int (desired_int -ℤ filled_int))

-- The query of a request for a market.
pub record MarketQuery : Type 0 where
  pub symbol : Text
  pub asset_address : Text
  pub sub_id : Text

abbrev pub or_else : Option Metadata → Option Metadata → Option Metadata
or_else (some m) other = some m
or_else none other = other

unfoldable pub symbol_market : Registry → Text → Option Metadata
symbol_market r symbol = if is_empty symbol then none else by_symbol r symbol

unfoldable pub asset_market : Registry → Text → Text → Option Metadata
asset_market r asset sub =
    if is_empty asset
    then none
    else by_asset_and_sub_id r asset (if is_empty sub then codes "0" else sub)

-- `resolveMarket`; `none` is the empty `Metadata`.
unfoldable pub resolve_market : Option Registry → MarketQuery → Option Metadata
unfolding symbol_market asset_market
resolve_market none q = none
resolve_market (some r) q = or_else (symbol_market r (trim_space q.symbol)) (
    or_else (asset_market r (to_lower (trim_space q.asset_address)) (trim_space q.sub_id))
      (or_else (by_symbol r cngn_spot_symbol) (by_symbol r btc_convex_perp_symbol)))

-- The market of a request, unless it has no address.
unfoldable pub known_market : Option Registry → MarketQuery → Option Metadata
unfolding resolve_market
known_market r q = elim (resolve_market r q) [
  | none ↦ none
  | some m ↦ if is_empty m.asset_address then none else some m
]
