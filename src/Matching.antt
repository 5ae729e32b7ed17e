-- ===== src/Matching.antt =====
-- internal/matching: the errors that its functions return. The texts of the messages are kept where
-- the program builds them from a label.
pub mod Crossing
pub mod TradeData
pub mod Units
pub mod Engine
pub mod Executor
use markets_service.Base.{ℕ}
use markets_service.Text.{Text}

pub data MatchError : Type 0 where
  invalid_decimal filled_exceeds_desired : MatchError
  invalid_taker_price invalid_maker_price : MatchError
  unsupported_taker_side : Text → MatchError
  invalid not_non_negative not_positive : Text → MatchError
  bad_action_json missing_action_data bad_hex : MatchError
  unexpected_trade_data_length : ℕ → MatchError
  asset_mismatch sub_id_mismatch side_mismatch : Text → MatchError
  base_not_positive signed_not_positive : Text → MatchError
  taker_scale_mismatch maker_scale_mismatch scales_differ scale_not_positive : Text → MatchError
  fill_exceeds_taker fill_exceeds_maker : MatchError
  fill_above_buy_limit fill_below_sell_limit : Text → MatchError
