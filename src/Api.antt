-- ===== src/Api.antt =====
-- internal/api: the errors of order intake. The texts of the messages are kept where the program
-- builds them from a label.
pub mod Action
pub mod Amounts
pub mod Spot
pub mod Intake
pub mod Custody
pub mod Server
use markets_service.Orders.{Side, buy, sell, other}
use markets_service.Base.{if◌then◌else◌}
use markets_service.Pricing.{PriceError}
use markets_service.Text.{Text, codes, text_eq}

pub data ApiError : Type 0 where
  required : Text → ApiError
  expiry_not_in_future action_json_not_valid : ApiError
  owner_not_expected signer_not_expected : ApiError
  bad_side asset_not_configured entry_spec_not_supported : ApiError
  price_error : PriceError → ApiError
  not_variance : ApiError
  decimal_required invalid_decimal : Text → ApiError
  invalid_amount_step misaligned_amount : ApiError
  zero_size negative_desired negative_filled : ApiError
  invalid_integer : Text → ApiError
  filled_exceeds_desired : ApiError
  bad_action_json wrong_subaccount wrong_nonce wrong_owner wrong_signer : ApiError
  bad_tuple bad_hex : ApiError
  limit_price_not_positive desired_amount_not_positive : ApiError
  wrong_asset wrong_sub_id wrong_is_bid : ApiError
  price_not_aligned amount_not_aligned : ApiError
  wrong_entry_spec ui_intent_required : ApiError
  side_mismatch price_mismatch amount_mismatch : ApiError

-- `orders.Side(text)`
unfoldable pub side_of : Text → Side
side_of s =
    if text_eq s (codes "buy") then buy else if text_eq s (codes "sell") then sell else other s
