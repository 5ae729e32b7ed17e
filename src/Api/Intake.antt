-- ===== src/Api/Intake.antt =====
-- internal/api/orders.go: `createOrderRequest.toParams`, which turns a request into the parameters
-- of `Create`, with `isAllowedInstrument`. `Rat.SetString` and the floating point test of a variance
-- price are parameters.
pub mod Sound
use Prim.Native.Nat.{Ordering}
use markets_service.Api.{
  ApiError, required, expiry_not_in_future, action_json_not_valid, owner_not_expected,
  signer_not_expected, bad_side, asset_not_configured, entry_spec_not_supported, price_error,
  not_variance, filled_exceeds_desired, side_of,
}
use markets_service.Api.Action.{validate_action_json, validate_action_data_invariants}
use markets_service.Api.Amounts.{
  amount_atomic_step, compare_integer_strings, normalize_amount_to_atomic_units,
}
use markets_service.Api.Spot.{
  SpotOrderIntent, SpotEngineOrder, is_spot_contract_instrument,
  validate_or_translate_spot_ui_intent,
}
use markets_service.Base.{
  ℕ, Bool, true, false, not, ◌&&◌, ◌||◌, [], ◌∷◌, Option, none, some, Result, ok, err, ◌>>=◌, ◌>>◌,
  or_error, fail_if, if◌then◌else◌,
}
use markets_service.Base.Int.{ℤ, pos, leb_ℤ}
use markets_service.Instruments.{Metadata, Registry, enabled, by_asset_and_sub_id, btcvar30_symbol}
use markets_service.Json.{RawMessage}
use markets_service.Orders.{Side, buy, sell, other, side_eq}
use markets_service.Orders.Entry.{CreateOrderParams, is_some}
use markets_service.Pricing.{PriceError, Parsed, new_converter, parse}
use markets_service.Rational.{Rat}
use markets_service.Text.{Text, codes, text_eq, is_empty, trim_space, to_lower}

pub record CreateOrderRequest : Type 0 where
  pub order_id : Text
  pub owner_address : Text
  pub signer_address : Text
  pub subaccount_id : Text
  pub recipient_id : Text
  pub nonce : Text
  pub side : Text
  pub asset_address : Text
  pub sub_id : Text
  pub desired_amount : Text
  pub filled_amount : Text
  pub limit_price : Text
  pub worst_fee : Text
  pub expiry : ℤ
  pub order_entry_spec : Text
  pub ui_intent : Option SpotOrderIntent
  pub action_json : RawMessage
  pub signature : Text

-- The configuration, with the items of `DefaultRegistry(cfg)`.
pub record Config : Type 0 where
  pub expected_order_owner : Text
  pub expected_order_signer : Text
  pub enforce_action_data_invariants : Bool
  pub registry : Registry

-- `isAllowedInstrument`
unfoldable pub is_allowed_instrument : Config → Text → Text → Bool
is_allowed_instrument cfg asset sub = elim (enabled cfg.registry) [
  | [] ↦ true
  | m ∷ ms ↦ is_some (by_asset_and_sub_id cfg.registry asset sub)
]

unfoldable pub wrap_price {κ} : {A : Type κ} → Result PriceError A → Result ApiError A
wrap_price (ok a) = ok a
wrap_price (err e) = err (price_error e)

-- The fields that must be given.
unfoldable pub check_required : CreateOrderRequest → Result ApiError (Unit {0})
check_required r = do
  fail_if (is_empty r.order_id) (required (codes "order_id"))
  fail_if (is_empty r.owner_address) (required (codes "owner_address"))
  fail_if (is_empty r.signer_address) (required (codes "signer_address"))
  fail_if (is_empty r.subaccount_id) (required (codes "subaccount_id"))
  fail_if (is_empty r.recipient_id) (required (codes "recipient_id"))
  fail_if (is_empty r.nonce) (required (codes "nonce"))
  fail_if (is_empty r.asset_address) (required (codes "asset_address"))
  fail_if (is_empty r.desired_amount && not (is_some r.ui_intent))
      (required (codes "desired_amount"))
  fail_if (is_empty r.limit_price && not (is_some r.ui_intent)) (required (codes "limit_price"))
  fail_if (is_empty r.worst_fee) (required (codes "worst_fee"))
  fail_if (is_empty r.signature) (required (codes "signature"))

-- A configured account that is not the one of the request.
unfoldable pub is_unexpected : Text → Text → Bool
is_unexpected configured given =
    let expected = to_lower (trim_space configured) in
    not (is_empty expected) && not (text_eq given expected)

-- A side that is neither "buy" nor "sell", and not empty.
unfoldable pub is_foreign_side : Side → Bool
is_foreign_side buy = false
is_foreign_side sell = false
is_foreign_side (other t) = not (is_empty t)

unfoldable pub exceeds : Ordering → Bool
exceeds Ordering.gt = true
exceeds Ordering.eq = false
exceeds Ordering.lt = false

abbrev pub or_zero : Text → Text
or_zero t = if is_empty t then codes "0" else t

-- The metadata of a market that no instrument is configured for.
unfoldable pub instrument_for : Config → Text → Text → Metadata
instrument_for cfg asset sub = elim (by_asset_and_sub_id cfg.registry asset sub) [
  | some m ↦ m
  | none ↦ record {
    symbol = asset;
    asset_address = asset;
    sub_id = sub;
    contract_type = [];
    tick_size = codes "1";
    min_size = [];
    quote_precision = 8;
    is_enabled = false;
  }
]

module _ (parse_rat : Text → Option Rat) (variance_allowed : Text → Bool) where
  -- Side, price and amount of the spot market, where the user may give an intent in their place.
  unfoldable pub engine_terms :
      Metadata → CreateOrderRequest → Side → Result ApiError SpotEngineOrder
  engine_terms m r side =
      if is_spot_contract_instrument m
      then (do
        terms ←
            validate_or_translate_spot_ui_intent parse_rat r.order_entry_spec r.ui_intent side
              r.limit_price r.desired_amount
        fail_if (not (side_eq terms.side buy) && not (side_eq terms.side sell)) bad_side
        ok terms)
      else (do
        fail_if (not (is_empty r.order_entry_spec) || is_some r.ui_intent) entry_spec_not_supported
        ok (record { side = side; price = r.limit_price; amount = r.desired_amount }))

  -- `toParams` from the price on.
  unfoldable pub params_of :
      Config
      → CreateOrderRequest
      → Metadata
      → Text
      → Text
      → SpotEngineOrder
      → Result ApiError CreateOrderParams
  params_of cfg r m asset sub terms = do
    converter ← wrap_price (new_converter m.tick_size m.quote_precision)
    price ← wrap_price (parse converter terms.price)
    fail_if (text_eq m.symbol btcvar30_symbol && not (variance_allowed price.display)) not_variance
    desired ← normalize_amount_to_atomic_units parse_rat m terms.amount true
    filled ← normalize_amount_to_atomic_units parse_rat m (or_zero r.filled_amount) false
    compared ← compare_integer_strings filled desired
    fail_if (exceeds compared) filled_exceeds_desired
    validate_action_json r.action_json (to_lower r.owner_address) (to_lower r.signer_address)
        r.subaccount_id r.nonce
    (if cfg.enforce_action_data_invariants
        then validate_action_data_invariants parse_rat r.action_json terms.side asset sub
            price.ticks desired (amount_atomic_step m)
        else ok tt)
    ok (record {
      order_id = r.order_id;
      owner_address = to_lower r.owner_address;
      signer_address = to_lower r.signer_address;
      subaccount_id = r.subaccount_id;
      recipient_id = r.recipient_id;
      nonce = r.nonce;
      side = terms.side;
      asset_address = asset;
      sub_id = sub;
      desired_amount = desired;
      filled_amount = filled;
      limit_price = price.display;
      limit_price_ticks = price.ticks;
      worst_fee = r.worst_fee;
      expiry = r.expiry;
      action_json = r.action_json;
      signature = r.signature;
    })

  -- `toParams`
  unfoldable pub to_params : Config → ℤ → CreateOrderRequest → Result ApiError CreateOrderParams
  to_params cfg now r = do
    check_required r
    fail_if (leb_ℤ r.expiry now) expiry_not_in_future
    fail_if (not (is_some r.action_json)) action_json_not_valid
    fail_if (is_unexpected cfg.expected_order_owner (to_lower r.owner_address)) owner_not_expected
    fail_if (is_unexpected cfg.expected_order_signer (to_lower r.signer_address))
        signer_not_expected
    let side = side_of (to_lower r.side)
    fail_if (is_foreign_side side) bad_side
    let asset = to_lower r.asset_address
    let sub = or_zero r.sub_id
    fail_if (not (is_allowed_instrument cfg asset sub)) asset_not_configured
    let m = instrument_for cfg asset sub
    terms ← engine_terms m r side
    params_of cfg r m asset sub terms
