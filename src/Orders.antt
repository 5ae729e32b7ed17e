-- ===== src/Orders.antt =====
-- internal/orders/order.go and trade_fill.go: the order, its side and status, the trade, and what
-- the database holds. `Side` is a text in the program; one that is neither "buy" nor "sell" is
-- `other`. Instants count from an epoch.
pub mod Backfill
pub mod Amounts
pub mod Table
pub mod Entry
pub mod Book
pub mod History
pub mod Matches
pub mod Effects
pub mod Fill
pub mod Validity
pub mod Closed
pub mod Settled
pub mod Settlement
pub mod Reach
pub mod Foreign
pub mod Completion
pub mod Acquired
use markets_service.Base.{ℕ, Bool, true, false, List, Option, none, some}
use markets_service.Base.Int.{ℤ, leb_ℤ}
use markets_service.Json.{RawMessage}
use markets_service.Text.{Text}

pub data Side : Type 0 where
  buy sell : Side
  other : Text → Side

pub data Status : Type 0 where
  active matching filled cancelled expired : Status

pub record Order : Type 0 where
  pub order_id : Text
  pub owner_address : Text
  pub signer_address : Text
  pub subaccount_id : Text
  pub recipient_id : Text
  pub nonce : Text
  pub side : Side
  pub asset_address : Text
  pub sub_id : Text
  pub desired_amount : Text
  pub filled_amount : Text
  pub limit_price : Text
  pub limit_price_ticks : Text
  pub worst_fee : Text
  pub expiry : ℤ
  pub action_json : RawMessage
  pub signature : Text
  pub status : Status
  pub created_at : ℕ

pub record TradeFill : Type 0 where
  pub trade_id : ℕ
  pub asset_address : Text
  pub sub_id : Text
  pub price : Text
  pub size : Text
  pub aggressor_side : Side
  pub taker_order_id : Text
  pub maker_order_id : Text

pub record MatchCandidate : Type 0 where
  pub taker : Order
  pub maker : Order

-- The tables `active_orders` and `trade_fills`, and the sequence behind `trade_id`.
pub record Store : Type 0 where
  pub orders : List Order
  pub fills : List TradeFill
  pub next_trade_id : ℕ

-- The errors of the repository's methods.
pub data RepoError : Type 0 where
  not_found duplicate_order check_violation bad_numeric bad_json bad_ticks : RepoError
  reserve_failed invalid_decimal fill_exceeds_desired : RepoError

-- What PostgreSQL does with a text written to, or compared with, a `numeric` column: the text
-- that the column gives back, `none` where it refuses it, and whether two texts are one number; and
-- the value that a `jsonb` column gives back, `none` where it refuses it.
pub record Numeric : Type 0 where
  pub stored : Text → Option Text
  pub same : Text → Text → Bool
  pub jsonb : RawMessage → Option RawMessage

abbrev pub side_eq : Side → Side → Bool
side_eq buy buy = true
side_eq sell sell = true
side_eq _ _ = false

abbrev pub status_eq : Status → Status → Bool
status_eq active active = true
status_eq matching matching = true
status_eq filled filled = true
status_eq cancelled cancelled = true
status_eq expired expired = true
status_eq _ _ = false

-- `Order.IsExpired`
unfoldable pub is_expired : Order → ℤ → Bool
is_expired o now = leb_ℤ o.expiry now
