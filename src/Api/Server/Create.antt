-- ===== src/Api/Server/Create.antt =====
-- internal/api/server.go: `handleCreateOrder` and `handleGetOrderStatus`. The body is what
-- `encoding/json` has read, `none` where it refused it.
pub mod Intact
use markets_service.Api.{ApiError}
use markets_service.Api.Custody.{CustodyChecker, Post, guard, CustodyError}
use markets_service.Api.Intake.{Config, CreateOrderRequest, to_params}
use markets_service.Api.Server.{
  Failure, message, intake, custody, repository, Reply, failed, sent, refuse, RemainingError,
  remaining_amount_string,
}
use markets_service.Base.{◌++◌, ℕ, Bool, Option, none, some, Result, ok, err, if◌then◌else◌}
use markets_service.Base.Int.{ℤ}
use markets_service.Orders.{
  Order, Status, Store, RepoError, not_found, duplicate_order, check_violation, bad_numeric,
  bad_json, bad_ticks, reserve_failed, invalid_decimal, fill_exceeds_desired, Numeric,
}
use markets_service.Orders.Entry.{
  CreateOrderParams, create, OrderStatusSnapshot, get_order_status_snapshot,
}
use markets_service.Rational.{Rat}
use markets_service.Text.{Text, codes, contains, is_empty, trim_space}

-- The table and the guard, which a request may change.
pub record ServerState : Type 0 where
  pub store : Store
  pub checker : CustodyChecker

-- The texts of the database's errors for an insert.
abbrev pub ErrorTexts : Type 0
ErrorTexts = CreateOrderParams → RepoError → Text

-- `err.Error()` of `Create`: `mapPGError` names the violation of a unique index.
unfoldable pub error_text : (RepoError → Text) → RepoError → Text
error_text texts duplicate_order = codes "duplicate order: " ++ texts duplicate_order
error_text texts not_found = texts not_found
error_text texts check_violation = texts check_violation
error_text texts bad_numeric = texts bad_numeric
error_text texts bad_json = texts bad_json
error_text texts bad_ticks = texts bad_ticks
error_text texts reserve_failed = texts reserve_failed
error_text texts invalid_decimal = texts invalid_decimal
error_text texts fill_exceeds_desired = texts fill_exceeds_desired

-- `strings.Contains(err.Error(), "duplicate order")`
unfoldable pub create_status : Text → ℕ
create_status reason = if contains reason (codes "duplicate order") then 409 else 500

-- The answer to what `Create` returns.
unfoldable pub stored :
    (RepoError → Text)
    → Result RepoError (Order × Store)
    → CustodyChecker
    → Store
    → Reply Order × ServerState
unfolding create_status error_text
stored texts (ok (o, t)) g s = (sent 201 o, record { store = t; checker = g })
stored texts (err e) g s =
    (failed (create_status (error_text texts e)) (repository e), record { store = s; checker = g })

-- The handler behind the guard.
unfoldable pub guarded :
    ErrorTexts
    → Numeric
    → ℕ
    → CreateOrderParams
    → Result CustodyError (Unit {0}) × CustodyChecker
    → Store
    → Reply Order × ServerState
unfolding stored
guarded texts num at p (ok u, g) s = stored (texts p) (create num p at s) g s
guarded texts num at p (err e, g) s = (failed 400 (custody e), record { store = s; checker = g })

-- The handler with the parameters of the request.
unfoldable pub checked :
    ErrorTexts
    → Numeric
    → Post
    → ℕ
    → Result ApiError CreateOrderParams
    → ServerState
    → Reply Order × ServerState
unfolding guarded
checked texts num post at (err e) st = (failed 400 (intake e), st)
checked texts num post at (ok p) st =
    guarded texts num at p (guard post p.subaccount_id st.checker) st.store

module _ (parse_rat : Text → Option Rat) (variance_allowed : Text → Bool) (texts : ErrorTexts) where
  -- `handleCreateOrder`, at the time `now` and with the `created_at` of the row.
  unfoldable pub handle_create_order :
      Numeric
      → Config
      → Post
      → ℤ
      → ℕ
      → Option CreateOrderRequest
      → ServerState
      → Reply Order × ServerState
  unfolding checked
  handle_create_order num cfg post now at none st = (refuse 400 (codes "invalid JSON body"), st)
  handle_create_order num cfg post now at (some req) st =
      checked texts num post at (to_params parse_rat variance_allowed cfg now req) st

pub record OrderStatusResponse : Type 0 where
  pub order_id : Text
  pub status : Status
  pub filled_amount : Text
  pub remaining_amount : Text
  pub cancel_reason : Text
  pub updated_at : ℕ

unfoldable pub present_status :
    OrderStatusSnapshot → Result RemainingError Text → Reply OrderStatusResponse
present_status snapshot (err e) = refuse 500 (codes "failed to compute remaining amount")
present_status snapshot (ok remaining) = sent 200 (record {
  order_id = snapshot.order_id;
  status = snapshot.status;
  filled_amount = snapshot.filled_amount;
  remaining_amount = remaining;
  cancel_reason = snapshot.cancel_reason;
  updated_at = snapshot.updated_at;
})

abbrev pub load_failure : RepoError → Reply OrderStatusResponse
load_failure not_found = refuse 404 (codes "order not found")
load_failure _ = refuse 500 (codes "failed to load order")

-- `handleGetOrderStatus`
unfoldable pub handle_get_order_status : Text → Store → Reply OrderStatusResponse
unfolding present_status
handle_get_order_status raw_id s =
    if is_empty (trim_space raw_id)
    then refuse 400 (codes "order_id is required")
    else (elim (get_order_status_snapshot (trim_space raw_id) s) [
      | err e ↦ load_failure e
      | ok snapshot ↦
          present_status snapshot
            (remaining_amount_string snapshot.desired_amount snapshot.filled_amount)
    ])
