-- ===== src/Api/Server/Cancel.antt =====
-- internal/api/orders.go and server.go: `cancelOrderRequest.validate`, `validateCancelNamespace` and
-- `handleCancelOrder`.
pub mod Protected
use markets_service.Api.Server.{Failure, repository, namespace, Reply, failed, sent, refuse}
use markets_service.Base.{
  ℕ, Bool, List, [], ◌∷◌, Option, none, some, Result, ok, err, ◌>>◌, fail_if, if◌then◌else◌,
}
use markets_service.Orders.{Order, Store, RepoError, not_found, Numeric}
use markets_service.Orders.Entry.{find_active_by_owner_nonce, cancel_by_owner_nonce}
use markets_service.Text.{Text, codes, is_empty, to_lower, trim_space, has_prefix}

pub record CancelOrderRequest : Type 0 where
  pub owner_address : Text
  pub nonce : Text
  pub reason : Text
  pub service : Text

-- `validate`, with the text of its error.
unfoldable pub validate : CancelOrderRequest → Result Text (Unit {0})
validate req = do
  fail_if (is_empty req.owner_address) (codes "owner_address is required")
  fail_if (is_empty req.nonce) (codes "nonce is required")

-- The first prefix that the text has.
unfoldable pub find_prefix : List Text → Text → Option Text
find_prefix [] s = none
find_prefix (p ∷ ps) s = let rest = find_prefix ps s in if has_prefix s p then some p else rest

-- `validateCancelNamespace`: the prefix that protects the order from this request.
unfoldable pub validate_cancel_namespace : List Text → CancelOrderRequest → Order → Option Text
unfolding find_prefix
validate_cancel_namespace prefixes req target =
    if is_empty (trim_space req.service)
    then none
    else find_prefix prefixes (to_lower (trim_space target.order_id))

abbrev pub load_failure : RepoError → Reply Order
load_failure not_found = refuse 404 (codes "active order not found")
load_failure _ = refuse 500 (codes "failed to resolve cancel target")

abbrev pub cancel_failure : RepoError → Reply Order
cancel_failure not_found = refuse 404 (codes "active order not found")
cancel_failure _ = refuse 500 (codes "failed to cancel order")

-- The answer to what `CancelByOwnerNonce` returns.
unfoldable pub cancelled_as : Result RepoError (Order × Store) → Store → Reply Order × Store
cancelled_as (ok (o, t)) s = (sent 200 o, t)
cancelled_as (err e) s = (cancel_failure e, s)

-- The handler with the prefix that protects its order.
unfoldable pub cancel_unless :
    Numeric → CancelOrderRequest → Option Text → (Store → Store) → Store → Reply Order × Store
unfolding cancelled_as
cancel_unless num req (some prefix) meanwhile s = (failed 403 (namespace prefix), s)
cancel_unless num req none meanwhile s =
    cancelled_as (cancel_by_owner_nonce num (to_lower req.owner_address) req.nonce (meanwhile s))
      (meanwhile s)

-- The handler with the order that it is about.
unfoldable pub cancel_target :
    Numeric
    → List Text
    → CancelOrderRequest
    → Result RepoError Order
    → (Store → Store)
    → Store
    → Reply Order × Store
unfolding cancel_unless
cancel_target num prefixes req (err e) meanwhile s = (load_failure e, s)
cancel_target num prefixes req (ok target) meanwhile s =
    cancel_unless num req (validate_cancel_namespace prefixes req target) meanwhile s

-- The handler with the answer of `validate`.
unfoldable pub cancel_valid :
    Numeric
    → List Text
    → CancelOrderRequest
    → Result Text (Unit {0})
    → (Store → Store)
    → Store
    → Reply Order × Store
unfolding cancel_target
cancel_valid num prefixes req (err text) meanwhile s = (refuse 400 text, s)
cancel_valid num prefixes req (ok u) meanwhile s =
    cancel_target num prefixes req
      (find_active_by_owner_nonce num (to_lower req.owner_address) req.nonce s) meanwhile s

-- `handleCancelOrder`, with the protected prefixes of the configuration and with what other clients
-- commit between its two transactions. The body is `none` where `encoding/json` refused it.
unfoldable pub handle_cancel_order :
    Numeric → List Text → (Store → Store) → Option CancelOrderRequest → Store → Reply Order × Store
unfolding cancel_valid
handle_cancel_order num prefixes meanwhile none s = (refuse 400 (codes "invalid JSON body"), s)
handle_cancel_order num prefixes meanwhile (some req) s =
    cancel_valid num prefixes req (validate req) meanwhile s
