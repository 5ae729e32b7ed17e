-- ===== src/Orders/Entry.antt =====
-- internal/orders/repository.go: `Create`, `FindActiveByOwnerNonce`, `CancelByOwnerNonce` and
-- `GetOrderStatusSnapshot`. The primary key, the unique index on owner and nonce and the check of
-- the side are those of migrations/000001_create_active_orders.up.sql.
use markets_service.Base.{
  ℕ, Bool, true, false, ◌&&◌, ◌++◌, [], ◌∷◌, Option, none, some, Result, ok, ◌>>=◌, ◌>>◌, fail_if,
  or_error,
}
use markets_service.Base.Int.{ℤ}
use markets_service.Json.{RawMessage}
use markets_service.Orders.{
  Side, buy, sell, other, Status, active, cancelled, Order, Store, RepoError, not_found,
  duplicate_order, check_violation, bad_numeric, bad_json, Numeric,
}
use markets_service.Orders.Table.{find_row, update_where, has_id, has_status, set_status}
use markets_service.Text.{Text, text_eq, trim_space}

pub record CreateOrderParams : Type 0 where
  pub order_id : Text
  pub owner_address : Text
  pub signer_address : Text
  pub subaccount_id : Text
  pub recipient_id : Text
  pub nonce : Text
  pub side : Side
  pub asset_address : Text
  pub sub_id : Text
  pub desired_amount : Text
  pub filled_amount : Text
  pub limit_price : Text
  pub limit_price_ticks : Text
  pub worst_fee : Text
  pub expiry : ℤ
  pub action_json : RawMessage
  pub signature : Text

pub record OrderStatusSnapshot : Type 0 where
  pub order_id : Text
  pub status : Status
  pub desired_amount : Text
  pub filled_amount : Text
  pub cancel_reason : Text
  pub updated_at : ℕ

-- `check (side in ('buy', 'sell'))`
abbrev pub bad_side : Side → Bool
bad_side buy = false
bad_side sell = false
bad_side (other t) = true

abbrev pub is_some {ℓ} : {A : Type ℓ} → Option A → Bool
is_some none = false
is_some (some a) = true

-- The row that an insert makes, with what the `numeric` and `jsonb` columns give back.
unfoldable pub new_row : CreateOrderParams → Text → Text → Text → Text → RawMessage → ℕ → Order
new_row p subaccount recipient nonce sub json now = record {
  order_id = p.order_id;
  owner_address = p.owner_address;
  signer_address = p.signer_address;
  subaccount_id = subaccount;
  recipient_id = recipient;
  nonce = nonce;
  side = p.side;
  asset_address = p.asset_address;
  sub_id = sub;
  desired_amount = p.desired_amount;
  filled_amount = p.filled_amount;
  limit_price = p.limit_price;
  limit_price_ticks = p.limit_price_ticks;
  worst_fee = p.worst_fee;
  expiry = p.expiry;
  action_json = json;
  signature = p.signature;
  status = active;
  created_at = now;
}

module _ (num : Numeric) where
  abbrev pub owns_nonce : Text → Text → Order → Bool
  owns_nonce owner nonce o = text_eq o.owner_address owner && num.same o.nonce nonce

  -- `insert into active_orders … returning …`; `now()` is `created_at`.
  unfoldable pub create : CreateOrderParams → ℕ → Store → Result RepoError (Order × Store)
  create p now s = do
    subaccount ← or_error (num.stored p.subaccount_id) bad_numeric
    recipient ← or_error (num.stored p.recipient_id) bad_numeric
    nonce ← or_error (num.stored p.nonce) bad_numeric
    sub ← or_error (num.stored p.sub_id) bad_numeric
    json ← or_error (num.jsonb p.action_json) bad_json
    fail_if (bad_side p.side) check_violation
    fail_if (is_some (find_row (has_id p.order_id) s.orders)) duplicate_order
    fail_if (is_some (find_row (owns_nonce p.owner_address nonce) s.orders)) duplicate_order
    let row = new_row p subaccount recipient nonce sub json now
    ok (row, record s { orders = s.orders ++ row ∷ [] })

  abbrev pub cancellable : Text → Text → Order → Bool
  cancellable owner nonce o = owns_nonce owner nonce o && has_status active o

  -- `FindActiveByOwnerNonce`
  unfoldable pub find_active_by_owner_nonce : Text → Text → Store → Result RepoError Order
  find_active_by_owner_nonce owner nonce s = do
    or_error (num.stored nonce) bad_numeric
    or_error (find_row (cancellable owner nonce) s.orders) not_found

  -- `CancelByOwnerNonce`
  unfoldable pub cancel_by_owner_nonce : Text → Text → Store → Result RepoError (Order × Store)
  cancel_by_owner_nonce owner nonce s = do
    or_error (num.stored nonce) bad_numeric
    o ← or_error (find_row (cancellable owner nonce) s.orders) not_found
    ok (
      set_status cancelled o,
      record s { orders = update_where (cancellable owner nonce) (set_status cancelled) s.orders },
    )

-- `GetOrderStatusSnapshot`
unfoldable pub get_order_status_snapshot : Text → Store → Result RepoError OrderStatusSnapshot
get_order_status_snapshot order_id s = do
  o ← or_error (find_row (has_id (trim_space order_id)) s.orders) not_found
  ok (record {
    order_id = o.order_id;
    status = o.status;
    desired_amount = o.desired_amount;
    filled_amount = o.filled_amount;
    cancel_reason = [];
    updated_at = o.created_at;
  })
