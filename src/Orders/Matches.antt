-- ===== src/Orders/Matches.antt =====
-- internal/orders/repository.go: the two orders that a match reserves, and what becomes of them:
-- `AcquireMatchCandidate`, `ReleaseMatch`, `MarkMatchFailed` and `FinalizeMatchWithPrice`. Each is
-- one transaction: on an error the store is as it was.
use Prim.Native.Nat.{Ordering}
use markets_service.Base.{
  ℕ, ◌+◌, Bool, ◌&&◌, ◌++◌, List, [], ◌∷◌, length, Option, none, some, Result, ok, err, ◌>>=◌, ◌>>◌,
  fail_if, or_error, ltb, ◌==◌, not, if◌then◌else◌,
}
use markets_service.Base.Int.{ℤ}
use markets_service.Orders.{
  buy, sell, Status, active, matching, filled, Order, TradeFill, MatchCandidate, Store, RepoError,
  not_found, reserve_failed, fill_exceeds_desired, Numeric,
}
use markets_service.Orders.Amounts.{add_decimal_string, compare_decimal_strings}
use markets_service.Orders.Book.{best_by_side, expire_orders}
use markets_service.Orders.Table.{
  find_row, update_where, count_where, id_among, has_id, has_status, set_status,
}
use markets_service.Text.{Text, text_lt, to_lower, is_empty}

-- `chooseTakerMaker`: the younger order is the taker, and of two of one age the one with the
-- greater id.
unfoldable pub choose_taker_maker : Order → Order → MatchCandidate
choose_taker_maker left right =
    if ltb right.created_at left.created_at
    then record { taker = left; maker = right }
    else if ltb left.created_at right.created_at
    then record { taker = right; maker = left }
    else if text_lt right.order_id left.order_id
    then record { taker = left; maker = right }
    else record { taker = right; maker = left }

abbrev pub listed_with : List Text → Status → Order → Bool
listed_with ids st o = id_among ids o.order_id && has_status st o

-- `reserveOrders`
unfoldable pub reserve_orders : List Text → Store → Result RepoError Store
reserve_orders ids s = do
  fail_if (not (count_where (listed_with ids active) s.orders == length ids)) reserve_failed
  ok (record s { orders = update_where (listed_with ids active) (set_status matching) s.orders })

-- What follows once both sides of the book have been asked for.
unfoldable pub reserve_pair :
    Option Order → Option Order → Store → Result RepoError (Option MatchCandidate × Store)
reserve_pair (some bid) (some ask) s = do
  let c = choose_taker_maker bid ask
  s' ← reserve_orders ((c.taker).order_id ∷ (c.maker).order_id ∷ []) s
  ok (some c, s')
reserve_pair _ _ s = ok (none, s)

-- `AcquireMatchCandidate`
unfoldable pub acquire_match_candidate :
    Numeric → Text → Text → ℤ → Store → Result RepoError (Option MatchCandidate × Store)
acquire_match_candidate num asset sub now s = do
  let s' = expire_orders now s
  bid ← best_by_side num (to_lower asset) sub buy s'
  ask ← best_by_side num (to_lower asset) sub sell s'
  reserve_pair bid ask s'

-- `ReleaseMatch`. With no id it makes no query, and an update that lists none changes nothing.
unfoldable pub release_match : List Text → Store → Store
release_match ids s = record s {
  orders = update_where (listed_with ids matching) (set_status active) s.orders;
}

-- `MarkMatchFailed`
unfoldable pub mark_match_failed : List Text → Text → Store → Store
mark_match_failed ids reason s = release_match ids s

abbrev pub filled_to : Text → Status → Order → Order
filled_to amount st o = record o { filled_amount = amount; status = st }

-- The status after a fill, by how the new filled amount compares with the desired one.
abbrev pub status_after : Ordering → Result RepoError Status
status_after Ordering.lt = ok active
status_after Ordering.eq = ok filled
status_after Ordering.gt = err fill_exceeds_desired

-- `applyFill`
unfoldable pub apply_fill : Text → Text → Store → Result RepoError (Order × Store)
apply_fill order_id amount s = do
  o ← or_error (find_row (λ r. has_id order_id r && has_status matching r) s.orders) not_found
  new ← add_decimal_string o.filled_amount amount
  c ← compare_decimal_strings new o.desired_amount
  st ← status_after c
  ok (
    filled_to new st o,
    record s { orders = update_where (has_id order_id) (filled_to new st) s.orders },
  )

-- The trade that `insertTradeFill` records.
abbrev pub trade_of : Order → Order → Text → Text → ℕ → TradeFill
trade_of taker maker price size trade_id = record {
  trade_id = trade_id;
  asset_address = to_lower taker.asset_address;
  sub_id = taker.sub_id;
  price = price;
  size = size;
  aggressor_side = taker.side;
  taker_order_id = taker.order_id;
  maker_order_id = maker.order_id;
}

-- `insertTradeFill`
unfoldable pub insert_trade_fill : Order → Order → Text → Text → Store → Store
insert_trade_fill taker maker price size s = record s {
  fills = s.fills ++ trade_of taker maker price size s.next_trade_id ∷ [];
  next_trade_id = s.next_trade_id + 1;
}

-- `FinalizeMatchWithPrice`; `FinalizeMatch` is this with an empty price.
unfoldable pub finalize_match_with_price :
    Text → Text → Text → Text → Store → Result RepoError Store
finalize_match_with_price taker_id maker_id price amount s = do
  t ← apply_fill taker_id amount s
  m ← apply_fill maker_id amount (t.1)
  ok (
      insert_trade_fill (t.0) (m.0) (if is_empty price then (m.0).limit_price else price) amount
        (m.1))
