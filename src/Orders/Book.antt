-- ===== src/Orders/Book.antt =====
-- internal/orders/repository.go: the active orders of one side of a market, best price first and
-- oldest first at one price: `listBySide`, `lockBestBySide`, `bestBySide`, `expireOrders`,
-- `ListBook` and `BestBidAndAsk`. `limit_price_ticks::numeric` is read as an integer, which is all
-- that the program writes there.
pub mod Sorting
pub mod Priority
use markets_service.Base.{
  ℕ, Bool, true, false, ◌&&◌, ◌||◌, List, [], ◌∷◌, map, take, select, Option, none, some, Result,
  ok, err, ◌>>=◌, ◌>>◌, or_error, ltb, if◌then◌else◌,
}
use markets_service.Base.Int.{ℤ, ltb_ℤ, leb_ℤ, eqb_ℤ}
use markets_service.Orders.{
  Side, buy, sell, other, active, expired, Order, Store, RepoError, bad_numeric, bad_ticks, Numeric,
  side_eq,
}
use markets_service.Orders.Table.{update_where, has_status, set_status}
use markets_service.Text.{Text, text_eq, to_lower}
use markets_service.Text.Decimal.{set_string}

-- A row with its price as a number, the key of the `order by` clause.
abbrev pub Keyed : Type 0
Keyed = ℤ × Order

unfoldable pub keyed_rows : List Order → Result RepoError (List Keyed)
keyed_rows [] = ok []
keyed_rows (o ∷ os) = do
  key ← or_error (set_string o.limit_price_ticks) bad_ticks
  rest ← keyed_rows os
  ok ((key, o) ∷ rest)

-- The price of the first comes before the price of the second on this side.
abbrev pub price_before : Side → ℤ → ℤ → Bool
price_before sell a b = ltb_ℤ a b
price_before buy a b = ltb_ℤ b a
price_before (other t) a b = ltb_ℤ b a

-- `limit_price_ticks::numeric desc, created_at asc`, `asc` for the sell side.
unfoldable pub precedes : Side → Keyed → Keyed → Bool
precedes s x y = price_before s x.0 y.0 || eqb_ℤ x.0 y.0 && ltb (x.1).created_at (y.1).created_at

unfoldable pub insert_row : Side → Keyed → List Keyed → List Keyed
insert_row s x [] = x ∷ []
insert_row s x (y ∷ ys) = if precedes s y x then y ∷ insert_row s x ys else x ∷ y ∷ ys

unfoldable pub order_by : Side → List Keyed → List Keyed
unfolding insert_row
order_by s [] = []
order_by s (x ∷ xs) = insert_row s x (order_by s xs)

abbrev pub rows : List Keyed → List Order
rows = map (λ x. x.1)

abbrev pub first_row : List Order → Option Order
first_row [] = none
first_row (o ∷ os) = some o

module _ (num : Numeric) where
  -- `where asset_address = $1 and sub_id = $2 and side = $3 and status = 'active'`
  abbrev pub resting : Text → Text → Side → Order → Bool
  resting asset sub side o =
      text_eq o.asset_address asset
      && num.same o.sub_id sub
      && side_eq o.side side
      && has_status active o

  -- The rows of the query, in order, before its limit.
  unfoldable pub side_of_book : Text → Text → Side → Store → Result RepoError (List Keyed)
  side_of_book asset sub side s = do
    or_error (num.stored sub) bad_numeric
    keyed ← keyed_rows (select (resting asset sub side) s.orders)
    ok (order_by side keyed)

  -- `listBySide`
  unfoldable pub list_by_side : Text → Text → Side → ℕ → Store → Result RepoError (List Order)
  list_by_side asset sub side limit s = do
    keyed ← side_of_book asset sub side s
    ok (take limit (rows keyed))

  -- `bestBySide`, and `lockBestBySide` inside its transaction.
  unfoldable pub best_by_side : Text → Text → Side → Store → Result RepoError (Option Order)
  best_by_side asset sub side s = do listed ← list_by_side asset sub side 1 s; ok (first_row listed)

-- `expireOrders`: every active order whose expiry is not after `now`.
unfoldable pub is_due : ℤ → Order → Bool
is_due now o = has_status active o && leb_ℤ o.expiry now

unfoldable pub expire_orders : ℤ → Store → Store
expire_orders now s = record s { orders = update_where (is_due now) (set_status expired) s.orders }

module _ (num : Numeric) where
  -- `ListBook`
  unfoldable pub list_book :
      Text → Text → ℕ → ℤ → Store → Result RepoError (List Order × List Order) × Store
  list_book asset sub limit now s =
      let s' = expire_orders now s in
      (
        (do
          bids ← list_by_side num (to_lower asset) sub buy limit s'
          asks ← list_by_side num (to_lower asset) sub sell limit s'
          ok (bids, asks)),
        s',
      )

  -- `BestBidAndAsk`
  unfoldable pub best_bid_and_ask :
      Text → Text → ℤ → Store → Result RepoError (Option Order × Option Order) × Store
  best_bid_and_ask asset sub now s =
      let s' = expire_orders now s in
      (
        (do
          bid ← best_by_side num (to_lower asset) sub buy s'
          ask ← best_by_side num (to_lower asset) sub sell s'
          ok (bid, ask)),
        s',
      )
