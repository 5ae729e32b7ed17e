-- ===== src/Orders/History.antt =====
-- internal/orders/repository.go: `ListTrades` and `GetMarketDiagnostics`. `created_at` of a trade is
-- a column that the database fills, and a parameter.
pub mod Newest
pub mod Stats
pub mod Paging
use markets_service.Base.{
  ℕ, ◌+◌, Bool, true, false, ◌&&◌, ◌||◌, List, [], ◌∷◌, take, select, length, Option, none, some,
  Result, ok, ◌>>=◌, ◌>>◌, or_error, ltb, ◌==◌, if◌then◌else◌,
}
use markets_service.Orders.{
  Side, buy, sell, active, matching, Order, TradeFill, Store, RepoError, bad_numeric, Numeric,
  side_eq,
}
use markets_service.Orders.Table.{count_where, has_status}
use markets_service.Text.{Text, text_eq, to_lower}

pub record MarketDiagnostics : Type 0 where
  pub open_bid_count : ℕ
  pub open_ask_count : ℕ
  pub trade_count : ℕ
  pub last_trade_timestamp : Option ℕ

-- `items[len(items)-1].TradeID`
abbrev pub last_id : List TradeFill → ℕ
last_id [] = 0
last_id (f ∷ []) = f.trade_id
last_id (f ∷ g ∷ gs) = last_id (g ∷ gs)

-- `max(created_at)`
unfoldable pub latest : (TradeFill → ℕ) → List TradeFill → Option ℕ
latest created_at [] = none
latest created_at (f ∷ fs) = elim (latest created_at fs) [
  | none ↦ some (created_at f)
  | some at ↦ some (if ltb at (created_at f) then created_at f else at)
]

module _ (num : Numeric) (created_at : TradeFill → ℕ) where
  -- `asset_address = $1 and sub_id = $2`
  abbrev pub of_market : Text → Text → TradeFill → Bool
  of_market asset sub f = text_eq f.asset_address asset && num.same f.sub_id sub

  -- `$3 = 0 or trade_id < $3`
  abbrev pub is_before : ℕ → TradeFill → Bool
  is_before before f = before == 0 || ltb f.trade_id before

  -- `order by created_at desc, trade_id desc`
  unfoldable pub is_newer : TradeFill → TradeFill → Bool
  is_newer f g =
      ltb (created_at g) (created_at f) || created_at f == created_at g && ltb g.trade_id f.trade_id

  unfoldable pub insert_trade : TradeFill → List TradeFill → List TradeFill
  unfolding is_newer
  insert_trade f [] = f ∷ []
  insert_trade f (g ∷ gs) =
      let rest = insert_trade f gs in if is_newer g f then g ∷ rest else f ∷ g ∷ gs

  unfoldable pub newest_first : List TradeFill → List TradeFill
  unfolding insert_trade
  newest_first [] = []
  newest_first (f ∷ fs) = insert_trade f (newest_first fs)

  -- The rows of the query, in order, before its limit.
  unfoldable pub trade_rows : Text → Text → ℕ → List TradeFill → List TradeFill
  unfolding newest_first
  trade_rows asset sub before fills =
      newest_first (select (λ f. of_market asset sub f && is_before before f) fills)

  -- `ListTrades`
  unfoldable pub list_trades : Text → Text → ℕ → ℕ → Store → Result RepoError (List TradeFill)
  unfolding trade_rows
  list_trades asset sub before limit s = do
    or_error (num.stored sub) bad_numeric
    ok (take limit (trade_rows (to_lower asset) sub before s.fills))

  -- `asset_address = $1 and sub_id = $2 and side = … and status in ('active', 'matching')`
  abbrev pub is_open : Text → Text → Side → Order → Bool
  is_open asset sub side o =
      text_eq o.asset_address asset
      && num.same o.sub_id sub
      && side_eq o.side side
      && (has_status active o || has_status matching o)

  -- `GetMarketDiagnostics`
  unfoldable pub get_market_diagnostics : Text → Text → Store → Result RepoError MarketDiagnostics
  unfolding latest
  get_market_diagnostics asset sub s = do
    or_error (num.stored sub) bad_numeric
    let fills = select (of_market (to_lower asset) sub) s.fills
    ok (record {
      open_bid_count = count_where (is_open (to_lower asset) sub buy) s.orders;
      open_ask_count = count_where (is_open (to_lower asset) sub sell) s.orders;
      trade_count = length fills;
      last_trade_timestamp = latest created_at fills;
    })
