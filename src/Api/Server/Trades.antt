-- ===== src/Api/Server/Trades.antt =====
-- internal/api/server.go: `handleTrades`, `handleBook`, `handleMarkets` and `handleMarketDiagnostics`.
-- What the log says of a market is left out, and so are the fields of a market that are only shown.
pub mod Walk
use markets_service.Api.Server.{Reply, sent, refuse, MarketQuery, known_market}
use markets_service.Base.{
  ℕ, ◌-◌, ◌^◌, Bool, true, false, ◌||◌, List, [], ◌∷◌, map, length, Option, none, some, Result, ok,
  err, leb, ltb, ◌==◌, if◌then◌else◌,
}
use markets_service.Base.Int.{ℤ, pos, negsuc}
use markets_service.Instruments.{Metadata, Registry, enabled}
use markets_service.Orders.{Order, TradeFill, Store, RepoError, Numeric}
use markets_service.Orders.Book.{list_book}
use markets_service.Orders.History.{MarketDiagnostics, last_id, list_trades, get_market_diagnostics}
use markets_service.Orders.History.Stats.{SqlNumeric, TradeStats24h, get_trade_stats24h}
use markets_service.Text.{Text, codes, is_empty, to_lower, trim_space, text_lt}
use markets_service.Text.Decimal.{set_string}

-- `strconv.Atoi` and `strconv.ParseInt` of a number from 1 to a bound.
unfoldable pub parse_up_to : ℕ → Text → Option ℕ
parse_up_to bound raw = elim (set_string raw) [
  | none ↦ none
  | some (negsuc n) ↦ none
  | some (pos n) ↦ if n == 0 || ltb bound n then none else some n
]

-- `limit`, 50 where it is not given.
unfoldable pub limit_of : Text → Option ℕ
unfolding parse_up_to
limit_of raw = if is_empty (trim_space raw) then some 50 else parse_up_to 100 (trim_space raw)

-- `before_trade_id`, a 64-bit number, and 0 where it is not given.
unfoldable pub before_of : Text → Option ℕ
unfolding parse_up_to
before_of raw =
    if is_empty (trim_space raw) then some 0 else parse_up_to (2 ^ 63 - 1) (trim_space raw)

-- `nextBeforeTradeID`
unfoldable pub next_before_trade_id : ℕ → List TradeFill → ℕ
next_before_trade_id limit items = if length items == limit then last_id items else 0

pub record TradesResponse : Type 0 where
  pub market : Metadata
  pub stats : TradeStats24h
  pub trades : List TradeFill
  pub next_before : ℕ

pub record TradesQuery : Type 0 where
  pub market : MarketQuery
  pub limit : Text
  pub before_trade_id : Text

unfoldable pub present_trades :
    Metadata
    → ℕ
    → Result RepoError (List TradeFill)
    → Result RepoError TradeStats24h
    → Reply TradesResponse
present_trades m limit (err e) stats = refuse 500 (codes "failed to load trades")
present_trades m limit (ok items) (err e) = refuse 500 (codes "failed to load trades")
present_trades m limit (ok items) (ok stats) = sent 200 (record {
  market = m;
  stats = stats;
  trades = items;
  next_before = next_before_trade_id limit items;
})

module _ (num : Numeric) (created_at : TradeFill → ℕ) where
  module _ (sql : SqlNumeric) (day : ℕ) where
    -- The handler for a market that is known.
    unfoldable pub market_trades : ℕ → Metadata → Option ℕ → Option ℕ → Store → Reply TradesResponse
    unfolding present_trades
    market_trades now m none before s = refuse 400 (codes "limit must be between 1 and 100")
    market_trades now m (some limit) none s =
        refuse 400 (codes "before_trade_id must be a positive integer")
    market_trades now m (some limit) (some before) s =
        present_trades m limit
          (list_trades num created_at (to_lower m.asset_address) m.sub_id before limit s)
          (get_trade_stats24h sql num created_at day now (to_lower m.asset_address) m.sub_id s)

    -- `handleTrades`
    unfoldable pub handle_trades : ℕ → Option Registry → TradesQuery → Store → Reply TradesResponse
    unfolding market_trades
    handle_trades now r q s = elim (known_market r q.market) [
      | none ↦ refuse 400 (codes "unknown market")
      | some m ↦ market_trades now m (limit_of q.limit) (before_of q.before_trade_id) s
    ]

  pub record BookResponse : Type 0 where
    pub market : Metadata
    pub bids : List Order
    pub asks : List Order

  unfoldable pub present_book :
      Metadata → Result RepoError (List Order × List Order) × Store → Reply BookResponse × Store
  present_book m (err e, t) = (refuse 500 (codes "failed to load book"), t)
  present_book m (ok (bids, asks), t) =
      (sent 200 (record { market = m; bids = bids; asks = asks }), t)

  -- `handleBook`
  unfoldable pub handle_book :
      ℤ → Option Registry → MarketQuery → Store → Reply BookResponse × Store
  unfolding present_book
  handle_book now r q s = elim (known_market r q) [
    | none ↦ (refuse 400 (codes "unknown market"), s)
    | some m ↦ present_book m (list_book num (to_lower m.asset_address) m.sub_id 25 now s)
  ]

  -- `marketDiagnosticsPayload`: the counts of a market, and nothing where they cannot be loaded.
  unfoldable pub market_diagnostics_payload : Metadata → Store → Metadata × Option MarketDiagnostics
  market_diagnostics_payload m s =
      if is_empty m.asset_address
      then (m, none)
      else (elim (get_market_diagnostics num created_at m.asset_address m.sub_id s) [
        | err e ↦ (m, none)
        | ok d ↦ (m, some d)
      ])

  -- `sort.Slice` by the symbol.
  unfoldable pub insert_market : Metadata → List Metadata → List Metadata
  insert_market m [] = m ∷ []
  insert_market m (n ∷ ns) =
      let rest = insert_market m ns in if text_lt n.symbol m.symbol then n ∷ rest else m ∷ n ∷ ns

  unfoldable pub sort_markets : List Metadata → List Metadata
  unfolding insert_market
  sort_markets [] = []
  sort_markets (m ∷ ms) = insert_market m (sort_markets ms)

  -- `handleMarketDiagnostics`
  unfoldable pub handle_market_diagnostics :
      Option Registry → Store → Reply (List (Metadata × Option MarketDiagnostics))
  unfolding market_diagnostics_payload sort_markets
  handle_market_diagnostics none s = sent 200 []
  handle_market_diagnostics (some r) s =
      sent 200 (map (λ m. market_diagnostics_payload m s) (sort_markets (enabled r)))
