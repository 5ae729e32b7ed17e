-- ===== src/Orders/History/Stats.antt =====
-- internal/orders/repository.go: `GetTradeStats24h`. PostgreSQL's `numeric` and the length of a day
-- are parameters.
use markets_service.Base.{
  ℕ, ◌+◌, Bool, ◌&&◌, List, [], ◌∷◌, select, Option, none, some, Result, ok, ◌>>=◌, ◌>>◌, or_error,
  leb, if◌then◌else◌,
}
use markets_service.Orders.{TradeFill, Store, RepoError, bad_numeric, Numeric}
use markets_service.Orders.History.{of_market, newest_first}
use markets_service.Text.{Text, to_lower}

-- `numeric`: a text cast to it, its text, its order, and its sums and differences.
pub record SqlNumeric : Type 1 where
  pub N : Type 0
  pub cast : Text → Option N
  pub text : N → Text
  pub less : N → N → Bool
  pub plus : N → N → N
  pub minus : N → N → N

pub record TradeStats24h : Type 0 where
  pub change : Text
  pub high : Text
  pub last : Text
  pub low : Text
  pub volume : Text

module _ (sql : SqlNumeric) where
  open sql use {N, cast, text, less, plus, minus}

  -- A column of the rows, cast.
  unfoldable pub casts : (TradeFill → Text) → List TradeFill → Result RepoError (List N)
  casts column [] = ok []
  casts column (f ∷ fs) = do
    value ← or_error (cast (column f)) bad_numeric
    rest ← casts column fs
    ok (value ∷ rest)

  -- An aggregate of the values, `none` where there is none.
  unfoldable pub aggregate : (N → N → N) → List N → Option N
  aggregate f [] = none
  aggregate f (x ∷ xs) = elim (aggregate f xs) [ none ↦ some x | some y ↦ some (f x y) ]

  abbrev pub greater_of : N → N → N
  greater_of a b = if less a b then b else a

  abbrev pub lesser_of : N → N → N
  lesser_of a b = if less b a then b else a

  -- `coalesce(value::text, '')`
  abbrev pub text_or_empty : Option N → Text
  text_or_empty none = []
  text_or_empty (some x) = text x

  abbrev pub first_value : List N → Option N
  first_value [] = none
  first_value (x ∷ xs) = some x

  unfoldable pub last_value : List N → Option N
  last_value [] = none
  last_value (x ∷ xs) = elim (last_value xs) [ none ↦ some x | some y ↦ some y ]

  unfoldable pub difference : Option N → Option N → Option N
  difference (some a) (some b) = some (minus a b)
  difference _ _ = none

  -- `GetTradeStats24h`: prices from the newest to the oldest.
  unfoldable pub get_trade_stats24h :
      Numeric → (TradeFill → ℕ) → ℕ → ℕ → Text → Text → Store → Result RepoError TradeStats24h
  get_trade_stats24h num created_at day now asset sub s = do
    or_error (num.stored sub) bad_numeric
    let recent = newest_first num created_at (
        select
          (λ f. of_market num created_at (to_lower asset) sub f && leb now (created_at f + day))
          s.fills)
    prices ← casts (λ f. f.price) recent
    sizes ← casts (λ f. f.size) recent
    ok (record {
      last = text_or_empty (first_value prices);
      high = text_or_empty (aggregate greater_of prices);
      low = text_or_empty (aggregate lesser_of prices);
      volume = text_or_empty (aggregate plus sizes);
      change = text_or_empty (difference (first_value prices) (last_value prices));
    })
