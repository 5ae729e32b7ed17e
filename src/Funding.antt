-- ===== src/Funding.antt =====
-- internal/funding/service.go: the funding rate of the variance market, from the oracle's variance and
-- the mark price of the book. Floating point is a parameter; `refresh` takes the instants of its three
-- readings of the clock.
pub mod Mark
pub mod Refreshed
use markets_service.Base.{
  ℕ, Bool, true, false, ◌||◌, List, [], ◌∷◌, Option, none, some, Result, ok, err, ◌>>=◌, ◌>>◌,
  if◌then◌else◌,
}
use markets_service.Base.Int.{ℤ}
use markets_service.Float.{Float64}
use markets_service.Instruments.{Metadata}
use markets_service.Oracle
use markets_service.Oracle.{Payload}
use markets_service.Orders.{Order, Store, RepoError, Numeric}
use markets_service.Orders.Book.{best_bid_and_ask}
use markets_service.Pricing.Variance.{VarianceError, ticks_to_variance_float64}
use markets_service.Text.{Text, codes}

pub record Snapshot (F : Type 0) : Type 0 where
  pub symbol : Text
  pub timestamp : ℤ
  pub variance_mark_price : F
  pub oracle_variance_30 : F
  pub variance_premium : F
  pub funding_rate : F
  pub paused : Bool
  pub reason : Text

pub data FundingError : Type 0 where
  book_failed : RepoError → FundingError
  bad_price : VarianceError → FundingError
  no_book oracle_unavailable : FundingError

-- `Service` without its latest snapshot.
pub record Service (F : Type 0) : Type 0 where
  pub instrument : Metadata
  pub coefficient : F
  pub cap : F

unfoldable pub of_book {κ} : {A : Type κ} → Result RepoError A → Result FundingError A
of_book (ok a) = ok a
of_book (err e) = err (book_failed e)

unfoldable pub of_price {κ} : {A : Type κ} → Result VarianceError A → Result FundingError A
of_price (ok a) = ok a
of_price (err e) = err (bad_price e)

module _ (fl : Float64) where
  open fl use {F, of_nat, plus, minus, times, divide, negate, less, max, min, abs}

  -- `NewService`
  unfoldable pub new_service : Metadata → F → F → Service F
  new_service m coefficient cap = record {
    instrument = m;
    coefficient = coefficient;
    cap = abs cap;
  }

  -- `clamp`
  unfoldable pub clamp : F → F → F → F
  clamp value floor cap = max floor (min cap value)

  -- `CalculateFunding`
  unfoldable pub calculate_funding : F → F → F → F → F
  unfolding clamp
  calculate_funding mark oracle_variance coefficient cap =
      clamp (times (minus mark oracle_variance) coefficient) (negate (abs cap)) (abs cap)

  -- `priceTicksToFloat`
  unfoldable pub price_ticks_to_float : Metadata → Text → Result FundingError F
  unfolding of_price
  price_ticks_to_float m value = of_price (ticks_to_variance_float64 fl m value)

  -- The mark price of a best bid and a best ask.
  unfoldable pub mark_price : Metadata → Option Order → Option Order → Result FundingError F
  mark_price m none none = err no_book
  mark_price m (some bid) (some ask) = do
    bid_value ← price_ticks_to_float m bid.limit_price_ticks
    ask_value ← price_ticks_to_float m ask.limit_price_ticks
    if less ask_value bid_value
        then ok bid_value
        else ok (divide (plus bid_value ask_value) (of_nat 2))
  mark_price m (some bid) none = price_ticks_to_float m bid.limit_price_ticks
  mark_price m none (some ask) = price_ticks_to_float m ask.limit_price_ticks

  unfoldable pub mark_of :
      Metadata → Result RepoError (Option Order × Option Order) → Result FundingError F
  unfolding of_book mark_price
  mark_of m book = do (bid, ask) ← of_book book; mark_price m bid ask

  -- `currentMarkPrice`, and the order store that it leaves.
  unfoldable pub current_mark_price : Numeric → Metadata → ℤ → Store → Result FundingError F × Store
  unfolding mark_of
  current_mark_price num m asked_at book =
      let answer = best_bid_and_ask num m.asset_address m.sub_id asked_at book in
      (mark_of m answer.0, answer.1)

  -- The snapshot with which `refresh` starts.
  unfoldable pub started : Service F → ℤ → Snapshot F
  started s now = record {
    symbol = s.instrument.symbol;
    timestamp = now;
    variance_mark_price = of_nat 0;
    oracle_variance_30 = of_nat 0;
    variance_premium = of_nat 0;
    funding_rate = of_nat 0;
    paused = false;
    reason = [];
  }

  -- `refresh` once the mark price is known, or is not.
  unfoldable pub with_mark :
      Service F
      → ℤ
      → Payload F
      → Result FundingError F
      → Result FundingError (Unit {0}) × Snapshot F
  unfolding started clamp
  with_mark s now p (err e) = (
    err e,
    record (started s now) {
      paused = true;
      reason = codes "mark_unavailable";
      oracle_variance_30 = p.variance_30d;
    },
  )
  with_mark s now p (ok mark) =
      let premium = minus mark p.variance_30d in
      (
        ok tt,
        record (started s now) {
          variance_mark_price = mark;
          oracle_variance_30 = p.variance_30d;
          variance_premium = premium;
          funding_rate = clamp (times premium s.coefficient) (negate s.cap) s.cap;
        },
      )

  -- `refresh`, with what the oracle answers: its payload and whether it is stale.
  unfoldable pub refresh_with :
      Numeric
      → Service F
      → ℤ
      → ℤ
      → Option (Payload F)
      → Bool
      → Store
      → Result FundingError (Unit {0}) × Snapshot F × Store
  unfolding started with_mark current_mark_price
  refresh_with num s now asked_at none oracle_stale book = (
    err oracle_unavailable,
    record (started s now) { paused = true; reason = codes "oracle_unavailable" },
    book,
  )
  refresh_with num s now asked_at (some p) true book = (
    ok tt,
    record (started s now) {
      paused = true;
      reason = codes "oracle_stale";
      oracle_variance_30 = p.variance_30d;
    },
    book,
  )
  refresh_with num s now asked_at (some p) false book =
      let (mark, book') = current_mark_price num s.instrument asked_at book in
      let (reply, snapshot) = with_mark s now p mark in (reply, snapshot, book')

  abbrev payload_stale : Option (Payload F) → Bool
  payload_stale none = false
  payload_stale (some p) = p.stale

  -- `refresh` with the oracle's service: the snapshot that it stores, and the order store after it.
  -- The oracle's payload is read at `read_at`.
  unfoldable pub refresh :
      Numeric
      → Service F
      → ℤ
      → Oracle.Service F
      → ℤ
      → ℤ
      → ℤ
      → Store
      → Result FundingError (Unit {0}) × Snapshot F × Store
  unfolding refresh_with
  refresh num s stale_after oracle now read_at asked_at book =
      let payload = Oracle.latest_at stale_after read_at oracle in
      refresh_with num s now asked_at payload
        (Oracle.is_stale stale_after now oracle || payload_stale payload) book
