-- ===== src/Oracle.antt =====
-- internal/oracles/btcvar30: the oracle of the 30-day variance of BTC: its history table and its
-- service. Floating point, the candles of the market data client and the signer are parameters, and
-- so is whether the database answers. Instants count from Go's zero time.
pub mod Backed
pub mod Refreshed
pub mod Signed
pub mod Signing
use markets_service.Base.{
  ℕ, Bool, true, false, ◌&&◌, List, [], ◌∷◌, ◌++◌, map, take, Option, none, some, Result, ok, err,
  ◌>>=◌, ◌>>◌, or_error, fail_if, if◌then◌else◌,
}
use markets_service.Base.Int.{ℤ, pos, ◌-ℤ◌, ltb_ℤ, leb_ℤ, eqb_ℤ, pos_part}
use markets_service.Float.{Float64}
use markets_service.Pricing.Variance.{vol_percent_to_variance}
use markets_service.Text.{Text, codes, text_eq, is_empty, trim_space}
use markets_service.Text.Hex.{Bytes, encode_to_string}

pub record Payload (F : Type 0) : Type 0 where
  pub symbol : Text
  pub source : Text
  pub timestamp : ℤ
  pub vol_30d : F
  pub variance_30d : F
  pub methodology_version : Text
  pub signature : Text
  pub stale : Bool

-- A candle of the volatility index: its time and its closing value.
pub record Candle (F : Type 0) : Type 0 where
  pub timestamp : ℤ
  pub close : F

pub data OracleError : Type 0 where
  client_failed sign_failed persist_failed : Text → OracleError
  no_candles no_rows not_configured : OracleError

-- `Service`: `none` is a service that has no latest payload.
pub record Service (F : Type 0) : Type 0 where
  pub latest : Option (Payload F)
  pub last_success_at : ℤ
  pub last_failure_at : ℤ
  pub last_update_error : Option Text

-- The table `oracle_btcvar30_history`.
abbrev pub Table : Type 0 → Type 0
Table F = List (Payload F)

module _ {F : Type 0} where
  abbrev pub same_key : Payload F → Payload F → Bool
  same_key p q = text_eq p.symbol q.symbol && eqb_ℤ p.timestamp q.timestamp

  -- `Insert`: the row of a symbol and a time is replaced.
  unfoldable pub upsert : Payload F → Table F → Table F
  upsert p [] = p ∷ []
  upsert p (q ∷ qs) = let rest = upsert p qs in if same_key q p then p ∷ qs else q ∷ rest

  unfoldable pub insert_newest : Payload F → Table F → Table F
  insert_newest p [] = p ∷ []
  insert_newest p (q ∷ qs) =
      let rest = insert_newest p qs in
      if ltb_ℤ p.timestamp q.timestamp then q ∷ rest else p ∷ q ∷ qs

  -- `order by observed_at desc`
  unfoldable pub by_newest : Table F → Table F
  unfolding insert_newest
  by_newest [] = []
  by_newest (p ∷ ps) = insert_newest p (by_newest ps)

  abbrev pub first_payload : Table F → Result OracleError (Payload F)
  first_payload [] = err no_rows
  first_payload (p ∷ ps) = ok p

  -- `Latest` of the repository.
  unfoldable pub latest_row : Table F → Result OracleError (Payload F)
  latest_row rows = first_payload (take 1 (by_newest rows))

  -- `History` of the repository.
  unfoldable pub history_rows : ℤ → Table F → Table F
  history_rows limit rows =
      take (if leb_ℤ limit (pos 0) then 100 else pos_part limit) (by_newest rows)

  -- The service that `NewService` makes.
  abbrev pub new_service : Service F
  new_service = record {
    latest = none;
    last_success_at = pos 0;
    last_failure_at = pos 0;
    last_update_error = none;
  }

  -- What `hydrateLatest` does once the payload is read, where the service holds a payload or none.
  unfoldable pub hydrate_from : Option (Payload F) → Payload F → Service F → Service F
  hydrate_from (some held) p s = s
  hydrate_from none p s = record s { latest = some p; last_success_at = p.timestamp }

  -- `hydrateLatest`, with what the repository answers; `none` is a service without a repository.
  unfoldable pub hydrate_latest :
      Option (Result OracleError (Payload F))
      → Service F
      → Result OracleError (Unit {0}) × Service F
  unfolding hydrate_from
  hydrate_latest none s = (ok tt, s)
  hydrate_latest (some (err e)) s = (err e, s)
  hydrate_latest (some (ok p)) s = (ok tt, hydrate_from s.latest p s)

  -- `time.Since(reference) > staleAfter`, where the reference may be missing.
  unfoldable pub is_older : ℤ → ℤ → Service F → Payload F → Bool
  is_older stale_after at s p =
      let reference = if eqb_ℤ s.last_success_at (pos 0) then p.timestamp else s.last_success_at in
      ltb_ℤ stale_after (at -ℤ reference)

  -- `Latest` of the service.
  unfoldable pub latest_at : ℤ → ℤ → Service F → Option (Payload F)
  unfolding is_older
  latest_at stale_after now s = elim (s.latest) [
    | none ↦ none
    | some p ↦ some (record p { stale = is_older stale_after now s p })
  ]

  -- `IsStale`
  unfoldable pub is_stale : ℤ → ℤ → Service F → Bool
  unfolding is_older
  is_stale stale_after at s = elim (s.latest) [ none ↦ true | some p ↦ is_older stale_after at s p ]

  -- `History` of the service.
  unfoldable pub history_at : ℤ → ℤ → Table F → ℤ → Table F
  unfolding history_rows
  history_at stale_after now rows limit =
      map (λ (p : Payload F). record p { stale = ltb_ℤ stale_after (now -ℤ p.timestamp) })
        (history_rows limit rows)

module _ (fl : Float64) where
  open fl use {F}

  -- `Derive` and the payload of a candle, not signed yet.
  unfoldable pub derive : Candle F → Payload F
  derive c = record {
    symbol = codes "BTCVAR30";
    source = codes "deribit";
    timestamp = c.timestamp;
    vol_30d = c.close;
    variance_30d = vol_percent_to_variance fl c.close;
    methodology_version = codes "deribit-vol-index-v1";
    signature = [];
    stale = false;
  }

  unfoldable pub last_candle : List (Candle F) → Option (Candle F)
  last_candle [] = none
  last_candle (c ∷ cs) = elim (last_candle cs) [ none ↦ some c | some d ↦ some d ]

  -- `Refresh` with its payload, signed or not: the service and the table after it. `commits` says
  -- whether the insert succeeds.
  unfoldable pub publish :
      Bool
      → ℤ
      → Payload F
      → Result Text Text
      → Service F
      → Table F
      → Result OracleError (Unit {0}) × Service F × Table F
  publish commits now p (err e) s rows = (err (sign_failed e), s, rows)
  publish false now p (ok signature) s rows = (err (persist_failed []), s, rows)
  publish true now p (ok signature) s rows = (
    ok tt,
    record s {
      latest = some (record p { signature = signature });
      last_success_at = now;
      last_update_error = none;
    },
    upsert (record p { signature = signature }) rows,
  )

  -- `Refresh` with the last candle.
  unfoldable pub refresh_candle :
      (Payload F → Result Text Text)
      → Bool
      → ℤ
      → Option (Candle F)
      → Service F
      → Table F
      → Result OracleError (Unit {0}) × Service F × Table F
  unfolding publish
  refresh_candle signer commits now none s rows = (err no_candles, s, rows)
  refresh_candle signer commits now (some c) s rows =
      publish commits now (derive c) (signer (derive c)) s rows

  -- `Refresh`, with what the client answers.
  unfoldable pub refresh :
      (Payload F → Result Text Text)
      → Bool
      → ℤ
      → Result Text (List (Candle F))
      → Service F
      → Table F
      → Result OracleError (Unit {0}) × Service F × Table F
  unfolding refresh_candle
  refresh signer commits now (err e) s rows =
      (err (client_failed e), record s { last_failure_at = now; last_update_error = some e }, rows)
  refresh signer commits now (ok candles) s rows =
      refresh_candle signer commits now (last_candle candles) s rows
