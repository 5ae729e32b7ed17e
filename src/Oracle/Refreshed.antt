-- ===== src/Oracle/Refreshed.antt =====
-- What a refresh leaves, and how long its payload is fresh.
use markets_service.Base.{◌≡◌, refl, Bool, true, false, List, Option, none, some, Result, ok, err}
use markets_service.Base.Int.{ℤ}
use markets_service.Float.{Float64}
use markets_service.Oracle.{
  Payload, Candle, Service, Table, OracleError, derive, last_candle, publish, refresh_candle,
  refresh, upsert,
}
use markets_service.Text.{Text}

module _ (fl : Float64) (signer : Payload fl.F → Result Text Text) where
  -- The refresh failed: the service serves what it served, since when it did, and the table is as it
  -- was.
  pub record IsKept (s s' : Service fl.F) (rows rows' : Table fl.F) : Type 0 where
    pub same_latest : s'.latest ≡ s.latest
    pub same_success : s'.last_success_at ≡ s.last_success_at
    pub same_rows : rows' ≡ rows

  -- The refresh published the last candle, signed.
  pub record IsPublished (now : ℤ) (candles : List (Candle fl.F)) (s' : Service fl.F)
      (rows rows' : Table fl.F) : Type 0 where
    pub candle : Candle fl.F
    pub signature : Text
    pub is_last : last_candle fl candles ≡ some candle
    pub signed : signer (derive fl candle) ≡ ok signature
    pub serves : s'.latest ≡ some (record (derive fl candle) { signature = signature })
    pub at : s'.last_success_at ≡ now
    pub no_error : s'.last_update_error ≡ none
    pub stored : rows' ≡ upsert (record (derive fl candle) { signature = signature }) rows

  -- How a refresh ends.
  abbrev pub Ends :
      ℤ
      → Result Text (List (Candle fl.F))
      → Service fl.F
      → Table fl.F
      → Result OracleError (Unit {0})
      → Service fl.F
      → Table fl.F
      → Type 0
  Ends now answer s rows (err e) s' rows' = IsKept s s' rows rows'
  Ends now (err e) s rows (ok u) s' rows' = ⊥
  Ends now (ok candles) s rows (ok u) s' rows' = IsPublished now candles s' rows rows'

  published :
      (commits : Bool) (now : ℤ) (candles : List (Candle fl.F)) (c : Candle fl.F) (s : Service fl.F)
      (rows : Table fl.F) (r : Result Text Text)
      → last_candle fl candles ≡ some c
      → signer (derive fl c) ≡ r
      → let (reply, s', rows') = publish fl commits now (derive fl c) r s rows in
        Ends now (ok candles) s rows reply s' rows'
  unfolding publish
  published commits now candles c s rows (err e) last q = record {
    same_latest = refl;
    same_success = refl;
    same_rows = refl;
  }
  published false now candles c s rows (ok g) last q = record {
    same_latest = refl;
    same_success = refl;
    same_rows = refl;
  }
  published true now candles c s rows (ok g) last q = record {
    candle = c;
    signature = g;
    is_last = last;
    signed = q;
    serves = refl;
    at = refl;
    no_error = refl;
    stored = refl;
  }

  candle_published :
      (commits : Bool) (now : ℤ) (candles : List (Candle fl.F)) (s : Service fl.F)
      (rows : Table fl.F) (c : Option (Candle fl.F))
      → last_candle fl candles ≡ c
      → let (reply, s', rows') = refresh_candle fl signer commits now c s rows in
        Ends now (ok candles) s rows reply s' rows'
  unfolding refresh_candle
  candle_published commits now candles s rows none q = record {
    same_latest = refl;
    same_success = refl;
    same_rows = refl;
  }
  candle_published commits now candles s rows (some c) q =
      published commits now candles c s rows (signer (derive fl c)) q refl

  -- A refresh that fails, by the client, for want of a candle, by the signer or by the database, leaves
  -- the payload that is served, its time and the table as they were; one that succeeds serves and
  -- stores the last candle of the answer, signed, and clears the error.
  pub refresh_lem :
      (commits : Bool) (now : ℤ) (answer : Result Text (List (Candle fl.F))) (s : Service fl.F)
      (rows : Table fl.F)
      → let (reply, s', rows') = refresh fl signer commits now answer s rows in
        Ends now answer s rows reply s' rows'
  unfolding refresh
  refresh_lem commits now (err e) s rows = record {
    same_latest = refl;
    same_success = refl;
    same_rows = refl;
  }
  refresh_lem commits now (ok candles) s rows =
      candle_published commits now candles s rows (last_candle fl candles) refl
