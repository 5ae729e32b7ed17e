-- ===== src/Tests/Oracle.antt =====
-- The oracle on an empty history: a start that finds no row, and a refresh with two candles.
use markets_service.Base.{ℕ, List, Result, ◌≡◌, refl, true, [], ◌∷◌, some, ok, err}
use markets_service.Base.Int.{pos}
use markets_service.Oracle.{
  Payload, Candle, Service, derive, last_candle, publish, refresh_candle, refresh, new_service,
  hydrate_latest, no_rows,
}
use markets_service.Oracle.Signing.{Signing, sign, canonical_bytes}
use markets_service.Oracle.Backed.{
  Runs, Runs-IsBacked, IsBacked, Distinct, starts, fails_to_hydrate, refreshes,
}
use markets_service.Oracle.Refreshed.{Ends, refresh_lem}
use markets_service.Oracle.Signed.{Verifies, Runs-Verifies}
use markets_service.Tests.Floats.{floats}
use markets_service.Text.Hex.{encode_to_string}
use markets_service.Text.{Text, codes}

abbrev signing : Signing ℕ
signing = record {
  sha256 = λ t. 1 ∷ [];
  hmac_sha256 = λ k t. 2 ∷ [];
  marshal = λ c. some c.timestamp;
  rfc3339_nano = λ t. codes "T";
}

abbrev signer : Payload ℕ → Result Text Text
signer = sign signing (codes "key")

abbrev candle : ℕ → ℕ → Candle ℕ
candle at close = record { timestamp = pos at; close = close }

abbrev answer : Result Text (List (Candle ℕ))
answer = ok (candle 60 40 ∷ candle 120 300 ∷ [])

abbrev first : Service ℕ
first = (hydrate_latest (some (err no_rows)) new_service).1

abbrev run :
    Runs floats signer []
      (refresh floats signer true (pos 130) answer first []).1
      (refresh floats signer true (pos 130) answer first []).2
run = refreshes true (pos 130) answer (fails_to_hydrate no_rows starts)

none_yet : Distinct {F = ℕ} []
unfolding Distinct
none_yet = tt

Runs-IsBacked_example :
    IsBacked
      (refresh floats signer true (pos 130) answer first []).1
      (refresh floats signer true (pos 130) answer first []).2
Runs-IsBacked_example =
    Runs-IsBacked floats signer [] (refresh floats signer true (pos 130) answer first []).1
      (refresh floats signer true (pos 130) answer first []).2 none_yet run

abbrev served : Payload ℕ
served = record (derive floats (candle 120 300)) { signature = codes "hmac-sha256:02" }

serves : (refresh floats signer true (pos 130) answer first []).1.latest ≡ some served
unfolding refresh refresh_candle publish last_candle sign canonical_bytes derive encode_to_string
serves = refl

Runs-Verifies_example : Verifies floats signing (codes "key") served
Runs-Verifies_example =
    Runs-Verifies floats signing (codes "key") []
      (refresh floats signer true (pos 130) answer first []).1
      (refresh floats signer true (pos 130) answer first []).2 served none_yet tt run serves

refresh_lem_example :
    let (reply, s', rows') = refresh floats signer true (pos 130) answer first [] in
    Ends floats signer (pos 130) answer first [] reply s' rows'
refresh_lem_example = refresh_lem floats signer true (pos 130) answer first []
