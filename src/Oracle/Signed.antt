-- ===== src/Oracle/Signed.antt =====
-- What the service serves carries the signature of what it serves.
use markets_service.Base.{
  ◌≡◌, refl, ◌∙◌, Bool, Bool-cases, true, false, [], ◌∷◌, Option, none, some, Result, ok, err, inl,
  inr, All, All-Member,
}
use markets_service.Base.Int.{ℤ}
use markets_service.Float.{Float64}
use markets_service.Oracle.{
  Payload, Candle, Service, Table, same_key, upsert, derive, last_candle, publish, refresh_candle,
  refresh,
}
use markets_service.Oracle.Signing.{Signing, sign}
use markets_service.Oracle.Backed.{
  Distinct, Runs, Runs-IsBacked, starts, hydrates, fails_to_hydrate, refreshes,
}
use markets_service.Text.{Text}

module _ (fl : Float64) (g : Signing fl.F) (secret : Text) where
  -- The signature of a payload is the one that the signer gives it.
  abbrev pub Verifies : Payload fl.F → Type 0
  Verifies p = sign g secret p ≡ ok p.signature

  -- A payload is signed without its signature.
  sign-signed :
      (p : Payload fl.F) (s : Text) → sign g secret (record p { signature = s }) ≡ sign g secret p
  unfolding sign
  sign-signed p s = refl

  upsert-All-Verifies :
      (p : Payload fl.F) (rows : Table fl.F)
      → Verifies p
      → All Verifies rows
      → All Verifies (upsert p rows)
  unfolding upsert
  upsert-All-Verifies p [] v a = (v, tt)
  upsert-All-Verifies p (q ∷ qs) v a = elim (Bool-cases (same_key q p)) [
    | inl e ↦ rw e (v, a.1)
    | inr e ↦ rw e (a.0, upsert-All-Verifies p qs v a.1)
  ]

  publish-All-Verifies :
      (commits : Bool) (now : ℤ) (p : Payload fl.F) (r : Result Text Text) (s : Service fl.F)
      (rows : Table fl.F)
      → sign g secret p ≡ r
      → All Verifies rows
      → All Verifies (publish fl commits now p r s rows).2
  unfolding publish
  publish-All-Verifies commits now p (err e) s rows q a = a
  publish-All-Verifies false now p (ok t) s rows q a = a
  publish-All-Verifies true now p (ok t) s rows q a =
      upsert-All-Verifies (record p { signature = t }) rows (sign-signed p t ∙ q) a

  refresh-All-Verifies :
      (commits : Bool) (now : ℤ) (c : Option (Candle fl.F)) (s : Service fl.F) (rows : Table fl.F)
      → All Verifies rows
      → All Verifies (refresh_candle fl (sign g secret) commits now c s rows).2
  unfolding refresh_candle
  refresh-All-Verifies commits now none s rows a = a
  refresh-All-Verifies commits now (some c) s rows a =
      publish-All-Verifies commits now (derive fl c) (sign g secret (derive fl c)) s rows refl a

  rows-Verify :
      (rows₀ : Table fl.F) (s : Service fl.F) (rows : Table fl.F)
      → All Verifies rows₀
      → Runs fl (sign g secret) rows₀ s rows
      → All Verifies rows
  unfolding refresh
  rows-Verify rows₀ s rows a starts = a
  rows-Verify rows₀ s rows a (hydrates {s = before} r) = rows-Verify rows₀ before rows a r
  rows-Verify rows₀ s rows a (fails_to_hydrate {s = before} e r) = rows-Verify rows₀ before rows a r
  rows-Verify rows₀ s rows a (refreshes {s = before} {rows = old} commits now (err e) r) =
      rows-Verify rows₀ before old a r
  rows-Verify rows₀ s rows a (refreshes {s = before} {rows = old} commits now (ok cs) r) =
      refresh-All-Verifies commits now (last_candle fl cs) before old
        (rows-Verify rows₀ before old a r)

  -- From a table whose rows carry their signatures and differ in symbol or time, whatever the client
  -- and the database answer: the payload that the service serves carries the signature that the signer
  -- gives it, so it may be checked by signing it again.
  pub Runs-Verifies :
      (rows₀ : Table fl.F) (s : Service fl.F) (rows : Table fl.F) (p : Payload fl.F)
      → Distinct rows₀
      → All Verifies rows₀
      → Runs fl (sign g secret) rows₀ s rows
      → s.latest ≡ some p
      → Verifies p
  Runs-Verifies rows₀ s rows p d a r served =
      All-Member Verifies p rows (rows-Verify rows₀ s rows a r)
        ((Runs-IsBacked fl (sign g secret) rows₀ s rows d r).held p served)
