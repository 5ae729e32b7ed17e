-- ===== src/Oracle/Backed.antt =====
-- What the service serves is what its history table holds.
use markets_service.Base.{
  ◌≡◌, refl, sym, ◌∙◌, Bool, Bool-cases, true, false, List, [], ◌∷◌, take, Option, none, some,
  Result, ok, err, ◌⊎◌, inl, inr, All, Member, ok_inj, arith,
}
use markets_service.Base.Int.{ℤ, eqb_ℤ, ltb_ℤ, eq_of_parts}
use markets_service.Float.{Float64}
use markets_service.Oracle.{
  Payload, Candle, Service, Table, OracleError, same_key, upsert, insert_newest, by_newest,
  first_payload, latest_row, new_service, hydrate_from, hydrate_latest, derive, last_candle,
  publish, refresh_candle, refresh,
}
use markets_service.Text.{Text}
use markets_service.Text.Laws.{text_eq_iff}

equal_times : (a b : ℤ) → eqb_ℤ a b ≡ true → a ≡ b
equal_times a b h = eq_of_parts a b (ground arith)

some_inj : {A : Type 0} {a b : A} → ◌≡◌ {A = Option A} (some a) (some b) → a ≡ b
some_inj h = cc

module _ {F : Type 0} where
  -- No two rows share a symbol and a time.
  unfoldable pub Distinct : Table F → Type 0
  Distinct [] = Unit {0}
  Distinct (q ∷ qs) = All (λ r. same_key q r ≡ false) qs × Distinct qs

  key_of : (q p r : Payload F) → same_key q p ≡ true → same_key q r ≡ same_key p r
  key_of q p r h =
      let symbols : q.symbol ≡ p.symbol = (text_eq_iff q.symbol p.symbol).0 (ground arith) in
      let times : q.timestamp ≡ p.timestamp = equal_times q.timestamp p.timestamp (ground arith) in
      rw (symbols, times) refl

  upsert-apart :
      (q p : Payload F) (qs : Table F)
      → same_key q p ≡ false
      → All (λ r. same_key q r ≡ false) qs
      → All (λ r. same_key q r ≡ false) (upsert p qs)
  unfolding upsert
  upsert-apart q p [] h a = (h, tt)
  upsert-apart q p (x ∷ qs) h a = elim (Bool-cases (same_key x p)) [
    | inl e ↦ rw e (h, a.1)
    | inr e ↦ rw e (a.0, upsert-apart q p qs h a.1)
  ]

  rekeyed :
      (q p : Payload F) (qs : Table F)
      → same_key q p ≡ true
      → All (λ r. same_key q r ≡ false) qs
      → All (λ r. same_key p r ≡ false) qs
  rekeyed q p [] h a = tt
  rekeyed q p (r ∷ qs) h a = (sym (key_of q p r h) ∙ a.0, rekeyed q p qs h a.1)

  upsert-Distinct : (p : Payload F) (qs : Table F) → Distinct qs → Distinct (upsert p qs)
  unfolding Distinct upsert
  upsert-Distinct p [] h = (tt, tt)
  upsert-Distinct p (q ∷ qs) h = elim (Bool-cases (same_key q p)) [
    | inl e ↦ rw e (rekeyed q p qs e h.0, h.1)
    | inr e ↦ rw e (upsert-apart q p qs e h.0, upsert-Distinct p qs h.1)
  ]

  Member-upsert : (p : Payload F) (qs : Table F) → Member p (upsert p qs)
  unfolding upsert
  Member-upsert p [] = inl refl
  Member-upsert p (q ∷ qs) = elim (Bool-cases (same_key q p)) [
    | inl e ↦ rw e (inl refl)
    | inr e ↦ rw e (inr (Member-upsert p qs))
  ]

  Member_of_insert_newest :
      (x p : Payload F) (qs : Table F) → Member x (insert_newest p qs) → (x ≡ p) ⊎ Member x qs
  unfolding insert_newest
  Member_of_insert_newest x p [] m = m
  Member_of_insert_newest x p (q ∷ qs) m = elim (Bool-cases (ltb_ℤ p.timestamp q.timestamp)) [
    | inr e ↦ rw e at m
    | inl e ↦ elim (rw e at m) [
      | inl same ↦ inr (inl same)
      | inr below ↦ elim (Member_of_insert_newest x p qs below) [
        | inl same ↦ inl same
        | inr there ↦ inr (inr there)
      ]
    ]
  ]

  Member_of_by_newest : (x : Payload F) (qs : Table F) → Member x (by_newest qs) → Member x qs
  unfolding by_newest
  Member_of_by_newest x [] m = m
  Member_of_by_newest x (q ∷ qs) m = elim (Member_of_insert_newest x q (by_newest qs) m) [
    | inl same ↦ inl same
    | inr there ↦ inr (Member_of_by_newest x qs there)
  ]

  first_payload-Member :
      (x : Payload F) (qs : Table F) → first_payload (take 1 qs) ≡ ok x → Member x qs
  first_payload-Member x [] h = absurd (cc)
  first_payload-Member x (q ∷ qs) h = inl (sym (ok_inj h))

  latest_row-Member : (x : Payload F) (qs : Table F) → latest_row qs ≡ ok x → Member x qs
  unfolding latest_row
  latest_row-Member x qs h = Member_of_by_newest x qs (first_payload-Member x (by_newest qs) h)

  -- The table has one row of each symbol and time, and holds the latest payload.
  pub record IsBacked (s : Service F) (rows : Table F) : Type 0 where
    pub distinct : Distinct rows
    pub held : (p : Payload F) → s.latest ≡ some p → Member p rows

  hydrate_from-IsBacked :
      (l : Option (Payload F)) (p : Payload F) (s : Service F) (rows : Table F)
      → Member p rows
      → IsBacked s rows
      → IsBacked (hydrate_from l p s) rows
  unfolding hydrate_from
  hydrate_from-IsBacked (some held) p s rows m b = b
  hydrate_from-IsBacked none p s rows m b = record {
    distinct = b.distinct;
    held = λ q same. rw (← some_inj same) m;
  }

  hydrate_latest-IsBacked :
      (answer : Option (Result OracleError (Payload F))) (s : Service F) (rows : Table F)
      → ((p : Payload F) → answer ≡ some (ok p) → Member p rows)
      → IsBacked s rows
      → IsBacked (hydrate_latest answer s).1 rows
  unfolding hydrate_latest
  hydrate_latest-IsBacked none s rows read b = b
  hydrate_latest-IsBacked (some (err e)) s rows read b = b
  hydrate_latest-IsBacked (some (ok p)) s rows read b =
      hydrate_from-IsBacked s.latest p s rows (read p refl) b

module _ (fl : Float64) (signer : Payload fl.F → Result Text Text) where
  -- What the service does: it starts with the table as it is, reads the table's latest row, which may
  -- fail, and refreshes with any answer of the client.
  pub data Runs (rows₀ : Table fl.F) : Service fl.F → Table fl.F → Type 0 where
    starts : Runs rows₀ new_service rows₀
    hydrates :
        {s : Service fl.F} {rows : Table fl.F}
        → Runs rows₀ s rows
        → Runs rows₀ (hydrate_latest (some (latest_row rows)) s).1 rows
    fails_to_hydrate :
        {s : Service fl.F} {rows : Table fl.F} (e : OracleError)
        → Runs rows₀ s rows
        → Runs rows₀ (hydrate_latest (some (err e)) s).1 rows
    refreshes :
        {s : Service fl.F} {rows : Table fl.F} (commits : Bool) (now : ℤ)
        (answer : Result Text (List (Candle fl.F)))
        → Runs rows₀ s rows
        → Runs rows₀
            (refresh fl signer commits now answer s rows).1
            (refresh fl signer commits now answer s rows).2

  publish-IsBacked :
      (commits : Bool) (now : ℤ) (p : Payload fl.F) (signed : Result Text Text) (s : Service fl.F)
      (rows : Table fl.F)
      → IsBacked s rows
      → IsBacked
          (publish fl commits now p signed s rows).1
          (publish fl commits now p signed s rows).2
  unfolding publish
  publish-IsBacked commits now p (err e) s rows b = b
  publish-IsBacked false now p (ok g) s rows b = b
  publish-IsBacked true now p (ok g) s rows b = record {
    distinct = upsert-Distinct (record p { signature = g }) rows b.distinct;
    held = λ q same. rw (← some_inj same) (Member-upsert (record p { signature = g }) rows);
  }

  refresh_candle-IsBacked :
      (commits : Bool) (now : ℤ) (c : Option (Candle fl.F)) (s : Service fl.F) (rows : Table fl.F)
      → IsBacked s rows
      → IsBacked
          (refresh_candle fl signer commits now c s rows).1
          (refresh_candle fl signer commits now c s rows).2
  unfolding refresh_candle
  refresh_candle-IsBacked commits now none s rows b = b
  refresh_candle-IsBacked commits now (some c) s rows b =
      publish-IsBacked commits now (derive fl c) (signer (derive fl c)) s rows b

  refresh-IsBacked :
      (commits : Bool) (now : ℤ) (answer : Result Text (List (Candle fl.F))) (s : Service fl.F)
      (rows : Table fl.F)
      → IsBacked s rows
      → IsBacked
          (refresh fl signer commits now answer s rows).1
          (refresh fl signer commits now answer s rows).2
  unfolding refresh
  refresh-IsBacked commits now (err e) s rows b = record { distinct = b.distinct; held = b.held }
  refresh-IsBacked commits now (ok cs) s rows b =
      refresh_candle-IsBacked commits now (last_candle fl cs) s rows b

  -- From a table without two rows of one symbol and time, whatever the client answers, whether inserts
  -- commit, and however hydrating ends: the table keeps one row of each symbol and time, and the
  -- payload that the service serves is a row of it.
  pub Runs-IsBacked :
      (rows₀ : Table fl.F) (s : Service fl.F) (rows : Table fl.F)
      → Distinct rows₀
      → Runs rows₀ s rows
      → IsBacked s rows
  Runs-IsBacked rows₀ s rows d starts = record { distinct = d; held = λ p h. absurd (cc) }
  Runs-IsBacked rows₀ s rows d (hydrates {s = before} r) =
      hydrate_latest-IsBacked (some (latest_row rows)) before rows
        (λ p h. latest_row-Member p rows (some_inj h)) (Runs-IsBacked rows₀ before rows d r)
  Runs-IsBacked rows₀ s rows d (fails_to_hydrate {s = before} e r) =
      hydrate_latest-IsBacked (some (err e)) before rows (λ p h. absurd (cc (some_inj h)))
        (Runs-IsBacked rows₀ before rows d r)
  Runs-IsBacked rows₀ s rows d (refreshes {s = before} {rows = old} commits now answer r) =
      refresh-IsBacked commits now answer before old (Runs-IsBacked rows₀ before old d r)
