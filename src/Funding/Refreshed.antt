-- ===== src/Funding/Refreshed.antt =====
-- What a refresh of the funding rate stores.
use markets_service.Base.{
  ◌≡◌, Option-cases, refl, Bool-cases, true, false, ◌||◌, some, Result, ok, err, ◌⊎◌, inl, inr,
  arith,
}
use markets_service.Base.Int.{ℤ}
use markets_service.Float.{Float64}
use markets_service.Funding.{
  Snapshot, FundingError, Service, new_service, clamp, calculate_funding, current_mark_price,
  with_mark, refresh_with, refresh,
}
use markets_service.Funding.Mark.{FloatOrder, current_mark_price_sign}
use markets_service.Instruments.{Metadata}
use markets_service.Oracle
use markets_service.Oracle.{Payload}
use markets_service.Orders.{Store, Numeric}

module _ (fl : Float64) where
  open fl use {F, of_nat, minus, negate, less, abs}

  -- The value is not below minus the magnitude of the cap, and not above its magnitude.
  abbrev pub Bounded : F → F → Type 0
  Bounded cap v = (less v (negate (abs cap)) ≡ false) × (less (abs cap) v ≡ false)

  calculate_funding-Bounded :
      FloatOrder fl
      → (mark oracle_variance coefficient cap : F)
      → Bounded cap (calculate_funding fl mark oracle_variance coefficient cap)
  unfolding calculate_funding clamp
  calculate_funding-Bounded law mark oracle_variance coefficient cap =
      (law.max_above _ _, law.max_below _ _ _ (law.abs_around cap) (law.min_below _ _))

  -- The snapshot has the payload's variance, a mark price that is not negative, and their rate.
  pub record IsPriced (s : Service F) (now : ℤ) (p : Payload F) (mark : Result FundingError F)
      (snap : Snapshot F) : Type 0 where
    pub marked : mark ≡ ok snap.variance_mark_price
    pub mark_sign : less snap.variance_mark_price (of_nat 0) ≡ false
    pub at : snap.timestamp ≡ now
    pub of_oracle : snap.oracle_variance_30 ≡ p.variance_30d
    pub premium : snap.variance_premium ≡ minus snap.variance_mark_price p.variance_30d
    pub rate :
        snap.funding_rate
        ≡ clamp fl (fl.times snap.variance_premium s.coefficient) (negate s.cap) s.cap

  -- The refresh ends without a rate, or with the rate of this payload and mark price, and no error.
  abbrev pub Ends :
      Service F
      → ℤ
      → Payload F
      → Result FundingError F
      → Result FundingError (Unit {0}) × Snapshot F
      → Type 0
  Ends s now p mark (reply, snap) =
      ((snap.paused ≡ true) × (snap.funding_rate ≡ of_nat 0))
      ⊎ ((snap.paused ≡ false) × (reply ≡ ok tt) × IsPriced s now p mark snap)

  with_mark-Ends :
      (s : Service F) (now : ℤ) (p : Payload F) (mark : Result FundingError F)
      → ((v : F) → mark ≡ ok v → less v (of_nat 0) ≡ false)
      → Ends s now p mark (with_mark fl s now p mark)
  unfolding with_mark
  with_mark-Ends s now p (err e) sign = inl (refl, refl)
  with_mark-Ends s now p (ok v) sign = inr (
    refl,
    refl,
    record {
      marked = refl;
      mark_sign = sign v refl;
      at = refl;
      of_oracle = refl;
      premium = refl;
      rate = refl;
    },
  )

  -- What the refresh used of the oracle: a payload that it serves, and that is not stale.
  pub record IsServed (oracle : Oracle.Service F) (stale_after now read_at : ℤ) (p : Payload F)
      : Type 0 where
    pub serves : Oracle.latest_at stale_after read_at oracle ≡ some p
    pub is_fresh : Oracle.is_stale stale_after now oracle ≡ false
    pub still_fresh : p.stale ≡ false

  -- Whatever the oracle and the book hold: a refresh stores a snapshot that is paused, with the rate 0,
  -- or it returns no error and stores one that is not paused, from a payload that the oracle serves and
  -- that is stale by neither of its tests, and the mark price of the book, which is not negative: the
  -- premium is their difference, and the rate is the premium by the coefficient, clamped.
  pub refresh-Ends :
      FloatOrder fl
      → (num : Numeric) (s : Service F) (stale_after : ℤ) (oracle : Oracle.Service F)
        (now read_at asked_at : ℤ) (book : Store)
      → let (reply, snap, book') = refresh fl num s stale_after oracle now read_at asked_at book in
        ((snap.paused ≡ true) × (snap.funding_rate ≡ of_nat 0))
        ⊎ ((snap.paused ≡ false)
            × (reply ≡ ok tt)
            × (p : Payload F) × IsServed oracle stale_after now read_at p
            × IsPriced s now p (current_mark_price fl num s.instrument asked_at book).0 snap)
  unfolding refresh refresh_with
  refresh-Ends law num s stale_after oracle now read_at asked_at book =
      elim (Option-cases (Oracle.latest_at stale_after read_at oracle)) [
        | inl e ↦ rw e (inl (refl, refl))
        | inr (p, e) ↦ elim (Bool-cases (Oracle.is_stale stale_after now oracle || p.stale)) [
          | inl old ↦ rw (e, old) (inl (refl, refl))
          | inr fresh ↦
              elim (with_mark-Ends s now p (current_mark_price fl num s.instrument asked_at book).0
                (current_mark_price_sign fl law num s.instrument asked_at book)) [
                  | inl paused ↦ rw (e, fresh) (inl paused)
                  | inr (runs, replies, priced) ↦
                      rw (e, fresh)
                        (inr (
                          runs,
                          replies,
                          p,
                          record {
                            serves = e;
                            is_fresh = ground arith;
                            still_fresh = ground arith;
                          },
                          priced,
                        ))
                ]
        ]
      ]

  priced_rate :
      (m : Metadata) (coefficient cap : F) (now : ℤ) (p : Payload F) (mark : Result FundingError F)
      (snap : Snapshot F)
      → IsPriced (new_service fl m coefficient cap) now p mark snap
      → snap.funding_rate
        ≡ calculate_funding fl snap.variance_mark_price snap.oracle_variance_30 coefficient cap
  unfolding new_service calculate_funding
  priced_rate m coefficient cap now p mark snap x = rw (x.rate, x.premium, x.of_oracle) refl

  -- A service with any cap: the rate that a refresh stores is neither below minus the cap's magnitude
  -- nor above it, also where floating point overflows; and it is 0 and paused, or what
  -- `CalculateFunding` gives for the snapshot's mark price and variance.
  pub refresh-Bounded :
      FloatOrder fl
      → (num : Numeric) (m : Metadata) (coefficient cap : F) (stale_after : ℤ)
        (oracle : Oracle.Service F) (now read_at asked_at : ℤ) (book : Store)
      → let (reply, snap, book') =
          refresh fl num
            (new_service fl m coefficient cap)
            stale_after
            oracle
            now
            read_at
            asked_at
            book in
        Bounded cap snap.funding_rate
        × (((snap.paused ≡ true) × (snap.funding_rate ≡ of_nat 0))
            ⊎ (snap.funding_rate
                ≡ calculate_funding fl snap.variance_mark_price snap.oracle_variance_30 coefficient
                    cap))
  refresh-Bounded law num m coefficient cap stale_after oracle now read_at asked_at book =
      elim (refresh-Ends law num (new_service fl m coefficient cap) stale_after oracle now read_at
        asked_at book) [
          | inl (paused, zero) ↦
              ((rw zero (law.negate_below cap), rw zero (law.abs_above cap)), inl (paused, zero))
          | inr (runs, replies, p, served, priced) ↦
              let e = priced_rate m coefficient cap now p _ _ priced in
              (rw e (calculate_funding-Bounded law _ _ coefficient cap), inr e)
        ]
