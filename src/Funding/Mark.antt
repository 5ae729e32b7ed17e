-- ===== src/Funding/Mark.antt =====
-- The mark price of the book is not negative.
use markets_service.Base.{
  ap, Result-cases, ◌≡◌, Option-cases, Bool-cases, false, Option, none, some, Result, ok, err, inl,
  inr, if◌then◌else◌, ok_inj,
}
use markets_service.Base.Int.{ℤ}
use markets_service.Float.{Float64}
use markets_service.Funding.{
  FundingError, price_ticks_to_float, of_price, of_book, mark_price, mark_of, current_mark_price,
}
use markets_service.Instruments.{Metadata}
use markets_service.Orders.Book.{best_bid_and_ask}
use markets_service.Orders.{Order, Store, Numeric, RepoError}
use markets_service.Pricing.{new_converter, format_ticks}
use markets_service.Pricing.Variance.{
  VarianceError, ticks_to_variance_float64, parse_variance_float64, in_variance,
}
use markets_service.Text.{Text}

-- Laws of the comparison of `float64` that hold for every operand, NaN included: a comparison with NaN
-- is false.
pub record FloatOrder (fl : Float64) : Type 0 where
  pub max_above : (a b : fl.F) → fl.less (fl.max a b) a ≡ false
  pub max_below :
      (a b c : fl.F) → fl.less c a ≡ false → fl.less c b ≡ false → fl.less c (fl.max a b) ≡ false
  pub min_below : (a b : fl.F) → fl.less a (fl.min a b) ≡ false
  pub abs_around : (a : fl.F) → fl.less (fl.abs a) (fl.negate (fl.abs a)) ≡ false
  pub abs_above : (a : fl.F) → fl.less (fl.abs a) (fl.of_nat 0) ≡ false
  pub plus_above :
      (a b : fl.F)
      → fl.less a (fl.of_nat 0) ≡ false
      → fl.less b (fl.of_nat 0) ≡ false
      → fl.less (fl.plus a b) (fl.of_nat 0) ≡ false
  pub half_above :
      (a : fl.F)
      → fl.less a (fl.of_nat 0) ≡ false
      → fl.less (fl.divide a (fl.of_nat 2)) (fl.of_nat 0) ≡ false
  pub negate_below : (a : fl.F) → fl.less (fl.of_nat 0) (fl.negate (fl.abs a)) ≡ false

module _ (fl : Float64) where
  open fl use {F, of_nat, less}

  parsed_sign :
      (text : Text) (v : F) → parse_variance_float64 fl text ≡ ok v → less v (of_nat 0) ≡ false
  unfolding parse_variance_float64
  parsed_sign text v h = elim (Option-cases (fl.parse_float text)) [
    | inl e ↦ absurd (cc (rw e at h))
    | inr (w, e) ↦ elim (Bool-cases (less w (of_nat 0))) [
      | inl neg ↦ absurd (cc (rw (e, neg) at h))
      | inr pos ↦ rw (← ok_inj (rw (e, pos) at h)) pos
    ]
  ]

  variance_sign :
      (m : Metadata) (ticks : Text) (v : F)
      → ticks_to_variance_float64 fl m ticks ≡ ok v
      → less v (of_nat 0) ≡ false
  unfolding ticks_to_variance_float64
  variance_sign m ticks v h =
      elim (Result-cases (in_variance (new_converter m.tick_size m.quote_precision))) [
        | inl (e, q) ↦ absurd (cc (rw q at h))
        | inr (c, q) ↦ elim (Result-cases (in_variance (format_ticks c ticks))) [
          | inl (e, r) ↦ absurd (cc (rw (q, r) at h))
          | inr (t, r) ↦ parsed_sign t v (rw (q, r) at h)
        ]
      ]

  of_price_ok : {A : Type 0} (r : Result VarianceError A) (a : A) → of_price r ≡ ok a → r ≡ ok a
  unfolding of_price
  of_price_ok (ok b) a h = ap ok (ok_inj h)
  of_price_ok (err e) a h = absurd (cc h)

  price_sign :
      (m : Metadata) (ticks : Text) (v : F)
      → price_ticks_to_float fl m ticks ≡ ok v
      → less v (of_nat 0) ≡ false
  unfolding price_ticks_to_float
  price_sign m ticks v h = variance_sign m ticks v (of_price_ok _ v h)

  middle_sign :
      FloatOrder fl
      → (b a v : F) → less b (of_nat 0) ≡ false
      → less a (of_nat 0) ≡ false
      → ◌≡◌ {A = Result FundingError F}
          (if less a b then ok b else ok (fl.divide (fl.plus b a) (of_nat 2)))
          (ok v)
      → less v (of_nat 0) ≡ false
  middle_sign law b a v bid_sign ask_sign h = elim (Bool-cases (less a b)) [
    | inl crossed ↦ rw (← ok_inj (rw crossed at h)) bid_sign
    | inr apart ↦
        rw (← ok_inj (rw apart at h)) (law.half_above _ (law.plus_above b a bid_sign ask_sign))
  ]

  mark_price_sign :
      FloatOrder fl
      → (m : Metadata) (bid ask : Option Order) (v : F) → mark_price fl m bid ask ≡ ok v
      → less v (of_nat 0) ≡ false
  unfolding mark_price
  mark_price_sign law m none none v h = absurd (cc h)
  mark_price_sign law m (some bid) none v h = price_sign m bid.limit_price_ticks v h
  mark_price_sign law m none (some ask) v h = price_sign m ask.limit_price_ticks v h
  mark_price_sign law m (some bid) (some ask) v h =
      elim (Result-cases (price_ticks_to_float fl m bid.limit_price_ticks)) [
        | inl (e, q) ↦ absurd (cc (rw q at h))
        | inr (b, q) ↦ elim (Result-cases (price_ticks_to_float fl m ask.limit_price_ticks)) [
          | inl (e, r) ↦ absurd (cc (rw (q, r) at h))
          | inr (a, r) ↦
              middle_sign law b a v (price_sign m bid.limit_price_ticks b q)
                (price_sign m ask.limit_price_ticks a r) (rw (q, r) at h)
        ]
      ]

  mark_of_sign :
      FloatOrder fl
      → (m : Metadata) (book : Result RepoError (Option Order × Option Order)) (v : F)
      → mark_of fl m book ≡ ok v
      → less v (of_nat 0) ≡ false
  unfolding mark_of of_book
  mark_of_sign law m (err e) v h = absurd (cc h)
  mark_of_sign law m (ok (bid, ask)) v h = mark_price_sign law m bid ask v h

  pub current_mark_price_sign :
      FloatOrder fl
      → (num : Numeric) (m : Metadata) (asked_at : ℤ) (book : Store) (v : F)
      → (current_mark_price fl num m asked_at book).0 ≡ ok v
      → less v (of_nat 0) ≡ false
  unfolding current_mark_price
  current_mark_price_sign law num m asked_at book v h =
      mark_of_sign law m (best_bid_and_ask num m.asset_address m.sub_id asked_at book).0 v h
