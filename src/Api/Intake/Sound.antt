-- ===== src/Api/Intake/Sound.antt =====
-- What order intake makes sure of, and what that means for the order table.
use Prim.Native.Nat.{Ordering}
use markets_service.Api.{
  expiry_not_in_future, action_json_not_valid, owner_not_expected, signer_not_expected, bad_side,
  asset_not_configured, not_variance, filled_exceeds_desired, invalid_amount_step,
  misaligned_amount, zero_size, negative_desired, negative_filled, side_of,
}
use markets_service.Api.Action.{validate_action_json, validate_action_data_invariants}
use markets_service.Api.Amounts.{
  amount_atomic_step, step_or_error, compare_integer_strings, parse_decimal,
  normalize_amount_to_atomic_units,
}
use markets_service.Api.Intake.{
  CreateOrderRequest, Config, to_params, params_of, check_required, engine_terms, is_unexpected,
  is_foreign_side, is_allowed_instrument, instrument_for, wrap_price, exceeds, or_zero,
}
use markets_service.Api.Spot.{SpotEngineOrder}
use markets_service.Base.{
  ℕ, ◌≤◌, ◌<◌, ◌≡◌, refl, sym, ap, ◌∙◌, Bool, true, false, not, ◌&&◌, [], ◌∷◌, ◌++◌, Option, Result,
  ok, err, arith, >>=-elim, fail_if-elim, ok_inj, if◌then◌else◌,
}
use markets_service.Base.Int.{ℤ, pos, negsuc, leb_ℤ, ltb_ℤ, eqb_ℤ}
use markets_service.Instruments.{Metadata, btcvar30_symbol}
use markets_service.Orders.{Order, Store, Numeric}
use markets_service.Orders.Amounts.{cmp}
use markets_service.Orders.Effects.{SoundParams, create-Effect}
use markets_service.Orders.Entry.{CreateOrderParams, create, is_some}
use markets_service.Orders.Validity.{IsValid, Effect-IsValid}
use markets_service.Pricing.{PriceError, new_converter, parse}
use markets_service.Pricing.Aligned.{parse-IsAligned}
use markets_service.Rational.{Rat, quotient, is_int, integer, not_above_zero}
use markets_service.Text.{Text, text_eq, to_lower}
use markets_service.Text.Laws.{to_lower_idem}
use markets_service.Text.Decimal.{print_int}
use markets_service.Text.Decimal.Laws.{set_string-print_int, trim_space-print_int}

-- A natural number that is positive where it has to be.
natural :
    (z : ℤ) (b : Bool)
    → (b && eqb_ℤ z (pos 0)) ≡ false
    → ltb_ℤ z (pos 0) ≡ false
    → (n : ℕ) × (z ≡ pos n) × (b ≡ true → 0 < n)
natural (pos n) b h k = (n, refl, λ e. ground (arith, h, e))
natural (negsuc n) b h k = ground (arith, k)

normalize-natural :
    (parse_rat : Text → Option Rat) (m : Metadata) (raw t : Text) (b : Bool)
    → normalize_amount_to_atomic_units parse_rat m raw b ≡ ok t
    → (n : ℕ) × (t ≡ print_int (pos n)) × (b ≡ true → 0 < n)
unfolding normalize_amount_to_atomic_units
normalize-natural parse_rat m raw t b h = >>=-elim (parse_decimal parse_rat raw) _ h λ value ev h₁.
    >>=-elim (step_or_error (parse_decimal parse_rat (amount_atomic_step m))) _ h₁ λ step es h₂.
      fail_if-elim (not_above_zero step) invalid_amount_step _ h₂ λ above h₃.
        let atomic = integer (quotient value step) in
        fail_if-elim (not (is_int (quotient value step))) misaligned_amount _ h₃ λ whole h₄.
          fail_if-elim (b && eqb_ℤ atomic (pos 0)) zero_size _ h₄ λ some_size h₅.
            fail_if-elim (ltb_ℤ atomic (pos 0)) (if b then negative_desired else negative_filled) _
              h₅
              λ sign h₆.
                let (n, e, positive) = natural atomic b some_size sign in
                (n, sym (ok_inj h₆) ∙ ap print_int e, positive)

compare_integer_strings_lem :
    (f d : ℕ) (c : Ordering)
    → compare_integer_strings (print_int (pos f)) (print_int (pos d)) ≡ ok c
    → exceeds c ≡ false
    → f ≤ d
unfolding compare_integer_strings exceeds
compare_integer_strings_lem f d c h k =
    let q : c ≡ cmp (pos f) (pos d) = ok_inj (
      sym h
      ∙ rw
          (
            trim_space-print_int (pos f),
            trim_space-print_int (pos d),
            set_string-print_int (pos f),
            set_string-print_int (pos d),
          )
          refl) in
    ground (arith, rw q at k)

wrap_price_inj : {A : Type 0} (r : Result PriceError A) (a : A) → wrap_price r ≡ ok a → r ≡ ok a
unfolding wrap_price
wrap_price_inj (ok b) a h = ap ok (ok_inj h)
wrap_price_inj (err e) a h = cc

-- The amounts and the price of accepted parameters, as numbers.
pub record IsPriced (parameters : CreateOrderParams) : Type 0 where
  pub d : ℕ
  pub f : ℕ
  pub t : ℕ
  pub desired : parameters.desired_amount ≡ print_int (pos d)
  pub filled : parameters.filled_amount ≡ print_int (pos f)
  pub ticks : parameters.limit_price_ticks ≡ print_int (pos t)
  pub some_desired : 0 < d
  pub not_overfilled : f ≤ d
  pub some_price : 0 < t

module _ (parse_rat : Text → Option Rat) (variance_allowed : Text → Bool) where
  params_of-IsPriced :
      (cfg : Config) (r : CreateOrderRequest) (m : Metadata) (asset sub : Text)
      (terms : SpotEngineOrder) (p : CreateOrderParams)
      → params_of parse_rat variance_allowed cfg r m asset sub terms ≡ ok p
      → IsPriced p × (p.asset_address ≡ asset) × (p.expiry ≡ r.expiry)
  unfolding params_of
  params_of-IsPriced cfg r m asset sub terms p h =
      >>=-elim (wrap_price (new_converter m.tick_size m.quote_precision)) _ h λ c ec h₁.
        >>=-elim (wrap_price (parse c terms.price)) _ h₁ λ price ep h₂.
          fail_if-elim (text_eq m.symbol btcvar30_symbol && not (variance_allowed price.display))
            not_variance _ h₂
            λ allowed h₃.
              >>=-elim (normalize_amount_to_atomic_units parse_rat m terms.amount true) _ h₃
                λ desired ed h₄.
                  >>=-elim
                    (normalize_amount_to_atomic_units parse_rat m (or_zero r.filled_amount) false) _
                    h₄
                    λ filled ef h₅.
                      >>=-elim (compare_integer_strings filled desired) _ h₅ λ compared eq h₆.
                        fail_if-elim (exceeds compared) filled_exceeds_desired _ h₆ λ within h₇.
                          >>=-elim
                            (validate_action_json r.action_json (to_lower r.owner_address)
                              (to_lower r.signer_address) r.subaccount_id r.nonce)
                            _ h₇
                            λ u eu h₈.
                              >>=-elim
                                (if cfg.enforce_action_data_invariants
                                  then validate_action_data_invariants parse_rat r.action_json
                                      terms.side asset sub price.ticks desired
                                      (amount_atomic_step m)
                                  else ok tt)
                                _ h₈
                                λ v ev h₉.
                                  let (d, td, positive) =
                                    normalize-natural parse_rat m terms.amount desired true ed in
                                  let (f, tf, _) =
                                    normalize-natural parse_rat m (or_zero r.filled_amount) filled
                                      false ef in
                                  let x =
                                    parse-IsAligned m.tick_size terms.price m.quote_precision c
                                      price
                                      (wrap_price_inj (new_converter m.tick_size m.quote_precision)
                                        c ec)
                                      (wrap_price_inj (parse c terms.price) price ep) in
                                  let q = ok_inj h₉ in
                                  (
                                    record {
                                      d = d;
                                      f = f;
                                      t = x.t;
                                      desired =
                                          ap (λ (y : CreateOrderParams). y.desired_amount) (sym q)
                                          ∙ td;
                                      filled =
                                          ap (λ (y : CreateOrderParams). y.filled_amount) (sym q)
                                          ∙ tf;
                                      ticks =
                                          ap (λ (y : CreateOrderParams). y.limit_price_ticks)
                                            (sym q)
                                          ∙ x.ticks;
                                      some_desired = positive refl;
                                      not_overfilled =
                                          compare_integer_strings_lem f d compared
                                            (rw (tf, td) at eq) within;
                                      some_price = x.positive;
                                    },
                                    ap (λ (y : CreateOrderParams). y.asset_address) (sym q),
                                    ap (λ (y : CreateOrderParams). y.expiry) (sym q),
                                  )

  to_params_parts :
      (cfg : Config) (now : ℤ) (r : CreateOrderRequest) (p : CreateOrderParams)
      → to_params parse_rat variance_allowed cfg now r ≡ ok p
      → IsPriced p × (to_lower p.asset_address ≡ p.asset_address) × (leb_ℤ p.expiry now ≡ false)
  unfolding to_params
  to_params_parts cfg now r p h =
      let side = side_of (to_lower r.side) in
      let asset = to_lower r.asset_address in
      let sub = or_zero r.sub_id in
      let m = instrument_for cfg asset sub in
      >>=-elim (check_required r) _ h λ u eu h₁.
        fail_if-elim (leb_ℤ r.expiry now) expiry_not_in_future _ h₁ λ later h₂.
          fail_if-elim (not (is_some r.action_json)) action_json_not_valid _ h₂ λ valid h₃.
            fail_if-elim (is_unexpected cfg.expected_order_owner (to_lower r.owner_address))
              owner_not_expected _ h₃
              λ owner h₄.
                fail_if-elim (is_unexpected cfg.expected_order_signer (to_lower r.signer_address))
                  signer_not_expected _ h₄
                  λ signer h₅. fail_if-elim (is_foreign_side side) bad_side _ h₅ λ known h₆.
                    fail_if-elim (not (is_allowed_instrument cfg asset sub)) asset_not_configured _
                      h₆
                      λ listed h₇.
                        >>=-elim (engine_terms parse_rat variance_allowed m r side) _ h₇
                          λ terms et h₈.
                            let (priced, ea, ex) =
                              params_of-IsPriced cfg r m asset sub terms p h₈ in
                            (priced, rw ea (to_lower_idem r.asset_address), rw ex later)

-- Whatever the rationals and the test of variance prices are: the parameters that `toParams` gives
-- hold the texts of natural numbers, a positive desired amount, a filled amount that is not greater
-- and positive price ticks; the asset is in small letters, and the expiry is after `now`.
pub to_params-IsPriced :
    (parse_rat : Text → Option Rat) (variance_allowed : Text → Bool) (cfg : Config) (now : ℤ)
    (r : CreateOrderRequest) (p : CreateOrderParams)
    → to_params parse_rat variance_allowed cfg now r ≡ ok p
    → IsPriced p × (to_lower p.asset_address ≡ p.asset_address) × (leb_ℤ p.expiry now ≡ false)
to_params-IsPriced = to_params_parts

pub IsPriced-SoundParams : (p : CreateOrderParams) → IsPriced p → SoundParams p
IsPriced-SoundParams p x = (
  x.d,
  x.f,
  rw x.desired (set_string-print_int (pos x.d)),
  rw x.filled (set_string-print_int (pos x.f)),
  x.not_overfilled,
)

-- On a table that satisfies the invariant, an order that `toParams` has accepted and `Create` has
-- stored stands behind all the others, and the table satisfies the invariant again.
pub create-to_params :
    (parse_rat : Text → Option Rat) (variance_allowed : Text → Bool) (cfg : Config) (now : ℤ)
    (r : CreateOrderRequest) (p : CreateOrderParams) (num : Numeric) (at : ℕ) (s t : Store)
    (o : Order)
    → IsValid num s
    → to_params parse_rat variance_allowed cfg now r ≡ ok p
    → create num p at s ≡ ok (o, t)
    → IsValid num t × (t.orders ≡ s.orders ++ o ∷ [])
create-to_params parse_rat variance_allowed cfg now r p num at s t o v accepted stored =
    let (priced, _, _) = to_params-IsPriced parse_rat variance_allowed cfg now r p accepted in
    let (effect, enters) = create-Effect num p at s o t (IsPriced-SoundParams p priced) stored in
    (Effect-IsValid s t v effect, enters)
