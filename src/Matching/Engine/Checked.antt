-- ===== src/Matching/Engine/Checked.antt =====
-- What a tick has made sure of before it calls the executor.
use Prim.Native.Nat.{min}
use markets_service.Base.{
  ℕ, ◌+◌, ◌-◌, ◌≤◌, ◌≡◌, sym, ap, subst, ◌∙◌, Bool, true, false, ◌||◌, Result, ok, err, arith,
  >>=-elim, fail_if-elim, ok_inj, if◌then◌else◌, All-Member,
}
use markets_service.Base.Int.{pos}
use markets_service.Matching.{MatchError}
use markets_service.Matching.Crossing.{crosses, remaining_amount, min_decimal_string}
use markets_service.Matching.Crossing.Laws.{min_decimal_string-remaining_amount}
use markets_service.Matching.Engine.{
  World, Submission, Outcome, expired_order_present, not_crossed, zero_fill, bad_prices,
  bad_amounts, invariant_failed, check_candidate, log_price, wrap_error,
}
use markets_service.Matching.Units.{compute_execution_units}
use markets_service.Matching.Units.Safety.{Settles, compute_execution_units-Settles}
use markets_service.Orders.{MatchCandidate, Store, Numeric, is_expired, matching}
use markets_service.Orders.Acquired.{Holds}
use markets_service.Orders.Effects.{Amount, IsSound}
use markets_service.Orders.Table.{set_status}
use markets_service.Orders.Validity.{IsValid}
use markets_service.Text.{codes, text_eq}
use markets_service.Text.Decimal.Laws.{set_string-print_int}

pub record Checked (w : World) (c : MatchCandidate) (m : Submission) : Type 0 where
  pub taker_lives : is_expired c.taker w.now ≡ false
  pub maker_lives : is_expired c.maker w.now ≡ false
  pub crossed : crosses c.taker c.maker ≡ ok true
  pub least : min_decimal_string (remaining_amount c.taker) (remaining_amount c.maker) ≡ ok m.amount
  pub some_fill : text_eq m.amount (codes "0") ≡ false
  pub sent : Settles c (c.maker).limit_price_ticks m.amount m.units
  pub shown : m.price ≡ log_price w c.maker

wrap_error_ok :
    {A : Type 0} (f : MatchError → Outcome) (r : Result MatchError A) (a : A)
    → wrap_error f r ≡ ok a
    → r ≡ ok a
unfolding wrap_error
wrap_error_ok f (ok b) a h = ap ok (ok_inj h)
wrap_error_ok f (err e) a h = cc

neither : (a b : Bool) → (a || b) ≡ false → (a ≡ false) × (b ≡ false)
neither a b h = ground arith

was_true : (b : Bool) → (if b then false else true) ≡ false → b ≡ true
was_true b h = ground arith

-- What is sent to the executor has passed every check: neither order has expired, their prices
-- cross, the fill is the lesser of the two remaining amounts and not zero, and the units sent settle
-- within what both owners signed.
pub check_candidate-Checked :
    (w : World) (c : MatchCandidate) (m : Submission) → check_candidate w c ≡ ok m → Checked w c m
unfolding check_candidate
check_candidate-Checked w c m h =
    fail_if-elim (is_expired c.taker w.now || is_expired c.maker w.now) expired_order_present _ h
      λ live h₁. >>=-elim (wrap_error bad_prices (crosses c.taker c.maker)) _ h₁ λ x ex h₂.
        fail_if-elim (if x then false else true) not_crossed _ h₂ λ tx h₃.
          >>=-elim
            (wrap_error bad_amounts
              (min_decimal_string (remaining_amount c.taker) (remaining_amount c.maker)))
            _ h₃
            λ a ea h₄. fail_if-elim (text_eq a (codes "0")) zero_fill _ h₄ λ za h₅.
              >>=-elim
                (wrap_error invariant_failed
                  (compute_execution_units c (c.maker).limit_price_ticks a))
                _ h₅
                λ u eu h₆.
                  let q = ok_inj h₆ in
                  let (lt, lm) =
                    neither (is_expired c.taker w.now) (is_expired c.maker w.now) live in
                  record {
                    taker_lives = lt;
                    maker_lives = lm;
                    crossed =
                        wrap_error_ok bad_prices (crosses c.taker c.maker) x ex
                        ∙ ap ok (was_true x tx);
                    least =
                        wrap_error_ok bad_amounts
                          (min_decimal_string (remaining_amount c.taker) (remaining_amount c.maker))
                          a ea
                        ∙ ap (λ (y : Submission). ok y.amount) q;
                    some_fill =
                        subst (λ (y : Submission). text_eq y.amount (codes "0") ≡ false) q za;
                    sent =
                        subst
                          (λ (y : Submission).
                            Settles c (c.maker).limit_price_ticks y.amount y.units)
                          q
                          (compute_execution_units-Settles c (c.maker).limit_price_ticks a u (
                            wrap_error_ok invariant_failed
                              (compute_execution_units c (c.maker).limit_price_ticks a) u eu));
                    shown = ap (λ (y : Submission). y.price) (sym q);
                  }

-- The fill as a number, with room for it in both orders.
pub record Fits (c : MatchCandidate) (m : Submission) : Type 0 where
  pub n : ℕ
  pub d : ℕ
  pub f : ℕ
  pub e : ℕ
  pub g : ℕ
  pub fill : Amount m.amount n
  pub taker_desired : Amount (c.taker).desired_amount d
  pub taker_filled : Amount (c.taker).filled_amount f
  pub maker_desired : Amount (c.maker).desired_amount e
  pub maker_filled : Amount (c.maker).filled_amount g
  pub taker_room : f + n ≤ d
  pub maker_room : g + n ≤ e

pub Checked-Fits :
    (num : Numeric) (w : World) (c : MatchCandidate) (m : Submission) (t : Store)
    → IsValid num t
    → Holds c t
    → Checked w c m
    → Fits c m
Checked-Fits num w c m t v hs x =
    let (d, f, ad, af, le, _) =
      All-Member IsSound (set_status matching c.taker) t.orders v.sound hs.taker_there in
    let (e, g, ae, ag, le', _) =
      All-Member IsSound (set_status matching c.maker) t.orders v.sound hs.maker_there in
    let least = min_decimal_string-remaining_amount c.taker c.maker d f e g ad af ae ag le le' in
    let same = ok_inj (sym x.least ∙ least) in
    record {
      n = min (d - f) (e - g);
      d = d;
      f = f;
      e = e;
      g = g;
      fill = rw same (set_string-print_int (pos (min (d - f) (e - g))));
      taker_desired = ad;
      taker_filled = af;
      maker_desired = ae;
      maker_filled = ag;
      taker_room = ground arith;
      maker_room = ground arith;
    }
