-- ===== src/Matching/Units/Safety.antt =====
-- The units that `computeExecutionUnits` gives to the executor keep within what both owners signed.
use native.Mathlib.Nat.{le_of_mul-le-mul_right}
use markets_service.Base.{
  ℕ, ◌+◌, ◌-◌, ◌*◌, ◌≤◌, ◌<◌, ◌≡◌, false, Result, ok, ◌>>=◌, arith, >>=-elim, fail_if-elim,
}
use markets_service.Base.Int.{ℤ, pos, ltb_ℤ, ◌*ℤ◌, mul_pos}
use markets_service.Matching.{MatchError, fill_exceeds_taker, fill_exceeds_maker}
use markets_service.Matching.TradeData.{TradeActionData, parse_trade_action}
use markets_service.Matching.Units.{
  ExecutionUnits, compute_execution_units, scale_fill, parse_positive_int, infer_shared_scale,
  scaled_remaining, validate_action_market, validate_price_scale_alignment,
}
use markets_service.Matching.Units.Checks.{
  Reads, Within, SameMarket, parse_positive_int_parts, infer_shared_scale_parts,
  scaled_remaining_parts, validate_action_market_parts, validate_price_scale_alignment_parts,
}
use markets_service.Orders.{Order, MatchCandidate}
use markets_service.Text.{Text, codes}
use markets_service.Text.Decimal.{print_int}

-- One order's part: its signed action is of this market and side, its signed price and amount are
-- the stored ticks and atomic units times the scales, and the fill keeps within price and amount.
pub record Covered (o : Order) (price_scale amount_scale fill_ticks fill_atomic : ℕ) : Type 0 where
  pub action : TradeActionData
  pub limit_ticks : ℕ
  pub desired : ℕ
  pub filled : ℕ
  pub signed : parse_trade_action o ≡ ok action
  pub market : SameMarket o action
  pub limit_read : Reads o.limit_price_ticks limit_ticks
  pub desired_read : Reads o.desired_amount desired
  pub filled_read : Reads o.filled_amount filled
  pub limit_signed : action.limit_price ≡ pos (limit_ticks * price_scale)
  pub desired_signed : action.desired_amount ≡ pos (desired * amount_scale)
  pub price_kept : Within o.side action.limit_price (pos (fill_ticks * price_scale))
  pub amount_kept : filled + fill_atomic ≤ desired

-- The whole fill: one positive scale for the prices and one for the amounts, shared by both orders.
pub record Settles (c : MatchCandidate) (price amount : Text) (u : ExecutionUnits) : Type 0 where
  pub price_scale : ℕ
  pub amount_scale : ℕ
  pub fill_ticks : ℕ
  pub fill_atomic : ℕ
  pub price_read : Reads price fill_ticks
  pub amount_read : Reads amount fill_atomic
  pub positive : (0 < price_scale) × (0 < amount_scale) × (0 < fill_ticks) × (0 < fill_atomic)
  pub taker : Covered c.taker price_scale amount_scale fill_ticks fill_atomic
  pub maker : Covered c.maker price_scale amount_scale fill_ticks fill_atomic
  pub price_sent : u.fill_price ≡ print_int (pos (fill_ticks * price_scale))
  pub amount_sent : u.fill_amount ≡ print_int (pos (fill_atomic * amount_scale))

abbrev Kept : Order → TradeActionData → ℕ → ℕ → Type 0
Kept o action price fill_atomic =
    (d f : ℕ) × Reads o.desired_amount d
    × Reads o.filled_amount f
    × (f + fill_atomic ≤ d)
    × Within o.side action.limit_price (pos price)

room_left : (d f m n : ℕ) → f ≤ d → 0 < m → n * m ≤ (d - f) * m → f + n ≤ d
room_left d f m n le p h = let q : n ≤ d - f = le_of_mul-le-mul_right h p in omega arith

room :
    (o : Order) (action : TradeActionData) (m n price : ℕ) (z : ℤ)
    → scaled_remaining o (pos m) ≡ ok z
    → ltb_ℤ z (pos (n * m)) ≡ false
    → Within o.side action.limit_price (pos price)
    → 0 < m
    → Kept o action price n
room o action m n price z h t w p =
    let (d, f, rd, rf, le, e) = scaled_remaining_parts o m z h in
    (d, f, rd, rf, room_left d f m n le p (ground arith), w)

scale_fill_parts :
    (c : MatchCandidate) (ta ma : TradeActionData) (t n k m : ℕ) (u : ExecutionUnits)
    → scale_fill c ta ma (pos t) (pos n) (pos k) (pos m) ≡ ok u
    → 0 < m
    → Kept c.taker ta (t * k) n
      × Kept c.maker ma (t * k) n
      × (u.fill_price ≡ print_int (pos (t * k)))
      × (u.fill_amount ≡ print_int (pos (n * m)))
unfolding scale_fill
scale_fill_parts c ta ma t n k m u h p =
    let price = mul_pos t k in
    let amount = mul_pos n m in
    >>=-elim (scaled_remaining c.taker (pos m)) _ h λ x ex h₁.
      >>=-elim (scaled_remaining c.maker (pos m)) _ h₁ λ y ey h₂.
        fail_if-elim (ltb_ℤ x (pos n *ℤ pos m)) fill_exceeds_taker _ h₂ λ bx h₃.
          fail_if-elim (ltb_ℤ y (pos n *ℤ pos m)) fill_exceeds_maker _ h₃ λ by h₄.
            >>=-elim (validate_price_scale_alignment c.taker ta (pos t *ℤ pos k) (codes "taker")) _
              h₄
              λ v ev h₅.
                >>=-elim
                  (validate_price_scale_alignment c.maker ma (pos t *ℤ pos k) (codes "maker")) _ h₅
                  λ w ew h₆. (
                    room c.taker ta m n (t * k) x ex (rw amount at bx)
                        (rw price at
                          (validate_price_scale_alignment_parts c.taker ta _ (codes "taker") ev))
                        p,
                    room c.maker ma m n (t * k) y ey (rw amount at by)
                        (rw price at
                          (validate_price_scale_alignment_parts c.maker ma _ (codes "maker") ew))
                        p,
                    cc,
                    cc,
                  )

same_number : (value : Text) (a b : ℕ) → Reads value a → Reads value b → a ≡ b
same_number value a b h k = cc

covered :
    (o : Order) (action : TradeActionData) (k m t n l d : ℕ)
    → parse_trade_action o ≡ ok action
    → SameMarket o action
    → Reads o.limit_price_ticks l
    → Reads o.desired_amount d
    → action.limit_price ≡ pos (l * k)
    → action.desired_amount ≡ pos (d * m)
    → Kept o action (t * k) n
    → Covered o k m t n
covered o action k m t n l d signed market rl rd el ed (d', f, rd', rf, le, w) = record {
  action = action;
  limit_ticks = l;
  desired = d;
  filled = f;
  signed = signed;
  market = market;
  limit_read = rl;
  desired_read = rd;
  filled_read = rf;
  limit_signed = el;
  desired_signed = ed;
  price_kept = w;
  amount_kept = omega (arith, same_number o.desired_amount d d' rd rd');
}

-- A positive number that was parsed, and a scale that was inferred, as natural numbers.
parse_positive_int-elim {κ μ} :
    {B : Type κ} {P : Type μ} (value label : Text) (f : ℤ → Result MatchError B) {b : B}
    → (parse_positive_int value label >>= f) ≡ ok b
    → ((n : ℕ) → Reads value n → 0 < n → f (pos n) ≡ ok b → P)
    → P
parse_positive_int-elim value label f h use_parts =
    >>=-elim (parse_positive_int value label) f h λ z e k.
      let (n, reads, same, positive) = parse_positive_int_parts value label z e in
      use_parts n reads positive (rw same at k)

infer_shared_scale-elim {κ μ} :
    {B : Type κ} {P : Type μ} (label : Text) (a b : ℕ) (x y : ℤ) (f : ℤ → Result MatchError B)
    {r : B}
    → (infer_shared_scale label (pos a) x (pos b) y >>= f) ≡ ok r
    → ((m : ℕ) → 0 < m → x ≡ pos (a * m) → y ≡ pos (b * m) → f (pos m) ≡ ok r → P)
    → P
infer_shared_scale-elim label a b x y f h use_parts =
    >>=-elim (infer_shared_scale label (pos a) x (pos b) y) f h λ z e k.
      let (m, same, positive, ex, ey) = infer_shared_scale_parts label a b x y z e in
      use_parts m positive ex ey (rw same at k)

-- Units that are computed settle within both signed orders: one positive scale turns ticks into
-- signed prices and one turns atomic units into signed amounts for both of them; each action is of
-- the order's asset, sub id and side; the price sent is at most a buyer's signed limit and at least a
-- seller's; and the amount sent, with what is filled already, is at most what each one signed.
pub compute_execution_units-Settles :
    (c : MatchCandidate) (price amount : Text) (u : ExecutionUnits)
    → compute_execution_units c price amount ≡ ok u
    → Settles c price amount u
unfolding compute_execution_units
compute_execution_units-Settles c price amount u h =
    >>=-elim (parse_trade_action c.taker) _ h λ ta eta h₁.
      >>=-elim (parse_trade_action c.maker) _ h₁ λ ma ema h₂.
        >>=-elim (validate_action_market (codes "taker") c.taker ta) _ h₂ λ v ev h₃.
          >>=-elim (validate_action_market (codes "maker") c.maker ma) _ h₃ λ w ew h₄.
            parse_positive_int-elim (c.taker).limit_price_ticks (codes "taker limit_price_ticks") _
              h₄
              λ a ra pa h₅.
                parse_positive_int-elim (c.maker).limit_price_ticks
                  (codes "maker limit_price_ticks") _ h₅
                  λ b rb pb h₆.
                    parse_positive_int-elim price (codes "fill_price_ticks") _ h₆ λ t rt pt h₇.
                      parse_positive_int-elim (c.taker).desired_amount
                        (codes "taker desired_amount") _ h₇
                        λ d rd pd h₈.
                          parse_positive_int-elim (c.maker).desired_amount
                            (codes "maker desired_amount") _ h₈
                            λ e re pe h₉.
                              parse_positive_int-elim amount (codes "fill_amount_atomic") _ h₉
                                λ n rn pn h₁₀.
                                  infer_shared_scale-elim (codes "price") a b ta.limit_price
                                    ma.limit_price _ h₁₀
                                    λ k pk ka kb h₁₁.
                                      infer_shared_scale-elim (codes "amount") d e ta.desired_amount
                                        ma.desired_amount _ h₁₁
                                        λ m pm md me h₁₂.
                                          let (kept_t, kept_m, price_sent, amount_sent) =
                                            scale_fill_parts c ta ma t n k m u h₁₂ pm in
                                          let market_t =
                                            validate_action_market_parts (codes "taker") c.taker ta
                                              ev in
                                          let market_m =
                                            validate_action_market_parts (codes "maker") c.maker ma
                                              ew in
                                          record {
                                            price_scale = k;
                                            amount_scale = m;
                                            fill_ticks = t;
                                            fill_atomic = n;
                                            price_read = rt;
                                            amount_read = rn;
                                            positive = (pk, pm, pt, pn);
                                            taker =
                                                covered c.taker ta k m t n a d eta market_t ra rd ka
                                                  md kept_t;
                                            maker =
                                                covered c.maker ma k m t n b e ema market_m rb re kb
                                                  me kept_m;
                                            price_sent = price_sent;
                                            amount_sent = amount_sent;
                                          }
