-- ===== src/Matching/Units/Checks.antt =====
-- What each check of `computeExecutionUnits` has established once it has passed.
use native.Mathlib.Nat.{div-add-mod}
use markets_service.Base.{
  ℕ, ◌-◌, ◌*◌, ◌/◌, ◌%◌, ◌≤◌, ◌<◌, ◌≡◌, Bool, true, false, not, some, ok, fail_if, arith, >>=-elim,
  or_error-elim, fail_if-elim, fail_if-eq-ok,
}
use markets_service.Base.Int.{
  ℤ, pos, negsuc, ◌-ℤ◌, quo, rem, ltb_ℤ, eqb_ℤ, mul_pos, sub_pos, -ℤ_parts, ◌≤ℤ◌,
}
use markets_service.Matching.{
  invalid, not_non_negative, not_positive, fill_above_buy_limit, fill_below_sell_limit,
  filled_exceeds_desired,
}
use markets_service.Matching.TradeData.{TradeActionData}
use markets_service.Matching.Units.{
  parse_non_negative_int, parse_positive_int, infer_shared_scale, scaled_remaining,
  validate_price_scale_alignment, validate_action_market, is_bool,
}
use markets_service.Orders.{Order, Side, buy, sell, other, side_eq}
use markets_service.Text.{Text, codes, text_eq, to_lower, trim_space}
use markets_service.Text.Laws.{text_eq_iff}
use markets_service.Text.Decimal.{set_string, print_nat}

-- The number that a text stands for, white space round it left aside.
abbrev pub Reads : Text → ℕ → Type 0
Reads value n = set_string (trim_space value) ≡ some (pos n)

natural :
    (value : Text) (p z : ℤ)
    → set_string (trim_space value) ≡ some p
    → ltb_ℤ p (pos 0) ≡ false
    → p ≡ z
    → (n : ℕ) × Reads value n × (z ≡ pos n)
natural value (pos n) z e t q = (n, e, cc)
natural value (negsuc n) z e t q = absurd (ground arith)

pub parse_non_negative_int_parts :
    (value label : Text) (z : ℤ)
    → parse_non_negative_int value label ≡ ok z
    → (n : ℕ) × Reads value n × (z ≡ pos n)
unfolding parse_non_negative_int
parse_non_negative_int_parts value label z h =
    or_error-elim (set_string (trim_space value)) (invalid label) _ h λ p e h₁.
      fail_if-elim (ltb_ℤ p (pos 0)) (not_non_negative label) _ h₁
        λ t h₂. natural value p z e t (cc)

pub parse_positive_int_parts :
    (value label : Text) (z : ℤ)
    → parse_positive_int value label ≡ ok z
    → (n : ℕ) × Reads value n × (z ≡ pos n) × (0 < n)
unfolding parse_positive_int
parse_positive_int_parts value label z h =
    >>=-elim (parse_non_negative_int value label) _ h λ p e h₁.
      fail_if-elim (eqb_ℤ p (pos 0)) (not_positive label) _ h₁ λ t h₂.
        let (n, reads, same) = parse_non_negative_int_parts value label p e in
        (n, reads, cc, ground arith)

scale_of : (s a : ℕ) → s % a ≡ 0 → s ≡ a * (s / a)
scale_of s a h = omega (arith, div-add-mod s a)

-- A shared scale is positive, and both signed values are that multiple of their base values.
pub infer_shared_scale_parts :
    (label : Text) (a b : ℕ) (x y z : ℤ)
    → infer_shared_scale label (pos a) x (pos b) y ≡ ok z
    → (m : ℕ) × (z ≡ pos m) × (0 < m) × (x ≡ pos (a * m)) × (y ≡ pos (b * m))
unfolding infer_shared_scale quo rem
infer_shared_scale_parts label a b (negsuc x) y z h = ground arith
infer_shared_scale_parts label a b (pos x) (negsuc y) z h = ground arith
infer_shared_scale_parts label a b (pos x) (pos y) z h =
    (x / a, ground arith, ground arith, ground (arith, scale_of x a), ground (arith, scale_of y b))

pub scaled_remaining_parts :
    (o : Order) (m : ℕ) (z : ℤ)
    → scaled_remaining o (pos m) ≡ ok z
    → (d f : ℕ) × Reads o.desired_amount d
      × Reads o.filled_amount f
      × (f ≤ d)
      × (z ≡ pos ((d - f) * m))
unfolding scaled_remaining
scaled_remaining_parts o m z h =
    >>=-elim (parse_positive_int o.desired_amount (codes "desired_amount")) _ h λ p e h₁.
      >>=-elim (parse_non_negative_int o.filled_amount (codes "filled_amount")) _ h₁ λ q e' h₂.
        fail_if-elim (ltb_ℤ (p -ℤ q) (pos 0)) filled_exceeds_desired _ h₂ λ t h₃.
          let (d, rd, same, dpos) =
            parse_positive_int_parts o.desired_amount (codes "desired_amount") p e in
          let (f, rf, same') =
            parse_non_negative_int_parts o.filled_amount (codes "filled_amount") q e' in
          let le : f ≤ d = ground (arith, -ℤ_parts p q) in
          (d, f, rd, rf, le, cc (sub_pos d f le, mul_pos (d - f) m))

-- A price that is no worse than the limit of an order of this side.
abbrev pub Within : Side → ℤ → ℤ → Type 0
Within buy limit price = price ≤ℤ limit
Within sell limit price = limit ≤ℤ price
Within (other t) limit price = Unit

Within-ltb_ℤ :
    (side : Side) (limit price : ℤ) (role : Text) {u : Unit {0}}
    → (elim side [
      | buy ↦ fail_if (ltb_ℤ limit price) (fill_above_buy_limit role)
      | sell ↦ fail_if (ltb_ℤ price limit) (fill_below_sell_limit role)
      | other t ↦ ok tt
    ])
      ≡ ok u
    → Within side limit price
Within-ltb_ℤ buy limit price role h = ground arith
Within-ltb_ℤ sell limit price role h = ground arith
Within-ltb_ℤ (other t) limit price role h = tt

pub validate_price_scale_alignment_parts :
    (o : Order) (action : TradeActionData) (price : ℤ) (role : Text) {u : Unit {0}}
    → validate_price_scale_alignment o action price role ≡ ok u
    → Within o.side action.limit_price price
unfolding validate_price_scale_alignment
validate_price_scale_alignment_parts o action price role h =
    Within-ltb_ℤ o.side action.limit_price price role h

-- What the signed action of an order has in common with the stored order.
abbrev pub SameMarket : Order → TradeActionData → Type 0
SameMarket o action =
    (to_lower action.asset ≡ to_lower o.asset_address)
    × (print_nat action.sub_id ≡ trim_space o.sub_id)
    × (action.is_bid ≡ side_eq o.side buy)

is_bool_eq : (a b : Bool) → not (is_bool a b) ≡ false → a ≡ b
is_bool_eq true b h = ground arith
is_bool_eq false b h = ground arith

pub validate_action_market_parts :
    (role : Text) (o : Order) (action : TradeActionData) {u : Unit {0}}
    → validate_action_market role o action ≡ ok u
    → SameMarket o action
unfolding validate_action_market
validate_action_market_parts role o action h =
    fail_if-elim (not (text_eq (to_lower action.asset) (to_lower o.asset_address))) _ _ h λ t h₁.
      fail_if-elim (not (text_eq (print_nat action.sub_id) (trim_space o.sub_id))) _ _ h₁ λ t' h₂. (
        (text_eq_iff (to_lower action.asset) (to_lower o.asset_address)).0 (ground arith),
        (text_eq_iff (print_nat action.sub_id) (trim_space o.sub_id)).0 (ground arith),
        is_bool_eq action.is_bid (side_eq o.side buy) (fail_if-eq-ok _ _ h₂),
      )
