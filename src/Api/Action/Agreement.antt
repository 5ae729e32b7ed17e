-- ===== src/Api/Action/Agreement.antt =====
-- Order intake and the matcher read the same signed action: what intake has accepted, the matcher
-- decodes to the same fields, and its check of the market passes.
use markets_service.Api.{
  bad_tuple, bad_hex, limit_price_not_positive, desired_amount_not_positive, wrong_asset,
  wrong_sub_id, wrong_is_bid,
}
use markets_service.Api.Action.{
  ParsedTradeActionData, signed_word_to_big_int, parsed_of_payload, parse_action_trade_data,
  validate_action_data_invariants,
}
use markets_service.Base.{
  ℕ, ◌*◌, ◌≡◌, refl, sym, ap, ◌∙◌, Bool, true, false, not, [], ◌∷◌, length, Option, some, ok, arith,
  >>=-elim, fail_if-elim, or_error-elim, ok_inj, ◌==◌, if◌then◌else◌,
}
use markets_service.Base.Int.{pos, leb_ℤ}
use markets_service.Json.{RawMessage, text_field}
use markets_service.Json.Column.{IsJsonb, times_named, text_field-jsonb}
use markets_service.Matching.TradeData.{
  TradeActionData, word, int256_from_word, trade_data_of_bytes, decode_trade_data,
  parse_trade_action,
}
use markets_service.Matching.Units.{is_bool, validate_action_market}
use markets_service.Orders.{Order, Numeric, buy, side_eq}
use markets_service.Rational.{Rat}
use markets_service.Text.{Text, codes, text_eq, is_empty, trim_space, trim_prefix, strip, to_lower}
use markets_service.Text.Decimal.{print_nat}
use markets_service.Text.Hex.{Bytes, decode_string}
use markets_service.Text.Laws.{text_eq_iff, text_eq_refl, to_lower_idem}
use markets_service.Api.Action.Prefix.{
  decode_string-to_lower, length-to_lower, trim_prefix-to_lower, has_capital_prefix,
}

signed_word_lem : (w : Bytes) → signed_word_to_big_int w ≡ int256_from_word w
unfolding signed_word_to_big_int int256_from_word
signed_word_lem w = refl

-- The two readers' records hold the same.
abbrev pub Agree : ParsedTradeActionData → TradeActionData → Type 0
Agree a t =
    (a.asset_address ≡ t.asset)
    × (a.sub_id ≡ print_nat t.sub_id)
    × (a.limit_price ≡ t.limit_price)
    × (a.desired_amount ≡ t.desired_amount)
    × (a.is_bid ≡ t.is_bid)

parsed_of_payload-Agree :
    (bs : Bytes) (a : ParsedTradeActionData)
    → parsed_of_payload bs ≡ ok a
    → Agree a (trade_data_of_bytes bs)
unfolding parsed_of_payload trade_data_of_bytes
parsed_of_payload-Agree bs a h =
    let price = signed_word_to_big_int (word bs 2) in
    let amount = signed_word_to_big_int (word bs 3) in
    fail_if-elim (leb_ℤ price (pos 0)) limit_price_not_positive _ h λ some_price h₁.
      fail_if-elim (leb_ℤ amount (pos 0)) desired_amount_not_positive _ h₁ λ some_amount h₂.
        let q = sym (ok_inj h₂) in
        (
          ap (λ (x : ParsedTradeActionData). x.asset_address) q,
          ap (λ (x : ParsedTradeActionData). x.sub_id) q,
          ap (λ (x : ParsedTradeActionData). x.limit_price) q ∙ signed_word_lem (word bs 2),
          ap (λ (x : ParsedTradeActionData). x.desired_amount) q ∙ signed_word_lem (word bs 3),
          ap (λ (x : ParsedTradeActionData). x.is_bid) q,
        )

-- What the matcher's decoder needs of the text behind the prefix.
decode_trade_data_lem :
    (signed : Text) (bs : Bytes)
    → length (trim_prefix (trim_space signed) (codes "0x")) ≡ 448
    → decode_string (trim_prefix (trim_space signed) (codes "0x")) ≡ some bs
    → decode_trade_data signed ≡ ok (trade_data_of_bytes bs)
unfolding decode_trade_data
decode_trade_data_lem signed bs h k = rw (h, k) refl

some_data : (s : Text) → length (trim_prefix s (codes "0x")) ≡ 448 → is_empty s ≡ false
unfolding trim_prefix strip
some_data [] h = absurd (omega (arith, h))
some_data (c ∷ s) h = refl

is_length : (n : ℕ) → not (n == 448) ≡ false → n ≡ 448
is_length n h = ground (arith, h)

parsed_alike :
    (o : Order) (signed : Text) (a : ParsedTradeActionData)
    → text_field (codes "data") o.action_json ≡ some signed
    → has_capital_prefix (trim_space signed) ≡ false
    → parse_action_trade_data o.action_json ≡ ok a
    → (t : TradeActionData) × (parse_trade_action o ≡ ok t) × Agree a t
unfolding parse_action_trade_data parse_trade_action
parsed_alike o signed a found small h =
    let k = trim_prefix (trim_space signed) (codes "0x") in
    let hex = trim_prefix (to_lower (trim_space signed)) (codes "0x") in
    let same : hex ≡ to_lower k = trim_prefix-to_lower (trim_space signed) small in
    fail_if-elim (not (length hex == 64 * 7)) bad_tuple _ (rw found at h) λ size h₁.
      or_error-elim (decode_string hex) bad_hex _ h₁ λ bs eb h₂.
        let long : length k ≡ 448 =
          sym (length-to_lower k) ∙ ap length (sym same) ∙ is_length (length hex) size in
        let bytes : decode_string k ≡ some bs =
          sym (decode_string-to_lower k) ∙ ap decode_string (sym same) ∙ eb in
        (
          trade_data_of_bytes bs,
          rw (found, some_data (trim_space signed) long)
              (decode_trade_data_lem signed bs long bytes),
          parsed_of_payload-Agree bs a h₂,
        )

is_true : (b : Bool) → not b ≡ false → b ≡ true
is_true b h = ground (arith, h)

same_side : (a b q : Bool) → a ≡ b → (if a then not q else q) ≡ false → not (is_bool b q) ≡ false
same_side a b q e h = ground (arith, e, h)

validate_action_market_lem :
    (role : Text) (o : Order) (t : TradeActionData)
    → to_lower t.asset ≡ to_lower o.asset_address
    → print_nat t.sub_id ≡ trim_space o.sub_id
    → not (is_bool t.is_bid (side_eq o.side buy)) ≡ false
    → validate_action_market role o t ≡ ok tt
unfolding validate_action_market
validate_action_market_lem role o t asset sub bid =
    rw
      (asset, sub, text_eq_refl (to_lower o.asset_address), text_eq_refl (trim_space o.sub_id), bid)
      refl

-- The readers of an action read nothing of it but its data.
parse_action_trade_data_field :
    (raw stored : RawMessage) (signed : Text)
    → text_field (codes "data") raw ≡ some signed
    → text_field (codes "data") stored ≡ some signed
    → parse_action_trade_data raw ≡ parse_action_trade_data stored
unfolding parse_action_trade_data
parse_action_trade_data_field raw stored signed h k = rw (h, k) refl

-- If the action names its data once, up to the case of the key, and the data does not begin with the
-- prefix 0X in capitals: an action that order intake has parsed is parsed by the matcher, from the
-- `jsonb` column that it was written to, to the same asset, sub id, price, amount and side.
pub parse_action_trade_data-parse_trade_action :
    (num : Numeric) (raw : RawMessage) (o : Order) (signed : Text) (a : ParsedTradeActionData)
    → IsJsonb num.jsonb
    → num.jsonb raw ≡ some o.action_json
    → times_named (codes "data") raw ≡ 1
    → text_field (codes "data") raw ≡ some signed
    → has_capital_prefix (trim_space signed) ≡ false
    → parse_action_trade_data raw ≡ ok a
    → (t : TradeActionData) × (parse_trade_action o ≡ ok t) × Agree a t
parse_action_trade_data-parse_trade_action num raw o signed a law kept one found small h =
    let there =
      text_field-jsonb num.jsonb (codes "data") raw o.action_json signed law one kept found in
    parsed_alike o signed a there small
      (sym (parse_action_trade_data_field raw o.action_json signed found there) ∙ h)

-- If the action names its data once, up to the case of the key, the data does not begin with the
-- prefix 0X in capitals, and the checks of `validateActionDataInvariants` pass on the action and on
-- the side, asset and sub id of a stored order whose `jsonb` column the action was written to: the
-- matcher parses the order's action, and its check of the market passes.
pub validate_action_data_invariants-validate_action_market :
    (num : Numeric) (parse_rat : Text → Option Rat) (role : Text) (raw : RawMessage) (o : Order)
    (signed ticks desired step : Text)
    → IsJsonb num.jsonb
    → num.jsonb raw ≡ some o.action_json
    → times_named (codes "data") raw ≡ 1
    → text_field (codes "data") raw ≡ some signed
    → has_capital_prefix (trim_space signed) ≡ false
    → validate_action_data_invariants parse_rat raw o.side o.asset_address o.sub_id ticks desired
        step
      ≡ ok tt
    → (t : TradeActionData) × (parse_trade_action o ≡ ok t)
      × (validate_action_market role o t ≡ ok tt)
unfolding validate_action_data_invariants
validate_action_data_invariants-validate_action_market num parse_rat role raw o signed ticks desired
      step law kept one found small h =
    >>=-elim (parse_action_trade_data raw) _ h λ a ea h₁.
      fail_if-elim (not (text_eq a.asset_address (to_lower o.asset_address))) wrong_asset _ h₁
        λ asset h₂.
          fail_if-elim (not (text_eq a.sub_id (trim_space o.sub_id))) wrong_sub_id _ h₂ λ sub h₃.
            fail_if-elim (if a.is_bid then not (side_eq o.side buy) else side_eq o.side buy)
              wrong_is_bid _ h₃
              λ bid h₄.
                let (t, et, (ta, ts, _, _, tb)) =
                  parse_action_trade_data-parse_trade_action num raw o signed a law kept one found
                    small ea in
                let asset' =
                  (text_eq_iff a.asset_address (to_lower o.asset_address)).0
                    (is_true (text_eq a.asset_address (to_lower o.asset_address)) asset) in
                let sub' =
                  (text_eq_iff a.sub_id (trim_space o.sub_id)).0
                    (is_true (text_eq a.sub_id (trim_space o.sub_id)) sub) in
                (
                  t,
                  et,
                  validate_action_market_lem role o t
                      (ap to_lower (sym ta ∙ asset') ∙ to_lower_idem o.asset_address)
                      (sym ts ∙ sub') (same_side a.is_bid t.is_bid (side_eq o.side buy) tb bid),
                )
