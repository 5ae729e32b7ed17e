-- ===== src/Orders/Settlement.antt =====
-- `FinalizeMatchWithPrice` on a valid store: which rows it fills, by how much, and the trade that it
-- records.
use markets_service.Base.{
  ℕ, ◌+◌, ◌≡◌, inl, inr, refl, sym, ap, subst, ◌∙◌, false, [], ◌∷◌, ◌++◌, ok, Member, Bool-cases,
  if◌then◌else◌,
}
use markets_service.Base.Int.{pos}
use markets_service.Orders.{Order, TradeFill, Store, Status, matching, Numeric}
use markets_service.Orders.Effects.{Amount, FillStatus}
use markets_service.Orders.Fill.{Topped}
use markets_service.Orders.Matches.{
  filled_to, trade_of, insert_trade_fill, finalize_match_with_price,
}
use markets_service.Orders.Table.{has_id}
use markets_service.Orders.Table.Laws.{Member-update_where, Member_of_update_where}
use markets_service.Orders.Validity.{IsValid, Effects-IsValid}
use markets_service.Text.{Text, text_eq, is_empty}
use markets_service.Text.Laws.{text_eq_iff}
use markets_service.Text.Decimal.{print_int}
use markets_service.Orders.Settled.{
  Settled, finalize-Settled, Settled-Effects, filled_row, not_twice,
}

-- What a settled match has done to one of its two orders.
pub record IsFilledBy (order_id : Text) (n : ℕ) (s t : Store) : Type 0 where
  pub row : Order
  pub d : ℕ
  pub f : ℕ
  pub st : Status
  pub there : Member row s.orders
  pub same_id : row.order_id ≡ order_id
  pub reserved : row.status ≡ matching
  pub desired : Amount row.desired_amount d
  pub filled : Amount row.filled_amount f
  pub new_status : FillStatus (f + n) d st
  pub now : Member (filled_to (print_int (pos (f + n))) st row) t.orders

-- The row of another id stands in the table before the fill exactly as after it.
kept_back :
    (order_id : Text) (n : ℕ) (s t : Store) (o r : Order)
    → Topped order_id n s o t
    → text_eq r.order_id order_id ≡ false
    → Member r t.orders
    → Member r s.orders
kept_back order_id n s t o r x f m =
    let change = filled_to (print_int (pos (x.f + n))) x.st in
    elim (Member_of_update_where r (has_id order_id) change s.orders
      (subst (Member r) (ap (λ (y : Store). y.orders) x.store) m)) [
        | inl there ↦ there
        | inr (q, there, met, e) ↦ absurd (cc (ap (λ (z : Order). text_eq z.order_id order_id) e))
      ]

pub kept :
    (order_id : Text) (n : ℕ) (s t : Store) (o r : Order)
    → Topped order_id n s o t
    → text_eq r.order_id order_id ≡ false
    → Member r s.orders
    → Member r t.orders
kept order_id n s t o r x f m = subst (Member r) (ap (λ (y : Store). y.orders) (sym x.store)) (
    Member-update_where r (has_id order_id) (filled_to (print_int (pos (x.f + n))) x.st) s.orders f
      m)

-- The one trade that a settled match records.
abbrev pub IsRecorded : Text → Text → Text → Store → Store → Type 0
IsRecorded taker_id maker_id amount s t =
    (fill : TradeFill) × (t.fills ≡ s.fills ++ fill ∷ [])
    × (fill.size ≡ amount)
    × (fill.taker_order_id ≡ taker_id)
    × (fill.maker_order_id ≡ maker_id)

text_neq_sym : (a b : Text) → text_eq a b ≡ false → text_eq b a ≡ false
text_neq_sym a b h = elim (Bool-cases (text_eq b a)) [
  | inr f ↦ f
  | inl e ↦ absurd (cc (h, (text_eq_iff a b).1 (sym ((text_eq_iff b a).0 e))))
]

module _ (num : Numeric) (taker_id maker_id price amount : Text) (n : ℕ) (s t : Store)
    (v : IsValid num s) (an : Amount amount n)
    (done : finalize_match_with_price taker_id maker_id price amount s ≡ ok t) where
  settled : Settled num taker_id maker_id price amount n s t
  settled = finalize-Settled num taker_id maker_id price amount n s t v an done

  distinct : text_eq taker_id maker_id ≡ false
  distinct = elim (Bool-cases (text_eq taker_id maker_id)) [
    | inr f ↦ f
    | inl e ↦ absurd (
        not_twice num taker_id n s settled.between settled.after settled.taker settled.maker
          settled.still_valid settled.taker_fill
          (subst (λ i. Topped i n settled.between settled.maker settled.after)
            (sym ((text_eq_iff taker_id maker_id).0 e)) settled.maker_fill))
  ]

  filled_taker : IsFilledBy taker_id n s t
  unfolding insert_trade_fill
  filled_taker =
      let x = settled.taker_fill in
      let changed = filled_to (print_int (pos (x.f + n))) x.st x.row in
      record {
        row = x.row;
        d = x.d;
        f = x.f;
        st = x.st;
        there = x.there;
        same_id = x.same_id;
        reserved = x.reserved;
        desired = x.desired;
        filled = x.filled;
        new_status = x.new_status;
        now = subst (Member changed) (ap (λ (y : Store). y.orders) (sym settled.result)) (
            kept maker_id n settled.between settled.after settled.maker changed settled.maker_fill
              (subst (λ i. text_eq i maker_id ≡ false) (sym x.same_id) distinct)
              (filled_row taker_id n s settled.between settled.taker x));
      }

  filled_maker : IsFilledBy maker_id n s t
  unfolding insert_trade_fill
  filled_maker =
      let x = settled.maker_fill in
      let changed = filled_to (print_int (pos (x.f + n))) x.st x.row in
      record {
        row = x.row;
        d = x.d;
        f = x.f;
        st = x.st;
        there =
            kept_back taker_id n s settled.between settled.taker x.row settled.taker_fill
              (subst (λ i. text_eq i taker_id ≡ false) (sym x.same_id)
                (text_neq_sym taker_id maker_id distinct))
              x.there;
        same_id = x.same_id;
        reserved = x.reserved;
        desired = x.desired;
        filled = x.filled;
        new_status = x.new_status;
        now =
            subst (Member changed) (ap (λ (y : Store). y.orders) (sym settled.result))
              (filled_row maker_id n settled.between settled.after settled.maker x);
      }

  recorded : IsRecorded taker_id maker_id amount s t
  unfolding insert_trade_fill
  recorded =
      let x = settled.taker_fill in
      let y = settled.maker_fill in
      let fill =
        trade_of settled.taker settled.maker
          (if is_empty price then (settled.maker).limit_price else price) amount
          (settled.after).next_trade_id in
      (
        fill,
        ap (λ (z : Store). z.fills) settled.result
            ∙ ap (λ fs. fs ++ fill ∷ [])
                (ap (λ (z : Store). z.fills) y.store ∙ ap (λ (z : Store). z.fills) x.store),
        refl,
        ap (λ (z : Order). z.order_id) x.returned ∙ x.same_id,
        ap (λ (z : Order). z.order_id) y.returned ∙ y.same_id,
      )

  pub others_kept :
      (r : Order)
      → Member r s.orders
      → text_eq r.order_id taker_id ≡ false
      → text_eq r.order_id maker_id ≡ false
      → Member r t.orders
  unfolding insert_trade_fill
  others_kept r m no_taker no_maker =
      subst (Member r) (ap (λ (y : Store). y.orders) (sym settled.result)) (
        kept maker_id n settled.between settled.after settled.maker r settled.maker_fill no_maker
          (kept taker_id n s settled.between settled.taker r settled.taker_fill no_taker m))

-- On a store that satisfies the invariant, a match that is finalized for the natural number `n`
-- has two different orders. Both were reserved, both filled amounts grow by `n` to at most the
-- desired amount, the status becomes `filled` if the total is reached and `active` if not, exactly
-- one trade of that amount between the two is recorded, and the result satisfies the invariant.
pub finalize_fills :
    (num : Numeric) (taker_id maker_id price amount : Text) (n : ℕ) (s t : Store)
    → IsValid num s
    → Amount amount n
    → finalize_match_with_price taker_id maker_id price amount s ≡ ok t
    → IsFilledBy taker_id n s t
      × IsFilledBy maker_id n s t
      × (text_eq taker_id maker_id ≡ false)
      × IsRecorded taker_id maker_id amount s t
      × IsValid num t
finalize_fills num taker_id maker_id price amount n s t v an done = (
  filled_taker num taker_id maker_id price amount n s t v an done,
  filled_maker num taker_id maker_id price amount n s t v an done,
  distinct num taker_id maker_id price amount n s t v an done,
  recorded num taker_id maker_id price amount n s t v an done,
  Effects-IsValid s t v (
      Settled-Effects num taker_id maker_id price amount n s t
        (settled num taker_id maker_id price amount n s t v an done)),
)

-- On a store that satisfies the invariant, finalizing a match for a natural number leaves every
-- row of another id as it was, in every field.
pub finalize_others :
    (num : Numeric) (taker_id maker_id price amount : Text) (n : ℕ) (s t : Store)
    → IsValid num s
    → Amount amount n
    → finalize_match_with_price taker_id maker_id price amount s ≡ ok t
    → (r : Order) → Member r s.orders
    → text_eq r.order_id taker_id ≡ false
    → text_eq r.order_id maker_id ≡ false
    → Member r t.orders
finalize_others = others_kept
