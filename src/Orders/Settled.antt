-- ===== src/Orders/Settled.antt =====
-- The two fills of `FinalizeMatchWithPrice` on a valid store, and why they are of two orders.
use markets_service.Base.{
  ℕ, ◌+◌, ◌≡◌, inl, inr, sym, ap, subst, ◌∙◌, true, ok, Member, >>=-elim, ok_inj, if◌then◌else◌,
}
use markets_service.Base.Int.{pos}
use markets_service.Orders.{Order, Store, Status, matching, Numeric}
use markets_service.Orders.Effects.{Amount, FillStatus, traded, Effects, then_do, none_yet}
use markets_service.Orders.Fill.{Topped, apply_fill-Topped, apply_fill-Effect}
use markets_service.Orders.Matches.{
  apply_fill, filled_to, insert_trade_fill, finalize_match_with_price,
}
use markets_service.Orders.Table.{has_id}
use markets_service.Orders.Table.Laws.{Member-update_where_met}
use markets_service.Orders.Validity.{IsValid, Effect-IsValid, same_row}
use markets_service.Text.{Text, is_empty}
use markets_service.Text.Laws.{text_eq_iff}
use markets_service.Text.Decimal.{print_int}

-- The two fills and the trade of a match that is settled.
pub record Settled (num : Numeric) (taker_id maker_id price amount : Text) (n : ℕ) (s t : Store)
    : Type 0 where
  pub taker : Order
  pub maker : Order
  pub between : Store
  pub after : Store
  pub taker_fill : Topped taker_id n s taker between
  pub maker_fill : Topped maker_id n between maker after
  pub still_valid : IsValid num between
  pub result :
      t
      ≡ insert_trade_fill taker maker
          (if is_empty price then maker.limit_price else price)
          amount
          after

pub finalize-Settled :
    (num : Numeric) (taker_id maker_id price amount : Text) (n : ℕ) (s t : Store)
    → IsValid num s
    → Amount amount n
    → finalize_match_with_price taker_id maker_id price amount s ≡ ok t
    → Settled num taker_id maker_id price amount n s t
unfolding finalize_match_with_price
finalize-Settled num taker_id maker_id price amount n s t v an h =
    >>=-elim (apply_fill taker_id amount s) _ h λ a ea h₁.
      >>=-elim (apply_fill maker_id amount (a.1)) _ h₁ λ b eb h₂.
        let x = apply_fill-Topped taker_id amount n s a.0 a.1 an v.sound ea in
        let v' = Effect-IsValid s a.1 v (apply_fill-Effect num taker_id n s a.0 a.1 x) in
        let y = apply_fill-Topped maker_id amount n a.1 b.0 b.1 an v'.sound eb in
        record {
          taker = a.0;
          maker = b.0;
          between = a.1;
          after = b.1;
          taker_fill = x;
          maker_fill = y;
          still_valid = v';
          result = sym (ok_inj h₂);
        }

pub Settled-Effects :
    (num : Numeric) (taker_id maker_id price amount : Text) (n : ℕ) (s t : Store)
    → Settled num taker_id maker_id price amount n s t
    → Effects num s t
unfolding insert_trade_fill
Settled-Effects num taker_id maker_id price amount n s t z =
    then_do
      (then_do
        (then_do none_yet (apply_fill-Effect num taker_id n s z.taker z.between z.taker_fill))
        (apply_fill-Effect num maker_id n z.between z.maker z.after z.maker_fill))
      (traded _ (ap (λ (x : Store). x.orders) z.result) (ap (λ (x : Store). x.fills) z.result))

not_reserved : (k d : ℕ) (st : Status) → FillStatus k d st → st ≡ matching → ⊥
not_reserved k d st (inl (lt, e)) h = cc
not_reserved k d st (inr (same, e)) h = cc

-- The state in which a fill leaves its row, in the table after it.
pub filled_row :
    (order_id : Text) (n : ℕ) (s t : Store) (o : Order) (x : Topped order_id n s o t)
    → Member (filled_to (print_int (pos (x.f + n))) x.st x.row) t.orders
filled_row order_id n s t o x =
    subst (Member (filled_to (print_int (pos (x.f + n))) x.st x.row))
      (ap (λ (y : Store). y.orders) (sym x.store))
      (Member-update_where_met x.row (has_id order_id) (filled_to (print_int (pos (x.f + n))) x.st)
        s.orders ((text_eq_iff (x.row).order_id order_id).1 x.same_id) x.there)

-- A row that has been filled is no longer reserved, so no order trades with itself.
pub not_twice :
    (num : Numeric) (order_id : Text) (n : ℕ) (s t u : Store) (o r : Order)
    → IsValid num t
    → Topped order_id n s o t
    → Topped order_id n t r u
    → ⊥
not_twice num order_id n s t u o r v x y =
    let changed = filled_to (print_int (pos (x.f + n))) x.st x.row in
    let same : has_id changed.order_id y.row ≡ true =
      (text_eq_iff (y.row).order_id (x.row).order_id).1 (y.same_id ∙ sym x.same_id) in
    let e =
      same_row num t.orders changed y.row v.no_clash (filled_row order_id n s t o x) y.there same in
    not_reserved (x.f + n) x.d x.st x.new_status (sym (ap (λ (z : Order). z.status) e) ∙ y.reserved)
