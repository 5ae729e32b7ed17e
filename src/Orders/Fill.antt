-- ===== src/Orders/Fill.antt =====
-- `applyFill`: what a fill that succeeds has found, and the change that it is.
use markets_service.Base.{
  ℕ, ◌+◌, ◌≡◌, sym, ap, ◌∙◌, ◌&&◌, ok, arith, All, Member, >>=-elim, or_error-elim, ok_inj,
  All-Member,
}
use markets_service.Base.Int.{pos, add_pos}
use markets_service.Orders.{Order, Store, Status, matching, Numeric, not_found, status_eq}
use markets_service.Orders.Amounts.{cmp, add_decimal_string, compare_decimal_strings}
use markets_service.Orders.Matches.{apply_fill, filled_to, status_after}
use markets_service.Orders.Table.{find_row, update_where, has_id, has_status}
use markets_service.Orders.Table.Laws.{find_row-some}
use markets_service.Text.{Text, text_eq}
use markets_service.Text.Laws.{text_eq_iff}
use markets_service.Text.Decimal.{print_int}
use markets_service.Text.Decimal.Laws.{set_string-print_int}
use markets_service.Orders.Effects.{
  status_of_eq, and_left, and_right, Amount, IsSound, FillStatus, Effect, topped_up,
}

pub add_decimal_string_lem :
    (x y : Text) (f n : ℕ)
    → Amount x f
    → Amount y n
    → add_decimal_string x y ≡ ok (print_int (pos (f + n)))
unfolding add_decimal_string
add_decimal_string_lem x y f n hf hn = rw (hf, hn, add_pos f n)

pub compare_decimal_strings_lem :
    (y : Text) (k d : ℕ)
    → Amount y d
    → compare_decimal_strings (print_int (pos k)) y ≡ ok (cmp (pos k) (pos d))
unfolding compare_decimal_strings
compare_decimal_strings_lem y k d hd = rw (set_string-print_int (pos k), hd)

status_after-FillStatus :
    (k d : ℕ) (st : Status) → status_after (cmp (pos k) (pos d)) ≡ ok st → FillStatus k d st
status_after-FillStatus k d st h = ground arith

-- What a fill that succeeds has found and done.
pub record Topped (order_id : Text) (n : ℕ) (s : Store) (o : Order) (t : Store) : Type 0 where
  pub row : Order
  pub d : ℕ
  pub f : ℕ
  pub st : Status
  pub there : Member row s.orders
  pub same_id : row.order_id ≡ order_id
  pub reserved : row.status ≡ matching
  pub desired : Amount row.desired_amount d
  pub filled : Amount row.filled_amount f
  pub new_status : FillStatus (f + n) d st
  pub returned : o ≡ filled_to (print_int (pos (f + n))) st row
  pub store : t ≡ record s {
    orders = update_where (has_id order_id) (filled_to (print_int (pos (f + n))) st) s.orders;
  }

pub apply_fill-Topped :
    (order_id amount : Text) (n : ℕ) (s : Store) (o : Order) (t : Store)
    → Amount amount n
    → All IsSound s.orders
    → apply_fill order_id amount s ≡ ok (o, t)
    → Topped order_id n s o t
unfolding apply_fill
apply_fill-Topped order_id amount n s o t an sound h =
    let test = λ (r : Order). has_id order_id r && has_status matching r in
    or_error-elim (find_row test s.orders) not_found _ h λ r er h₁.
      let (m, met) = find_row-some test s.orders r er in
      let (d, f, ad, af, le, fin) = All-Member IsSound r s.orders sound m in
      >>=-elim (add_decimal_string r.filled_amount amount) _ h₁ λ new en h₂.
        let e : new ≡ print_int (pos (f + n)) =
          ok_inj (sym en ∙ add_decimal_string_lem r.filled_amount amount f n af an) in
        >>=-elim (compare_decimal_strings new r.desired_amount) _ h₂ λ c ec h₃.
          let q : c ≡ cmp (pos (f + n)) (pos d) =
            ok_inj (sym (rw e at ec) ∙ compare_decimal_strings_lem r.desired_amount (f + n) d ad) in
          >>=-elim (status_after c) _ h₃ λ st es h₄.
            let pair = ok_inj (sym (rw e at h₄)) in
            record {
              row = r;
              d = d;
              f = f;
              st = st;
              there = m;
              same_id =
                  (text_eq_iff r.order_id order_id).0
                    (and_left (text_eq r.order_id order_id) (status_eq r.status matching) met);
              reserved =
                  status_of_eq r.status matching
                    (and_right (text_eq r.order_id order_id) (status_eq r.status matching) met);
              desired = ad;
              filled = af;
              new_status = status_after-FillStatus (f + n) d st (rw q at es);
              returned = ap (λ (x : Order × Store). x.0) pair;
              store = ap (λ (x : Order × Store). x.1) pair;
            }

pub apply_fill-Effect :
    (num : Numeric) (order_id : Text) (n : ℕ) (s : Store) (o : Order) (t : Store)
    → Topped order_id n s o t
    → Effect num s t
apply_fill-Effect num order_id n s o t x =
    topped_up x.row x.d x.f n x.st x.there x.reserved x.desired x.filled x.new_status
      (ap (λ (y : Store). y.orders) x.store
        ∙ ap (λ i. update_where (has_id i) (filled_to (print_int (pos (x.f + n))) x.st) s.orders)
            (sym x.same_id))
      (ap (λ (y : Store). y.fills) x.store)
