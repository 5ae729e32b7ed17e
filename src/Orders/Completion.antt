-- ===== src/Orders/Completion.antt =====
-- When `FinalizeMatchWithPrice` succeeds: two reserved rows with room for the fill are enough.
use Prim.Native.Nat.{Ordering}
use markets_service.Base.{
  ℕ, ◌+◌, ◌≤◌, ◌≡◌, inl, inr, refl, ap, ◌∙◌, Bool, true, false, ◌&&◌, List, some, ok, arith, Member,
  Option-cases, All-Member, if◌then◌else◌,
}
use markets_service.Base.Int.{pos}
use markets_service.Orders.{Order, Store, Status, active, matching, filled, Numeric}
use markets_service.Orders.Amounts.{cmp}
use markets_service.Orders.Effects.{Amount}
use markets_service.Orders.Fill.{
  apply_fill-Topped, apply_fill-Effect, add_decimal_string_lem, compare_decimal_strings_lem,
}
use markets_service.Orders.Matches.{
  apply_fill, status_after, filled_to, insert_trade_fill, finalize_match_with_price,
}
use markets_service.Orders.Settlement.{kept}
use markets_service.Orders.Table.{find_row, has_id, has_status, update_where}
use markets_service.Orders.Table.Laws.{find_row-some, find_row-none}
use markets_service.Orders.Validity.{IsValid, Effect-IsValid, same_row}
use markets_service.Text.{Text, text_eq, is_empty}
use markets_service.Text.Laws.{text_eq_refl}
use markets_service.Text.Decimal.{print_int}

find_row_hit :
    (test : Order → Bool) (os : List Order) (o : Order)
    → Member o os
    → test o ≡ true
    → (r : Order) × (find_row test os ≡ some r)
find_row_hit test os o m h = elim (Option-cases (find_row test os)) [
  | inr found ↦ found
  | inl e ↦ absurd (cc (All-Member (λ r. test r ≡ false) o os (find_row-none test os e) m, h))
]

-- The reserved row of an id is the one that a fill finds.
find_reserved :
    (num : Numeric) (s : Store) (o : Order)
    → IsValid num s
    → Member o s.orders
    → o.status ≡ matching
    → find_row (λ r. has_id o.order_id r && has_status matching r) s.orders ≡ some o
find_reserved num s o v m h =
    let test = λ (r : Order). has_id o.order_id r && has_status matching r in
    let met : test o ≡ true = ground (arith, text_eq_refl o.order_id, h) in
    let (r, e) = find_row_hit test s.orders o m met in
    let (there, found) = find_row-some test s.orders r e in
    e ∙ ap some (same_row num s.orders o r v.no_clash m there (ground (arith, found)))

status_after_total :
    (k d : ℕ) → k ≤ d → (st : Status) × (status_after (cmp (pos k) (pos d)) ≡ ok st)
status_after_total k d le =
    elim (cmp (pos k) (pos d))
        as (λ c. cmp (pos k) (pos d) ≡ c → (st : Status) × (status_after c ≡ ok st)) [
          | Ordering.lt ↦ λ e. (active, refl)
          | Ordering.eq ↦ λ e. (filled, refl)
          | Ordering.gt ↦ λ e. absurd (ground (arith, e, le))
        ]
      refl

apply_fill_total :
    (num : Numeric) (s : Store) (o : Order) (amount : Text) (n d f : ℕ)
    → IsValid num s
    → Member o s.orders
    → o.status ≡ matching
    → Amount amount n
    → Amount o.desired_amount d
    → Amount o.filled_amount f
    → f + n ≤ d
    → (r : Order) × (t : Store) × (apply_fill o.order_id amount s ≡ ok (r, t))
unfolding apply_fill
apply_fill_total num s o amount n d f v m h an ad af le =
    let (st, e) = status_after_total (f + n) d le in
    let change = filled_to (print_int (pos (f + n))) st in
    (
      change o,
      record s { orders = update_where (has_id o.order_id) change s.orders },
      rw
          (
            find_reserved num s o v m h,
            add_decimal_string_lem o.filled_amount amount f n af an,
            compare_decimal_strings_lem o.desired_amount (f + n) d ad,
            e,
          )
          refl,
    )

-- On a store that satisfies the invariant, a match of two reserved rows of different ids, each with
-- room for the natural number `n`, is finalized: no error path is left.
pub finalize_total :
    (num : Numeric) (s : Store) (taker maker : Order) (price amount : Text) (n d f e g : ℕ)
    → IsValid num s
    → Member taker s.orders
    → Member maker s.orders
    → taker.status ≡ matching
    → maker.status ≡ matching
    → text_eq maker.order_id taker.order_id ≡ false
    → Amount amount n
    → Amount taker.desired_amount d
    → Amount taker.filled_amount f
    → Amount maker.desired_amount e
    → Amount maker.filled_amount g
    → f + n ≤ d
    → g + n ≤ e
    → (t : Store) × (finalize_match_with_price taker.order_id maker.order_id price amount s ≡ ok t)
unfolding finalize_match_with_price
finalize_total num s taker maker price amount n d f e g v tm mm tr mr differ an td tf md mf le le' =
    let (r, t, first) = apply_fill_total num s taker amount n d f v tm tr an td tf le in
    let x = apply_fill-Topped taker.order_id amount n s r t an v.sound first in
    let v' = Effect-IsValid s t v (apply_fill-Effect num taker.order_id n s r t x) in
    let mm' = kept taker.order_id n s t r maker x differ mm in
    let (r', t', second) = apply_fill_total num t maker amount n e g v' mm' mr an md mf le' in
    (
      insert_trade_fill r r' (if is_empty price then r'.limit_price else price) amount t',
      rw (first, second) refl,
    )
