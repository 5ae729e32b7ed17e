-- ===== src/Tests/Settlement.antt =====
-- Matches of the sample book that are settled, and what other clients do meanwhile.
use markets_service.Base.{
  ◌≡◌, refl, false, List, [], ◌∷◌, ◌++◌, some, none, ok, inl, inr, arith, Member, map,
}
use markets_service.Base.Int.{pos, ◌+ℤ◌}
use markets_service.Orders.{Order, Store, TradeFill, buy, filled, cancelled}
use markets_service.Orders.Amounts.{add_decimal_string, compare_decimal_strings}
use markets_service.Orders.Completion.{finalize_total}
use markets_service.Orders.Entry.{cancel_by_owner_nonce}
use markets_service.Orders.Foreign.{Reach-reserved}
use markets_service.Orders.Matches.{apply_fill, insert_trade_fill, finalize_match_with_price}
use markets_service.Orders.Reach.{
  Reach, start, then_step, finalizes, cancels, Reach-IsValid, Reach-closed, Reach-terms,
}
use markets_service.Orders.Settlement.{IsFilledBy, IsRecorded, finalize_fills, finalize_others}
use markets_service.Orders.Table.{find_row, update_where}
use markets_service.Orders.Validity.{IsValid, terms}
use markets_service.Text.{codes, text_eq, lower, to_lower}
use markets_service.Text.Decimal.{scan, scan_nat, set_string, digits, print_nat, print_int}
use markets_service.Tests.Samples.{plain, asset, maker, taker, reserved, store_of, order}

-- A third order, which rests while the two are reserved.
abbrev other_order : Order
other_order = order (codes "x") buy (codes "2") (codes "0") (codes "9") none 3

abbrev held : Store
held = store_of (reserved maker ∷ reserved taker ∷ other_order ∷ [])

held-IsValid : IsValid plain held
unfolding terms text_eq set_string scan scan_nat
held-IsValid = record {
  no_clash = ((refl, (refl, tt)), ((refl, tt), (tt, tt)));
  sound = (
    (7, 0, refl, refl, omega arith, inl refl),
    ((5, 0, refl, refl, omega arith, inl refl), ((2, 0, refl, refl, omega arith, inl refl), tt)),
  );
}

abbrev trade : TradeFill
trade = record {
  trade_id = 1;
  asset_address = asset;
  sub_id = codes "3";
  price = codes "10";
  size = codes "5";
  aggressor_side = buy;
  taker_order_id = codes "t";
  maker_order_id = codes "m";
}

abbrev settled : Store
settled = record {
  orders =
      record maker { filled_amount = codes "5" }
      ∷ record taker { filled_amount = codes "5"; status = filled }
      ∷ other_order
      ∷ [];
  fills = trade ∷ [];
  next_trade_id = 2;
}

finalized :
    finalize_match_with_price (codes "t") (codes "m") (codes "10") (codes "5") held ≡ ok settled
unfolding finalize_match_with_price apply_fill insert_trade_fill find_row update_where
    add_decimal_string compare_decimal_strings set_string scan scan_nat digits print_nat print_int
    text_eq lower to_lower ◌+ℤ◌
finalized = refl

five : set_string (codes "5") ≡ some (pos 5)
unfolding set_string scan scan_nat
five = refl

finalize_fills_example :
    IsFilledBy (codes "t") 5 held settled
    × IsFilledBy (codes "m") 5 held settled
    × (text_eq (codes "t") (codes "m") ≡ false)
    × IsRecorded (codes "t") (codes "m") (codes "5") held settled
    × IsValid plain settled
finalize_fills_example =
    finalize_fills plain (codes "t") (codes "m") (codes "10") (codes "5") 5 held settled
      held-IsValid five finalized

apart :
    (text_eq (codes "x") (codes "t") ≡ false)
    × (text_eq (codes "x") (codes "m") ≡ false)
    × (text_eq (codes "m") (codes "t") ≡ false)
unfolding text_eq
apart = (refl, refl, refl)

finalize_others_example : Member other_order settled.orders
finalize_others_example =
    finalize_others plain (codes "t") (codes "m") (codes "10") (codes "5") 5 held settled
      held-IsValid five finalized other_order (inr (inr (inl refl))) (apart.0) (apart.1)

amount_7 : set_string (codes "7") ≡ some (pos 7)
unfolding set_string scan scan_nat
amount_7 = refl

amount_0 : set_string (codes "0") ≡ some (pos 0)
unfolding set_string scan scan_nat
amount_0 = refl

finalize_total_example :
    (t : Store) × (finalize_match_with_price (codes "t") (codes "m") (codes "10") (codes "5") held
      ≡ ok t)
finalize_total_example =
    finalize_total plain held (reserved taker) (reserved maker) (codes "10") (codes "5") 5 5 0 7 0
      held-IsValid (inr (inl refl)) (inl refl) refl refl (apart.2) five five amount_0 amount_7
      amount_0 (omega arith) (omega arith)

settling : Reach plain held settled
settling =
    then_step start (finalizes (codes "t") (codes "m") (codes "10") (codes "5") 5 five finalized)

Reach-IsValid_example : IsValid plain settled
Reach-IsValid_example = Reach-IsValid plain held settled held-IsValid settling

Reach-terms_example : (new : List Order) × (map terms settled.orders ≡ map terms held.orders ++ new)
Reach-terms_example = Reach-terms plain held settled held-IsValid settling

settled-IsValid : IsValid plain settled
settled-IsValid = Reach-IsValid plain held settled held-IsValid settling

abbrev withdrawn : Order
withdrawn = record other_order { status = cancelled }

abbrev after_cancel : Store
after_cancel = store_of (reserved maker ∷ reserved taker ∷ withdrawn ∷ [])

cancelled_other :
    cancel_by_owner_nonce plain (codes "x") (codes "7") held ≡ ok (withdrawn, after_cancel)
unfolding cancel_by_owner_nonce find_row update_where text_eq
cancelled_other = refl

Reach-reserved_example : Member (reserved taker) after_cancel.orders
Reach-reserved_example =
    Reach-reserved plain held after_cancel (reserved taker) held-IsValid
      (then_step start (cancels (codes "x") (codes "7") withdrawn cancelled_other)) (tt, tt) refl
      (inr (inl refl))

abbrev closed : Store
closed = record {
  orders =
      record maker { filled_amount = codes "5" }
      ∷ record taker { filled_amount = codes "5"; status = filled }
      ∷ withdrawn
      ∷ [];
  fills = trade ∷ [];
  next_trade_id = 2;
}

cancelled_later :
    cancel_by_owner_nonce plain (codes "x") (codes "7") settled ≡ ok (withdrawn, closed)
unfolding cancel_by_owner_nonce find_row update_where text_eq
cancelled_later = refl

Reach-closed_example :
    Member (record taker { filled_amount = codes "5"; status = filled }) closed.orders
Reach-closed_example =
    Reach-closed plain settled closed (record taker { filled_amount = codes "5"; status = filled })
      settled-IsValid (then_step start (cancels (codes "x") (codes "7") withdrawn cancelled_later))
      refl (inr (inl refl))
