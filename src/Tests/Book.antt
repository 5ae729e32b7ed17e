-- ===== src/Tests/Book.antt =====
-- The best orders of the sample book, and a book that is not crossed.
use markets_service.Base.{◌≡◌, refl, true, false, [], ◌∷◌, some, none, ok, inl, inr, Member}
use markets_service.Base.Int.{ℤ, pos, leb_ℤ, ◌<ℤ◌}
use markets_service.Matching.Crossing.{crosses}
use markets_service.Matching.Crossing.Laws.{crosses-choose_taker_maker}
use markets_service.Matching.Crossing.Market.{uncrossed_market}
use markets_service.Orders.{Order, Store, buy, sell, MatchCandidate}
use markets_service.Orders.Book.{
  keyed_rows, precedes, insert_row, order_by, side_of_book, list_by_side, best_by_side, resting,
  is_due, expire_orders,
}
use markets_service.Orders.Book.Priority.{Outranks, best_by_side_first, best_by_side-none}
use markets_service.Orders.Matches.{
  choose_taker_maker, reserve_orders, reserve_pair, acquire_match_candidate,
}
use markets_service.Orders.Table.{find_row, update_where, count_where, id_among}
use markets_service.Text.{codes, text_eq, text_lt, lower, to_lower}
use markets_service.Text.Decimal.{scan, scan_nat, set_string}
use markets_service.Tests.Samples.{plain, asset, maker, taker, reserved, store_of, order}

-- A better buy order, an older one at its price, and a sell order above both.
abbrev late : Order
late = order (codes "l") buy (codes "2") (codes "0") (codes "9") none 6

abbrev early : Order
early = order (codes "e") buy (codes "2") (codes "0") (codes "9") none 4

abbrev low : Order
low = order (codes "o") buy (codes "2") (codes "0") (codes "8") none 1

abbrev apart : Store
apart = store_of (late ∷ maker ∷ low ∷ early ∷ [])

nine : set_string (codes "9") ≡ some (pos 9)
unfolding set_string scan scan_nat
nine = refl

best : best_by_side plain asset (codes "3") buy apart ≡ ok (some early)
unfolding best_by_side list_by_side side_of_book order_by insert_row precedes keyed_rows text_eq
    set_string scan scan_nat
best = refl

late_rests : resting plain asset (codes "3") buy late ≡ true
unfolding text_eq
late_rests = refl

best_by_side_first_example :
    (k : ℤ) × Member early apart.orders
    × (resting plain asset (codes "3") buy early ≡ true)
    × (set_string early.limit_price_ticks ≡ some k)
    × Outranks buy (k, early) (pos 9, late)
best_by_side_first_example =
    best_by_side_first plain asset (codes "3") buy apart early late (pos 9) best (inl refl)
      late_rests nine

no_best : best_by_side plain (codes "0xff") (codes "3") buy apart ≡ ok none
unfolding best_by_side list_by_side side_of_book order_by insert_row precedes keyed_rows text_eq
    set_string scan scan_nat
no_best = refl

best_by_side-none_example : resting plain (codes "0xff") (codes "3") buy late ≡ false
best_by_side-none_example =
    best_by_side-none plain (codes "0xff") (codes "3") buy apart late (pos 9) no_best (inl refl)
      nine

abbrev best_pair : MatchCandidate
best_pair = record { taker = early; maker = maker }

acquired :
    acquire_match_candidate plain asset (codes "3") (pos 50) apart
    ≡ ok (some best_pair, store_of (late ∷ reserved maker ∷ low ∷ reserved early ∷ []))
unfolding acquire_match_candidate reserve_pair reserve_orders choose_taker_maker find_row
    update_where count_where id_among keyed_rows precedes insert_row order_by side_of_book
    list_by_side best_by_side is_due expire_orders text_eq text_lt lower to_lower scan scan_nat
    set_string
acquired = refl

not_crossed : crosses early maker ≡ ok false
unfolding crosses set_string scan scan_nat
not_crossed = refl

ten : set_string (codes "10") ≡ some (pos 10)
unfolding set_string scan scan_nat
ten = refl

rest :
    (resting plain (to_lower asset) (codes "3") buy late ≡ true)
    × (resting plain (to_lower asset) (codes "3") sell maker ≡ true)
    × Member late (expire_orders (pos 50) apart).orders
    × Member maker (expire_orders (pos 50) apart).orders
unfolding text_eq lower to_lower expire_orders update_where is_due
rest = (refl, refl, inl refl, inr (inl refl))

uncrossed_market_example : pos 9 <ℤ pos 10
uncrossed_market_example =
    uncrossed_market plain asset (codes "3") (pos 50) apart
      (store_of (late ∷ reserved maker ∷ low ∷ reserved early ∷ [])) best_pair late maker (pos 9)
      (pos 10) acquired not_crossed (rest.2) (rest.3) (rest.0) (rest.1) nine ten

twelve : set_string (codes "12") ≡ some (pos 12)
unfolding set_string scan scan_nat
twelve = refl

crosses-choose_taker_maker_example :
    let c = choose_taker_maker taker maker in crosses c.taker c.maker ≡ ok (leb_ℤ (pos 10) (pos 12))
crosses-choose_taker_maker_example =
    crosses-choose_taker_maker taker maker (pos 12) (pos 10) refl refl twelve ten
