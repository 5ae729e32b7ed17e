-- ===== src/Matching/Crossing/Market.antt =====
-- What the crossing test of the acquired candidate says of the whole market.
use markets_service.Base.{
  ◌≡◌, inl, inr, refl, sym, subst, ◌∙◌, Bool, true, false, some, Result, ok, arith, Member,
}
use markets_service.Base.Int.{ℤ, ◌<ℤ◌, leb_ℤ}
use markets_service.Matching.Crossing.{crosses}
use markets_service.Matching.Crossing.Laws.{crosses-choose_taker_maker}
use markets_service.Orders.{Order, Side, buy, sell, Store, Numeric, MatchCandidate, side_eq}
use markets_service.Orders.Acquired.{Acquired, acquire-Acquired, resting_parts}
use markets_service.Orders.Book.{expire_orders, resting}
use markets_service.Orders.Book.Priority.{best_by_side_first, Outranks}
use markets_service.Orders.Matches.{acquire_match_candidate}
use markets_service.Text.{Text, to_lower}
use markets_service.Text.Decimal.{set_string}

side_of_eq : (a : Side) → side_eq a buy ≡ true → a ≡ buy
side_of_eq buy h = refl
side_of_eq _ h = ground arith

sell_of_eq : (a : Side) → side_eq a sell ≡ true → a ≡ sell
sell_of_eq sell h = refl
sell_of_eq _ h = ground arith

spread :
    (b a kr kq : ℤ) (bid ask r q : Order)
    → leb_ℤ a b ≡ false
    → Outranks buy (b, bid) (kr, r)
    → Outranks sell (a, ask) (kq, q)
    → kr <ℤ kq
spread b a kr kq bid ask r q h (inl x) (inl y) = ground arith
spread b a kr kq bid ask r q h (inl x) (inr y) = ground arith
spread b a kr kq bid ask r q h (inr x) (inl y) = ground arith
spread b a kr kq bid ask r q h (inr x) (inr y) = ground arith

module _ (num : Numeric) (asset sub : Text) (now : ℤ) (s t : Store) (c : MatchCandidate)
    (r q : Order) (kr kq : ℤ) (buys : Member r (expire_orders now s).orders)
    (sells : Member q (expire_orders now s).orders)
    (r_rests : resting num (to_lower asset) sub buy r ≡ true)
    (q_rests : resting num (to_lower asset) sub sell q ≡ true)
    (r_price : set_string r.limit_price_ticks ≡ some kr)
    (q_price : set_string q.limit_price_ticks ≡ some kq) where
  apart_of_Acquired :
      crosses c.taker c.maker ≡ ok false → Acquired num asset sub now s c t → kr <ℤ kq
  apart_of_Acquired h x =
      let s' = expire_orders now s in
      let (b, mb, rb, pb, ob) =
        best_by_side_first num (to_lower asset) sub buy s' x.bid r kr x.best_bid buys r_rests
          r_price in
      let (a, ma, ra, pa, oa) =
        best_by_side_first num (to_lower asset) sub sell s' x.ask q kq x.best_ask sells q_rests
          q_price in
      let side_b =
        side_of_eq (x.bid).side ((resting_parts num (to_lower asset) sub buy x.bid rb).0) in
      let side_a =
        sell_of_eq (x.ask).side ((resting_parts num (to_lower asset) sub sell x.ask ra).0) in
      let tested = crosses-choose_taker_maker x.bid x.ask b a side_b side_a pb pa in
      let h' = subst (λ (y : MatchCandidate). crosses y.taker y.maker ≡ ok false) x.chosen h in
      spread b a kr kq x.bid x.ask r q (ok_false (sym tested ∙ h')) ob oa
    where
      ok_false : {E : Type 0} {u v : Bool} → ◌≡◌ {A = Result E Bool} (ok u) (ok v) → u ≡ v
      ok_false e = cc

-- When the matcher acquires a candidate whose prices do not cross, then among the orders of that
-- market that rest once the due ones have expired, every buy whose price is a number is priced
-- strictly below every sell whose price is a number.
pub uncrossed_market :
    (num : Numeric) (asset sub : Text) (now : ℤ) (s t : Store) (c : MatchCandidate) (r q : Order)
    (kr kq : ℤ)
    → acquire_match_candidate num asset sub now s ≡ ok (some c, t)
    → crosses c.taker c.maker ≡ ok false
    → Member r (expire_orders now s).orders
    → Member q (expire_orders now s).orders
    → resting num (to_lower asset) sub buy r ≡ true
    → resting num (to_lower asset) sub sell q ≡ true
    → set_string r.limit_price_ticks ≡ some kr
    → set_string q.limit_price_ticks ≡ some kq
    → kr <ℤ kq
uncrossed_market num asset sub now s t c r q kr kq e h mr mq rr rq pr pq =
    apart_of_Acquired num asset sub now s t c r q kr kq mr mq rr rq pr pq h
      (acquire-Acquired num asset sub now s c t e)
