-- ===== src/Matching/Crossing/Laws.antt =====
-- When two orders cross, at which price they trade, and how much of them.
use Prim.Native.Nat.{min}
use markets_service.Base.{ℕ, ◌-◌, ◌≤◌, ◌≡◌, ok, arith, some}
use markets_service.Base.Int.{ℤ, pos, leb_ℤ, sub_pos}
use markets_service.Matching.Crossing.{
  crosses, min_decimal_string, subtract_decimal_string, remaining_amount,
}
use markets_service.Orders.{Order, buy, sell}
use markets_service.Orders.Matches.{choose_taker_maker}
use markets_service.Text.{Text}
use markets_service.Text.Decimal.{set_string, print_int}
use markets_service.Text.Decimal.Laws.{set_string-print_int}

-- A buy and a sell order whose prices are numbers cross, whichever of the two is the taker, exactly
-- when the price of the buy is at least the price of the sell.
pub crosses-choose_taker_maker :
    (bid ask : Order) (b a : ℤ)
    → bid.side ≡ buy
    → ask.side ≡ sell
    → set_string bid.limit_price_ticks ≡ some b
    → set_string ask.limit_price_ticks ≡ some a
    → let c = choose_taker_maker bid ask in crosses c.taker c.maker ≡ ok (leb_ℤ a b)
unfolding crosses choose_taker_maker
crosses-choose_taker_maker bid ask b a sb sa eb ea = ground arith

-- Amounts written as natural numbers.
abbrev pub Amount : Text → ℕ → Type 0
Amount t n = set_string t ≡ some (pos n)

subtract_decimal_string_lem :
    (x y : Text) (d f : ℕ)
    → Amount x d
    → Amount y f
    → f ≤ d
    → subtract_decimal_string x y ≡ ok (print_int (pos (d - f)))
unfolding subtract_decimal_string
subtract_decimal_string_lem x y d f hd hf le = ground (arith, sub_pos d f le)

pub remaining_amount_lem :
    (o : Order) (d f : ℕ)
    → Amount o.desired_amount d
    → Amount o.filled_amount f
    → f ≤ d
    → remaining_amount o ≡ print_int (pos (d - f))
unfolding remaining_amount
remaining_amount_lem o d f hd hf le =
    rw (subtract_decimal_string_lem o.desired_amount o.filled_amount d f hd hf le, remaining_amount)

-- Of two orders whose amounts are natural numbers and which are filled at most to the end, the fill
-- is the text of the smaller of the two amounts that are left.
pub min_decimal_string-remaining_amount :
    (t m : Order) (d f e g : ℕ)
    → Amount t.desired_amount d
    → Amount t.filled_amount f
    → Amount m.desired_amount e
    → Amount m.filled_amount g
    → f ≤ d
    → g ≤ e
    → min_decimal_string (remaining_amount t) (remaining_amount m)
      ≡ ok (print_int (pos (min (d - f) (e - g))))
unfolding min_decimal_string
min_decimal_string-remaining_amount t m d f e g hd hf he hg le le' =
    rw
      (
        remaining_amount_lem t d f hd hf le,
        remaining_amount_lem m e g he hg le',
        set_string-print_int (pos (d - f)),
        set_string-print_int (pos (e - g)),
      )
      (ground arith)
