-- ===== src/Text/Decimal.antt =====
-- `big.Int`'s text in base ten: `SetString(s, 10)`, which takes an optional sign and one or more
-- digits, and `String`.
pub mod Laws
use markets_service.Base.{
  ℕ, zero, suc, ◌+◌, ◌-◌, ◌*◌, ◌/◌, ◌%◌, Bool, true, false, ◌&&◌, [], ◌∷◌, Option, none, some, leb,
  ◌==◌, if◌then◌else◌,
}
use markets_service.Base.Int.{ℤ, pos, negsuc, neg}
use markets_service.Text.{Text}
use mathlib.Core.Option

abbrev pub is_digit : ℕ → Bool
is_digit c = leb b'0' c && leb c b'9'

-- The digits read behind the number `n`.
unfoldable pub scan : Text → ℕ → Option ℕ
scan [] n = some n
scan (c ∷ s) n = if is_digit c then scan s (n * 10 + (c - b'0')) else none

unfoldable pub scan_nat : Text → Option ℕ
scan_nat [] = none
scan_nat (c ∷ s) = scan (c ∷ s) 0

unfoldable pub set_string : Text → Option ℤ
unfolding scan scan_nat
set_string [] = none
set_string (c ∷ s) =
    if c == b'-'
    then Option.map neg (scan_nat s)
    else if c == b'+'
    then Option.map pos (scan_nat s)
    else Option.map pos (scan_nat (c ∷ s))

-- The digits of `n`, last first, put before `out`; the fuel `n` is enough.
unfoldable pub digits : ℕ → ℕ → Text → Text
digits zero n out = out
digits (suc f) n out =
    let rest = digits f (n / 10) ((b'0' + n % 10) ∷ out) in if n == 0 then out else rest

unfoldable pub print_nat : ℕ → Text
unfolding digits
print_nat n = if n == 0 then b'0' ∷ [] else digits n n []

unfoldable pub print_int : ℤ → Text
unfolding print_nat
print_int (pos n) = print_nat n
print_int (negsuc n) = b'-' ∷ print_nat (suc n)
