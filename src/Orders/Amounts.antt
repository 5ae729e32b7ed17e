-- ===== src/Orders/Amounts.antt =====
-- internal/orders/repository.go: sums and comparisons of amounts, which are texts in base ten.
use Prim.Native.Nat.{compare, Ordering}
use markets_service.Base.{◌+◌, Result, ok, ◌>>=◌, or_error}
use markets_service.Base.Int.{ℤ, ◌+ℤ◌, pos_part, neg_part}
use markets_service.Orders.{RepoError, invalid_decimal}
use markets_service.Text.{Text}
use markets_service.Text.Decimal.{set_string, print_int}

-- `big.Int.Cmp`
abbrev pub cmp : ℤ → ℤ → Ordering
cmp a b = compare (pos_part a + neg_part b) (pos_part b + neg_part a)

-- `addDecimalString`
unfoldable pub add_decimal_string : Text → Text → Result RepoError Text
add_decimal_string a b = do
  left ← or_error (set_string a) invalid_decimal
  right ← or_error (set_string b) invalid_decimal
  ok (print_int (left +ℤ right))

-- `compareDecimalStrings`
unfoldable pub compare_decimal_strings : Text → Text → Result RepoError Ordering
compare_decimal_strings a b = do
  left ← or_error (set_string a) invalid_decimal
  right ← or_error (set_string b) invalid_decimal
  ok (cmp left right)
