-- ===== src/Rational.antt =====
-- Fractions for the values of `math/big.Rat`. They are not reduced: nothing below depends on it.
use markets_service.Base.{ℕ, ◌*◌, Bool}
use markets_service.Base.Int.{ℤ, pos, negsuc, ◌*ℤ◌, ◌-ℤ◌, quo, rem, leb_ℤ, eqb_ℤ}

-- The denominator of a value of the program is positive.
pub record Rat : Type 0 where
  pub num : ℤ
  pub den : ℕ

-- `Quo` by a positive fraction, `Inv` of a positive fraction, `Mul`, `Sub`, `Neg`.
abbrev pub numerator_ℕ : ℤ → ℕ
numerator_ℕ (pos n) = n
numerator_ℕ (negsuc n) = 0

unfoldable pub quotient : Rat → Rat → Rat
quotient a b = record { num = a.num *ℤ pos b.den; den = a.den * numerator_ℕ b.num }

unfoldable pub inverse : Rat → Rat
inverse a = record { num = pos a.den; den = numerator_ℕ a.num }

unfoldable pub product : Rat → Rat → Rat
product a b = record { num = a.num *ℤ b.num; den = a.den * b.den }

unfoldable pub difference : Rat → Rat → Rat
difference a b = record { num = a.num *ℤ pos b.den -ℤ b.num *ℤ pos a.den; den = a.den * b.den }

-- `IsInt`, and the `Num` of a fraction that is one.
unfoldable pub is_int : Rat → Bool
is_int a = eqb_ℤ (rem a.num (pos a.den)) (pos 0)

unfoldable pub integer : Rat → ℤ
integer a = quo a.num (pos a.den)

-- `Sign() <= 0`.
unfoldable pub not_above_zero : Rat → Bool
not_above_zero a = leb_ℤ a.num (pos 0)
