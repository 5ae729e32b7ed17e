-- ===== src/Float.antt =====
-- What the repository uses of `float64`: the operators, package math and `strconv.ParseFloat`.
use markets_service.Base.{ℕ, Bool, Option}
use markets_service.Text.{Text}

pub record Float64 : Type 1 where
  pub F : Type 0
  pub of_nat : ℕ → F
  pub plus : F → F → F
  pub minus : F → F → F
  pub times : F → F → F
  pub divide : F → F → F
  pub negate : F → F
  pub less : F → F → Bool
  pub max : F → F → F
  pub min : F → F → F
  pub abs : F → F
  pub sqrt : F → F
  pub round : F → F
  pub pow10 : ℕ → F
  pub parse_float : Text → Option F
