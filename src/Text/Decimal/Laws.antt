-- ===== src/Text/Decimal/Laws.antt =====
-- Reading what was printed.
use mathlib.Core.List.{cons-ne-nil}
use markets_service.Base.{
  ℕ, zero, suc, ◌+◌, ◌/◌, ◌%◌, ◌≤◌, ◌≡◌, ◌≢◌, refl, true, [], ◌∷◌, some, arith, ◌==◌, Bool-cases,
  inl, inr, All,
}
use markets_service.Base.Int.{ℤ, pos, negsuc}
use markets_service.Text.{Text, is_space, trim_space}
use markets_service.Text.Laws.{NoSpace, trim_space-NoSpace}
use markets_service.Text.Decimal.{
  scan, scan_nat, set_string, digits, print_nat, print_int, is_digit,
}

scan_last : (n : ℕ) (out : Text) → scan ((b'0' + n % 10) ∷ out) (n / 10) ≡ scan out n
unfolding scan
scan_last n out = ground arith

scan-digits : (f n : ℕ) (out : Text) → n ≤ f → scan (digits f n out) 0 ≡ scan out n
unfolding digits
scan-digits zero n out h = let e : n ≡ 0 = omega arith in rw e
scan-digits (suc f) n out h = elim (Bool-cases (n == 0)) [
  | inl e ↦ rw e (let z : n ≡ 0 = ground arith in rw z)
  | inr e ↦ rw e (
      let w : n / 10 ≤ f = ground arith in
      rw (scan-digits f (n / 10) ((b'0' + n % 10) ∷ out) w) (scan_last n out))
]

-- A text of digits.
abbrev pub Digits : Text → Type 0
Digits = All (λ c. is_digit c ≡ true)

digits-Digits : (f n : ℕ) (out : Text) → Digits out → Digits (digits f n out)
unfolding digits
digits-Digits zero n out h = h
digits-Digits (suc f) n out h = elim (Bool-cases (n == 0)) [
  | inl e ↦ rw e h
  | inr e ↦ rw e (digits-Digits f (n / 10) _ (ground arith, h))
]

digits-ne-nil : (f n : ℕ) (out : Text) → out ≢ [] → digits f n out ≢ []
unfolding digits
digits-ne-nil zero n out h = h
digits-ne-nil (suc f) n out h = elim (Bool-cases (n == 0)) [
  | inl e ↦ rw e h
  | inr e ↦ rw e (digits-ne-nil f (n / 10) _ (λ q. cc))
]

pub print_nat-Digits : (n : ℕ) → Digits (print_nat n)
unfolding print_nat
print_nat-Digits n = elim (Bool-cases (n == 0)) [
  | inl e ↦ rw e (refl, tt)
  | inr e ↦ rw e (digits-Digits n n [] tt)
]

pub print_nat-ne-nil : (n : ℕ) → print_nat n ≢ []
unfolding print_nat digits
print_nat-ne-nil zero = λ q. cc
print_nat-ne-nil (suc n) =
    ground (arith, digits-ne-nil n (suc n / 10) ((b'0' + suc n % 10) ∷ []) (cons-ne-nil _ _))

pub scan-print_nat : (n : ℕ) → scan (print_nat n) 0 ≡ some n
unfolding print_nat
scan-print_nat n = elim (Bool-cases (n == 0)) [
  | inl e ↦ rw e (let z : n ≡ 0 = ground arith in rw z (unfold scan in refl))
  | inr e ↦ rw e (rw (scan-digits n n [] (omega arith)) (unfold scan in refl))
]

scan_nat-scan : (s : Text) → s ≢ [] → scan_nat s ≡ scan s 0
unfolding scan_nat
scan_nat-scan [] h = absurd (h refl)
scan_nat-scan (c ∷ s) h = refl

pub scan_nat-print_nat : (n : ℕ) → scan_nat (print_nat n) ≡ some n
scan_nat-print_nat n = rw (scan_nat-scan _ (print_nat-ne-nil n)) (scan-print_nat n)

set_string-Digits :
    (s : Text) (n : ℕ) → Digits s → scan_nat s ≡ some n → set_string s ≡ some (pos n)
unfolding set_string
set_string-Digits [] n d h = unfold scan_nat in cc
set_string-Digits (c ∷ s) n d h = ground (arith, d.0)

-- Every integer is read back from its print.
pub set_string-print_int : (z : ℤ) → set_string (print_int z) ≡ some z
unfolding print_int
set_string-print_int (pos n) =
    set_string-Digits (print_nat n) n (print_nat-Digits n) (scan_nat-print_nat n)
set_string-print_int (negsuc n) = unfold set_string in rw (scan_nat-print_nat (suc n)) refl

Digits-NoSpace : (s : Text) → Digits s → NoSpace s
unfolding is_space
Digits-NoSpace [] d = tt
Digits-NoSpace (c ∷ s) d = (ground arith, Digits-NoSpace s d.1)

pub print_int-NoSpace : (z : ℤ) → NoSpace (print_int z)
unfolding print_int
print_int-NoSpace (pos n) = Digits-NoSpace _ (print_nat-Digits n)
print_int-NoSpace (negsuc n) =
    (unfold is_space in refl, Digits-NoSpace _ (print_nat-Digits (suc n)))

pub trim_space-print_int : (z : ℤ) → trim_space (print_int z) ≡ print_int z
trim_space-print_int z = trim_space-NoSpace (print_int z) (print_int-NoSpace z)
