-- ===== src/Text/Hex/Numbers.antt =====
-- Reading a number that was printed in base sixteen, and its width.
use markets_service.Base.{
  ℕ, zero, suc, ◌+◌, ◌-◌, ◌*◌, ◌/◌, ◌%◌, ◌^◌, ◌≤◌, ◌<◌, ◌≡◌, refl, ◌∙◌, [], ◌∷◌, ◌++◌, length,
  replicate, length-append, length-replicate, Option, none, some, arith, Bool-cases, inl, inr, ◌==◌,
  if◌then◌else◌,
}
use markets_service.Text.{Text}
use markets_service.Text.Hex.{hex_value, hex_digit, hex_digits, print_hex}
use markets_service.Text.Hex.Laws.{hex_value-hex_digit}

-- The number that hexadecimal digits behind the number `n` spell.
abbrev pub scan_hex : Text → ℕ → Option ℕ
scan_hex [] n = some n
scan_hex (c ∷ s) n = elim (hex_value c) [ none ↦ none | some d ↦ scan_hex s (n * 16 + d) ]

scan_hex_last : (n : ℕ) (out : Text) → scan_hex (hex_digit (n % 16) ∷ out) (n / 16) ≡ scan_hex out n
scan_hex_last n out =
    let whole : n / 16 * 16 + n % 16 ≡ n = omega arith in
    let digit = hex_value-hex_digit (n % 16) (omega arith) in rw (scan_hex, digit, whole) refl

scan_hex-hex_digits :
    (f n : ℕ) (out : Text) → n ≤ f → scan_hex (hex_digits f n out) 0 ≡ scan_hex out n
unfolding hex_digits
scan_hex-hex_digits zero n out h = let e : n ≡ 0 = omega arith in rw e refl
scan_hex-hex_digits (suc f) n out h = elim (Bool-cases (n == 0)) [
  | inl e ↦ rw e (let z : n ≡ 0 = ground arith in rw z refl)
  | inr e ↦ rw e (
      let w : n / 16 ≤ f = ground arith in
      rw (scan_hex-hex_digits f (n / 16) (hex_digit (n % 16) ∷ out) w) (scan_hex_last n out))
]

scan_hex-replicate : (k : ℕ) (s : Text) → scan_hex (replicate k b'0' ++ s) 0 ≡ scan_hex s 0
unfolding hex_value
scan_hex-replicate zero s = refl
scan_hex-replicate (suc k) s = scan_hex-replicate k s

digits_of-read : (n : ℕ) → scan_hex (if n == 0 then b'0' ∷ [] else hex_digits n n []) 0 ≡ some n
digits_of-read n = elim (Bool-cases (n == 0)) [
  | inl e ↦ rw e (let z : n ≡ 0 = ground arith in rw z (unfold hex_value in refl))
  | inr e ↦ rw e (scan_hex-hex_digits n n [] (omega arith))
]

-- The padded digits spell the number.
pub scan_hex-print_hex : (w n : ℕ) → scan_hex (print_hex w n) 0 ≡ some n
unfolding print_hex
scan_hex-print_hex w n =
    scan_hex-replicate (w - length (if n == 0 then b'0' ∷ [] else hex_digits n n [])) _
    ∙ digits_of-read n

length-hex_digits :
    (f n k : ℕ) (out : Text) → n < 16 ^ k → length (hex_digits f n out) ≤ k + length out
unfolding hex_digits
length-hex_digits zero n k out h = omega arith
length-hex_digits (suc f) n zero out h = let z : n ≡ 0 = omega arith in rw z (omega arith)
length-hex_digits (suc f) n (suc k) out h = elim (Bool-cases (n == 0)) [
  | inl e ↦ rw e (omega arith)
  | inr e ↦
      let less : n / 16 < 16 ^ k = omega arith in
      rw e (omega (arith, length-hex_digits f (n / 16) k (hex_digit (n % 16) ∷ out) less))
]

-- A number that fits has exactly as many digits as the width.
pub length-print_hex : (w n : ℕ) → 0 < w → n < 16 ^ w → length (print_hex w n) ≡ w
unfolding print_hex
length-print_hex w n p h =
    length-append (replicate (w - length digits) b'0') digits
    ∙ (rw (length-replicate {A = ℕ} (w - length digits) b'0') (omega (arith, short)))
  where
    digits : Text
    digits = if n == 0 then b'0' ∷ [] else hex_digits n n []

    short : length digits ≤ w
    short = elim (Bool-cases (n == 0)) [
      | inl e ↦ rw e (omega arith)
      | inr e ↦ rw e (omega (arith, length-hex_digits n n w [] h))
    ]
