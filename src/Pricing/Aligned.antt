-- ===== src/Pricing/Aligned.antt =====
-- What a price that `Parse` accepts is worth in ticks.
use native.Mathlib.Nat.{div-add-mod'}
use markets_service.Base.{
  ℕ, ◌*◌, ◌/◌, ◌%◌, ◌^◌, ◌<◌, ◌≡◌, refl, sym, ap, subst, ◌∙◌, Bool, true, false, not, List, [], ◌∷◌,
  ◌++◌, Option, none, some, length, ok, arith, >>=-elim, fail_if-elim, or_error-elim, ok_inj,
  if◌then◌else◌,
}
use markets_service.Base.Int.{ℤ, pos, ◌*ℤ◌, quo, rem, leb_ℤ, eqb_ℤ, mul_pos}
use markets_service.Pricing.{
  value_required, invalid_decimal, misaligned, not_positive, division_by_zero, Fraction, Converter,
  Parsed, all_digits, split_point, fraction_of, fraction_of_parts, decimal_to_fraction,
  new_converter, format_ticks, parse,
}
use markets_service.Text.{Text, codes, is_empty, trim_space, trim_prefix}
use markets_service.Text.Decimal.{set_string, scan_nat, print_int}
use mathlib.Core.Option

-- A text of digits is read as a natural number.
set_string-all_digits :
    (s : Text) (z : ℤ) → all_digits s ≡ true → set_string s ≡ some z → (n : ℕ) × (z ≡ pos n)
unfolding set_string all_digits
set_string-all_digits [] z h e = cc
set_string-all_digits (c ∷ s) z h e = go (scan_nat (c ∷ s)) (plain e)
  where
    plain : set_string (c ∷ s) ≡ some z → Option.map pos (scan_nat (c ∷ s)) ≡ some z
    plain q = ground (arith, h, q)

    go : (r : Option ℕ) → Option.map pos r ≡ some z → (n : ℕ) × (z ≡ pos n)
    go none q = cc
    go (some n) q = (n, cc)

-- A fraction of two natural numbers, the lower one a power of ten.
abbrev pub Of : Fraction → ℕ → ℕ → Type 0
Of f p l = (f.numerator ≡ pos p) × (f.denominator ≡ pos (10 ^ l))

fraction_of-Of : (i s : Text) (f : Fraction) → fraction_of i s ≡ ok f → (p : ℕ) × Of f p (length s)
unfolding fraction_of
fraction_of-Of i s f h =
    let text = (if is_empty i then codes "0" else i) ++ s in
    fail_if-elim (is_empty text) invalid_decimal _ h λ some_digit h₁.
      fail_if-elim (not (all_digits text)) invalid_decimal _ h₁ λ plain h₂.
        or_error-elim (set_string text) invalid_decimal _ h₂ λ z e h₃.
          let (p, q) = set_string-all_digits text z (ground (arith, plain)) e in
          let r = ok_inj h₃ in
          (
            p,
            (
              ap (λ (x : Fraction). x.numerator) (sym r) ∙ q,
              ap (λ (x : Fraction). x.denominator) (sym r),
            ),
          )

fraction_of_parts-Of :
    (parts : List Text) (f : Fraction) → fraction_of_parts parts ≡ ok f → (p l : ℕ) × Of f p l
unfolding fraction_of_parts
fraction_of_parts-Of [] f h = cc
fraction_of_parts-Of (i ∷ []) f h = let (p, x) = fraction_of-Of i [] f h in (p, 0, x)
fraction_of_parts-Of (i ∷ s ∷ []) f h = let (p, x) = fraction_of-Of i s f h in (p, length s, x)
fraction_of_parts-Of (i ∷ s ∷ t ∷ ts) f h = cc

decimal_to_fraction-Of :
    (raw : Text) (f : Fraction) → decimal_to_fraction raw ≡ ok f → (p l : ℕ) × Of f p l
unfolding decimal_to_fraction
decimal_to_fraction-Of raw f h =
    fail_if-elim (is_empty (trim_space raw)) value_required _ h
      λ given h₁. fraction_of_parts-Of (split_point (trim_prefix (trim_space raw) (codes "+"))) f h₁

-- A price p / 10 ^ l that is t ticks of the size a / 10 ^ k.
pub record IsAligned (c : Converter) (tick price : Text) (r : Parsed) : Type 0 where
  pub size : Fraction
  pub value : Fraction
  pub a : ℕ
  pub k : ℕ
  pub p : ℕ
  pub l : ℕ
  pub t : ℕ
  pub size_read : decimal_to_fraction tick ≡ ok size
  pub value_read : decimal_to_fraction price ≡ ok value
  pub size_is : Of size a k
  pub value_is : Of value p l
  pub positive : 0 < t
  pub exact : p * 10 ^ k ≡ t * (10 ^ l * a)
  pub ticks : r.ticks ≡ print_int (pos t)
  pub display : format_ticks c r.ticks ≡ ok r.display

exact_quotient : (x y : ℕ) → eqb_ℤ (rem (pos x) (pos y)) (pos 0) ≡ true → x ≡ x / y * y
unfolding rem
exact_quotient x y e = let r : x % y ≡ 0 = ground (arith, e) in omega (arith, div-add-mod' x y, r)

positive_quotient : (x y : ℕ) → leb_ℤ (quo (pos x) (pos y)) (pos 0) ≡ false → 0 < x / y
unfolding quo
positive_quotient x y e = ground (arith, e)

quo_pos : (u v : ℕ) → quo (pos u) (pos v) ≡ pos (u / v)
unfolding quo
quo_pos u v = refl

new_converter-parts :
    (tick : Text) (precision : ℕ) (c : Converter)
    → new_converter tick precision ≡ ok c
    → (f : Fraction) × (decimal_to_fraction tick ≡ ok f)
      × (c.tick_numerator ≡ f.numerator)
      × (c.tick_denominator ≡ f.denominator)
unfolding new_converter
new_converter-parts tick precision c h = >>=-elim (decimal_to_fraction tick) _ h λ f e k.
    let q = ok_inj k in
    (
      f,
      e,
      ap (λ (x : Converter). x.tick_numerator) (sym q),
      ap (λ (x : Converter). x.tick_denominator) (sym q),
    )

-- A price that the converter of a tick size accepts is a whole number of ticks, more than none: as
-- numbers, the price p / 10 ^ l is exactly t times the tick size a / 10 ^ k. The ticks that are given
-- back are the text of t, and the price that is given back is what the converter displays for them.
pub parse-IsAligned :
    (tick price : Text) (precision : ℕ) (c : Converter) (r : Parsed)
    → new_converter tick precision ≡ ok c
    → parse c price ≡ ok r
    → IsAligned c tick price r
unfolding parse
parse-IsAligned tick price precision c r made h =
    >>=-elim (decimal_to_fraction price) _ h λ f ef h₁.
      let sn = f.numerator *ℤ c.tick_denominator in
      let sd = f.denominator *ℤ c.tick_numerator in
      fail_if-elim (eqb_ℤ sd (pos 0)) division_by_zero _ h₁ λ some_size h₂.
        fail_if-elim (not (eqb_ℤ (rem sn sd) (pos 0))) misaligned _ h₂ λ divides h₃.
          fail_if-elim (leb_ℤ (quo sn sd) (pos 0)) not_positive _ h₃ λ more h₄.
            >>=-elim (format_ticks c (print_int (quo sn sd))) _ h₄ λ shown es h₅.
              let (p, l, (np, dp)) = decimal_to_fraction-Of price f ef in
              let (g, eg, cn, cd) = new_converter-parts tick precision c made in
              let (a, k, (na, da)) = decimal_to_fraction-Of tick g eg in
              let x = p * 10 ^ k in
              let y = 10 ^ l * a in
              let top : sn ≡ pos x = rw (np, cd, da) (mul_pos p (10 ^ k)) in
              let bottom : sd ≡ pos y = rw (dp, cn, na) (mul_pos (10 ^ l) a) in
              let ticks : quo sn sd ≡ pos (x / y) = rw (top, bottom) (quo_pos x y) in
              let answer = ok_inj h₅ in
              record {
                size = g;
                value = f;
                a = a;
                k = k;
                p = p;
                l = l;
                t = x / y;
                size_read = eg;
                value_read = ef;
                size_is = (na, da);
                value_is = (np, dp);
                positive = positive_quotient x y (rw (top, bottom) at more);
                exact =
                    exact_quotient x y (
                      not_false (eqb_ℤ (rem (pos x) (pos y)) (pos 0))
                        (rw (top, bottom) at divides));
                ticks = ap (λ (z : Parsed). z.ticks) (sym answer) ∙ ap print_int ticks;
                display = subst (λ (z : Parsed). format_ticks c z.ticks ≡ ok z.display) answer es;
              }
  where
    not_false : (b : Bool) → not b ≡ false → b ≡ true
    not_false b q = ground (arith, q)
