-- ===== src/Api/Action/Prefix.antt =====
-- Small and capital letters in hexadecimal data and in its prefix.
use mathlib.Core.Option
use markets_service.Base.{
  ℕ, ◌≡◌, inl, inr, refl, sym, ap, ◌∙◌, Bool, true, false, ◌&&◌, [], ◌∷◌, length, arith, Bool-cases,
  ◌==◌,
}
use markets_service.Text.{Text, codes, trim_prefix, strip, lower, to_lower}
use markets_service.Text.Hex.{hex_value, decode_string}

hex_value-lower : (c : ℕ) → hex_value (lower c) ≡ hex_value c
unfolding hex_value lower
hex_value-lower c = ground arith

pub decode_string-to_lower : (s : Text) → decode_string (to_lower s) ≡ decode_string s
unfolding decode_string to_lower Option.bind
decode_string-to_lower [] = refl
decode_string-to_lower (c ∷ []) = refl
decode_string-to_lower (c ∷ d ∷ s) =
    rw (hex_value-lower c, hex_value-lower d, decode_string-to_lower s) refl

pub length-to_lower : (s : Text) → length (to_lower s) ≡ length s
unfolding to_lower
length-to_lower [] = refl
length-to_lower (c ∷ s) = omega (arith, length-to_lower s)

-- A text that begins with "0X".
abbrev pub has_capital_prefix : Text → Bool
has_capital_prefix (c ∷ d ∷ s) = c == 48 && d == 88
has_capital_prefix _ = false

lower_zero : (c : ℕ) → (lower c == 48) ≡ (c == 48)
unfolding lower
lower_zero c = ground arith

lower_x : (d : ℕ) → (d == 88) ≡ false → (lower d == 120) ≡ (d == 120)
unfolding lower
lower_x d h = ground (arith, h)

-- What is left of two texts that start alike, as `trim_prefix` sees it.
abbrev pick : Bool → Bool → Text → Text → Text
pick true true whole rest = rest
pick true false whole rest = whole
pick false b whole rest = whole

trim_prefix_two :
    (c d : ℕ) (s : Text)
    → trim_prefix (c ∷ d ∷ s) (codes "0x") ≡ pick (c == 48) (d == 120) (c ∷ d ∷ s) s
unfolding trim_prefix strip
trim_prefix_two c d s = ground arith

trim_prefix_one : (c : ℕ) → trim_prefix (c ∷ []) (codes "0x") ≡ c ∷ []
unfolding trim_prefix strip
trim_prefix_one c = ground arith

pick_lower :
    (a b : Bool) (whole rest : Text)
    → to_lower (pick a b whole rest) ≡ pick a b (to_lower whole) (to_lower rest)
pick_lower true true whole rest = refl
pick_lower true false whole rest = refl
pick_lower false b whole rest = refl

pick_capital :
    (c d : ℕ) (whole rest : Text)
    → (c == 48 && d == 88) ≡ false
    → pick (lower c == 48) (lower d == 120) whole rest ≡ pick (c == 48) (d == 120) whole rest
pick_capital c d whole rest h = elim (Bool-cases (c == 48)) [
  | inr f ↦ rw (lower_zero c, f) refl
  | inl t ↦ rw (lower_zero c, lower_x d (ground (arith, h, t))) refl
]

pub trim_prefix-to_lower :
    (s : Text)
    → has_capital_prefix s ≡ false
    → trim_prefix (to_lower s) (codes "0x") ≡ to_lower (trim_prefix s (codes "0x"))
unfolding to_lower
trim_prefix-to_lower [] h = unfold trim_prefix strip in refl
trim_prefix-to_lower (c ∷ []) h = trim_prefix_one (lower c) ∙ ap to_lower (sym (trim_prefix_one c))
trim_prefix-to_lower (c ∷ d ∷ s) h =
    trim_prefix_two (lower c) (lower d) (to_lower s)
    ∙ pick_capital c d (to_lower (c ∷ d ∷ s)) (to_lower s) h
    ∙ sym (pick_lower (c == 48) (d == 120) (c ∷ d ∷ s) s)
    ∙ ap to_lower (sym (trim_prefix_two c d s))
