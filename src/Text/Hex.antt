-- ===== src/Text/Hex.antt =====
-- `encoding/hex`: two digits to a byte. Decoding takes digits of both cases and refuses an odd
-- length; encoding writes small letters.
pub mod Laws
pub mod Numbers
use markets_service.Base.{
  ℕ, zero, suc, ◌+◌, ◌-◌, ◌*◌, ◌/◌, ◌%◌, ◌&&◌, List, [], ◌∷◌, ◌++◌, length, replicate, Option, none,
  some, leb, ltb, ◌==◌, if◌then◌else◌,
}
use markets_service.Text.{Text}
use mathlib.Core.Option

abbrev pub Bytes : Type 0
Bytes = List ℕ

unfoldable pub hex_value : ℕ → Option ℕ
hex_value c =
    if leb b'0' c && leb c b'9'
    then some (c - b'0')
    else if leb b'a' c && leb c b'f'
    then some (c - b'a' + 10)
    else if leb b'A' c && leb c b'F'
    then some (c - b'A' + 10)
    else none

unfoldable pub hex_digit : ℕ → ℕ
hex_digit n = if ltb n 10 then b'0' + n else b'a' + (n - 10)

-- `hex.DecodeString`
unfoldable pub decode_string : Text → Option Bytes
unfolding hex_value
decode_string [] = some []
decode_string (c ∷ []) = none
decode_string (c ∷ d ∷ s) =
    Option.bind (hex_value c)
      λ h. Option.bind (hex_value d) λ l. Option.map (λ bs. (h * 16 + l) ∷ bs) (decode_string s)

-- `hex.EncodeToString`
unfoldable pub encode_to_string : Bytes → Text
unfolding hex_digit
encode_to_string [] = []
encode_to_string (b ∷ bs) = hex_digit (b / 16) ∷ hex_digit (b % 16) ∷ encode_to_string bs

-- The digits of `n` in base sixteen, last first, put before `out`; the fuel `n` is enough.
unfoldable pub hex_digits : ℕ → ℕ → Text → Text
unfolding hex_digit
hex_digits zero n out = out
hex_digits (suc f) n out =
    let rest = hex_digits f (n / 16) (hex_digit (n % 16) ∷ out) in if n == 0 then out else rest

-- `fmt.Sprintf("%0⟨width⟩x", n)`
unfoldable pub print_hex : ℕ → ℕ → Text
unfolding hex_digits
print_hex width n =
    let digits = if n == 0 then b'0' ∷ [] else hex_digits n n [] in
    replicate (width - length digits) b'0' ++ digits
