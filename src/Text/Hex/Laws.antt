-- ===== src/Text/Hex/Laws.antt =====
-- Decoding what was encoded.
use mathlib.Core.Option
use markets_service.Base.{
  ℕ, ◌+◌, ◌*◌, ◌/◌, ◌%◌, ◌<◌, ◌≡◌, refl, [], ◌∷◌, some, arith, All, length, false,
}
use markets_service.Text.{is_space, lower, to_lower}
use markets_service.Text.Laws.{NoSpace}
use markets_service.Text.Hex.{Bytes, hex_value, hex_digit, decode_string, encode_to_string}

abbrev pub IsBytes : Bytes → Type 0
IsBytes = All (λ b. b < 256)

pub hex_value-hex_digit : (n : ℕ) → n < 16 → hex_value (hex_digit n) ≡ some n
unfolding hex_value hex_digit
hex_value-hex_digit n h = ground arith

pub decode_string-encode_to_string :
    (bs : Bytes) → IsBytes bs → decode_string (encode_to_string bs) ≡ some bs
unfolding decode_string encode_to_string Option.bind
decode_string-encode_to_string [] h = refl
decode_string-encode_to_string (b ∷ bs) h =
    rw
      (
        hex_value-hex_digit (b / 16) (omega arith),
        hex_value-hex_digit (b % 16) (omega arith),
        decode_string-encode_to_string bs h.1,
      )
      (let e : b / 16 * 16 + b % 16 ≡ b = omega arith in rw e)

pub length-encode_to_string : (bs : Bytes) → length (encode_to_string bs) ≡ 2 * length bs
unfolding encode_to_string
length-encode_to_string [] = refl
length-encode_to_string (b ∷ bs) = omega (arith, length-encode_to_string bs)

hex_digit-NoSpace : (n : ℕ) → n < 16 → is_space (hex_digit n) ≡ false
unfolding is_space hex_digit
hex_digit-NoSpace n h = ground arith

pub encode_to_string-NoSpace : (bs : Bytes) → IsBytes bs → NoSpace (encode_to_string bs)
unfolding encode_to_string
encode_to_string-NoSpace [] h = tt
encode_to_string-NoSpace (b ∷ bs) h = (
  hex_digit-NoSpace (b / 16) (omega arith),
  (hex_digit-NoSpace (b % 16) (omega arith), encode_to_string-NoSpace bs h.1),
)

lower-hex_digit : (n : ℕ) → n < 16 → lower (hex_digit n) ≡ hex_digit n
unfolding lower hex_digit
lower-hex_digit n h = ground arith

-- The letters that encoding writes are small.
pub to_lower-encode_to_string :
    (bs : Bytes) → IsBytes bs → to_lower (encode_to_string bs) ≡ encode_to_string bs
unfolding to_lower encode_to_string
to_lower-encode_to_string [] h = refl
to_lower-encode_to_string (b ∷ bs) h = cc (
  lower-hex_digit (b / 16) (omega arith),
  lower-hex_digit (b % 16) (omega arith),
  to_lower-encode_to_string bs h.1,
)
