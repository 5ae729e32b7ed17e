-- ===== src/Api/Custody/Laws.antt =====
-- What the guard encodes and decodes.
use markets_service.Api.Custody.{encode_uint256, decode_address, pad_word, last40}
use markets_service.Base.{
  ℕ, zero, suc, ◌^◌, ◌<◌, ◌≡◌, refl, ◌∙◌, ap, ◌∷◌, ◌++◌, length, replicate, some, Option-cases, inl,
  inr, ok, arith, All-append,
}
use markets_service.Base.Int.{pos, negsuc}
use markets_service.Text.{Text, codes, to_lower, lower, trim_space, has_prefix, is_space}
use markets_service.Text.Decimal.{set_string}
use markets_service.Text.Hex.{Bytes, decode_string, encode_to_string, hex_digit, print_hex}
use markets_service.Text.Hex.Laws.{
  IsBytes, decode_string-encode_to_string, length-encode_to_string, encode_to_string-NoSpace,
  to_lower-encode_to_string,
}
use markets_service.Text.Hex.Numbers.{scan_hex, scan_hex-print_hex, length-print_hex}
use markets_service.Text.Laws.{NoSpace, trim_space-NoSpace}

-- A word of the call: the digits of the subaccount's number, 64 of them if it fits.
pub record IsWord (id word : Text) : Type 0 where
  pub n : ℕ
  pub number : set_string (trim_space id) ≡ some (pos n)
  pub spells : scan_hex word 0 ≡ some n
  pub fits : n < 16 ^ 64 → length word ≡ 64

pub encode_uint256-IsWord : (id : Text) {word : Text} → encode_uint256 id ≡ ok word → IsWord id word
encode_uint256-IsWord id {word} h = elim (Option-cases (set_string (trim_space id))) [
  | inl e ↦ absurd (unfold encode_uint256 in ground arith)
  | inr (pos n, e) ↦
      let printed : print_hex 64 n ≡ word = unfold encode_uint256 in ground arith in
      record {
        n = n;
        number = e;
        spells = rw (← printed) (scan_hex-print_hex 64 n);
        fits = λ small. rw (← printed) (length-print_hex 64 n (omega arith) small);
      }
  | inr (negsuc n, e) ↦ absurd (unfold encode_uint256 in ground arith)
]

zeros-IsBytes : (n : ℕ) → IsBytes (replicate n 0)
zeros-IsBytes zero = tt
zeros-IsBytes (suc n) = (omega arith, zeros-IsBytes n)

word_of : Text → Text
word_of digits = replicate 24 b'0' ++ digits

pad_word-word_of : (digits : Text) → length digits ≡ 40 → pad_word (word_of digits) ≡ word_of digits
unfolding pad_word word_of
pad_word-word_of digits l = rw l refl

last40-word_of : (digits : Text) → length digits ≡ 40 → last40 (word_of digits) ≡ digits
unfolding last40 word_of
last40-word_of digits l = rw l refl

-- A padded address is read behind the twelve zero bytes before it.
decode_address-cleaned :
    (t digits : Text) {bs : Bytes}
    → trim_space (to_lower t) ≡ codes "0x" ++ word_of digits
    → length digits ≡ 40
    → decode_string digits ≡ some bs
    → decode_address t ≡ ok (codes "0x" ++ digits)
unfolding decode_address has_prefix
decode_address-cleaned t digits cleaned l d =
    rw (cleaned, pad_word-word_of digits l, last40-word_of digits l, d) refl

-- An address as a contract returns it: twelve zero bytes and the twenty bytes of the address.
pub decode_address-encoded :
    (bs : Bytes)
    → IsBytes bs
    → length bs ≡ 20
    → decode_address (codes "0x" ++ encode_to_string (replicate 12 0 ++ bs))
      ≡ ok (codes "0x" ++ encode_to_string bs)
unfolding encode_to_string hex_digit word_of
decode_address-encoded bs b l =
    decode_address-cleaned _ (encode_to_string bs) cleaned
      (omega (arith, length-encode_to_string bs)) (decode_string-encode_to_string bs b)
  where
    word : Bytes
    word = replicate 12 0 ++ bs

    word_bytes : IsBytes word
    word_bytes = All-append (λ c. c < 256) (replicate 12 0) bs (zeros-IsBytes 12) b

    prefixed : NoSpace (codes "0x" ++ encode_to_string word)
    prefixed = (
      unfold is_space in refl,
      (unfold is_space in refl, encode_to_string-NoSpace word word_bytes),
    )

    lowered : to_lower (codes "0x" ++ encode_to_string word) ≡ codes "0x" ++ encode_to_string word
    lowered =
        unfold to_lower lower in
        ap (λ s. b'0' ∷ b'x' ∷ s) (to_lower-encode_to_string word word_bytes)

    cleaned :
        trim_space (to_lower (codes "0x" ++ encode_to_string word))
        ≡ codes "0x" ++ encode_to_string word
    cleaned = ap trim_space lowered ∙ trim_space-NoSpace _ prefixed
