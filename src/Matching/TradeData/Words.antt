-- ===== src/Matching/TradeData/Words.antt =====
-- Words of 32 bytes as numbers: `SetBytes` reads base 256, and `int256FromWord` is two's complement.
use native.Mathlib.Nat.{pow-suc, mul-le-mul_right}
use markets_service.Base.{
  ℕ, zero, suc, ◌+◌, ◌-◌, ◌*◌, ◌/◌, ◌%◌, ◌^◌, ◌≤◌, ◌<◌, ◌≡◌, ◌⊎◌, inl, inr, refl, ap, ◌∙◌, true,
  false, [], ◌∷◌, ◌++◌, length, length-append, All-append, arith, Bool-cases,
}
use markets_service.Base.Int.{ℤ, pos, negsuc, ◌+ℤ◌, pos_part, neg_part, sub_neg}
use markets_service.Matching.TradeData.{set_from, set_bytes, high_bit_clear, int256_from_word}
use markets_service.Text.Hex.{Bytes}
use markets_service.Text.Hex.Laws.{IsBytes}

pow-length : (b : ℕ) (bs : Bytes) → 256 ^ length (b ∷ bs) ≡ 256 * 256 ^ length bs
pow-length b bs = omega (arith, pow-suc 256 (length bs))

set_from_first : (b : ℕ) (bs : Bytes) → set_from 0 (b ∷ bs) ≡ set_from b bs
unfolding set_from
set_from_first b bs = let e : 0 * 256 + b ≡ b = omega arith in rw e

spread : (n b p : ℕ) → (n * 256 + b) * p ≡ n * (256 * p) + b * p
spread n b p = omega arith

set_from_shift : (n : ℕ) (bs : Bytes) → set_from n bs ≡ n * 256 ^ length bs + set_from 0 bs
unfolding set_from
set_from_shift n [] = omega arith
set_from_shift n (b ∷ bs) = omega (
  arith,
  spread n b (256 ^ length bs),
  ap (λ t. n * t) (pow-length b bs),
  set_from_shift (n * 256 + b) bs,
  set_from_shift b bs,
  set_from_first b bs,
  pow-length b bs,
)

set_from-lt : (bs : Bytes) → IsBytes bs → set_from 0 bs < 256 ^ length bs
unfolding set_from
set_from-lt [] h = omega arith
set_from-lt (b ∷ bs) h = omega (
  arith,
  set_from_shift b bs,
  set_from_first b bs,
  set_from-lt bs h.1,
  pow-length b bs,
  mul-le-mul_right (256 ^ length bs) h.0,
)

set_from-append : (n : ℕ) (bs cs : Bytes) → set_from n (bs ++ cs) ≡ set_from (set_from n bs) cs
unfolding set_from
set_from-append n [] cs = refl
set_from-append n (b ∷ bs) cs = set_from-append (n * 256 + b) bs cs

-- The number as `k` bytes, the highest first.
unfoldable pub be_bytes : ℕ → ℕ → Bytes
be_bytes zero n = []
be_bytes (suc k) n = be_bytes k (n / 256) ++ (n % 256) ∷ []

pub length-be_bytes : (k n : ℕ) → length (be_bytes k n) ≡ k
unfolding be_bytes
length-be_bytes zero n = refl
length-be_bytes (suc k) n =
    omega (arith, length-append (be_bytes k (n / 256)) (n % 256 ∷ []), length-be_bytes k (n / 256))

pub be_bytes-IsBytes : (k n : ℕ) → IsBytes (be_bytes k n)
unfolding be_bytes
be_bytes-IsBytes zero n = tt
be_bytes-IsBytes (suc k) n =
    All-append (λ b. b < 256) (be_bytes k (n / 256)) (n % 256 ∷ []) (be_bytes-IsBytes k (n / 256))
      (omega arith, tt)

set_from-be_bytes : (k n : ℕ) → n < 256 ^ k → set_from 0 (be_bytes k n) ≡ n
unfolding be_bytes set_from
set_from-be_bytes zero n h = omega arith
set_from-be_bytes (suc k) n h =
    let small : n / 256 < 256 ^ k = omega (arith, pow-suc 256 k) in
    set_from-append 0 (be_bytes k (n / 256)) (n % 256 ∷ [])
    ∙ (rw (set_from-be_bytes k (n / 256) small) (omega arith))

pub set_bytes-be_bytes : (k n : ℕ) → n < 256 ^ k → set_bytes (be_bytes k n) ≡ n
unfolding set_bytes
set_bytes-be_bytes k n h = set_from-be_bytes k n h

tail_pow : (bs : Bytes) → suc (length bs) ≡ 32 → 256 ^ length bs ≡ 2 ^ 248
tail_pow bs e = let l : length bs ≡ 31 = omega arith in rw l

-- The high bit of the first byte says whether the number is below half of the range.
high_bit_lem :
    (w : Bytes) (h : length w ≡ 32)
    → IsBytes w
    → ((high_bit_clear w ≡ true) × (set_bytes w < 2 ^ 255))
      ⊎ ((high_bit_clear w ≡ false) × (2 ^ 255 ≤ set_bytes w) × (set_bytes w < 2 ^ 256))
unfolding set_bytes
high_bit_lem [] e h = absurd (omega arith)
high_bit_lem (b ∷ bs) e h = elim (Bool-cases (high_bit_clear (b ∷ bs))) [
  | inl t ↦ inl (
    t,
    ground
        (arith, set_from_first b bs, set_from_shift b bs, set_from-lt bs h.1, tail_pow bs e, h.0),
  )
  | inr t ↦ inr (
    t,
    ground
        (arith, set_from_first b bs, set_from_shift b bs, set_from-lt bs h.1, tail_pow bs e, h.0),
    ground
        (arith, set_from_first b bs, set_from_shift b bs, set_from-lt bs h.1, tail_pow bs e, h.0),
  )
]

-- A word of 32 bytes is read as a number in the range of int256, which differs from the unsigned
-- number by nothing or by 2 ^ 256.
pub int256_from_word_lem :
    (w : Bytes)
    → length w ≡ 32
    → IsBytes w
    → (neg_part (int256_from_word w) ≤ 2 ^ 255)
      × (pos_part (int256_from_word w) < 2 ^ 255)
      × ((int256_from_word w ≡ pos (set_bytes w))
          ⊎ (int256_from_word w +ℤ pos (2 ^ 256) ≡ pos (set_bytes w)))
unfolding int256_from_word
int256_from_word_lem w e h = elim (high_bit_lem w e h) [
  | inl (clear, small) ↦ rw (e, clear) (omega arith, omega arith, inl refl)
  | inr (set, large, fits) ↦
      rw (e, set, sub_neg (set_bytes w) (2 ^ 256) fits)
        (omega arith, omega arith, inr (unfold ◌+ℤ◌ in ground arith))
]

-- A number of the range of int256, as a word.
unfoldable pub word_of_int : ℤ → Bytes
word_of_int (pos n) = be_bytes 32 n
word_of_int (negsuc n) = be_bytes 32 (2 ^ 256 - suc n)

pub word_of_int-IsBytes : (z : ℤ) → (length (word_of_int z) ≡ 32) × IsBytes (word_of_int z)
unfolding word_of_int
word_of_int-IsBytes (pos n) = (length-be_bytes 32 n, be_bytes-IsBytes 32 n)
word_of_int-IsBytes (negsuc n) = (length-be_bytes 32 _, be_bytes-IsBytes 32 _)

unsigned_word : (n : ℕ) → n < 2 ^ 256 → set_bytes (be_bytes 32 n) ≡ n
unsigned_word n h = set_bytes-be_bytes 32 n h

-- Every integer from -2 ^ 255 up to below 2 ^ 255 is read back from the word that encodes it.
pub int256_from_word-word_of_int :
    (z : ℤ) → neg_part z ≤ 2 ^ 255 → pos_part z < 2 ^ 255 → int256_from_word (word_of_int z) ≡ z
unfolding int256_from_word word_of_int
int256_from_word-word_of_int (pos n) h k =
    let e = unsigned_word n (omega arith) in
    elim (high_bit_lem (be_bytes 32 n) (length-be_bytes 32 n) (be_bytes-IsBytes 32 n)) [
      | inl (clear, small) ↦ rw (length-be_bytes 32 n, clear, e)
      | inr (set, large, fits) ↦ absurd (omega (arith, e))
    ]
int256_from_word-word_of_int (negsuc n) h k =
    let m = 2 ^ 256 - suc n in
    let e = unsigned_word m (omega arith) in
    elim (high_bit_lem (be_bytes 32 m) (length-be_bytes 32 m) (be_bytes-IsBytes 32 m)) [
      | inl (clear, small) ↦ absurd (omega (arith, e))
      | inr (set, large, fits) ↦
          rw (length-be_bytes 32 m, set, e, sub_neg m (2 ^ 256) (omega arith))
            (ap negsuc (omega arith))
    ]
