-- ===== src/Matching/TradeData/RoundTrip.antt =====
-- The ABI encoding of a trade, written independently of the decoder, and its decoding.
use markets_service.Base.{
  ℕ, zero, suc, ◌+◌, ◌*◌, ◌^◌, ◌≤◌, ◌<◌, ◌≡◌, refl, ap, sym, subst, ◌∙◌, Bool, true, false, not,
  List, [], ◌∷◌, ◌++◌, take, drop, replicate, length, length-append, take-append, drop-append, All,
  All-append, ok, arith, ◌==◌,
}
use markets_service.Base.Int.{ℤ, pos_part, neg_part}
use markets_service.Matching.TradeData.{
  TradeActionData, set_bytes, word, trade_data_of_bytes, decode_trade_data,
}
use markets_service.Matching.TradeData.Words.{
  be_bytes, length-be_bytes, be_bytes-IsBytes, set_bytes-be_bytes, word_of_int,
  int256_from_word-word_of_int, word_of_int-IsBytes,
}
use markets_service.Text.{Text, codes, is_space, to_lower, trim_prefix}
use markets_service.Text.Laws.{NoSpace, trim_space-NoSpace}
use markets_service.Text.Hex.{Bytes, encode_to_string}
use markets_service.Text.Hex.Laws.{
  IsBytes, decode_string-encode_to_string, length-encode_to_string, encode_to_string-NoSpace,
  to_lower-encode_to_string,
}

-- `TradeData` of the trade module: the worst fee and the recipient are words that this program
-- does not read.
pub record TradeTuple : Type 0 where
  pub asset : Bytes
  pub sub_id : ℕ
  pub limit_price : ℤ
  pub desired_amount : ℤ
  pub worst_fee : Bytes
  pub recipient_id : Bytes
  pub is_bid : Bool

abbrev pub bool_word : Bool → Bytes
bool_word true = be_bytes 32 1
bool_word false = be_bytes 32 0

unfoldable pub tuple_words : TradeTuple → List Bytes
tuple_words t =
    (replicate 12 0 ++ t.asset)
    ∷ be_bytes 32 t.sub_id
    ∷ word_of_int t.limit_price
    ∷ word_of_int t.desired_amount
    ∷ t.worst_fee
    ∷ t.recipient_id
    ∷ bool_word t.is_bid
    ∷ []

unfoldable pub join : List Bytes → Bytes
join [] = []
join (w ∷ ws) = w ++ join ws

unfoldable pub encode_trade_data : TradeTuple → Text
unfolding join
encode_trade_data t = codes "0x" ++ encode_to_string (join (tuple_words t))

-- The ranges of the Solidity types.
pub record InRange (t : TradeTuple) : Type 0 where
  pub asset : (length t.asset ≡ 20) × IsBytes t.asset
  pub sub_id : t.sub_id < 256 ^ 32
  pub limit_price : (neg_part t.limit_price ≤ 2 ^ 255) × (pos_part t.limit_price < 2 ^ 255)
  pub desired_amount : (neg_part t.desired_amount ≤ 2 ^ 255) × (pos_part t.desired_amount < 2 ^ 255)
  pub worst_fee : (length t.worst_fee ≡ 32) × IsBytes t.worst_fee
  pub recipient_id : (length t.recipient_id ≡ 32) × IsBytes t.recipient_id

drop-nil {ℓ} : {A : Type ℓ} (n : ℕ) → drop {A = A} n [] ≡ []
drop-nil zero = refl
drop-nil (suc n) = refl

drop-add {ℓ} : {A : Type ℓ} (m n : ℕ) (xs : List A) → drop (m + n) xs ≡ drop n (drop m xs)
drop-add zero n xs = let e : 0 + n ≡ n = omega arith in rw e
drop-add (suc m) n [] = drop-nil (suc m + n) ∙ sym (drop-nil n)
drop-add (suc m) n (x ∷ xs) =
    let e : suc m + n ≡ suc (m + n) = omega arith in rw e (drop-add m n xs)

abbrev IsWord : Bytes → Type 0
IsWord w = (length w ≡ 32) × IsBytes w

word_first : (w rest : Bytes) → length w ≡ 32 → word (w ++ rest) 0 ≡ w
unfolding word
word_first w rest e = subst (λ n. take n (w ++ rest) ≡ w) e (take-append w rest)

word_next : (w rest : Bytes) (i : ℕ) → length w ≡ 32 → word (w ++ rest) (suc i) ≡ word rest i
unfolding word
word_next w rest i e =
    let n : suc i * 32 ≡ 32 + i * 32 = omega arith in
    rw (n, drop-add 32 (i * 32) (w ++ rest))
      (ap (λ t. take 32 (drop (i * 32) t))
        (subst (λ k. drop k (w ++ rest) ≡ rest) e (drop-append w rest)))

join-words :
    (ws : List Bytes) → All IsWord ws → (length (join ws) ≡ 32 * length ws) × IsBytes (join ws)
unfolding join
join-words [] h = (refl, tt)
join-words (w ∷ ws) h =
    let (l, b) = join-words ws h.1 in
    (
      omega (arith, length-append w (join ws), l, h.0.0),
      All-append (λ b. b < 256) w (join ws) h.0.1 b,
    )

tuple_words-IsWord : (t : TradeTuple) → InRange t → All IsWord (tuple_words t)
unfolding tuple_words
tuple_words-IsWord t r =
    let numeric : IsWord (be_bytes 32 t.sub_id) =
      (length-be_bytes 32 t.sub_id, be_bytes-IsBytes 32 t.sub_id) in
    let price = word_of_int-IsBytes t.limit_price in
    let amount = word_of_int-IsBytes t.desired_amount in
    (
      address_word,
      (numeric, (price, (amount, (r.worst_fee, (r.recipient_id, (flag_word t.is_bid, tt)))))),
    )
  where
    address_word : IsWord (replicate 12 0 ++ t.asset)
    address_word = (
      omega (arith, length-append (replicate 12 0) t.asset, r.asset.0),
      All-append (λ b. b < 256) (replicate 12 0) t.asset (omega arith) r.asset.1,
    )

    flag_word : (b : Bool) → IsWord (bool_word b)
    flag_word true = (length-be_bytes 32 1, be_bytes-IsBytes 32 1)
    flag_word false = (length-be_bytes 32 0, be_bytes-IsBytes 32 0)

-- Word `i` of the joined words is the one at that place.
abbrev nth : List Bytes → ℕ → Bytes
nth [] i = []
nth (w ∷ ws) zero = w
nth (w ∷ ws) (suc i) = nth ws i

word-join : (ws : List Bytes) (i : ℕ) → All IsWord ws → i < length ws → word (join ws) i ≡ nth ws i
unfolding join
word-join [] i h lt = elim lt [ ]
word-join (w ∷ ws) zero h lt = word_first w (join ws) h.0.0
word-join (w ∷ ws) (suc i) h lt = word_next w (join ws) i h.0.0 ∙ word-join ws i h.1 (omega arith)

set_bytes-bool_word : (b : Bool) → not (set_bytes (bool_word b) == 0) ≡ b
set_bytes-bool_word true = rw (set_bytes-be_bytes 32 1 (omega arith))
set_bytes-bool_word false = rw (set_bytes-be_bytes 32 0 (omega arith))

-- What the decoder is to give back.
unfoldable pub action_of : TradeTuple → TradeActionData
action_of t = record {
  asset = codes "0x" ++ encode_to_string t.asset;
  sub_id = t.sub_id;
  limit_price = t.limit_price;
  desired_amount = t.desired_amount;
  is_bid = t.is_bid;
}

to_lower-address :
    (bs : Bytes)
    → IsBytes bs
    → to_lower (codes "0x" ++ encode_to_string bs) ≡ codes "0x" ++ encode_to_string bs
unfolding to_lower
to_lower-address bs h = ap (λ s. 48 ∷ 120 ∷ s) (to_lower-encode_to_string bs h)

trade_data_of_bytes-join :
    (t : TradeTuple) → InRange t → trade_data_of_bytes (join (tuple_words t)) ≡ action_of t
unfolding trade_data_of_bytes action_of
trade_data_of_bytes-join t r =
    let ws = tuple_words-IsWord t r in
    let at = λ (i : ℕ) (lt : i < 7). word-join (tuple_words t) i ws (unfold tuple_words in lt) in
    rw
      (
        at 0 (omega arith),
        at 1 (omega arith),
        at 2 (omega arith),
        at 3 (omega arith),
        at 6 (omega arith),
      )
      (unfold tuple_words in
        rw (
          to_lower-address t.asset r.asset.1,
          set_bytes-be_bytes 32 t.sub_id r.sub_id,
          int256_from_word-word_of_int t.limit_price r.limit_price.0 r.limit_price.1,
          int256_from_word-word_of_int t.desired_amount r.desired_amount.0 r.desired_amount.1,
          set_bytes-bool_word t.is_bid,
        ))

-- The ABI encoding of a trade whose fields are in the ranges of their types, in hexadecimal behind
-- "0x", is decoded to its fields: the asset as the address in small letters, the price and the
-- amount as signed numbers, the side as a flag.
pub decode-encode_trade_data :
    (t : TradeTuple) → InRange t → decode_trade_data (encode_trade_data t) ≡ ok (action_of t)
unfolding decode_trade_data encode_trade_data trim_prefix is_space
decode-encode_trade_data t r =
    let (size, bytes) = join-words (tuple_words t) (tuple_words-IsWord t r) in
    let count : length (tuple_words t) ≡ 7 = unfold tuple_words in refl in
    let digits : length (encode_to_string (join (tuple_words t))) ≡ 448 =
      omega (arith, length-encode_to_string (join (tuple_words t)), size, count) in
    let plain : NoSpace (codes "0x" ++ encode_to_string (join (tuple_words t))) =
      (refl, (refl, encode_to_string-NoSpace (join (tuple_words t)) bytes)) in
    rw
      (
        trim_space-NoSpace _ plain,
        digits,
        decode_string-encode_to_string (join (tuple_words t)) bytes,
      )
      (ap ok (trade_data_of_bytes-join t r))
