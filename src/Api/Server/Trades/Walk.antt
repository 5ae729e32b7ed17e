-- ===== src/Api/Server/Trades/Walk.antt =====
-- A client that reads the trades of a market page by page, from the id that each page gives it.
use mathlib.Core.List.{reverse, reverse-append}
use markets_service.Api.Server.Trades.{next_before_trade_id}
use markets_service.Base.{
  ℕ, zero, suc, ◌+◌, ◌-◌, ◌≤◌, ◌<◌, ◌≡◌, refl, ◌∙◌, ap, Bool, Bool-cases, true, false, List, [],
  ◌∷◌, ◌++◌, length, take, drop, select, Option, none, some, ok, err, ◌==◌, inl, inr, All, arith,
  length-append,
}
use markets_service.Orders.{TradeFill, Store, Numeric}
use markets_service.Orders.History.{last_id, list_trades, trade_rows, of_market}
use markets_service.Orders.History.Newest.{IsChronicle, trade_rows-reverse}
use markets_service.Orders.History.Paging.{trade_rows-last_id}
use markets_service.Text.{Text, to_lower}

append_to : List TradeFill → Option (List TradeFill) → Option (List TradeFill)
append_to items none = none
append_to items (some rest) = some (items ++ rest)

module _ (num : Numeric) (created_at : TradeFill → ℕ) (asset sub : Text) (limit : ℕ)
    (s : Store) where
  -- Pages are read until one gives no id to go on from: `none` where the rounds run out, or a query
  -- fails.
  unfoldable pub read_pages : ℕ → ℕ → Option (List TradeFill)
  unfolding append_to
  read_pages zero before = none
  read_pages (suc rounds) before = elim (list_trades num created_at asset sub before limit s) [
    | err e ↦ none
    | ok items ↦ elim (next_before_trade_id limit items) [
      | zero ↦ some items
      | suc next ↦ append_to items (read_pages rounds (suc next))
    ]
  ]

take-append-drop : (n : ℕ) (xs : List TradeFill) → take n xs ++ drop n xs ≡ xs
take-append-drop zero xs = refl
take-append-drop (suc n) [] = refl
take-append-drop (suc n) (x ∷ xs) = ap (λ t. x ∷ t) (take-append-drop n xs)

length-drop :
    (n : ℕ) (xs : List TradeFill) → length (take n xs) ≡ n → n + length (drop n xs) ≡ length xs
length-drop zero xs h = omega arith
length-drop (suc n) [] h = absurd (ground arith)
length-drop (suc n) (x ∷ xs) h = let rest = length-drop n xs (omega arith) in omega arith

take_short : (n : ℕ) (xs : List TradeFill) → (length (take n xs) == n) ≡ false → take n xs ≡ xs
take_short zero xs h = absurd (ground arith)
take_short (suc n) [] h = refl
take_short (suc n) (x ∷ xs) h = ap (λ t. x ∷ t) (take_short n xs (ground arith))

select_same :
    (p q : TradeFill → Bool) (xs : List TradeFill)
    → ((x : TradeFill) → p x ≡ q x)
    → select p xs ≡ select q xs
select_same p q [] e = refl
select_same p q (x ∷ xs) e = rw (e x, select_same p q xs e) refl

length-select : (p : TradeFill → Bool) (xs : List TradeFill) → length (select p xs) ≤ length xs
length-select p [] = omega arith
length-select p (x ∷ xs) = ground (arith, length-select p xs)

length-reverse : (xs : List TradeFill) → length (reverse xs) ≡ length xs
length-reverse [] = refl
length-reverse (x ∷ xs) =
    rw (reverse-append (x ∷ []) xs, length-append (reverse xs) (x ∷ []), length-reverse xs)
      (omega arith)

module _ (num : Numeric) (created_at : TradeFill → ℕ) (asset sub : Text) (n : ℕ) (s : Store) where
  rows : ℕ → List TradeFill
  rows before = trade_rows num created_at (to_lower asset) sub before s.fills

  list_trades-rows :
      (before : ℕ) {t : Text}
      → num.stored sub ≡ some t
      → list_trades num created_at asset sub before (suc n) s ≡ ok (take (suc n) (rows before))
  unfolding list_trades rows
  list_trades-rows before e = rw e refl

  -- The last page is all that is left.
  read_pages_last :
      (rounds before : ℕ) {t : Text}
      → num.stored sub ≡ some t
      → (length (take (suc n) (rows before)) == suc n) ≡ false
      → read_pages num created_at asset sub (suc n) s (suc rounds) before ≡ some (rows before)
  unfolding read_pages next_before_trade_id
  read_pages_last rounds before e short =
      rw (read_pages, list_trades-rows before e, short, take_short (suc n) (rows before) short) refl

  -- A full page is followed by the pages behind its last trade.
  read_pages_full :
      (rounds before k : ℕ) {t : Text}
      → num.stored sub ≡ some t
      → (length (take (suc n) (rows before)) == suc n) ≡ true
      → last_id (take (suc n) (rows before)) ≡ suc k
      → read_pages num created_at asset sub (suc n) s (suc rounds) before
        ≡ append_to
            (take (suc n) (rows before))
            (read_pages num created_at asset sub (suc n) s rounds (suc k))
  unfolding read_pages next_before_trade_id
  read_pages_full rounds before k e full last =
      rw (read_pages, list_trades-rows before e, full, last) refl

  read_pages-rows :
      (rounds before : ℕ) {t : Text}
      → num.stored sub ≡ some t
      → IsChronicle created_at s.fills
      → All (λ f. 0 < f.trade_id) s.fills
      → length (rows before) < rounds
      → read_pages num created_at asset sub (suc n) s rounds before ≡ some (rows before)
  read_pages-rows zero before e c p h = absurd (omega arith)
  read_pages-rows (suc rounds) before e c p h =
      elim (Bool-cases (length (take (suc n) (rows before)) == suc n)) [
        | inr short ↦ read_pages_last rounds before e short
        | inl full ↦
            let counted : length (take (suc n) (rows before)) ≡ suc n = ground arith in
            let (positive, left) =
              trade_rows-last_id num created_at (to_lower asset) sub before n s.fills c p
                (unfold rows in counted) in
            let k = last_id (take (suc n) (rows before)) - 1 in
            let last : last_id (take (suc n) (rows before)) ≡ suc k = unfold rows in omega arith in
            let ended = length-drop (suc n) (rows before) counted in
            let behind : rows (suc k) ≡ drop (suc n) (rows before) =
              rw (← last) (unfold rows in left) in
            read_pages_full rounds before k e full last
            ∙ (rw (read_pages-rows rounds (suc k) e c p (rw behind (omega arith)), behind)
                (unfold append_to in ap some (take-append-drop (suc n) (rows before))))
      ]

  -- Every trade of the market, the last recorded first.
  abbrev pub history : List TradeFill
  history = reverse (select (of_market num created_at (to_lower asset) sub) s.fills)

  rows-history : IsChronicle created_at s.fills → rows 0 ≡ history
  unfolding rows
  rows-history c =
      trade_rows-reverse num created_at (to_lower asset) sub 0 s.fills c
      ∙ ap reverse (select_same _ _ s.fills (λ f. ground arith))

  -- A client that starts at the newest page and goes on from the id that each page gives reads every
  -- trade of the market exactly once, the last recorded first, and comes to an end: one round more
  -- than there are trades is enough. Trades are recorded with ascending positive ids, and none is
  -- older than one before it.
  pub read_pages-history :
      (rounds : ℕ) {t : Text}
      → num.stored sub ≡ some t
      → IsChronicle created_at s.fills
      → All (λ f. 0 < f.trade_id) s.fills
      → length s.fills < rounds
      → read_pages num created_at asset sub (suc n) s rounds 0 ≡ some history
  read_pages-history rounds e c p h =
      read_pages-rows rounds 0 e c p (rw (rows-history c) (omega (arith, fewer)))
      ∙ ap some (rows-history c)
    where
      fewer : length history ≤ length s.fills
      fewer =
          rw (length-reverse (select (of_market num created_at (to_lower asset) sub) s.fills))
            (length-select (of_market num created_at (to_lower asset) sub) s.fills)
