-- ===== src/Orders/History/Paging.antt =====
-- Behind the last trade of a full page the query goes on where the page ended.
use mathlib.Core.List.{reverse, reverse-append}
use markets_service.Base.{
  ℕ, zero, suc, ◌≤◌, ◌<◌, ◌≡◌, refl, ◌∙◌, sym, ap, Bool, Bool-cases, true, ◌&&◌, List, [], ◌∷◌,
  ◌++◌, select, take, drop, length, append-nil, arith, All, ◌⊎◌, inl, inr, ltb,
}
use markets_service.Orders.{TradeFill, Numeric}
use markets_service.Orders.History.{last_id, trade_rows, of_market, is_before}
use markets_service.Orders.History.Newest.{
  IsChronicle, IsDescending, All-select, All-reverse, trade_rows-reverse, trade_rows-IsDescending,
}
use markets_service.Text.{Text}

select-append :
    (p : TradeFill → Bool) (xs ys : List TradeFill)
    → select p (xs ++ ys) ≡ select p xs ++ select p ys
select-append p [] ys = refl
select-append p (x ∷ xs) ys = elim (Bool-cases (p x)) [
  | inl e ↦ rw (e, select-append p xs ys) refl
  | inr e ↦ rw (e, select-append p xs ys) refl
]

select-reverse :
    (p : TradeFill → Bool) (xs : List TradeFill) → select p (reverse xs) ≡ reverse (select p xs)
select-reverse p [] = refl
select-reverse p (x ∷ xs) = elim (Bool-cases (p x)) [
  | inl e ↦
      rw (reverse-append (x ∷ []) xs, select-append p (reverse xs) (x ∷ []), select-reverse p xs, e)
        (sym (reverse-append (x ∷ []) (select p xs)))
  | inr e ↦
      rw (reverse-append (x ∷ []) xs, select-append p (reverse xs) (x ∷ []), select-reverse p xs, e)
        (append-nil (reverse (select p xs)))
]

-- A second selection of trades is one by both tests.
select-select :
    (p q r : TradeFill → Bool) (xs : List TradeFill)
    → All (λ x. r x ≡ (q x && p x)) xs
    → select p (select q xs) ≡ select r xs
select-select p q r [] h = refl
select-select p q r (x ∷ xs) h = elim (Bool-cases (q x)) [
  | inl e ↦ rw (h.0, e, select-select p q r xs h.1) refl
  | inr e ↦ rw (h.0, e, select-select p q r xs h.1) refl
]

select_younger :
    (k : ℕ) (xs : List TradeFill)
    → All (λ x. x.trade_id < k) xs
    → select (λ x. ltb x.trade_id k) xs ≡ xs
select_younger k [] h = refl
select_younger k (x ∷ xs) h = rw (select_younger k xs h.1) (ground (arith, h.0))

last_id-le :
    (n : ℕ) (x : TradeFill) (xs : List TradeFill)
    → IsDescending (x ∷ xs)
    → last_id (x ∷ take n xs) ≤ x.trade_id
unfolding IsDescending
last_id-le zero x xs d = omega arith
last_id-le (suc n) x [] d = omega arith
last_id-le (suc n) x (y ∷ ys) d = let below = last_id-le n y ys d.1 in omega (arith, (d.0).0)

select_skip :
    (k : ℕ) (x : TradeFill) (xs : List TradeFill)
    → k ≤ x.trade_id
    → select (λ y. ltb y.trade_id k) (x ∷ xs) ≡ select (λ y. ltb y.trade_id k) xs
select_skip k x xs h = ground arith

-- The trades below the last one of a full page are those that the page leaves.
pub select-take :
    (n : ℕ) (xs : List TradeFill)
    → IsDescending xs
    → length (take (suc n) xs) ≡ suc n
    → select (λ x. ltb x.trade_id (last_id (take (suc n) xs))) xs ≡ drop (suc n) xs
unfolding IsDescending
select-take n [] d l = absurd (ground arith)
select-take zero (x ∷ xs) d l =
    select_skip x.trade_id x xs (omega arith) ∙ select_younger x.trade_id xs d.0
select-take (suc n) (x ∷ []) d l = absurd (ground arith)
select-take (suc n) (x ∷ y ∷ ys) d l =
    select_skip (last_id (y ∷ take n ys)) x (y ∷ ys)
      (let below = last_id-le n y ys d.1 in omega (arith, (d.0).0))
    ∙ select-take n (y ∷ ys) d.1 (omega arith)

module _ (num : Numeric) (created_at : TradeFill → ℕ) where
  -- The rows before a trade of the rows before `b`.
  trade_rows-before :
      (asset sub : Text) (b k : ℕ) (fills : List TradeFill)
      → IsChronicle created_at fills
      → 0 < k
      → (b ≡ 0) ⊎ (k ≤ b)
      → trade_rows num created_at asset sub k fills
        ≡ select (λ x. ltb x.trade_id k) (trade_rows num created_at asset sub b fills)
  trade_rows-before asset sub b k fills h p le =
      rw
        (
          trade_rows-reverse num created_at asset sub k fills h,
          trade_rows-reverse num created_at asset sub b fills h,
          select-reverse (λ x. ltb x.trade_id k)
              (select (λ f. of_market num created_at asset sub f && is_before num created_at b f)
                fills),
        )
        (ap reverse (sym (select-select _ _ _ fills (both fills))))
    where
      both :
          (fs : List TradeFill)
          → All
              (λ x. (of_market num created_at asset sub x && is_before num created_at k x) ≡ (
                (of_market num created_at asset sub x && is_before num created_at b x)
                && ltb x.trade_id k))
              fs
      both [] = tt
      both (x ∷ xs) = (ground arith, both xs)

chosen_pass : (p : TradeFill → Bool) (xs : List TradeFill) → All (λ x. p x ≡ true) (select p xs)
chosen_pass p [] = tt
chosen_pass p (x ∷ xs) = elim (Bool-cases (p x)) [
  | inl e ↦ rw e (e, chosen_pass p xs)
  | inr e ↦ rw e (chosen_pass p xs)
]

-- What holds of every trade holds of the last of a page.
last_id-All :
    (P : ℕ → Type 0) (n : ℕ) (xs : List TradeFill)
    → All (λ x. P x.trade_id) xs
    → length (take (suc n) xs) ≡ suc n
    → P (last_id (take (suc n) xs))
last_id-All P n [] h l = absurd (ground arith)
last_id-All P zero (x ∷ xs) h l = h.0
last_id-All P (suc n) (x ∷ []) h l = absurd (ground arith)
last_id-All P (suc n) (x ∷ y ∷ ys) h l = last_id-All P n (y ∷ ys) h.1 (omega arith)

All-implies :
    (P Q : TradeFill → Type 0)
    → ((x : TradeFill) → P x → Q x)
    → (xs : List TradeFill) → All P xs
    → All Q xs
All-implies P Q f [] h = tt
All-implies P Q f (x ∷ xs) h = (f x h.0, All-implies P Q f xs h.1)

module _ (num : Numeric) (created_at : TradeFill → ℕ) where
  -- The query behind the last trade of a full page.
  pub trade_rows-last_id :
      (asset sub : Text) (b n : ℕ) (fills : List TradeFill)
      → IsChronicle created_at fills
      → All (λ f. 0 < f.trade_id) fills
      → length (take (suc n) (trade_rows num created_at asset sub b fills)) ≡ suc n
      → (0 < last_id (take (suc n) (trade_rows num created_at asset sub b fills)))
        × (trade_rows num created_at asset sub
              (last_id (take (suc n) (trade_rows num created_at asset sub b fills)))
              fills
            ≡ drop (suc n) (trade_rows num created_at asset sub b fills))
  trade_rows-last_id asset sub b n fills h p l = (
    positive,
    trade_rows-before num created_at asset sub b (last_id (take (suc n) rows)) fills h positive
          below
        ∙ select-take n rows (trade_rows-IsDescending num created_at asset sub b fills h) l,
  )
    where
      rows : List TradeFill
      rows = trade_rows num created_at asset sub b fills

      chosen : TradeFill → Bool
      chosen f = of_market num created_at asset sub f && is_before num created_at b f

      all_rows : (P : TradeFill → Type 0) → All P (select chosen fills) → All P rows
      all_rows P k =
          rw (trade_rows-reverse num created_at asset sub b fills h)
            (All-reverse P (select chosen fills) k)

      positive : 0 < last_id (take (suc n) rows)
      positive =
          last_id-All (λ k. 0 < k) n rows
            (all_rows (λ f. 0 < f.trade_id) (All-select (λ f. 0 < f.trade_id) chosen fills p)) l

      within : (f : TradeFill) → chosen f ≡ true → (b ≡ 0) ⊎ (f.trade_id ≤ b)
      within f e = ground arith

      below : (b ≡ 0) ⊎ (last_id (take (suc n) rows) ≤ b)
      below =
          last_id-All (λ k. (b ≡ 0) ⊎ (k ≤ b)) n rows
            (all_rows (λ f. (b ≡ 0) ⊎ (f.trade_id ≤ b))
              (All-implies (λ f. chosen f ≡ true) (λ f. (b ≡ 0) ⊎ (f.trade_id ≤ b))
                (λ f e. within f e) (select chosen fills) (chosen_pass chosen fills)))
            l
