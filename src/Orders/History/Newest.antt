-- ===== src/Orders/History/Newest.antt =====
-- The order of the query, on a table whose trades were recorded one after the other.
use mathlib.Core.List.{reverse, reverse-append}
use markets_service.Base.{
  ℕ, ◌≤◌, ◌<◌, ◌≡◌, refl, Bool, Bool-cases, ◌&&◌, List, [], ◌∷◌, ◌++◌, select, arith, All,
  All-append, inl, inr,
}
use markets_service.Orders.{TradeFill, Numeric}
use markets_service.Orders.History.{
  is_newer, insert_trade, newest_first, trade_rows, of_market, is_before,
}
use markets_service.Text.{Text}

-- Trades were recorded in this order: ids ascend, and no trade is older than one before it.
pub record Follows (created_at : TradeFill → ℕ) (f g : TradeFill) : Type 0 where
  pub later_id : f.trade_id < g.trade_id
  pub not_older : created_at f ≤ created_at g

unfoldable pub IsChronicle : (TradeFill → ℕ) → List TradeFill → Type 0
IsChronicle created_at [] = Unit {0}
IsChronicle created_at (f ∷ fs) = All (Follows created_at f) fs × IsChronicle created_at fs

pub All-select :
    (P : TradeFill → Type 0) (p : TradeFill → Bool) (fs : List TradeFill)
    → All P fs
    → All P (select p fs)
All-select P p [] h = tt
All-select P p (f ∷ fs) h = elim (Bool-cases (p f)) [
  | inl e ↦ rw e (h.0, All-select P p fs h.1)
  | inr e ↦ rw e (All-select P p fs h.1)
]

IsChronicle-select :
    (created_at : TradeFill → ℕ) (p : TradeFill → Bool) (fs : List TradeFill)
    → IsChronicle created_at fs
    → IsChronicle created_at (select p fs)
unfolding IsChronicle
IsChronicle-select created_at p [] h = tt
IsChronicle-select created_at p (f ∷ fs) h = elim (Bool-cases (p f)) [
  | inl e ↦
      rw e (All-select (Follows created_at f) p fs h.0, IsChronicle-select created_at p fs h.1)
  | inr e ↦ rw e (IsChronicle-select created_at p fs h.1)
]

module _ (num : Numeric) (created_at : TradeFill → ℕ) where
  insert_trade-last :
      (f : TradeFill) (gs : List TradeFill)
      → All (Follows created_at f) gs
      → insert_trade num created_at f gs ≡ gs ++ f ∷ []
  unfolding insert_trade is_newer
  insert_trade-last f [] h = refl
  insert_trade-last f (g ∷ gs) h =
      let rest = insert_trade-last f gs h.1 in
      let later = (h.0).later_id in let older = (h.0).not_older in ground (arith)

pub All-reverse : (P : TradeFill → Type 0) (fs : List TradeFill) → All P fs → All P (reverse fs)
All-reverse P [] h = tt
All-reverse P (f ∷ fs) h =
    rw (reverse-append (f ∷ []) fs)
      (All-append P (reverse fs) (f ∷ []) (All-reverse P fs h.1) (h.0, tt))

-- Each trade is younger than the ones behind it.
unfoldable pub IsDescending : List TradeFill → Type 0
IsDescending [] = Unit {0}
IsDescending (f ∷ fs) = All (λ g. g.trade_id < f.trade_id) fs × IsDescending fs

IsDescending-append :
    (fs : List TradeFill) (f : TradeFill)
    → IsDescending fs
    → All (λ g. f.trade_id < g.trade_id) fs
    → IsDescending (fs ++ f ∷ [])
unfolding IsDescending
IsDescending-append [] f h k = (tt, tt)
IsDescending-append (g ∷ gs) f h k = (
  All-append (λ e. e.trade_id < g.trade_id) gs (f ∷ []) h.0 (k.0, tt),
  IsDescending-append gs f h.1 k.1,
)

All-Follows :
    (created_at : TradeFill → ℕ) (f : TradeFill) (gs : List TradeFill)
    → All (Follows created_at f) gs
    → All (λ g. f.trade_id < g.trade_id) gs
All-Follows created_at f [] h = tt
All-Follows created_at f (g ∷ gs) h = ((h.0).later_id, All-Follows created_at f gs h.1)

IsChronicle-reverse :
    (created_at : TradeFill → ℕ) (fs : List TradeFill)
    → IsChronicle created_at fs
    → IsDescending (reverse fs)
unfolding IsChronicle
IsChronicle-reverse created_at [] h = unfold IsDescending in tt
IsChronicle-reverse created_at (f ∷ fs) h = rw (reverse-append (f ∷ []) fs) (
    IsDescending-append (reverse fs) f (IsChronicle-reverse created_at fs h.1)
      (All-reverse (λ g. f.trade_id < g.trade_id) fs (All-Follows created_at f fs h.0)))

module _ (num : Numeric) (created_at : TradeFill → ℕ) where
  newest_first-reverse :
      (fs : List TradeFill)
      → IsChronicle created_at fs
      → newest_first num created_at fs ≡ reverse fs
  unfolding newest_first IsChronicle
  newest_first-reverse [] h = refl
  newest_first-reverse (f ∷ fs) h =
      rw (newest_first-reverse fs h.1, reverse-append (f ∷ []) fs)
        (insert_trade-last num created_at f (reverse fs)
          (All-reverse (Follows created_at f) fs h.0))

  -- The rows of the query are the trades that it selects, the last recorded first.
  pub trade_rows-reverse :
      (asset sub : Text) (before : ℕ) (fills : List TradeFill)
      → IsChronicle created_at fills
      → trade_rows num created_at asset sub before fills
        ≡ reverse (
            select
              (λ f. of_market num created_at asset sub f && is_before num created_at before f)
              fills)
  unfolding trade_rows
  trade_rows-reverse asset sub before fills h =
      newest_first-reverse _ (IsChronicle-select created_at _ fills h)

  pub trade_rows-IsDescending :
      (asset sub : Text) (before : ℕ) (fills : List TradeFill)
      → IsChronicle created_at fills
      → IsDescending (trade_rows num created_at asset sub before fills)
  trade_rows-IsDescending asset sub before fills h =
      rw (trade_rows-reverse asset sub before fills h)
        (IsChronicle-reverse created_at _ (IsChronicle-select created_at _ fills h))
