-- ===== src/Orders/Backfill/Filled.antt =====
-- A backfill gives every row without ticks the ticks of its price.
use markets_service.Base.{
  ◌≡◌, refl, sym, ◌∙◌, ap, Bool, Bool-cases, true, false, List, [], ◌∷◌, map, select, Option, none,
  some, Result, ok, err, inl, inr, All, if◌then◌else◌,
}
use markets_service.Instruments.{Registry}
use markets_service.Orders.Backfill.{
  PricedRow, BackfillError, is_missing, ticks_of, put_ticks, after_item, backfill_rows,
  backfill_limit_price_ticks,
}
use markets_service.Text.{Text, text_eq}
use markets_service.Text.Laws.{text_eq_iff}

-- No two rows share their id.
unfoldable pub Unique : List PricedRow → Type 0
Unique [] = Unit {0}
Unique (q ∷ qs) = All (λ r. ¬ (r.order_id ≡ q.order_id)) qs × Unique qs

text_eq-apart : (s t : Text) → ¬ (s ≡ t) → text_eq s t ≡ false
text_eq-apart s t apart = elim (Bool-cases (text_eq s t)) [
  | inl e ↦ absurd (apart ((text_eq_iff s t).0 e))
  | inr e ↦ e
]

with_ticks : Result BackfillError (Option Text) → PricedRow → PricedRow
with_ticks (ok (some t)) r = record r { limit_price_ticks = some t }
with_ticks (ok none) r = r
with_ticks (err e) r = r

module _ (registry : Registry) where
  -- The row with the ticks of its price, if it has none and its instrument is known.
  unfoldable pub filled : PricedRow → PricedRow
  unfolding with_ticks
  filled r = if is_missing r then with_ticks (ticks_of registry r) r else r

  -- What the update for an item does to a row.
  updated : Result BackfillError (Option Text) → PricedRow → PricedRow → PricedRow
  unfolding put_ticks
  updated (ok (some t)) item r = put_ticks item.order_id t r
  updated (ok none) item r = r
  updated (err e) item r = r

  fill_in : List PricedRow → PricedRow → PricedRow
  unfolding updated
  fill_in [] r = r
  fill_in (item ∷ items) r = fill_in items (updated (ticks_of registry item) item r)

  map_same : (qs : List PricedRow) → map (λ r. r) qs ≡ qs
  map_same [] = refl
  map_same (q ∷ qs) = ap (λ l. q ∷ l) (map_same qs)

  map_twice :
      (f g : PricedRow → PricedRow) (qs : List PricedRow) → map f (map g qs) ≡ map (λ r. f (g r)) qs
  map_twice f g [] = refl
  map_twice f g (q ∷ qs) = ap (λ l. f (g q) ∷ l) (map_twice f g qs)

  after_item_ok :
      (found : Result BackfillError (Option Text)) (item : PricedRow) (rows : List PricedRow)
      (next : List PricedRow → Result BackfillError (Unit {0}) × List PricedRow)
      (f : PricedRow → PricedRow)
      → ((rs : List PricedRow) → (next rs).0 ≡ ok tt → (next rs).1 ≡ map f rs)
      → (after_item found item.order_id next rows).0 ≡ ok tt
      → (after_item found item.order_id next rows).1 ≡ map (λ r. f (updated found item r)) rows
  unfolding after_item updated
  after_item_ok (err e) item rows next f rest h = absurd (cc h)
  after_item_ok (ok none) item rows next f rest h = rest rows h
  after_item_ok (ok (some t)) item rows next f rest h =
      rest (map (put_ticks item.order_id t) rows) h ∙ map_twice f (put_ticks item.order_id t) rows

  backfill_rows_ok :
      (items rows : List PricedRow)
      → (backfill_rows registry items rows).0 ≡ ok tt
      → (backfill_rows registry items rows).1 ≡ map (fill_in items) rows
  unfolding backfill_rows fill_in
  backfill_rows_ok [] rows h = sym (map_same rows)
  backfill_rows_ok (item ∷ items) rows h =
      after_item_ok (ticks_of registry item) item rows (backfill_rows registry items)
        (fill_in items) (backfill_rows_ok items) h

  -- An update for another row.
  updated-apart :
      (found : Result BackfillError (Option Text)) (item r : PricedRow)
      → ¬ (r.order_id ≡ item.order_id)
      → updated found item r ≡ r
  unfolding updated put_ticks
  updated-apart (err e) item r h = refl
  updated-apart (ok none) item r h = refl
  updated-apart (ok (some t)) item r h = rw (text_eq-apart r.order_id item.order_id h) refl

  updated-own :
      (found : Result BackfillError (Option Text)) (r : PricedRow)
      → updated found r r ≡ with_ticks found r
  unfolding updated put_ticks with_ticks
  updated-own (err e) r = refl
  updated-own (ok none) r = refl
  updated-own (ok (some t)) r = rw ((text_eq_iff r.order_id r.order_id).1 refl) refl

  fill_in-apart :
      (qs : List PricedRow) (r : PricedRow)
      → All (λ q. ¬ (q.order_id ≡ r.order_id)) qs
      → fill_in (select is_missing qs) r ≡ r
  unfolding fill_in
  fill_in-apart [] r a = refl
  fill_in-apart (q ∷ qs) r a = elim (Bool-cases (is_missing q)) [
    | inr e ↦ rw e (fill_in-apart qs r a.1)
    | inl e ↦ rw e (
        ap (fill_in (select is_missing qs))
          (updated-apart (ticks_of registry q) q r (λ h. a.0 (sym h)))
        ∙ fill_in-apart qs r a.1)
  ]

  fill_in-with_ticks :
      (found : Result BackfillError (Option Text)) (q : PricedRow) (qs : List PricedRow)
      → All (λ r. ¬ (r.order_id ≡ q.order_id)) qs
      → fill_in (select is_missing qs) (with_ticks found q) ≡ with_ticks found q
  unfolding with_ticks
  fill_in-with_ticks (err e) q qs a = fill_in-apart qs q a
  fill_in-with_ticks (ok none) q qs a = fill_in-apart qs q a
  fill_in-with_ticks (ok (some t)) q qs a =
      fill_in-apart qs (record q { limit_price_ticks = some t }) a

  map-updated-apart :
      (f : PricedRow → PricedRow) (found : Result BackfillError (Option Text)) (q : PricedRow)
      (qs : List PricedRow)
      → All (λ r. ¬ (r.order_id ≡ q.order_id)) qs
      → map (λ r. f (updated found q r)) qs ≡ map f qs
  map-updated-apart f found q [] a = refl
  map-updated-apart f found q (r ∷ qs) a =
      rw (updated-apart found q r a.0, map-updated-apart f found q qs a.1) refl

  both :
      {x y : PricedRow} {xs ys : List PricedRow}
      → x ≡ y
      → xs ≡ ys
      → ◌≡◌ {A = List PricedRow} (x ∷ xs) (y ∷ ys)
  both p q = cc

  select_one :
      (q : PricedRow) (qs : List PricedRow) (b : Bool)
      → is_missing q ≡ b
      → select is_missing (q ∷ qs) ≡ (if b then q ∷ select is_missing qs else select is_missing qs)
  select_one q qs b e = rw e refl

  filled_one :
      (q : PricedRow) (b : Bool)
      → is_missing q ≡ b
      → filled q ≡ (if b then with_ticks (ticks_of registry q) q else q)
  unfolding filled
  filled_one q b e = rw e refl

  map-fill_in :
      (rows : List PricedRow)
      → Unique rows
      → map (fill_in (select is_missing rows)) rows ≡ map filled rows
  unfolding Unique fill_in
  map-fill_in [] u = refl
  map-fill_in (q ∷ qs) u = elim (Bool-cases (is_missing q)) [
    | inr e ↦
        ap (λ (l : List PricedRow). map (fill_in l) (q ∷ qs)) (select_one q qs false e)
        ∙ both (fill_in-apart qs q u.0 ∙ sym (filled_one q false e)) (map-fill_in qs u.1)
    | inl e ↦
        ap (λ (l : List PricedRow). map (fill_in l) (q ∷ qs)) (select_one q qs true e)
        ∙ both
            (ap (fill_in (select is_missing qs)) (updated-own (ticks_of registry q) q)
              ∙ fill_in-with_ticks (ticks_of registry q) q qs u.0
              ∙ sym (filled_one q true e))
            (map-updated-apart (fill_in (select is_missing qs)) (ticks_of registry q) q qs u.0
              ∙ map-fill_in qs u.1)
  ]

-- Rows of different ids: a backfill that returns no error has given every row without ticks whose
-- instrument is known the ticks that its price parses to, and has changed no other row.
pub backfill_limit_price_ticks_lem :
    (registry : Registry) (rows : List PricedRow)
    → Unique rows
    → (backfill_limit_price_ticks (some registry) rows).0 ≡ ok tt
    → (backfill_limit_price_ticks (some registry) rows).1 ≡ map (filled registry) rows
unfolding backfill_limit_price_ticks
backfill_limit_price_ticks_lem registry rows u h =
    backfill_rows_ok registry (select is_missing rows) rows h ∙ map-fill_in registry rows u
