-- ===== src/Orders/Backfill.antt =====
-- internal/orders/repository.go: `BackfillLimitPriceTicks`, which prices the rows of `active_orders` that
-- an older version stored without ticks. Each update is a transaction of its own.
pub mod Filled
use markets_service.Base.{
  Bool, true, false, List, [], ◌∷◌, map, select, Option, none, some, Result, ok, err, if◌then◌else◌,
}
use markets_service.Instruments.{Metadata, Registry, by_asset_and_sub_id}
use markets_service.Pricing.{PriceError, Converter, Parsed, new_converter, parse}
use markets_service.Text.{Text, text_eq, to_lower}

-- The columns that the backfill reads and writes; `none` is null.
pub record PricedRow : Type 0 where
  pub order_id : Text
  pub asset_address : Text
  pub sub_id : Text
  pub limit_price : Text
  pub limit_price_ticks : Option Text

pub data BackfillError : Type 0 where
  no_registry : BackfillError
  bad_instrument : PriceError → BackfillError
  not_priced : Text → PriceError → BackfillError

abbrev pub is_missing : PricedRow → Bool
is_missing r = elim (r.limit_price_ticks) [ none ↦ true | some t ↦ false ]

unfoldable pub ticks_with :
    Text → Text → Result PriceError Converter → Result BackfillError (Option Text)
ticks_with id price (err e) = err (bad_instrument e)
ticks_with id price (ok c) = elim (parse c price) [
  | err e ↦ err (not_priced id e)
  | ok p ↦ ok (some p.ticks)
]

-- The ticks of a row's price; `none` is a row whose instrument is unknown, which is skipped.
unfoldable pub ticks_of : Registry → PricedRow → Result BackfillError (Option Text)
unfolding ticks_with
ticks_of registry r = elim (by_asset_and_sub_id registry (to_lower r.asset_address) r.sub_id) [
  | none ↦ ok none
  | some m ↦ ticks_with r.order_id r.limit_price (new_converter m.tick_size m.quote_precision)
]

-- `update active_orders set limit_price_ticks = $2 where order_id = $1`
unfoldable pub put_ticks : Text → Text → PricedRow → PricedRow
put_ticks id ticks r =
    if text_eq r.order_id id then record r { limit_price_ticks = some ticks } else r

-- A step of the loop, with the ticks of its item and the loop after it.
unfoldable pub after_item :
    Result BackfillError (Option Text)
    → Text
    → (List PricedRow → Result BackfillError (Unit {0}) × List PricedRow)
    → List PricedRow
    → Result BackfillError (Unit {0}) × List PricedRow
after_item (err e) id next rows = (err e, rows)
after_item (ok none) id next rows = next rows
after_item (ok (some ticks)) id next rows = next (map (put_ticks id ticks) rows)

-- The loop over the rows that were read.
unfoldable pub backfill_rows :
    Registry → List PricedRow → List PricedRow → Result BackfillError (Unit {0}) × List PricedRow
unfolding after_item
backfill_rows registry [] rows = (ok tt, rows)
backfill_rows registry (item ∷ items) rows =
    after_item (ticks_of registry item) item.order_id
      (λ (rs : List PricedRow). backfill_rows registry items rs) rows

-- `BackfillLimitPriceTicks`: the answer, and the rows after it.
unfoldable pub backfill_limit_price_ticks :
    Option Registry → List PricedRow → Result BackfillError (Unit {0}) × List PricedRow
unfolding backfill_rows
backfill_limit_price_ticks none rows = (err no_registry, rows)
backfill_limit_price_ticks (some registry) rows =
    backfill_rows registry (select is_missing rows) rows
