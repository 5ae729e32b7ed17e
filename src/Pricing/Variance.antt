-- ===== src/Pricing/Variance.antt =====
-- internal/pricing/variance.go: variance prices in floating point, which is a parameter.
use markets_service.Base.{ℕ, Result, ok, err, ◌>>=◌, ◌>>◌, fail_if, or_error, if◌then◌else◌}
use markets_service.Float.{Float64}
use markets_service.Instruments.{Metadata}
use markets_service.Pricing.{PriceError, new_converter, format_ticks}
use markets_service.Text.{Text}

pub data VarianceError : Type 0 where
  not_formatted : PriceError → VarianceError
  not_parsed negative_variance : VarianceError

unfoldable pub in_variance {κ} : {A : Type κ} → Result PriceError A → Result VarianceError A
in_variance (ok a) = ok a
in_variance (err e) = err (not_formatted e)

module _ (fl : Float64) where
  open fl use {F, of_nat, minus, times, divide, less, sqrt, round, pow10, parse_float}

  -- `ParseVarianceFloat64`
  unfoldable pub parse_variance_float64 : Text → Result VarianceError F
  parse_variance_float64 variance = do
    value ← or_error (parse_float variance) not_parsed
    fail_if (less value (of_nat 0)) negative_variance
    ok value

  -- `TicksToVarianceFloat64`
  unfoldable pub ticks_to_variance_float64 : Metadata → Text → Result VarianceError F
  unfolding in_variance
  ticks_to_variance_float64 m ticks = do
    converter ← in_variance (new_converter m.tick_size m.quote_precision)
    value ← in_variance (format_ticks converter ticks)
    parse_variance_float64 value

  -- `VarianceToVolPercent`
  unfoldable pub variance_to_vol_percent : F → F
  variance_to_vol_percent variance =
      if less variance (of_nat 0) then of_nat 0 else times (sqrt variance) (of_nat 100)

  -- `VolPercentToVariance`
  unfoldable pub vol_percent_to_variance : F → F
  vol_percent_to_variance vol_percent =
      let value = divide vol_percent (of_nat 100) in times value value

  -- `roundTo`, to a number of decimals that is not negative.
  unfoldable pub round_to : F → ℕ → F
  round_to value decimals =
      let factor = pow10 decimals in divide (round (times value factor)) factor

  -- `RoundVolPercent`
  unfoldable pub round_vol_percent : F → F
  round_vol_percent value = round_to value 2

  pub record VarianceDisplay : Type 0 where
    pub variance_price : F
    pub vol_percent : F

  -- `VarianceDisplayFromTicks`
  unfoldable pub variance_display_from_ticks :
      Metadata → Text → Result VarianceError VarianceDisplay
  variance_display_from_ticks m ticks = do
    variance_price ← ticks_to_variance_float64 m ticks
    ok (record {
      variance_price = variance_price;
      vol_percent = round_vol_percent (variance_to_vol_percent variance_price);
    })

  -- `CalculateVariancePnL`
  unfoldable pub calculate_variance_pnl : F → F → F → F
  calculate_variance_pnl entry exit notional = times (minus exit entry) notional

  -- `CalculateVariancePnLFromTicks`
  unfoldable pub calculate_variance_pnl_from_ticks :
      Metadata → Text → Text → F → Result VarianceError F
  calculate_variance_pnl_from_ticks m entry_ticks exit_ticks notional = do
    entry ← ticks_to_variance_float64 m entry_ticks
    exit ← ticks_to_variance_float64 m exit_ticks
    ok (calculate_variance_pnl entry exit notional)
