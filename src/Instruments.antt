-- ===== src/Instruments.antt =====
-- internal/instruments: the fields of `Metadata` that order intake reads, and the registry's lookups.
-- A registry is the list of its items; a map keeps the last item of a key.
use markets_service.Base.{
  ℕ, Bool, ◌&&◌, ◌||◌, not, List, [], ◌∷◌, ◌++◌, Option, none, some, select, if◌then◌else◌,
}
use markets_service.Text.{Text, codes, text_eq, is_empty}

pub record Metadata : Type 0 where
  pub symbol : Text
  pub asset_address : Text
  pub sub_id : Text
  pub contract_type : Text
  pub tick_size : Text
  pub min_size : Text
  pub quote_precision : ℕ
  pub is_enabled : Bool

abbrev pub Registry : Type 0
Registry = List Metadata

-- `Enabled`
unfoldable pub enabled : Registry → List Metadata
enabled r = select (λ m. m.is_enabled) r

-- `assetAndSubIDKey`
unfoldable pub asset_and_sub_id_key : Text → Text → Text
asset_and_sub_id_key asset sub = asset ++ codes "|" ++ sub

-- The item has a key, and it is this one.
unfoldable pub is_keyed : Text → Text → Metadata → Bool
is_keyed asset sub m =
    not (is_empty m.asset_address)
    && not (is_empty m.sub_id)
    && text_eq (asset_and_sub_id_key m.asset_address m.sub_id) (asset_and_sub_id_key asset sub)

-- `ByAssetAndSubID`
unfoldable pub by_asset_and_sub_id : Registry → Text → Text → Option Metadata
by_asset_and_sub_id [] asset sub = none
by_asset_and_sub_id (m ∷ ms) asset sub = elim (by_asset_and_sub_id ms asset sub) [
  | some later ↦ some later
  | none ↦ if is_keyed asset sub m then some m else none
]

-- `BTCConvexPerpSymbol`, `CNGNSpotSymbol`, `CNGNApr2026Symbol`, the two legacy symbols and
-- `btcvar30.Symbol`.
abbrev pub btc_convex_perp_symbol : Text
btc_convex_perp_symbol = codes "BTCUSDC-CVXPERP"

abbrev pub cngn_spot_symbol : Text
cngn_spot_symbol = codes "USDCcNGN-SPOT"

abbrev pub cngn_spot_legacy_symbol : Text
cngn_spot_legacy_symbol = codes "USDC/cNGN"

abbrev pub cngn_apr2026_symbol : Text
cngn_apr2026_symbol = codes "USDCcNGN-APR30-2026"

abbrev pub cngn_apr2026_legacy_symbol : Text
cngn_apr2026_legacy_symbol = codes "USDC/cNGN-APR30-2026"

abbrev pub btcvar30_symbol : Text
btcvar30_symbol = codes "BTCVAR30-PERP"

-- `symbolAlias`
unfoldable pub symbol_alias : Text → Text
symbol_alias symbol =
    if text_eq symbol cngn_spot_symbol
    then cngn_spot_legacy_symbol
    else if text_eq symbol cngn_apr2026_symbol
    then cngn_apr2026_legacy_symbol
    else []

-- The item is registered under this symbol.
unfoldable pub is_named : Text → Metadata → Bool
unfolding symbol_alias
is_named name m =
    text_eq m.symbol name
    || not (is_empty (symbol_alias m.symbol)) && text_eq (symbol_alias m.symbol) name

-- `BySymbol`
unfoldable pub by_symbol : Registry → Text → Option Metadata
unfolding is_named
by_symbol [] name = none
by_symbol (m ∷ ms) name = elim (by_symbol ms name) [
  | some later ↦ some later
  | none ↦ if is_named name m then some m else none
]

-- `ByAssetAddress`
unfoldable pub by_asset_address : Registry → Text → Option Metadata
by_asset_address r asset = by_asset_and_sub_id r asset (codes "0")
