-- ===== src/Oracle/Signing.antt =====
-- internal/oracles/btcvar30/signer.go and `CanonicalBytes`: the signature of a payload. The hash functions,
-- the encoder of JSON and the layout of times are parameters.
use markets_service.Base.{◌++◌, Option, Result, ok, ◌>>=◌, or_error, if◌then◌else◌}
use markets_service.Base.Int.{ℤ}
use markets_service.Text.{Text, codes, is_empty, trim_space}
use markets_service.Text.Hex.{Bytes, encode_to_string}
use markets_service.Oracle.{Payload}

-- What is signed of a payload.
pub record Canonical (F : Type 0) : Type 0 where
  pub symbol : Text
  pub source : Text
  pub timestamp : Text
  pub vol_30d : F
  pub variance_30d : F
  pub methodology_version : Text

-- The hash functions, `json.Marshal` of what is signed, and the layout `time.RFC3339Nano`.
pub record Signing (F : Type 0) : Type 0 where
  pub sha256 : Text → Bytes
  pub hmac_sha256 : Text → Text → Bytes
  pub marshal : Canonical F → Option Text
  pub rfc3339_nano : ℤ → Text

module _ {F : Type 0} (g : Signing F) where
  -- `CanonicalBytes`
  unfoldable pub canonical_bytes : Payload F → Result Text Text
  canonical_bytes p = do
    encoded ←
        or_error
          (g.marshal (record {
            symbol = p.symbol;
            source = p.source;
            timestamp = g.rfc3339_nano p.timestamp;
            vol_30d = p.vol_30d;
            variance_30d = p.variance_30d;
            methodology_version = p.methodology_version;
          }))
          (codes "marshal canonical oracle payload")
    ok (trim_space encoded)

  -- `DeterministicSigner.Sign`
  unfoldable pub sign : Text → Payload F → Result Text Text
  unfolding canonical_bytes
  sign secret p = do
    canonical ← canonical_bytes p
    if is_empty secret
        then ok (codes "sha256:" ++ encode_to_string (g.sha256 canonical))
        else ok (codes "hmac-sha256:" ++ encode_to_string (g.hmac_sha256 secret canonical))
