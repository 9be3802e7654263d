-- ===== src/Providers/Scaleway/Config.antt =====
-- The configuration of src/providers/scaleway.rs, and the provider built from it.
use cheti.Prelude.{ℕ, Option, none, some}
use cheti.Text.{Text, text, trim_end_matches, to_ascii_lowercase}
use cheti.Error.{Result, ok, ok_or, missing_credentials, ◌>>=◌ as and_then}
use cheti.Dns.Client.{Reply}
use cheti.Common.Validate.{validate_zone, validate_ttl}
use cheti.Common.Names.{Url, validate_https_base}
use cheti.Providers.Http.{http_error}

abbrev pub scw_api_base : Text
scw_api_base = text "https://api.scaleway.com"

abbrev pub default_ttl : ℕ
default_ttl = 300

-- Milliseconds.
abbrev pub http_timeout : ℕ
http_timeout = 30000

abbrev pub provider : Text
provider = text "scaleway"

pub record ScalewayConfig : Type 0 where
  pub secret_key : Text
  pub api_base : Text
  pub zone_override : Option Text
  pub ttl : ℕ
  pub timeout : ℕ

unfoldable pub new : Text → ScalewayConfig
new secret_key = record {
  secret_key = secret_key;
  api_base = scw_api_base;
  zone_override = none;
  ttl = default_ttl;
  timeout = http_timeout;
}

pub with_api_base : (Text → Option Url) → Text → ScalewayConfig → Result ScalewayConfig
with_api_base url_parse base config =
    and_then (validate_https_base url_parse base provider)
      λ u. ok (record config { api_base = trim_end_matches b'/' base })

pub with_zone : Text → ScalewayConfig → Result ScalewayConfig
with_zone zone config = and_then (validate_zone zone) λ u.
    ok (record config { zone_override = some (to_ascii_lowercase (trim_end_matches b'.' zone)) })

pub with_ttl : ℕ → ScalewayConfig → Result ScalewayConfig
with_ttl ttl config = and_then (validate_ttl ttl) λ checked. ok (record config { ttl = checked })

pub with_timeout : ℕ → ScalewayConfig → ScalewayConfig
with_timeout timeout config = record config { timeout = timeout }

-- A provider is its configuration, once its HTTP client has been built.
pub build : Reply (Unit {0}) → ScalewayConfig → Result ScalewayConfig
build client config = and_then (http_error client) λ u. ok config

abbrev env_secret_key : Text
env_secret_key = text "SCW_SECRET_KEY"

-- `var` reads the environment.
pub from_env : (Text → Option Text) → Reply (Unit {0}) → Result ScalewayConfig
unfolding build new
from_env var client =
    and_then (ok_or (missing_credentials env_secret_key) (var env_secret_key))
      λ value. build client (new value)
