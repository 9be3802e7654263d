-- ===== src/Providers/DigitalOcean/Config.antt =====
-- The configuration of src/providers/digitalocean.rs, and the provider built from it.
use cheti.Prelude.{ℕ, ◌-◌, ◌^◌, Option, none, some}
use cheti.Text.{Text, text, trim_end_matches, to_ascii_lowercase}
use cheti.Error.{Result, ok, missing_credentials, ok_or, ◌>>=◌ as and_then}
use cheti.Dns.Client.{Reply}
use cheti.Common.Validate.{validate_zone, validate_ttl_range}
use cheti.Common.Names.{Url, validate_https_base}
use cheti.Providers.Http.{http_error}

abbrev do_api_base : Text
do_api_base = text "https://api.digitalocean.com/v2"

abbrev default_ttl : ℕ
default_ttl = 30

abbrev pub per_page : ℕ
per_page = 200

abbrev pub max_pages : ℕ
max_pages = 50

-- Milliseconds.
abbrev http_timeout : ℕ
http_timeout = 30000

abbrev pub provider : Text
provider = text "digitalocean"

pub record DigitalOceanConfig : Type 0 where
  pub token : Text
  pub api_base : Text
  pub zone_override : Option Text
  pub ttl : ℕ
  pub timeout : ℕ

unfoldable pub new : Text → DigitalOceanConfig
new token = record {
  token = token;
  api_base = do_api_base;
  zone_override = none;
  ttl = default_ttl;
  timeout = http_timeout;
}

pub with_api_base : (Text → Option Url) → Text → DigitalOceanConfig → Result DigitalOceanConfig
with_api_base url_parse base config =
    and_then (validate_https_base url_parse base provider)
      λ u. ok (record config { api_base = trim_end_matches b'/' base })

pub with_zone : Text → DigitalOceanConfig → Result DigitalOceanConfig
with_zone zone config = and_then (validate_zone zone) λ u.
    ok (record config { zone_override = some (to_ascii_lowercase (trim_end_matches b'.' zone)) })

-- The upper bound is `i32::MAX as u32`.
pub with_ttl : ℕ → DigitalOceanConfig → Result DigitalOceanConfig
with_ttl ttl config =
    and_then (validate_ttl_range ttl 30 (2 ^ 31 - 1))
      λ checked. ok (record config { ttl = checked })

pub with_timeout : ℕ → DigitalOceanConfig → DigitalOceanConfig
with_timeout timeout config = record config { timeout = timeout }

-- `DigitalOceanProvider::new`: a provider is its configuration, once its HTTP client has been built.
pub build : Reply (Unit {0}) → DigitalOceanConfig → Result DigitalOceanConfig
build client config = and_then (http_error client) λ u. ok config

abbrev env_token : Text
env_token = text "DIGITALOCEAN_TOKEN"

-- `var` reads the environment.
pub from_env : (Text → Option Text) → Reply (Unit {0}) → Result DigitalOceanConfig
unfolding build new
from_env var client =
    and_then (ok_or (missing_credentials env_token) (var env_token))
      λ token. build client (new token)
