-- ===== src/Providers/Cloudflare/Config.antt =====
-- The configuration of src/providers/cloudflare.rs, and the provider built from it.
use cheti.Prelude.{ℕ, Option, none, some, ◌==◌, if◌then◌else◌}
use cheti.Text.{Text, text, trim_end_matches, to_ascii_lowercase}
use cheti.Error.{Result, ok, missing_credentials, ok_or, ◌>>=◌ as and_then}
use cheti.Dns.Client.{Reply}
use cheti.Common.Validate.{validate_zone, validate_ttl_range}
use cheti.Common.Names.{Url, validate_https_base}
use cheti.Providers.Http.{http_error}

abbrev cf_api_base : Text
cf_api_base = text "https://api.cloudflare.com/client/v4"

abbrev default_ttl : ℕ
default_ttl = 60

-- Milliseconds.
abbrev http_timeout : ℕ
http_timeout = 30000

abbrev pub provider : Text
provider = text "cloudflare"

pub record ZoneOverride : Type 0 where
  pub name : Text
  pub id : Option Text

pub record CloudflareConfig : Type 0 where
  pub api_token : Text
  pub api_base : Text
  pub zone_override : Option ZoneOverride
  pub ttl : ℕ
  pub timeout : ℕ

unfoldable pub new : Text → CloudflareConfig
new api_token = record {
  api_token = api_token;
  api_base = cf_api_base;
  zone_override = none;
  ttl = default_ttl;
  timeout = http_timeout;
}

pub with_api_base : (Text → Option Url) → Text → CloudflareConfig → Result CloudflareConfig
with_api_base url_parse base config =
    and_then (validate_https_base url_parse base provider)
      λ u. ok (record config { api_base = trim_end_matches b'/' base })

abbrev override : Text → Option Text → CloudflareConfig → CloudflareConfig
override zone id config = record config {
  zone_override = some (record { name = to_ascii_lowercase (trim_end_matches b'.' zone); id = id });
}

pub with_zone : Text → CloudflareConfig → Result CloudflareConfig
with_zone zone config = and_then (validate_zone zone) λ u. ok (override zone none config)

pub with_zone_id : Text → Text → CloudflareConfig → Result CloudflareConfig
with_zone_id zone zone_id config =
    and_then (validate_zone zone) λ u. ok (override zone (some zone_id) config)

-- 1 stands for an automatic TTL.
pub with_ttl : ℕ → CloudflareConfig → Result CloudflareConfig
with_ttl ttl config =
    and_then (if ttl == 1 then ok ttl else validate_ttl_range ttl 30 86400)
      λ checked. ok (record config { ttl = checked })

pub with_timeout : ℕ → CloudflareConfig → CloudflareConfig
with_timeout timeout config = record config { timeout = timeout }

-- `CloudflareProvider::new`: a provider is its configuration, once its HTTP client has been built.
pub build : Reply (Unit {0}) → CloudflareConfig → Result CloudflareConfig
build client config = and_then (http_error client) λ u. ok config

abbrev env_token : Text
env_token = text "CLOUDFLARE_API_TOKEN"

-- `var` reads the environment.
pub from_env : (Text → Option Text) → Reply (Unit {0}) → Result CloudflareConfig
unfolding build new
from_env var client =
    and_then (ok_or (missing_credentials env_token) (var env_token))
      λ token. build client (new token)
