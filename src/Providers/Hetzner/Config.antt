-- ===== src/Providers/Hetzner/Config.antt =====
-- The configuration of src/providers/hetzner.rs, and the provider built from it.
use cheti.Prelude.{ℕ, ◌-◌, ◌^◌, Option, none, some}
use cheti.Text.{Text, text, trim_end_matches, to_ascii_lowercase}
use cheti.Error.{Result, ok, missing_credentials, ok_or, ◌>>=◌ as and_then}
use cheti.Dns.Client.{Reply}
use cheti.Common.Validate.{validate_zone, validate_ttl_range}
use cheti.Common.Names.{Url, validate_https_base}
use cheti.Providers.Http.{http_error}

abbrev hetzner_api_base : Text
hetzner_api_base = text "https://api.hetzner.cloud/v1"

abbrev default_ttl : ℕ
default_ttl = 60

-- Milliseconds.
abbrev http_timeout : ℕ
http_timeout = 30000

abbrev pub action_poll_interval : ℕ
action_poll_interval = 1000

abbrev pub action_timeout : ℕ
action_timeout = 60000

-- The fuel of the loop: one round for each second until the deadline, and one more.
abbrev pub rounds : ℕ
rounds = 61

abbrev pub provider : Text
provider = text "hetzner"

pub record HetznerConfig : Type 0 where
  pub token : Text
  pub api_base : Text
  pub zone_override : Option Text
  pub ttl : ℕ
  pub timeout : ℕ

unfoldable pub new : Text → HetznerConfig
new api_token = record {
  token = api_token;
  api_base = hetzner_api_base;
  zone_override = none;
  ttl = default_ttl;
  timeout = http_timeout;
}

pub with_api_base : (Text → Option Url) → Text → HetznerConfig → Result HetznerConfig
with_api_base url_parse base config =
    and_then (validate_https_base url_parse base provider)
      λ u. ok (record config { api_base = trim_end_matches b'/' base })

pub with_zone : Text → HetznerConfig → Result HetznerConfig
with_zone zone config = and_then (validate_zone zone) λ u.
    ok (record config { zone_override = some (to_ascii_lowercase (trim_end_matches b'.' zone)) })

-- The upper bound is `i32::MAX as u32`.
pub with_ttl : ℕ → HetznerConfig → Result HetznerConfig
with_ttl ttl config =
    and_then (validate_ttl_range ttl 60 (2 ^ 31 - 1))
      λ checked. ok (record config { ttl = checked })

pub with_timeout : ℕ → HetznerConfig → HetznerConfig
with_timeout timeout config = record config { timeout = timeout }

-- `HetznerProvider::new`: a provider is its configuration, once its HTTP client has been built.
pub build : Reply (Unit {0}) → HetznerConfig → Result HetznerConfig
build client config = and_then (http_error client) λ u. ok config

abbrev env_token : Text
env_token = text "HETZNER_API_TOKEN"

-- `var` reads the environment.
pub from_env : (Text → Option Text) → Reply (Unit {0}) → Result HetznerConfig
unfolding build new
from_env var client =
    and_then (ok_or (missing_credentials env_token) (var env_token))
      λ token. build client (new token)
