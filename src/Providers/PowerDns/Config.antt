-- ===== src/Providers/PowerDns/Config.antt =====
-- The configuration of src/providers/powerdns.rs, and the provider built from it.
use cheti.Prelude.{ℕ, Option, none, some, ◌++◌, if◌then◌else◌}
use cheti.Text.{Text, text, is_empty, trim_end_matches, strip_suffix, to_ascii_lowercase}
use cheti.Error.{ok_or, missing_credentials, Result, ok, err, other, ◌>>=◌ as and_then}
use cheti.Dns.Client.{Reply}
use cheti.Common.Validate.{validate_zone, validate_ttl}
use cheti.Common.Names.{Url, validate_https_base}
use cheti.Providers.Http.{http_error}

abbrev pub api_path : Text
api_path = text "/api/v1"

abbrev pub provider : Text
provider = text "powerdns"

pub record PowerDnsConfig : Type 0 where
  pub api_key : Text
  pub api_base : Text
  pub server_id : Text
  pub zone_override : Option Text
  pub ttl : ℕ
  pub timeout : ℕ

abbrev stripped : Text → Option Text → Text
stripped base none = base
stripped base (some rest) = rest

pub new : (Text → Option Url) → Text → Text → Result PowerDnsConfig
new url_parse api_url api_key = and_then (validate_https_base url_parse api_url provider) λ u.
    let base = trim_end_matches b'/' api_url in
    ok (record {
      api_key = api_key;
      api_base = stripped base (strip_suffix api_path base) ++ api_path;
      server_id = text "localhost";
      zone_override = none;
      ttl = 60;
      timeout = 30000;
    })

pub with_server_id : Text → PowerDnsConfig → Result PowerDnsConfig
with_server_id server_id config =
    if is_empty server_id
    then err (other (provider ++ text " server id is empty"))
    else ok (record config { server_id = server_id })

pub with_zone : Text → PowerDnsConfig → Result PowerDnsConfig
with_zone zone config = and_then (validate_zone zone) λ u.
    ok (record config { zone_override = some (to_ascii_lowercase (trim_end_matches b'.' zone)) })

pub with_ttl : ℕ → PowerDnsConfig → Result PowerDnsConfig
with_ttl ttl config = and_then (validate_ttl ttl) λ checked. ok (record config { ttl = checked })

pub with_timeout : ℕ → PowerDnsConfig → PowerDnsConfig
with_timeout timeout config = record config { timeout = timeout }

-- `PowerDnsProvider::new`: a provider is its configuration, once its HTTP client has been built.
pub build : Reply (Unit {0}) → PowerDnsConfig → Result PowerDnsConfig
build client config = and_then (http_error client) λ u. ok config

abbrev variable : (Text → Option Text) → Text → Result Text
variable var name = ok_or (missing_credentials name) (var name)

abbrev with_variable : Option Text → PowerDnsConfig → Result PowerDnsConfig
with_variable none config = ok config
with_variable (some server_id) config = with_server_id server_id config

-- `var` reads the environment.
pub from_env : (Text → Option Url) → (Text → Option Text) → Reply (Unit {0}) → Result PowerDnsConfig
unfolding build new with_server_id
from_env url_parse var client = and_then (variable var (text "POWERDNS_API_URL")) λ api_url.
    and_then (variable var (text "POWERDNS_API_KEY")) λ api_key.
      and_then (new url_parse api_url api_key) λ config.
        and_then (with_variable (var (text "POWERDNS_SERVER_ID")) config)
          λ whole. build client whole
