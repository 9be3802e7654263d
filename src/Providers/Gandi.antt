-- ===== src/Providers/Gandi.antt =====
-- src/providers/gandi.rs: all TXT values of a name are one resource of the API, read and written
-- as a whole.
pub mod Server
pub mod Calls
pub mod Added
pub mod Removed
pub mod Present
pub mod Restored
pub mod Refined
pub mod Config
use cheti.Prelude.{
  ℕ, Bool, true, false, not, ◌&&◌, ◌||◌, Option, none, some, List, [], ◌∷◌, ◌++◌, ◌==◌, any, keep,
  length, if◌then◌else◌,
}
use cheti.Text.{
  Text, text, text_eq, is_empty, trim, trim_end_matches, strip_prefix, strip_suffix,
  to_ascii_lowercase,
}
use cheti.Text.Trim.{quoted}
use cheti.Error.{
  Result, ok, err, ok_or, missing_credentials, missing_credentials, ◌>>=◌ as and_then,
}
use cheti.Exec.{Exec, ◌>>=◌, ◌>>◌, lift, pure, fail}
use cheti.Dns.Client.{Reply, answered, failed, Client}
use cheti.Dns.Zone.{find_zone}
use cheti.Common.Validate.{validate_fqdn, validate_zone, validate_acme_value, validate_ttl_range}
use cheti.Common.Names.{Url, validate_https_base, relative_name, PercentEncode, encode_path}
use cheti.Common.Retry.{Request, Response, Transport, get, put, delete, send_retrying}
use cheti.Providers.Http.{
  Reader, is_success, plain, with_json, api_error, http_error, on_dns, on_api,
}

abbrev pub gandi_api_base : Text
gandi_api_base = text "https://api.gandi.net/v5"

abbrev pub default_ttl : ℕ
default_ttl = 300

-- Milliseconds.
abbrev pub http_timeout : ℕ
http_timeout = 30000

abbrev pub provider : Text
provider = text "gandi"

pub record GandiConfig : Type 0 where
  pub personal_access_token : Text
  pub api_base : Text
  pub zone_override : Option Text
  pub ttl : ℕ
  pub timeout : ℕ

unfoldable pub new : Text → GandiConfig
new personal_access_token = record {
  personal_access_token = personal_access_token;
  api_base = gandi_api_base;
  zone_override = none;
  ttl = default_ttl;
  timeout = http_timeout;
}

pub with_api_base : (Text → Option Url) → Text → GandiConfig → Result GandiConfig
with_api_base url_parse base config =
    and_then (validate_https_base url_parse base provider)
      λ u. ok (record config { api_base = trim_end_matches b'/' base })

pub with_zone : Text → GandiConfig → Result GandiConfig
with_zone zone config = and_then (validate_zone zone) λ u.
    ok (record config { zone_override = some (to_ascii_lowercase (trim_end_matches b'.' zone)) })

unfoldable pub with_ttl : ℕ → GandiConfig → Result GandiConfig
with_ttl ttl config =
    and_then (validate_ttl_range ttl 300 2592000) λ checked. ok (record config { ttl = checked })

unfoldable pub with_timeout : ℕ → GandiConfig → GandiConfig
with_timeout timeout config = record config { timeout = timeout }

-- `GandiProvider::new`: a provider is its configuration, once its HTTP client has been built.
pub build : Reply (Unit {0}) → GandiConfig → Result GandiConfig
build client config = and_then (http_error client) λ u. ok config

abbrev env_token : Text
env_token = text "GANDIV5_PERSONAL_ACCESS_TOKEN"

-- `var` reads the environment.
pub from_env : (Text → Option Text) → Reply (Unit {0}) → Result GandiConfig
unfolding build new
from_env var client =
    and_then (ok_or (missing_credentials env_token) (var env_token))
      λ token. build client (new token)

pub record TxtRecordBody : Type 0 where
  pub rrset_ttl : ℕ
  pub rrset_values : List Text

abbrev inner : Text → Option Text → Text
inner trimmed none = trimmed
inner trimmed (some s) = s

abbrev without_quotes : Text → Option Text → Option Text
without_quotes trimmed none = none
without_quotes trimmed (some s) = strip_suffix (b'"' ∷ []) s

unfoldable pub unquote : Text → Text
unquote value =
    let trimmed = trim value in
    inner trimmed (without_quotes trimmed (strip_prefix (b'"' ∷ []) trimmed))

unfoldable pub values_of : Reply TxtRecordBody → Result (List Text)
values_of body = and_then (http_error body) λ b. ok b.rrset_values

module _ {E R Ip : Type 0} (dns : Client E R Ip) where
  searched_zone : Text → Exec E Text
  searched_zone fqdn = do zone ← find_zone dns fqdn; lift (validate_fqdn zone); pure zone

  unfoldable pub resolve_zone : GandiConfig → Text → Exec E Text
  unfolding searched_zone
  resolve_zone config fqdn = elim config.zone_override [
    | some z ↦ pure z
    | none ↦ searched_zone fqdn
  ]

module _ (config : GandiConfig) (utf8_percent_encode : PercentEncode) where
  unfoldable pub record_path : Text → Text → Text
  record_path zone rname =
      text "/livedns/domains/"
      ++ (encode_path utf8_percent_encode zone
          ++ (text "/records/" ++ (encode_path utf8_percent_encode rname ++ text "/TXT")))

  unfoldable pub record_url : Text → Text → Text
  record_url zone rname =
      config.api_base
      ++ (text "/livedns/domains/"
          ++ (encode_path utf8_percent_encode zone
              ++ (text "/records/" ++ (encode_path utf8_percent_encode rname ++ text "/TXT"))))

  module _ {B : Type 0} (reader : Reader B TxtRecordBody) where
    -- What `fetch_existing` makes of a response.
    unfoldable pub existing : Text → Text → Response B → Result (List Text)
    unfolding values_of record_path
    existing zone rname response =
        if response.status == 404
        then ok []
        else if not (is_success response.status)
        then err (api_error reader provider (text "GET") (record_path zone rname) response)
        else values_of (reader.json response.body)

    unfoldable pub written : Text → Text → Response B → Result (Unit {0})
    unfolding record_path
    written zone rname response =
        if not (is_success response.status)
        then err (api_error reader provider (text "PUT") (record_path zone rname) response)
        else ok tt

    unfoldable pub deleted : Text → Text → Response B → Result (Unit {0})
    unfolding record_path
    deleted zone rname response =
        if not (is_success response.status) && not (response.status == 404)
        then err (api_error reader provider (text "DELETE") (record_path zone rname) response)
        else ok tt

  module _ {S B : Type 0} (api : Transport S TxtRecordBody B)
      (reader : Reader B TxtRecordBody) where
    unfoldable pub fetch_existing : Text → Text → Exec S (List Text)
    unfolding existing record_url
    fetch_existing zone rname = do
      response ← send_retrying api (plain get (record_url zone rname))
      lift (existing reader zone rname response)

    unfoldable pub put_values : Text → Text → List Text → Exec S (Unit {0})
    unfolding written record_url
    put_values zone rname values = do
      response ← send_retrying api (
          with_json put (record_url zone rname)
            (record { rrset_ttl = config.ttl; rrset_values = values }))
      lift (written reader zone rname response)

    unfoldable pub delete_record : Text → Text → Exec S (Unit {0})
    unfolding deleted record_url
    delete_record zone rname = do
      response ← send_retrying api (plain delete (record_url zone rname))
      lift (deleted reader zone rname response)

    -- The part of `present` and of `cleanup` that runs under the lock of the name.
    unfoldable pub add_value : Text → Text → Text → Exec S (Unit {0})
    unfolding fetch_existing put_values unquote
    add_value zone rname value = do
      values ← fetch_existing zone rname
      if any (λ v. text_eq (unquote v) value) values
          then pure tt
          else put_values zone rname (values ++ (quoted value ∷ []))

    unfoldable pub write_remaining : Text → Text → List Text → Exec S (Unit {0})
    unfolding delete_record put_values
    write_remaining zone rname [] = delete_record zone rname
    write_remaining zone rname (v ∷ vs) = put_values zone rname (v ∷ vs)

    unfoldable pub remove_value : Text → Text → Text → Exec S (Unit {0})
    unfolding fetch_existing write_remaining unquote
    remove_value zone rname value = do
      values ← fetch_existing zone rname
      let remaining = keep (λ v. not (text_eq (unquote v) value)) values
      if length remaining == length values then pure tt else write_remaining zone rname remaining

    module _ {E R Ip : Type 0} (dns : Client E R Ip) where
      unfoldable pub present : Text → Text → Exec (E × S) (Unit {0})
      unfolding resolve_zone add_value
      present name value = do
        lift (validate_fqdn name)
        let fqdn = to_ascii_lowercase name
        lift (validate_acme_value value)
        zone ← on_dns (resolve_zone dns config fqdn)
        rname ← lift (relative_name fqdn zone)
        on_api (add_value zone rname value)

      unfoldable pub cleanup : Text → Text → Exec (E × S) (Unit {0})
      unfolding resolve_zone remove_value
      cleanup name value = do
        lift (validate_fqdn name)
        let fqdn = to_ascii_lowercase name
        zone ← on_dns (resolve_zone dns config fqdn)
        rname ← lift (relative_name fqdn zone)
        on_api (remove_value zone rname value)
