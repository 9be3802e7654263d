-- ===== src/Providers/Scaleway.antt =====
-- src/providers/scaleway.rs: the TXT values of a name are read, and replaced or deleted by one change
-- of the records of a zone. `unquote` is the function of src/providers/gandi.rs, which stands in this
-- file of the source once more.
pub mod Config
pub mod Server
pub mod Refined
use cheti.Prelude.{
  ℕ, Bool, true, false, not, ◌&&◌, ◌||◌, Option, none, some, List, [], ◌∷◌, ◌++◌, ◌==◌, any, keep,
  length, map, if◌then◌else◌,
}
use cheti.Text.{Text, text, text_eq, is_empty, trim_end_matches, to_ascii_lowercase}
use cheti.Text.Trim.{quoted}
use cheti.Error.{
  DnsError, Result, ok, err, api, ok_or, zone_not_found, missing_credentials, ◌>>=◌ as and_then,
}
use cheti.Exec.{Exec, ◌>>=◌, ◌>>◌, lift, pure, fail}
use cheti.Dns.Client.{Reply, answered, failed, Client}
use cheti.Dns.Zone.{find_zone}
use cheti.Common.Validate.{
  validate_fqdn, validate_zone, validate_acme_value, validate_ttl, validate_ttl_range,
}
use cheti.Common.Names.{Url, validate_https_base, relative_name, PercentEncode, encode_path}
use cheti.Common.Retry.{Request, Response, Transport, get, patch, send_retrying}
use cheti.Providers.Http.{
  Reader, is_success, plain, with_json, api_error, http_error, on_dns, on_api,
}
use cheti.Providers.Gandi.{unquote}
use cheti.Providers.Scaleway.Config.{
  scw_api_base, default_ttl, http_timeout, provider, ScalewayConfig, new, with_api_base, with_zone,
  with_ttl, with_timeout, build, from_env,
}

pub record RecordSpec : Type 0 where
  pub name : Text
  pub record_type : Text
  pub rdata : Text
  pub ttl : ℕ

pub record IdFields : Type 0 where
  pub name : Text
  pub record_type : Text

pub record SetChange : Type 0 where
  pub id_fields : IdFields
  pub records : List RecordSpec

pub data Change : Type 0 where
  set : SetChange → Change
  delete : IdFields → Change

pub record ChangeRequest : Type 0 where
  pub changes : List Change
  pub return_all_records : Bool

pub record Record : Type 0 where
  pub record_type : Text
  pub rdata : Text

pub record RecordsResponse : Type 0 where
  pub records : List Record

abbrev is_txt : Record → Bool
is_txt r = text_eq r.record_type (text "TXT")

unfoldable pub txt_data : List Record → List Text
txt_data records = map (λ r. r.rdata) (keep is_txt records)

unfoldable pub values_of : Reply RecordsResponse → Result (List Text)
unfolding txt_data
values_of body = and_then (http_error body) λ b. ok (txt_data b.records)

abbrev pub id_of : Text → IdFields
id_of rname = record { name = rname; record_type = text "TXT" }

abbrev pub specs : Text → ℕ → List Text → List RecordSpec
specs rname ttl values =
    map (λ v. record { name = rname; record_type = text "TXT"; rdata = v; ttl = ttl }) values

abbrev pub change_request : Change → ChangeRequest
change_request change = record { changes = change ∷ []; return_all_records = false }

abbrev pub records_query : Text → List (Text × Text)
records_query rname =
    (text "name", rname) ∷ (text "type", text "TXT") ∷ (text "page_size", text "100") ∷ []

module _ {E R Ip : Type 0} (dns : Client E R Ip) where
  searched_zone : Text → Exec E Text
  searched_zone fqdn = do zone ← find_zone dns fqdn; lift (validate_fqdn zone); pure zone

  unfoldable pub resolve_zone : ScalewayConfig → Text → Exec E Text
  unfolding searched_zone
  resolve_zone config fqdn = elim config.zone_override [
    | some z ↦ pure z
    | none ↦ searched_zone fqdn
  ]

module _ (config : ScalewayConfig) (utf8_percent_encode : PercentEncode) where
  unfoldable pub records_path : Text → Text
  records_path zone =
      text "/domain/v2beta1/dns-zones/" ++ (encode_path utf8_percent_encode zone ++ text "/records")

  unfoldable pub records_url : Text → Text
  records_url zone =
      config.api_base
      ++ (text "/domain/v2beta1/dns-zones/"
          ++ (encode_path utf8_percent_encode zone ++ text "/records"))

  module _ {B : Type 0} (reader : Reader B RecordsResponse) where
    unfoldable pub existing : Text → Response B → Result (List Text)
    unfolding values_of records_path
    existing zone response =
        if response.status == 404
        then ok []
        else if not (is_success response.status)
        then err (api_error reader provider (text "GET") (records_path zone) response)
        else values_of (reader.json response.body)

    unfoldable pub changed : Text → Response B → Result (Unit {0})
    unfolding records_path
    changed zone response =
        if not (is_success response.status)
        then err (api_error reader provider (text "PATCH") (records_path zone) response)
        else ok tt

    unfoldable pub deleted : Text → Response B → Result (Unit {0})
    unfolding records_path
    deleted zone response =
        if not (is_success response.status) && not (response.status == 404)
        then err (api_error reader provider (text "PATCH") (records_path zone) response)
        else ok tt

  module _ {S B : Type 0} (scw : Transport S ChangeRequest B)
      (reader : Reader B RecordsResponse) where
    unfoldable pub fetch_existing : Text → Text → Exec S (List Text)
    unfolding existing records_url
    fetch_existing zone rname = do
      response ← send_retrying scw (record {
        method = get;
        url = records_url zone;
        query = records_query rname;
        payload = none;
      })
      lift (existing reader zone response)

    unfoldable pub apply_set : Text → Text → List Text → Exec S (Unit {0})
    unfolding changed records_url
    apply_set zone rname values = do
      response ← send_retrying scw (
          with_json patch (records_url zone) (
            change_request
              (set (record { id_fields = id_of rname; records = specs rname config.ttl values }))))
      lift (changed reader zone response)

    unfoldable pub apply_delete : Text → Text → Exec S (Unit {0})
    unfolding deleted records_url
    apply_delete zone rname = do
      response ←
          send_retrying scw
            (with_json patch (records_url zone) (change_request (delete (id_of rname))))
      lift (deleted reader zone response)

    -- The part of `present` and of `cleanup` that runs under the lock of the name.
    unfoldable pub add_value : Text → Text → Text → Exec S (Unit {0})
    unfolding fetch_existing apply_set unquote
    add_value zone rname value = do
      values ← fetch_existing zone rname
      if any (λ v. text_eq (unquote v) value) values
          then pure tt
          else apply_set zone rname (values ++ (quoted value ∷ []))

    unfoldable pub write_remaining : Text → Text → List Text → Exec S (Unit {0})
    unfolding apply_set apply_delete
    write_remaining zone rname [] = apply_delete zone rname
    write_remaining zone rname (v ∷ vs) = apply_set zone rname (v ∷ vs)

    unfoldable pub remove_value : Text → Text → Text → Exec S (Unit {0})
    unfolding fetch_existing write_remaining unquote
    remove_value zone rname value = do
      values ← fetch_existing zone rname
      let remaining = keep (λ v. not (text_eq (unquote v) value)) values
      if length remaining == length values then pure tt else write_remaining zone rname remaining

    module _ {E R Ip : Type 0} (dns : Client E R Ip) where
      unfoldable pub present : Text → Text → Exec (E × S) (Unit {0})
      unfolding resolve_zone add_value
      present name value = do
        lift (validate_fqdn name)
        let fqdn = to_ascii_lowercase name
        lift (validate_acme_value value)
        zone ← on_dns (resolve_zone dns config fqdn)
        rname ← lift (relative_name fqdn zone)
        on_api (add_value zone rname value)

      unfoldable pub cleanup : Text → Text → Exec (E × S) (Unit {0})
      unfolding resolve_zone remove_value
      cleanup name value = do
        lift (validate_fqdn name)
        let fqdn = to_ascii_lowercase name
        zone ← on_dns (resolve_zone dns config fqdn)
        rname ← lift (relative_name fqdn zone)
        on_api (remove_value zone rname value)
