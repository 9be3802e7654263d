-- ===== src/Providers/Cloudflare.antt =====
-- src/providers/cloudflare.rs: one record per TXT value; the ids of zones are cached.
pub mod Config
pub mod Listed
pub mod Changes
use cheti.Prelude.{
  ℕ, Bool, true, false, not, ◌&&◌, Option, none, some, List, [], ◌∷◌, ◌++◌, ◌==◌, any,
  if◌then◌else◌,
}
use cheti.Text.{Text, text, text_eq, trim_matches, trim_end_matches, to_ascii_lowercase}
use cheti.Text.Trim.{quoted}
use cheti.Error.{
  Result, ok, err, api, zone_not_found, missing_credentials, ok_or, ◌>>=◌ as and_then,
}
use cheti.Exec.{Exec, ◌>>=◌, ◌>>◌, lift, pure}
use cheti.Dns.Client.{Reply, Client}
use cheti.Dns.Zone.{find_zone}
use cheti.Common.Validate.{validate_fqdn, validate_zone, validate_acme_value, validate_ttl_range}
use cheti.Common.Names.{Url, validate_https_base, relative_name, PercentEncode, encode_path}
use cheti.Common.Retry.{Response, Transport, get, post, delete, send_retrying}
use cheti.Providers.Http.{
  Reader, is_success, plain, with_json, api_error, http_error, on_dns, on_api,
}
use cheti.Providers.Records.{delete_each}
use cheti.Providers.Cloudflare.Config.{
  provider, ZoneOverride, CloudflareConfig, new, with_api_base, with_zone, with_zone_id, with_ttl,
  with_timeout, build, from_env,
}

-- `errors` is the list of errors as `{:?}` prints it.
pub record CfEnvelope (T : Type 0) : Type 0 where
  pub success : Bool
  pub errors : Text
  pub result : Option T

unfoldable pub into_result : {T : Type 0} → Text → CfEnvelope T → Result T
into_result op_label body =
    if not body.success
    then err (api (text "cloudflare " ++ (op_label ++ (text ": " ++ body.errors))))
    else ok_or (api (text "cloudflare " ++ (op_label ++ text ": missing result"))) body.result

pub record CfZone : Type 0 where
  pub id : Text
  pub name : Text

pub record CfDnsRecord : Type 0 where
  pub id : Text
  pub content : Text

pub record CreateRecordBody : Type 0 where
  pub record_type : Text
  pub name : Text
  pub content : Text
  pub ttl : ℕ

-- The body of a response as text and as the JSON that is asked for.
pub record CfReader (B : Type 0) : Type 0 where
  pub text_of : Reader B (CfEnvelope (List CfDnsRecord))
  pub zones_json : B → Reply (CfEnvelope (List CfZone))
  pub record_json : B → Reply (CfEnvelope CfDnsRecord)

-- `zone_id_cache`; `insert` puts the newest in front.
abbrev pub Cache : Type 0
Cache = List (Text × Text)

unfoldable pub cached_id : Text → Cache → Option Text
cached_id name [] = none
cached_id name ((n, id) ∷ cache) =
    let rest = cached_id name cache in if text_eq n name then some id else rest

-- `into_iter().find(…)`.
unfoldable pub find_zone_named : Text → List CfZone → Option CfZone
find_zone_named name [] = none
find_zone_named name (z ∷ zs) =
    let rest = find_zone_named name zs in if text_eq z.name name then some z else rest

unfoldable pub content_shows : Text → CfDnsRecord → Bool
content_shows value x = text_eq (trim_matches b'"' x.content) value

module _ {E R Ip : Type 0} (dns : Client E R Ip) where
  abbrev given_name : Text → ZoneOverride → Result Text
  given_name fqdn o = and_then (relative_name fqdn o.name) λ r. ok o.name

  pub searched_name : Text → Exec E Text
  searched_name fqdn = do zone ← find_zone dns fqdn; lift (validate_fqdn zone); pure zone

  pub resolve_zone_name : CloudflareConfig → Text → Exec E Text
  unfolding searched_name
  resolve_zone_name config fqdn = elim config.zone_override [
    | some o ↦ lift (given_name fqdn o)
    | none ↦ searched_name fqdn
  ]

module _ (config : CloudflareConfig) (utf8_percent_encode : PercentEncode) where
  unfoldable pub records_url : Text → Text
  records_url zone_id =
      config.api_base
      ++ (text "/zones/" ++ (encode_path utf8_percent_encode zone_id ++ text "/dns_records"))

  unfoldable pub record_item_url : Text → Text → Text
  record_item_url zone_id record_id =
      config.api_base
      ++ (text "/zones/"
          ++ (encode_path utf8_percent_encode zone_id
              ++ (text "/dns_records/" ++ encode_path utf8_percent_encode record_id)))

  abbrev records_path : Text → Text
  records_path zone_id = text "/zones/" ++ (zone_id ++ text "/dns_records")

  abbrev pub list_url : Text → Text → Text
  list_url base name =
      base ++ (text "?type=TXT&per_page=100&name=" ++ encode_path utf8_percent_encode name)

  abbrev zones_url : Text → Text
  zones_url zone_name =
      config.api_base ++ (text "/zones?name=" ++ encode_path utf8_percent_encode zone_name)

  module _ {B : Type 0} (reader : CfReader B) where
    unfoldable pub zone_of : Text → Response B → Result CfZone
    unfolding into_result find_zone_named
    zone_of zone_name response =
        if not (is_success response.status)
        then err (api_error reader.text_of provider (text "GET") (text "/zones") response)
        else and_then (http_error (reader.zones_json response.body)) λ body.
          and_then (into_result (text "GET /zones?name=" ++ zone_name) body)
            λ zones. ok_or (zone_not_found zone_name) (find_zone_named zone_name zones)

    unfoldable pub listed : Text → Response B → Result (List CfDnsRecord)
    unfolding into_result
    listed zone_id response =
        if not (is_success response.status)
        then err (api_error reader.text_of provider (text "GET") (records_path zone_id) response)
        else and_then (http_error (reader.text_of.json response.body))
            (into_result (text "GET " ++ records_path zone_id))

    unfoldable pub created : Text → Response B → Result (Unit {0})
    unfolding into_result
    created zone_id response =
        if not (is_success response.status)
        then err (api_error reader.text_of provider (text "POST") (records_path zone_id) response)
        else and_then (http_error (reader.record_json response.body))
            λ env. and_then (into_result (text "POST " ++ records_path zone_id) env) λ x. ok tt

    unfoldable pub deleted : Text → Response B → Result (Unit {0})
    deleted zone_id response =
        if not (is_success response.status) && not (response.status == 404)
        then err (api_error reader.text_of provider (text "DELETE") (records_path zone_id) response)
        else ok tt

  module _ {S B : Type 0} (transport : Transport S CreateRecordBody B) (reader : CfReader B) where
    unfoldable pub fetched_id : Text → Exec (Cache × S) Text
    unfolding zone_of
    fetched_id zone_name = do
      response ← on_api (send_retrying transport (plain get (zones_url zone_name)))
      zone ← lift (zone_of reader zone_name response)
      λ w. (ok zone.id, ((zone_name, zone.id) ∷ w.0, w.1))

    unfoldable pub cached_or_fetched : Text → Exec (Cache × S) Text
    unfolding cached_id fetched_id
    cached_or_fetched zone_name w = elim (cached_id zone_name w.0) [
      | some id ↦ (ok id, w)
      | none ↦ fetched_id zone_name w
    ]

    abbrev given_id : Option ZoneOverride → Option Text
    given_id none = none
    given_id (some o) = o.id

    unfoldable pub resolve_zone_id : Text → Exec (Cache × S) Text
    unfolding cached_or_fetched
    resolve_zone_id zone_name = elim (given_id config.zone_override) [
      | some id ↦ pure id
      | none ↦ cached_or_fetched zone_name
    ]

    unfoldable pub list_matching_records : Text → Text → Exec S (List CfDnsRecord)
    unfolding listed records_url
    list_matching_records zone_id fqdn = do
      response ←
          send_retrying transport
            (plain get (list_url (records_url zone_id) (trim_end_matches b'.' fqdn)))
      lift (listed reader zone_id response)

    abbrev pub create_body : Text → Text → CreateRecordBody
    create_body fqdn value = record {
      record_type = text "TXT";
      name = trim_end_matches b'.' fqdn;
      content = quoted value;
      ttl = config.ttl;
    }

    unfoldable pub create_record : Text → Text → Text → Exec S (Unit {0})
    unfolding created records_url
    create_record zone_id fqdn value = do
      response ←
          send_retrying transport (with_json post (records_url zone_id) (create_body fqdn value))
      lift (created reader zone_id response)

    unfoldable pub delete_record : Text → Text → Exec S (Unit {0})
    unfolding deleted record_item_url
    delete_record zone_id record_id = do
      response ← send_retrying transport (plain delete (record_item_url zone_id record_id))
      lift (deleted reader zone_id response)

    -- The part of `present` and of `cleanup` that runs under the lock of the name.
    unfoldable pub add_value : Text → Text → Text → Exec S (Unit {0})
    unfolding list_matching_records create_record content_shows
    add_value zone_id fqdn value = do
      existing ← list_matching_records zone_id fqdn
      if any (content_shows value) existing then pure tt else create_record zone_id fqdn value

    unfoldable pub remove_value : Text → Text → Text → Exec S (Unit {0})
    unfolding list_matching_records delete_record content_shows
    remove_value zone_id fqdn value = do
      existing ← list_matching_records zone_id fqdn
      delete_each (content_shows value) (λ x. delete_record zone_id x.id) existing

    module _ {E R Ip : Type 0} (dns : Client E R Ip) where
      pub present : Text → Text → Exec (E × (Cache × S)) (Unit {0})
      unfolding resolve_zone_name resolve_zone_id add_value
      present name value = do
        lift (validate_fqdn name)
        let fqdn = to_ascii_lowercase name
        lift (validate_acme_value value)
        zone_name ← on_dns (resolve_zone_name dns config fqdn)
        zone_id ← on_api (resolve_zone_id zone_name)
        on_api (on_api (add_value zone_id fqdn value))

      pub cleanup : Text → Text → Exec (E × (Cache × S)) (Unit {0})
      unfolding resolve_zone_name resolve_zone_id remove_value
      cleanup name value = do
        lift (validate_fqdn name)
        let fqdn = to_ascii_lowercase name
        zone_name ← on_dns (resolve_zone_name dns config fqdn)
        zone_id ← on_api (resolve_zone_id zone_name)
        on_api (on_api (remove_value zone_id fqdn value))
