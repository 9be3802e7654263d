-- ===== src/Providers/DigitalOcean.antt =====
-- src/providers/digitalocean.rs: one record per TXT value, listed page by page.
pub mod Config
pub mod Listed
pub mod Changes
use cheti.Prelude.{
  ℕ, zero, suc, ◌-◌, ◌^◌, Bool, true, false, not, ◌&&◌, Option, none, some, List, [], ◌∷◌, ◌++◌,
  ◌==◌, any, if◌then◌else◌,
}
use cheti.Text.{
  Text, text, text_eq, trim, trim_matches, trim_end_matches, to_ascii_lowercase, decimal,
}
use cheti.Error.{
  DnsError, Result, ok, err, api, zone_not_found, missing_credentials, ok_or, ◌>>=◌ as and_then,
}
use cheti.Exec.{Exec, ◌>>=◌, ◌>>◌, lift, pure, fail}
use cheti.Dns.Client.{Reply, Client}
use cheti.Dns.Zone.{find_zone}
use cheti.Common.Validate.{validate_fqdn, validate_zone, validate_acme_value, validate_ttl_range}
use cheti.Common.Names.{Url, validate_https_base, relative_name, PercentEncode, encode_path}
use cheti.Common.Retry.{Request, Response, Transport, get, post, delete, send_retrying}
use cheti.Providers.Http.{
  Reader, is_success, plain, with_json, api_error, http_error, on_dns, on_api,
}
use cheti.Providers.Records.{delete_each}
use cheti.Providers.DigitalOcean.Config.{
  provider, per_page, max_pages, DigitalOceanConfig, new, with_api_base, with_zone, with_ttl,
  with_timeout, build, from_env,
}

pub record DoRecord : Type 0 where
  pub id : ℕ
  pub data_ : Text

-- `DoLinks` and `DoPages`.
pub record DoPages : Type 0 where
  pub next : Option Text

pub record DoLinks : Type 0 where
  pub pages : Option DoPages

pub record DoRecordList : Type 0 where
  pub domain_records : List DoRecord
  pub links : Option DoLinks

pub record CreateRecordBody : Type 0 where
  pub record_type : Text
  pub name : Text
  pub data_ : Text
  pub ttl : ℕ

unfoldable pub record_value : DoRecord → Text
record_value x = trim_matches b'"' (trim x.data_)

abbrev is_some : {A : Type 0} → Option A → Bool
is_some none = false
is_some (some a) = true

abbrev pages_of : Option DoLinks → Option DoPages
pages_of none = none
pages_of (some l) = l.pages

abbrev next_of : Option DoPages → Option Text
next_of none = none
next_of (some p) = p.next

abbrev pub has_next : DoRecordList → Bool
has_next body = is_some (next_of (pages_of body.links))

module _ {E R Ip : Type 0} (dns : Client E R Ip) where
  searched_zone : Text → Exec E Text
  searched_zone fqdn = do zone ← find_zone dns fqdn; lift (validate_zone zone); pure zone

  pub resolve_zone : DigitalOceanConfig → Text → Exec E Text
  unfolding searched_zone
  resolve_zone config fqdn = elim config.zone_override [
    | some z ↦ pure z
    | none ↦ searched_zone fqdn
  ]

abbrev pub page_query : Text → ℕ → List (Text × Text)
page_query name page =
    (text "type", text "TXT")
    ∷ (text "name", name)
    ∷ (text "per_page", decimal per_page)
    ∷ (text "page", decimal page)
    ∷ []

module _ (config : DigitalOceanConfig) (utf8_percent_encode : PercentEncode) where
  unfoldable pub records_path : Text → Text
  records_path zone = text "/domains/" ++ (encode_path utf8_percent_encode zone ++ text "/records")

  unfoldable pub records_url : Text → Text
  records_url zone =
      config.api_base
      ++ (text "/domains/" ++ (encode_path utf8_percent_encode zone ++ text "/records"))

  unfoldable pub record_item_url : Text → ℕ → Text
  unfolding records_url
  record_item_url zone record_id = records_url zone ++ (text "/" ++ decimal record_id)

  abbrev pub list_request : {P : Type 0} → Text → Text → ℕ → Request P
  list_request zone fqdn page = record {
    method = get;
    url = records_url zone;
    query = page_query (trim_end_matches b'.' fqdn) page;
    payload = none;
  }

  module _ {B : Type 0} (reader : Reader B DoRecordList) where
    -- What the loop makes of a response.
    unfoldable pub listed : Text → Response B → Result DoRecordList
    unfolding records_path
    listed zone response =
        if response.status == 404
        then err (zone_not_found zone)
        else if not (is_success response.status)
        then err (api_error reader provider (text "GET") (records_path zone) response)
        else http_error (reader.json response.body)

    unfoldable pub created : Text → Response B → Result (Unit {0})
    unfolding records_path
    created zone response =
        if response.status == 404
        then err (zone_not_found zone)
        else if not (is_success response.status)
        then err (api_error reader provider (text "POST") (records_path zone) response)
        else ok tt

    unfoldable pub deleted : Text → ℕ → Response B → Result (Unit {0})
    unfolding records_path
    deleted zone record_id response =
        if not (is_success response.status) && not (response.status == 404)
        then err (
            api_error reader provider (text "DELETE")
              (records_path zone ++ (text "/" ++ decimal record_id)) response)
        else ok tt

    abbrev too_many : Text → DnsError
    too_many zone = api (
        provider
        ++ (text " GET "
            ++ (records_path zone
                ++ (text ": more than " ++ (decimal max_pages ++ text " pages of records")))))

  module _ {S B : Type 0} (transport : Transport S CreateRecordBody B)
      (reader : Reader B DoRecordList) where
    -- The end of the loop's body: `next` is the rest of the loop, if a page may follow.
    unfoldable pub after_page :
        (List DoRecord → Exec S (List DoRecord))
        → List DoRecord
        → DoRecordList
        → Exec S (List DoRecord)
    after_page next records body =
        if not (has_next body)
        then pure (records ++ body.domain_records)
        else next (records ++ body.domain_records)

    -- The loop, by the number of pages left after this one: `page` is `max_pages - left`, and the
    -- guard `page >= MAX_PAGES` is `left` being zero.
    unfoldable pub list_loop : ℕ → Text → Text → List DoRecord → Exec S (List DoRecord)
    unfolding after_page listed
    list_loop zero zone fqdn records = do
      response ← send_retrying transport (list_request zone fqdn max_pages)
      body ← lift (listed reader zone response)
      after_page (λ all. fail (too_many reader zone)) records body
    list_loop (suc left) zone fqdn records = do
      response ← send_retrying transport (list_request zone fqdn (max_pages - suc left))
      body ← lift (listed reader zone response)
      after_page (list_loop left zone fqdn) records body

    unfoldable pub list_matching_records : Text → Text → Exec S (List DoRecord)
    unfolding list_loop
    list_matching_records zone fqdn = list_loop (max_pages - 1) zone fqdn []

    abbrev pub create_body : Text → Text → CreateRecordBody
    create_body rname value = record {
      record_type = text "TXT";
      name = rname;
      data_ = value;
      ttl = config.ttl;
    }

    unfoldable pub create_record : Text → Text → Text → Exec S (Unit {0})
    unfolding created records_url
    create_record zone rname value = do
      response ←
          send_retrying transport (with_json post (records_url zone) (create_body rname value))
      lift (created reader zone response)

    unfoldable pub delete_record : Text → ℕ → Exec S (Unit {0})
    unfolding deleted record_item_url
    delete_record zone record_id = do
      response ← send_retrying transport (plain delete (record_item_url zone record_id))
      lift (deleted reader zone record_id response)

    -- The part of `present` and of `cleanup` that runs under the lock of the name.
    unfoldable pub add_value : Text → Text → Text → Text → Exec S (Unit {0})
    unfolding list_matching_records create_record record_value
    add_value zone rname fqdn value = do
      existing ← list_matching_records zone fqdn
      if any (λ x. text_eq (record_value x) value) existing
          then pure tt
          else create_record zone rname value

    unfoldable pub remove_value : Text → Text → Text → Exec S (Unit {0})
    unfolding list_matching_records delete_record record_value
    remove_value zone fqdn value = do
      existing ← list_matching_records zone fqdn
      delete_each (λ x. text_eq (record_value x) value) (λ x. delete_record zone x.id) existing

    module _ {E R Ip : Type 0} (dns : Client E R Ip) where
      pub present : Text → Text → Exec (E × S) (Unit {0})
      unfolding resolve_zone add_value
      present name value = do
        lift (validate_fqdn name)
        let fqdn = to_ascii_lowercase name
        lift (validate_acme_value value)
        zone ← on_dns (resolve_zone dns config fqdn)
        rname ← lift (relative_name fqdn zone)
        on_api (add_value zone rname fqdn value)

      pub cleanup : Text → Text → Exec (E × S) (Unit {0})
      unfolding resolve_zone remove_value
      cleanup name value = do
        lift (validate_fqdn name)
        let fqdn = to_ascii_lowercase name
        zone ← on_dns (resolve_zone dns config fqdn)
        rname ← lift (relative_name fqdn zone)
        on_api (remove_value zone fqdn value)
