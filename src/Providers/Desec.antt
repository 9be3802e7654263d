-- ===== src/Providers/Desec.antt =====
-- src/providers/desec.rs: the TXT values of a name are one RRset, read at its URL and written whole by
-- a PATCH of all RRsets of the domain. `unquote` is the function of src/providers/gandi.rs, which
-- stands in this file of the source once more.
pub mod Config
pub mod Server
pub mod Changes
use cheti.Prelude.{
  ℕ, Bool, true, false, not, ◌&&◌, ◌||◌, Option, none, some, List, [], ◌∷◌, ◌++◌, ◌==◌, any, keep,
  length, leb, map, if◌then◌else◌,
}
use cheti.Text.{Text, text, text_eq, is_empty, trim_end_matches, to_ascii_lowercase}
use cheti.Text.Trim.{quoted}
use cheti.Error.{
  DnsError, Result, ok, err, api, ok_or, zone_not_found, missing_credentials, ◌>>=◌ as and_then,
}
use cheti.Exec.{Exec, ◌>>=◌, ◌>>◌, lift, pure, fail}
use cheti.Dns.Client.{Reply, answered, failed, Client}
use cheti.Dns.Zone.{find_zone}
use cheti.Common.Validate.{
  validate_fqdn, validate_zone, validate_acme_value, validate_ttl, validate_ttl_range,
}
use cheti.Common.Names.{Url, validate_https_base, relative_name, PercentEncode, encode_path}
use cheti.Common.Retry.{Request, Response, Transport, get, patch, send_retrying}
use cheti.Providers.Http.{
  Reader, is_success, plain, with_json, api_error, http_error, on_dns, on_api,
}
use cheti.Providers.Gandi.{unquote}
use cheti.Providers.Desec.Config.{
  desec_api_base, default_ttl, http_timeout, provider, DesecConfig, new, with_api_base, with_zone,
  with_ttl, with_timeout, build, from_env,
}

pub record ResolvedZone : Type 0 where
  pub name : Text
  pub ttl : ℕ

pub record DesecDomain : Type 0 where
  pub name : Text
  pub minimum_ttl : Option ℕ

pub record DesecRrset : Type 0 where
  pub records : List Text

pub record DesecRrsetWrite : Type 0 where
  pub subname : Text
  pub rrset_type : Text
  pub ttl : ℕ
  pub records : List Text

abbrev unwrap_or : ℕ → Option ℕ → ℕ
unwrap_or d none = d
unwrap_or d (some n) = n

-- `Ord::max`.
abbrev max : ℕ → ℕ → ℕ
max m n = if leb n m then m else n

unfoldable pub into_resolved : DesecDomain → ℕ → ResolvedZone
into_resolved domain ttl = record {
  name = domain.name;
  ttl = max ttl (unwrap_or default_ttl domain.minimum_ttl);
}

-- The body of a response as text and as the JSON that is asked for.
pub record DesecReader (B : Type 0) : Type 0 where
  pub plain_reader : Reader B DesecRrset
  pub domain_json : B → Reply DesecDomain
  pub domains_json : B → Reply (List DesecDomain)

abbrev hint : Option Text → Text
hint none = text "retry later"
hint (some secs) = text "retry after " ++ (secs ++ text "s")

unfoldable pub check_error : {B : Type 0} → DesecReader B → Text → Text → Response B → DnsError
check_error reader method path response =
    if response.status == 429
    then api (
        provider
        ++ (text " "
            ++ (method
                ++ (text " "
                    ++ (path ++ (text " was rate limited (429), " ++ hint response.retry_after))))))
    else api_error reader.plain_reader provider method path response

unfoldable pub first_domain : Text → ℕ → List DesecDomain → Result ResolvedZone
unfolding into_resolved
first_domain fqdn ttl [] = err (zone_not_found fqdn)
first_domain fqdn ttl (domain ∷ domains) =
    and_then (validate_zone domain.name) λ u. ok (into_resolved domain ttl)

abbrev pub subname_of : Text → Text
subname_of rname = if text_eq rname (text "@") then [] else rname

module _ (config : DesecConfig) (utf8_percent_encode : PercentEncode) where
  unfoldable pub rrsets_path : Text → Text
  rrsets_path zone = text "/domains/" ++ (encode_path utf8_percent_encode zone ++ text "/rrsets/")

  unfoldable pub rrsets_url : Text → Text
  unfolding rrsets_path
  rrsets_url zone = config.api_base ++ rrsets_path zone

  unfoldable pub rrset_path : Text → Text → Text
  rrset_path zone rname =
      text "/domains/"
      ++ (encode_path utf8_percent_encode zone
          ++ (text "/rrsets/" ++ (encode_path utf8_percent_encode rname ++ text "/TXT/")))

  unfoldable pub rrset_url : Text → Text → Text
  unfolding rrset_path
  rrset_url zone rname = config.api_base ++ rrset_path zone rname

  unfoldable pub domain_path : Text → Text
  domain_path zone = text "/domains/" ++ (encode_path utf8_percent_encode zone ++ (b'/' ∷ []))

  module _ {B : Type 0} (reader : DesecReader B) where
    unfoldable pub owner_of : Text → Response B → Result ResolvedZone
    unfolding first_domain check_error
    owner_of fqdn response =
        if not (is_success response.status)
        then err (check_error reader (text "GET") (text "/domains/") response)
        else and_then (http_error (reader.domains_json response.body))
            λ domains. first_domain fqdn config.ttl domains

    unfoldable pub domain_of : Text → Response B → Result ResolvedZone
    unfolding into_resolved check_error domain_path
    domain_of zone response =
        if response.status == 404
        then err (zone_not_found zone)
        else if not (is_success response.status)
        then err (check_error reader (text "GET") (domain_path zone) response)
        else and_then (http_error (reader.domain_json response.body))
            λ domain. ok (into_resolved domain config.ttl)

    unfoldable pub values_of : Reply DesecRrset → Result (List Text)
    values_of body = and_then (http_error body) λ b. ok (map unquote b.records)

    unfoldable pub existing : Text → Text → Response B → Result (List Text)
    unfolding values_of rrset_path check_error
    existing zone rname response =
        if response.status == 404
        then ok []
        else if not (is_success response.status)
        then err (check_error reader (text "GET") (rrset_path zone rname) response)
        else values_of (reader.plain_reader.json response.body)

    unfoldable pub written : Text → Response B → Result (Unit {0})
    unfolding rrsets_path check_error
    written zone response =
        if not (is_success response.status)
        then err (check_error reader (text "PATCH") (rrsets_path zone) response)
        else ok tt

  module _ {S B : Type 0} (desec : Transport S (List DesecRrsetWrite) B)
      (reader : DesecReader B) where
    unfoldable pub fetch_domain : Text → Exec S ResolvedZone
    unfolding domain_of domain_path
    fetch_domain zone = do
      response ← send_retrying desec (plain get (config.api_base ++ domain_path zone))
      lift (domain_of reader zone response)

    unfoldable pub searched_zone : Text → Exec S ResolvedZone
    unfolding owner_of
    searched_zone fqdn = do
      response ← send_retrying desec (record {
        method = get;
        url = config.api_base ++ text "/domains/";
        query = (text "owns_qname", trim_end_matches b'.' fqdn) ∷ [];
        payload = none;
      })
      lift (owner_of reader fqdn response)

    unfoldable pub resolve_zone : Text → Exec S ResolvedZone
    unfolding fetch_domain searched_zone
    resolve_zone fqdn = elim config.zone_override [
      | some zone ↦ fetch_domain zone
      | none ↦ searched_zone fqdn
    ]

    unfoldable pub fetch_existing : Text → Text → Exec S (List Text)
    unfolding existing rrset_url
    fetch_existing zone rname = do
      response ← send_retrying desec (plain get (rrset_url zone rname))
      lift (existing reader zone rname response)

    unfoldable pub write_values : Text → Text → ℕ → List Text → Exec S (Unit {0})
    unfolding written rrsets_url
    write_values zone rname ttl values = do
      response ← send_retrying desec (
          with_json patch (rrsets_url zone) (
            record {
              subname = subname_of rname;
              rrset_type = text "TXT";
              ttl = ttl;
              records = map quoted values;
            }
            ∷ []))
      lift (written reader zone response)

    -- The part of `present` and of `cleanup` that runs under the lock of the name.
    unfoldable pub add_value : ResolvedZone → Text → Text → Exec S (Unit {0})
    unfolding fetch_existing write_values
    add_value zone rname value = do
      values ← fetch_existing zone.name rname
      if any (λ v. text_eq v value) values
          then pure tt
          else write_values zone.name rname zone.ttl (values ++ (value ∷ []))

    unfoldable pub remove_value : ResolvedZone → Text → Text → Exec S (Unit {0})
    unfolding fetch_existing write_values
    remove_value zone rname value = do
      values ← fetch_existing zone.name rname
      if not (any (λ v. text_eq v value) values)
          then pure tt
          else write_values zone.name rname zone.ttl (keep (λ v. not (text_eq v value)) values)

    unfoldable pub present : Text → Text → Exec S (Unit {0})
    unfolding resolve_zone add_value
    present name value = do
      lift (validate_fqdn name)
      let fqdn = to_ascii_lowercase name
      lift (validate_acme_value value)
      zone ← resolve_zone fqdn
      rname ← lift (relative_name fqdn zone.name)
      add_value zone rname value

    unfoldable pub cleanup : Text → Text → Exec S (Unit {0})
    unfolding resolve_zone remove_value
    cleanup name value = do
      lift (validate_fqdn name)
      let fqdn = to_ascii_lowercase name
      zone ← resolve_zone fqdn
      rname ← lift (relative_name fqdn zone.name)
      remove_value zone rname value
