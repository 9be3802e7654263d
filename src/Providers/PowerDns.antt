-- ===== src/Providers/PowerDns.antt =====
-- src/providers/powerdns.rs: the TXT RRSet of a name is read, and replaced as a whole by a PATCH of
-- its zone. `unquote` and the cut of an error text are the functions of src/providers/gandi.rs and
-- src/providers/common.rs, which stand in this file of the source once more.
pub mod Config
pub mod Server
pub mod Calls
pub mod Changes
pub mod Served
pub mod Refined
use cheti.Prelude.{
  ℕ, zero, suc, Bool, true, false, not, ◌&&◌, ◌||◌, Option, none, some, List, [], ◌∷◌, ◌++◌, ◌==◌,
  any, keep, length, if◌then◌else◌,
}
use cheti.Text.{
  Text, text, text_eq, is_empty, trim_end_matches, strip_suffix, to_ascii_lowercase,
  eq_ignore_ascii_case, split, join,
}
use cheti.Text.Trim.{quoted}
use cheti.Error.{
  DnsError, ok_or, missing_credentials, Result, ok, err, auth, api, other, zone_not_found,
  ◌>>=◌ as and_then,
}
use cheti.Exec.{Exec, ◌>>=◌, ◌>>◌, lift, pure, fail}
use cheti.Dns.Client.{Reply, answered, failed}
use cheti.Common.Body.{truncate_error_body}
use cheti.Common.Validate.{validate_fqdn, validate_zone, validate_acme_value, validate_ttl}
use cheti.Common.Names.{Url, validate_https_base, relative_name, PercentEncode, encode_path}
use cheti.Common.Retry.{Request, Response, Transport, get, patch, send_retrying}
use cheti.Providers.Http.{is_success, with_json, http_error, on_dns, on_api}
use cheti.Providers.Gandi.{unquote}
use cheti.Providers.PowerDns.Config.{
  api_path, provider, PowerDnsConfig, new, with_server_id, with_zone, with_ttl, with_timeout, build,
  from_env,
}

pub record PdnsRecord : Type 0 where
  pub content : Text
  pub disabled : Bool

pub record PdnsRrset : Type 0 where
  pub name : Text
  pub record_type : Text
  pub ttl : ℕ
  pub records : List PdnsRecord

-- `changetype` is REPLACE, with a TTL and records, or DELETE without.
pub data Change : Type 0 where
  replace : ℕ → List PdnsRecord → Change
  remove : Change

pub record PdnsRrsetWrite : Type 0 where
  pub name : Text
  pub record_type : Text
  pub change : Change

pub record PdnsPatch : Type 0 where
  pub rrsets : List PdnsRrsetWrite

-- The body of a response as text and as the JSON that is asked for; `error_json` is the message of
-- a text that is an error object.
pub record PdnsReader (B : Type 0) : Type 0 where
  pub body_text : B → Reply Text
  pub zone_json : B → Reply Text
  pub rrsets_json : B → Reply (List PdnsRrset)
  pub error_json : Text → Option Text
  pub status_text : ℕ → Text

abbrev text_or_default : Reply Text → Text
text_or_default (answered s) = s
text_or_default (failed e) = []

-- Truncating never panics (it is never `none`).
abbrev kept_text : Option Text → Text
kept_text none = []
kept_text (some s) = s

abbrev detail_of : Text → Option Text → Text
detail_of raw none = kept_text (truncate_error_body raw)
detail_of raw (some message) = kept_text (truncate_error_body message)

unfoldable pub check_error : {B : Type 0} → PdnsReader B → Text → Text → Response B → DnsError
check_error reader method path response =
    let raw = text_or_default (reader.body_text response.body) in
    let message =
      provider
      ++ (text " "
          ++ (method
              ++ (text " "
                  ++ (path
                      ++ (text " returned "
                          ++ (reader.status_text response.status
                              ++ (text ": " ++ detail_of raw (reader.error_json raw)))))))) in
    if response.status == 401 || response.status == 403 then auth message else api message

unfoldable pub owner_name : Text → Text
owner_name fqdn = to_ascii_lowercase (trim_end_matches b'.' fqdn) ++ (b'.' ∷ [])

abbrev is_rrset : Text → PdnsRrset → Bool
is_rrset name r =
    eq_ignore_ascii_case r.record_type (text "TXT") && eq_ignore_ascii_case r.name name

-- `into_iter().find(…)`.
unfoldable pub find_rrset : Text → List PdnsRrset → Option PdnsRrset
find_rrset name [] = none
find_rrset name (r ∷ rs) = let rest = find_rrset name rs in if is_rrset name r then some r else rest

-- The cache of zones, by name; `insert` puts the newest in front.
abbrev pub Cache : Type 0
Cache = List (Text × Text)

unfoldable pub cached_zone : Text → Cache → Option Text
cached_zone name [] = none
cached_zone name ((n, z) ∷ cache) =
    let rest = cached_zone name cache in if text_eq n name then some z else rest

abbrev pub write_of : Text → Change → PdnsRrsetWrite
write_of name change = record { name = name; record_type = text "TXT"; change = change }

abbrev pub shows_value : Text → PdnsRecord → Bool
shows_value value r = text_eq (unquote r.content) value

abbrev pub record_of : Text → PdnsRecord
record_of value = record { content = quoted value; disabled = false }

abbrev pub change_of : ℕ → List PdnsRecord → Change
change_of ttl [] = remove
change_of ttl (r ∷ rs) = replace ttl (r ∷ rs)

module _ {B : Type 0} (reader : PdnsReader B) where
  unfoldable pub zone_of : Text → Response B → Result (Option Text)
  zone_of path response =
      if response.status == 404
      then ok none
      else if not (is_success response.status)
      then err (check_error reader (text "GET") path response)
      else and_then (http_error (reader.zone_json response.body))
          λ name. ok (some (to_ascii_lowercase (trim_end_matches b'.' name)))

  unfoldable pub rrset_of : Text → Text → Response B → Result (Option PdnsRrset)
  unfolding find_rrset
  rrset_of path name response =
      if not (is_success response.status)
      then err (check_error reader (text "GET") path response)
      else and_then (http_error (reader.rrsets_json response.body))
          λ rrsets. ok (find_rrset name rrsets)

  unfoldable pub patched : Text → Response B → Result (Unit {0})
  patched path response =
      if not (is_success response.status)
      then err (check_error reader (text "PATCH") path response)
      else ok tt

module _ (config : PowerDnsConfig) (utf8_percent_encode : PercentEncode) where
  unfoldable pub zone_path : Text → Text
  zone_path zone =
      text "/servers/"
      ++ (encode_path utf8_percent_encode config.server_id
          ++ (text "/zones/" ++ (encode_path utf8_percent_encode zone ++ (b'.' ∷ []))))

  unfoldable pub url : Text → Text
  url path = config.api_base ++ path

  module _ {S B : Type 0} (pdns : Transport S PdnsPatch B) (reader : PdnsReader B) where
    unfoldable pub fetch_zone : Text → Exec S (Option Text)
    unfolding zone_of zone_path url
    fetch_zone candidate = do
      response ← send_retrying pdns (record {
        method = get;
        url = url (zone_path candidate);
        query = (text "rrsets", text "false") ∷ [];
        payload = none;
      })
      lift (zone_of reader (zone_path candidate) response)

    unfoldable pub remember : Text → Result Text → Exec (Cache × S) Text
    remember name (err x) w = (err x, w)
    remember name (ok zone) w = (ok zone, ((name, zone) ∷ w.0, w.1))

    -- What the walk does with the answer for a candidate, given the rest of the walk.
    unfoldable pub found_zone : Text → Option Text → Exec (Cache × S) Text → Exec (Cache × S) Text
    unfolding remember
    found_zone name none rest = rest
    found_zone name (some zone) rest =
        remember name
          (and_then (validate_zone zone) (λ u. and_then (relative_name name zone) (λ r. ok zone)))

    -- The loop, from these labels on: the last label alone is never asked for.
    unfoldable pub walk : Text → Text → List Text → Exec (Cache × S) Text
    unfolding fetch_zone found_zone
    walk fqdn name [] = fail (zone_not_found fqdn)
    walk fqdn name (label ∷ []) = fail (zone_not_found fqdn)
    walk fqdn name (label ∷ next ∷ labels) = do
      found ← on_api (fetch_zone (join b'.' (label ∷ next ∷ labels)))
      found_zone name found (walk fqdn name (next ∷ labels))

    unfoldable pub or_walk : Text → Text → Option Text → Exec (Cache × S) Text
    unfolding walk
    or_walk fqdn name (some zone) = pure zone
    or_walk fqdn name none = walk fqdn name (split b'.' name)

    unfoldable pub searched_zone : Text → Exec (Cache × S) Text
    unfolding or_walk
    searched_zone fqdn w =
        let name = to_ascii_lowercase (trim_end_matches b'.' fqdn) in
        or_walk fqdn name (cached_zone name w.0) w

    unfoldable pub resolve_zone : Text → Exec (Cache × S) Text
    unfolding searched_zone
    resolve_zone fqdn = elim config.zone_override [
      | some zone ↦ pure zone
      | none ↦ searched_zone fqdn
    ]

    unfoldable pub fetch_rrset : Text → Text → Exec S (Option PdnsRrset)
    unfolding rrset_of zone_path url
    fetch_rrset zone name = do
      response ← send_retrying pdns (record {
        method = get;
        url = url (zone_path zone);
        query = (text "rrset_name", name) ∷ (text "rrset_type", text "TXT") ∷ [];
        payload = none;
      })
      lift (rrset_of reader (zone_path zone) name response)

    unfoldable pub patch_rrset : Text → PdnsRrsetWrite → Exec S (Unit {0})
    unfolding patched zone_path url
    patch_rrset zone rrset = do
      response ←
          send_retrying pdns
            (with_json patch (url (zone_path zone)) (record { rrsets = rrset ∷ [] }))
      lift (patched reader (zone_path zone) response)

    -- The part of `present` under the lock, after the read.
    unfoldable pub add_to : Text → Text → Text → Option PdnsRrset → Exec S (Unit {0})
    unfolding patch_rrset
    add_to zone name value none =
        patch_rrset zone (write_of name (replace config.ttl (record_of value ∷ [])))
    add_to zone name value (some rrset) =
        if any (shows_value value) rrset.records
        then pure tt
        else patch_rrset zone
            (write_of name (replace rrset.ttl (rrset.records ++ (record_of value ∷ []))))

    unfoldable pub add_value : Text → Text → Text → Exec S (Unit {0})
    unfolding fetch_rrset add_to
    add_value zone name value = do existing ← fetch_rrset zone name; add_to zone name value existing

    -- The part of `cleanup` under the lock, after the read.
    unfoldable pub remove_from : Text → Text → Text → Option PdnsRrset → Exec S (Unit {0})
    unfolding patch_rrset
    remove_from zone name value none = pure tt
    remove_from zone name value (some rrset) =
        let remaining = keep (λ r. not (shows_value value r)) rrset.records in
        if length remaining == length rrset.records
        then pure tt
        else patch_rrset zone (write_of name (change_of rrset.ttl remaining))

    unfoldable pub remove_value : Text → Text → Text → Exec S (Unit {0})
    unfolding fetch_rrset remove_from
    remove_value zone name value = do
      existing ← fetch_rrset zone name
      remove_from zone name value existing

    unfoldable pub present : Text → Text → Exec (Cache × S) (Unit {0})
    unfolding resolve_zone add_value owner_name
    present fqdn value = do
      lift (validate_fqdn fqdn)
      lift (validate_acme_value value)
      zone ← resolve_zone fqdn
      rname ← lift (relative_name (to_ascii_lowercase fqdn) zone)
      on_api (add_value zone (owner_name fqdn) value)

    unfoldable pub cleanup : Text → Text → Exec (Cache × S) (Unit {0})
    unfolding resolve_zone remove_value owner_name
    cleanup fqdn value = do
      lift (validate_fqdn fqdn)
      zone ← resolve_zone fqdn
      rname ← lift (relative_name (to_ascii_lowercase fqdn) zone)
      on_api (remove_value zone (owner_name fqdn) value)
