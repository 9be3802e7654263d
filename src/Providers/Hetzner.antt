-- ===== src/Providers/Hetzner.antt =====
-- src/providers/hetzner.rs: changes are actions of the server, which are polled until they settle.
pub mod Config
pub mod Settles
use cheti.Prelude.{
  ℕ, zero, suc, ◌+◌, ◌-◌, ◌/◌, ◌^◌, Bool, true, false, not, Option, none, some, List, [], ◌∷◌, ◌++◌,
  ◌==◌, ltb, any, map, if◌then◌else◌,
}
use cheti.Text.{
  Text, text, text_eq, trim, trim_end_matches, strip_prefix, strip_suffix, to_ascii_lowercase,
  decimal, split, join,
}
use cheti.Text.Trim.{quoted}
use cheti.Error.{
  DnsError, Result, ok, err, api, zone_not_found, missing_credentials, ok_or, ◌>>=◌ as and_then,
}
use cheti.Exec.{Exec, ◌>>=◌, ◌>>◌, lift, pure, fail}
use cheti.Dns.Client.{Reply}
use cheti.Common.Validate.{validate_fqdn, validate_zone, validate_acme_value, validate_ttl_range}
use cheti.Common.Names.{Url, validate_https_base, relative_name, PercentEncode, encode_path}
use cheti.Common.Retry.{Response, Transport, get, post, send_retrying}
use cheti.Providers.Http.{Reader, is_success, plain, with_json, api_error, http_error}
use cheti.Providers.Hetzner.Config.{
  provider, action_poll_interval, action_timeout, rounds, HetznerConfig, new, with_api_base,
  with_zone, with_ttl, with_timeout, build, from_env,
}

-- `HetznerRecord` is its value, and `HetznerZone` its name.
pub record HetznerRecordsWrite : Type 0 where
  pub ttl : Option ℕ
  pub records : List Text

pub record HetznerActionError : Type 0 where
  pub code : Text
  pub message : Text

pub record HetznerAction : Type 0 where
  pub id : ℕ
  pub command : Text
  pub status : Text
  pub error : Option HetznerActionError

-- The body of a response as text and as the JSON that is asked for, and its header
-- `ratelimit-reset`, if that is a text.
pub record HetznerReader (B : Type 0) : Type 0 where
  pub text_of : Reader B HetznerAction
  pub zones_json : B → Reply (List Text)
  pub rrset_json : B → Reply (List Text)
  pub ratelimit_reset : B → Option Text

unfoldable pub unquote : Text → Text
unquote value =
    let trimmed = trim value in
    elim (strip_prefix (b'"' ∷ []) trimmed) [
      | none ↦ trimmed
      | some s ↦ elim (strip_suffix (b'"' ∷ []) s) [ none ↦ trimmed | some t ↦ t ]
    ]

abbrev hint : Option Text → Text
hint none = text "retry later"
hint (some ts) = text "limit resets at unix time " ++ ts

-- What a failed action tells.
abbrev detail : Option HetznerActionError → Text
detail none = text "unknown error"
detail (some e) = e.code ++ (text ": " ++ e.message)

abbrev action_text : HetznerAction → Text
action_text action =
    provider
    ++ (text " action " ++ (decimal action.id ++ (text " (" ++ (action.command ++ text ")"))))

-- `match action.status.as_str()`: what the loop returns, or `none` where it goes on.
unfoldable pub settled : HetznerAction → Option (Result (Unit {0}))
settled action =
    if text_eq action.status (text "success")
    then some (ok tt)
    else if text_eq action.status (text "error")
    then some (err (api (action_text action ++ (text " failed: " ++ detail action.error))))
    else none

abbrev pub still_running : HetznerAction → DnsError
still_running action = api (
    action_text action
    ++ (text " still "
        ++ (action.status ++ (text " after " ++ (decimal (action_timeout / 1000) ++ text "s")))))

-- The candidates for the zone, the shortest first: two labels, three, and so on.
unfoldable pub candidates : List Text → List Text
candidates [] = []
candidates (label ∷ []) = []
candidates (label ∷ next ∷ labels) =
    candidates (next ∷ labels) ++ (join b'.' (label ∷ next ∷ labels) ∷ [])

module _ (config : HetznerConfig) (utf8_percent_encode : PercentEncode) where
  unfoldable pub rrset_path : Text → Text → Text
  rrset_path zone rname =
      text "/zones/"
      ++ (encode_path utf8_percent_encode zone
          ++ (text "/rrsets/" ++ (encode_path utf8_percent_encode rname ++ text "/TXT")))

  unfoldable pub rrset_url : Text → Text → Text
  unfolding rrset_path
  rrset_url zone rname = config.api_base ++ rrset_path zone rname

  module _ {B : Type 0} (reader : HetznerReader B) where
    unfoldable pub check_error : Text → Text → Response B → DnsError
    check_error method path response =
        if response.status == 429
        then api (
            provider
            ++ (text " "
                ++ (method
                    ++ (text " "
                        ++ (path
                            ++ (text " was rate limited (429), "
                                ++ hint (reader.ratelimit_reset response.body)))))))
        else api_error reader.text_of provider method path response

    unfoldable pub exists_in : Text → Response B → Result Bool
    unfolding check_error
    exists_in name response =
        if not (is_success response.status)
        then err (check_error (text "GET") (text "/zones") response)
        else and_then (http_error (reader.zones_json response.body))
            λ zones. ok (any (λ z. text_eq z name) zones)

    unfoldable pub existing : Text → Text → Response B → Result (Option (List Text))
    unfolding check_error rrset_path unquote
    existing zone rname response =
        if response.status == 404
        then ok none
        else if not (is_success response.status)
        then err (check_error (text "GET") (rrset_path zone rname) response)
        else and_then (http_error (reader.rrset_json response.body))
            λ records. ok (some (map unquote records))

    unfoldable pub action_of : Text → Text → Response B → Result HetznerAction
    unfolding check_error
    action_of method path response =
        if not (is_success response.status)
        then err (check_error method path response)
        else http_error (reader.text_of.json response.body)

  -- `now` reads the clock, in milliseconds.
  module _ {S B : Type 0} (transport : Transport S HetznerRecordsWrite B) (now : S → ℕ)
      (reader : HetznerReader B) where
    unfoldable pub zone_exists : Text → Exec S Bool
    unfolding exists_in
    zone_exists name = do
      response ← send_retrying transport (record {
        method = get;
        url = config.api_base ++ text "/zones";
        query = (text "name", name) ∷ [];
        payload = none;
      })
      lift (exists_in reader name response)

    unfoldable pub first_zone : Text → List Text → Exec S Text
    unfolding zone_exists
    first_zone fqdn [] = fail (zone_not_found fqdn)
    first_zone fqdn (candidate ∷ rest) = do
      found ← zone_exists candidate
      if found then pure candidate else first_zone fqdn rest

    unfoldable pub resolve_zone : Text → Exec S Text
    unfolding first_zone candidates
    resolve_zone fqdn = elim config.zone_override [
      | some zone ↦ pure zone
      | none ↦
          first_zone fqdn
            (candidates (split b'.' (to_ascii_lowercase (trim_end_matches b'.' fqdn))))
    ]

    unfoldable pub fetch_existing : Text → Text → Exec S (Option (List Text))
    unfolding existing rrset_url
    fetch_existing zone rname = do
      response ← send_retrying transport (plain get (rrset_url zone rname))
      lift (existing reader zone rname response)

    abbrev action_path : ℕ → Text
    action_path id = text "/zones/actions/" ++ decimal id

    unfoldable pub fetch_action : ℕ → Exec S HetznerAction
    unfolding action_of
    fetch_action id = do
      response ← send_retrying transport (plain get (config.api_base ++ action_path id))
      lift (action_of reader (text "GET") (action_path id) response)

    abbrev pub after_fetch :
        (HetznerAction → S → Option (Result (Unit {0}) × S))
        → Result HetznerAction
        → S
        → Option (Result (Unit {0}) × S)
    after_fetch next (err x) s = some (err x, s)
    after_fetch next (ok action) s = next action s

    -- The rest of the loop's body, after the check of the deadline.
    unfoldable pub before_deadline :
        Bool
        → (HetznerAction → S → Option (Result (Unit {0}) × S))
        → HetznerAction
        → S
        → Option (Result (Unit {0}) × S)
    unfolding fetch_action
    before_deadline true next action s = some (err (still_running action), s)
    before_deadline false next action s =
        let fetched = fetch_action action.id (transport.sleep action_poll_interval s) in
        after_fetch next fetched.0 fetched.1

    -- The loop's body, from what the action's status tells.
    unfoldable pub poll_again :
        Option (Result (Unit {0}))
        → (HetznerAction → S → Option (Result (Unit {0}) × S))
        → ℕ
        → HetznerAction
        → S
        → Option (Result (Unit {0}) × S)
    unfolding before_deadline
    poll_again (some r) next deadline action s = some (r, s)
    poll_again none next deadline action s =
        before_deadline (ltb deadline (now s + action_poll_interval)) next action s

    -- The loop, on fuel: `none` where it runs out.
    unfoldable pub wait_loop : ℕ → ℕ → HetznerAction → S → Option (Result (Unit {0}) × S)
    unfolding poll_again settled
    wait_loop zero deadline action s = none
    wait_loop (suc fuel) deadline action s =
        poll_again (settled action) (wait_loop fuel deadline) deadline action s

    unfoldable pub wait_for_action : HetznerAction → S → Option (Result (Unit {0}) × S)
    unfolding wait_loop
    wait_for_action action s = wait_loop rounds (now s + action_timeout) action s

    unfoldable pub run_records_action :
        Text → Text → Text → Text → Option ℕ → S → Option (Result (Unit {0}) × S)
    unfolding wait_for_action action_of rrset_path
    run_records_action zone rname action value ttl s =
        let path = rrset_path zone rname ++ (text "/actions/" ++ action) in
        let body : HetznerRecordsWrite = record { ttl = ttl; records = quoted value ∷ [] } in
        let started =
          (send_retrying transport (with_json post (config.api_base ++ path) body) >>= λ response.
          lift (action_of reader (text "POST") path response))
            s in
        after_fetch wait_for_action started.0 started.1

    -- The part of `present` and of `cleanup` that runs under the lock of the name, after the read.
    unfoldable pub add_to :
        Text → Text → Text → Option (List Text) → S → Option (Result (Unit {0}) × S)
    unfolding run_records_action
    add_to zone rname value none s =
        run_records_action zone rname (text "add_records") value (some config.ttl) s
    add_to zone rname value (some values) s =
        if any (λ v. text_eq v value) values
        then some (ok tt, s)
        else run_records_action zone rname (text "add_records") value none s

    unfoldable pub remove_from :
        Text → Text → Text → Option (List Text) → S → Option (Result (Unit {0}) × S)
    unfolding run_records_action
    remove_from zone rname value none s = some (ok tt, s)
    remove_from zone rname value (some values) s =
        if not (any (λ v. text_eq v value) values)
        then some (ok tt, s)
        else run_records_action zone rname (text "remove_records") value none s

    abbrev then_run :
        {A : Type 0}
        → Result A × S
        → (A → S → Option (Result (Unit {0}) × S))
        → Option (Result (Unit {0}) × S)
    then_run (err x, s) next = some (err x, s)
    then_run (ok a, s) next = next a s

    -- The zone, the relative name and the values of a name.
    unfoldable pub located : Text → Exec S (Text × Text × Option (List Text))
    unfolding resolve_zone fetch_existing
    located fqdn = do
      zone ← resolve_zone fqdn
      rname ← lift (relative_name (to_ascii_lowercase fqdn) zone)
      values ← fetch_existing zone rname
      pure (zone, rname, values)

    unfoldable pub present : Text → Text → S → Option (Result (Unit {0}) × S)
    unfolding located add_to
    present fqdn value s =
        then_run ((do lift (validate_fqdn fqdn); lift (validate_acme_value value); located fqdn) s)
          λ at. add_to at.0 at.1 value at.2

    unfoldable pub cleanup : Text → Text → S → Option (Result (Unit {0}) × S)
    unfolding located remove_from
    cleanup fqdn value s =
        then_run ((do lift (validate_fqdn fqdn); located fqdn) s)
          λ at. remove_from at.0 at.1 value at.2
