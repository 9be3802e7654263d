-- ===== src/Examples/Common.antt =====
-- Runs of the checks and of the retries of src/providers/common.rs.
use cheti.Prelude.{
  arith, ℕ, suc, ◌≡◌, ◌≢◌, ◌↔◌, ◌⊎◌, ◌≤◌, refl, ltb, true, false, none, some, List, [], ◌∷◌, ◌++◌,
  if◌then◌else◌,
}
use cheti.Text.{Text, text, split, trim_end_by, trim_end_matches}
use cheti.Text.Utf8.{byte_length, len_utf8}
use cheti.Error.{ok}
use cheti.Common.Validate.{validate_fqdn, validate_labels, validate_zone}
use cheti.Common.Validate.Hostname.{IsHostname, validate_fqdn_iff}
use cheti.Common.Validate.Values.{validate_zone_iff}
use cheti.Common.Names.{Url, relative_name, relative_name_iff}
use cheti.Common.Retry.{
  Request, Response, Transport, get, post, put, patch, delete, send_loop, retry_or_return,
  wait_or_return, retry_backoff, send_retrying, retry_delay, is_retryable, retry_wait, parsed_delay,
}
use cheti.Common.Retry.Rule.{send_retrying_once}
use cheti.Common.Retry.Bounds.{
  Event, sent, slept, recorded, sends, waited, IsNewest, send_retrying_bounds,
}

abbrev zone : Text
zone = b'a' ∷ b'.' ∷ b'B' ∷ b'.' ∷ []

abbrev fqdn : Text
fqdn = b'_' ∷ b'c' ∷ b'.' ∷ b'a' ∷ b'.' ∷ b'B' ∷ []

abbrev relative : Text
relative = b'_' ∷ b'c' ∷ []

fqdn_accepted : validate_fqdn fqdn ≡ ok tt
unfolding validate_fqdn validate_labels trim_end_by split byte_length len_utf8
fqdn_accepted = refl

validate_fqdn_iff_example : (validate_fqdn fqdn ≡ ok tt) ↔ IsHostname (trim_end_matches b'.' fqdn)
validate_fqdn_iff_example = validate_fqdn_iff fqdn

validate_zone_iff_example :
    (validate_zone zone ≡ ok tt) ↔ ((h : IsHostname (trim_end_matches b'.' zone)) × (h.others ≢ []))
validate_zone_iff_example = validate_zone_iff zone

relative_name_iff_example : (relative_name fqdn zone ≡ ok relative) ↔ (
    (trim_end_matches b'.' fqdn ≡ trim_end_matches b'.' zone) × (relative ≡ text "@")
    ⊎ (trim_end_matches b'.' fqdn ≡ relative ++ (b'.' ∷ trim_end_matches b'.' zone)))
relative_name_iff_example = relative_name_iff fqdn zone relative

-- Any base stands for a local URL without TLS.
abbrev local_url : Url
local_url = record { scheme = text "http"; host_str = some (text "localhost") }

-- A server that answers 503 until it has been asked twice; the world counts the requests.
abbrev answer : ℕ → Response ℕ
answer n = record { status = if ltb n 2 then 503 else 200; retry_after = none; body = n }

abbrev flaky : Transport ℕ ℕ ℕ
flaky = record {
  try_clone = λ r. some r;
  is_idempotent =
      λ m. elim m [ get ↦ true | post ↦ false | put ↦ true | patch ↦ false | delete ↦ true ];
  send = λ r w. (ok (answer w), suc w);
  sleep = λ d w. w;
}

abbrev get_request : Request ℕ
get_request = record { method = get; url = []; query = []; payload = none }

abbrev post_request : Request ℕ
post_request = record { method = post; url = []; query = []; payload = some 1 }

abbrev log_get : List (Event ℕ ℕ)
log_get =
    sent get_request (ok (answer 2))
    ∷ slept 2000
    ∷ sent get_request (ok (answer 1))
    ∷ slept 1000
    ∷ sent get_request (ok (answer 0))
    ∷ []

run_get : send_retrying (recorded flaky) get_request (0, []) ≡ (ok (answer 2), (3, log_get))
unfolding send_retrying send_loop retry_or_return wait_or_return retry_delay is_retryable
    parsed_delay retry_wait retry_backoff
run_get = refl

send_retrying_bounds_example :
    (sends (send_retrying (recorded flaky) get_request (0, [])).1.1 ≤ 3)
    × (1 ≤ sends (send_retrying (recorded flaky) get_request (0, [])).1.1)
    × (waited (send_retrying (recorded flaky) get_request (0, [])).1.1 ≤ 20000)
    × IsNewest
        (send_retrying (recorded flaky) get_request (0, [])).0
        (send_retrying (recorded flaky) get_request (0, [])).1.1
send_retrying_bounds_example = send_retrying_bounds flaky get_request 0

-- A POST that gets a 503 is not sent again.
send_retrying_once_example : send_retrying flaky post_request 0 ≡ (ok (answer 0), 1)
send_retrying_once_example =
    send_retrying_once flaky post_request (answer 0) 0 1 refl (omega arith) (λ e. refl)
