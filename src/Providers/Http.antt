-- ===== src/Providers/Http.antt =====
-- What the providers of src/providers share: requests, statuses, errors of an API, and the calls
-- that touch only the DNS or only the API. (The header with the token is the same on each request
-- of a provider; it is left out.)
use cheti.Prelude.{ℕ, Bool, ◌&&◌, Option, none, some, [], ◌++◌, leb}
use cheti.Text.{Text, text}
use cheti.Error.{DnsError, Result, ok, err, api, http}
use cheti.Exec.{Exec}
use cheti.Dns.Client.{Reply, answered, failed}
use cheti.Common.Body.{truncate_error_body}
use cheti.Common.Retry.{Request, Method, Response}

-- `StatusCode::is_success`.
abbrev pub is_success : ℕ → Bool
is_success status = leb 200 status && leb status 299

abbrev pub plain : {P : Type 0} → Method → Text → Request P
plain method url = record { method = method; url = url; query = []; payload = none }

abbrev pub with_json : {P : Type 0} → Method → Text → P → Request P
with_json method url body = record { method = method; url = url; query = []; payload = some body }

-- What reqwest and http do with a response: its body as text and as JSON, and the status as printed.
pub record Reader (B T : Type 0) : Type 0 where
  pub body_text : B → Reply Text
  pub json : B → Reply T
  pub status_text : ℕ → Text

abbrev text_or_default : Reply Text → Text
text_or_default (answered s) = s
text_or_default (failed e) = []

-- The text is cut at the boundary of a character, so that it never panics (it is never `none`).
abbrev kept_text : Option Text → Text
kept_text none = []
kept_text (some s) = s

unfoldable pub api_error : {B T : Type 0} → Reader B T → Text → Text → Text → Response B → DnsError
api_error reader provider method path response = api (
    provider
    ++ (text " "
        ++ (method
            ++ (text " "
                ++ (path
                    ++ (text " returned "
                        ++ (reader.status_text response.status
                            ++ (text ": "
                                ++ kept_text (
                                    truncate_error_body
                                      (text_or_default (reader.body_text response.body)))))))))))

-- The error of reqwest, by `?`.
abbrev pub http_error : {A : Type 0} → Reply A → Result A
http_error (answered a) = ok a
http_error (failed e) = err (http e)

module _ {E S A : Type 0} where
  abbrev pub on_dns : Exec E A → Exec (E × S) A
  on_dns m w = let done = m w.0 in (done.0, (done.1, w.1))

  abbrev pub on_api : Exec S A → Exec (E × S) A
  on_api m w = let done = m w.1 in (done.0, (w.0, done.1))
