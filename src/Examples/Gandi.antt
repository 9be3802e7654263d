-- ===== src/Examples/Gandi.antt =====
-- A server for the provider of src/providers/gandi.rs, and calls of it.
use cheti.Prelude.{
  ℕ, ◌≡◌, refl, ap, sym, subst, ◌∙◌, true, false, Bool-cases, inl, inr, Option, none, some, List,
  [], ◌∷◌, ◌++◌, if◌then◌else◌, any, ◌==◌,
}
use cheti.Text.{
  Text, text, text_eq, trim_start_by, trim_end_by, is_whitespace, strip_prefix, strip_suffix,
}
use cheti.Common.Names.{PercentEncode}
use cheti.Providers.Gandi.Added.{shows, AddedOk}
use cheti.Providers.Gandi.Removed.{RemovedOk}
use cheti.Providers.Gandi.Present.{Reached, present-Reached, cleanup-Reached}
use cheti.Providers.Contract.{Call, presents, cleans, run, Replayed}
use cheti.Providers.Gandi.Refined.{key, holds, present_at, cleanup_at, run-refines}
use cheti.Providers.Gandi.Restored.{Back, add-remove_value}
use cheti.Examples.Dns.{client}
use cheti.Text.Suffix.{text_eq_refl, text_eq_iff}
use cheti.Error.{Result, ok}
use cheti.Dns.Client.{answered}
use cheti.Common.Retry.{
  Method, get, post, put, patch, delete, Request, Response, Transport, send_retrying, send_loop,
  retry_or_return, wait_or_return, retry_delay, is_retryable,
}
use cheti.Providers.Http.{Reader, is_success}
use cheti.Providers.Gandi.{
  GandiConfig, TxtRecordBody, unquote, new, record_url, add_value, remove_value, write_remaining,
  fetch_existing, put_values, delete_record, existing, written, deleted, values_of, present,
  cleanup,
}
use cheti.Providers.Writes.{SameBut}
use cheti.Providers.Gandi.Server.{Stored, Server}
use cheti.Providers.Gandi.Calls.{values_at}

-- The store, by URL.
abbrev Store : Type 0
Store = Text → Option (List Text)

abbrev view : Stored Store
view s = s

abbrev set : Text → Option (List Text) → Store → Store
set url values s u = if text_eq u url then values else s u

abbrev reply : ℕ → List Text → Response TxtRecordBody
reply status values = record {
  status = status;
  retry_after = none;
  body = record { rrset_ttl = 300; rrset_values = values };
}

abbrev found : Option (List Text) → Response TxtRecordBody
found none = reply 404 []
found (some values) = reply 200 values

abbrev put_of : Text → Option TxtRecordBody → Store → Result (Response TxtRecordBody) × Store
put_of url none s = (ok (reply 400 []), s)
put_of url (some b) s = (ok (reply 201 []), set url (some b.rrset_values) s)

abbrev respond :
    Method → Text → Option TxtRecordBody → Store → Result (Response TxtRecordBody) × Store
respond get url payload s = (ok (found (s url)), s)
respond put url payload s = put_of url payload s
respond delete url payload s = (ok (reply 204 []), set url none s)
respond post url payload s = (ok (reply 405 []), s)
respond patch url payload s = (ok (reply 405 []), s)

abbrev api : Transport Store TxtRecordBody TxtRecordBody
api = record {
  try_clone = λ r. some r;
  is_idempotent = λ m. true;
  send = λ r s. respond r.method r.url r.payload s;
  sleep = λ d s. s;
}

abbrev reader : Reader TxtRecordBody TxtRecordBody
reader = record { body_text = λ b. answered []; json = λ b. answered b; status_text = λ n. [] }

set_here : (url : Text) (values : Option (List Text)) (s : Store) → set url values s url ≡ values
set_here url values s = rw (text_eq_refl url) refl

set_others :
    (url : Text) (values : Option (List Text)) (s : Store) → SameBut view url s (set url values s)
set_others url values s u n = elim (Bool-cases (text_eq u url)) [
  | inl e ↦ absurd (n ((text_eq_iff u url).0 e))
  | inr e ↦ rw e refl
]

found-some :
    (o : Option (List Text)) (a : Response TxtRecordBody) (b : TxtRecordBody)
    → ok (found o) ≡ ok a
    → is_success a.status ≡ true
    → reader.json a.body ≡ answered b
    → o ≡ some b.rrset_values
found-some none a b h y j =
    let same : found none ≡ a = cc in
    let test : false ≡ is_success a.status =
      ap (λ (x : Response TxtRecordBody). is_success x.status) same in
    cc
found-some (some vs) a b h y j =
    let same : reply 200 vs ≡ a = cc in
    let body : reader.json (reply 200 vs).body ≡ answered b =
      ap (λ (x : Response TxtRecordBody). reader.json x.body) same ∙ j in
    let read : (reply 200 vs).body ≡ b = cc in ap (λ (x : TxtRecordBody). some x.rrset_values) read

found-none :
    (o : Option (List Text)) (a : Response TxtRecordBody)
    → ok (found o) ≡ ok a
    → (a.status == 404) ≡ true
    → o ≡ none
found-none none a h n = refl
found-none (some vs) a h n =
    let same : reply 200 vs ≡ a = cc in
    let test : false ≡ (a.status == 404) =
      ap (λ (x : Response TxtRecordBody). x.status == 404) same in
    cc

sent_get :
    (r : Request TxtRecordBody) (s : Store)
    → r.method ≡ get
    → api.send r s ≡ (ok (found (s r.url)), s)
sent_get r s m = rw m refl

sent_put :
    (r : Request TxtRecordBody) (s : Store) (b : TxtRecordBody)
    → r.method ≡ put
    → r.payload ≡ some b
    → api.send r s ≡ (ok (reply 201 []), set r.url (some b.rrset_values) s)
sent_put r s b m p = rw (m, p) refl

sent_delete :
    (r : Request TxtRecordBody) (s : Store)
    → r.method ≡ delete
    → api.send r s ≡ (ok (reply 204 []), set r.url none s)
sent_delete r s m = rw m refl

put_of_others :
    (url : Text) (o : Option TxtRecordBody) (s : Store) → SameBut view url s (put_of url o s).1
put_of_others url none s u n = refl
put_of_others url (some b) s u n = set_others url (some b.rrset_values) s u n

server : Server api reader view
server = record {
  cloned = λ r n e. cc;
  slept = λ d s u. refl;
  get_same =
      λ r s m u. ap (λ (d : Result (Response TxtRecordBody) × Store). d.1 u) (sent_get r s m);
  get_found = λ r s m a b e y j.
      found-some (s r.url) a b
        (sym (ap (λ (d : Result (Response TxtRecordBody) × Store). d.0) (sent_get r s m)) ∙ e) y j;
  get_missing = λ r s m a e n.
      found-none (s r.url) a
        (sym (ap (λ (d : Result (Response TxtRecordBody) × Store). d.0) (sent_get r s m)) ∙ e) n;
  put_here = λ r s b m p. inr (
      ap (λ (d : Result (Response TxtRecordBody) × Store). d.1 r.url) (sent_put r s b m p)
      ∙ set_here r.url (some b.rrset_values) s);
  put_done = λ r s b m p a e y.
      ap (λ (d : Result (Response TxtRecordBody) × Store). d.1 r.url) (sent_put r s b m p)
      ∙ set_here r.url (some b.rrset_values) s;
  put_others = λ r s m.
      subst (λ (k : Method). SameBut view r.url s (respond k r.url r.payload s).1) (sym m)
        (put_of_others r.url r.payload s);
  delete_here = λ r s m. inr (
      ap (λ (d : Result (Response TxtRecordBody) × Store). d.1 r.url) (sent_delete r s m)
      ∙ set_here r.url none s);
  delete_done = λ r s m a e y.
      ap (λ (d : Result (Response TxtRecordBody) × Store). d.1 r.url) (sent_delete r s m)
      ∙ set_here r.url none s;
  delete_others = λ r s m u n.
      ap (λ (d : Result (Response TxtRecordBody) × Store). d.1 u) (sent_delete r s m)
      ∙ set_others r.url none s u n;
}

abbrev zone : Text
zone = b'a' ∷ b'.' ∷ b'b' ∷ []

abbrev label : Text
label = b'_' ∷ b'c' ∷ []

abbrev name : Text
name = label ++ (b'.' ∷ zone)

abbrev value : Text
value = b'v' ∷ []

abbrev encode : PercentEncode
encode set segment = segment

abbrev config : GandiConfig
config = record {
  personal_access_token = [];
  api_base = [];
  zone_override = some zone;
  ttl = 600;
  timeout = 30000;
}

-- Every name has another value.
abbrev start : Store
start u = some ((b'w' ∷ []) ∷ [])

present-Reached_example :
    let done : Result (Unit {0}) × (ℕ × Store) =
      present config encode api reader client name value (0, start) in
    Reached api reader view server config encode client
      (λ url. AddedOk api reader view server config encode url value start)
      name
      0
      start
      done.0
      done.1
present-Reached_example =
    present-Reached api reader view server config encode client name value 0 start

cleanup-Reached_example :
    let done : Result (Unit {0}) × (ℕ × Store) =
      cleanup config encode api reader client name value (0, start) in
    Reached api reader view server config encode client
      (λ url. RemovedOk api reader view server config encode url value start)
      name
      0
      start
      done.0
      done.1
cleanup-Reached_example =
    cleanup-Reached api reader view server config encode client name value 0 start

abbrev added : Store
added = (add_value config encode api reader zone label value start).1

abbrev removed : Store
removed = (remove_value config encode api reader zone label value added).1

add_succeeds : add_value config encode api reader zone label value start ≡ (ok tt, added)
unfolding add_value fetch_existing put_values existing written send_retrying send_loop
    retry_or_return wait_or_return retry_delay is_retryable values_of unquote trim_start_by
    trim_end_by is_whitespace strip_prefix
add_succeeds = refl

not_shown : any (shows value) (values_at (view start (record_url config encode zone label))) ≡ false
unfolding unquote trim_start_by trim_end_by is_whitespace strip_prefix
not_shown = refl

remove_succeeds : remove_value config encode api reader zone label value added ≡ (ok tt, removed)
unfolding add_value remove_value write_remaining delete_record deleted record_url fetch_existing
    put_values existing written send_retrying send_loop retry_or_return wait_or_return retry_delay
    is_retryable values_of unquote trim_start_by trim_end_by is_whitespace strip_prefix strip_suffix
    text
remove_succeeds = refl

add-remove_value_example :
    Back api reader view server config encode (record_url config encode zone label) start removed
add-remove_value_example =
    add-remove_value api reader view server config encode zone label value start added removed
      not_shown add_succeeds remove_succeeds

-- A value presented twice and one taken out.
abbrev calls : List (Call (Text × Text))
calls =
    presents (b'z' ∷ [], b'n' ∷ []) (b'v' ∷ [])
    ∷ presents (b'z' ∷ [], b'n' ∷ []) (b'w' ∷ [])
    ∷ presents (b'z' ∷ [], b'm' ∷ []) (b'v' ∷ [])
    ∷ cleans (b'z' ∷ [], b'n' ∷ []) (b'v' ∷ [])
    ∷ []

abbrev nothing_stored : Store
nothing_stored u = none

run-refines_example :
    let done =
      run text_eq
        (key api reader view server (new []) encode)
        (holds api reader view server (new []) encode)
        (present_at api reader view server (new []) encode)
        (cleanup_at api reader view server (new []) encode)
        calls
        nothing_stored in
    Replayed text_eq
      (key api reader view server (new []) encode)
      (holds api reader view server (new []) encode)
      (present_at api reader view server (new []) encode)
      (cleanup_at api reader view server (new []) encode)
      calls
      (holds api reader view server (new []) encode nothing_stored)
      done.0
      done.1
run-refines_example = run-refines api reader view server (new []) encode calls nothing_stored
