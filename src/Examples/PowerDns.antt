-- ===== src/Examples/PowerDns.antt =====
-- A server for the provider of src/providers/powerdns.rs, and calls of it.
use mathlib.Core.Option
use cheti.Prelude.{ℕ, ◌≡◌, ◌∙◌, refl, ap, sym, false, inr, Option, none, some, List, [], ◌∷◌}
use cheti.Text.{Text, text}
use cheti.Text.Suffix.{text_eq_refl}
use cheti.Error.{Result, ok}
use cheti.Dns.Client.{answered, failed}
use cheti.Common.Names.{PercentEncode}
use cheti.Common.Retry.{Method, get, post, put, patch, delete, Request, Response, Transport}
use cheti.Providers.Writes.{Wrote, Steady}
use cheti.Providers.PowerDns.{
  PdnsRrset, PdnsRrsetWrite, PdnsPatch, PdnsReader, find_rrset, url, record_of,
}
use cheti.Providers.PowerDns.Config.{PowerDnsConfig}
use cheti.Providers.PowerDns.Server.{Rrset, rrset_data, Stored, result_of, Server}
use cheti.Providers.Sets.Refined.{pair_key}
use cheti.Examples.Stores.{store_at, store_at-here, store_at-other}
use cheti.Providers.Contract.{Call, presents, cleans, run, Replayed}
use cheti.Providers.PowerDns.Refined.{key, served_at, present_at, cleanup_at, run-Replays}

abbrev Store : Type 0
Store = Text × Text → Option Rrset

abbrev view : Stored Store
view s = s

abbrev reply : ℕ → List PdnsRrset → Response (List PdnsRrset)
reply status rrsets = record { status = status; retry_after = none; body = rrsets }

abbrev listed : Text → Option Rrset → List PdnsRrset
listed name none = []
listed name (some (ttl, records)) =
    record { name = name; record_type = text "TXT"; ttl = ttl; records = records } ∷ []

abbrev read : Text → List (Text × Text) → Store → Result (Response (List PdnsRrset)) × Store
read url [] s = (ok (reply 400 []), s)
read url (q ∷ qs) s = (ok (reply 200 (listed q.1 (s (url, q.1)))), s)

abbrev apply_all : Text → List PdnsRrsetWrite → Store → Store
apply_all url [] s = s
apply_all url (w ∷ ws) s = apply_all url ws (store_at pair_key (url, w.name) (result_of w.change) s)

abbrev change_all : Text → Option PdnsPatch → Store → Result (Response (List PdnsRrset)) × Store
change_all url none s = (ok (reply 400 []), s)
change_all url (some p) s = (ok (reply 204 []), apply_all url p.rrsets s)

abbrev respond : Request PdnsPatch → Method → Store → Result (Response (List PdnsRrset)) × Store
respond r get s = read r.url r.query s
respond r patch s = change_all r.url r.payload s
respond r post s = (ok (reply 405 []), s)
respond r put s = (ok (reply 405 []), s)
respond r delete s = (ok (reply 405 []), s)

abbrev pdns : Transport Store PdnsPatch (List PdnsRrset)
pdns = record {
  try_clone = λ r. some r;
  is_idempotent = λ m. false;
  send = λ r s. respond r r.method s;
  sleep = λ d s. s;
}

abbrev reader : PdnsReader (List PdnsRrset)
reader = record {
  body_text = λ b. answered [];
  zone_json = λ b. failed [];
  rrsets_json = λ b. answered b;
  error_json = λ s. none;
  status_text = λ n. [];
}

stored-Wrote :
    (key : Text × Text) (value : Option Rrset) (s : Store)
    → Wrote view key value s (store_at pair_key key value s)
stored-Wrote key value s = record {
  others = λ k n. store_at-other pair_key key value s k n;
  here = inr (store_at-here pair_key key value s);
}

find-listed :
    (name : Text) (o : Option Rrset) → Option.map rrset_data (find_rrset name (listed name o)) ≡ o
unfolding find_rrset
find-listed name none = refl
find-listed name (some (ttl, records)) = rw (text_eq_refl _, text_eq_refl _) refl

listed_found :
    (name : Text) (o : Option Rrset) (a : Response (List PdnsRrset)) (rrsets : List PdnsRrset)
    → ok (reply 200 (listed name o)) ≡ ok a
    → reader.rrsets_json a.body ≡ answered rrsets
    → Option.map rrset_data (find_rrset name rrsets) ≡ o
listed_found name o a rrsets e j =
    let same : reply 200 (listed name o) ≡ a = cc in
    let body : reader.rrsets_json (listed name o) ≡ answered rrsets =
      ap (λ (x : Response (List PdnsRrset)). reader.rrsets_json x.body) same ∙ j in
    let all : listed name o ≡ rrsets = cc in
    ap (λ rs. Option.map rrset_data (find_rrset name rs)) (sym all) ∙ find-listed name o

steady : Steady view pdns
steady = record { cloned = λ r n e. cc; slept = λ d s k. refl }

server : Server pdns reader view
server = record {
  steady = steady;
  get_same = λ url name s k. refl;
  get_found = λ url name s a rrsets e y j. listed_found name (s (url, name)) a rrsets e j;
  patch_wrote = λ url name change s. stored-Wrote (url, name) (result_of change) s;
  patch_done = λ url name change s a e y. store_at-here pair_key (url, name) (result_of change) s;
}

abbrev encode : PercentEncode
encode chars segment = segment

abbrev config : PowerDnsConfig
config = record {
  api_key = [];
  api_base = [];
  server_id = [];
  zone_override = none;
  ttl = 60;
  timeout = 30000;
}

abbrev zone : Text
zone = b'a' ∷ []

abbrev name : Text
name = b'c' ∷ b'.' ∷ b'a' ∷ b'.' ∷ []

abbrev value : Text
value = b'v' ∷ []

-- Every name has this value and another one.
abbrev start : Store
start k = some (300, record_of (b'w' ∷ []) ∷ record_of value ∷ [])

-- A value presented that is there, another one added, and one taken out.
abbrev calls : List (Call (Text × Text))
calls =
    presents (zone, name) value
    ∷ presents (zone, name) (b'x' ∷ [])
    ∷ cleans (zone, name) (b'w' ∷ [])
    ∷ []

run-Replays_example :
    let done =
      run pair_key.key_eq
        (key pdns reader view server config encode)
        (served_at pdns reader view server config encode)
        (present_at pdns reader view server config encode)
        (cleanup_at pdns reader view server config encode)
        calls
        start in
    Replayed pair_key.key_eq
      (key pdns reader view server config encode)
      (served_at pdns reader view server config encode)
      (present_at pdns reader view server config encode)
      (cleanup_at pdns reader view server config encode)
      calls
      (served_at pdns reader view server config encode start)
      done.0
      done.1
run-Replays_example = run-Replays pdns reader view server config encode calls start (λ k. refl)
