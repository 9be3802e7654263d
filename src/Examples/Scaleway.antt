-- ===== src/Examples/Scaleway.antt =====
-- A server for the provider of src/providers/scaleway.rs, and calls of it.
use cheti.Prelude.{
  ℕ, zero, suc, ◌≡◌, ◌∙◌, ◌≤◌, refl, sym, ap, inl, inr, true, false, Bool-cases, Option, none, some,
  List, [], ◌∷◌, ◌==◌, arith, leb, leb→le, length, map, take, take_all, if◌then◌else◌,
}
use cheti.Text.{Text, text}
use cheti.Error.{Result, ok}
use cheti.Dns.Client.{answered}
use cheti.Common.Names.{PercentEncode}
use cheti.Common.Retry.{
  Method, get, post, put, patch, delete as delete_method, Request, Response, Transport,
}
use cheti.Providers.Http.{Reader, is_success}
use cheti.Providers.Writes.{Wrote, Writes, Steady}
use cheti.Providers.Contract.{Call, presents, cleans, run, Replayed}
use cheti.Providers.Sets.Refined.{pair_key}
use cheti.Providers.Scaleway.{
  RecordSpec, Change, set, delete, ChangeRequest, Record, RecordsResponse, txt_data, specs,
}
use cheti.Providers.Scaleway.Config.{new}
use cheti.Providers.Scaleway.Server.{Stored, Server, set_records, delete_records, is_deleted}
use cheti.Providers.Scaleway.Refined.{key, shown_at, present_at, cleanup_at, calls-refine}
use cheti.Examples.Stores.{store_at, store_at-here, store_at-other}

abbrev Store : Type 0
Store = Text × Text → List Text

-- A name has the first 100 of its values.
abbrev view : Stored Store
view s k = take 100 (s k)

abbrev reply : ℕ → List Text → Response (List Text)
reply status values = record { status = status; retry_after = none; body = values }

abbrev read : Text → List (Text × Text) → Store → Result (Response (List Text)) × Store
read url [] s = (ok (reply 400 []), s)
read url (q ∷ qs) s = (ok (reply 200 (view s (url, q.1))), s)

abbrev data_of : List RecordSpec → List Text
data_of records = map (λ r. r.rdata) records

-- A set of more than 100 values is refused.
abbrev set_at : Text × Text → List Text → Store → Result (Response (List Text)) × Store
set_at k values s =
    if leb (length values) 100
    then (ok (reply 200 []), store_at pair_key k values s)
    else (ok (reply 400 []), s)

abbrev change_one : Text → Change → Store → Result (Response (List Text)) × Store
change_one url (set c) s = set_at (url, c.id_fields.name) (data_of c.records) s
change_one url (delete i) s = (ok (reply 200 []), store_at pair_key (url, i.name) [] s)

abbrev change_first : Text → List Change → Store → Result (Response (List Text)) × Store
change_first url [] s = (ok (reply 400 []), s)
change_first url (c ∷ cs) s = change_one url c s

abbrev change_all : Text → Option ChangeRequest → Store → Result (Response (List Text)) × Store
change_all url none s = (ok (reply 400 []), s)
change_all url (some p) s = change_first url p.changes s

abbrev respond : Request ChangeRequest → Method → Store → Result (Response (List Text)) × Store
respond r get s = read r.url r.query s
respond r patch s = change_all r.url r.payload s
respond r post s = (ok (reply 405 []), s)
respond r put s = (ok (reply 405 []), s)
respond r delete_method s = (ok (reply 405 []), s)

abbrev scw : Transport Store ChangeRequest (List Text)
scw = record {
  try_clone = λ r. some r;
  is_idempotent = λ m. false;
  send = λ r s. respond r r.method s;
  sleep = λ d s. s;
}

abbrev records_of : List Text → List Record
records_of values = map (λ v. record { record_type = text "TXT"; rdata = v }) values

abbrev reader : Reader (List Text) RecordsResponse
reader = record {
  body_text = λ b. answered [];
  json = λ b. answered (record { records = records_of b });
  status_text = λ n. [];
}

txt_data-records_of : (values : List Text) → txt_data (records_of values) ≡ values
unfolding txt_data text
txt_data-records_of [] = refl
txt_data-records_of (v ∷ vs) = ap (λ (l : List Text). v ∷ l) (txt_data-records_of vs)

data_of-specs :
    (rname : Text) (ttl : ℕ) (values : List Text) → data_of (specs rname ttl values) ≡ values
data_of-specs rname ttl [] = refl
data_of-specs rname ttl (v ∷ vs) = ap (λ (l : List Text). v ∷ l) (data_of-specs rname ttl vs)

length-take : (n : ℕ) (xs : List Text) → length (take n xs) ≤ n
length-take zero xs = omega arith
length-take (suc n) [] = omega arith
length-take (suc n) (x ∷ xs) = let rest : length (take n xs) ≤ n = length-take n xs in omega arith

found :
    (values : List Text) (a : Response (List Text)) (b : RecordsResponse)
    → ok (reply 200 values) ≡ ok a
    → reader.json a.body ≡ answered b
    → txt_data b.records ≡ values
found values a b e j =
    let same : reply 200 values ≡ a = cc in
    let body : reader.json values ≡ answered b =
      ap (λ (x : Response (List Text)). reader.json x.body) same ∙ j in
    let whole : record { records = records_of values } ≡ b = cc in
    ap (λ (r : RecordsResponse). txt_data r.records) (sym whole) ∙ txt_data-records_of values

never_missing :
    (values : List Text) (a : Response (List Text)) (b : List Text)
    → ok (reply 200 values) ≡ ok a
    → (a.status == 404) ≡ true
    → values ≡ b
never_missing values a b e n =
    let same : reply 200 values ≡ a = cc in
    let status : (200 == 404) ≡ true =
      ap (λ (x : Response (List Text)). x.status == 404) same ∙ n in
    cc

stored-Wrote :
    (k : Text × Text) (values : List Text) (s : Store)
    → length values ≤ 100
    → Wrote view k values s (store_at pair_key k values s)
stored-Wrote k values s h = record {
  others = λ i n. ap (take 100) (store_at-other pair_key k values s i n);
  here = inr (ap (take 100) (store_at-here pair_key k values s) ∙ take_all 100 values h);
}

set_at-Wrote :
    (k : Text × Text) (values : List Text) (s : Store) → Wrote view k values s (set_at k values s).1
set_at-Wrote k values s = elim (Bool-cases (leb (length values) 100)) [
  | inl y ↦ rw y (stored-Wrote k values s (leb→le (length values) 100 y))
  | inr n ↦ rw n (record { others = λ i d. refl; here = inl refl })
]

refused : (a : Response (List Text)) → ok (reply 400 []) ≡ ok a → is_success a.status ≡ true → ⊥
refused a e y =
    let same : reply 400 [] ≡ a = cc in
    let status : is_success 400 ≡ true =
      ap (λ (x : Response (List Text)). is_success x.status) same ∙ y in
    cc

set_at_done :
    (k : Text × Text) (values : List Text) (s : Store) (a : Response (List Text))
    → (set_at k values s).0 ≡ ok a
    → is_success a.status ≡ true
    → view (set_at k values s).1 k ≡ values
set_at_done k values s a e y = elim (Bool-cases (leb (length values) 100)) [
  | inl l ↦ rw l (
      ap (take 100) (store_at-here pair_key k values s)
      ∙ take_all 100 values (leb→le (length values) 100 l))
  | inr n ↦ absurd (refused a (rw n at e) y)
]

sets :
    (url rname : Text) (ttl : ℕ) (values : List Text)
    → Writes view scw (set_records url rname ttl values) (url, rname) values is_success
sets url rname ttl values = record {
  wrote = λ s. rw (data_of-specs rname ttl values) (set_at-Wrote (url, rname) values s);
  all_done =
      λ s a. rw (data_of-specs rname ttl values) (λ e y. set_at_done (url, rname) values s a e y);
}

deletes : (url rname : Text) → Writes view scw (delete_records url rname) (url, rname) [] is_deleted
deletes url rname = record {
  wrote = λ s. stored-Wrote (url, rname) [] s (omega arith);
  all_done = λ s a e y. ap (take 100) (store_at-here pair_key (url, rname) [] s);
}

steady : Steady view scw
steady = record { cloned = λ r n e. cc; slept = λ d s k. refl }

server : Server scw reader view
server = record {
  steady = steady;
  one_page = λ s k. length-take 100 (s k);
  get_same = λ url rname s k. refl;
  get_found = λ url rname s a b e y j h. found (view s (url, rname)) a b e j;
  get_missing = λ url rname s a e n. never_missing (view s (url, rname)) a [] e n;
  sets = sets;
  deletes = deletes;
}

abbrev encode : PercentEncode
encode chars segment = segment

abbrev nothing_stored : Store
nothing_stored k = []

-- A value presented at two names, another one added, and one taken out.
abbrev calls : List (Call (Text × Text))
calls =
    presents (b'z' ∷ [], b'n' ∷ []) (b'v' ∷ [])
    ∷ presents (b'z' ∷ [], b'n' ∷ []) (b'w' ∷ [])
    ∷ presents (b'z' ∷ [], b'm' ∷ []) (b'v' ∷ [])
    ∷ cleans (b'z' ∷ [], b'n' ∷ []) (b'v' ∷ [])
    ∷ cleans (b'z' ∷ [], b'm' ∷ []) (b'v' ∷ [])
    ∷ []

calls-refine_example :
    let done =
      run pair_key.key_eq
        (key scw reader view server (new []) encode)
        (shown_at scw reader view server (new []) encode)
        (present_at scw reader view server (new []) encode)
        (cleanup_at scw reader view server (new []) encode)
        calls
        nothing_stored in
    Replayed pair_key.key_eq
      (key scw reader view server (new []) encode)
      (shown_at scw reader view server (new []) encode)
      (present_at scw reader view server (new []) encode)
      (cleanup_at scw reader view server (new []) encode)
      calls
      (shown_at scw reader view server (new []) encode nothing_stored)
      done.0
      done.1
calls-refine_example = calls-refine scw reader view server (new []) encode calls nothing_stored
