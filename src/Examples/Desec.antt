-- ===== src/Examples/Desec.antt =====
-- A server for the provider of src/providers/desec.rs, and calls of it.
use cheti.Prelude.{
  ℕ, ◌≡◌, ◌∙◌, refl, sym, ap, inr, true, false, Option, none, some, List, [], ◌∷◌, ◌++◌, ◌==◌, map,
}
use cheti.Text.{Text, text, text_eq}
use cheti.Text.Trim.{quoted}
use cheti.Error.{Result, ok}
use cheti.Dns.Client.{answered, failed}
use cheti.Common.Names.{PercentEncode}
use cheti.Common.Retry.{Method, get, post, put, patch, delete, Request, Response, Transport}
use cheti.Providers.Http.{is_success}
use cheti.Providers.Writes.{Wrote, Writes, Steady}
use cheti.Providers.Sets.{Added, Removed}
use cheti.Providers.Sets.Refined.{text_key}
use cheti.Providers.Desec.{
  ResolvedZone, DesecRrset, DesecRrsetWrite, DesecReader, rrset_path, rrset_url, rrsets_path,
  rrsets_url, add_value, remove_value,
}
use cheti.Providers.Desec.Config.{new}
use cheti.Providers.Desec.Server.{Stored, Server, url_name, bulk_write}
use cheti.Providers.Desec.Changes.{itself, values, add_value-Put, remove_value-Taken}
use cheti.Examples.Stores.{store_at, store_at-here, store_at-other}

abbrev Store : Type 0
Store = Text → List Text

abbrev view : Stored Store
view s = s

abbrev reply : ℕ → List Text → Response (List Text)
reply status records = record { status = status; retry_after = none; body = records }

-- The URL of the RRset of a subname, from the URL of all.
abbrev item : Text → Text → Text
item url subname = url ++ (url_name subname ++ text "/TXT/")

abbrev apply_all : Text → List DesecRrsetWrite → Store → Store
apply_all url [] s = s
apply_all url (w ∷ ws) s = apply_all url ws (store_at text_key (item url w.subname) w.records s)

abbrev write_all :
    Text → Option (List DesecRrsetWrite) → Store → Result (Response (List Text)) × Store
write_all url none s = (ok (reply 400 []), s)
write_all url (some ws) s = (ok (reply 200 []), apply_all url ws s)

abbrev respond :
    Request (List DesecRrsetWrite) → Method → Store → Result (Response (List Text)) × Store
respond r get s = (ok (reply 200 (s r.url)), s)
respond r patch s = write_all r.url r.payload s
respond r post s = (ok (reply 405 []), s)
respond r put s = (ok (reply 405 []), s)
respond r delete s = (ok (reply 405 []), s)

abbrev desec : Transport Store (List DesecRrsetWrite) (List Text)
desec = record {
  try_clone = λ r. some r;
  is_idempotent = λ m. false;
  send = λ r s. respond r r.method s;
  sleep = λ d s. s;
}

abbrev reader : DesecReader (List Text)
reader = record {
  plain_reader = record {
    body_text = λ b. answered [];
    json = λ b. answered (record { records = b });
    status_text = λ n. [];
  };
  domain_json = λ b. failed [];
  domains_json = λ b. failed [];
}

abbrev encode : PercentEncode
encode chars segment = segment

append_assoc : (a b c : Text) → (a ++ b) ++ c ≡ a ++ (b ++ c)
append_assoc [] b c = refl
append_assoc (x ∷ a) b c = ap (λ (l : Text). x ∷ l) (append_assoc a b c)

item-url :
    (zone subname : Text)
    → item (rrsets_url (new []) encode zone) subname
      ≡ rrset_url (new []) encode zone (url_name subname)
unfolding rrsets_url rrset_url rrsets_path rrset_path
item-url zone subname = simp append_assoc refl

written_there :
    (url key : Text) (records : List Text) (s : Store) (a : Text)
    → a ≡ key
    → Wrote view key records s (store_at text_key a records s)
written_there url key records s a e = rw e (record {
  others = λ k n. store_at-other text_key key records s k n;
  here = inr (store_at-here text_key key records s);
})

writes :
    (zone subname : Text) (ttl : ℕ) (values : List Text)
    → text_eq subname (text "@") ≡ false
    → Writes view desec
        (bulk_write (rrsets_url (new []) encode zone) subname ttl values)
        (rrset_url (new []) encode zone (url_name subname))
        (map quoted values)
        is_success
writes zone subname ttl values n = record {
  wrote = λ s.
      written_there (rrsets_url (new []) encode zone)
        (rrset_url (new []) encode zone (url_name subname)) (map quoted values) s _
        (item-url zone subname);
  all_done = λ s a e y. rw (item-url zone subname) (
      store_at-here text_key (rrset_url (new []) encode zone (url_name subname)) (map quoted values)
        s);
}

found :
    (records : List Text) (a : Response (List Text)) (b : DesecRrset)
    → ok (reply 200 records) ≡ ok a
    → reader.plain_reader.json a.body ≡ answered b
    → b.records ≡ records
found records a b e j =
    let same : reply 200 records ≡ a = cc in
    let body : reader.plain_reader.json records ≡ answered b =
      ap (λ (x : Response (List Text)). reader.plain_reader.json x.body) same ∙ j in
    let whole : record { records = records } ≡ b = cc in
    ap (λ (r : DesecRrset). r.records) (sym whole)

never_missing :
    (records : List Text) (a : Response (List Text)) (b : List Text)
    → ok (reply 200 records) ≡ ok a
    → (a.status == 404) ≡ true
    → records ≡ b
never_missing records a b e n =
    let same : reply 200 records ≡ a = cc in
    let status : (200 == 404) ≡ true =
      ap (λ (x : Response (List Text)). x.status == 404) same ∙ n in
    cc

steady : Steady view desec
steady = record { cloned = λ r n e. cc; slept = λ d s k. refl }

server : Server desec reader view (new []) encode
server = record {
  steady = steady;
  get_same = λ url s k. refl;
  get_found = λ url s a b e y j. found (s url) a b e j;
  get_missing = λ url s a e n. never_missing (s url) a [] e n;
  writes = writes;
}

abbrev zone : ResolvedZone
zone = record { name = b'z' ∷ []; ttl = 3600 }

-- Every RRset has a value in quotes and one without.
abbrev start : Store
start url = quoted (b'v' ∷ []) ∷ (b'w' ∷ []) ∷ []

add_value-Put_example :
    let done = add_value (new []) encode desec reader zone (b'@' ∷ []) (b'x' ∷ []) start in
    Added
      (values desec reader view (new []) encode server)
      itself
      itself
      (rrset_url (new []) encode zone.name (b'@' ∷ []))
      (b'x' ∷ [])
      start
      done.0
      done.1
add_value-Put_example =
    add_value-Put desec reader view (new []) encode server zone (b'@' ∷ []) (b'x' ∷ []) start refl

remove_value-Taken_example :
    let done = remove_value (new []) encode desec reader zone (b'@' ∷ []) (b'v' ∷ []) start in
    Removed
      (values desec reader view (new []) encode server)
      itself
      itself
      (rrset_url (new []) encode zone.name (b'@' ∷ []))
      (b'v' ∷ [])
      start
      done.0
      done.1
remove_value-Taken_example =
    remove_value-Taken desec reader view (new []) encode server zone (b'@' ∷ []) (b'v' ∷ []) start
      refl
