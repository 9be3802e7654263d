-- ===== src/Providers/Scaleway/Server.antt =====
-- What src/providers/scaleway.rs relies on of the API: a store of TXT values, by the URL of the
-- records of a zone and the name in it, which nobody else writes to in the meantime.
use cheti.Prelude.{ℕ, ◌≡◌, ◌≤◌, Bool, true, ◌||◌, none, List, [], ◌==◌, length}
use cheti.Text.{Text}
use cheti.Error.{ok}
use cheti.Dns.Client.{answered}
use cheti.Common.Retry.{Request, Response, Transport, get, patch}
use cheti.Providers.Http.{Reader, is_success, with_json}
use cheti.Providers.Writes.{Same, Writes, Steady}
use cheti.Providers.Scaleway.{
  ChangeRequest, RecordsResponse, set, delete, id_of, specs, change_request, records_query,
  txt_data,
}

abbrev pub Stored : Type 0 → Type 0
Stored S = S → Text × Text → List Text

abbrev pub get_records : Text → Text → Request ChangeRequest
get_records url rname = record {
  method = get;
  url = url;
  query = records_query rname;
  payload = none;
}

abbrev pub set_records : Text → Text → ℕ → List Text → Request ChangeRequest
set_records url rname ttl values =
    with_json patch url
      (change_request (set (record { id_fields = id_of rname; records = specs rname ttl values })))

abbrev pub delete_records : Text → Text → Request ChangeRequest
delete_records url rname = with_json patch url (change_request (delete (id_of rname)))

abbrev pub is_deleted : ℕ → Bool
is_deleted status = is_success status || (status == 404)

pub record Server {S B : Type 0} (scw : Transport S ChangeRequest B)
    (reader : Reader B RecordsResponse) (view : Stored S) : Type 0 where
  pub steady : Steady view scw
  -- No name has more values than the page that is asked for.
  pub one_page : (s : S) (k : Text × Text) → length (view s k) ≤ 100
  -- A read changes nothing; a success carries the values of the name, if a page holds them, and a
  -- zone that is not found has none.
  pub get_same : (url rname : Text) (s : S) → Same view s (scw.send (get_records url rname) s).1
  pub get_found :
      (url rname : Text) (s : S) (a : Response B) (b : RecordsResponse)
      → (scw.send (get_records url rname) s).0 ≡ ok a
      → is_success a.status ≡ true
      → reader.json a.body ≡ answered b
      → length (view s (url, rname)) ≤ 100
      → txt_data b.records ≡ view s (url, rname)
  pub get_missing :
      (url rname : Text) (s : S) (a : Response B)
      → (scw.send (get_records url rname) s).0 ≡ ok a
      → (a.status == 404) ≡ true
      → view s (url, rname) ≡ []
  -- A change that succeeds is done; one that fails is done or is not. It touches no other name.
  pub sets :
      (url rname : Text) (ttl : ℕ) (values : List Text)
      → Writes view scw (set_records url rname ttl values) (url, rname) values is_success
  pub deletes :
      (url rname : Text) → Writes view scw (delete_records url rname) (url, rname) [] is_deleted
