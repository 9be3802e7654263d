-- ===== src/Providers/Desec/Server.antt =====
-- What src/providers/desec.rs relies on of the API: a store of TXT values in presentation format, by
-- the URL of the RRset, which nobody else writes to in the meantime.
use cheti.Prelude.{ℕ, ◌≡◌, true, false, List, [], ◌∷◌, ◌==◌, map, if◌then◌else◌}
use cheti.Text.{Text, text, text_eq, is_empty}
use cheti.Text.Trim.{quoted}
use cheti.Error.{ok}
use cheti.Dns.Client.{answered}
use cheti.Common.Names.{PercentEncode}
use cheti.Common.Retry.{Request, Response, Transport, get, patch}
use cheti.Providers.Http.{is_success, plain, with_json}
use cheti.Providers.Writes.{Same, Writes, Steady}
use cheti.Providers.Desec.{DesecRrset, DesecRrsetWrite, DesecReader, rrset_url, rrsets_url}
use cheti.Providers.Desec.Config.{DesecConfig}

abbrev pub Stored : Type 0 → Type 0
Stored S = S → Text → List Text

-- The name in the URL of the RRset of a subname: the domain itself, an empty subname, is "@" there.
abbrev pub url_name : Text → Text
url_name subname = if is_empty subname then text "@" else subname

abbrev pub bulk_write : Text → Text → ℕ → List Text → Request (List DesecRrsetWrite)
bulk_write url subname ttl values = with_json patch url (
    record { subname = subname; rrset_type = text "TXT"; ttl = ttl; records = map quoted values }
    ∷ [])

pub record Server {S B : Type 0} (desec : Transport S (List DesecRrsetWrite) B)
    (reader : DesecReader B) (view : Stored S) (config : DesecConfig) (encode : PercentEncode)
    : Type 0 where
  pub steady : Steady view desec
  -- A read of an RRset changes nothing; a success carries its values, and one that is not found has
  -- none.
  pub get_same : (url : Text) (s : S) → Same view s (desec.send (plain get url) s).1
  pub get_found :
      (url : Text) (s : S) (a : Response B) (b : DesecRrset)
      → (desec.send (plain get url) s).0 ≡ ok a
      → is_success a.status ≡ true
      → reader.plain_reader.json a.body ≡ answered b
      → b.records ≡ view s url
  pub get_missing :
      (url : Text) (s : S) (a : Response B)
      → (desec.send (plain get url) s).0 ≡ ok a
      → (a.status == 404) ≡ true
      → view s url ≡ []
  -- A bulk write that succeeds is done; one that fails is done or is not. It touches no other RRset.
  pub writes :
      (zone subname : Text) (ttl : ℕ) (values : List Text)
      → text_eq subname (text "@") ≡ false
      → Writes view desec
          (bulk_write (rrsets_url config encode zone) subname ttl values)
          (rrset_url config encode zone (url_name subname))
          (map quoted values)
          is_success
