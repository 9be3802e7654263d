-- ===== src/Providers/PowerDns/Server.antt =====
-- What src/providers/powerdns.rs relies on of the API: a store of TXT RRSets, by the URL of the
-- zone and the owner name, which nobody else writes to in the meantime.
use mathlib.Core.Option
use cheti.Prelude.{ℕ, ◌≡◌, true, Option, none, some, List, [], ◌∷◌}
use cheti.Text.{Text, text}
use cheti.Error.{ok}
use cheti.Dns.Client.{answered}
use cheti.Common.Retry.{Request, Response, Transport, get, patch}
use cheti.Providers.Http.{is_success}
use cheti.Providers.Writes.{Same, Wrote, Steady}
use cheti.Providers.PowerDns.{
  PdnsRecord, PdnsRrset, Change, replace, remove, PdnsPatch, PdnsReader, find_rrset,
}

-- The TTL and the records of an RRSet.
abbrev pub Rrset : Type 0
Rrset = ℕ × List PdnsRecord

abbrev pub rrset_data : PdnsRrset → Rrset
rrset_data r = (r.ttl, r.records)

abbrev pub Stored : Type 0 → Type 0
Stored S = S → Text × Text → Option Rrset

-- What a change leaves.
abbrev pub result_of : Change → Option Rrset
result_of remove = none
result_of (replace ttl records) = some (ttl, records)

abbrev pub get_rrset : Text → Text → Request PdnsPatch
get_rrset url name = record {
  method = get;
  url = url;
  query = (text "rrset_name", name) ∷ (text "rrset_type", text "TXT") ∷ [];
  payload = none;
}

abbrev pub patch_of : Text → Text → Change → Request PdnsPatch
patch_of url name change = record {
  method = patch;
  url = url;
  query = [];
  payload =
      some (record {
        rrsets = record { name = name; record_type = text "TXT"; change = change } ∷ [];
      });
}

pub record Server {S B : Type 0} (pdns : Transport S PdnsPatch B) (reader : PdnsReader B)
    (view : Stored S) : Type 0 where
  pub steady : Steady view pdns
  -- A read of an RRSet changes nothing; a success carries it among the RRSets, if there is one.
  pub get_same : (url name : Text) (s : S) → Same view s (pdns.send (get_rrset url name) s).1
  pub get_found :
      (url name : Text) (s : S) (a : Response B) (rrsets : List PdnsRrset)
      → (pdns.send (get_rrset url name) s).0 ≡ ok a
      → is_success a.status ≡ true
      → reader.rrsets_json a.body ≡ answered rrsets
      → Option.map rrset_data (find_rrset name rrsets) ≡ view s (url, name)
  -- A PATCH that succeeds is done; one that fails is done or is not. It touches no other RRSet.
  pub patch_wrote :
      (url name : Text) (change : Change) (s : S)
      → Wrote view (url, name) (result_of change) s (pdns.send (patch_of url name change) s).1
  pub patch_done :
      (url name : Text) (change : Change) (s : S) (a : Response B)
      → (pdns.send (patch_of url name change) s).0 ≡ ok a
      → is_success a.status ≡ true
      → view (pdns.send (patch_of url name change) s).1 (url, name) ≡ result_of change
