-- ===== src/Testing/Provider.antt =====
-- `MockDnsProvider` of src/testing.rs. Clones share the records, so that the state is one list.
use cheti.Prelude.{Bool, not, ◌&&◌, List, [], ◌∷◌, ◌++◌, any, keep, if◌then◌else◌}
use cheti.Text.{Text, text, text_eq}
use cheti.Error.{ok, err, api}
use cheti.Exec.{Exec}
use cheti.Dns.Client.{PropagationTiming}

abbrev pub is_record : Text → Text → Text × Text → Bool
is_record fqdn value r = text_eq r.0 fqdn && text_eq r.1 value

abbrev pub Records : Type 0
Records = List (Text × Text)

abbrev pub new : Records
new = []

abbrev pub present_records : Records → List (Text × Text)
present_records records = records

unfoldable pub has_record : Text → Text → Records → Bool
has_record fqdn value records = any (is_record fqdn value) records

unfoldable pub present : Bool → Text → Text → Exec Records (Unit {0})
present fail_present fqdn value records =
    if fail_present
    then (err (api (text "mock present failure for " ++ fqdn)), records)
    else (ok tt, records ++ ((fqdn, value) ∷ []))

unfoldable pub cleanup : Text → Text → Exec Records (Unit {0})
cleanup fqdn value records = (ok tt, keep (λ r. not (is_record fqdn value r)) records)

abbrev pub timing : PropagationTiming
timing = record { timeout = 1000; interval = 10 }
