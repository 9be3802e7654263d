-- ===== src/Providers/Gandi/Server.antt =====
-- What src/providers/gandi.rs relies on of the API: a store of TXT values by the URL of the name,
-- which nobody else writes to in the meantime.
use cheti.Prelude.{ℕ, ◌≡◌, ◌⊎◌, true, ◌||◌, Option, none, some, List, ◌==◌}
use cheti.Text.{Text}
use cheti.Error.{ok}
use cheti.Dns.Client.{answered}
use cheti.Common.Retry.{Request, Transport, get, put, delete}
use cheti.Providers.Http.{Reader, is_success}
use cheti.Providers.Writes.{Same, SameBut}
use cheti.Providers.Gandi.{TxtRecordBody}

-- The TXT values of a URL; `none` where there is no such resource.
abbrev pub Stored : Type 0 → Type 0
Stored S = S → Text → Option (List Text)

pub record Server {S B : Type 0} (api : Transport S TxtRecordBody B)
    (reader : Reader B TxtRecordBody) (view : Stored S) : Type 0 where
  -- A clone is the request itself, and a pause changes nothing.
  pub cloned : (r n : Request TxtRecordBody) → api.try_clone r ≡ some n → n ≡ r
  pub slept : (d : ℕ) (s : S) → Same view s (api.sleep d s)
  -- A GET changes nothing; a success carries the values, a 404 means that there are none.
  pub get_same : (r : Request TxtRecordBody) (s : S) → r.method ≡ get → Same view s (api.send r s).1
  pub get_found :
      (r : Request TxtRecordBody) (s : S)
      → r.method ≡ get
      → (a : _) (b : TxtRecordBody) → (api.send r s).0 ≡ ok a
      → is_success a.status ≡ true
      → reader.json a.body ≡ answered b
      → view s r.url ≡ some b.rrset_values
  pub get_missing :
      (r : Request TxtRecordBody) (s : S)
      → r.method ≡ get
      → (a : _) → (api.send r s).0 ≡ ok a
      → (a.status == 404) ≡ true
      → view s r.url ≡ none
  -- A PUT or DELETE that succeeds is done; one that fails is done or is not. Neither touches
  -- another URL.
  pub put_here :
      (r : Request TxtRecordBody) (s : S) (b : TxtRecordBody)
      → r.method ≡ put
      → r.payload ≡ some b
      → (view (api.send r s).1 r.url ≡ view s r.url)
        ⊎ (view (api.send r s).1 r.url ≡ some b.rrset_values)
  pub put_done :
      (r : Request TxtRecordBody) (s : S) (b : TxtRecordBody)
      → r.method ≡ put
      → r.payload ≡ some b
      → (a : _) → (api.send r s).0 ≡ ok a
      → is_success a.status ≡ true
      → view (api.send r s).1 r.url ≡ some b.rrset_values
  pub put_others :
      (r : Request TxtRecordBody) (s : S) → r.method ≡ put → SameBut view r.url s (api.send r s).1
  pub delete_here :
      (r : Request TxtRecordBody) (s : S)
      → r.method ≡ delete
      → (view (api.send r s).1 r.url ≡ view s r.url) ⊎ (view (api.send r s).1 r.url ≡ none)
  pub delete_done :
      (r : Request TxtRecordBody) (s : S)
      → r.method ≡ delete
      → (a : _) → (api.send r s).0 ≡ ok a
      → (is_success a.status || (a.status == 404)) ≡ true
      → view (api.send r s).1 r.url ≡ none
  pub delete_others :
      (r : Request TxtRecordBody) (s : S)
      → r.method ≡ delete
      → SameBut view r.url s (api.send r s).1
