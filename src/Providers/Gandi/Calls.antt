-- ===== src/Providers/Gandi/Calls.antt =====
-- What each request of src/providers/gandi.rs does to the values that the server keeps.
use cheti.Prelude.{
  ℕ, ◌≡◌, ◌∙◌, refl, sym, ap, inl, inr, Bool, true, ◌||◌, Bool-cases, Option, none, some, List, [],
  ◌==◌,
}
use cheti.Text.{Text}
use cheti.Error.{ok, err}
use cheti.Exec.{Post, >>=_rule, lift}
use cheti.Dns.Client.{Reply, answered, failed}
use cheti.Common.Names.{PercentEncode}
use cheti.Common.Retry.{Response, Transport, get, put, delete, send_retrying}
use cheti.Providers.Http.{Reader, is_success, plain, with_json}
use cheti.Providers.Gandi.{
  GandiConfig, TxtRecordBody, record_url, existing, values_of, fetch_existing, written, put_values,
  deleted, delete_record,
}
use cheti.Providers.Writes.{
  Same, Wrote, Read, Steady, Writes, Sent, send_retrying-Read, send_retrying-Sent,
}
use cheti.Providers.Gandi.Server.{Stored, Server}

-- The values of a URL, with none for a resource that is missing.
abbrev pub values_at : Option (List Text) → List Text
values_at none = []
values_at (some vs) = vs

module _ {S B : Type 0} (api : Transport S TxtRecordBody B) (reader : Reader B TxtRecordBody)
    (view : Stored S) (server : Server api reader view) where
  steady : Steady view api
  steady = record { cloned = server.cloned; slept = server.slept }

  -- What an answer to a GET tells of the values at a URL.
  record Told (url : Text) (s : S) (a : Response B) : Type 0 where
    found :
        (b : TxtRecordBody)
        → is_success a.status ≡ true
        → reader.json a.body ≡ answered b
        → view s url ≡ some b.rrset_values
    missing : (a.status == 404) ≡ true → view s url ≡ none

  tells :
      (url : Text) (s w : S)
      → Same view s w
      → (a : Response B) → (api.send (plain get url) w).0 ≡ ok a
      → Told url s a
  tells url s w h a q = record {
    found = λ b y j. sym (h url) ∙ server.get_found (plain get url) w refl a b q y j;
    missing = λ n. sym (h url) ∙ server.get_missing (plain get url) w refl a q n;
  }

  abbrev pub Fetched : Text → S → Post S (List Text)
  Fetched url s (err e) s' = Same view s s'
  Fetched url s (ok vs) s' = Same view s s' × (vs ≡ values_at (view s url))

  found_values :
      (url : Text) (s s' : S) (j : Reply TxtRecordBody)
      → Same view s s'
      → ((b : TxtRecordBody) → j ≡ answered b → view s url ≡ some b.rrset_values)
      → Fetched url s (values_of j) s'
  unfolding values_of
  found_values url s s' (failed e) h k = h
  found_values url s s' (answered b) h k = (h, sym (ap values_at (k b refl)))

  existing_Fetched :
      (config : GandiConfig) (encode : PercentEncode) (zone rname url : Text) (s s' : S)
      (a : Response B)
      → Same view s s'
      → Told url s a
      → Fetched url s (existing config encode reader zone rname a) s'
  unfolding existing
  existing_Fetched config encode zone rname url s s' a h told =
      elim (Bool-cases (a.status == 404)) [
        | inl n ↦ simp n (h, sym (ap values_at (told.missing n)))
        | inr n ↦ elim (Bool-cases (is_success a.status)) [
          | inl y ↦
              simp (n, y) (found_values url s s' (reader.json a.body) h (λ b j. told.found b y j))
          | inr y ↦ simp (n, y) h
        ]
      ]

  pub fetch_existing_Fetched :
      (config : GandiConfig) (encode : PercentEncode) (zone rname : Text) (s : S)
      → let url = record_url config encode zone rname in
        let done = fetch_existing config encode api reader zone rname s in
        Fetched url s done.0 done.1
  unfolding fetch_existing
  fetch_existing_Fetched config encode zone rname s =
      let url = record_url config encode zone rname in
      >>=_rule (Read view api (Told url s) s) (Fetched url s) (send_retrying api (plain get url))
        (λ response. lift (existing config encode reader zone rname response)) s
        (send_retrying-Read view api steady (plain get url) (Told url s) s
          (λ w. server.get_same (plain get url) w refl) (tells url s))
        (λ e s' h. h) (λ a s' h. existing_Fetched config encode zone rname url s s' a h.0 h.1)

  put_Writes :
      (url : Text) (b : TxtRecordBody)
      → Writes view api (with_json put url b) url (some b.rrset_values) is_success
  put_Writes url b = record {
    wrote = λ s. record {
      others = server.put_others (with_json put url b) s refl;
      here = server.put_here (with_json put url b) s b refl refl;
    };
    all_done = λ s a e h. server.put_done (with_json put url b) s b refl refl a e h;
  }

  delete_Writes :
      (url : Text)
      → Writes view api (plain delete url) url none (λ status. is_success status || (status == 404))
  delete_Writes url = record {
    wrote = λ s. record {
      others = server.delete_others (plain delete url) s refl;
      here = server.delete_here (plain delete url) s refl;
    };
    all_done = λ s a e h. server.delete_done (plain delete url) s refl a e h;
  }

  -- What a call that writes makes true.
  abbrev pub Written : Text → Option (List Text) → S → Post S (Unit {0})
  Written url after s (err e) s' = Wrote view url after s s'
  Written url after s (ok u) s' = Wrote view url after s s' × (view s' url ≡ after)

  written_Written :
      (config : GandiConfig) (encode : PercentEncode) (zone rname url : Text)
      (after : Option (List Text)) (s s' : S) (a : Response B)
      → Sent view api is_success url after s (ok a) s'
      → Written url after s (written config encode reader zone rname a) s'
  unfolding written
  written_Written config encode zone rname url after s s' a h =
      elim (Bool-cases (is_success a.status)) [ inl y ↦ simp y (h.0, h.1 y) | inr y ↦ simp y h.0 ]

  deleted_Written :
      (config : GandiConfig) (encode : PercentEncode) (zone rname url : Text) (s s' : S)
      (a : Response B)
      → Sent view api (λ status. is_success status || (status == 404)) url none s (ok a) s'
      → Written url none s (deleted config encode reader zone rname a) s'
  unfolding deleted
  deleted_Written config encode zone rname url s s' a h = elim (Bool-cases (is_success a.status)) [
    | inl y ↦ simp y (h.0, h.1 (simp y refl))
    | inr y ↦ elim (Bool-cases (a.status == 404)) [
      | inl n ↦ simp (y, n) (h.0, h.1 (simp (y, n) refl))
      | inr n ↦ simp (y, n) h.0
    ]
  ]

  pub put_values_Written :
      (config : GandiConfig) (encode : PercentEncode) (zone rname : Text) (values : List Text)
      (s : S)
      → let url = record_url config encode zone rname in
        let done = put_values config encode api reader zone rname values s in
        Written url (some values) s done.0 done.1
  unfolding put_values
  put_values_Written config encode zone rname values s =
      let url = record_url config encode zone rname in
      let body : TxtRecordBody = record { rrset_ttl = config.ttl; rrset_values = values } in
      >>=_rule (Sent view api is_success url (some values) s) (Written url (some values) s)
        (send_retrying api (with_json put url body))
        (λ response. lift (written config encode reader zone rname response)) s
        (send_retrying-Sent view api steady (with_json put url body) url (some values) is_success s
          (put_Writes url body))
        (λ e s' h. h)
        (λ a s' h. written_Written config encode zone rname url (some values) s s' a h)

  pub delete_record_Written :
      (config : GandiConfig) (encode : PercentEncode) (zone rname : Text) (s : S)
      → let url = record_url config encode zone rname in
        let done = delete_record config encode api reader zone rname s in
        Written url none s done.0 done.1
  unfolding delete_record
  delete_record_Written config encode zone rname s =
      let url = record_url config encode zone rname in
      let test : ℕ → Bool = λ status. is_success status || (status == 404) in
      >>=_rule (Sent view api test url none s) (Written url none s)
        (send_retrying api (plain delete url))
        (λ response. lift (deleted config encode reader zone rname response)) s
        (send_retrying-Sent view api steady (plain delete url) url none test s (delete_Writes url))
        (λ e s' h. h) (λ a s' h. deleted_Written config encode zone rname url s s' a h)
