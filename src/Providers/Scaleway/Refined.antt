-- ===== src/Providers/Scaleway/Refined.antt =====
-- The calls of src/providers/scaleway.rs under the lock keep to the contract of a provider.
use cheti.Prelude.{
  ◌≡◌, ◌∙◌, refl, sym, inl, inr, Bool, true, Bool-cases, List, [], ◌∷◌, ◌==◌, length,
}
use cheti.Text.{Text}
use cheti.Text.Trim.{quoted}
use cheti.Error.{Result, ok}
use cheti.Exec.{>>=_rule, lift}
use cheti.Dns.Client.{Reply, answered, failed}
use cheti.Common.Names.{PercentEncode}
use cheti.Common.Retry.{Response, Transport, send_retrying}
use cheti.Providers.Http.{Reader, is_success}
use cheti.Providers.Writes.{Same, Read, Sent, send_retrying-Read, send_retrying-Sent}
use cheti.Providers.Contract.{Call, Provider, run, Replayed, run-Replayed}
use cheti.Providers.Sets.{Fetched, Changed, Added, Removed, add-Added, take_away-Removed}
use cheti.Providers.Sets.Shown.{left, left_as_long}
use cheti.Providers.Sets.Refined.{pair_key, holds, keeps_contract}
use cheti.Providers.Gandi.{unquote}
use cheti.Providers.Gandi.Added.{unquote-quoted}
use cheti.Providers.Scaleway.{
  ChangeRequest, RecordsResponse, txt_data, values_of, records_url, existing, fetch_existing,
  changed, apply_set, deleted, apply_delete, write_remaining, add_value, remove_value,
}
use cheti.Providers.Scaleway.Config.{ScalewayConfig}
use cheti.Providers.Scaleway.Server.{
  Stored, Server, get_records, set_records, delete_records, is_deleted,
}

module _ {S B : Type 0} (scw : Transport S ChangeRequest B) (reader : Reader B RecordsResponse)
    (view : Stored S) (server : Server scw reader view) (config : ScalewayConfig)
    (encode : PercentEncode) where
  -- A name is its zone and its relative name.
  abbrev pub key : Text × Text → Text × Text
  key n = (records_url config encode n.0, n.1)

  -- What an answer tells of the values at a key.
  record Told (k : Text × Text) (s : S) (a : Response B) : Type 0 where
    found :
        (b : RecordsResponse)
        → is_success a.status ≡ true
        → reader.json a.body ≡ answered b
        → txt_data b.records ≡ view s k
    missing : (a.status == 404) ≡ true → view s k ≡ []

  tells :
      (url rname : Text) (s w : S)
      → Same view s w
      → (a : Response B) → (scw.send (get_records url rname) w).0 ≡ ok a
      → Told (url, rname) s a
  tells url rname s w h a q = record {
    found = λ b y j.
        server.get_found url rname w a b q y j (server.one_page w (url, rname)) ∙ h (url, rname);
    missing = λ n. sym (h (url, rname)) ∙ server.get_missing url rname w a q n;
  }

  values_of-Fetched :
      (k : Text × Text) (s s' : S) (j : Reply RecordsResponse)
      → Same view s s'
      → ((b : RecordsResponse) → j ≡ answered b → txt_data b.records ≡ view s k)
      → Fetched view k s (values_of j) s'
  unfolding values_of
  values_of-Fetched k s s' (failed e) h f = h
  values_of-Fetched k s s' (answered b) h f = (h, f b refl)

  existing-Fetched :
      (zone : Text) (k : Text × Text) (s s' : S) (a : Response B)
      → Same view s s'
      → Told k s a
      → Fetched view k s (existing config encode reader zone a) s'
  unfolding existing
  existing-Fetched zone k s s' a h told = elim (Bool-cases (a.status == 404)) [
    | inl n ↦ simp n (h, sym (told.missing n))
    | inr n ↦ elim (Bool-cases (is_success a.status)) [
      | inl y ↦
          simp (n, y) (values_of-Fetched k s s' (reader.json a.body) h (λ b j. told.found b y j))
      | inr y ↦ simp (n, y) h
    ]
  ]

  fetch_existing-Fetched :
      (zone rname : Text) (s : S)
      → let done = fetch_existing config encode scw reader zone rname s in
        Fetched view (key (zone, rname)) s done.0 done.1
  unfolding fetch_existing
  fetch_existing-Fetched zone rname s =
      let url = records_url config encode zone in
      >>=_rule (Read view scw (Told (url, rname) s) s) (Fetched view (url, rname) s)
        (send_retrying scw (get_records url rname))
        (λ response. lift (existing config encode reader zone response)) s
        (send_retrying-Read view scw server.steady (get_records url rname) (Told (url, rname) s) s
          (server.get_same url rname) (tells url rname s))
        (λ e s' h. h) (λ a s' h. existing-Fetched zone (url, rname) s s' a h.0 h.1)

  changed-Changed :
      (zone : Text) (k : Text × Text) (after : List Text) (s s' : S) (a : Response B)
      → Sent view scw is_success k after s (ok a) s'
      → Changed view k after s (changed config encode reader zone a) s'
  unfolding changed
  changed-Changed zone k after s s' a h = elim (Bool-cases (is_success a.status)) [
    | inl y ↦ simp y (h.0, h.1 y)
    | inr n ↦ simp n h.0
  ]

  apply_set-Changed :
      (zone rname : Text) (values : List Text) (s : S)
      → let done = apply_set config encode scw reader zone rname values s in
        Changed view (key (zone, rname)) values s done.0 done.1
  unfolding apply_set
  apply_set-Changed zone rname values s =
      let k = key (zone, rname) in
      let request = set_records k.0 rname config.ttl values in
      >>=_rule (Sent view scw is_success k values s) (Changed view k values s)
        (send_retrying scw request) (λ response. lift (changed config encode reader zone response))
        s
        (send_retrying-Sent view scw server.steady request k values is_success s
          (server.sets k.0 rname config.ttl values))
        (λ e s' h. h) (λ a s' h. changed-Changed zone k values s s' a h)

  deleted-Changed :
      (zone : Text) (k : Text × Text) (s s' : S) (a : Response B)
      → Sent view scw is_deleted k [] s (ok a) s'
      → Changed view k [] s (deleted config encode reader zone a) s'
  unfolding deleted
  deleted-Changed zone k s s' a h = elim (Bool-cases (is_success a.status)) [
    | inl y ↦ simp y (h.0, h.1 (rw y refl))
    | inr n ↦ elim (Bool-cases (a.status == 404)) [
      | inl m ↦ simp (n, m) (h.0, h.1 (rw (n, m) refl))
      | inr m ↦ simp (n, m) h.0
    ]
  ]

  apply_delete-Changed :
      (zone rname : Text) (s : S)
      → let done = apply_delete config encode scw reader zone rname s in
        Changed view (key (zone, rname)) [] s done.0 done.1
  unfolding apply_delete
  apply_delete-Changed zone rname s =
      let k = key (zone, rname) in
      let request = delete_records k.0 rname in
      >>=_rule (Sent view scw is_deleted k [] s) (Changed view k [] s) (send_retrying scw request)
        (λ response. lift (deleted config encode reader zone response)) s
        (send_retrying-Sent view scw server.steady request k [] is_deleted s
          (server.deletes k.0 rname))
        (λ e s' h. h) (λ a s' h. deleted-Changed zone k s s' a h)

  write_remaining-Changed :
      (zone rname : Text) (values : List Text) (s : S)
      → let done = write_remaining config encode scw reader zone rname values s in
        Changed view (key (zone, rname)) values s done.0 done.1
  unfolding write_remaining
  write_remaining-Changed zone rname [] s = apply_delete-Changed zone rname s
  write_remaining-Changed zone rname (v ∷ vs) s = apply_set-Changed zone rname (v ∷ vs) s

  abbrev pub present_at : Text × Text → Text → S → Result (Unit {0}) × S
  present_at n v s = add_value config encode scw reader n.0 n.1 v s

  abbrev pub cleanup_at : Text × Text → Text → S → Result (Unit {0}) × S
  cleanup_at n v s = remove_value config encode scw reader n.0 n.1 v s

  add_value-Added :
      (n : Text × Text) (v : Text) (s : S)
      → Added view unquote quoted (key n) v s (present_at n v s).0 (present_at n v s).1
  unfolding add_value
  add_value-Added n v s =
      add-Added view (key n) (fetch_existing config encode scw reader n.0 n.1)
        (fetch_existing-Fetched n.0 n.1) (apply_set config encode scw reader n.0 n.1)
        (apply_set-Changed n.0 n.1) unquote quoted unquote-quoted v s

  remove_value-Removed :
      (n : Text × Text) (v : Text) (s : S)
      → Removed view unquote quoted (key n) v s (cleanup_at n v s).0 (cleanup_at n v s).1
  unfolding remove_value
  remove_value-Removed n v s =
      take_away-Removed view (key n) (fetch_existing config encode scw reader n.0 n.1)
        (fetch_existing-Fetched n.0 n.1) (write_remaining config encode scw reader n.0 n.1)
        (write_remaining-Changed n.0 n.1) unquote quoted
        (λ value vs. length (left unquote value vs) == length vs) (left_as_long unquote) v s

  abbrev pub shown_at : S → Text × Text → Text → Bool
  shown_at = holds pair_key view unquote quoted unquote-quoted key

  pub provider : Provider pair_key.key_eq key shown_at present_at cleanup_at
  provider =
      keeps_contract pair_key view unquote quoted unquote-quoted key present_at cleanup_at
        add_value-Added remove_value-Removed

  -- On a server that keeps the values of each name, 100 at most: after calls of `present` and
  -- `cleanup` (the parts under the lock) that all succeed, exactly those values are shown at each
  -- name that a set gives to which `present` adds the value and from which `cleanup` takes it;
  -- where a call fails, the values that no call is about are as they were.
  pub calls-refine :
      (calls : List (Call (Text × Text))) (s : S)
      → let done = run pair_key.key_eq key shown_at present_at cleanup_at calls s in
        Replayed pair_key.key_eq key shown_at present_at cleanup_at calls (shown_at s) done.0 done.1
  calls-refine calls s =
      run-Replayed pair_key.key_eq key shown_at present_at cleanup_at provider calls (shown_at s) s
        (λ k v. refl)
