-- ===== src/Providers/DigitalOcean/Changes.antt =====
-- What `present` and `cleanup` of src/providers/digitalocean.rs do to the records of a name.
use cheti.Prelude.{
  ℕ, ◌||◌, arith, sym, ◌≡◌, ◌∙◌, refl, ap, subst, inl, inr, Bool, true, not, Bool-cases, List, ◌++◌,
  ◌==◌, any, keep,
}
use cheti.Text.{Text, text, text_eq, decimal, trim_end_matches}
use cheti.Text.Suffix.{text_eq_refl, text_eq_sound}
use cheti.Error.{ok}
use cheti.Exec.{Post, >>=_rule, lift}
use cheti.Common.Validate.{validate_acme_value}
use cheti.Common.Validate.Values.{validate_acme_value-trim}
use cheti.Common.Names.{PercentEncode}
use cheti.Common.Retry.{Response, Transport, post, delete, send_retrying}
use cheti.Providers.Http.{Reader, is_success, plain, with_json}
use cheti.Providers.Records.{Distinct, Key, Server, delete_each}
use cheti.Providers.Records.Deleted.{Gone, Deleted, delete_Deleted, Deleted-Gone}
use cheti.Providers.Records.Removes.{Removed, Removed-after, Distinct-Same, delete_each-Removed}
use cheti.Providers.Records.Adds.{Grown-Same, Posted, post_Posted, Shown, Posted-Shown, Shown-after}
use cheti.Providers.DigitalOcean.{
  DoRecord, DoRecordList, CreateRecordBody, record_value, records_url, record_item_url, created,
  deleted, create_body, create_record, delete_record, add_value, remove_value,
  list_matching_records,
}
use cheti.Providers.DigitalOcean.Config.{DigitalOceanConfig}
use cheti.Providers.DigitalOcean.Listed.{Lists, Listed, list_matching_records-Listed}

-- The URL of a record, and the record that a POST makes: the server keeps its data.
abbrev pub item : Key → DoRecord → Text
item k x = k.0 ++ (text "/" ++ decimal x.id)

abbrev pub carries : CreateRecordBody → DoRecord → Bool
carries b x = text_eq x.data_ b.data_

abbrev pub shows : Text → DoRecord → Bool
shows value x = text_eq (record_value x) value

-- The name that the server makes of the URL and of the name in a body.
abbrev pub key_of : (Text → Text → Text) → Text → CreateRecordBody → Key
key_of full_name url b = (url, full_name url b.name)

carries-shows :
    (value : Text) (b : CreateRecordBody) (x : DoRecord)
    → validate_acme_value value ≡ ok tt
    → b.data_ ≡ value
    → carries b x ≡ true
    → shows value x ≡ true
unfolding record_value
carries-shows value b x h e c =
    let same : x.data_ ≡ value = text_eq_sound x.data_ b.data_ c ∙ e in
    let (t, q) = validate_acme_value-trim value h in rw (same, t, q) (text_eq_refl value)

module _ {S B : Type 0} (view : S → Key → List DoRecord) (api : Transport S CreateRecordBody B)
    (reader : Reader B DoRecordList) (full_name : Text → Text → Text)
    (server : Server view item api (key_of full_name) carries) (lists : Lists view api reader)
    (config : DigitalOceanConfig) (encode : PercentEncode) (zone fqdn : Text) where
  abbrev pub name_key : Key
  name_key = (records_url config encode zone, trim_end_matches b'.' fqdn)

  deleted-ok :
      (id : ℕ) (a : Response B)
      → deleted config encode reader zone id a ≡ ok tt
      → (is_success a.status || (a.status == 404)) ≡ true
  unfolding deleted
  deleted-ok id a h = ground arith

  created-ok :
      (a : Response B) → created config encode reader zone a ≡ ok tt → is_success a.status ≡ true
  unfolding created
  created-ok a h = ground arith

  delete_record_Gone :
      (x : DoRecord) (s : S)
      → let done = delete_record config encode api reader zone x.id s in
        Gone view item (item name_key x) s done.0 done.1
  unfolding delete_record record_item_url
  delete_record_Gone x s =
      let url = item name_key x in
      let request = plain delete url in
      >>=_rule (Deleted view item api server.steady server.deletes url s) (Gone view item url s)
        (send_retrying api request) (λ a. lift (deleted config encode reader zone x.id a)) s
        (delete_Deleted view item api server.steady server.deletes request s refl) (λ e t h. h)
        (λ a t h.
          Deleted-Gone view item api server.steady server.deletes url s a t
            (deleted config encode reader zone x.id a) (deleted-ok x.id a) h)

  create_record-Shown :
      (rname value : Text) (s : S)
      → validate_acme_value value ≡ ok tt
      → full_name (records_url config encode zone) rname ≡ trim_end_matches b'.' fqdn
      → let b = create_body config encode api reader rname value in
        let done = create_record config encode api reader zone rname value s in
        Shown view (carries b) (shows value) name_key s done.0 done.1
  unfolding create_record
  create_record-Shown rname value s h n =
      let url = records_url config encode zone in
      let b = create_body config encode api reader rname value in
      let done = create_record config encode api reader zone rname value s in
      subst (λ (m : Text). Shown view (carries b) (shows value) (url, m) s done.0 done.1) n
        (>>=_rule (Posted view api server.steady (key_of full_name) carries server.posts url b s)
          (Shown view (carries b) (shows value) (key_of full_name url b) s)
          (send_retrying api (with_json post url b))
          (λ a. lift (created config encode reader zone a)) s
          (post_Posted view api server.steady (key_of full_name) carries server.posts
            (with_json post url b) b s refl refl)
          (λ e t p. p)
          (λ a t p.
            Posted-Shown view api server.steady (key_of full_name) carries server.posts url b
              (shows value) s a t (created config encode reader zone a)
              (λ x c. carries-shows value b x h refl c) (created-ok a) p))

  -- The call under the lock of `present`.
  abbrev pub Presented : Text → Text → S → Post S (Unit {0})
  Presented rname value =
      Shown view (carries (create_body config encode api reader rname value)) (shows value) name_key

  -- On a server that keeps the records: where the value passes the check and the server takes the
  -- relative name for the name, the part of `present` under the lock leaves the records of every
  -- other name as they are, and those of this name too, adding one with the value at most; if it
  -- succeeds, a record of the name shows the value.
  pub add_value-Shown :
      (rname value : Text) (s : S)
      → validate_acme_value value ≡ ok tt
      → full_name (records_url config encode zone) rname ≡ trim_end_matches b'.' fqdn
      → let done = add_value config encode api reader zone rname fqdn value s in
        Presented rname value s done.0 done.1
  unfolding add_value
  add_value-Shown rname value s h n =
      >>=_rule (Listed view api reader server.steady lists config encode zone fqdn s)
        (Presented rname value s) (list_matching_records config encode api reader zone fqdn) _ s
        (list_matching_records-Listed view api reader server.steady lists config encode zone fqdn s)
        (λ e t k. Grown-Same view _ name_key s t k)
        (λ all t k. elim (Bool-cases (any (shows value) all)) [
          | inl y ↦ rw y (
            Grown-Same view _ name_key s t k.0,
            ap (any (shows value)) (k.0 name_key ∙ sym k.1) ∙ y,
          )
          | inr y ↦ rw y (
              Shown-after view _ (shows value) name_key s t _ _ k.0
                (create_record-Shown rname value t h n))
        ])

  -- On a server that keeps the records, no two under one URL, the part of `cleanup` under the lock leaves the records of
  -- every other name as they are, and keeps those of this name that do not show the value, in
  -- their order; if it succeeds, those that show the value are gone.
  pub remove_value_clears :
      (value : Text) (s : S)
      → Distinct view item s
      → let done = remove_value config encode api reader zone fqdn value s in
        Removed view (shows value) name_key s done.0 done.1
  unfolding remove_value
  remove_value_clears value s d =
      >>=_rule (Listed view api reader server.steady lists config encode zone fqdn s)
        (Removed view (shows value) name_key s)
        (list_matching_records config encode api reader zone fqdn) _ s
        (list_matching_records-Listed view api reader server.steady lists config encode zone fqdn s)
        (λ e t k. (λ x n. k x, ap (keep (λ y. not (shows value y))) (k name_key)))
        (λ all t k. Removed-after view (shows value) name_key s t _ _ k.0 (
          subst
            (λ (l : List DoRecord).
              let done =
                delete_each (shows value) (λ x. delete_record config encode api reader zone x.id) l
                  t in
              Removed view (shows value) name_key t done.0 done.1)
            (k.0 name_key ∙ sym k.1)
            (delete_each-Removed view item name_key (shows value)
              (λ x. delete_record config encode api reader zone x.id) delete_record_Gone t
              (Distinct-Same view item s t k.0 d))))
