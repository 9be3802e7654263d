-- ===== src/Providers/Desec/Changes.antt =====
-- What the calls of src/providers/desec.rs under the lock do to the values of a name.
use cheti.Prelude.{
  ℕ, ◌≡◌, ◌∙◌, refl, sym, ap, subst, inl, inr, true, false, not, Bool-cases, List, [], ◌∷◌, ◌==◌,
  any, map,
}
use cheti.Text.{Text, text, text_eq, is_empty}
use cheti.Text.Suffix.{text_eq_sound}
use cheti.Text.Trim.{quoted}
use cheti.Error.{ok}
use cheti.Exec.{>>=_rule, lift}
use cheti.Dns.Client.{Reply, answered, failed}
use cheti.Common.Names.{PercentEncode}
use cheti.Common.Retry.{Response, Transport, get, send_retrying}
use cheti.Providers.Http.{is_success, plain}
use cheti.Providers.Writes.{Same, Wrote, Read, Sent, Writes, send_retrying-Read, send_retrying-Sent}
use cheti.Providers.Sets.{Fetched, Changed, Added, Removed, add-Added, take_away-Removed}
use cheti.Providers.Sets.Shown.{shows, left-none}
use cheti.Providers.Gandi.{unquote}
use cheti.Providers.Gandi.Added.{unquote-quoted}
use cheti.Providers.Desec.{
  ResolvedZone, subname_of, DesecRrset, DesecRrsetWrite, DesecReader, rrset_url, rrsets_url,
  values_of, existing, fetch_existing, written, write_values, add_value, remove_value,
}
use cheti.Providers.Desec.Config.{DesecConfig}
use cheti.Providers.Desec.Server.{Stored, Server, url_name, bulk_write}

unquote-all : (vs : List Text) → map unquote (map quoted vs) ≡ vs
unquote-all [] = refl
unquote-all (v ∷ vs) = rw (unquote-quoted v, unquote-all vs) refl

-- The subname of a relative name is no "@", and it is the name that the URL has.
subname_not_apex : (rname : Text) → text_eq (subname_of rname) (text "@") ≡ false
unfolding text
subname_not_apex rname = elim (Bool-cases (text_eq rname (text "@"))) [
  | inl e ↦ rw e refl
  | inr n ↦ rw (n, n) refl
]

url_name-subname_of : (rname : Text) → is_empty rname ≡ false → url_name (subname_of rname) ≡ rname
url_name-subname_of rname named = elim (Bool-cases (text_eq rname (text "@"))) [
  | inl e ↦ rw e (sym (text_eq_sound rname (text "@") e))
  | inr n ↦ rw (n, named) refl
]

-- A value is shown by itself.
abbrev pub itself : Text → Text
itself v = v

module _ {S B : Type 0} (desec : Transport S (List DesecRrsetWrite) B) (reader : DesecReader B)
    (view : Stored S) (config : DesecConfig) (encode : PercentEncode)
    (server : Server desec reader view config encode) where
  -- The values of an RRset without their quotes.
  abbrev pub values : S → Text → List Text
  values s url = map unquote (view s url)

  record Told (url : Text) (s : S) (a : Response B) : Type 0 where
    found :
        (b : DesecRrset)
        → is_success a.status ≡ true
        → reader.plain_reader.json a.body ≡ answered b
        → b.records ≡ view s url
    missing : (a.status == 404) ≡ true → view s url ≡ []

  tells :
      (url : Text) (s w : S)
      → Same view s w
      → (a : Response B) → (desec.send (plain get url) w).0 ≡ ok a
      → Told url s a
  tells url s w h a q = record {
    found = λ b y j. server.get_found url w a b q y j ∙ h url;
    missing = λ n. sym (h url) ∙ server.get_missing url w a q n;
  }

  shown-Same : (s s' : S) → Same view s s' → Same values s s'
  shown-Same s s' h u = ap (map unquote) (h u)

  shown-Wrote :
      (url : Text) (after : List Text) (s s' : S)
      → Wrote view url (map quoted after) s s'
      → Wrote values url after s s'
  shown-Wrote url after s s' w = record {
    others = λ u n. ap (map unquote) (w.others u n);
    here = elim w.here [
      | inl e ↦ inl (ap (map unquote) e)
      | inr e ↦ inr (ap (map unquote) e ∙ unquote-all after)
    ];
  }

  values_of-Fetched :
      (url : Text) (s s' : S) (j : Reply DesecRrset)
      → Same view s s'
      → ((b : DesecRrset) → j ≡ answered b → b.records ≡ view s url)
      → Fetched values url s (values_of config encode reader j) s'
  unfolding values_of
  values_of-Fetched url s s' (failed e) h f = shown-Same s s' h
  values_of-Fetched url s s' (answered b) h f = (shown-Same s s' h, ap (map unquote) (f b refl))

  existing-Fetched :
      (zone rname url : Text) (s s' : S) (a : Response B)
      → Same view s s'
      → Told url s a
      → Fetched values url s (existing config encode reader zone rname a) s'
  unfolding existing
  existing-Fetched zone rname url s s' a h told = elim (Bool-cases (a.status == 404)) [
    | inl n ↦ simp n (shown-Same s s' h, sym (ap (map unquote) (told.missing n)))
    | inr n ↦ elim (Bool-cases (is_success a.status)) [
      | inl y ↦
          simp (n, y)
            (values_of-Fetched url s s' (reader.plain_reader.json a.body) h
              (λ b j. told.found b y j))
      | inr y ↦ simp (n, y) (shown-Same s s' h)
    ]
  ]

  fetch_existing-Fetched :
      (zone rname : Text) (s : S)
      → let done = fetch_existing config encode desec reader zone rname s in
        Fetched values (rrset_url config encode zone rname) s done.0 done.1
  unfolding fetch_existing
  fetch_existing-Fetched zone rname s =
      let url = rrset_url config encode zone rname in
      >>=_rule (Read view desec (Told url s) s) (Fetched values url s)
        (send_retrying desec (plain get url))
        (λ response. lift (existing config encode reader zone rname response)) s
        (send_retrying-Read view desec server.steady (plain get url) (Told url s) s
          (server.get_same url) (tells url s))
        (λ e s' h. shown-Same s s' h) (λ a s' h. existing-Fetched zone rname url s s' a h.0 h.1)

  written-Changed :
      (zone url : Text) (after : List Text) (s s' : S) (a : Response B)
      → Sent view desec is_success url (map quoted after) s (ok a) s'
      → Changed values url after s (written config encode reader zone a) s'
  unfolding written
  written-Changed zone url after s s' a h = elim (Bool-cases (is_success a.status)) [
    | inl y ↦ simp y (shown-Wrote url after s s' h.0, ap (map unquote) (h.1 y) ∙ unquote-all after)
    | inr n ↦ simp n (shown-Wrote url after s s' h.0)
  ]

  write_values-Changed :
      (zone rname : Text) (ttl : ℕ)
      → is_empty rname ≡ false
      → (after : List Text) (s : S)
      → let done = write_values config encode desec reader zone rname ttl after s in
        Changed values (rrset_url config encode zone rname) after s done.0 done.1
  unfolding write_values
  write_values-Changed zone rname ttl named after s =
      let url = rrset_url config encode zone rname in
      let request = bulk_write (rrsets_url config encode zone) (subname_of rname) ttl after in
      >>=_rule (Sent view desec is_success url (map quoted after) s) (Changed values url after s)
        (send_retrying desec request)
        (λ response. lift (written config encode reader zone response)) s
        (send_retrying-Sent view desec server.steady request url (map quoted after) is_success s (
          subst
            (λ name.
              Writes view desec request (rrset_url config encode zone name) (map quoted after)
                is_success)
            (url_name-subname_of rname named)
            (server.writes zone (subname_of rname) ttl after (subname_not_apex rname))))
        (λ e s' h. shown-Wrote url after s s' h) (λ a s' h. written-Changed zone url after s s' a h)

  -- On a server that keeps the RRsets (the record `Server`), the part of `present` under the lock
  -- leaves every other RRset as it is, and the values of this one, without their quotes, as they
  -- are or with this one at their end; the value is among them if the call succeeds.
  pub add_value-Put :
      (zone : ResolvedZone) (rname value : Text) (s : S)
      → is_empty rname ≡ false
      → let done = add_value config encode desec reader zone rname value s in
        Added values itself itself (rrset_url config encode zone.name rname) value s done.0 done.1
  unfolding add_value
  add_value-Put zone rname value s named =
      add-Added values (rrset_url config encode zone.name rname)
        (fetch_existing config encode desec reader zone.name rname)
        (fetch_existing-Fetched zone.name rname)
        (write_values config encode desec reader zone.name rname zone.ttl)
        (write_values-Changed zone.name rname zone.ttl named) itself itself (λ v. refl) value s

  -- On a server that keeps the RRsets (the record `Server`), the part of `cleanup` under the lock
  -- leaves every other RRset as it is, and the values of this one, without their quotes, as they
  -- are or without exactly this value; it is gone, and the others left, if the call succeeds.
  pub remove_value-Taken :
      (zone : ResolvedZone) (rname value : Text) (s : S)
      → is_empty rname ≡ false
      → let done = remove_value config encode desec reader zone rname value s in
        Removed values itself itself (rrset_url config encode zone.name rname) value s done.0 done.1
  unfolding remove_value
  remove_value-Taken zone rname value s named =
      take_away-Removed values (rrset_url config encode zone.name rname)
        (fetch_existing config encode desec reader zone.name rname)
        (fetch_existing-Fetched zone.name rname)
        (write_values config encode desec reader zone.name rname zone.ttl)
        (write_values-Changed zone.name rname zone.ttl named) itself itself
        (λ v vs. not (any (shows itself v) vs)) (left-none itself) value s
