-- ===== src/Providers/PowerDns/Changes.antt =====
-- What `present` and `cleanup` of src/providers/powerdns.rs do to the RRSet of a name.
use mathlib.Core.Option
use cheti.Prelude.{
  ℕ, ◌≡◌, ◌∙◌, refl, sym, ap, subst, inl, inr, true, not, Bool-cases, Option, none, some, List, [],
  ◌∷◌, ◌++◌, ◌==◌, ==_iff, arith, any, keep, length, keep_all,
}
use cheti.Text.{Text}
use cheti.Text.Suffix.{text_eq_refl}
use cheti.Error.{Result, ok, err}
use cheti.Exec.{Post, >>=_rule}
use cheti.Common.Names.{PercentEncode}
use cheti.Common.Retry.{Transport}
use cheti.Providers.Gandi.Added.{unquote-quoted}
use cheti.Providers.Writes.{Same, Wrote, Wrote-then, Wrote-Same}
use cheti.Providers.PowerDns.{
  PdnsRecord, PdnsRrset, PdnsPatch, PdnsReader, replace, zone_path, url, fetch_rrset, shows_value,
  record_of, change_of, add_to, add_value, remove_from, remove_value,
}
use cheti.Providers.PowerDns.Config.{PowerDnsConfig}
use cheti.Providers.PowerDns.Server.{Rrset, rrset_data, Stored, result_of, Server}
use cheti.Providers.PowerDns.Calls.{Fetched, Changed, fetch_rrset-Fetched, patch_rrset-Changed}

abbrev pub records_at : Option Rrset → List PdnsRecord
records_at none = []
records_at (some (ttl, records)) = records

-- An RRSet with the value as well: a new one has the TTL that is given, an old one keeps its own.
abbrev pub with_value : ℕ → Text → Option Rrset → Option Rrset
with_value new_ttl value none = some (new_ttl, record_of value ∷ [])
with_value new_ttl value (some (ttl, records)) = some (ttl, records ++ (record_of value ∷ []))

-- The records that do not show the value, and an RRSet with only those; without any, there is none.
abbrev pub left : Text → List PdnsRecord → List PdnsRecord
left value = keep (λ r. not (shows_value value r))

abbrev pub without_value : Text → Option Rrset → Option Rrset
without_value value none = none
without_value value (some (ttl, records)) = result_of (change_of ttl (left value records))

any-record_of :
    (value : Text) (rs : List PdnsRecord)
    → any (shows_value value) (rs ++ (record_of value ∷ [])) ≡ true
any-record_of value [] = simp (unquote-quoted value, text_eq_refl value) refl
any-record_of value (r ∷ rs) = ground (arith, any-record_of value rs)

any-with_value :
    (ttl : ℕ) (value : Text) (v : Option Rrset)
    → any (shows_value value) (records_at (with_value ttl value v)) ≡ true
any-with_value ttl value none = any-record_of value []
any-with_value ttl value (some (t, rs)) = any-record_of value rs

records_at-change :
    (ttl : ℕ) (rs : List PdnsRecord) → records_at (result_of (change_of ttl rs)) ≡ rs
records_at-change ttl [] = refl
records_at-change ttl (r ∷ rs) = refl

pub records_at-without_value :
    (value : Text) (v : Option Rrset)
    → records_at (without_value value v) ≡ left value (records_at v)
records_at-without_value value none = refl
records_at-without_value value (some (t, rs)) = records_at-change t (left value rs)

module _ {S B : Type 0} (pdns : Transport S PdnsPatch B) (reader : PdnsReader B) (view : Stored S)
    (server : Server pdns reader view) (config : PowerDnsConfig) (encode : PercentEncode) where
  abbrev at : Text → Text
  at zone = url config encode (zone_path config encode zone)

  -- With `v` the RRSet before: afterwards the RRSet is as before or has the value too, and the
  -- value is shown where the call succeeds.
  abbrev pub Added : Text × Text → Text → Option Rrset → S → Post S (Unit {0})
  Added key value v s (err e) s' = Wrote view key (with_value config.ttl value v) s s'
  Added key value v s (ok x) s' =
      Wrote view key (with_value config.ttl value v) s s'
      × (any (shows_value value) (records_at (view s' key)) ≡ true)

  Changed-Added :
      (zone name value : Text) (v : Option Rrset) (s t s' : S) (r : Result (Unit {0}))
      → Same view s t
      → Changed pdns reader view server config encode
          (at zone)
          name
          (with_value config.ttl value v)
          t
          r
          s'
      → Added (at zone, name) value v s r s'
  Changed-Added zone name value v s t s' (err e) h c =
      Wrote-then view (at zone, name) _ s t s' (Wrote-Same view (at zone, name) _ s t h) c
  Changed-Added zone name value v s t s' (ok x) h c = (
    Wrote-then view (at zone, name) _ s t s' (Wrote-Same view (at zone, name) _ s t h) c.0,
    ap (λ o. any (shows_value value) (records_at o)) c.1 ∙ any-with_value config.ttl value v,
  )

  add_to-Added :
      (zone name value : Text) (o : Option PdnsRrset) (s t : S)
      → Same view s t
      → Option.map rrset_data o ≡ view s (at zone, name)
      → let done = add_to config encode pdns reader zone name value o t in
        Added (at zone, name) value (Option.map rrset_data o) s done.0 done.1
  unfolding add_to
  add_to-Added zone name value none s t h e = Changed-Added zone name value none s t _ _ h (
      patch_rrset-Changed pdns reader view server config encode zone name
        (replace config.ttl (record_of value ∷ [])) t)
  add_to-Added zone name value (some r) s t h e =
      elim (Bool-cases (any (shows_value value) r.records)) [
        | inl y ↦ simp y (
          Wrote-Same view (at zone, name) _ s t h,
          ap (λ v. any (shows_value value) (records_at v)) (h (at zone, name) ∙ sym e) ∙ y,
        )
        | inr n ↦ simp n (
            Changed-Added zone name value (some (rrset_data r)) s t _ _ h (
              patch_rrset-Changed pdns reader view server config encode zone name
                (replace r.ttl (r.records ++ (record_of value ∷ []))) t))
      ]

  -- On a server that keeps the RRSets (the record `Server`), the part of `present` under the lock
  -- leaves every other RRSet as it is, and this one keeps its TTL and its records and gains the
  -- value's at most; the value is shown if the call succeeds.
  pub add_value-Added :
      (zone name value : Text) (s : S)
      → let key : Text × Text = (url config encode (zone_path config encode zone), name) in
        let done = add_value config encode pdns reader zone name value s in
        Added key value (view s key) s done.0 done.1
  unfolding add_value
  add_value-Added zone name value s =
      >>=_rule (Fetched pdns reader view server (at zone) name s)
        (Added (at zone, name) value (view s (at zone, name)) s)
        (fetch_rrset config encode pdns reader zone name)
        (add_to config encode pdns reader zone name value) s
        (fetch_rrset-Fetched pdns reader view server config encode zone name s)
        (λ e t h. Wrote-Same view (at zone, name) _ s t h)
        (λ o t h.
          subst
            (λ v.
              Added (at zone, name) value v s
                (add_to config encode pdns reader zone name value o t).0
                (add_to config encode pdns reader zone name value o t).1)
            h.1 (add_to-Added zone name value o s t h.0 h.1))

  -- With `v` the RRSet before: afterwards the RRSet is as before or without the value, and where
  -- the call succeeds its records are those left.
  abbrev pub Removed : Text × Text → Text → Option Rrset → S → Post S (Unit {0})
  Removed key value v s (err e) s' = Wrote view key (without_value value v) s s'
  Removed key value v s (ok x) s' =
      Wrote view key (without_value value v) s s'
      × (records_at (view s' key) ≡ left value (records_at v))

  Changed-Removed :
      (zone name value : Text) (v : Option Rrset) (s t s' : S) (r : Result (Unit {0}))
      → Same view s t
      → Changed pdns reader view server config encode (at zone) name (without_value value v) t r s'
      → Removed (at zone, name) value v s r s'
  Changed-Removed zone name value v s t s' (err e) h c =
      Wrote-then view (at zone, name) _ s t s' (Wrote-Same view (at zone, name) _ s t h) c
  Changed-Removed zone name value v s t s' (ok x) h c = (
    Wrote-then view (at zone, name) _ s t s' (Wrote-Same view (at zone, name) _ s t h) c.0,
    ap records_at c.1 ∙ records_at-without_value value v,
  )

  remove_from-Removed :
      (zone name value : Text) (o : Option PdnsRrset) (s t : S)
      → Same view s t
      → Option.map rrset_data o ≡ view s (at zone, name)
      → let done = remove_from config encode pdns reader zone name value o t in
        Removed (at zone, name) value (Option.map rrset_data o) s done.0 done.1
  unfolding remove_from
  remove_from-Removed zone name value none s t h e =
      (Wrote-Same view (at zone, name) _ s t h, ap records_at (h (at zone, name) ∙ sym e))
  remove_from-Removed zone name value (some r) s t h e =
      let remaining = left value r.records in
      elim (Bool-cases (length remaining == length r.records)) [
        | inl y ↦
            let all_left : remaining ≡ r.records =
              keep_all (λ x. not (shows_value value x)) r.records
                ((==_iff (length remaining) (length r.records)).0 y) in
            simp y (
              Wrote-Same view (at zone, name) _ s t h,
              ap records_at (h (at zone, name) ∙ sym e) ∙ sym all_left,
            )
        | inr n ↦ simp n (
            Changed-Removed zone name value (some (rrset_data r)) s t _ _ h (
              patch_rrset-Changed pdns reader view server config encode zone name
                (change_of r.ttl remaining) t))
      ]

  pub remove_value-Removed :
      (zone name value : Text) (s : S)
      → let key : Text × Text = (url config encode (zone_path config encode zone), name) in
        let done = remove_value config encode pdns reader zone name value s in
        Removed key value (view s key) s done.0 done.1
  unfolding remove_value
  remove_value-Removed zone name value s =
      >>=_rule (Fetched pdns reader view server (at zone) name s)
        (Removed (at zone, name) value (view s (at zone, name)) s)
        (fetch_rrset config encode pdns reader zone name)
        (remove_from config encode pdns reader zone name value) s
        (fetch_rrset-Fetched pdns reader view server config encode zone name s)
        (λ e t h. Wrote-Same view (at zone, name) _ s t h)
        (λ o t h.
          subst
            (λ v.
              Removed (at zone, name) value v s
                (remove_from config encode pdns reader zone name value o t).0
                (remove_from config encode pdns reader zone name value o t).1)
            h.1 (remove_from-Removed zone name value o s t h.0 h.1))
