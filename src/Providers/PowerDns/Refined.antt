-- ===== src/Providers/PowerDns/Refined.antt =====
-- The calls of src/providers/powerdns.rs under the lock keep to the contract of a provider.
use cheti.Prelude.{
  all, true, subst, ◌≡◌, ◌∙◌, sym, ap, inl, inr, Bool, Bool-cases, Option, List, any,
}
use cheti.Text.{Text}
use cheti.Text.Trim.{quoted}
use cheti.Error.{Result, ok, err}
use cheti.Common.Names.{PercentEncode}
use cheti.Common.Retry.{Transport}
use cheti.Providers.Writes.{Wrote}
use cheti.Providers.Contract.{
  Call, presents, cleans, Provider, perform, run, Replayed, run-Replayed, run-Keeps,
}
use cheti.Providers.Sets.{Added as SetAdded, Removed as SetRemoved}
use cheti.Providers.Sets.Shown.{left as left_of}
use cheti.Providers.Sets.Refined.{pair_key, holds, keeps_contract}
use cheti.Providers.Gandi.{unquote}
use cheti.Providers.Gandi.Added.{unquote-quoted}
use cheti.Providers.PowerDns.{PdnsPatch, PdnsReader, zone_path, url, add_value, remove_value}
use cheti.Providers.PowerDns.Config.{PowerDnsConfig}
use cheti.Providers.PowerDns.Server.{Rrset, Stored, Server}
use cheti.Providers.PowerDns.Served.{
  contents, contents-with_value, contents-left, any-contents, serves, enabled, any-serves,
  enabled-with_value, enabled-left,
}
use cheti.Providers.PowerDns.Changes.{
  records_at, without_value, records_at-without_value, Added, Removed, add_value-Added,
  remove_value-Removed,
}

module _ {S B : Type 0} (pdns : Transport S PdnsPatch B) (reader : PdnsReader B) (view : Stored S)
    (server : Server pdns reader view) (config : PowerDnsConfig) (encode : PercentEncode) where
  -- A name is its zone and the owner name.
  abbrev pub key : Text × Text → Text × Text
  key n = (url config encode (zone_path config encode n.0), n.1)

  abbrev pub stored : S → Text × Text → List Text
  stored s k = contents (records_at (view s k))

  abbrev pub present_at : Text × Text → Text → S → Result (Unit {0}) × S
  present_at n v s = add_value config encode pdns reader n.0 n.1 v s

  abbrev pub cleanup_at : Text × Text → Text → S → Result (Unit {0}) × S
  cleanup_at n v s = remove_value config encode pdns reader n.0 n.1 v s

  stored-Wrote :
      (k : Text × Text) (after : Option Rrset) (values : List Text) (s s' : S)
      → Wrote view k after s s'
      → contents (records_at after) ≡ values
      → Wrote stored k values s s'
  stored-Wrote k after values s s' w e = record {
    others = λ i n. ap (λ o. contents (records_at o)) (w.others i n);
    here = elim w.here [
      | inl p ↦ inl (ap (λ o. contents (records_at o)) p)
      | inr p ↦ inr (ap (λ o. contents (records_at o)) p ∙ e)
    ];
  }

  without_value-stored :
      (v : Text) (k : Text × Text) (s : S)
      → contents (records_at (without_value v (view s k))) ≡ left_of unquote v (stored s k)
  without_value-stored v k s =
      ap contents (records_at-without_value v (view s k)) ∙ contents-left v (records_at (view s k))

  added :
      (k : Text × Text) (v : Text) (s : S) (r : Result (Unit {0})) (s' : S)
      → Added pdns reader view server config encode k v (view s k) s r s'
      → SetAdded stored unquote quoted k v s r s'
  added k v s (err x) s' a = stored-Wrote k _ _ s s' a (contents-with_value config.ttl v (view s k))
  added k v s (ok u) s' (a, shown) = (
    stored-Wrote k _ _ s s' a (contents-with_value config.ttl v (view s k)),
    sym (any-contents v (records_at (view s' k))) ∙ shown,
  )

  removed :
      (k : Text × Text) (v : Text) (s : S) (r : Result (Unit {0})) (s' : S)
      → Removed pdns reader view server config encode k v (view s k) s r s'
      → SetRemoved stored unquote quoted k v s r s'
  removed k v s (err x) s' a = stored-Wrote k _ _ s s' a (without_value-stored v k s)
  removed k v s (ok u) s' (a, gone) = (
    stored-Wrote k _ _ s s' a (without_value-stored v k s),
    ap contents gone ∙ contents-left v (records_at (view s k)),
  )

  abbrev pub shown_at : S → Text × Text → Text → Bool
  shown_at = holds pair_key stored unquote quoted unquote-quoted key

  pub provider : Provider pair_key.key_eq key shown_at present_at cleanup_at
  provider =
      keeps_contract pair_key stored unquote quoted unquote-quoted key present_at cleanup_at
        (λ n v s.
          added (key n) v s _ _ (add_value-Added pdns reader view server config encode n.0 n.1 v s))
        (λ n v s.
          removed (key n) v s _ _
            (remove_value-Removed pdns reader view server config encode n.0 n.1 v s))

  -- No RRSet has a disabled record.
  abbrev pub AllEnabled : S → Type 0
  AllEnabled s = (k : Text × Text) → all enabled (records_at (view s k)) ≡ true

  Wrote-AllEnabled :
      (k : Text × Text) (after : Option Rrset) (s s' : S)
      → Wrote view k after s s'
      → all enabled (records_at after) ≡ true
      → AllEnabled s
      → AllEnabled s'
  Wrote-AllEnabled k after s s' w h i j = elim (Bool-cases (pair_key.key_eq j k)) [
    | inr n ↦
        ap (λ o. all enabled (records_at o))
          (w.others j (λ p. cc (n, ap (λ x. pair_key.key_eq x k) p, pair_key.own k)))
        ∙ i j
    | inl e ↦
        subst (λ x. all enabled (records_at (view s' x)) ≡ true) (sym (pair_key.sound j k e))
          (elim w.here [
            | inl p ↦ ap (λ o. all enabled (records_at o)) p ∙ i k
            | inr p ↦ ap (λ o. all enabled (records_at o)) p ∙ h
          ])
  ]

  added-AllEnabled :
      (k : Text × Text) (v : Text) (s : S) (r : Result (Unit {0})) (s' : S)
      → Added pdns reader view server config encode k v (view s k) s r s'
      → AllEnabled s
      → AllEnabled s'
  added-AllEnabled k v s (err x) s' a i =
      Wrote-AllEnabled k _ s s' a (enabled-with_value config.ttl v (view s k) (i k)) i
  added-AllEnabled k v s (ok u) s' a i =
      Wrote-AllEnabled k _ s s' a.0 (enabled-with_value config.ttl v (view s k) (i k)) i

  without-AllEnabled :
      (k : Text × Text) (v : Text) (s : S)
      → AllEnabled s
      → all enabled (records_at (without_value v (view s k))) ≡ true
  without-AllEnabled k v s i =
      ap (all enabled) (records_at-without_value v (view s k))
      ∙ enabled-left v (records_at (view s k)) (i k)

  removed-AllEnabled :
      (k : Text × Text) (v : Text) (s : S) (r : Result (Unit {0})) (s' : S)
      → Removed pdns reader view server config encode k v (view s k) s r s'
      → AllEnabled s
      → AllEnabled s'
  removed-AllEnabled k v s (err x) s' a i =
      Wrote-AllEnabled k _ s s' a (without-AllEnabled k v s i) i
  removed-AllEnabled k v s (ok u) s' a i =
      Wrote-AllEnabled k _ s s' a.0 (without-AllEnabled k v s i) i

  call-AllEnabled :
      (c : Call (Text × Text)) (s : S)
      → AllEnabled s
      → AllEnabled (perform pair_key.key_eq key shown_at present_at cleanup_at c s).1
  call-AllEnabled (presents n v) s =
      added-AllEnabled (key n) v s _ _
        (add_value-Added pdns reader view server config encode n.0 n.1 v s)
  call-AllEnabled (cleans n v) s =
      removed-AllEnabled (key n) v s _ _
        (remove_value-Removed pdns reader view server config encode n.0 n.1 v s)

  -- The server serves the value at the name: it has a record of it that is not disabled.
  abbrev pub served_at : S → Text × Text → Text → Bool
  served_at s k v = any (serves v) (records_at (view s k))

  served_Replayed :
      (calls : List (Call (Text × Text))) (values : Text × Text → Text → Bool)
      (r : Result (Unit {0})) (s : S)
      → AllEnabled s
      → Replayed pair_key.key_eq key shown_at present_at cleanup_at calls values r s
      → Replayed pair_key.key_eq key served_at present_at cleanup_at calls values r s
  served_Replayed calls values (ok u) s i h =
      λ k v. any-serves v (records_at (view s k)) (i k) ∙ h k v
  served_Replayed calls values (err e) s i h =
      λ k v n. any-serves v (records_at (view s k)) (i k) ∙ h k v n

  -- On a server that keeps the RRSets (the record `Server`), with no disabled record at the start:
  -- after calls of `present` and `cleanup` (the parts under the lock) that all succeed, exactly
  -- those values are served at each name, by records that are not disabled, that a set gives to
  -- which `present` adds the value and from which `cleanup` takes it; where a call fails, the values
  -- that no call is about are as they were.
  pub run-Replays :
      (calls : List (Call (Text × Text))) (s : S)
      → AllEnabled s
      → let done = run pair_key.key_eq key served_at present_at cleanup_at calls s in
        Replayed pair_key.key_eq key served_at present_at cleanup_at calls
          (served_at s)
          done.0
          done.1
  run-Replays calls s i =
      served_Replayed calls (served_at s) _ _
        (run-Keeps pair_key.key_eq key shown_at present_at cleanup_at AllEnabled call-AllEnabled
          calls s i)
        (run-Replayed pair_key.key_eq key shown_at present_at cleanup_at provider calls
          (served_at s) s (λ k v. sym (any-serves v (records_at (view s k)) (i k))))
