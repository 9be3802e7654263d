-- ===== src/Providers/Gandi/Refined.antt =====
-- The calls of src/providers/gandi.rs under the lock keep to the contract of a provider.
use cheti.Prelude.{refl, ap, inl, inr, Bool, List, [], ◌∷◌, ◌++◌, any}
use cheti.Text.{Text, text_eq}
use cheti.Text.Trim.{quoted}
use cheti.Error.{Result, ok, err}
use cheti.Common.Names.{PercentEncode}
use cheti.Common.Retry.{Transport}
use cheti.Providers.Http.{Reader}
use cheti.Providers.Writes.{Wrote}
use cheti.Providers.Contract.{Call, Provider, run, Replayed, run-Replayed}
use cheti.Providers.Sets.{Added as SetAdded, Removed as SetRemoved}
use cheti.Providers.Sets.Refined.{text_key, keeps_contract}
use cheti.Providers.Gandi.{GandiConfig, TxtRecordBody, unquote, record_url, add_value, remove_value}
use cheti.Providers.Gandi.Server.{Stored, Server}
use cheti.Providers.Gandi.Calls.{values_at}
use cheti.Providers.Gandi.Added.{shows, unquote-quoted, Added, AddedOk, add_value-AddedOk}
use cheti.Providers.Gandi.Removed.{RemovedOk, remove_value-RemovedOk}

module _ {S B : Type 0} (api : Transport S TxtRecordBody B) (reader : Reader B TxtRecordBody)
    (view : Stored S) (server : Server api reader view) (config : GandiConfig)
    (encode : PercentEncode) where
  -- A name is its zone and its relative name; the key is the URL.
  abbrev pub key : Text × Text → Text
  key n = record_url config encode n.0 n.1

  abbrev pub holds : S → Text → Text → Bool
  holds s k v = any (shows v) (values_at (view s k))

  abbrev pub present_at : Text × Text → Text → S → Result (Unit {0}) × S
  present_at n v s = add_value config encode api reader n.0 n.1 v s

  abbrev pub cleanup_at : Text × Text → Text → S → Result (Unit {0}) × S
  cleanup_at n v s = remove_value config encode api reader n.0 n.1 v s

  abbrev stored : S → Text → List Text
  stored s u = values_at (view s u)

  added_once :
      (url v : Text) (s s' : S)
      → Added api reader view server config encode url v s s'
      → Wrote stored url (stored s url ++ (quoted v ∷ [])) s s'
  added_once url v s s' a = record {
    others = λ k n. ap values_at (a.others k n);
    here = elim a.here [ inl e ↦ inl (ap values_at e) | inr e ↦ inr (ap values_at e) ];
  }

  added :
      (url v : Text) (s : S) (r : Result (Unit {0})) (s' : S)
      → AddedOk api reader view server config encode url v s r s'
      → SetAdded stored unquote quoted url v s r s'
  added url v s (err x) s' a = added_once url v s s' a
  added url v s (ok u) s' (a, shown) = (added_once url v s s' a, shown)

  removed :
      (url v : Text) (s : S) (r : Result (Unit {0})) (s' : S)
      → RemovedOk api reader view server config encode url v s r s'
      → SetRemoved stored unquote quoted url v s r s'
  removed url v s (err x) s' a = record {
    others = λ k n. ap values_at (a.others k n);
    here = elim a.here [ inl e ↦ inl (ap values_at e) | inr e ↦ inr e ];
  }
  removed url v s (ok u) s' (others, e) =
      (record { others = λ k n. ap values_at (others k n); here = inr e }, e)

  pub provider : Provider text_eq key holds present_at cleanup_at
  provider =
      keeps_contract text_key stored unquote quoted unquote-quoted key present_at cleanup_at
        (λ n v s.
          added (key n) v s _ _
            (add_value-AddedOk api reader view server config encode n.0 n.1 v s))
        (λ n v s.
          removed (key n) v s _ _
            (remove_value-RemovedOk api reader view server config encode n.0 n.1 v s))

  -- On a server that keeps the values by URL: after calls of `present` and `cleanup` (the parts
  -- under the lock) that all succeed, exactly those values are shown at each URL that a set gives
  -- to which `present` adds the value and from which `cleanup` takes it; where a call fails, the
  -- values that no call is about are as they were.
  pub run-refines :
      (calls : List (Call (Text × Text))) (s : S)
      → let done = run text_eq key holds present_at cleanup_at calls s in
        Replayed text_eq key holds present_at cleanup_at calls (holds s) done.0 done.1
  run-refines calls s =
      run-Replayed text_eq key holds present_at cleanup_at provider calls (holds s) s (λ k v. refl)
