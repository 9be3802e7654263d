-- ===== src/Providers/Gandi/Added.antt =====
-- What `present` of src/providers/gandi.rs does to the values of one name.
use cheti.Prelude.{
  ◌≡◌, ◌∙◌, refl, sym, ap, ◌⊎◌, inl, inr, Bool, true, Bool-cases, if◌then◌else◌, some, List, [],
  ◌∷◌, ◌++◌, arith, any,
}
use cheti.Text.{Text, text_eq, strip_prefix}
use cheti.Text.Suffix.{text_eq_refl, strip_suffix-append}
use cheti.Text.Trim.{quoted, trim-quoted}
use cheti.Error.{Result, ok, err}
use cheti.Exec.{Post, >>=_rule, pure}
use cheti.Common.Names.{PercentEncode}
use cheti.Common.Retry.{Transport}
use cheti.Providers.Http.{Reader}
use cheti.Providers.Gandi.{
  GandiConfig, TxtRecordBody, unquote, record_url, fetch_existing, put_values, add_value,
}
use cheti.Providers.Writes.{Same, SameBut, Wrote}
use cheti.Providers.Gandi.Server.{Stored, Server}
use cheti.Providers.Gandi.Calls.{
  values_at, Fetched, Written, fetch_existing_Fetched, put_values_Written,
}

-- A value is read back from the quotes that `present` puts around it.
pub unquote-quoted : (value : Text) → unquote (quoted value) ≡ value
unfolding unquote strip_prefix
unquote-quoted value = rw (trim-quoted value, strip_suffix-append value (b'"' ∷ [])) refl

abbrev pub shows : Text → Text → Bool
shows value v = text_eq (unquote v) value

module _ {S B : Type 0} (api : Transport S TxtRecordBody B) (reader : Reader B TxtRecordBody)
    (view : Stored S) (server : Server api reader view) (config : GandiConfig)
    (encode : PercentEncode) where
  -- One URL may have gained `value`, after the values that it had; the others are as before.
  pub record Added (url value : Text) (s s' : S) : Type 0 where
    pub others : SameBut view url s s'
    pub here :
        (view s' url ≡ view s url)
        ⊎ (view s' url ≡ some (values_at (view s url) ++ (quoted value ∷ [])))

  abbrev pub AddedOk : Text → Text → S → Post S (Unit {0})
  AddedOk url value s (err e) s' = Added url value s s'
  AddedOk url value s (ok u) s' =
      Added url value s s' × (any (shows value) (values_at (view s' url)) ≡ true)

  any-quoted :
      (value : Text) (vs : List Text) → any (shows value) (vs ++ (quoted value ∷ [])) ≡ true
  any-quoted value [] = simp (unquote-quoted value, text_eq_refl value) refl
  any-quoted value (v ∷ vs) = ground (arith, any-quoted value vs)

  Added-Same : (url value : Text) (s s' : S) → Same view s s' → Added url value s s'
  Added-Same url value s s' h = record { others = λ u n. h u; here = inl (h url) }

  Added-Wrote :
      (url value : Text) (vs : List Text) (s t s' : S)
      → Same view s t
      → vs ≡ values_at (view s url)
      → Wrote view url (some (vs ++ (quoted value ∷ []))) t s'
      → Added url value s s'
  Added-Wrote url value vs s t s' h e w = record {
    others = λ u n. w.others u n ∙ h u;
    here = elim w.here [
      | inl x ↦ inl (x ∙ h url)
      | inr x ↦ inr (x ∙ ap (λ (l : List Text). some (l ++ (quoted value ∷ []))) e)
    ];
  }

  put_AddedOk :
      (url value : Text) (vs : List Text) (s t s' : S) (r : Result (Unit {0}))
      → Same view s t
      → vs ≡ values_at (view s url)
      → Written api reader view server url (some (vs ++ (quoted value ∷ []))) t r s'
      → AddedOk url value s r s'
  put_AddedOk url value vs s t s' (err e) h k w = Added-Wrote url value vs s t s' h k w
  put_AddedOk url value vs s t s' (ok u) h k w =
      (Added-Wrote url value vs s t s' h k w.0, rw w.1 (any-quoted value vs))

  add_AddedOk :
      (zone rname value : Text) (vs : List Text) (s t : S)
      → let url = record_url config encode zone rname in
        Fetched api reader view server url s (ok vs) t
        → let done : Result (Unit {0}) × S =
            (if any (shows value) vs
                then pure tt
                else put_values config encode api reader zone rname (vs ++ (quoted value ∷ [])))
              t in
          AddedOk url value s done.0 done.1
  add_AddedOk zone rname value vs s t (h, e) =
      let url = record_url config encode zone rname in
      elim (Bool-cases (any (shows value) vs)) [
        | inl y ↦ simp y (Added-Same url value s t h, rw (h url, sym e) y)
        | inr n ↦ simp n (
            put_AddedOk url value vs s t _ _ h e (
              put_values_Written api reader view server config encode zone rname
                (vs ++ (quoted value ∷ [])) t))
      ]

  -- The part of `present` under the lock: the value is shown afterwards if it succeeds, and all
  -- other values stay, also if it fails.
  pub add_value-AddedOk :
      (zone rname value : Text) (s : S)
      → let done = add_value config encode api reader zone rname value s in
        AddedOk (record_url config encode zone rname) value s done.0 done.1
  unfolding add_value
  add_value-AddedOk zone rname value s =
      let url = record_url config encode zone rname in
      >>=_rule (Fetched api reader view server url s) (AddedOk url value s)
        (fetch_existing config encode api reader zone rname) _ s
        (fetch_existing_Fetched api reader view server config encode zone rname s)
        (λ e t h. Added-Same url value s t h) (λ vs t h. add_AddedOk zone rname value vs s t h)
