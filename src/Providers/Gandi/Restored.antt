-- ===== src/Providers/Gandi/Restored.antt =====
-- `present` and `cleanup` of src/providers/gandi.rs, one after the other.
use cheti.Prelude.{
  ◌≡◌, ◌∙◌, refl, ap, subst, inl, inr, false, not, List, [], ◌∷◌, ◌++◌, any, arith, keep-append,
}
use mathlib.Core.List.{append-nil}
use cheti.Text.{Text}
use cheti.Text.Suffix.{text_eq_refl}
use cheti.Text.Trim.{quoted}
use cheti.Error.{Result, ok}
use cheti.Common.Names.{PercentEncode}
use cheti.Common.Retry.{Transport}
use cheti.Providers.Http.{Reader}
use cheti.Providers.Gandi.{GandiConfig, TxtRecordBody, record_url, add_value, remove_value}
use cheti.Providers.Writes.{SameBut}
use cheti.Providers.Gandi.Server.{Stored, Server}
use cheti.Providers.Gandi.Calls.{values_at}
use cheti.Providers.Gandi.Added.{shows, unquote-quoted, AddedOk, add_value-AddedOk}
use cheti.Providers.Gandi.Removed.{left, RemovedOk, remove_value-RemovedOk}

left_all : (value : Text) (vs : List Text) → any (shows value) vs ≡ false → left value vs ≡ vs
left_all value [] h = refl
left_all value (v ∷ vs) h = ground (arith, left_all value vs)

left-append_quoted :
    (value : Text) (vs : List Text)
    → any (shows value) vs ≡ false
    → left value (vs ++ (quoted value ∷ [])) ≡ vs
left-append_quoted value vs h =
    keep-append (λ v. not (shows value v)) vs (quoted value ∷ [])
    ∙ (simp (left_all value vs h, unquote-quoted value, text_eq_refl value) (append-nil vs))

module _ {S B : Type 0} (api : Transport S TxtRecordBody B) (reader : Reader B TxtRecordBody)
    (view : Stored S) (server : Server api reader view) (config : GandiConfig)
    (encode : PercentEncode) where
  abbrev pub Back : Text → S → S → Type 0
  Back url s s2 = SameBut view url s s2 × (values_at (view s2 url) ≡ values_at (view s url))

  back :
      (url value : Text) (s s1 s2 : S)
      → any (shows value) (values_at (view s url)) ≡ false
      → AddedOk api reader view server config encode url value s (ok tt) s1
      → RemovedOk api reader view server config encode url value s1 (ok tt) s2
      → Back url s s2
  back url value s s1 s2 h a r = (
    λ u n. r.0 u n ∙ a.0.others u n,
    r.1 ∙ elim a.0.here [
      | inl x ↦ ap (λ o. left value (values_at o)) x ∙ left_all value (values_at (view s url)) h
      | inr x ↦
          ap (λ o. left value (values_at o)) x ∙ left-append_quoted value (values_at (view s url)) h
    ],
  )

  -- On a server that keeps the values by URL, the part of `present` and then that of `cleanup`
  -- under the lock, for the same value and both successful, leave the values of every URL as they
  -- were, where the value was not among those of this URL before.
  pub add-remove_value :
      (zone rname value : Text) (s s1 s2 : S)
      → any (shows value) (values_at (view s (record_url config encode zone rname))) ≡ false
      → add_value config encode api reader zone rname value s ≡ (ok tt, s1)
      → remove_value config encode api reader zone rname value s1 ≡ (ok tt, s2)
      → Back (record_url config encode zone rname) s s2
  add-remove_value zone rname value s s1 s2 h a r =
      let url = record_url config encode zone rname in
      back url value s s1 s2 h
        (subst
          (λ (d : Result (Unit {0}) × S).
            AddedOk api reader view server config encode url value s d.0 d.1)
          a (add_value-AddedOk api reader view server config encode zone rname value s))
        (subst
          (λ (d : Result (Unit {0}) × S).
            RemovedOk api reader view server config encode url value s1 d.0 d.1)
          r (remove_value-RemovedOk api reader view server config encode zone rname value s1))
