-- ===== src/Providers/Gandi/Removed.antt =====
-- What `cleanup` of src/providers/gandi.rs does to the values of one name.
use cheti.Prelude.{
  ◌≡◌, ◌∙◌, sym, ap, ◌⊎◌, inl, inr, not, Bool-cases, if◌then◌else◌, Option, none, some, List, [],
  ◌∷◌, ◌==◌, keep, length, keep_all, ==_iff,
}
use cheti.Text.{Text}
use cheti.Error.{Result, ok, err}
use cheti.Exec.{Post, >>=_rule, pure}
use cheti.Common.Names.{PercentEncode}
use cheti.Common.Retry.{Transport}
use cheti.Providers.Http.{Reader}
use cheti.Providers.Gandi.{
  GandiConfig, TxtRecordBody, record_url, fetch_existing, write_remaining, remove_value,
}
use cheti.Providers.Writes.{Same, SameBut}
use cheti.Providers.Gandi.Server.{Stored, Server}
use cheti.Providers.Gandi.Calls.{
  values_at, Fetched, Written, fetch_existing_Fetched, put_values_Written, delete_record_Written,
}
use cheti.Providers.Gandi.Added.{shows}

-- The values that do not show `value`.
abbrev pub left : Text → List Text → List Text
left value = keep (λ v. not (shows value v))

module _ {S B : Type 0} (api : Transport S TxtRecordBody B) (reader : Reader B TxtRecordBody)
    (view : Stored S) (server : Server api reader view) (config : GandiConfig)
    (encode : PercentEncode) where
  -- One URL may have lost the values that show `value`; the others are as before.
  pub record Removed (url value : Text) (s s' : S) : Type 0 where
    pub others : SameBut view url s s'
    pub here :
        (view s' url ≡ view s url) ⊎ (values_at (view s' url) ≡ left value (values_at (view s url)))

  abbrev pub RemovedOk : Text → Text → S → Post S (Unit {0})
  RemovedOk url value s (err e) s' = Removed url value s s'
  RemovedOk url value s (ok u) s' =
      SameBut view url s s' × (values_at (view s' url) ≡ left value (values_at (view s url)))

  Removed-Same : (url value : Text) (s s' : S) → Same view s s' → Removed url value s s'
  Removed-Same url value s s' h = record { others = λ u n. h u; here = inl (h url) }

  write_RemovedOk :
      (url value : Text) (after : Option (List Text)) (s t s' : S) (r : Result (Unit {0}))
      → Same view s t
      → values_at after ≡ left value (values_at (view s url))
      → Written api reader view server url after t r s'
      → RemovedOk url value s r s'
  write_RemovedOk url value after s t s' (err e) h k w = record {
    others = λ u n. w.others u n ∙ h u;
    here = elim w.here [ inl x ↦ inl (x ∙ h url) | inr x ↦ inr (ap values_at x ∙ k) ];
  }
  write_RemovedOk url value after s t s' (ok u) h k w =
      (λ x n. w.0.others x n ∙ h x, ap values_at w.1 ∙ k)

  write_remaining_RemovedOk :
      (zone rname value : Text) (rest : List Text) (s t : S)
      → let url = record_url config encode zone rname in
        Same view s t
        → rest ≡ left value (values_at (view s url))
        → let done = write_remaining config encode api reader zone rname rest t in
          RemovedOk url value s done.0 done.1
  unfolding write_remaining
  write_remaining_RemovedOk zone rname value [] s t h e =
      write_RemovedOk (record_url config encode zone rname) value none s t _ _ h e
        (delete_record_Written api reader view server config encode zone rname t)
  write_remaining_RemovedOk zone rname value (v ∷ vs) s t h e =
      write_RemovedOk (record_url config encode zone rname) value (some (v ∷ vs)) s t _ _ h e
        (put_values_Written api reader view server config encode zone rname (v ∷ vs) t)

  remaining_RemovedOk :
      (zone rname value : Text) (vs : List Text) (s t : S)
      → let url = record_url config encode zone rname in
        Fetched api reader view server url s (ok vs) t
        → let done : Result (Unit {0}) × S =
            (if length (left value vs) == length vs
                then pure tt
                else write_remaining config encode api reader zone rname (left value vs))
              t in
          RemovedOk url value s done.0 done.1
  remaining_RemovedOk zone rname value vs s t (h, e) =
      let url = record_url config encode zone rname in
      elim (Bool-cases (length (left value vs) == length vs)) [
        | inl y ↦
            let all_left : left value vs ≡ vs =
              keep_all (λ v. not (shows value v)) vs ((==_iff _ _).0 y) in
            simp y (λ x n. h x, ap values_at (h url) ∙ sym e ∙ sym all_left ∙ ap (left value) e)
        | inr n ↦
            simp n
              (write_remaining_RemovedOk zone rname value (left value vs) s t h (ap (left value) e))
      ]

  -- The part of `cleanup` under the lock: if it succeeds, the values that show the challenge's are
  -- gone and the others are left, in order; if it fails, that has happened or nothing has.
  pub remove_value-RemovedOk :
      (zone rname value : Text) (s : S)
      → let done = remove_value config encode api reader zone rname value s in
        RemovedOk (record_url config encode zone rname) value s done.0 done.1
  unfolding remove_value
  remove_value-RemovedOk zone rname value s =
      let url = record_url config encode zone rname in
      >>=_rule (Fetched api reader view server url s) (RemovedOk url value s)
        (fetch_existing config encode api reader zone rname) _ s
        (fetch_existing_Fetched api reader view server config encode zone rname s)
        (λ e t h. Removed-Same url value s t h)
        (λ vs t h. remaining_RemovedOk zone rname value vs s t h)
