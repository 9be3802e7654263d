-- ===== src/Providers/Sets.antt =====
-- What the providers of src/providers share that read the values of a name and write them back as
-- a whole: what a read, a write, `present` and `cleanup` make true of the values. A value is stored
-- as its `entry`, and `of` is the value that a stored one shows.
pub mod Shown
pub mod Refined
use cheti.Prelude.{
  ◌≡◌, ◌∙◌, sym, ap, subst, inl, inr, Bool, true, not, Bool-cases, if◌then◌else◌, List, [], ◌∷◌,
  ◌++◌, any, keep,
}
use cheti.Text.{Text, text_eq}
use cheti.Error.{Result, ok, err}
use cheti.Exec.{Exec, Post, >>=_rule, ◌>>=◌, pure}
use cheti.Providers.Writes.{Same, Wrote, Wrote-then, Wrote-Same}
use cheti.Providers.Sets.Shown.{shows, left, any-entry}

module _ {S K : Type 0} (view : S → K → List Text) where
  abbrev pub Fetched : K → S → Post S (List Text)
  Fetched key s (err e) s' = Same view s s'
  Fetched key s (ok vs) s' = Same view s s' × (vs ≡ view s key)

  abbrev pub Changed : K → List Text → S → Post S (Unit {0})
  Changed key after s (err e) s' = Wrote view key after s s'
  Changed key after s (ok x) s' = Wrote view key after s s' × (view s' key ≡ after)

  module _ (of entry : Text → Text) where
    abbrev pub Added : K → Text → S → Post S (Unit {0})
    Added key value s (err e) s' = Wrote view key (view s key ++ (entry value ∷ [])) s s'
    Added key value s (ok x) s' =
        Wrote view key (view s key ++ (entry value ∷ [])) s s'
        × (any (shows of value) (view s' key) ≡ true)

    abbrev pub Removed : K → Text → S → Post S (Unit {0})
    Removed key value s (err e) s' = Wrote view key (left of value (view s key)) s s'
    Removed key value s (ok x) s' =
        Wrote view key (left of value (view s key)) s s'
        × (view s' key ≡ left of value (view s key))

  Changed-after :
      (key : K) (after : List Text) (s t s' : S) (r : Result (Unit {0}))
      → Same view s t
      → Changed key after t r s'
      → Changed key after s r s'
  Changed-after key after s t s' (err e) h c =
      Wrote-then view key after s t s' (Wrote-Same view key after s t h) c
  Changed-after key after s t s' (ok x) h c =
      (Wrote-then view key after s t s' (Wrote-Same view key after s t h) c.0, c.1)

  module _ (key : K) (fetch : Exec S (List Text))
      (fetches : (s : S) → Fetched key s (fetch s).0 (fetch s).1)
      (write : List Text → Exec S (Unit {0}))
      (writes : (vs : List Text) (s : S) → Changed key vs s (write vs s).0 (write vs s).1)
      (of entry : Text → Text) where
    Changed-Added :
        (of-entry : (v : Text) → of (entry v) ≡ v) (value : Text) (s s' : S) (r : Result (Unit {0}))
        → Changed key (view s key ++ (entry value ∷ [])) s r s'
        → Added of entry key value s r s'
    Changed-Added of-entry value s s' (err e) c = c
    Changed-Added of-entry value s s' (ok x) c =
        (c.0, ap (any (shows of value)) c.1 ∙ any-entry of entry of-entry value (view s key))

    Changed-Removed :
        (value : Text) (s s' : S) (r : Result (Unit {0}))
        → Changed key (left of value (view s key)) s r s'
        → Removed of entry key value s r s'
    Changed-Removed value s s' (err e) c = c
    Changed-Removed value s s' (ok x) c = c

    -- `present`: the values are read, and written with the value at their end, unless it is shown.
    abbrev pub add : Text → Exec S (Unit {0})
    add value = do
      values ← fetch
      if any (shows of value) values then pure tt else write (values ++ (entry value ∷ []))

    pub add-Added :
        (of-entry : (v : Text) → of (entry v) ≡ v) (value : Text) (s : S)
        → Added of entry key value s (add value s).0 (add value s).1
    add-Added of-entry value s =
        >>=_rule (Fetched key s) (Added of entry key value s) fetch _ s (fetches s)
          (λ e t h. Wrote-Same view key _ s t h)
          (λ vs t h. elim (Bool-cases (any (shows of value) vs)) [
            | inl y ↦
                rw y
                  (Wrote-Same view key _ s t h.0, ap (any (shows of value)) (h.0 key ∙ sym h.1) ∙ y)
            | inr n ↦ rw n (
                Changed-Added of-entry value s _ _ (
                  Changed-after key _ s t _ _ h.0 (
                    subst
                      (λ us.
                        Changed key (us ++ (entry value ∷ [])) t
                          (write (vs ++ (entry value ∷ [])) t).0
                          (write (vs ++ (entry value ∷ [])) t).1)
                      h.1 (writes (vs ++ (entry value ∷ [])) t))))
          ])

    -- `cleanup`: the values are read, and those left are written, unless all are kept.
    abbrev pub take_away : (Text → List Text → Bool) → Text → Exec S (Unit {0})
    take_away all_kept value = do
      values ← fetch
      if all_kept value values then pure tt else write (left of value values)

    pub take_away-Removed :
        (all_kept : Text → List Text → Bool)
        (kept : (v : Text) (vs : List Text) → all_kept v vs ≡ true → left of v vs ≡ vs)
        (value : Text) (s : S)
        → Removed of entry key value s (take_away all_kept value s).0 (take_away all_kept value s).1
    take_away-Removed all_kept kept value s =
        >>=_rule (Fetched key s) (Removed of entry key value s) fetch _ s (fetches s)
          (λ e t h. Wrote-Same view key _ s t h)
          (λ vs t h. elim (Bool-cases (all_kept value vs)) [
            | inl y ↦ rw y (
              Wrote-Same view key _ s t h.0,
              h.0 key ∙ sym h.1 ∙ sym (kept value vs y) ∙ ap (left of value) h.1,
            )
            | inr n ↦ rw n (
                Changed-Removed value s _ _ (
                  Changed-after key _ s t _ _ h.0 (
                    subst
                      (λ us.
                        Changed key (left of value us) t (write (left of value vs) t).0
                          (write (left of value vs) t).1)
                      h.1 (writes (left of value vs) t))))
          ])
