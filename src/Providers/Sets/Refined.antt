-- ===== src/Providers/Sets/Refined.antt =====
-- The providers of src/providers whose calls are those of Providers/Sets keep to the contract of a
-- provider.
use cheti.Prelude.{
  ◌≡◌, ◌∙◌, refl, sym, ap, subst, inl, inr, Bool, true, false, ◌&&◌, Bool-cases, List, any,
  &&-eq_true,
}
use cheti.Text.{Text, text_eq}
use cheti.Text.Suffix.{text_eq_refl, text_eq_sound}
use cheti.Error.{Result, ok, err}
use cheti.Exec.{Exec}
use cheti.Providers.Writes.{Wrote}
use cheti.Providers.Contract.{Call, presents, cleans, is_entry, Does, Provider, perform}
use cheti.Providers.Sets.{Added, Removed}
use cheti.Providers.Sets.Shown.{shows, any-left_other, any-left_own, any-entry_other}

-- A test of the keys of a store.
pub record KeyTest (K : Type 0) : Type 0 where
  pub key_eq : K → K → Bool
  pub sound : (a b : K) → key_eq a b ≡ true → a ≡ b
  pub own : (a : K) → key_eq a a ≡ true

abbrev pub text_key : KeyTest Text
text_key = record { key_eq = text_eq; sound = text_eq_sound; own = text_eq_refl }

pub pair_sound : (a b : Text × Text) → (text_eq a.0 b.0 && text_eq a.1 b.1) ≡ true → a ≡ b
pair_sound (a, x) (b, y) h =
    let both = &&-eq_true (text_eq a b) (text_eq x y) h in
    cc (text_eq_sound a b both.0, text_eq_sound x y both.1)

pub pair_own : (a : Text × Text) → (text_eq a.0 a.0 && text_eq a.1 a.1) ≡ true
pair_own a = rw (text_eq_refl a.0, text_eq_refl a.1) refl

abbrev pub pair_key : KeyTest (Text × Text)
pair_key = record {
  key_eq = λ a b. text_eq a.0 b.0 && text_eq a.1 b.1;
  sound = pair_sound;
  own = pair_own;
}

module _ {S K N : Type 0} (test : KeyTest K) (view : S → K → List Text) (of entry : Text → Text)
    (of-entry : (v : Text) → of (entry v) ≡ v) (key : N → K) where
  abbrev pub holds : S → K → Text → Bool
  holds s k v = any (shows of v) (view s k)

  -- Every entry but that of `v` at `url`, where each other key is as it was.
  other_entries :
      (a : K) (v : Text) (after : List Text) (s s' : S)
      → Wrote view a after s s'
      → ((w : Text) → text_eq w v ≡ false → any (shows of w) after ≡ holds s a w)
      → (k : K) (w : Text) → is_entry test.key_eq a v k w ≡ false
      → holds s' k w ≡ holds s k w
  other_entries a v after s s' wrote same k w n = elim (Bool-cases (test.key_eq k a)) [
    | inr e ↦
        ap (any (shows of w))
          (wrote.others k (λ p. cc (e, subst (λ (u : K). test.key_eq k u ≡ true) p (test.own k))))
    | inl e ↦
        subst (λ (u : K). holds s' u w ≡ holds s u w) (sym (test.sound k a e))
          (elim wrote.here [
            | inl q ↦ ap (any (shows of w)) q
            | inr q ↦ ap (any (shows of w)) q ∙ same w (rw e at n)
          ])
  ]

  -- The entry itself, once the call has succeeded.
  own_entry :
      (a k : K) (v w : Text) (s' : S) (b : Bool)
      → is_entry test.key_eq a v k w ≡ true
      → holds s' a v ≡ b
      → holds s' k w ≡ b
  own_entry a k v w s' b e h =
      let (p, q) = &&-eq_true (test.key_eq k a) (text_eq w v) e in
      rw (test.sound k a p, text_eq_sound w v q) h

  added-Does :
      (n : N) (v : Text) (s : S) (r : Result (Unit {0})) (s' : S)
      → Added view of entry (key n) v s r s'
      → Does test.key_eq key holds (presents n v) s r s'
  added-Does n v s (err x) s' a =
      other_entries (key n) v _ s s' a
        (λ w d. any-entry_other of entry of-entry v w (view s (key n)) d)
  added-Does n v s (ok u) s' (a, shown) = λ k w.
      elim (Bool-cases (is_entry test.key_eq (key n) v k w)) [
        | inl e ↦ rw e (own_entry (key n) k v w s' true e shown)
        | inr e ↦ rw e (
            other_entries (key n) v _ s s' a
              (λ x d. any-entry_other of entry of-entry v x (view s (key n)) d) k w e)
      ]

  removed-Does :
      (n : N) (v : Text) (s : S) (r : Result (Unit {0})) (s' : S)
      → Removed view of entry (key n) v s r s'
      → Does test.key_eq key holds (cleans n v) s r s'
  removed-Does n v s (err x) s' a =
      other_entries (key n) v _ s s' a (λ w d. any-left_other of v w (view s (key n)) d)
  removed-Does n v s (ok u) s' (a, gone) = λ k w.
      elim (Bool-cases (is_entry test.key_eq (key n) v k w)) [
        | inl e ↦ rw e (
            own_entry (key n) k v w s' false e
              (ap (any (shows of v)) gone ∙ any-left_own of v (view s (key n))))
        | inr e ↦ rw e (
            other_entries (key n) v _ s s' a (λ x d. any-left_other of v x (view s (key n)) d) k w
              e)
      ]

  -- A provider whose `present` adds and whose `cleanup` removes keeps to the contract.
  pub keeps_contract :
      (present cleanup : N → Text → Exec S (Unit {0}))
      → ((n : N) (v : Text) (s : S)
          → Added view of entry (key n) v s (present n v s).0 (present n v s).1)
      → ((n : N) (v : Text) (s : S)
          → Removed view of entry (key n) v s (cleanup n v s).0 (cleanup n v s).1)
      → Provider test.key_eq key holds present cleanup
  keeps_contract present cleanup adds removes = record { does = does }
    where
      does :
          (c : Call N) (s : S)
          → let done = perform test.key_eq key holds present cleanup c s in
            Does test.key_eq key holds c s done.0 done.1
      does (presents n v) s = added-Does n v s _ _ (adds n v s)
      does (cleans n v) s = removed-Does n v s _ _ (removes n v s)
