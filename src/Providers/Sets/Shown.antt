-- ===== src/Providers/Sets/Shown.antt =====
-- The values that a stored list shows, for the providers of src/providers that quote what they store
-- or do not.
use cheti.Prelude.{
  ◌≡◌, ◌∙◌, refl, sym, ap, inl, inr, Bool, true, false, not, ◌||◌, Bool-cases, List, [], ◌∷◌, ◌++◌,
  ◌==◌, ==_iff, arith, any, any-append, keep, keep_all, length,
}
use cheti.Text.{Text, text_eq}
use cheti.Text.Suffix.{text_eq_refl, text_eq_sound}

or_nothing : (b : Bool) → (b || false) ≡ b
or_nothing true = refl
or_nothing false = refl

module _ (of : Text → Text) where
  abbrev pub shows : Text → Text → Bool
  shows value v = text_eq (of v) value

  -- The stored values that do not show `value`.
  abbrev pub left : Text → List Text → List Text
  left value = keep (λ v. not (shows value v))

  -- The value `v` is another than `w`: adding or removing one does not touch the other.
  shows_other : (v w x : Text) → text_eq w v ≡ false → shows v x ≡ true → shows w x ≡ false
  shows_other v w x n h = elim (Bool-cases (shows w x)) [
    | inr e ↦ e
    | inl e ↦
        let same : w ≡ v = sym (text_eq_sound (of x) w e) ∙ text_eq_sound (of x) v h in
        let both : text_eq w v ≡ true = rw same (text_eq_refl v) in cc
  ]

  pub any-left_other :
      (v w : Text) (xs : List Text)
      → text_eq w v ≡ false
      → any (shows w) (left v xs) ≡ any (shows w) xs
  any-left_other v w [] n = refl
  any-left_other v w (x ∷ xs) n = elim (Bool-cases (shows v x)) [
    | inl e ↦ rw (e, shows_other v w x n e) (any-left_other v w xs n)
    | inr e ↦ rw e (ap (λ (b : Bool). shows w x || b) (any-left_other v w xs n))
  ]

  pub any-left_own : (v : Text) (xs : List Text) → any (shows v) (left v xs) ≡ false
  any-left_own v [] = refl
  any-left_own v (x ∷ xs) = elim (Bool-cases (shows v x)) [
    | inl e ↦ rw e (any-left_own v xs)
    | inr e ↦ rw e (rw e (any-left_own v xs))
  ]

  -- Without a stored value that shows `value`, all are left.
  pub left-none : (v : Text) (xs : List Text) → not (any (shows v) xs) ≡ true → left v xs ≡ xs
  left-none v [] h = refl
  left-none v (x ∷ xs) h = elim (Bool-cases (shows v x)) [
    | inl e ↦ cc (rw e at h)
    | inr e ↦ rw e (ap (λ ys. x ∷ ys) (left-none v xs (rw e at h)))
  ]

  pub left_as_long :
      (v : Text) (xs : List Text) → (length (left v xs) == length xs) ≡ true → left v xs ≡ xs
  left_as_long v xs h = keep_all (λ x. not (shows v x)) xs ((==_iff _ _).0 h)

  module _ (entry : Text → Text) (of-entry : (v : Text) → of (entry v) ≡ v) where
    pub any-entry : (v : Text) (xs : List Text) → any (shows v) (xs ++ (entry v ∷ [])) ≡ true
    any-entry v [] = simp (of-entry v, text_eq_refl v) refl
    any-entry v (x ∷ xs) = ground (arith, any-entry v xs)

    pub any-entry_other :
        (v w : Text) (xs : List Text)
        → text_eq w v ≡ false
        → any (shows w) (xs ++ (entry v ∷ [])) ≡ any (shows w) xs
    any-entry_other v w xs n =
        let own : shows v (entry v) ≡ true = rw (of-entry v) (text_eq_refl v) in
        let other : shows w (entry v) ≡ false = shows_other v w (entry v) n own in
        any-append (shows w) xs (entry v ∷ []) ∙ rw other (or_nothing (any (shows w) xs))
