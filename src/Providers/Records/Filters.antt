-- ===== src/Providers/Records/Filters.antt =====
-- Filters and tests of lists, for the records of src/providers.
use cheti.Prelude.{
  ◌≡◌, refl, inl, inr, Bool, true, ◌&&◌, Bool-cases, List, [], ◌∷◌, All, any, keep, arith,
}

module _ {R : Type 0} where
  pub keep-keep : (p q : R → Bool) (xs : List R) → keep p (keep q xs) ≡ keep (λ x. p x && q x) xs
  keep-keep p q [] = refl
  keep-keep p q (x ∷ xs) = ground (arith, keep-keep p q xs)

  pub keep_same : (p q : R → Bool) (xs : List R) → All (λ x. p x ≡ q x) xs → keep p xs ≡ keep q xs
  keep_same p q [] h = refl
  keep_same p q (x ∷ xs) h = ground (arith, h.0, keep_same p q xs h.1)

  pub keep-true : (p : R → Bool) (xs : List R) → All (λ x. p x ≡ true) xs → keep p xs ≡ xs
  keep-true p [] h = refl
  keep-true p (x ∷ xs) h = rw (h.0, keep-true p xs h.1) refl

  pub All-map : {P Q : R → Type 0} (xs : List R) → All P xs → ((x : R) → P x → Q x) → All Q xs
  All-map [] h f = tt
  All-map (x ∷ xs) h f = (f x h.0, All-map xs h.1 f)

  pub All_any :
      {P : R → Type 0} (p : R → Bool) (xs : List R)
      → All P xs
      → any p xs ≡ true
      → (x : R) × P x × (p x ≡ true)
  All_any p [] h e = cc
  All_any p (x ∷ xs) h e = elim (Bool-cases (p x)) [
    | inl y ↦ (x, h.0, y)
    | inr n ↦ let more : any p xs ≡ true = ground arith in All_any p xs h.1 more
  ]

module _ {R : Type 0} where
  pub any-keep :
      (q test : R → Bool) (xs : List R) → any q (keep test xs) ≡ any (λ x. test x && q x) xs
  any-keep q test [] = refl
  any-keep q test (x ∷ xs) = ground (arith, any-keep q test xs)

  pub All-zip : (P Q : R → Type 0) (xs : List R) → All P xs → All Q xs → All (λ x. P x × Q x) xs
  All-zip P Q [] h k = tt
  All-zip P Q (x ∷ xs) h k = ((h.0, k.0), All-zip P Q xs h.1 k.1)

  -- A test that an item passes is passed by an item.
  pub All_any_self : (xs : List R) → All (λ y. (q : R → Bool) → q y ≡ true → any q xs ≡ true) xs
  All_any_self [] = tt
  All_any_self (x ∷ xs) =
      (λ q h. rw h refl, All-map xs (All_any_self xs) (λ y h q e. ground (arith, h q e)))

  pub All-both :
      (P : R → Type 0) (xs : List R) (test : R → Bool)
      → All P xs
      → All (λ x. (test x ≡ true) × P x) (keep test xs)
  All-both P [] test h = tt
  All-both P (x ∷ xs) test h = elim (Bool-cases (test x)) [
    | inl y ↦ rw y ((y, h.0), All-both P xs test h.1)
    | inr n ↦ rw n (All-both P xs test h.1)
  ]

-- Whatever test some of `ds` pass, some of `ms` pass too.
abbrev pub Within : {R : Type 0} → List R → List R → Type 0
Within {R} ds ms = (p : R → Bool) → any p ds ≡ true → any p ms ≡ true

pub Within-cons : {R : Type 0} (x : R) (ds ms : List R) → Within ds ms → Within (x ∷ ds) (x ∷ ms)
Within-cons x ds ms i p y = elim (Bool-cases (p x)) [
  | inl e ↦ rw e refl
  | inr n ↦ rw n (i p (rw n at y))
]
