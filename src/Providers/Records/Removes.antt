-- ===== src/Providers/Records/Removes.antt =====
-- Deleting some records of a name, for src/providers/digitalocean.rs and
-- src/providers/cloudflare.rs.
use cheti.Prelude.{
  ◌≡◌, ◌≢◌, ◌∙◌, refl, sym, ap, subst, inl, inr, Bool, true, not, ◌&&◌, Bool-cases, if◌then◌else◌,
  List, [], ◌∷◌, All, any, keep,
}
use cheti.Text.{Text}
use cheti.Text.Suffix.{text_eq_refl}
use cheti.Error.{DnsError, Result, ok, err}
use cheti.Exec.{Exec, Post, >>=_rule}
use cheti.Providers.Writes.{SameBut, Same}
use cheti.Providers.Records.{Key, is_at, without, Distinct, delete_each}
use cheti.Providers.Records.Filters.{
  keep-keep, keep_same, keep-true, All-map, All_any, any-keep, All_any_self, All-both, All-zip,
  Within, Within-cons,
}
use cheti.Providers.Records.Deleted.{AtMost, Without, Gone}

module _ {S R : Type 0} (view : S → Key → List R) where
  -- The records of other names are as before; those of this one that do not match are left, in
  -- their order, and those that match are gone if the call succeeds.
  abbrev pub Removed : (R → Bool) → Key → S → Post S (Unit {0})
  Removed matches key s (err e) s' =
      SameBut view key s s'
      × (keep (λ y. not (matches y)) (view s' key) ≡ keep (λ y. not (matches y)) (view s key))
  Removed matches key s (ok u) s' =
      SameBut view key s s' × (view s' key ≡ keep (λ y. not (matches y)) (view s key))

  pub Removed-after :
      (matches : R → Bool) (key : Key) (s t : S) (r : Result (Unit {0})) (u : S)
      → Same view s t
      → Removed matches key t r u
      → Removed matches key s r u
  Removed-after matches key s t (err e) u h p =
      (λ k n. p.0 k n ∙ h k, p.1 ∙ ap (keep (λ y. not (matches y))) (h key))
  Removed-after matches key s t (ok v) u h p =
      (λ k n. p.0 k n ∙ h k, p.1 ∙ ap (keep (λ y. not (matches y))) (h key))

pub Distinct-Same :
    {S R : Type 0} (view : S → Key → List R) (item : Key → R → Text) (s t : S)
    → Same view s t
    → Distinct view item s
    → Distinct view item t
Distinct-Same {R = R} view item s t h d k k' =
    let clash : R → R → Type 0 =
      λ y x. is_at view item k (item k' x) y ≡ true → (k ≡ k') × (y ≡ x) in
    subst (λ (l : List R). All (λ y. All (clash y) (view t k')) l) (sym (h k))
      (subst (λ (l : List R). All (λ y. All (clash y) l) (view s k)) (sym (h k')) (d k k'))

module _ {S R : Type 0} (view : S → Key → List R) (item : Key → R → Text) where
  module _ (key : Key) where
    -- The records of `xs` without those at the URLs of `ds`.
    abbrev hit : Key → List R → R → Bool
    hit k ds y = any (λ x. is_at view item k (item key x) y) ds

    abbrev lose : Key → List R → List R → List R
    lose k ds = keep (λ y. not (hit k ds y))

    abbrev Lost : List R → S → Post S (Unit {0})
    Lost ms s (err e) s' =
        (k : Key) → (ds : List R) × Within ds ms × (view s' k ≡ lose k ds (view s k))
    Lost ms s (ok u) s' = (k : Key) → view s' k ≡ lose k ms (view s k)

    lose_none : (k : Key) (xs : List R) → xs ≡ lose k [] xs
    lose_none k [] = refl
    lose_none k (x ∷ xs) = ap (λ (l : List R). x ∷ l) (lose_none k xs)

    lose-without :
        (k : Key) (x : R) (ds xs : List R)
        → lose k ds (without view item (item key x) k xs) ≡ lose k (x ∷ ds) xs
    lose-without k x ds [] = refl
    lose-without k x ds (y ∷ ys) = elim (Bool-cases (is_at view item k (item key x) y)) [
      | inl e ↦ rw e (lose-without k x ds ys)
      | inr n ↦
          rw n (ap (λ (l : List R). if not (hit k ds y) then y ∷ l else l) (lose-without k x ds ys))
    ]

    module _ (matches : R → Bool) (call : R → Exec S (Unit {0}))
        (gone : (x : R) (s : S) → Gone view item (item key x) s (call x s).0 (call x s).1) where
      -- A record is deleted, and then others.
      then_Lost :
          (x : R) (xs : List R) (s t : S) (r : Result (Unit {0})) (u : S)
          → Without view item (item key x) s t
          → Lost (keep matches xs) t r u
          → Lost (x ∷ keep matches xs) s r u
      then_Lost x xs s t (err e) u w h = λ k.
          let (ds, i, l) = h k in
          (
            x ∷ ds,
            Within-cons x ds (keep matches xs) i,
            l ∙ ap (lose k ds) (w k) ∙ lose-without k x ds (view s k),
          )
      then_Lost x xs s t (ok v) u w h = λ k.
          h k ∙ ap (lose k (keep matches xs)) (w k) ∙ lose-without k x (keep matches xs) (view s k)

      failed_Lost :
          (x : R) (ms : List R) (e : DnsError) (s t : S)
          → AtMost view item (item key x) s t
          → Lost (x ∷ ms) s (err e) t
      failed_Lost x ms e s t h k = elim (h k) [
        | inl same ↦ ([], λ p y. cc, same ∙ lose_none k (view s k))
        | inr removed ↦ (
          x ∷ [],
          Within-cons x [] ms (λ p y. cc),
          removed
              ∙ lose_none k (without view item (item key x) k (view s k))
              ∙ lose-without k x [] (view s k),
        )
      ]

      each_Lost :
          (xs : List R) (s : S)
          → let done = delete_each matches call xs s in Lost (keep matches xs) s done.0 done.1
      unfolding delete_each
      each_Lost [] s = λ k. lose_none k (view s k)
      each_Lost (x ∷ xs) s = elim (Bool-cases (matches x)) [
        | inr n ↦ rw n (each_Lost xs s)
        | inl y ↦ rw y (
            >>=_rule (Gone view item (item key x) s) (Lost (x ∷ keep matches xs) s) (call x)
              (λ u. delete_each matches call xs) s (gone x s)
              (λ e t h. failed_Lost x (keep matches xs) e s t h)
              (λ u t h. then_Lost x xs s t _ _ h (each_Lost xs t)))
      ]

      -- What is asked of the records at the start: those of the name are `xs`, and no two have the
      -- same URL.
      hit_matches :
          (s : S) (k : Key)
          → Distinct view item s
          → All
              (λ y. hit k (keep matches (view s key)) y ≡ true → (k ≡ key) × (matches y ≡ true))
              (view s k)
      hit_matches s k d = All-map (view s k) (d k key) λ y h e.
          let (x, (m, i), a) =
            All_any (λ x. is_at view item k (item key x) y) (keep matches (view s key))
              (All-both _ (view s key) matches h) e in
          let (i, q) = i a in (i, ap matches q ∙ m)

      hit_all :
          (s : S)
          → All (λ y. matches y ≡ true → hit key (keep matches (view s key)) y ≡ true) (view s key)
      hit_all s = All-map (view s key) (All_any_self (view s key)) λ y h m.
          any-keep (λ x. is_at view item key (item key x) y) matches (view s key)
          ∙ h _ (rw m (text_eq_refl (item key y)))

      same_others :
          (s s' : S) (ds : List R)
          → Distinct view item s
          → Within ds (keep matches (view s key))
          → (k : Key) → k ≢ key
          → lose k ds (view s k) ≡ view s k
      same_others s s' ds d i k n =
          keep-true (λ y. not (hit k ds y)) (view s k)
            (All-map (view s k) (hit_matches s k d) λ y h. elim (Bool-cases (hit k ds y)) [
              | inr f ↦ rw f refl
              | inl e ↦ absurd (n (h (i (λ x. is_at view item k (item key x) y) e)).0)
            ])

      hit_is :
          (s : S)
          → Distinct view item s
          → All (λ y. not (hit key (keep matches (view s key)) y) ≡ not (matches y)) (view s key)
      hit_is s d =
          All-map (view s key) (All-zip _ _ (view s key) (hit_matches s key d) (hit_all s)) λ y h.
            elim (Bool-cases (matches y)) [
              | inl m ↦ rw (m, h.1 m) refl
              | inr n ↦ elim (Bool-cases (hit key (keep matches (view s key)) y)) [
                | inl e ↦ cc (h.0 e).1
                | inr f ↦ rw (n, f) refl
              ]
            ]

      unmatched :
          (s : S) (ds : List R)
          → Distinct view item s
          → Within ds (keep matches (view s key))
          → All (λ y. (not (matches y) && not (hit key ds y)) ≡ not (matches y)) (view s key)
      unmatched s ds d i = All-map (view s key) (hit_matches s key d) λ y h.
          elim (Bool-cases (matches y)) [
            | inl m ↦ rw m refl
            | inr n ↦ elim (Bool-cases (hit key ds y)) [
              | inl e ↦ cc (n, (h (i (λ x. is_at view item key (item key x) y) e)).1)
              | inr f ↦ rw (n, f) refl
            ]
          ]

      lost-Removed :
          (s : S) (r : Result (Unit {0})) (s' : S)
          → Distinct view item s
          → Lost (keep matches (view s key)) s r s'
          → Removed view matches key s r s'
      lost-Removed s (ok u) s' d h = (
        λ k n. h k ∙ same_others s s' (keep matches (view s key)) d (λ p y. y) k n,
        h key ∙ keep_same _ _ (view s key) (hit_is s d),
      )
      lost-Removed s (err e) s' d h = (
        λ k n. let (ds, i, l) = h k in l ∙ same_others s s' ds d i k n,
        let (ds, i, l) = h key in
            ap (keep (λ y. not (matches y))) l
            ∙ keep-keep _ _ (view s key)
            ∙ keep_same _ _ (view s key) (unmatched s ds d i),
      )

      pub delete_each-Removed :
          (s : S)
          → Distinct view item s
          → let done = delete_each matches call (view s key) s in
            Removed view matches key s done.0 done.1
      delete_each-Removed s d =
          let done = delete_each matches call (view s key) s in
          lost-Removed s done.0 done.1 d (each_Lost (view s key) s)
