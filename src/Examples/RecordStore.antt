-- ===== src/Examples/RecordStore.antt =====
-- A server that keeps records, for the providers of src/providers that keep one record per value.
use mathlib.Core.List.{append-nil}
use cheti.Prelude.{
  ℕ, ◌≡◌, ◌≢◌, ◌∙◌, sym, ap, ap₂, refl, subst, inl, inr, Bool, true, false, not, ◌&&◌, Bool-cases,
  if◌then◌else◌, Option, none, some, List, [], ◌∷◌, ◌++◌, ◌==◌, length, keep, All, &&-eq_true,
}
use cheti.Text.{Text, text_eq}
use cheti.Text.Suffix.{text_eq_refl, text_eq_iff}
use cheti.Error.{Result, ok}
use cheti.Common.Retry.{Method, get, post, put, patch, delete, Request, Response, Transport}
use cheti.Providers.Records.{Key, without, Distinct, Posts, Server}
use cheti.Providers.Records.Filters.{All-map}
use cheti.Providers.Records.Adds.{Appended}

-- The records, each with the key of its name.
abbrev pub Store : Type 0 → Type 0
Store R = List (Key × R)

abbrev pub same_key : Key → Key → Bool
same_key (u, n) (v, m) = text_eq u v && text_eq n m

abbrev pub view : {R : Type 0} → Store R → Key → List R
view [] k = []
view ((k', x) ∷ s) k = let rest = view s k in if same_key k' k then x ∷ rest else rest

abbrev pub reply : {B : Type 0} → ℕ → B → Response B
reply status body = record { status = status; retry_after = none; body = body }

same_key_sound : (k k' : Key) → same_key k k' ≡ true → k ≡ k'
same_key_sound (u, n) (v, m) h =
    let (p, q) = &&-eq_true (text_eq u v) (text_eq n m) h in
    ap₂ (λ (x y : Text). (x, y)) ((text_eq_iff u v).0 p) ((text_eq_iff n m).0 q)

same_key_refl : (k : Key) → same_key k k ≡ true
same_key_refl (u, n) = rw (text_eq_refl u, text_eq_refl n) refl

different : (k k' : Key) → k ≢ k' → same_key k' k ≡ false
different k k' n = elim (Bool-cases (same_key k' k)) [
  | inl e ↦ absurd (n (sym (same_key_sound k' k e)))
  | inr e ↦ e
]

abbrev is_safe_to_repeat : Method → Bool
is_safe_to_repeat post = false
is_safe_to_repeat get = true
is_safe_to_repeat put = true
is_safe_to_repeat patch = false
is_safe_to_repeat delete = true

module _ {R : Type 0} (item : Key → R → Text) where
  abbrev removed : Text → Store R → Store R
  removed url = keep (λ e. not (text_eq (item e.0 e.1) url))

  view-append :
      (s : Store R) (k k' : Key) (x : R)
      → view (s ++ ((k', x) ∷ [])) k ≡ view s k ++ (if same_key k' k then x ∷ [] else [])
  view-append [] k k' x = elim (Bool-cases (same_key k' k)) [
    | inl e ↦ rw e refl
    | inr e ↦ rw e refl
  ]
  view-append ((j, y) ∷ s) k k' x = elim (Bool-cases (same_key j k)) [
    | inl e ↦ rw e (ap (λ (l : List R). y ∷ l) (view-append s k k' x))
    | inr e ↦ rw e (view-append s k k' x)
  ]

  view-removed :
      (url : Text) (s : Store R) (k : Key)
      → view (removed url s) k ≡ without view item url k (view s k)
  view-removed url [] k = refl
  view-removed url ((j, y) ∷ s) k = elim (Bool-cases (same_key j k)) [
    | inr e ↦ elim (Bool-cases (text_eq (item j y) url)) [
      | inl f ↦ rw (e, f) (view-removed url s k)
      | inr f ↦ rw (e, f) (rw e (view-removed url s k))
    ]
    | inl e ↦
        let here : text_eq (item k y) url ≡ text_eq (item j y) url =
          ap (λ (i : Key). text_eq (item i y) url) (sym (same_key_sound j k e)) in
        elim (Bool-cases (text_eq (item j y) url)) [
          | inl f ↦ rw (e, f) (rw (here ∙ f) (view-removed url s k))
          | inr f ↦ rw (e, f) (rw (e, here ∙ f) (ap (λ (l : List R). y ∷ l) (view-removed url s k)))
        ]
  ]

  -- What holds of all entries holds of the records of a name.
  view-All :
      (P : Key → R → Type 0) (s : Store R) (k : Key) → All (λ e. P e.0 e.1) s → All (P k) (view s k)
  view-All P [] k h = tt
  view-All P ((j, x) ∷ s) k h = elim (Bool-cases (same_key j k)) [
    | inl e ↦ rw e (subst (λ (i : Key). P i x) (same_key_sound j k e) h.0, view-All P s k h.1)
    | inr e ↦ rw e (view-All P s k h.1)
  ]

  abbrev pub Apart : Key → R → Key → R → Type 0
  Apart k y k' x = text_eq (item k y) (item k' x) ≡ true → (k ≡ k') × (y ≡ x)

  pub apart :
      (k : Key) (y : R) (k' : Key) (x : R) → text_eq (item k y) (item k' x) ≡ false → Apart k y k' x
  apart k y k' x n h = cc

  pub store-Distinct :
      (s : Store R) → All (λ e. All (λ f. Apart e.0 e.1 f.0 f.1) s) s → Distinct view item s
  store-Distinct s h k k' =
      view-All (λ k y. All (λ x. Apart k y k' x) (view s k')) s k
        (All-map s h λ e h. view-All (Apart e.0 e.1) s k' h)

  -- `make` is the record that a body becomes, with its id; `serve` answers the GETs.
  module _ {P B : Type 0} (key_of : Text → P → Key) (make : ℕ → P → R) (blank : B)
      (serve : Request P → Store R → Response B) where
    abbrev added : Text → Option P → Store R → Result (Response B) × Store R
    added url none s = (ok (reply 400 blank), s)
    added url (some b) s = (ok (reply 201 blank), s ++ ((key_of url b, make (length s) b) ∷ []))

    abbrev respond : Method → Request P → Store R → Result (Response B) × Store R
    respond get r s = (ok (serve r s), s)
    respond post r s = added r.url r.payload s
    respond delete r s = (ok (reply 204 blank), removed r.url s)
    respond put r s = (ok (reply 405 blank), s)
    respond patch r s = (ok (reply 405 blank), s)

    abbrev pub api : Transport (Store R) P B
    api = record {
      try_clone = λ r. some r;
      is_idempotent = is_safe_to_repeat;
      send = λ r s. respond r.method r s;
      sleep = λ d s. s;
    }

    pub sent_get :
        (r : Request P) (s : Store R) → r.method ≡ get → api.send r s ≡ (ok (serve r s), s)
    sent_get r s m = rw m refl

    sent_delete :
        (r : Request P) (s : Store R)
        → r.method ≡ delete
        → api.send r s ≡ (ok (reply 204 blank), removed r.url s)
    sent_delete r s m = rw m refl

    sent_post :
        (r : Request P) (s : Store R) → r.method ≡ post → api.send r s ≡ added r.url r.payload s
    sent_post r s m = rw m refl

    added_others :
        (url : Text) (b : P) (o : Option P) (s : Store R) (k : Key)
        → o ≡ some b
        → k ≢ key_of url b
        → view (added url o s).1 k ≡ view s k
    added_others url b o s k e n = rw e (
        view-append s k (key_of url b) (make (length s) b)
        ∙ ap (λ (t : Bool). view s k ++ (if t then make (length s) b ∷ [] else []))
            (different k (key_of url b) n)
        ∙ append-nil (view s k))

    not_refused :
        (url : Text) (o : Option P) (s : Store R) (a : Response B)
        → (added url o s).0 ≡ ok a
        → (a.status == 429) ≡ false
    not_refused url none s a h =
        let same : reply 400 blank ≡ a = cc in sym (ap (λ (x : Response B). x.status == 429) same)
    not_refused url (some b) s a h =
        let same : reply 201 blank ≡ a = cc in sym (ap (λ (x : Response B). x.status == 429) same)

    module _ (carries : P → R → Bool) (made : (b : P) (n : ℕ) → carries b (make n b) ≡ true) where
      new_record :
          (url : Text) (b : P) (o : Option P) (s : Store R)
          → o ≡ some b
          → Appended view (carries b) (key_of url b) s (added url o s).1
      new_record url b o s e =
          let key = key_of url b in
          (
            make (length s) b,
            made b (length s),
            rw e (
                view-append s key key (make (length s) b)
                ∙ ap (λ (t : Bool). view s key ++ (if t then make (length s) b ∷ [] else []))
                    (same_key_refl key)),
          )

      posts : Posts view api key_of carries
      posts = record {
        not_idempotent = refl;
        post_others =
            λ r s b m p k n. rw (sent_post r s m) (added_others r.url b r.payload s k p n);
        post_here = λ r s b m p. rw (sent_post r s m) (inr (new_record r.url b r.payload s p));
        post_done = λ r s b a m p h y. rw (sent_post r s m) (new_record r.url b r.payload s p);
        post_refused = λ r s a m h n k.
            let kept =
              not_refused r.url r.payload s a
                (ap (λ (d : Result (Response B) × Store R). d.0) (sym (sent_post r s m)) ∙ h) in
            cc;
      }

      pub server : Server view item api key_of carries
      server = record {
        steady = record { cloned = λ r n e. cc; slept = λ d s k. refl };
        deletes = record {
          delete_here = λ r s k m. rw (sent_delete r s m) (inr (view-removed r.url s k));
          delete_done = λ r s a m h y k. rw (sent_delete r s m) (view-removed r.url s k);
        };
        posts = posts;
      }
