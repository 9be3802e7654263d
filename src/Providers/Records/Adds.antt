-- ===== src/Providers/Records/Adds.antt =====
-- The POST of one record, for src/providers/digitalocean.rs and src/providers/cloudflare.rs.
use cheti.Prelude.{
  ℕ, ◌≡◌, ◌∙◌, refl, ap, subst, ◌⊎◌, inl, inr, Bool, true, some, List, [], ◌∷◌, ◌++◌, ◌==◌, any,
  arith, any-append,
}
use cheti.Text.{Text}
use cheti.Error.{Result, ok, err}
use cheti.Exec.{Post}
use cheti.Common.Retry.{Request, Response, Transport, post, send_retrying, is_retryable}
use cheti.Common.Retry.Rule.{send_retrying_rule}
use cheti.Providers.Http.{is_success}
use cheti.Providers.Writes.{SameBut, Same, Steady}
use cheti.Providers.Records.{Key, Posts}

module _ {S R : Type 0} (view : S → Key → List R) where
  -- A record that passes the test is there, after those that were there.
  abbrev pub Appended : (R → Bool) → Key → S → S → Type 0
  Appended carries key s s' = (x : R) × (carries x ≡ true) × (view s' key ≡ view s key ++ (x ∷ []))

  -- The other names are as before, and this one has its records, or one more.
  pub record Grown (carries : R → Bool) (key : Key) (s s' : S) : Type 0 where
    pub others : SameBut view key s s'
    pub here : (view s' key ≡ view s key) ⊎ Appended carries key s s'

  pub Grown-Same :
      (carries : R → Bool) (key : Key) (s s' : S) → Same view s s' → Grown carries key s s'
  Grown-Same carries key s s' h = record { others = λ k n. h k; here = inl (h key) }

  Appended-Same :
      (carries : R → Bool) (key : Key) (s t u : S)
      → Same view s t
      → Appended carries key t u
      → Appended carries key s u
  Appended-Same carries key s t u h (x, c, e) =
      (x, c, e ∙ ap (λ (l : List R). l ++ (x ∷ [])) (h key))

  pub Grown-after :
      (carries : R → Bool) (key : Key) (s t u : S)
      → Same view s t
      → Grown carries key t u
      → Grown carries key s u
  Grown-after carries key s t u h g = record {
    others = λ k n. g.others k n ∙ h k;
    here = elim g.here [
      | inl e ↦ inl (e ∙ h key)
      | inr a ↦ inr (Appended-Same carries key s t u h a)
    ];
  }

  module _ {P B : Type 0} (api : Transport S P B) (steady : Steady view api)
      (key_of : Text → P → Key) (carries : P → R → Bool)
      (posts : Posts view api key_of carries) where
    abbrev pub Posted : Text → P → S → Post S (Response B)
    Posted url b s (err e) s' = Grown (carries b) (key_of url b) s s'
    Posted url b s (ok a) s' =
        Grown (carries b) (key_of url b) s s'
        × (is_success a.status ≡ true → Appended (carries b) (key_of url b) s s')
        × ((a.status == 429) ≡ true → Same view s s')

    retried_status :
        (status : ℕ) → is_retryable (api.is_idempotent post) status ≡ true → (status == 429) ≡ true
    unfolding is_retryable
    retried_status status h = ground (arith, posts.not_idempotent)

    posted_sent :
        (r : Request P) (b : P) (s w : S)
        → r.method ≡ post
        → r.payload ≡ some b
        → Same view s w
        → (x : Result (Response B)) → (api.send r w).0 ≡ x
        → Posted r.url b s x (api.send r w).1
    posted_sent r b s w m p h (err e) q =
        Grown-after (carries b) (key_of r.url b) s w (api.send r w).1 h
          (record { others = posts.post_others r w b m p; here = posts.post_here r w b m p })
    posted_sent r b s w m p h (ok a) q = (
      Grown-after (carries b) (key_of r.url b) s w (api.send r w).1 h
          (record { others = posts.post_others r w b m p; here = posts.post_here r w b m p }),
      λ y.
          Appended-Same (carries b) (key_of r.url b) s w (api.send r w).1 h
            (posts.post_done r w b a m p q y),
      λ n k. posts.post_refused r w a m q n k ∙ h k,
    )

    -- With its retries too, a POST adds one record at most: it is sent again only after a refusal.
    pub post_Posted :
        (r : Request P) (b : P) (s : S)
        → r.method ≡ post
        → r.payload ≡ some b
        → Posted r.url b s (send_retrying api r s).0 (send_retrying api r s).1
    post_Posted r b s m p =
        send_retrying_rule api r (Same view s) (Posted r.url b s)
          (record {
            same = λ n e. steady.cloned r n e;
            sent = λ w h. posted_sent r b s w m p h (api.send r w).0 refl;
            paused = λ a d w y q k.
                let again =
                  subst (λ (x : _). is_retryable (api.is_idempotent x) a.status ≡ true) m y in
                steady.slept d w k ∙ q.2 (retried_status a.status again) k;
          })
          s (λ k. refl)

  -- What `present` does under the lock: if it succeeds, a record of the name passes the test.
  abbrev pub Shown : (R → Bool) → (R → Bool) → Key → S → Post S (Unit {0})
  Shown carries shows key s (err e) s' = Grown carries key s s'
  Shown carries shows key s (ok u) s' = Grown carries key s s' × (any shows (view s' key) ≡ true)

  pub Shown-after :
      (carries shows : R → Bool) (key : Key) (s t : S) (r : Result (Unit {0})) (u : S)
      → Same view s t
      → Shown carries shows key t r u
      → Shown carries shows key s r u
  Shown-after carries shows key s t (err e) u h p = Grown-after carries key s t u h p
  Shown-after carries shows key s t (ok v) u h p = (Grown-after carries key s t u h p.0, p.1)

  pub any-Appended :
      (carries shows : R → Bool) (key : Key) (s s' : S)
      → ((x : R) → carries x ≡ true → shows x ≡ true)
      → Appended carries key s s'
      → any shows (view s' key) ≡ true
  any-Appended carries shows key s s' imp (x, c, e) =
      rw e (any-append shows (view s key) (x ∷ []) ∙ ground (arith, imp x c))

  -- A call that has succeeded only where the POST was a success.
  module _ {P B : Type 0} (api : Transport S P B) (steady : Steady view api)
      (key_of : Text → P → Key) (carries : P → R → Bool)
      (posts : Posts view api key_of carries) where
    pub Posted-Shown :
        (url : Text) (b : P) (shows : R → Bool) (s : S) (a : Response B) (s' : S)
        (r : Result (Unit {0}))
        → ((x : R) → carries b x ≡ true → shows x ≡ true)
        → (r ≡ ok tt → is_success a.status ≡ true)
        → Posted api steady key_of carries posts url b s (ok a) s'
        → Shown (carries b) shows (key_of url b) s r s'
    Posted-Shown url b shows s a s' (err e) imp h p = p.0
    Posted-Shown url b shows s a s' (ok u) imp h p =
        (p.0, any-Appended (carries b) shows (key_of url b) s s' imp (p.1 (h refl)))
