-- ===== src/Providers/Records/Deleted.antt =====
-- The DELETE of one record, for src/providers/digitalocean.rs and
-- src/providers/cloudflare.rs.
use cheti.Prelude.{
  ℕ, ◌≡◌, ◌∙◌, refl, ap, ◌⊎◌, inl, inr, Bool, true, ◌||◌, Bool-cases, List, [], ◌∷◌, ◌==◌,
}
use cheti.Text.{Text}
use cheti.Error.{Result, ok, err}
use cheti.Exec.{Post}
use cheti.Common.Retry.{Request, Response, Transport, delete, send_retrying}
use cheti.Common.Retry.Rule.{send_retrying_rule}
use cheti.Providers.Http.{is_success}
use cheti.Providers.Writes.{Steady}
use cheti.Providers.Records.{Key, is_at, without, Deletes}

module _ {S R : Type 0} (view : S → Key → List R) (item : Key → R → Text) where
  -- After a DELETE: each name has its records, or has lost the one at the URL.
  abbrev pub AtMost : Text → S → S → Type 0
  AtMost url s s' =
      (k : Key) → (view s' k ≡ view s k) ⊎ (view s' k ≡ without view item url k (view s k))

  abbrev pub Without : Text → S → S → Type 0
  Without url s s' = (k : Key) → view s' k ≡ without view item url k (view s k)

  -- A call that deletes the record at a URL.
  abbrev pub Gone : Text → S → Post S (Unit {0})
  Gone url s (err e) s' = AtMost url s s'
  Gone url s (ok u) s' = Without url s s'

module _ {S R P B : Type 0} (view : S → Key → List R) (item : Key → R → Text)
    (api : Transport S P B) (steady : Steady view api) (deletes : Deletes view item api) where
  abbrev pub gone_status : ℕ → Bool
  gone_status status = is_success status || (status == 404)

  abbrev pub Deleted : Text → S → Post S (Response B)
  Deleted url s (err e) s' = AtMost view item url s s'
  Deleted url s (ok a) s' =
      AtMost view item url s s' × (gone_status a.status ≡ true → Without view item url s s')

  without_twice :
      (url : Text) (k : Key) (xs : List R)
      → without view item url k (without view item url k xs) ≡ without view item url k xs
  without_twice url k [] = refl
  without_twice url k (x ∷ xs) = elim (Bool-cases (is_at view item k url x)) [
    | inl y ↦ rw y (without_twice url k xs)
    | inr n ↦ rw n (rw n (ap (λ (l : List R). x ∷ l) (without_twice url k xs)))
  ]

  AtMost-then :
      (url : Text) (s t u : S)
      → AtMost view item url s t
      → AtMost view item url t u
      → AtMost view item url s u
  AtMost-then url s t u p q k = elim (p k) [
    | inl e ↦ elim (q k) [ inl f ↦ inl (f ∙ e) | inr f ↦ inr (f ∙ ap (without view item url k) e) ]
    | inr e ↦ elim (q k) [
      | inl f ↦ inr (f ∙ e)
      | inr f ↦ inr (f ∙ ap (without view item url k) e ∙ without_twice url k (view s k))
    ]
  ]

  deleted_sent :
      (r : Request P) (s w : S)
      → r.method ≡ delete
      → AtMost view item r.url s w
      → (x : Result (Response B)) → (api.send r w).0 ≡ x
      → Deleted r.url s x (api.send r w).1
  deleted_sent r s w m p (err e) q =
      AtMost-then r.url s w (api.send r w).1 p (λ k. deletes.delete_here r w k m)
  deleted_sent r s w m p (ok a) q = (
    AtMost-then r.url s w (api.send r w).1 p (λ k. deletes.delete_here r w k m),
    λ y k. deletes.delete_done r w a m q y k ∙ without_after r.url k (p k),
  )
    where
      without_after :
          (url : Text) (k : Key)
          → (view w k ≡ view s k) ⊎ (view w k ≡ without view item url k (view s k))
          → without view item url k (view w k) ≡ without view item url k (view s k)
      without_after url k (inl e) = ap (without view item url k) e
      without_after url k (inr e) = ap (without view item url k) e ∙ without_twice url k (view s k)

  -- With its retries too, a DELETE removes at most the record at its URL.
  pub delete_Deleted :
      (r : Request P) (s : S)
      → r.method ≡ delete
      → Deleted r.url s (send_retrying api r s).0 (send_retrying api r s).1
  delete_Deleted r s m =
      send_retrying_rule api r (AtMost view item r.url s) (Deleted r.url s)
        (record {
          same = λ n e. steady.cloned r n e;
          sent = λ w p. deleted_sent r s w m p (api.send r w).0 refl;
          paused = λ a d w y q k. elim (q.0 k) [
            | inl e ↦ inl (steady.slept d w k ∙ e)
            | inr e ↦ inr (steady.slept d w k ∙ e)
          ];
        })
        s (λ k. inl refl)

  -- A call that has succeeded only where the DELETE was a success or found nothing.
  pub Deleted-Gone :
      (url : Text) (s : S) (a : Response B) (s' : S) (r : Result (Unit {0}))
      → (r ≡ ok tt → gone_status a.status ≡ true)
      → Deleted url s (ok a) s'
      → Gone view item url s r s'
  Deleted-Gone url s a s' (err e) h p = p.0
  Deleted-Gone url s a s' (ok u) h p = p.1 (h refl)
