-- ===== src/Providers/Writes.antt =====
-- A request of a provider that reads the server's store or writes one item of it, with its retries.
use cheti.Prelude.{ℕ, ◌≡◌, ◌≢◌, ◌∙◌, refl, ◌⊎◌, inl, inr, Bool, true, some}
use cheti.Error.{Result, ok, err}
use cheti.Exec.{Post}
use cheti.Common.Retry.{Request, Response, Transport, send_retrying}
use cheti.Common.Retry.Rule.{send_retrying_rule}

module _ {S K V : Type 0} (view : S → K → V) where
  abbrev pub SameBut : K → S → S → Type 0
  SameBut key s s' = (k : K) → k ≢ key → view s' k ≡ view s k

  abbrev pub Same : S → S → Type 0
  Same s s' = (k : K) → view s' k ≡ view s k

  -- Every other item is as before, and this one is as before or written.
  pub record Wrote (key : K) (after : V) (s s' : S) : Type 0 where
    pub others : SameBut key s s'
    pub here : (view s' key ≡ view s key) ⊎ (view s' key ≡ after)

  pub Wrote-then :
      (key : K) (after : V) (s t u : S)
      → Wrote key after s t
      → Wrote key after t u
      → Wrote key after s u
  Wrote-then key after s t u p q = record {
    others = λ k n. q.others k n ∙ p.others k n;
    here = elim q.here [
      | inr e ↦ inr e
      | inl e ↦ elim p.here [ inl f ↦ inl (e ∙ f) | inr f ↦ inr (e ∙ f) ]
    ];
  }

  pub Wrote-Same : (key : K) (after : V) (s t : S) → Same s t → Wrote key after s t
  Wrote-Same key after s t h = record { others = λ k n. h k; here = inl (h key) }

  module _ {P B : Type 0} (api : Transport S P B) where
    -- A clone of a request is the request, and a pause changes nothing.
    pub record Steady : Type 0 where
      pub cloned : (r n : Request P) → api.try_clone r ≡ some n → n ≡ r
      pub slept : (d : ℕ) (s : S) → Same s (api.sleep d s)

    -- A request that writes `after`; `done` is the test of the status that tells that it is done.
    pub record Writes (r : Request P) (key : K) (after : V) (done : ℕ → Bool) : Type 0 where
      pub wrote : (s : S) → Wrote key after s (api.send r s).1
      pub all_done :
          (s : S) (a : Response B)
          → (api.send r s).0 ≡ ok a
          → done a.status ≡ true
          → view (api.send r s).1 key ≡ after

    abbrev pub Sent : (ℕ → Bool) → K → V → S → Post S (Response B)
    Sent done key after s (err e) s' = Wrote key after s s'
    Sent done key after s (ok a) s' =
        Wrote key after s s' × (done a.status ≡ true → view s' key ≡ after)

    Sent-of :
        (r : Request P) (key : K) (after : V) (done : ℕ → Bool) (s w : S)
        → Writes r key after done
        → Wrote key after s w
        → (x : Result (Response B)) → (api.send r w).0 ≡ x
        → Sent done key after s x (api.send r w).1
    Sent-of r key after done s w h p (err e) q =
        Wrote-then key after s w (api.send r w).1 p (h.wrote w)
    Sent-of r key after done s w h p (ok a) q =
        (Wrote-then key after s w (api.send r w).1 p (h.wrote w), λ d. h.all_done w a q d)

    -- With its retries too, the request writes one item at most, and it has written it if the last
    -- answer says so.
    pub send_retrying-Sent :
        (steady : Steady) (r : Request P) (key : K) (after : V) (done : ℕ → Bool) (s : S)
        → Writes r key after done
        → Sent done key after s (send_retrying api r s).0 (send_retrying api r s).1
    send_retrying-Sent steady r key after done s h =
        send_retrying_rule api r (Wrote key after s) (Sent done key after s)
          (record {
            same = λ n e. steady.cloned r n e;
            sent = λ w p. Sent-of r key after done s w h p (api.send r w).0 refl;
            paused = λ a d w y q.
                Wrote-then key after s w (api.sleep d w) q.0
                  (Wrote-Same key after w (api.sleep d w) (steady.slept d w));
          })
          s (Wrote-Same key after s s (λ k. refl))

    -- A request that changes nothing and whose answer tells `told` of the store as it was.
    abbrev pub Read : (Response B → Type 0) → S → Post S (Response B)
    Read told s (err e) s' = Same s s'
    Read told s (ok a) s' = Same s s' × told a

    Read-of :
        (r : Request P) (told : Response B → Type 0) (s w : S)
        → Same s w
        → Same w (api.send r w).1
        → ((a : Response B) → (api.send r w).0 ≡ ok a → told a)
        → (x : Result (Response B)) → (api.send r w).0 ≡ x
        → Read told s x (api.send r w).1
    Read-of r told s w h same k (err e) q = λ i. same i ∙ h i
    Read-of r told s w h same k (ok a) q = (λ i. same i ∙ h i, k a q)

    pub send_retrying-Read :
        (steady : Steady) (r : Request P) (told : Response B → Type 0) (s : S)
        → ((w : S) → Same w (api.send r w).1)
        → ((w : S) → Same s w → (a : Response B) → (api.send r w).0 ≡ ok a → told a)
        → Read told s (send_retrying api r s).0 (send_retrying api r s).1
    send_retrying-Read steady r told s same k =
        send_retrying_rule api r (Same s) (Read told s)
          (record {
            same = λ n e. steady.cloned r n e;
            sent = λ w h. Read-of r told s w h (same w) (k w h) (api.send r w).0 refl;
            paused = λ a d w y q i. steady.slept d w i ∙ q.0 i;
          })
          s (λ i. refl)
