-- ===== src/TlsAlpn/Adds.antt =====
-- The steps of src/tls_alpn.rs that a call adds to the log when it succeeds.
use mathlib.Core.List.{append_assoc, append-nil}
use cheti.Prelude.{ℕ, ◌≡◌, refl, sym, ap, ◌∙◌, Bool-cases, inl, inr, List, [], ◌∷◌, ◌++◌}
use cheti.Text.{Text}
use cheti.Error.{Result, ok, err}
use cheti.Dns.Client.{Reply, answered, failed}
use cheti.Exec.{Exec, Post, ◌>>=◌, lift}
use cheti.Cleanup.{Guard}
use cheti.Solver.Acme.{acme_error}
use cheti.TlsAlpn.{Order, Authorization, call, status_ready, ready_among, finalize_order, is_at}
use cheti.TlsAlpn.Events.{
  Log, recorded_order, readied, presented, finalized, Done, shown, marked, issued, dones,
}

-- A call that succeeds adds `xs` to what `read` gives of the world.
module _ {W : Type 0} (read : W → List Done) where
  abbrev pub Adds : {A : Type 0} → List Done → W → Post W A
  Adds xs w (ok a) w' = read w' ≡ read w ++ xs
  Adds xs w (err x) w' = Unit

  pub Adds-none : {A : Type 0} (w : W) (r : Result A) (w' : W) → read w' ≡ read w → Adds [] w r w'
  Adds-none w (ok a) w' h = h ∙ sym (append-nil (read w))
  Adds-none w (err x) w' h = tt

module _ {W A B : Type 0} (read : W → List Done) where
  pub Adds-bind :
      (xs ys : List Done) (m : Exec W A) (f : A → Exec W B) (w : W)
      → Adds read xs w (m w).0 (m w).1
      → ((a : A) (t : W) → Adds read ys t (f a t).0 (f a t).1)
      → Adds read (xs ++ ys) w ((m >>= f) w).0 ((m >>= f) w).1
  Adds-bind xs ys m f w h k = go (m w).0 (m w).1 h
    where
      later :
          (t : W) (r : Result B) (u : W)
          → read t ≡ read w ++ xs
          → Adds read ys t r u
          → Adds read (xs ++ ys) w r u
      later t (ok b) u p q = q ∙ ap (λ (l : List Done). l ++ ys) p ∙ append_assoc (read w) xs ys
      later t (err x) u p q = tt

      go :
          (r : Result A) (t : W)
          → Adds read xs w r t
          → Adds read (xs ++ ys) w ((lift r >>= f) t).0 ((lift r >>= f) t).1
      go (ok a) t p = later t (f a t).0 (f a t).1 p (k a t)
      go (err x) t p = tt

module _ {E : Type 0} where
  abbrev pub logged : E × Log → List Done
  logged s = dones s.1

  abbrev pub logged_world : (E × Log) × Guard Text → List Done
  logged_world s = dones s.0.1

  pub called_Adds :
      (url : Text) (a : Reply (Unit {0})) (e e' : E) (log : Log)
      → Adds logged (marked url ∷ []) (e, log) (acme_error a) (e', readied url a ∷ log)
  called_Adds url (answered u) e e' log = refl
  called_Adds url (failed m) e e' log = tt

  pub finalized_Adds :
      (a : Reply Text) (e e' : E) (log : Log)
      → Adds logged (issued ∷ []) (e, log) (acme_error a) (e', finalized a ∷ log)
  finalized_Adds (answered key) e e' log = refl
  finalized_Adds (failed m) e e' log = tt

  pub presented_Adds :
      (domain : Text) (cert key : List ℕ) (r : Result (Unit {0})) (s : (E × Log) × Guard Text)
      (e' : E)
      → Adds logged_world
          (shown domain cert key ∷ [])
          s
          r
          ((e', presented domain cert key r ∷ s.0.1), s.1)
  presented_Adds domain cert key (ok u) s e' = refl
  presented_Adds domain cert key (err x) s e' = tt

  pub world_Adds :
      {A : Type 0} (xs : List Done) (s t : E × Log) (r : Result A) (g : Guard Text)
      → Adds logged xs s r t
      → Adds logged_world xs (s, g) r (t, g)
  world_Adds xs s t (ok a) g h = h
  world_Adds xs s t (err x) g h = tt

module _ {E : Type 0} (order : Order E) where
  pub ready_Adds :
      (url : Text) (as' : List (Reply Authorization)) (s : E × Log)
      → let done = ready_among (recorded_order order) url as' s in
        Adds logged (marked url ∷ []) s done.0 done.1
  unfolding ready_among
  ready_Adds url [] s = tt
  ready_Adds url (failed m ∷ as') s = tt
  ready_Adds url (answered a ∷ as') s = elim (Bool-cases (is_at order url a.tls_alpn01)) [
    | inl y ↦ rw y (called_Adds url (order.challenge_set_ready url s.0).0 s.0 _ s.1)
    | inr n ↦ rw n (ready_Adds url as' s)
  ]

  pub finalize_Adds :
      (s : E × Log)
      → let done = finalize_order (recorded_order order) s in
        Adds logged (issued ∷ []) s done.0 done.1
  unfolding finalize_order
  finalize_Adds s =
      let order' = recorded_order order in
      Adds-bind logged [] (issued ∷ []) (call order' order'.poll_ready) _ s
        (Adds-none logged s _ _ refl)
        λ status t.
          Adds-bind logged [] (issued ∷ []) (lift (status_ready order' status)) _ t
            (Adds-none logged t _ t refl)
            λ u t.
              Adds-bind logged (issued ∷ []) [] (call order' order'.finalize) _ t
                (finalized_Adds (order.finalize t.0).0 t.0 _ t.1)
                λ key t.
                  Adds-bind logged [] [] (call order' order'.poll_certificate) _ t
                    (Adds-none logged t _ _ refl) λ chain t. sym (append-nil (dones t.1))
