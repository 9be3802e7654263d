-- ===== src/Dns/Poll/Confirmed.antt =====
-- What a finished poll says of its targets, on a check that keeps a log of its answers.
use mathlib.Core.List.{Perm, perm_middle, append-nil}
use mathlib.Core.List.Perm
use cheti.Prelude.{
  ℕ, zero, suc, ◌-◌, ◌/◌, ◌≤◌, ◌≡◌, ◌≢◌, refl, subst, inl, inr, Bool, true, false, Option, none,
  some, List, [], ◌∷◌, ◌++◌, leb, Bool-cases, leb→le,
}
use cheti.Text.{Text, is_empty}
use cheti.Error.{Result, ok, err, propagation_timeout}
use cheti.Dns.Client.{PropagationTiming}
use cheti.Dns.Poll.{Clock, keep_pending, check_all, poll_loop, poll_until_all_confirm}

module _ {E T : Type 0} where
  -- The newest answer comes first.
  abbrev pub recorded : (T → E → Bool × E) → T → E × List (T × Bool) → Bool × (E × List (T × Bool))
  recorded check t s = ((check t s.0).0, ((check t s.0).1, (t, (check t s.0).0) ∷ s.1))

  abbrev pub recorded_clock : Clock E → Clock (E × List (T × Bool))
  recorded_clock clock = record {
    now = λ s. clock.now s.0;
    sleep = λ d s. (clock.sleep d s.0, s.1);
  }

-- The targets that answered with a confirmation, once for each such answer.
abbrev pub confirmed {ℓ} : {T : Type ℓ} → List (T × Bool) → List T
confirmed [] = []
confirmed ((t, true) ∷ log) = t ∷ confirmed log
confirmed ((t, false) ∷ log) = confirmed log

module _ {E T : Type 0} (check : T → E → Bool × E) (clock : Clock E) where
  check_all-perm :
      (ts : List T) (e : E) (log : List (T × Bool))
      → Perm
          (confirmed (check_all (recorded check) ts (e, log)).1.1
            ++ (check_all (recorded check) ts (e, log)).0)
          (confirmed log ++ ts)
  unfolding check_all
  check_all-perm [] e log = Perm.refl _
  check_all-perm (t ∷ ts) e log =
      answer (check t e).0 (check t e).1 (check_all-perm ts (check t e).1)
    where
      answer :
          (b : Bool) (e' : E)
          → ((log' : List (T × Bool))
              → Perm
                  (confirmed (check_all (recorded check) ts (e', log')).1.1
                    ++ (check_all (recorded check) ts (e', log')).0)
                  (confirmed log' ++ ts))
          → Perm
              (confirmed (check_all (recorded check) ts (e', (t, b) ∷ log)).1.1
                ++ keep_pending t b (check_all (recorded check) ts (e', (t, b) ∷ log)).0)
              (confirmed log ++ (t ∷ ts))
      answer true e' ih =
          Perm.trans (ih ((t, true) ∷ log)) (Perm.symm (perm_middle (confirmed log) ts))
      answer false e' ih = Perm.trans (perm_middle _ _) (
          Perm.trans (Perm.cons t (ih ((t, false) ∷ log)))
            (Perm.symm (perm_middle (confirmed log) ts)))

  -- What a finished poll that began at `start` with these targets has shown.
  abbrev pub Shown :
      Text → PropagationTiming → ℕ → List T → Result (Unit {0}) → E × List (T × Bool) → Type 0
  Shown fqdn timing start targets (ok u) s = Perm (confirmed s.1) targets
  Shown fqdn timing start targets (err x) s =
      (x ≡ propagation_timeout fqdn (timing.timeout / 1000))
      × (timing.timeout ≤ clock.now s.0 - start)
      × ((missing : List T) × (missing ≢ []) × Perm (confirmed s.1 ++ missing) targets)

  nonempty_ne : (ts : List T) → is_empty ts ≡ false → ts ≢ []
  nonempty_ne [] h e = cc
  nonempty_ne (t ∷ ts) h e = cc

  confirmed_all :
      (log : List (T × Bool)) (targets ts : List T)
      → is_empty ts ≡ true
      → Perm (confirmed log ++ ts) targets
      → Perm (confirmed log) targets
  confirmed_all log targets [] h p = subst (λ (l : List T). Perm l targets) (append-nil _) p
  confirmed_all log targets (t ∷ ts) h p = cc

  -- `P` of the result, if there is one.
  abbrev Finally :
      (Result (Unit {0}) → E × List (T × Bool) → Type 0)
      → Option (Result (Unit {0}) × (E × List (T × Bool)))
      → Type 0
  Finally P none = Unit
  Finally P (some (r, s)) = P r s

  finally_at :
      (P : Result (Unit {0}) → E × List (T × Bool) → Type 0)
      (o : Option (Result (Unit {0}) × (E × List (T × Bool)))) (r : Result (Unit {0}))
      (s : E × List (T × Bool))
      → Finally P o
      → o ≡ some (r, s)
      → P r s
  finally_at P o r s h e = subst (Finally P) e h

  loop_Shown :
      (fqdn : Text) (timing : PropagationTiming) (start : ℕ) (targets : List T) (fuel : ℕ)
      (ts : List T) (s : E × List (T × Bool))
      → Perm (confirmed s.1 ++ ts) targets
      → Finally
          (Shown fqdn timing start targets)
          (poll_loop (recorded check) (recorded_clock clock) fqdn timing start fuel ts s)
  unfolding poll_loop
  loop_Shown fqdn timing start targets zero ts s p = tt
  loop_Shown fqdn timing start targets (suc fuel) ts s p =
      let round = check_all (recorded check) ts s in
      let p' : Perm (confirmed round.1.1 ++ round.0) targets =
        Perm.trans (check_all-perm ts s.0 s.1) p in
      let later =
        loop_Shown fqdn timing start targets fuel round.0
          ((recorded_clock clock).sleep timing.interval round.1) p' in
      elim (Bool-cases (is_empty round.0)) [
        | inl d ↦ rw d (confirmed_all round.1.1 targets round.0 d p')
        | inr n ↦ elim (Bool-cases (leb timing.timeout (clock.now round.1.0 - start))) [
          | inl l ↦
              rw (n, l)
                (
                  refl,
                  leb→le timing.timeout (clock.now round.1.0 - start) l,
                  (round.0, nonempty_ne round.0 n, p'),
                )
          | inr l ↦ rw (n, l) later
        ]
      ]

  -- A poll that succeeds has seen each target confirm exactly once: none is left out, and none is
  -- asked again after it confirmed. A poll that fails has reached its timeout, with some target
  -- that never confirmed; those that did have done so once.
  pub poll_until_all_confirm-Shown :
      (fqdn : Text) (timing : PropagationTiming) (fuel : ℕ) (targets : List T) (e : E)
      (r : Result (Unit {0})) (s : E × List (T × Bool))
      → poll_until_all_confirm
          (recorded check)
          (recorded_clock clock)
          fuel
          targets
          fqdn
          timing
          (e, [])
        ≡ some (r, s)
      → Shown fqdn timing (clock.now e) targets r s
  unfolding poll_until_all_confirm
  poll_until_all_confirm-Shown fqdn timing fuel targets e r s h =
      finally_at (Shown fqdn timing (clock.now e) targets) _ r s
        (loop_Shown fqdn timing (clock.now e) targets fuel targets (e, []) (Perm.refl targets)) h
