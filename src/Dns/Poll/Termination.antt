-- ===== src/Dns/Poll/Termination.antt =====
-- The polling loop ends.
use cheti.Prelude.{
  ℕ, zero, suc, ◌+◌, ◌-◌, ◌/◌, ◌≤◌, ◌<◌, ◌≡◌, inl, inr, Bool, some, List, [], ◌∷◌, arith, leb,
  Bool-cases, leb-eq_false,
}
use cheti.Text.{Text, is_empty}
use cheti.Error.{Result, ok, err, propagation_timeout}
use cheti.Dns.Client.{PropagationTiming}
use cheti.Dns.Poll.{Clock, check_all, poll_loop, poll_until_all_confirm}

module _ {E T : Type 0} (check : T → E → Bool × E) (clock : Clock E)
    (forward : (t : T) (e : E) → clock.now e ≤ clock.now (check t e).1)
    (sleeps : (d : ℕ) (e : E) → clock.now e + d ≤ clock.now (clock.sleep d e)) where
  check_all_forward : (ts : List T) (e : E) → clock.now e ≤ clock.now (check_all check ts e).1
  unfolding check_all
  check_all_forward [] e = omega arith
  check_all_forward (t ∷ ts) e = omega (arith, forward t e, check_all_forward ts (check t e).1)

  abbrev Ends : Text → PropagationTiming → ℕ → ℕ → List T → E → Type 0
  Ends fqdn timing start fuel ts e =
      (r : Result (Unit {0})) × (e' : E) × (poll_loop check clock fqdn timing start fuel ts e
        ≡ some (r, e'))

  -- One round ends the loop, or leaves it to the next one before the deadline.
  round-Ends :
      (fqdn : Text) (timing : PropagationTiming) (start fuel : ℕ) (ts : List T) (e : E)
      → let round : List T × E = check_all check ts e in
        (clock.now round.1 < start + timing.timeout
          → Ends fqdn timing start fuel round.0 (clock.sleep timing.interval round.1))
        → Ends fqdn timing start (suc fuel) ts e
  unfolding poll_loop
  round-Ends fqdn timing start fuel ts e again =
      let round = check_all check ts e in
      elim (Bool-cases (is_empty round.0)) [
        | inl d ↦ (ok tt, round.1, rw d)
        | inr p ↦ elim (Bool-cases (leb timing.timeout (clock.now round.1 - start))) [
          | inl l ↦ (err (propagation_timeout fqdn (timing.timeout / 1000)), round.1, rw (p, l))
          | inr l ↦
              let (r, e', q) =
                again (omega (arith, leb-eq_false timing.timeout (clock.now round.1 - start) l)) in
              (r, e', rw (p, l) q)
        ]
      ]

  loop-Ends :
      (fqdn : Text) (timing : PropagationTiming) (start fuel : ℕ) (ts : List T) (e : E)
      → 1 ≤ timing.interval
      → start + timing.timeout ≤ clock.now e + fuel
      → Ends fqdn timing start (suc fuel) ts e
  loop-Ends fqdn timing start zero ts e i h =
      round-Ends fqdn timing start zero ts e (λ l. absurd (omega (arith, check_all_forward ts e)))
  loop-Ends fqdn timing start (suc fuel) ts e i h =
      let round = check_all check ts e in
      round-Ends fqdn timing start (suc fuel) ts e (λ l.
        loop-Ends fqdn timing start fuel round.0 (clock.sleep timing.interval round.1) i
          (omega (arith, check_all_forward ts e, sleeps timing.interval round.1)))

  -- With a clock that never goes back and a sleep that lasts as long as asked, polling at any
  -- positive interval ends, however the targets answer: as many rounds as the timeout has
  -- milliseconds, and one more, are enough.
  pub poll_until_all_confirm_ends :
      (fqdn : Text) (timing : PropagationTiming) (fuel : ℕ) (ts : List T) (e : E)
      → 1 ≤ timing.interval
      → timing.timeout < fuel
      → (r : Result (Unit {0})) × (e' : E) × (poll_until_all_confirm check clock fuel ts fqdn timing
            e
          ≡ some (r, e'))
  unfolding poll_until_all_confirm
  poll_until_all_confirm_ends fqdn timing zero ts e i h = absurd (omega arith)
  poll_until_all_confirm_ends fqdn timing (suc fuel) ts e i h =
      loop-Ends fqdn timing (clock.now e) fuel ts e i (omega arith)
