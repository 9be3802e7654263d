-- ===== src/Solver.antt =====
-- src/solver.rs: `Dns01Solver`. The ACME driver, the DNS provider, the poll and the clock are an
-- environment that the solver is given.
pub mod Environment
pub mod Events
pub mod Cleans
pub mod Order
pub mod Ready
pub mod Ends
pub mod Errors
pub mod Acme
use cheti.Prelude.{ℕ, zero, suc, Option, none, some, List, [], ◌∷◌, ◌++◌, map}
use cheti.Text.{Text}
use cheti.Error.{DnsError, Result, ok, err}
use cheti.Dns.Client.{PropagationTiming, default_timing, default_resolvers}
use cheti.Cleanup.{Guard, empty_guard, push, run}
use cheti.Solver.Environment.{Env, Challenge, PlacedRecord}

-- The configuration: the provider is in the environment.
pub record Dns01Solver (E : Type 0) : Type 0 where
  pub fallback_resolvers : List Text
  pub timing : Option PropagationTiming
  pub skip_propagation : Option ℕ
  pub on_cleanup_error : Option (Text → DnsError → E → E)

-- `get_or_insert_with(PropagationTiming::default)`.
abbrev pub timing_or_default : Option PropagationTiming → PropagationTiming
timing_or_default none = default_timing
timing_or_default (some t) = t

-- What a run of the solver gives: the result and the guard, beside the world. `none`: the fuel of
-- the loop over the challenges, or of a poll, ran out.
abbrev pub Run : Type 0 → Type 0 → Type 0
Run E A = Option (Result A × Guard PlacedRecord × E)

module _ {E : Type 0} where
  abbrev pub new : Dns01Solver E
  new = record {
    fallback_resolvers = default_resolvers;
    timing = none;
    skip_propagation = none;
    on_cleanup_error = none;
  }

  abbrev pub with_resolvers : Dns01Solver E → List Text → Dns01Solver E
  with_resolvers s resolvers = record s { fallback_resolvers = resolvers }

  unfoldable pub with_timeout : Dns01Solver E → ℕ → Dns01Solver E
  with_timeout s timeout =
      let t = timing_or_default s.timing in
      record s { timing = some (record t { timeout = timeout }) }

  unfoldable pub with_interval : Dns01Solver E → ℕ → Dns01Solver E
  with_interval s interval =
      let t = timing_or_default s.timing in
      record s { timing = some (record t { interval = interval }) }

  abbrev pub skip_propagation_check : Dns01Solver E → ℕ → Dns01Solver E
  skip_propagation_check s delay = record s { skip_propagation = some delay }

  abbrev pub on_cleanup_error : Dns01Solver E → (Text → DnsError → E → E) → Dns01Solver E
  on_cleanup_error s hook = record s { on_cleanup_error = some hook }

  module _ (env : Env E) (solver : Dns01Solver E) where
    unfoldable pub report : Option (Text → DnsError → E → E) → Text → DnsError → E → E
    report none fqdn x e = e
    report (some hook) fqdn x e = hook fqdn x e

    unfoldable pub after_cleanup : Text → Result (Unit {0}) → E → E
    unfolding report
    after_cleanup fqdn (ok u) e = e
    after_cleanup fqdn (err x) e = report solver.on_cleanup_error fqdn x e

    -- The closure that `cleanup_guard` hands to the guard.
    unfoldable pub cleanup_record : PlacedRecord → E → E
    unfolding after_cleanup
    cleanup_record record_ e =
        let done = env.cleanup record_.fqdn record_.value e in
        after_cleanup record_.fqdn done.0 done.1

    abbrev pub placed_of : Challenge → PlacedRecord
    placed_of challenge = record { fqdn = challenge.fqdn; value = challenge.dns_value }

    unfoldable pub after_present :
        Result (Unit {0})
        → Challenge
        → (Guard PlacedRecord → List ℕ → E → Run E (List ℕ))
        → Guard PlacedRecord
        → List ℕ
        → E
        → Run E (List ℕ)
    after_present (err x) challenge again placed tokens e = some (err x, placed, e)
    after_present (ok u) challenge again placed tokens e =
        again placed (tokens ++ (challenge.token ∷ [])) e

    -- The body of the `while let` loop. The record is noted before `present` is called.
    unfoldable pub place_next :
        Option (Result Challenge)
        → (Guard PlacedRecord → List ℕ → E → Run E (List ℕ))
        → Guard PlacedRecord
        → List ℕ
        → E
        → Run E (List ℕ)
    unfolding after_present
    place_next none again placed tokens e = some (ok tokens, placed, e)
    place_next (some (err x)) again placed tokens e = some (err x, placed, e)
    place_next (some (ok challenge)) again placed tokens e =
        let presented = env.present challenge.fqdn challenge.dns_value e in
        after_present presented.0 challenge again (push placed (placed_of challenge)) tokens
          presented.1

    unfoldable pub place_all : ℕ → Guard PlacedRecord → List ℕ → E → Run E (List ℕ)
    unfolding place_next
    place_all zero placed tokens e = none
    place_all (suc fuel) placed tokens e =
        let yielded = env.next_dns01 e in
        place_next yielded.0 (place_all fuel) placed tokens yielded.1

    -- `self.timing.unwrap_or_else(|| self.provider.timing())`.
    abbrev chosen_timing : Option PropagationTiming → PropagationTiming
    chosen_timing none = env.timing
    chosen_timing (some t) = t

    abbrev pub and_wait :
        Option (Result (Unit {0}) × E)
        → (E → Option (Result (Unit {0}) × E))
        → Option (Result (Unit {0}) × E)
    and_wait none later = none
    and_wait (some (err x, e)) later = some (err x, e)
    and_wait (some (ok u, e)) later = later e

    unfoldable pub wait_all : List PlacedRecord → E → Option (Result (Unit {0}) × E)
    wait_all [] e = some (ok tt, e)
    wait_all (r ∷ rs) e =
        and_wait
          (env.wait_for_propagation r.fqdn r.value solver.fallback_resolvers
            (chosen_timing solver.timing) e)
          (wait_all rs)

    unfoldable pub until_visible : Option ℕ → List PlacedRecord → E → Option (Result (Unit {0}) × E)
    unfolding wait_all
    until_visible (some delay) pending e = some (ok tt, env.sleep delay e)
    until_visible none pending e = wait_all pending e

    abbrev pub ready_after :
        List ℕ → Guard PlacedRecord → Option (Result (Unit {0}) × E) → Run E (Unit {0})
    ready_after tokens placed none = none
    ready_after tokens placed (some (err x, e)) = some (err x, placed, e)
    ready_after tokens placed (some (ok u, e)) =
        let answer = env.set_ready tokens e in some (answer.0, placed, answer.1)

    abbrev pub visible_after : Run E (List ℕ) → Run E (Unit {0})
    visible_after none = none
    visible_after (some (err x, placed, e)) = some (err x, placed, e)
    visible_after (some (ok tokens, placed, e)) =
        ready_after tokens placed (until_visible solver.skip_propagation placed.pending e)

    unfoldable pub present_then_ready : ℕ → E → Run E (Unit {0})
    unfolding until_visible place_all
    present_then_ready fuel e = visible_after (place_all fuel empty_guard [] e)

    abbrev pub outcome : Result (Unit {0}) → E → Result (Text × Text) × E
    outcome (err x) e = (err x, e)
    outcome (ok u) e = env.finalize e

    abbrev pub clean_after : Run E (Unit {0}) → Option (Result (Text × Text) × E)
    clean_after none = none
    clean_after (some (r, placed, e)) =
        let done = outcome r e in some (done.0, (run cleanup_record placed done.1).1)

    unfoldable pub solve_with_driver : ℕ → E → Option (Result (Text × Text) × E)
    unfolding present_then_ready cleanup_record
    solve_with_driver fuel e = clean_after (present_then_ready fuel e)
