-- ===== src/Solver/Events.antt =====
-- The calls of the solver to its environment, in a log.
use cheti.Prelude.{ℕ, Option, none, some, List, [], ◌∷◌, ◌++◌}
use cheti.Text.{Text}
use cheti.Error.{DnsError, Result, ok}
use cheti.Cleanup.{Guard}
use cheti.Solver.Environment.{Env, Challenge, PlacedRecord}
use cheti.Solver.{Dns01Solver, Run}

-- Each call with its answer. A log has the newest first.
pub data Event : Type 0 where
  yielded : Option (Result Challenge) → Event
  presented cleaned waited : PlacedRecord → Result (Unit {0}) → Event
  slept : ℕ → Event
  readied : List ℕ → Result (Unit {0}) → Event
  finalized : Result (Text × Text) → Event

abbrev pub Log : Type 0
Log = List Event

abbrev pub at : Text → Text → PlacedRecord
at fqdn value = record { fqdn = fqdn; value = value }

module _ {E : Type 0} where
  abbrev pub note {ℓ} : {A : Type ℓ} → (A → Event) → A × E → Log → A × (E × Log)
  note event (a, e) log = (a, (e, event a ∷ log))

  abbrev pub note_wait :
      PlacedRecord → Option (Result (Unit {0}) × E) → Log → Option (Result (Unit {0}) × (E × Log))
  note_wait r none log = none
  note_wait r (some (x, e)) log = some (x, (e, waited r x ∷ log))

  -- The environment, with a log.
  abbrev pub recorded : Env E → Env (E × Log)
  recorded env = record {
    next_dns01 = λ s. note yielded (env.next_dns01 s.0) s.1;
    set_ready = λ tokens s. note (readied tokens) (env.set_ready tokens s.0) s.1;
    finalize = λ s. note finalized (env.finalize s.0) s.1;
    present = λ fqdn value s. note (presented (at fqdn value)) (env.present fqdn value s.0) s.1;
    cleanup = λ fqdn value s. note (cleaned (at fqdn value)) (env.cleanup fqdn value s.0) s.1;
    timing = env.timing;
    wait_for_propagation = λ fqdn value resolvers timing s.
        note_wait (at fqdn value) (env.wait_for_propagation fqdn value resolvers timing s.0) s.1;
    sleep = λ delay s. (env.sleep delay s.0, slept delay ∷ s.1);
  }

  abbrev pub recorded_hook :
      Option (Text → DnsError → E → E) → Option (Text → DnsError → E × Log → E × Log)
  recorded_hook none = none
  recorded_hook (some hook) = some (λ fqdn x s. (hook fqdn x s.0, s.1))

  abbrev pub recorded_solver : Dns01Solver E → Dns01Solver (E × Log)
  recorded_solver s = record {
    fallback_resolvers = s.fallback_resolvers;
    timing = s.timing;
    skip_propagation = s.skip_propagation;
    on_cleanup_error = recorded_hook s.on_cleanup_error;
  }

-- What a log tells, oldest first: the challenges yielded, the records for which `present` was
-- called and succeeded, those polled with success, and those for which `cleanup` was called.
abbrev pub challenges : Log → List Challenge
challenges [] = []
challenges (yielded (some (ok c)) ∷ log) = challenges log ++ (c ∷ [])
challenges (_ ∷ log) = challenges log

abbrev pub presents : Log → List PlacedRecord
presents [] = []
presents (presented r x ∷ log) = presents log ++ (r ∷ [])
presents (_ ∷ log) = presents log

abbrev pub presented_ok : Log → List PlacedRecord
presented_ok [] = []
presented_ok (presented r (ok u) ∷ log) = presented_ok log ++ (r ∷ [])
presented_ok (_ ∷ log) = presented_ok log

abbrev pub waited_ok : Log → List PlacedRecord
waited_ok [] = []
waited_ok (waited r (ok u) ∷ log) = waited_ok log ++ (r ∷ [])
waited_ok (_ ∷ log) = waited_ok log

abbrev pub cleanups : Log → List PlacedRecord
cleanups [] = []
cleanups (cleaned r x ∷ log) = cleanups log ++ (r ∷ [])
cleanups (_ ∷ log) = cleanups log

-- `P` of what a run gives, if it gives something.
abbrev pub Holds {ℓ} :
    {S A : Type 0} → (Result A → Guard PlacedRecord → S → Type ℓ) → Run S A → Type ℓ
Holds P none = Unit
Holds P (some (r, g, s)) = P r g s

abbrev pub HoldsWait {ℓ} :
    {S : Type 0} → (Result (Unit {0}) → S → Type ℓ) → Option (Result (Unit {0}) × S) → Type ℓ
HoldsWait P none = Unit
HoldsWait P (some (r, s)) = P r s

abbrev pub HoldsEnd {ℓ} :
    {S : Type 0} → (Result (Text × Text) → S → Type ℓ) → Option (Result (Text × Text) × S) → Type ℓ
HoldsEnd P none = Unit
HoldsEnd P (some (r, s)) = P r s
