-- ===== src/Examples/Solver.antt =====
-- Runs of the solver of src/solver.rs.
use cheti.Prelude.{
  ℕ, suc, ◌≡◌, ◌≢◌, refl, ◌<◌, arith, Option, none, some, List, [], ◌∷◌, length, true,
  if◌then◌else◌,
}
use cheti.Text.{Text, text_eq}
use cheti.Error.{DnsError, Result, ok, err, api}
use cheti.Dns.Client.{Reply, answered, default_timing}
use cheti.Cleanup.{run, run_pending}
use cheti.Cleanup.Cancel.{
  Action, pushes, starts, drops, task_starts, task_finishes, fresh, steps, Accounted,
  steps-Accounted, fresh-Accounted,
}
use cheti.Solver.{
  Dns01Solver, new, solve_with_driver, present_then_ready, until_visible, wait_all, place_all,
  place_next, after_present, cleanup_record, after_cleanup, report,
}
use cheti.Solver.Environment.{Env, Challenge}
use cheti.Solver.Events.{
  Log, recorded, recorded_solver, cleanups, presents, yielded, presented, cleaned, waited, readied,
  finalized, at,
}
use cheti.Solver.Cleans.{solve-Cleaned}
use cheti.Solver.Order.{InOrder, Certified}
use cheti.Solver.Ready.{solve-Correct}
use cheti.Solver.Acme.{Authorization, pending, dns, Order, ready, InstantAcmeDriver, set_ready}
use cheti.Solver.Acme.Targets.{recorded as recorded_order}
use cheti.Solver.Errors.{result_of, other_env, other_solver, solve-same_result}
use cheti.Solver.Ends.{Finite, solve_with_driver_gives}

abbrev name_a : Text
name_a = 97 ∷ []

abbrev name_b : Text
name_b = 98 ∷ []

abbrev value : Text
value = 118 ∷ []

abbrev challenge_a : Challenge
challenge_a = record { domain = name_a; fqdn = name_a; dns_value = value; token = 0 }

abbrev challenge_b : Challenge
challenge_b = record { domain = name_b; fqdn = name_b; dns_value = value; token = 1 }

abbrev refused : DnsError
refused = api []

abbrev pair : Text × Text
pair = (value, value)

abbrev next_of : List Challenge → Option (Result Challenge) × List Challenge
next_of [] = (none, [])
next_of (c ∷ cs) = (some (ok c), cs)

-- An environment in which `present` fails for one name. The world is the challenges left.
abbrev refusing : Text → Env (List Challenge)
refusing bad = record {
  next_dns01 = next_of;
  set_ready = λ tokens e. (ok tt, e);
  finalize = λ e. (ok pair, e);
  present = λ fqdn v e. (if text_eq fqdn bad then err refused else ok tt, e);
  cleanup = λ fqdn v e. (err refused, e);
  timing = default_timing;
  wait_for_propagation = λ fqdn v resolvers timing e. some (ok tt, e);
  sleep = λ d e. e;
}

abbrev two : List Challenge
two = challenge_a ∷ challenge_b ∷ []

abbrev solver : Dns01Solver (List Challenge)
solver = new

abbrev log_refused : Log
log_refused =
    cleaned (at name_b value) (err refused)
    ∷ cleaned (at name_a value) (err refused)
    ∷ presented (at name_b value) (err refused)
    ∷ yielded (some (ok challenge_b))
    ∷ presented (at name_a value) (ok tt)
    ∷ yielded (some (ok challenge_a))
    ∷ []

abbrev log_issued : Log
log_issued =
    cleaned (at name_b value) (err refused)
    ∷ cleaned (at name_a value) (err refused)
    ∷ finalized (ok pair)
    ∷ readied (0 ∷ 1 ∷ []) (ok tt)
    ∷ waited (at name_b value) (ok tt)
    ∷ waited (at name_a value) (ok tt)
    ∷ yielded none
    ∷ presented (at name_b value) (ok tt)
    ∷ yielded (some (ok challenge_b))
    ∷ presented (at name_a value) (ok tt)
    ∷ yielded (some (ok challenge_a))
    ∷ []

-- The second `present` fails: both records are cleaned up.
run_refused :
    solve_with_driver (recorded (refusing name_b)) (recorded_solver solver) 3 (two, [])
    ≡ some (err refused, ([], log_refused))
unfolding solve_with_driver present_then_ready until_visible wait_all place_all place_next
    after_present cleanup_record after_cleanup report run run_pending
run_refused = refl

run_issued :
    solve_with_driver (recorded (refusing [])) (recorded_solver solver) 3 (two, [])
    ≡ some (ok pair, ([], log_issued))
unfolding solve_with_driver present_then_ready until_visible wait_all place_all place_next
    after_present cleanup_record after_cleanup report run run_pending
run_issued = refl

solve-Cleaned_example : cleanups log_refused ≡ presents log_refused
solve-Cleaned_example =
    solve-Cleaned (refusing name_b) solver 3 two [] log_refused (err refused) run_refused

solve-Correct_example : InOrder none log_issued × Certified (ok pair) log_issued
solve-Correct_example = solve-Correct (refusing []) solver 3 two [] log_issued (ok pair) run_issued

next_of_less : (e : List Challenge) → (next_of e).0 ≢ none → length (next_of e).1 < length e
next_of_less [] h = absurd (h refl)
next_of_less (c ∷ cs) h = omega arith

refusing-Finite : (bad : Text) → Finite (refusing bad) length
refusing-Finite bad = record {
  yields_less = next_of_less;
  present_keeps = λ fqdn v e. omega arith;
  wait_ends = λ fqdn v resolvers timing e. (_, refl);
}

solve_with_driver_gives_example :
    (r : Result (Text × Text) × List Challenge) × (solve_with_driver (refusing name_b) solver 3 two
      ≡ some r)
solve_with_driver_gives_example =
    solve_with_driver_gives (refusing name_b) solver length (refusing-Finite name_b) 3 two
      (omega arith)

abbrev actions : List (Action ℕ)
actions = pushes 7 ∷ pushes 8 ∷ starts ∷ drops ∷ task_starts ∷ task_finishes ∷ task_starts ∷ []

steps-Accounted_example : Accounted (steps true fresh actions)
steps-Accounted_example = steps-Accounted fresh actions fresh-Accounted

-- An order of two pending authorizations that accepts what it is told.
abbrev offered : Text → Reply Authorization
offered url = answered (record {
  status = pending;
  identifier = dns url;
  dns01 = some (record { url = url; dns_value = value });
})

abbrev order : Order ℕ
order = record {
  authorizations = λ e. offered name_a ∷ offered name_b ∷ [];
  challenge_set_ready = λ url e. (answered tt, suc e);
  poll_ready = λ e. (answered ready, e);
  finalize = λ e. (answered value, e);
  poll_certificate = λ e. (answered value, e);
}

abbrev driver : InstantAcmeDriver
driver = record { queue = some []; challenge_urls = name_a ∷ name_b ∷ [] }

-- A cleanup that succeeds, and a report that loses the challenges left.
abbrev cleaning : Text → Text → List Challenge → Result (Unit {0}) × List Challenge
cleaning fqdn v e = (ok tt, e)

abbrev losing : Option (Text → DnsError → List Challenge → List Challenge)
losing = some (λ fqdn x e. [])

solve-same_result_example :
    let env = other_env (refusing name_b) solver cleaning losing in
    let changed = other_solver (refusing name_b) solver cleaning losing in
    result_of (solve_with_driver (refusing name_b) solver 3 two)
    ≡ result_of (solve_with_driver env changed 3 two)
solve-same_result_example = solve-same_result (refusing name_b) solver cleaning losing 3 two
