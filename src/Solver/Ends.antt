-- ===== src/Solver/Ends.antt =====
-- A run of the solver ends.
use cheti.Prelude.{ℕ, zero, suc, ◌≤◌, ◌<◌, ◌≡◌, ◌≢◌, refl, Option, none, some, List, [], ◌∷◌, arith}
use cheti.Text.{Text}
use cheti.Error.{Result, ok, err}
use cheti.Dns.Client.{PropagationTiming}
use cheti.Cleanup.{Guard, empty_guard, push}
use cheti.Solver.Environment.{Env, Challenge, PlacedRecord}
use cheti.Solver.{
  Dns01Solver, Run, place_all, place_next, after_present, wait_all, until_visible,
  present_then_ready, solve_with_driver, and_wait, ready_after, visible_after, clean_after,
  placed_of,
}

abbrev Gives : {A : Type 0} → Option A → Type 0
Gives {A} o = (a : A) × (o ≡ some a)

-- The driver has `left` challenges to go at most, and every poll ends.
pub record Finite {E : Type 0} (env : Env E) (left : E → ℕ) : Type 0 where
  pub yields_less : (e : E) → (env.next_dns01 e).0 ≢ none → left (env.next_dns01 e).1 < left e
  pub present_keeps : (fqdn value : Text) (e : E) → left (env.present fqdn value e).1 ≤ left e
  pub wait_ends :
      (fqdn value : Text) (resolvers : List Text) (timing : PropagationTiming) (e : E)
      → Gives (env.wait_for_propagation fqdn value resolvers timing e)

module _ {E : Type 0} (env : Env E) (solver : Dns01Solver E) (left : E → ℕ)
    (f : Finite env left) where
  next-Gives :
      (y : Option (Result Challenge)) (again : Guard PlacedRecord → List ℕ → E → Run E (List ℕ))
      (g : Guard PlacedRecord) (ts : List ℕ) (e : E)
      → (y ≢ none
          → (g' : Guard PlacedRecord) (ts' : List ℕ) (e' : E) → left e' ≤ left e
          → Gives (again g' ts' e'))
      → Gives (place_next env solver y again g ts e)
  unfolding place_next after_present
  next-Gives none again g ts e k = (_, refl)
  next-Gives (some (err x)) again g ts e k = (_, refl)
  next-Gives (some (ok c)) again g ts e k =
      after (env.present c.fqdn c.dns_value e).0 (f.present_keeps c.fqdn c.dns_value e)
    where
      after :
          (x : Result (Unit {0}))
          → left (env.present c.fqdn c.dns_value e).1 ≤ left e
          → Gives (
              after_present env solver x c again
                (push g (placed_of env solver c))
                ts
                (env.present c.fqdn c.dns_value e).1)
      after (err x) h = (_, refl)
      after (ok u) h = k (λ n. cc) _ _ _ h

  place_all-Gives :
      (fuel : ℕ) (g : Guard PlacedRecord) (ts : List ℕ) (e : E)
      → left e < fuel
      → Gives (place_all env solver fuel g ts e)
  unfolding place_all
  place_all-Gives zero g ts e h = absurd (omega arith)
  place_all-Gives (suc fuel) g ts e h =
      next-Gives (env.next_dns01 e).0 (place_all env solver fuel) g ts (env.next_dns01 e).1
        (λ y g' ts' e' le. place_all-Gives fuel g' ts' e' (omega (arith, f.yields_less e y)))

  and_wait-Gives :
      (o : Option (Result (Unit {0}) × E)) (later : E → Option (Result (Unit {0}) × E))
      → Gives o
      → ((e : E) → Gives (later e))
      → Gives (and_wait env solver o later)
  and_wait-Gives none later (a, h) k = cc
  and_wait-Gives (some (err x, e)) later h k = (_, refl)
  and_wait-Gives (some (ok u, e)) later h k = k e

  wait_all-Gives : (rs : List PlacedRecord) (e : E) → Gives (wait_all env solver rs e)
  unfolding wait_all
  wait_all-Gives [] e = (_, refl)
  wait_all-Gives (r ∷ rs) e =
      and_wait-Gives _ (wait_all env solver rs) (f.wait_ends r.fqdn r.value _ _ e)
        (wait_all-Gives rs)

  until_visible-Gives :
      (skip : Option ℕ) (rs : List PlacedRecord) (e : E)
      → Gives (until_visible env solver skip rs e)
  unfolding until_visible
  until_visible-Gives none rs e = wait_all-Gives rs e
  until_visible-Gives (some d) rs e = (_, refl)

  ready-Gives :
      (ts : List ℕ) (g : Guard PlacedRecord) (o : Option (Result (Unit {0}) × E))
      → Gives o
      → Gives (ready_after env solver ts g o)
  ready-Gives ts g none (a, h) = cc
  ready-Gives ts g (some (err x, e)) h = (_, refl)
  ready-Gives ts g (some (ok u, e)) h = (_, refl)

  visible-Gives : (o : Run E (List ℕ)) → Gives o → Gives (visible_after env solver o)
  visible-Gives none (a, h) = cc
  visible-Gives (some (err x, g, e)) h = (_, refl)
  visible-Gives (some (ok ts, g, e)) h =
      ready-Gives ts g _ (until_visible-Gives solver.skip_propagation g.pending e)

  clean-Gives : (o : Run E (Unit {0})) → Gives o → Gives (clean_after env solver o)
  clean-Gives none (a, h) = cc
  clean-Gives (some (r, g, e)) h = (_, refl)

  -- If the driver yields finitely many challenges and every poll ends, the run ends with a result:
  -- one turn of the loop for each challenge left, and one more, are enough.
  pub solve_with_driver_gives :
      (fuel : ℕ) (e : E)
      → left e < fuel
      → (r : Result (Text × Text) × E) × (solve_with_driver env solver fuel e ≡ some r)
  unfolding solve_with_driver present_then_ready
  solve_with_driver_gives fuel e h =
      clean-Gives _ (visible-Gives _ (place_all-Gives fuel empty_guard [] e h))
