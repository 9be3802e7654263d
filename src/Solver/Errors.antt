-- ===== src/Solver/Errors.antt =====
-- What a failed cleanup has to do with the result of `solve` in src/solver.rs: nothing.
use cheti.Prelude.{ℕ, zero, suc, ◌≡◌, ◌∙◌, refl, ap, Option, none, some, List, [], ◌∷◌, ◌++◌}
use cheti.Text.{Text}
use cheti.Error.{DnsError, Result, ok, err}
use cheti.Cleanup.{Guard, empty_guard, push}
use cheti.Solver.{
  Dns01Solver, Run, after_present, place_next, place_all, placed_of, and_wait, wait_all,
  until_visible, ready_after, visible_after, clean_after, present_then_ready, solve_with_driver,
}
use cheti.Solver.Environment.{Env, Challenge, PlacedRecord}

abbrev pub result_of : {E A : Type 0} → Option (Result A × E) → Option (Result A)
result_of none = none
result_of (some (r, e)) = some r

module _ {E : Type 0} (env : Env E) (solver : Dns01Solver E)
    (cleanup : Text → Text → E → Result (Unit {0}) × E)
    (hook : Option (Text → DnsError → E → E)) where
  -- Another cleanup, and another report of its errors.
  abbrev pub other_env : Env E
  other_env = record env { cleanup = cleanup }

  abbrev pub other_solver : Dns01Solver E
  other_solver = record solver { on_cleanup_error = hook }

  place_next-same :
      (o : Option (Result Challenge))
      (again again' : Guard PlacedRecord → List ℕ → E → Run E (List ℕ))
      → ((p : Guard PlacedRecord) (t : List ℕ) (e : E) → again p t e ≡ again' p t e)
      → (p : Guard PlacedRecord) (t : List ℕ) (e : E)
      → place_next env solver o again p t e ≡ place_next other_env other_solver o again' p t e
  unfolding place_next
  place_next-same none again again' h p t e = refl
  place_next-same (some (err x)) again again' h p t e = refl
  place_next-same (some (ok c)) again again' h p t e =
      after (env.present c.fqdn c.dns_value e).0 (env.present c.fqdn c.dns_value e).1
    where
      after :
          (r : Result (Unit {0})) (e' : E)
          → after_present env solver r c again (push p (placed_of env solver c)) t e'
            ≡ after_present other_env other_solver r c again'
                (push p (placed_of other_env other_solver c))
                t
                e'
      after (err x) e' = refl
      after (ok u) e' = h (push p (placed_of env solver c)) (t ++ (c.token ∷ [])) e'

  place_all-same :
      (fuel : ℕ) (p : Guard PlacedRecord) (t : List ℕ) (e : E)
      → place_all env solver fuel p t e ≡ place_all other_env other_solver fuel p t e
  unfolding place_all
  place_all-same zero p t e = refl
  place_all-same (suc fuel) p t e =
      place_next-same (env.next_dns01 e).0 (place_all env solver fuel)
        (place_all other_env other_solver fuel) (place_all-same fuel) p t (env.next_dns01 e).1

  and_wait-same :
      (x : Option (Result (Unit {0}) × E)) (later later' : E → Option (Result (Unit {0}) × E))
      → ((e : E) → later e ≡ later' e)
      → and_wait env solver x later ≡ and_wait other_env other_solver x later'
  and_wait-same none later later' h = refl
  and_wait-same (some (err x, e)) later later' h = refl
  and_wait-same (some (ok u, e)) later later' h = h e

  wait_all-same :
      (rs : List PlacedRecord) (e : E)
      → wait_all env solver rs e ≡ wait_all other_env other_solver rs e
  unfolding wait_all
  wait_all-same [] e = refl
  wait_all-same (r ∷ rs) e = and_wait-same _ _ _ (wait_all-same rs)

  until_visible-same :
      (o : Option ℕ) (rs : List PlacedRecord) (e : E)
      → until_visible env solver o rs e ≡ until_visible other_env other_solver o rs e
  unfolding until_visible
  until_visible-same (some delay) rs e = refl
  until_visible-same none rs e = wait_all-same rs e

  ready_after-same :
      (tokens : List ℕ) (p : Guard PlacedRecord) (x y : Option (Result (Unit {0}) × E))
      → x ≡ y
      → ready_after env solver tokens p x ≡ ready_after other_env other_solver tokens p y
  ready_after-same tokens p x y h = go x ∙ ap (ready_after other_env other_solver tokens p) h
    where
      go :
          (z : Option (Result (Unit {0}) × E))
          → ready_after env solver tokens p z ≡ ready_after other_env other_solver tokens p z
      go none = refl
      go (some (err x, e)) = refl
      go (some (ok u, e)) = refl

  visible_after-same :
      (x y : Run E (List ℕ))
      → x ≡ y
      → visible_after env solver x ≡ visible_after other_env other_solver y
  visible_after-same x y h = go x ∙ ap (visible_after other_env other_solver) h
    where
      go :
          (z : Run E (List ℕ)) → visible_after env solver z ≡ visible_after other_env other_solver z
      go none = refl
      go (some (err x, p, e)) = refl
      go (some (ok tokens, p, e)) =
          ready_after-same tokens p _ _ (until_visible-same solver.skip_propagation p.pending e)

  cleaned-same :
      (x y : Run E (Unit {0}))
      → x ≡ y
      → result_of (clean_after env solver x) ≡ result_of (clean_after other_env other_solver y)
  cleaned-same x y h = go x ∙ ap (λ z. result_of (clean_after other_env other_solver z)) h
    where
      go :
          (z : Run E (Unit {0}))
          → result_of (clean_after env solver z) ≡ result_of (clean_after other_env other_solver z)
      go none = refl
      go (some (err x, p, e)) = refl
      go (some (ok u, p, e)) = refl

  -- A run of the solver gives the same result, a certificate or an error, whatever cleanup does, be
  -- it to fail, and whatever is done about its errors: a failed cleanup neither hides an error nor
  -- takes a certificate away.
  pub solve-same_result :
      (fuel : ℕ) (e : E)
      → result_of (solve_with_driver env solver fuel e)
        ≡ result_of (solve_with_driver other_env other_solver fuel e)
  unfolding solve_with_driver present_then_ready
  solve-same_result fuel e =
      cleaned-same _ _ (visible_after-same _ _ (place_all-same fuel empty_guard [] e))
