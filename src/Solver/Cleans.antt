-- ===== src/Solver/Cleans.antt =====
-- Every record that was placed is cleaned up.
use mathlib.Core.List.{append_assoc, append-nil}
use cheti.Prelude.{
  ℕ, zero, suc, ◌≡◌, refl, sym, ap, ◌∙◌, subst, Option, none, some, List, [], ◌∷◌, ◌++◌,
}
use cheti.Text.{Text}
use cheti.Error.{DnsError, Result, ok, err}
use cheti.Cleanup.{Guard, empty_guard, run, run_pending}
use cheti.Solver.Environment.{Env, Challenge, PlacedRecord}
use cheti.Solver.{
  Dns01Solver, Run, place_all, place_next, after_present, wait_all, until_visible,
  present_then_ready, solve_with_driver, cleanup_record, after_cleanup, report, and_wait,
  ready_after, visible_after, clean_after,
}
use cheti.Solver.Events.{
  yielded, cleaned, waited, finalized, Log, recorded, recorded_solver, recorded_hook, presents,
  cleanups, Holds, HoldsWait, HoldsEnd, note_wait, at,
}

module _ {E : Type 0} (env : Env E) (solver : Dns01Solver E) where
  -- The guard holds the records presented, in order, and nothing has been cleaned up yet.
  record Tracked (g : Guard PlacedRecord) (s : E × Log) : Type 0 where
    pub placed : presents s.1 ≡ g.pending
    pub uncleaned : cleanups s.1 ≡ []

  abbrev Tracks {ℓ} : {A : Type ℓ} → A → Guard PlacedRecord → E × Log → Type 0
  Tracks r g s = Tracked g s

  present_Tracked :
      (again : Guard PlacedRecord → List ℕ → E × Log → Run (E × Log) (List ℕ))
      → ((g : Guard PlacedRecord) (ts : List ℕ) (s : E × Log)
          → Tracked g s
          → Holds Tracks (again g ts s))
      → (x : Result (Unit {0})) (c : Challenge) (g : Guard PlacedRecord) (ts : List ℕ) (s : E × Log)
      → Tracked g s
      → Holds Tracks (after_present (recorded env) (recorded_solver solver) x c again g ts s)
  unfolding after_present
  present_Tracked again k (err x) c g ts s h = h
  present_Tracked again k (ok u) c g ts s h = k g _ s h

  next_Tracked :
      (again : Guard PlacedRecord → List ℕ → E × Log → Run (E × Log) (List ℕ))
      → ((g : Guard PlacedRecord) (ts : List ℕ) (s : E × Log)
          → Tracked g s
          → Holds Tracks (again g ts s))
      → (y : Option (Result Challenge)) (g : Guard PlacedRecord) (ts : List ℕ) (s : E × Log)
      → Tracked g s
      → Holds Tracks (place_next (recorded env) (recorded_solver solver) y again g ts s)
  unfolding place_next
  next_Tracked again k none g ts s h = h
  next_Tracked again k (some (err x)) g ts s h = h
  next_Tracked again k (some (ok c)) g ts s h =
      present_Tracked again k (env.present c.fqdn c.dns_value s.0).0 c _ ts _ (record {
        placed = ap (λ (l : List PlacedRecord). l ++ (at c.fqdn c.dns_value ∷ [])) h.placed;
        uncleaned = h.uncleaned;
      })

  yield_Tracked :
      (y : Option (Result Challenge)) (g : Guard PlacedRecord) (e : E) (log : Log)
      → presents log ≡ g.pending
      → cleanups log ≡ []
      → Tracked g (e, yielded y ∷ log)
  yield_Tracked y g e log p u = record { placed = p; uncleaned = u }

  place_all-Tracked :
      (fuel : ℕ) (g : Guard PlacedRecord) (ts : List ℕ) (s : E × Log)
      → Tracked g s
      → Holds Tracks (place_all (recorded env) (recorded_solver solver) fuel g ts s)
  unfolding place_all
  place_all-Tracked zero g ts s h = tt
  place_all-Tracked (suc fuel) g ts s h =
      next_Tracked (place_all (recorded env) (recorded_solver solver) fuel) (place_all-Tracked fuel)
        (env.next_dns01 s.0).0 g ts _
        (yield_Tracked (env.next_dns01 s.0).0 g (env.next_dns01 s.0).1 s.1 h.placed h.uncleaned)

  module _ (g : Guard PlacedRecord) where
    abbrev StillTracked : Result (Unit {0}) → E × Log → Type 0
    StillTracked r s = Tracked g s

    and_wait-Tracked :
        (r : PlacedRecord) (o : Option (Result (Unit {0}) × E)) (log : Log)
        (later : E × Log → Option (Result (Unit {0}) × (E × Log)))
        → presents log ≡ g.pending
        → cleanups log ≡ []
        → ((s : E × Log) → Tracked g s → HoldsWait StillTracked (later s))
        → HoldsWait StillTracked
            (and_wait (recorded env) (recorded_solver solver) (note_wait r o log) later)
    and_wait-Tracked r none log later p u k = tt
    and_wait-Tracked r (some (err x, e)) log later p u k = record { placed = p; uncleaned = u }
    and_wait-Tracked r (some (ok v, e)) log later p u k =
        k (e, waited r (ok v) ∷ log) (record { placed = p; uncleaned = u })

    wait_all-Tracked :
        (rs : List PlacedRecord) (s : E × Log)
        → Tracked g s
        → HoldsWait StillTracked (wait_all (recorded env) (recorded_solver solver) rs s)
    unfolding wait_all
    wait_all-Tracked [] s h = h
    wait_all-Tracked (r ∷ rs) s h =
        and_wait-Tracked r _ s.1 (wait_all (recorded env) (recorded_solver solver) rs) h.placed
          h.uncleaned (wait_all-Tracked rs)

    until_visible-Tracked :
        (skip : Option ℕ) (rs : List PlacedRecord) (s : E × Log)
        → Tracked g s
        → HoldsWait StillTracked (until_visible (recorded env) (recorded_solver solver) skip rs s)
    unfolding until_visible
    until_visible-Tracked none rs s h = wait_all-Tracked rs s h
    until_visible-Tracked (some d) rs s h = record { placed = h.placed; uncleaned = h.uncleaned }

    ready_Tracked :
        (ts : List ℕ) (o : Option (Result (Unit {0}) × (E × Log)))
        → HoldsWait StillTracked o
        → Holds Tracks (ready_after (recorded env) (recorded_solver solver) ts g o)
    ready_Tracked ts none h = tt
    ready_Tracked ts (some (err x, s)) h = h
    ready_Tracked ts (some (ok u, s)) h = record { placed = h.placed; uncleaned = h.uncleaned }

  visible_Tracked :
      (o : Run (E × Log) (List ℕ))
      → Holds Tracks o
      → Holds Tracks (visible_after (recorded env) (recorded_solver solver) o)
  visible_Tracked none h = tt
  visible_Tracked (some (err x, g, s)) h = h
  visible_Tracked (some (ok ts, g, s)) h =
      ready_Tracked g ts _ (until_visible-Tracked g solver.skip_propagation g.pending s h)

  -- Cleaning up the records of a list adds them to the cleanups, in order.
  report_log :
      (hook : Option (Text → DnsError → E → E)) (fqdn : Text) (x : DnsError) (s : E × Log)
      → (report (recorded env) (recorded_solver solver) (recorded_hook hook) fqdn x s).1 ≡ s.1
  unfolding report
  report_log none fqdn x s = refl
  report_log (some hook) fqdn x s = refl

  after_cleanup_log :
      (fqdn : Text) (x : Result (Unit {0})) (s : E × Log)
      → (after_cleanup (recorded env) (recorded_solver solver) fqdn x s).1 ≡ s.1
  unfolding after_cleanup
  after_cleanup_log fqdn (ok u) s = refl
  after_cleanup_log fqdn (err x) s = report_log solver.on_cleanup_error fqdn x s

  pub cleanup_record_log :
      (r : PlacedRecord) (s : E × Log)
      → (cleanup_record (recorded env) (recorded_solver solver) r s).1
        ≡ cleaned r (env.cleanup r.fqdn r.value s.0).0 ∷ s.1
  unfolding cleanup_record
  cleanup_record_log r s = after_cleanup_log r.fqdn (env.cleanup r.fqdn r.value s.0).0 _

  run_log :
      (rs : List PlacedRecord) (s : E × Log)
      → let s' : E × Log =
          run_pending (cleanup_record (recorded env) (recorded_solver solver)) rs s in
        (cleanups s'.1 ≡ cleanups s.1 ++ rs) × (presents s'.1 ≡ presents s.1)
  unfolding run_pending
  run_log [] s = (sym (append-nil (cleanups s.1)), refl)
  run_log (r ∷ rs) s =
      let next = cleanup_record (recorded env) (recorded_solver solver) r s in
      let (c, p) = run_log rs next in
      (
        c
            ∙ ap (λ (l : Log). cleanups l ++ rs) (cleanup_record_log r s)
            ∙ append_assoc (cleanups s.1) (r ∷ []) rs,
        p ∙ ap presents (cleanup_record_log r s),
      )

  abbrev Cleaned : Result (Text × Text) → E × Log → Type 0
  Cleaned r s = cleanups s.1 ≡ presents s.1

  cleaned_is_presented :
      (g : Guard PlacedRecord) (s s' : E × Log)
      → Tracked g s
      → cleanups s'.1 ≡ cleanups s.1 ++ g.pending
      → presents s'.1 ≡ presents s.1
      → cleanups s'.1 ≡ presents s'.1
  cleaned_is_presented g s s' h c p =
      c ∙ ap (λ (l : List PlacedRecord). l ++ g.pending) h.uncleaned ∙ sym h.placed ∙ sym p

  clean_Cleaned :
      (o : Run (E × Log) (Unit {0}))
      → Holds Tracks o
      → HoldsEnd Cleaned (clean_after (recorded env) (recorded_solver solver) o)
  unfolding run
  clean_Cleaned none h = tt
  clean_Cleaned (some (err x, g, s)) h =
      let (c, p) = run_log g.pending s in
      cleaned_is_presented g s
        (run_pending (cleanup_record (recorded env) (recorded_solver solver)) g.pending s) h c p
  clean_Cleaned (some (ok u, g, s)) h =
      let s' : E × Log = ((env.finalize s.0).1, finalized (env.finalize s.0).0 ∷ s.1) in
      let (c, p) = run_log g.pending s' in
      cleaned_is_presented g s'
        (run_pending (cleanup_record (recorded env) (recorded_solver solver)) g.pending s')
        (record { placed = h.placed; uncleaned = h.uncleaned }) c p

  -- In every run that gives a result, whatever happens in it (an error of the driver, of
  -- `present`, of the poll, of ACME or of `cleanup`), `cleanup` is called exactly for the records
  -- for which `present` was called, those whose `present` failed included, once for each call and
  -- in the same order.
  pub solve-Cleaned :
      (fuel : ℕ) (e e' : E) (log : Log) (r : Result (Text × Text))
      → solve_with_driver (recorded env) (recorded_solver solver) fuel (e, []) ≡ some (r, (e', log))
      → cleanups log ≡ presents log
  unfolding solve_with_driver present_then_ready
  solve-Cleaned fuel e e' log r h = subst (HoldsEnd Cleaned) h (
      clean_Cleaned _ (
        visible_Tracked _ (
          place_all-Tracked fuel empty_guard [] (e, [])
            (record { placed = refl; uncleaned = refl }))))
