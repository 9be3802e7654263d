-- ===== src/Solver/Ready.antt =====
-- No challenge is set ready before its record is visible.
use mathlib.Core.List.{append_assoc, append-nil}
use cheti.Prelude.{ℕ, ◌≡◌, refl, sym, ap, ◌∙◌, subst, Option, none, some, List, [], ◌∷◌, ◌++◌, map}
use cheti.Text.{Text}
use cheti.Error.{Result, ok, err}
use cheti.Cleanup.{Guard, empty_guard, run, run_pending}
use cheti.Solver.Environment.{Env, Challenge, PlacedRecord}
use cheti.Solver.{
  Dns01Solver, Run, place_all, wait_all, until_visible, present_then_ready, solve_with_driver,
  cleanup_record, and_wait, ready_after, visible_after, clean_after,
}
use cheti.Solver.Events.{
  waited, readied, finalized, Log, recorded, recorded_solver, challenges, presented_ok, waited_ok,
  Holds, HoldsWait, HoldsEnd, note_wait,
}
use cheti.Solver.Cleans.{cleanup_record_log}
use cheti.Solver.Order.{
  placed, token_of, Visible, JustReady, InOrder, finalized_result, Certified, Placed,
  place_all-Placed,
}

module _ {E : Type 0} (env : Env E) (solver : Dns01Solver E) where
  abbrev skip : Option ℕ
  skip = solver.skip_propagation

  module _ (rs : List PlacedRecord) (cs : List Challenge) where
    -- While polling: the records placed and the challenges stay the same.
    record Polling (polled : List PlacedRecord) (log : Log) : Type 0 where
      pub all_placed : presented_ok log ≡ rs
      pub yielded_all : challenges log ≡ cs
      pub polled_ok : waited_ok log ≡ polled
      pub ordered : InOrder skip log

    abbrev Polled : List PlacedRecord → Result (Unit {0}) → E × Log → Type 0
    Polled polled (ok u) s = Polling polled s.1
    Polled polled (err x) s = InOrder skip s.1

    and_wait-Polled :
        (done later_polled : List PlacedRecord) (r : PlacedRecord)
        (o : Option (Result (Unit {0}) × E)) (log : Log)
        (later : E × Log → Option (Result (Unit {0}) × (E × Log)))
        → Polling done log
        → ((s : E × Log)
            → Polling (done ++ (r ∷ [])) s.1
            → HoldsWait (Polled later_polled) (later s))
        → HoldsWait
            (Polled later_polled)
            (and_wait (recorded env) (recorded_solver solver) (note_wait r o log) later)
    and_wait-Polled done lp r none log later h k = tt
    and_wait-Polled done lp r (some (err x, e)) log later h k = h.ordered
    and_wait-Polled done lp r (some (ok u, e)) log later h k =
        k (e, waited r (ok u) ∷ log)
          (record {
            all_placed = h.all_placed;
            yielded_all = h.yielded_all;
            polled_ok = ap (λ (l : List PlacedRecord). l ++ (r ∷ [])) h.polled_ok;
            ordered = h.ordered;
          })

    wait_all-Polled :
        (done todo : List PlacedRecord) (s : E × Log)
        → Polling done s.1
        → HoldsWait
            (Polled (done ++ todo))
            (wait_all (recorded env) (recorded_solver solver) todo s)
    unfolding wait_all
    wait_all-Polled done [] s h =
        subst (λ (l : List PlacedRecord). Polling l s.1) (sym (append-nil done)) h
    wait_all-Polled done (r ∷ todo) s h =
        and_wait-Polled done (done ++ (r ∷ todo)) r _ s.1
          (wait_all (recorded env) (recorded_solver solver) todo) h
          (λ s' p.
            subst
              (λ (l : List PlacedRecord).
                HoldsWait (Polled l) (wait_all (recorded env) (recorded_solver solver) todo s'))
              (append_assoc done (r ∷ []) todo) (wait_all-Polled (done ++ (r ∷ [])) todo s' p))

    -- What the wait has made true, by the configuration `sk`.
    record Seen (sk : Option ℕ) (log : Log) : Type 0 where
      pub all_placed : presented_ok log ≡ rs
      pub yielded_all : challenges log ≡ cs
      pub visible : Visible sk log
      pub ordered : InOrder skip log

    abbrev SeenIfOk : Option ℕ → Result (Unit {0}) → E × Log → Type 0
    SeenIfOk sk (ok u) s = Seen sk s.1
    SeenIfOk sk (err x) s = InOrder skip s.1

    seen_of_Polled :
        (o : Option (Result (Unit {0}) × (E × Log)))
        → HoldsWait (Polled rs) o
        → HoldsWait (SeenIfOk none) o
    seen_of_Polled none h = tt
    seen_of_Polled (some (err x, s)) h = h
    seen_of_Polled (some (ok u, s)) h = record {
      all_placed = h.all_placed;
      yielded_all = h.yielded_all;
      visible = h.polled_ok ∙ sym h.all_placed;
      ordered = h.ordered;
    }

    until_visible_Seen :
        (sk : Option ℕ) (s : E × Log)
        → Polling [] s.1
        → HoldsWait (SeenIfOk sk) (until_visible (recorded env) (recorded_solver solver) sk rs s)
    unfolding until_visible
    until_visible_Seen none s h =
        seen_of_Polled (wait_all (recorded env) (recorded_solver solver) rs s)
          (wait_all-Polled [] rs s h)
    until_visible_Seen (some d) s h = record {
      all_placed = h.all_placed;
      yielded_all = h.yielded_all;
      visible = refl;
      ordered = h.ordered;
    }

  -- After `present_then_ready`: the log is in order, and after a success it ends with the challenges
  -- being set ready.
  abbrev Presented : Result (Unit {0}) → Guard PlacedRecord → E × Log → Type 0
  Presented (ok u) g s = JustReady s.1 × InOrder skip s.1
  Presented (err x) g s = InOrder skip s.1

  set_ready_Presented :
      (ts : List ℕ) (x : Result (Unit {0})) (g : Guard PlacedRecord) (e : E) (log : Log)
      → InOrder skip (readied ts x ∷ log)
      → Presented x g (e, readied ts x ∷ log)
  set_ready_Presented ts (ok u) g e log h = (tt, h)
  set_ready_Presented ts (err y) g e log h = h

  ready_Presented :
      (ts : List ℕ) (g : Guard PlacedRecord) (cs : List Challenge)
      (o : Option (Result (Unit {0}) × (E × Log)))
      → g.pending ≡ map placed cs
      → ts ≡ map token_of cs
      → HoldsWait (SeenIfOk g.pending cs skip) o
      → Holds Presented (ready_after (recorded env) (recorded_solver solver) ts g o)
  ready_Presented ts g cs none p t h = tt
  ready_Presented ts g cs (some (err x, s)) p t h = h
  ready_Presented ts g cs (some (ok u, s)) p t h =
      set_ready_Presented ts (env.set_ready ts s.0).0 g (env.set_ready ts s.0).1 s.1 (
        h.all_placed ∙ p ∙ ap (map placed) (sym h.yielded_all),
        t ∙ ap (map token_of) (sym h.yielded_all),
        h.visible,
        h.ordered,
      )

  visible_Presented :
      (o : Run (E × Log) (List ℕ))
      → Holds (Placed env solver) o
      → Holds Presented (visible_after (recorded env) (recorded_solver solver) o)
  visible_Presented none h = tt
  visible_Presented (some (err x, g, s)) h = h
  visible_Presented (some (ok ts, g, s)) h =
      ready_Presented ts g (challenges s.1)
        (until_visible (recorded env) (recorded_solver solver) skip g.pending s)
        (h.guarded ∙ h.all_placed) h.tokens
        (until_visible_Seen g.pending (challenges s.1) skip s (record {
          all_placed = sym h.guarded;
          yielded_all = refl;
          polled_ok = h.unpolled;
          ordered = h.ordered;
        }))

  run_InOrder :
      (rs : List PlacedRecord) (s : E × Log)
      → let s' : E × Log =
          run_pending (cleanup_record (recorded env) (recorded_solver solver)) rs s in
        InOrder skip s.1 → InOrder skip s'.1 × (finalized_result s'.1 ≡ finalized_result s.1)
  unfolding run_pending
  run_InOrder [] s h = (h, refl)
  run_InOrder (r ∷ rs) s h =
      let next = cleanup_record (recorded env) (recorded_solver solver) r s in
      let e = cleanup_record_log env solver r s in
      let (o, f) = run_InOrder rs next (subst (InOrder skip) (sym e) h) in
      (o, f ∙ ap finalized_result e)

  abbrev Correct : Result (Text × Text) → E × Log → Type 0
  Correct r s = InOrder skip s.1 × Certified r s.1

  certified :
      (r : Result (Text × Text)) (log : Log) → finalized_result log ≡ some r → Certified r log
  certified (ok c) log h = h
  certified (err x) log h = tt

  clean_Correct :
      (o : Run (E × Log) (Unit {0}))
      → Holds Presented o
      → HoldsEnd Correct (clean_after (recorded env) (recorded_solver solver) o)
  unfolding run
  clean_Correct none h = tt
  clean_Correct (some (err x, g, s)) h = ((run_InOrder g.pending s h).0, tt)
  clean_Correct (some (ok u, g, s)) h =
      let s' : E × Log = ((env.finalize s.0).1, finalized (env.finalize s.0).0 ∷ s.1) in
      let (o, f) = run_InOrder g.pending s' (h.0, h.1) in (o, certified (env.finalize s.0).0 _ f)

  -- In every run that gives a result: challenges are set ready only after each challenge yielded
  -- has had its record placed, with the tokens of those challenges, and after every record placed
  -- has been polled with success (or the configured delay has been slept); the order is finalized
  -- only right after that succeeded; and a certificate is returned only if it is what finalizing
  -- gave.
  pub solve-Correct :
      (fuel : ℕ) (e e' : E) (log : Log) (r : Result (Text × Text))
      → solve_with_driver (recorded env) (recorded_solver solver) fuel (e, []) ≡ some (r, (e', log))
      → InOrder solver.skip_propagation log × Certified r log
  unfolding solve_with_driver present_then_ready
  solve-Correct fuel e e' log r h = subst (HoldsEnd Correct) h (
      clean_Correct (present_then_ready (recorded env) (recorded_solver solver) fuel (e, [])) (
        visible_Presented
          (place_all (recorded env) (recorded_solver solver) fuel empty_guard [] (e, []))
          (place_all-Placed env solver fuel empty_guard [] (e, [])
            (record {
              guarded = refl;
              all_placed = refl;
              tokens = refl;
              unpolled = refl;
              ordered = tt;
            }))))
