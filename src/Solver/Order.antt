-- ===== src/Solver/Order.antt =====
-- The order of the calls: records first, then the wait, then ACME.
use mathlib.Core.List.{map-append}
use cheti.Prelude.{ℕ, zero, suc, ◌≡◌, sym, ap, ◌∙◌, Option, none, some, List, [], ◌∷◌, ◌++◌, map}
use cheti.Text.{Text}
use cheti.Error.{Result, ok, err}
use cheti.Cleanup.{Guard}
use cheti.Solver.Environment.{Env, Challenge, PlacedRecord}
use cheti.Solver.{Dns01Solver, Run, place_all, place_next, after_present}
use cheti.Solver.Events.{
  yielded, presented, slept, readied, finalized, Log, recorded, recorded_solver, challenges,
  presented_ok, waited_ok, Holds,
}

abbrev pub placed : Challenge → PlacedRecord
placed c = record { fqdn = c.fqdn; value = c.dns_value }

abbrev pub token_of : Challenge → ℕ
token_of c = c.token

-- With no delay configured, the records polled with success are the ones placed; otherwise the
-- solver has just slept for the delay.
abbrev pub Visible : Option ℕ → Log → Type 0
Visible none log = waited_ok log ≡ presented_ok log
Visible (some d) [] = ⊥
Visible (some d) (slept d' ∷ log) = d' ≡ d
Visible (some d) (_ ∷ log) = ⊥

abbrev pub JustReady : Log → Type 0
JustReady [] = ⊥
JustReady (readied ts (ok u) ∷ log) = Unit
JustReady (_ ∷ log) = ⊥

-- Whenever challenges are set ready: each challenge yielded has had its record placed with success,
-- the tokens are theirs, and the records are visible. And the order is finalized only right after
-- the challenges were set ready with success.
abbrev pub InOrder : Option ℕ → Log → Type 0
InOrder skip [] = Unit
InOrder skip (readied ts x ∷ log) =
    (presented_ok log ≡ map placed (challenges log))
    × (ts ≡ map token_of (challenges log))
    × Visible skip log
    × InOrder skip log
InOrder skip (finalized r ∷ log) = JustReady log × InOrder skip log
InOrder skip (_ ∷ log) = InOrder skip log

abbrev pub finalized_result : Log → Option (Result (Text × Text))
finalized_result [] = none
finalized_result (finalized r ∷ log) = some r
finalized_result (_ ∷ log) = finalized_result log

abbrev pub Certified : Result (Text × Text) → Log → Type 0
Certified (ok c) log = finalized_result log ≡ some (ok c)
Certified (err x) log = Unit

snoc {ℓ} :
    {A B : Type ℓ} (f : A → B) (l : List B) (xs : List A) (a : A)
    → l ≡ map f xs
    → l ++ (f a ∷ []) ≡ map f (xs ++ (a ∷ []))
snoc {B} f l xs a e = ap (λ (k : List B). k ++ (f a ∷ [])) e ∙ sym (map-append f xs (a ∷ []))

module _ {E : Type 0} (env : Env E) (solver : Dns01Solver E) where
  abbrev pub skip : Option ℕ
  skip = solver.skip_propagation

  pub record Placing (g : Guard PlacedRecord) (ts : List ℕ) (s : E × Log) : Type 0 where
    pub guarded : g.pending ≡ presented_ok s.1
    pub all_placed : presented_ok s.1 ≡ map placed (challenges s.1)
    pub tokens : ts ≡ map token_of (challenges s.1)
    pub unpolled : waited_ok s.1 ≡ []
    pub ordered : InOrder skip s.1

  abbrev pub Placed : Result (List ℕ) → Guard PlacedRecord → E × Log → Type 0
  Placed (ok ts) g s = Placing g ts s
  Placed (err x) g s = InOrder skip s.1

  module _ (again : Guard PlacedRecord → List ℕ → E × Log → Run (E × Log) (List ℕ))
      (k : (g : Guard PlacedRecord) (ts : List ℕ) (s : E × Log)
        → Placing g ts s
        → Holds Placed (again g ts s)) where
    present_Placed :
        (x : Result (Unit {0})) (c : Challenge) (g : Guard PlacedRecord) (ts : List ℕ) (e : E)
        (log : Log)
        → Placing g ts (e, log)
        → Holds Placed (
            after_present
              (recorded env)
              (recorded_solver solver)
              x
              c
              again
              (record { pending = g.pending ++ (placed c ∷ []) })
              ts
              (e, presented (placed c) x ∷ yielded (some (ok c)) ∷ log))
    unfolding after_present
    present_Placed (err x) c g ts e log h = h.ordered
    present_Placed (ok u) c g ts e log h = k _ _ _ (record {
      guarded = ap (λ (l : List PlacedRecord). l ++ (placed c ∷ [])) h.guarded;
      all_placed = snoc placed (presented_ok log) (challenges log) c h.all_placed;
      tokens = snoc token_of ts (challenges log) c h.tokens;
      unpolled = h.unpolled;
      ordered = h.ordered;
    })

    next_Placed :
        (y : Option (Result Challenge)) (g : Guard PlacedRecord) (ts : List ℕ) (e : E) (log : Log)
        → Placing g ts (e, log)
        → Holds Placed
            (place_next (recorded env) (recorded_solver solver) y again g ts (e, yielded y ∷ log))
    unfolding place_next
    next_Placed none g ts e log h = record {
      guarded = h.guarded;
      all_placed = h.all_placed;
      tokens = h.tokens;
      unpolled = h.unpolled;
      ordered = h.ordered;
    }
    next_Placed (some (err x)) g ts e log h = h.ordered
    next_Placed (some (ok c)) g ts e log h =
        present_Placed (env.present c.fqdn c.dns_value e).0 c g ts
          (env.present c.fqdn c.dns_value e).1 log
          (record {
            guarded = h.guarded;
            all_placed = h.all_placed;
            tokens = h.tokens;
            unpolled = h.unpolled;
            ordered = h.ordered;
          })

  pub place_all-Placed :
      (fuel : ℕ) (g : Guard PlacedRecord) (ts : List ℕ) (s : E × Log)
      → Placing g ts s
      → Holds Placed (place_all (recorded env) (recorded_solver solver) fuel g ts s)
  unfolding place_all
  place_all-Placed zero g ts s h = tt
  place_all-Placed (suc fuel) g ts s h =
      next_Placed (place_all (recorded env) (recorded_solver solver) fuel) (place_all-Placed fuel)
        (env.next_dns01 s.0).0 g ts (env.next_dns01 s.0).1 s.1
        (record {
          guarded = h.guarded;
          all_placed = h.all_placed;
          tokens = h.tokens;
          unpolled = h.unpolled;
          ordered = h.ordered;
        })
