-- ===== src/Solver/Acme/Targets.antt =====
-- The tokens lead back to the challenges, and each challenge is set ready exactly once.
use mathlib.Core.List.{Perm}
use mathlib.Core.List.Perm
use cheti.Prelude.{ℕ, ◌≡◌, List, ◌∷◌, ◌++◌}
use cheti.Text.{Text}
use cheti.Error.{Result, ok, err, ◌>>=◌ as and_then}
use cheti.Dns.Client.{Reply, answered, failed}
use cheti.Exec.{Exec, Post, ◌>>=◌, lift}
use cheti.Solver.Acme.{Order, look_up, set_targets, all_set}

-- The challenge URLs that the server accepted `set_ready` for, newest first.
abbrev pub accept : Text → Reply (Unit {0}) → List Text → List Text
accept url (answered u) log = url ∷ log
accept url (failed m) log = log

abbrev pub recorded : {E : Type 0} → Order E → Order (E × List Text)
recorded order = record {
  authorizations = λ s. order.authorizations s.0;
  challenge_set_ready = λ url s.
      let answer = order.challenge_set_ready url s.0 in
      (answer.0, (answer.1, accept url answer.0 s.1));
  poll_ready = λ s. let answer = order.poll_ready s.0 in (answer.0, (answer.1, s.1));
  finalize = λ s. let answer = order.finalize s.0 in (answer.0, (answer.1, s.1));
  poll_certificate = λ s. let answer = order.poll_certificate s.0 in (answer.0, (answer.1, s.1));
}

-- What a successful `set_ready` has done: the tokens stand for URLs of the driver, and the
-- challenges that the server accepted are those, each once.
abbrev pub ReadyOnce : List Text → List ℕ → Result (Unit {0}) → List Text → Type 0
ReadyOnce urls tokens (ok u) log =
    (targets : List Text) × (look_up urls tokens ≡ ok targets) × Perm log targets
ReadyOnce urls tokens (err x) log = Unit

module _ {E : Type 0} (order : Order E) where
  -- The URLs accepted and the targets left are together what they were before.
  abbrev Kept : List Text → List Text → Post (E × List Text) (List Text)
  Kept log targets (ok rest) s = Perm (s.1 ++ rest) (log ++ targets)
  Kept log targets (err x) s = Unit

  abbrev Accepted : List Text → Post (E × List Text) (Unit {0})
  Accepted targets (ok u) s = Perm s.1 targets
  Accepted targets (err x) s = Unit

  set_all : E → List Text → Exec (E × List Text) (Unit {0})
  set_all e targets s =
      (set_targets (recorded order) (order.authorizations e) targets >>= λ rest.
      lift (all_set (recorded order) rest))
        s
