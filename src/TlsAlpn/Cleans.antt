-- ===== src/TlsAlpn/Cleans.antt =====
-- Every domain that `TlsAlpn01Solver` of src/tls_alpn.rs presents is cleaned up.
use mathlib.Core.List.{append_assoc, append-nil}
use cheti.Prelude.{
  ℕ, ◌≡◌, refl, sym, ap, ◌∙◌, Option, none, some, Bool-cases, inl, inr, List, [], ◌∷◌, ◌++◌,
}
use cheti.Text.{Text}
use cheti.Error.{DnsError, Result, ok, err}
use cheti.Dns.Client.{Reply, answered, failed}
use cheti.Exec.{lift, Keeps, Keeps-bind}
use cheti.Cleanup.{Guard, empty_guard, push, run, run_pending}
use cheti.TlsAlpn.{
  Rcgen, Order, Authorization, Pending, TlsAlpn01Solver, build_challenge_certificate,
  checked_digest, ready_among, set_ready_by_url, collect_pending, present_one, present_each,
  present_all, finalize_order, cleanup_domain, params_of, generated, signed, call, status_ready,
  on_world, report, solve_and_finalize, is_at, outcome,
}
use cheti.TlsAlpn.Events.{
  cleaned, Log, recorded_order, recorded_rcgen, recorded_solver, recorded_hook, presents, cleanups,
}

module _ {E P K C : Type 0} (order : Order E) (rcgen : Rcgen E P K C)
    (solver : TlsAlpn01Solver E) where
  abbrev World : Type 0
  World = (E × Log) × Guard Text

  -- The guard holds the domains presented, in order, and nothing has been cleaned up yet.
  record Tracked (g : Guard Text) (log : Log) : Type 0 where
    pub placed : presents log ≡ g.pending
    pub uncleaned : cleanups log ≡ []

  abbrev At : Guard Text → E × Log → Type 0
  At g s = Tracked g s.1

  build_Keeps :
      (domain : Text) (digest : List ℕ) (g : Guard Text)
      → Keeps (At g) (build_challenge_certificate (recorded_rcgen rcgen) domain digest)
  unfolding build_challenge_certificate
  build_Keeps domain digest g s h =
      let rc = recorded_rcgen rcgen in
      Keeps-bind (At g) (lift (checked_digest rc digest)) _ s h λ u t h.
        Keeps-bind (At g) (lift (params_of rc domain)) _ t h λ params t h.
          Keeps-bind (At g) (generated rc) _ t h λ key_pair t h.
            Keeps-bind (At g) (signed rc (rcgen.with_acme_identifier digest params) key_pair) _ t h
              λ cert t h. h

  ready_Keeps :
      (url : Text) (as' : List (Reply Authorization)) (g : Guard Text)
      → Keeps (At g) (ready_among (recorded_order order) url as')
  unfolding ready_among
  ready_Keeps url [] g s h = h
  ready_Keeps url (failed m ∷ as') g s h = h
  ready_Keeps url (answered a ∷ as') g s h = elim (Bool-cases (is_at order url a.tls_alpn01)) [
    | inl y ↦ rw y (record { placed = h.placed; uncleaned = h.uncleaned })
    | inr n ↦ rw n (ready_Keeps url as' g s h)
  ]

  finalize_Keeps : (g : Guard Text) → Keeps (At g) (finalize_order (recorded_order order))
  unfolding finalize_order
  finalize_Keeps g s h =
      let order = recorded_order order in
      Keeps-bind (At g) (call order order.poll_ready) _ s h λ status t h.
        Keeps-bind (At g) (lift (status_ready order status)) _ t h λ u t h.
          Keeps-bind (At g) (call order order.finalize) _ t
            (record { placed = h.placed; uncleaned = h.uncleaned })
            λ key t h. Keeps-bind (At g) (call order order.poll_certificate) _ t h λ chain t h. h

  abbrev Tracks : World → Type 0
  Tracks s = Tracked s.1 s.0.1

  present_one-Keeps :
      (entry : Pending)
      → Keeps Tracks
          (present_one (recorded_order order) (recorded_rcgen rcgen) (recorded_solver solver) entry)
  unfolding present_one set_ready_by_url
  present_one-Keeps entry s h =
      let order' = recorded_order order in
      let rcgen' = recorded_rcgen rcgen in
      let solver' = recorded_solver solver in
      Keeps-bind Tracks
        (on_world order' rcgen' solver'
          (build_challenge_certificate rcgen' entry.domain entry.digest))
        _ s (build_Keeps entry.domain entry.digest s.1 s.0 h)
        λ cert t h.
          Keeps-bind Tracks
            (on_world order' rcgen' solver'
              (solver'.responder.present entry.domain cert.cert_der cert.key_der))
            _ (t.0, push t.1 entry.domain)
            (record {
              placed = ap (λ (l : List Text). l ++ (entry.domain ∷ [])) h.placed;
              uncleaned = h.uncleaned;
            })
            λ u t h. ready_Keeps entry.url (order.authorizations t.0.0) t.1 t.0 h

  present_each-Keeps :
      (entries : List Pending)
      → Keeps Tracks (
          present_each
            (recorded_order order)
            (recorded_rcgen rcgen)
            (recorded_solver solver)
            entries)
  unfolding present_each
  present_each-Keeps [] s h = h
  present_each-Keeps (entry ∷ rest) s h =
      Keeps-bind Tracks
        (present_one (recorded_order order) (recorded_rcgen rcgen) (recorded_solver solver) entry) _
        s (present_one-Keeps entry s h) λ u. present_each-Keeps rest

  present_all-Keeps :
      Keeps Tracks
        (present_all (recorded_order order) (recorded_rcgen rcgen) (recorded_solver solver))
  unfolding present_all
  present_all-Keeps s h =
      Keeps-bind Tracks (lift (collect_pending (order.authorizations s.0.0))) _ s h
        λ pending. present_each-Keeps pending

  -- Cleaning up the domains of a list adds them to the cleanups, in order.
  report_log :
      (hook : Option (Text → DnsError → E → E)) (domain : Text) (x : Result (Unit {0}))
      (s : E × Log)
      → (report (recorded_hook hook) domain x s).1 ≡ s.1
  unfolding report
  report_log hook domain (ok u) s = refl
  report_log none domain (err x) s = refl
  report_log (some hook) domain (err x) s = refl

  pub cleanup_domain_log :
      (d : Text) (s : E × Log)
      → (cleanup_domain (recorded_solver solver) d s).1
        ≡ cleaned d (solver.responder.cleanup d s.0).0 ∷ s.1
  unfolding cleanup_domain
  cleanup_domain_log d s = report_log solver.on_cleanup_error d (solver.responder.cleanup d s.0).0 _

  run_log :
      (ds : List Text) (s : E × Log)
      → let s' : E × Log = run_pending (cleanup_domain (recorded_solver solver)) ds s in
        (cleanups s'.1 ≡ cleanups s.1 ++ ds) × (presents s'.1 ≡ presents s.1)
  unfolding run_pending
  run_log [] s = (sym (append-nil (cleanups s.1)), refl)
  run_log (d ∷ ds) s =
      let next = cleanup_domain (recorded_solver solver) d s in
      let (c, p) = run_log ds next in
      (
        c
            ∙ ap (λ (l : Log). cleanups l ++ ds) (cleanup_domain_log d s)
            ∙ append_assoc (cleanups s.1) (d ∷ []) ds,
        p ∙ ap presents (cleanup_domain_log d s),
      )

  run_Cleaned :
      (g : Guard Text) (s : E × Log)
      → Tracked g s.1
      → let s' : E × Log = run_pending (cleanup_domain (recorded_solver solver)) g.pending s in
        cleanups s'.1 ≡ presents s'.1
  run_Cleaned g s h =
      let (c, p) = run_log g.pending s in
      c ∙ ap (λ (l : List Text). l ++ g.pending) h.uncleaned ∙ sym h.placed ∙ sym p

  outcome-Tracked :
      (r : Result (Unit {0})) (g : Guard Text) (s : E × Log)
      → Tracked g s.1
      → Tracked g (outcome (finalize_order (recorded_order order)) r s).1.1
  outcome-Tracked (ok u) g s h = finalize_Keeps g s h
  outcome-Tracked (err x) g s h = h

  -- In every run, whatever fails in it (the order, a certificate, `present`, `set_ready` or
  -- `cleanup`), `cleanup` is called exactly for the domains for which `present` was called, those
  -- whose `present` failed included, once for each call and in the same order.
  pub solve_and_finalize-Cleaned :
      (e : E)
      → let log : Log =
          (solve_and_finalize
            (recorded_order order)
            (recorded_rcgen rcgen)
            (recorded_solver solver)
            (e, [])).1.1 in
        cleanups log ≡ presents log
  unfolding solve_and_finalize run
  solve_and_finalize-Cleaned e =
      let start : World = ((e, []), empty_guard) in
      let shown =
        present_all (recorded_order order) (recorded_rcgen rcgen) (recorded_solver solver) start in
      run_Cleaned shown.1.1 _ (
        outcome-Tracked shown.0 shown.1.1 shown.1.0
          (present_all-Keeps start (record { placed = refl; uncleaned = refl })))
