-- ===== src/TlsAlpn/Events.antt =====
-- The calls of `TlsAlpn01Solver` of src/tls_alpn.rs to the responder and to the order, in a log.
use cheti.Prelude.{ℕ, Option, none, some, List, [], ◌∷◌, ◌++◌}
use cheti.Text.{Text}
use cheti.Error.{DnsError, Result, ok}
use cheti.Dns.Client.{Reply, answered}
use cheti.TlsAlpn.{ChallengeResponder, ChallengeCertificate, Rcgen, Order, TlsAlpn01Solver, Pending}

-- Each call with its answer. A log has the newest first.
pub data Event : Type 0 where
  presented : Text → List ℕ → List ℕ → Result (Unit {0}) → Event
  cleaned : Text → Result (Unit {0}) → Event
  readied : Text → Reply (Unit {0}) → Event
  finalized : Reply Text → Event

abbrev pub Log : Type 0
Log = List Event

module _ {E : Type 0} where
  abbrev note {ℓ} : {A : Type ℓ} → (A → Event) → A × E → Log → A × (E × Log)
  note event (a, e) log = (a, (e, event a ∷ log))

  abbrev pass {ℓ} : {A : Type ℓ} → A × E → Log → A × (E × Log)
  pass (a, e) log = (a, (e, log))

  abbrev pub recorded_order : Order E → Order (E × Log)
  recorded_order order = record {
    authorizations = λ s. order.authorizations s.0;
    challenge_set_ready = λ url s. note (readied url) (order.challenge_set_ready url s.0) s.1;
    poll_ready = λ s. pass (order.poll_ready s.0) s.1;
    finalize = λ s. note finalized (order.finalize s.0) s.1;
    poll_certificate = λ s. pass (order.poll_certificate s.0) s.1;
  }

  abbrev pub recorded_rcgen : {P K C : Type 0} → Rcgen E P K C → Rcgen (E × Log) P K C
  recorded_rcgen rcgen = record {
    params = rcgen.params;
    with_acme_identifier = rcgen.with_acme_identifier;
    generate = λ s. pass (rcgen.generate s.0) s.1;
    self_signed = λ p k s. pass (rcgen.self_signed p k s.0) s.1;
    der = rcgen.der;
    serialize_der = rcgen.serialize_der;
  }

  abbrev pub recorded_responder : ChallengeResponder E → ChallengeResponder (E × Log)
  recorded_responder responder = record {
    present = λ domain cert key s.
        note (presented domain cert key) (responder.present domain cert key s.0) s.1;
    cleanup = λ domain s. note (cleaned domain) (responder.cleanup domain s.0) s.1;
  }

  abbrev pub recorded_hook :
      Option (Text → DnsError → E → E) → Option (Text → DnsError → E × Log → E × Log)
  recorded_hook none = none
  recorded_hook (some hook) = some (λ domain x s. (hook domain x s.0, s.1))

  abbrev pub recorded_solver : TlsAlpn01Solver E → TlsAlpn01Solver (E × Log)
  recorded_solver solver = record {
    responder = recorded_responder solver.responder;
    on_cleanup_error = recorded_hook solver.on_cleanup_error;
  }

-- What a log tells, oldest first: the domains for which `present` was called, and those for which
-- `cleanup` was.
abbrev pub presents : Log → List Text
presents [] = []
presents (presented d cert key x ∷ log) = presents log ++ (d ∷ [])
presents (_ ∷ log) = presents log

abbrev pub cleanups : Log → List Text
cleanups [] = []
cleanups (cleaned d x ∷ log) = cleanups log ++ (d ∷ [])
cleanups (_ ∷ log) = cleanups log

-- The steps that succeeded before the clean-up: a certificate is shown for a domain, with its key,
-- the challenge at a URL is marked ready, the order is finalized.
pub data Done : Type 0 where
  shown : Text → List ℕ → List ℕ → Done
  marked : Text → Done
  issued : Done

abbrev pub dones : Log → List Done
dones [] = []
dones (presented d cert key (ok u) ∷ log) = dones log ++ (shown d cert key ∷ [])
dones (readied url (answered u) ∷ log) = dones log ++ (marked url ∷ [])
dones (finalized (answered key) ∷ log) = dones log ++ (issued ∷ [])
dones (_ ∷ log) = dones log

-- What is to be done for the challenges of an order, with a certificate for each.
abbrev pub script : List (Pending × ChallengeCertificate) → List Done
script [] = []
script ((p, c) ∷ ps) = shown p.domain c.cert_der c.key_der ∷ marked p.url ∷ script ps
