-- ===== src/Examples/TlsAlpn.antt =====
-- A run of `TlsAlpn01Solver` of src/tls_alpn.rs with a responder in memory.
use cheti.Prelude.{ℕ, ◌≡◌, true, false, none, some, List, [], ◌∷◌, ◌++◌}
use cheti.Text.{Text, text}
use cheti.Error.{Result}
use cheti.Dns.Client.{Reply, answered}
use cheti.Solver.Acme.{pending, valid, dns, ready}
use cheti.Testing.Responder.{Presentation, responder}
use cheti.TlsAlpn.{Rcgen, Order, Authorization, Pending, TlsAlpn01Solver, new, solve_and_finalize}
use cheti.TlsAlpn.Events.{Log, recorded_order, recorded_rcgen, recorded_solver, presents, cleanups}
use cheti.TlsAlpn.Cleans.{solve_and_finalize-Cleaned}

abbrev name_a : Text
name_a = b'a' ∷ []

abbrev name_b : Text
name_b = b'b' ∷ []

abbrev digest : List ℕ
digest = text "0123456789abcdef0123456789abcdef"

-- The certificate is the name, the extension and the key, one after the other.
abbrev rcgen : {E : Type 0} → Rcgen E (List ℕ) ℕ (List ℕ)
rcgen = record {
  params = answered;
  with_acme_identifier = λ d p. p ++ d;
  generate = λ e. (answered 7, e);
  self_signed = λ p k e. (answered (p ++ (k ∷ [])), e);
  der = λ c. c;
  serialize_der = λ k. k ∷ [];
}

abbrev offered : Text → Reply Authorization
offered name = answered (record {
  status = pending;
  identifier = dns name;
  tls_alpn01 = some (record { url = name; digest = digest });
})

abbrev validated : Reply Authorization
validated = answered (record { status = valid; identifier = dns name_a; tls_alpn01 = none })

abbrev order : Order (List Presentation)
order = record {
  authorizations = λ e. offered name_a ∷ validated ∷ offered name_b ∷ [];
  challenge_set_ready = λ url e. (answered tt, e);
  poll_ready = λ e. (answered ready, e);
  finalize = λ e. (answered name_a, e);
  poll_certificate = λ e. (answered name_b, e);
}

abbrev solver : TlsAlpn01Solver (List Presentation)
solver = new (responder false)

abbrev entry : Text → Pending
entry name = record { domain = name; digest = digest; url = name }

abbrev entries : List Pending
entries = entry name_a ∷ entry name_b ∷ []

abbrev solved : Result (Text × Text) × (List Presentation × Log)
solved =
    solve_and_finalize (recorded_order order) (recorded_rcgen rcgen) (recorded_solver solver)
      ([], [])

-- Here `present` fails at once.
abbrev refused : Log
refused =
    (solve_and_finalize (recorded_order order) (recorded_rcgen rcgen)
      (recorded_solver (new (responder true))) ([], [])).1.1

solve_and_finalize-Cleaned_example : cleanups refused ≡ presents refused
solve_and_finalize-Cleaned_example =
    solve_and_finalize-Cleaned order rcgen (new (responder true)) []
