-- ===== src/TlsAlpn.antt =====
-- src/tls_alpn.rs: the challenge certificate and `TlsAlpn01Solver`.
pub mod Events
pub mod Built
pub mod Adds
pub mod Cleans
pub mod Script
use cheti.Prelude.{
  ℕ, Bool, false, not, Option, none, some, List, [], ◌∷◌, ◌++◌, length, ◌==◌, if◌then◌else◌,
}
use cheti.Text.{Text, text, text_eq, decimal}
use cheti.Error.{
  DnsError, Result, ok, err, acme, other, unexpected_order_status, ok_or, ◌>>=◌ as and_then,
}
use cheti.Dns.Client.{Reply, answered, failed}
use cheti.Exec.{Exec, ◌>>=◌, ◌>>◌, lift, pure}
use cheti.Cleanup.{Guard, empty_guard, push, run}
use cheti.Solver.Acme.{
  AuthorizationStatus, Identifier, OrderStatus, ready, unready, acme_error, status_of, domain_of,
}

-- `ChallengeResponder`, in the state of the world `E`.
pub record ChallengeResponder (E : Type 0) : Type 0 where
  pub present : Text → List ℕ → List ℕ → E → Result (Unit {0}) × E
  pub cleanup : Text → E → Result (Unit {0}) × E

pub record ChallengeCertificate : Type 0 where
  pub cert_der : List ℕ
  pub key_der : List ℕ

-- What the program calls of rcgen: parameters `P`, keys `K` and certificates `C`.
pub record Rcgen (E P K C : Type 0) : Type 0 where
  -- `CertificateParams::new` of one name.
  pub params : Text → Reply P
  -- `custom_extensions.push(CustomExtension::new_acme_identifier(digest))`.
  pub with_acme_identifier : List ℕ → P → P
  pub generate : E → Reply K × E
  pub self_signed : P → K → E → Reply C × E
  pub der : C → List ℕ
  pub serialize_der : K → List ℕ

-- `map_err(|e| DnsError::Other(format!("{prefix}: {e}")))`.
abbrev other_error {ℓ} : {A : Type ℓ} → Text → Reply A → Result A
other_error prefix (answered a) = ok a
other_error prefix (failed m) = err (other (prefix ++ (text ": " ++ m)))

module _ {E P K C : Type 0} (rcgen : Rcgen E P K C) where
  unfoldable pub checked_digest : List ℕ → Result (Unit {0})
  checked_digest key_auth_digest =
      if not (length key_auth_digest == 32)
      then err (
          other (
            text "TLS-ALPN-01 key authorization digest must be 32 bytes, got "
            ++ decimal (length key_auth_digest)))
      else ok tt

  abbrev pub params_of : Text → Result P
  params_of domain = other_error (text "challenge cert params for " ++ domain) (rcgen.params domain)

  abbrev pub generated : Exec E K
  generated e =
      let made = rcgen.generate e in (other_error (text "challenge key generation") made.0, made.1)

  abbrev pub signed : P → K → Exec E C
  signed params key_pair e =
      let made = rcgen.self_signed params key_pair e in
      (other_error (text "challenge cert self-sign") made.0, made.1)

  unfoldable pub build_challenge_certificate : Text → List ℕ → Exec E ChallengeCertificate
  unfolding checked_digest
  build_challenge_certificate domain key_auth_digest = do
    lift (checked_digest key_auth_digest)
    params ← lift (params_of domain)
    key_pair ← generated
    cert ← signed (rcgen.with_acme_identifier key_auth_digest params) key_pair
    pure (record { cert_der = rcgen.der cert; key_der = rcgen.serialize_der key_pair })

-- A TLS-ALPN-01 challenge offered: its URL and the digest of its key authorization.
pub record Offered : Type 0 where
  pub url : Text
  pub digest : List ℕ

pub record Authorization : Type 0 where
  pub status : AuthorizationStatus
  pub identifier : Identifier
  pub tls_alpn01 : Option Offered

-- The order, in the state of the world `E`.
pub record Order (E : Type 0) : Type 0 where
  -- The authorizations of one pass: `Authorizations::next` until it ends. Reading them changes
  -- nothing that the program can see.
  pub authorizations : E → List (Reply Authorization)
  pub challenge_set_ready : Text → E → Reply (Unit {0}) × E
  pub poll_ready : E → Reply OrderStatus × E
  pub finalize : E → Reply Text × E
  pub poll_certificate : E → Reply Text × E

-- An entry of `pending`: (domain, digest, challenge_url).
pub record Pending : Type 0 where
  pub domain : Text
  pub digest : List ℕ
  pub url : Text

challenge_of : Authorization → Result (List Pending)
challenge_of authz = and_then (domain_of authz.identifier) λ domain.
    and_then (ok_or (other (text "no TLS-ALPN-01 challenge for " ++ domain)) authz.tls_alpn01)
      λ challenge.
        ok (record { domain = domain; digest = challenge.digest; url = challenge.url } ∷ [])

-- What one authorization adds to `pending`: one entry, or none where it is valid.
pending_of : Reply Authorization → Result (List Pending)
unfolding challenge_of
pending_of result = and_then (acme_error result) λ authz.
    and_then (status_of authz.status) λ is_pending. if is_pending then challenge_of authz else ok []

unfoldable pub collect_pending : List (Reply Authorization) → Result (List Pending)
unfolding pending_of
collect_pending [] = ok []
collect_pending (a ∷ as') =
    and_then (pending_of a) λ found. and_then (collect_pending as') λ rest. ok (found ++ rest)

pub record TlsAlpn01Solver (E : Type 0) : Type 0 where
  pub responder : ChallengeResponder E
  pub on_cleanup_error : Option (Text → DnsError → E → E)

-- `match outcome { Ok(()) => …, Err(e) => Err(e) }`.
abbrev pub outcome {ℓ} :
    {E : Type 0} {A : Type ℓ} → (E → Result A × E) → Result (Unit {0}) → E → Result A × E
outcome next (err x) e = (err x, e)
outcome next (ok u) e = next e

module _ {E : Type 0} where
  abbrev pub new : ChallengeResponder E → TlsAlpn01Solver E
  new responder = record { responder = responder; on_cleanup_error = none }

  abbrev pub on_cleanup_error : (Text → DnsError → E → E) → TlsAlpn01Solver E → TlsAlpn01Solver E
  on_cleanup_error hook solver = record solver { on_cleanup_error = some hook }

  unfoldable pub report : Option (Text → DnsError → E → E) → Text → Result (Unit {0}) → E → E
  report hook domain (ok u) e = e
  report none domain (err x) e = e
  report (some hook) domain (err x) e = hook domain x e

  -- The closure that `cleanup_guard` hands to the guard.
  unfoldable pub cleanup_domain : TlsAlpn01Solver E → Text → E → E
  unfolding report
  cleanup_domain solver domain e =
      let done = solver.responder.cleanup domain e in
      report solver.on_cleanup_error domain done.0 done.1

  module _ (order : Order E) where
    abbrev pub call : {A : Type 0} → (E → Reply A × E) → Exec E A
    call f e = (acme_error (f e).0, (f e).1)

    abbrev pub is_at : Text → Option Offered → Bool
    is_at url none = false
    is_at url (some challenge) = text_eq challenge.url url

    unfoldable pub ready_among : Text → List (Reply Authorization) → Exec E (Unit {0})
    ready_among url [] e =
        (err (other (text "challenge " ++ (url ++ text " disappeared from order"))), e)
    ready_among url (failed m ∷ as') e = (err (acme m), e)
    ready_among url (answered authz ∷ as') e =
        let rest = ready_among url as' e in
        if is_at url authz.tls_alpn01 then call (order.challenge_set_ready url) e else rest

    unfoldable pub set_ready_by_url : Text → Exec E (Unit {0})
    unfolding ready_among
    set_ready_by_url url e = ready_among url (order.authorizations e) e

    abbrev pub status_ready : OrderStatus → Result (Unit {0})
    status_ready ready = ok tt
    status_ready (unready shown) = err (unexpected_order_status shown)

    -- The certificate chain and the private key.
    unfoldable pub finalize_order : Exec E (Text × Text)
    finalize_order = do
      status ← call order.poll_ready
      lift (status_ready status)
      private_key_pem ← call order.finalize
      cert_chain_pem ← call order.poll_certificate
      pure (cert_chain_pem, private_key_pem)

    module _ {P K C : Type 0} (rcgen : Rcgen E P K C) (solver : TlsAlpn01Solver E) where
      abbrev pub on_world : {A : Type 0} → Exec E A → Exec (E × Guard Text) A
      on_world m s = let done = m s.0 in (done.0, (done.1, s.1))

      abbrev pub record_presented : Text → Exec (E × Guard Text) (Unit {0})
      record_presented domain s = (ok tt, (s.0, push s.1 domain))

      -- The body of the loop over `pending`. The domain is noted before `present` is called.
      unfoldable pub present_one : Pending → Exec (E × Guard Text) (Unit {0})
      unfolding build_challenge_certificate set_ready_by_url
      present_one entry = do
        cert ← on_world (build_challenge_certificate rcgen entry.domain entry.digest)
        record_presented entry.domain
        on_world (solver.responder.present entry.domain cert.cert_der cert.key_der)
        on_world (set_ready_by_url entry.url)

      unfoldable pub present_each : List Pending → Exec (E × Guard Text) (Unit {0})
      unfolding present_one
      present_each [] s = (ok tt, s)
      present_each (entry ∷ rest) s = (present_one entry >> present_each rest) s

      unfoldable pub present_all : Exec (E × Guard Text) (Unit {0})
      unfolding present_each collect_pending
      present_all s =
          (do pending ← lift (collect_pending (order.authorizations s.0)); present_each pending) s

      unfoldable pub solve_and_finalize : Exec E (Text × Text)
      unfolding present_all finalize_order cleanup_domain
      solve_and_finalize e =
          let shown = present_all (e, empty_guard) in
          let done = outcome finalize_order shown.0 shown.1.0 in
          (done.0, (run (cleanup_domain solver) shown.1.1 done.1).1)
