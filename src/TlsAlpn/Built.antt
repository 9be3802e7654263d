-- ===== src/TlsAlpn/Built.antt =====
-- What `build_challenge_certificate` of src/tls_alpn.rs builds.
use cheti.Prelude.{ℕ, ◌≡◌, refl, inl, inr, Bool-cases, List, length, ◌==◌, ==_iff}
use cheti.Text.{Text}
use cheti.Error.{ok, err}
use cheti.Dns.Client.{Reply, answered, failed}
use cheti.Exec.{Post, lift_rule}
use cheti.TlsAlpn.{
  Rcgen, ChallengeCertificate, Pending, build_challenge_certificate, checked_digest, other_error,
  params_of, generated, signed,
}
use cheti.TlsAlpn.Events.{Log, recorded_rcgen, dones}

-- The certificate that answers a challenge: that of its domain, with its digest of 32 bytes in the
-- ACME identifier, signed by a key that was generated for it; and this key.
pub record IsCertificateFor {E P K C : Type 0} (rcgen : Rcgen E P K C) (entry : Pending)
    (made : ChallengeCertificate) : Type 0 where
  pub params : P
  pub key : K
  pub cert : C
  pub at : E
  pub digest_length : length entry.digest ≡ 32
  pub of_domain : rcgen.params entry.domain ≡ answered params
  pub key_generated : (rcgen.generate at).0 ≡ answered key
  pub cert_signed :
      let body = rcgen.with_acme_identifier entry.digest params in
      (rcgen.self_signed body key (rcgen.generate at).1).0 ≡ answered cert
  pub cert_der : made.cert_der ≡ rcgen.der cert
  pub key_der : made.key_der ≡ rcgen.serialize_der key

other_error_ok :
    {A : Type 0} (label : Text) (r : Reply A) (a : A) → other_error label r ≡ ok a → r ≡ answered a
other_error_ok label (answered b) a h = cc
other_error_ok label (failed m) a h = cc

module _ {E P K C : Type 0} (rcgen : Rcgen E P K C) where
  digest_of_32 :
      (digest : List ℕ) → checked_digest (recorded_rcgen rcgen) digest ≡ ok tt → length digest ≡ 32
  unfolding checked_digest
  digest_of_32 digest h = elim (Bool-cases (length digest == 32)) [
    | inl y ↦ (==_iff (length digest) 32).0 y
    | inr n ↦ cc (rw n at h)
  ]

  abbrev pub Built : Pending → E × Log → Post (E × Log) ChallengeCertificate
  Built entry s (err x) t = Unit
  Built entry s (ok made) t = IsCertificateFor rcgen entry made × (dones t.1 ≡ dones s.1)

  pub build-Built :
      (entry : Pending) (s : E × Log)
      → let done = build_challenge_certificate (recorded_rcgen rcgen) entry.domain entry.digest s in
        Built entry s done.0 done.1
  unfolding build_challenge_certificate
  build-Built entry s =
      let rc = recorded_rcgen rcgen in
      let Q = Built entry s in
      lift_rule Q (checked_digest rc entry.digest) _ s (λ e q. tt)
        λ u checked.
          lift_rule Q (params_of rc entry.domain) _ s (λ e q. tt)
            λ p named.
              let t = (generated rc s).1 in
              lift_rule Q (generated rc s).0 _ t (λ e q. tt)
                λ k keyed.
                  let body = rcgen.with_acme_identifier entry.digest p in
                  lift_rule Q (signed rc body k t).0 _ (signed rc body k t).1 (λ e q. tt)
                    λ c made. (
                      record {
                        params = p;
                        key = k;
                        cert = c;
                        at = s.0;
                        digest_length = digest_of_32 entry.digest checked;
                        of_domain = other_error_ok _ (rcgen.params entry.domain) p named;
                        key_generated = other_error_ok _ (rcgen.generate s.0).0 k keyed;
                        cert_signed =
                            other_error_ok _ (rcgen.self_signed body k (rcgen.generate s.0).1).0 c
                              made;
                        cert_der = refl;
                        key_der = refl;
                      },
                      refl,
                    )
