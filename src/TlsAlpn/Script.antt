-- ===== src/TlsAlpn/Script.antt =====
-- What a run of `TlsAlpn01Solver` of src/tls_alpn.rs has done when it gives a certificate.
use cheti.Prelude.{◌≡◌, map, All, List, [], ◌∷◌, ◌++◌}
use cheti.Text.{Text}
use cheti.Error.{Result, ok, err}
use cheti.Exec.{Post}
use cheti.Cleanup.{Guard}
use cheti.TlsAlpn.{Rcgen, ChallengeCertificate, Order, Pending, TlsAlpn01Solver}
use cheti.TlsAlpn.Events.{Log, issued, dones, script}
use cheti.TlsAlpn.Built.{IsCertificateFor, Built}
use cheti.TlsAlpn.Adds.{Adds, logged_world}

module _ {E P K C : Type 0} (order : Order E) (rcgen : Rcgen E P K C)
    (solver : TlsAlpn01Solver E) where
  -- The challenges of `entries` with their certificates.
  abbrev pub Certified : List Pending → List (Pending × ChallengeCertificate) → Type 0
  Certified entries certified =
      (map (λ c. c.0) certified ≡ entries) × All (λ c. IsCertificateFor rcgen c.0 c.1) certified

  -- A call that succeeds adds the script of these challenges, with some certificates for them.
  abbrev Scripted : List Pending → (E × Log) × Guard Text → Post ((E × Log) × Guard Text) (Unit {0})
  Scripted entries s (err x) t = Unit
  Scripted entries s (ok u) t =
      (certified : List (Pending × ChallengeCertificate)) × Certified entries certified
      × (logged_world t ≡ logged_world s ++ script certified)

  abbrev pub Issued : List Pending → Log → Type 0
  Issued entries log =
      (certified : List (Pending × ChallengeCertificate)) × Certified entries certified
      × (dones log ≡ script certified ++ (issued ∷ []))

  abbrev IssuedIf : List Pending → Result (Text × Text) → Log → Type 0
  IssuedIf entries (ok certificate) log = Issued entries log
  IssuedIf entries (err x) log = Unit
