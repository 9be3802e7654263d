-- ===== src/Testing/Responder.antt =====
-- `MockChallengeResponder` of src/testing.rs. Clones share the presentations.
use cheti.Prelude.{ℕ, Bool, not, List, [], ◌∷◌, ◌++◌, map, any, keep, if◌then◌else◌}
use cheti.Text.{Text, text, text_eq}
use cheti.Error.{ok, err, other}
use cheti.Exec.{Exec}
use cheti.TlsAlpn.{ChallengeResponder}

abbrev pub Presentation : Type 0
Presentation = Text × List ℕ × List ℕ

abbrev pub presented_domains : List Presentation → List Text
presented_domains = map (λ p. p.0)

unfoldable pub is_presenting : Text → List Presentation → Bool
is_presenting domain presented = any (λ p. text_eq p.0 domain) presented

unfoldable pub present : Bool → Text → List ℕ → List ℕ → Exec (List Presentation) (Unit {0})
present fail_present domain cert_der key_der presented =
    if fail_present
    then (err (other (text "mock present failure for " ++ domain)), presented)
    else (ok tt, presented ++ ((domain, cert_der, key_der) ∷ []))

unfoldable pub cleanup : Text → Exec (List Presentation) (Unit {0})
cleanup domain presented = (ok tt, keep (λ p. not (text_eq p.0 domain)) presented)

-- The double is a responder of the solver.
abbrev pub responder : Bool → ChallengeResponder (List Presentation)
responder fail_present = record { present = present fail_present; cleanup = cleanup }
