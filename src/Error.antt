-- ===== src/Error.antt =====
-- `DnsError` of src/error.rs, and the results that carry it. An error of reqwest is kept as the
-- text that it prints.
use cheti.Prelude.{ℕ, ◌≡◌, refl, Option, none, some}
use cheti.Text.{Text}

pub data DnsError : Type 0 where
  auth : Text → DnsError
  zone_not_found : Text → DnsError
  api : Text → DnsError
  http : Text → DnsError
  propagation_timeout : Text → ℕ → DnsError
  missing_credentials : Text → DnsError
  resolver : Text → DnsError
  acme : Text → DnsError
  no_dns01_challenge : Text → DnsError
  unexpected_order_status : Text → DnsError
  challenge_invalid : Text → DnsError
  storage : Text → DnsError
  cert_parse : Text → DnsError
  other : Text → DnsError

pub data Result {ℓ} (A : Type ℓ) : Type ℓ where
  ok : A → Result A
  err : DnsError → Result A

-- The operator `?`: what follows runs on the value, and an error ends the function.
module _ {ℓ κ} {T : Type ℓ} {U : Type κ} where
  infixl 5 ◌>>=◌
  abbrev pub ◌>>=◌ : Result T → (T → Result U) → Result U
  err x >>= next = err x
  ok value >>= next = next value

  pub >>=-eq-ok :
      (r : Result T) (next : T → Result U) {u : U}
      → (r >>= next) ≡ ok u
      → (value : T) × (r ≡ ok value) × (next value ≡ ok u)
  >>=-eq-ok (err x) next h = cc
  >>=-eq-ok (ok value) next h = (value, refl, h)

infixl 5 ◌>>◌
abbrev pub ◌>>◌ {κ} : {U : Type κ} → Result (Unit {0}) → Result U → Result U
r >> rest = r >>= λ u. rest

-- `ok_or_else`.
abbrev pub ok_or {ℓ} : {A : Type ℓ} → DnsError → Option A → Result A
ok_or e none = err e
ok_or e (some a) = ok a

-- `unwrap_or`.
abbrev pub unwrap_or {ℓ} : {A : Type ℓ} → A → Result A → A
unwrap_or d (ok a) = a
unwrap_or d (err e) = d
