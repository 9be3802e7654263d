-- ===== src/Renewal.antt =====
-- src/renewal.rs: when a certificate is due for renewal, over what it uses of x509-parser. The
-- differences of timestamps wrap around at 64 bits; a count of days is a `u32`, of which the
-- product with 86 400 fits.
pub mod Due
pub mod Window
use cheti.Prelude.{
  ℕ, zero, suc, ◌-◌, ◌*◌, ◌^◌, ◌%◌, Bool, true, false, Option, none, some, List, [], ◌∷◌, ◌++◌, ltb,
  ◌==◌, if◌then◌else◌,
}
use cheti.Prelude.Int.{ℤ, pos, negsuc, ◌-ℤ◌, leb_ℤ, max_zero, min_ℤ, div_ℤ}
use cheti.Text.{Text, text, text_eq}
use cheti.Error.{Result, ok, err, cert_parse, unwrap_or, ◌>>=◌}
use cheti.Dns.Client.{Reply, answered, failed}

pub data GeneralName : Type 0 where
  dns_name : Text → GeneralName
  other_name : GeneralName

-- A parsed certificate: each common name of the subject is `none` where it is no string, and the
-- alternative names are `none` where there is no such extension or it does not parse.
pub record X509Certificate : Type 0 where
  pub not_before : ℤ
  pub not_after : ℤ
  pub common_names : List (Option Text)
  pub alternative_names : Option (List GeneralName)

pub record Pem : Type 0 where
  pub label : Text
  pub contents : List ℕ

-- `Pem::read` and `X509Certificate::from_der`; an error is the text that it prints.
pub record Parser : Type 0 where
  pub read : Text → Reply Pem
  pub from_der : List ℕ → Reply X509Certificate

pub record CertLifetime : Type 0 where
  pub not_before : ℤ
  pub not_after : ℤ
  pub total_days : ℤ
  pub remaining_days : ℤ
  pub subject_cn : Option Text
  pub sans : List Text

abbrev pub day : ℕ
day = 86400

-- The two's complement number of 64 bits that stands for an integer.
unfoldable pub wrap_i64 : ℤ → ℤ
wrap_i64 (pos n) = let m = n % 2 ^ 64 in if ltb m (2 ^ 63) then pos m else negsuc (2 ^ 64 - 1 - m)
wrap_i64 (negsuc n) =
    let m = n % 2 ^ 64 in if ltb m (2 ^ 63) then negsuc m else pos (2 ^ 64 - 1 - m)

unfoldable pub sub_i64 : ℤ → ℤ → ℤ
unfolding wrap_i64
sub_i64 a b = wrap_i64 (a -ℤ b)

abbrev first_string : List (Option Text) → Option Text
first_string [] = none
first_string (name ∷ names) = name

abbrev dns_of : GeneralName → List Text → List Text
dns_of (dns_name name) rest = name ∷ rest
dns_of other_name rest = rest

abbrev dns_names : List GeneralName → List Text
dns_names [] = []
dns_names (name ∷ names) = dns_of name (dns_names names)

abbrev sans_of : Option (List GeneralName) → List Text
sans_of none = []
sans_of (some names) = dns_names names

abbrev leaf_der_of : Reply Pem → Result (List ℕ)
leaf_der_of (failed e) = err (cert_parse (text "no PEM block found: " ++ e))
leaf_der_of (answered pem) =
    if text_eq pem.label (text "CERTIFICATE")
    then ok pem.contents
    else err (cert_parse (text "expected CERTIFICATE PEM, got " ++ pem.label))

abbrev certificate_of : Reply X509Certificate → Result X509Certificate
certificate_of (answered cert) = ok cert
certificate_of (failed e) = err (cert_parse (text "parse leaf certificate: " ++ e))

unfoldable pub lifetime_of : X509Certificate → ℤ → CertLifetime
unfolding sub_i64
lifetime_of cert now_unix = record {
  not_before = cert.not_before;
  not_after = cert.not_after;
  total_days = div_ℤ (max_zero (sub_i64 cert.not_after cert.not_before)) day;
  remaining_days = div_ℤ (sub_i64 cert.not_after now_unix) day;
  subject_cn = first_string cert.common_names;
  sans = sans_of cert.alternative_names;
}

unfoldable pub threshold_seconds : ℤ → ℕ → ℤ
unfolding div_ℤ
threshold_seconds lifetime floor_days =
    let ratio_seconds = div_ℤ (max_zero lifetime) 3 in
    let floor_seconds = floor_days * day in
    if floor_seconds == 0 then ratio_seconds else min_ℤ ratio_seconds (pos floor_seconds)

unfoldable pub due_by_ratio : CertLifetime → ℕ → ℤ → Bool
unfolding threshold_seconds sub_i64
due_by_ratio life floor_days now_unix =
    let remaining_seconds = sub_i64 life.not_after now_unix in
    if leb_ℤ remaining_seconds (pos 0)
    then true
    else leb_ℤ remaining_seconds
        (threshold_seconds (sub_i64 life.not_after life.not_before) floor_days)

module _ (parser : Parser) where
  unfoldable pub parse_leaf_der : Text → Result (List ℕ)
  parse_leaf_der pem = leaf_der_of (parser.read pem)

  unfoldable pub parse_leaf : Text → Result X509Certificate
  unfolding parse_leaf_der
  parse_leaf pem = parse_leaf_der pem >>= λ leaf_der. certificate_of (parser.from_der leaf_der)

  unfoldable pub needs_renewal_at_checked : Text → ℕ → ℤ → Result Bool
  unfolding parse_leaf sub_i64
  needs_renewal_at_checked pem threshold_days now_unix = parse_leaf pem >>= λ cert.
      ok (leb_ℤ (sub_i64 cert.not_after now_unix) (pos (threshold_days * day)))

  unfoldable pub cert_lifetime_at : Text → ℤ → Result CertLifetime
  unfolding parse_leaf lifetime_of
  cert_lifetime_at pem now_unix = parse_leaf pem >>= λ cert. ok (lifetime_of cert now_unix)

  unfoldable pub needs_renewal_ratio_at_checked : Text → ℕ → ℤ → Result Bool
  unfolding cert_lifetime_at due_by_ratio
  needs_renewal_ratio_at_checked pem floor_days now_unix =
      cert_lifetime_at pem now_unix >>= λ life. ok (due_by_ratio life floor_days now_unix)

  -- The lenient variants.
  unfoldable pub needs_renewal_at : Text → ℕ → ℤ → Bool
  unfolding needs_renewal_at_checked
  needs_renewal_at pem threshold_days now_unix =
      unwrap_or true (needs_renewal_at_checked pem threshold_days now_unix)

  unfoldable pub needs_renewal_ratio_at : Text → ℕ → ℤ → Bool
  unfolding needs_renewal_ratio_at_checked
  needs_renewal_ratio_at pem floor_days now_unix =
      unwrap_or true (needs_renewal_ratio_at_checked pem floor_days now_unix)

  -- The variants that read the clock: the seconds since the epoch, or the error where it stands
  -- before the epoch.
  module _ (since_epoch : Reply ℕ) where
    abbrev seconds_of : Reply ℕ → Result ℤ
    seconds_of (answered secs) = ok (wrap_i64 (pos secs))
    seconds_of (failed e) = err (cert_parse (text "system time before epoch: " ++ e))

    unfoldable pub now_unix : Result ℤ
    unfolding wrap_i64
    now_unix = seconds_of since_epoch

    unfoldable pub needs_renewal_checked : Text → ℕ → Result Bool
    unfolding now_unix needs_renewal_at_checked
    needs_renewal_checked pem threshold_days =
        now_unix >>= λ now. needs_renewal_at_checked pem threshold_days now

    unfoldable pub needs_renewal : Text → ℕ → Bool
    unfolding needs_renewal_checked
    needs_renewal pem threshold_days = unwrap_or true (needs_renewal_checked pem threshold_days)

    unfoldable pub cert_lifetime : Text → Result CertLifetime
    unfolding now_unix cert_lifetime_at
    cert_lifetime pem = now_unix >>= λ now. cert_lifetime_at pem now

    unfoldable pub needs_renewal_ratio_checked : Text → ℕ → Result Bool
    unfolding now_unix needs_renewal_ratio_at_checked
    needs_renewal_ratio_checked pem floor_days =
        now_unix >>= λ now. needs_renewal_ratio_at_checked pem floor_days now

    unfoldable pub needs_renewal_ratio : Text → ℕ → Bool
    unfolding needs_renewal_ratio_checked
    needs_renewal_ratio pem floor_days = unwrap_or true (needs_renewal_ratio_checked pem floor_days)
