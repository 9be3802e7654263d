-- ===== src/Renewal/Window.antt =====
-- The fixed window of src/renewal.rs, the lenient checks, and the days that it reports.
use cheti.Prelude.{ℕ, ◌*◌, ◌≤◌, ◌≡◌, ◌↔◌, ap, subst, true, if◌then◌else◌, arith}
use cheti.Prelude.Int.{ℤ, pos, negsuc, ◌-ℤ◌, ◌+ℤ◌, ◌≤ℤ◌, leb_ℤ, div_ℤ, +ℤ_parts, -ℤ_parts}
use cheti.Text.{Text}
use cheti.Error.{ok, >>=-eq-ok}
use cheti.Renewal.{
  Parser, X509Certificate, CertLifetime, day, sub_i64, parse_leaf, threshold_seconds, due_by_ratio,
  lifetime_of, cert_lifetime_at, needs_renewal_at_checked, needs_renewal_ratio_at_checked,
}
use cheti.Renewal.Due.{Plausible, sub_i64_exact}

-- Where a third of the lifetime is no less than a floor, the ratio is the window of the floor.
window :
    (lifetime : ℤ) (days : ℕ) (remaining : ℤ)
    → 1 ≤ days
    → pos (3 * (days * day)) ≤ℤ lifetime
    → (if leb_ℤ remaining (pos 0) then true else leb_ℤ remaining (threshold_seconds lifetime days))
      ≡ leb_ℤ remaining (pos (days * day))
unfolding threshold_seconds div_ℤ
window (negsuc l) days r h k = ground arith
window (pos l) days (negsuc r) h k = ground arith
window (pos l) days (pos r) h k = ground arith

-- For a certificate that parses and lives at least three times the floor, which is not 0 (as one
-- of 90 days with a floor of 30), its dates below 2^62, the check by ratio gives what the check by
-- the fixed window of the floor gives.
pub needs_renewal_ratio_at_checked-window :
    (parser : Parser) (pem : Text) (cert : X509Certificate) (days : ℕ) (now : ℤ)
    → parse_leaf parser pem ≡ ok cert
    → Plausible cert.not_before
    → Plausible cert.not_after
    → 1 ≤ days
    → pos (3 * (days * day)) ≤ℤ cert.not_after -ℤ cert.not_before
    → needs_renewal_ratio_at_checked parser pem days now
      ≡ needs_renewal_at_checked parser pem days now
unfolding needs_renewal_ratio_at_checked needs_renewal_at_checked cert_lifetime_at lifetime_of
    due_by_ratio
needs_renewal_ratio_at_checked-window parser pem cert days now e hb ha h k =
    rw (e, sub_i64_exact cert.not_after cert.not_before ha hb)
      (ap ok (window (cert.not_after -ℤ cert.not_before) days (sub_i64 cert.not_after now) h k))

div_ℤ-negative : (seconds : ℤ) → (div_ℤ seconds day ≤ℤ negsuc 0) ↔ (seconds +ℤ pos day ≤ℤ pos 0)
unfolding div_ℤ ◌+ℤ◌
div_ℤ-negative (pos n) = ground arith
div_ℤ-negative (negsuc n) = ground arith

days_iff : (after now : ℤ) → (after -ℤ now +ℤ pos day ≤ℤ pos 0) ↔ (after +ℤ pos day ≤ℤ now)
days_iff after now = (
  λ h.
      omega
        (arith, h, +ℤ_parts (after -ℤ now) (pos day), +ℤ_parts after (pos day), -ℤ_parts after now),
  λ h.
      omega
        (arith, h, +ℤ_parts (after -ℤ now) (pos day), +ℤ_parts after (pos day), -ℤ_parts after now),
)

lifetime_negative_iff :
    (cert : X509Certificate) (now : ℤ)
    → Plausible cert.not_after
    → Plausible now
    → ((lifetime_of cert now).remaining_days ≤ℤ negsuc 0) ↔ (cert.not_after +ℤ pos day ≤ℤ now)
unfolding lifetime_of
lifetime_negative_iff cert now ha hn =
    let d = div_ℤ-negative (cert.not_after -ℤ now) in
    let t = days_iff cert.not_after now in
    rw (sub_i64_exact cert.not_after now ha hn) (λ x. t.0 (d.0 x), λ x. d.1 (t.1 x))

-- For timestamps below 2^62, the days that `cert_lifetime_at` reports as remaining are negative
-- exactly from one day after the end of the certificate on.
pub cert_lifetime_at-remaining_days :
    (parser : Parser) (pem : Text) (life : CertLifetime) (now : ℤ)
    → cert_lifetime_at parser pem now ≡ ok life
    → Plausible life.not_after
    → Plausible now
    → (life.remaining_days ≤ℤ negsuc 0) ↔ (life.not_after +ℤ pos day ≤ℤ now)
unfolding cert_lifetime_at lifetime_of
cert_lifetime_at-remaining_days parser pem life now h ha hn =
    let (cert, parsed, e) = >>=-eq-ok (parse_leaf parser pem) (λ c. ok (lifetime_of c now)) h in
    let same : lifetime_of cert now ≡ life = cc in
    subst
      (λ (l : CertLifetime).
        Plausible l.not_after → (l.remaining_days ≤ℤ negsuc 0) ↔ (l.not_after +ℤ pos day ≤ℤ now))
      same (λ p. lifetime_negative_iff cert now p hn) ha
