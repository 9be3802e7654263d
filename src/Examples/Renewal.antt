-- ===== src/Examples/Renewal.antt =====
-- Checks of certificates by src/renewal.rs.
use cheti.Prelude.{◌+◌, ◌*◌, ◌≡◌, ◌↔◌, refl, arith, [], none, true}
use cheti.Prelude.Int.{ℤ, pos, negsuc, ◌-ℤ◌, ◌+ℤ◌, ◌≤ℤ◌, div_ℤ}
use cheti.Text.{Text, text}
use cheti.Error.{ok}
use cheti.Dns.Client.{answered}
use cheti.Renewal.{
  Parser, X509Certificate, CertLifetime, day, wrap_i64, sub_i64, parse_leaf, parse_leaf_der,
  lifetime_of, cert_lifetime_at, due_by_ratio, threshold_seconds, needs_renewal_at_checked,
  needs_renewal_ratio_at_checked,
}
use cheti.Renewal.Due.{IsDue, needs_renewal_ratio_at_checked_iff, needs_renewal_ratio_stays_due}
use cheti.Renewal.Window.{needs_renewal_ratio_at_checked-window, cert_lifetime_at-remaining_days}

-- A certificate of 90 days.
abbrev cert : X509Certificate
cert = record {
  not_before = pos 1000000;
  not_after = pos (1000000 + 90 * day);
  common_names = [];
  alternative_names = none;
}

abbrev parser : Parser
parser = record {
  read = λ pem. answered (record { label = pem; contents = [] });
  from_der = λ der. answered cert;
}

abbrev pem : Text
pem = text "CERTIFICATE"

-- 29 days before its end, and later.
abbrev now : ℤ
now = pos (1000000 + 61 * day)

abbrev later : ℤ
later = pos (1000000 + 91 * day)

-- Half a day after its end.
abbrev just_expired : ℤ
just_expired = pos (1000000 + 90 * day + 43200)

parsed : parse_leaf parser pem ≡ ok cert
unfolding parse_leaf parse_leaf_der text
parsed = refl

due_now : needs_renewal_ratio_at_checked parser pem 30 now ≡ ok true
unfolding needs_renewal_ratio_at_checked cert_lifetime_at parse_leaf parse_leaf_der text lifetime_of
    due_by_ratio threshold_seconds sub_i64 wrap_i64 ◌-ℤ◌ div_ℤ
due_now = refl

needs_renewal_ratio_at_checked_iff_example :
    (needs_renewal_ratio_at_checked parser pem 30 now ≡ ok true)
    ↔ IsDue (cert.not_after -ℤ cert.not_before) 30 (cert.not_after -ℤ now)
needs_renewal_ratio_at_checked_iff_example =
    needs_renewal_ratio_at_checked_iff parser pem cert 30 now parsed (omega arith, omega arith)
      (omega arith, omega arith) (omega arith, omega arith)

needs_renewal_ratio_stays_due_example : needs_renewal_ratio_at_checked parser pem 30 later ≡ ok true
needs_renewal_ratio_stays_due_example =
    needs_renewal_ratio_stays_due parser pem cert 30 now later parsed (omega arith, omega arith)
      (omega arith, omega arith) (omega arith, omega arith) (omega arith, omega arith) (omega arith)
      due_now

long_enough : pos (3 * (30 * day)) ≤ℤ cert.not_after -ℤ cert.not_before
unfolding ◌-ℤ◌
long_enough = omega arith

needs_renewal_ratio_at_checked-window_example :
    needs_renewal_ratio_at_checked parser pem 30 now ≡ needs_renewal_at_checked parser pem 30 now
needs_renewal_ratio_at_checked-window_example =
    needs_renewal_ratio_at_checked-window parser pem cert 30 now parsed (omega arith, omega arith)
      (omega arith, omega arith) (omega arith) long_enough

abbrev lifetime : CertLifetime
lifetime = record {
  not_before = pos 1000000;
  not_after = pos (1000000 + 90 * day);
  total_days = pos 90;
  remaining_days = pos 0;
  subject_cn = none;
  sans = [];
}

-- A certificate that has expired, with no days remaining rather than a negative number.
just_expired-lifetime : cert_lifetime_at parser pem just_expired ≡ ok lifetime
unfolding cert_lifetime_at parse_leaf parse_leaf_der text lifetime_of sub_i64 wrap_i64 ◌-ℤ◌ div_ℤ
just_expired-lifetime = refl

cert_lifetime_at-remaining_days_example :
    (lifetime.remaining_days ≤ℤ negsuc 0) ↔ (lifetime.not_after +ℤ pos day ≤ℤ just_expired)
cert_lifetime_at-remaining_days_example =
    cert_lifetime_at-remaining_days parser pem lifetime just_expired just_expired-lifetime
      (omega arith, omega arith) (omega arith, omega arith)
