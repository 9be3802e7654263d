-- ===== src/Renewal/Due.antt =====
-- When src/renewal.rs reports a certificate as due.
use cheti.Prelude.{
  ℕ, ◌+◌, ◌*◌, ◌^◌, ◌≤◌, ◌<◌, ◌≡◌, ◌↔◌, ◌⊎◌, inl, inr, ap, true, if◌then◌else◌, arith,
}
use cheti.Prelude.Int.{
  ℤ, pos, negsuc, pos_part, neg_part, ◌-ℤ◌, ◌+ℤ◌, ◌≤ℤ◌, leb_ℤ, div_ℤ, +ℤ_parts, -ℤ_parts,
}
use cheti.Text.{Text}
use cheti.Error.{ok}
use cheti.Renewal.{
  Parser, X509Certificate, CertLifetime, day, wrap_i64, sub_i64, parse_leaf, threshold_seconds,
  due_by_ratio, lifetime_of, cert_lifetime_at, needs_renewal_ratio_at_checked,
}

-- A timestamp well within 64 bits: less than 2^62 seconds (some 146 billion years) from the epoch.
abbrev pub Plausible : ℤ → Type 0
Plausible t = (pos_part t < 2 ^ 62) × (neg_part t < 2 ^ 62)

wrap_i64_pos : (n : ℕ) → n < 2 ^ 63 → wrap_i64 (pos n) ≡ pos n
unfolding wrap_i64
wrap_i64_pos n h = ground arith

wrap_i64_negsuc : (n : ℕ) → n < 2 ^ 63 → wrap_i64 (negsuc n) ≡ negsuc n
unfolding wrap_i64
wrap_i64_negsuc n h = ground arith

wrap_i64_small : (d : ℤ) → pos_part d < 2 ^ 63 → neg_part d < 2 ^ 63 → wrap_i64 d ≡ d
wrap_i64_small (pos n) h k = wrap_i64_pos n h
wrap_i64_small (negsuc n) h k = wrap_i64_negsuc n (omega (arith, k))

pos_part-sub : (a b : ℤ) → pos_part (a -ℤ b) ≤ pos_part a + neg_part b
unfolding ◌-ℤ◌
pos_part-sub a b = ground arith

neg_part-sub : (a b : ℤ) → neg_part (a -ℤ b) ≤ neg_part a + pos_part b
unfolding ◌-ℤ◌
neg_part-sub a b = ground arith

-- The difference of two plausible timestamps, and no more, is computed without overflow.
pub sub_i64_exact : (a b : ℤ) → Plausible a → Plausible b → sub_i64 a b ≡ a -ℤ b
unfolding sub_i64
sub_i64_exact a b ha hb =
    wrap_i64_small (a -ℤ b) (omega (arith, pos_part-sub a b, ha.0, hb.1))
      (omega (arith, neg_part-sub a b, ha.1, hb.0))

-- A certificate of a given lifetime is due: it has expired, or no more than a third of its
-- lifetime is left and, where there is a floor, no more than the floor.
abbrev pub IsDue : ℤ → ℕ → ℤ → Type 0
IsDue lifetime floor_days remaining =
    (remaining ≤ℤ pos 0)
    ⊎ (((remaining +ℤ remaining) +ℤ remaining ≤ℤ lifetime)
        × ((floor_days ≡ 0) ⊎ (remaining ≤ℤ pos (floor_days * day))))

ratio_iff :
    (lifetime : ℤ) (floor_days : ℕ) (remaining : ℤ)
    → ((if leb_ℤ remaining (pos 0)
          then true
          else leb_ℤ remaining (threshold_seconds lifetime floor_days))
        ≡ true)
      ↔ IsDue lifetime floor_days remaining
unfolding threshold_seconds div_ℤ ◌+ℤ◌
ratio_iff lifetime floor_days (negsuc n) = ground arith
ratio_iff (negsuc l) floor_days (pos n) = ground arith
ratio_iff (pos l) floor_days (pos n) = ground arith

-- Whether a lifetime makes a certificate due by ratio, in terms of its timestamps.
pub due_by_ratio_iff :
    (life : CertLifetime) (floor_days : ℕ) (now : ℤ)
    → Plausible life.not_before
    → Plausible life.not_after
    → Plausible now
    → (due_by_ratio life floor_days now ≡ true)
      ↔ IsDue (life.not_after -ℤ life.not_before) floor_days (life.not_after -ℤ now)
unfolding due_by_ratio
due_by_ratio_iff life floor_days now hb ha hn =
    rw (sub_i64_exact life.not_after now ha hn, sub_i64_exact life.not_after life.not_before ha hb)
      (ratio_iff (life.not_after -ℤ life.not_before) floor_days (life.not_after -ℤ now))

-- For a certificate that parses, and timestamps below 2^62, the check by ratio reports it as due
-- exactly if it has expired, or no more than a third of its lifetime and, unless the floor is 0,
-- no more than the floor is left.
pub needs_renewal_ratio_at_checked_iff :
    (parser : Parser) (pem : Text) (cert : X509Certificate) (floor_days : ℕ) (now : ℤ)
    → parse_leaf parser pem ≡ ok cert
    → Plausible cert.not_before
    → Plausible cert.not_after
    → Plausible now
    → (needs_renewal_ratio_at_checked parser pem floor_days now ≡ ok true)
      ↔ IsDue (cert.not_after -ℤ cert.not_before) floor_days (cert.not_after -ℤ now)
unfolding needs_renewal_ratio_at_checked cert_lifetime_at lifetime_of
needs_renewal_ratio_at_checked_iff parser pem cert floor_days now e hb ha hn =
    let iff = due_by_ratio_iff (lifetime_of cert now) floor_days now hb ha hn in
    rw e (λ h. iff.0 cc, λ d. ap ok (iff.1 d))

-- Less time left: a certificate that is due stays due.
IsDue-le :
    (lifetime : ℤ) (floor_days : ℕ) (r less : ℤ)
    → less ≤ℤ r
    → IsDue lifetime floor_days r
    → IsDue lifetime floor_days less
IsDue-le lifetime floor_days r less h (inl x) = inl (omega (arith, h, x))
IsDue-le lifetime floor_days r less h (inr (t, c)) = inr (
  omega (
    arith,
    h,
    t,
    +ℤ_parts r r,
    +ℤ_parts (r +ℤ r) r,
    +ℤ_parts less less,
    +ℤ_parts (less +ℤ less) less,
  ),
  under c,
)
  where
    under :
        (floor_days ≡ 0) ⊎ (r ≤ℤ pos (floor_days * day))
        → (floor_days ≡ 0) ⊎ (less ≤ℤ pos (floor_days * day))
    under (inl z) = inl z
    under (inr u) = inr (omega (arith, h, u))

-- A certificate that parses and that a check by ratio reports as due is reported as due at every
-- later time, for timestamps below 2^62.
pub needs_renewal_ratio_stays_due :
    (parser : Parser) (pem : Text) (cert : X509Certificate) (floor_days : ℕ) (now later : ℤ)
    → parse_leaf parser pem ≡ ok cert
    → Plausible cert.not_before
    → Plausible cert.not_after
    → Plausible now
    → Plausible later
    → now ≤ℤ later
    → needs_renewal_ratio_at_checked parser pem floor_days now ≡ ok true
    → needs_renewal_ratio_at_checked parser pem floor_days later ≡ ok true
needs_renewal_ratio_stays_due parser pem cert floor_days now later e hb ha hn hl h d =
    let early = needs_renewal_ratio_at_checked_iff parser pem cert floor_days now e hb ha hn in
    let late = needs_renewal_ratio_at_checked_iff parser pem cert floor_days later e hb ha hl in
    late.1 (
      IsDue-le (cert.not_after -ℤ cert.not_before) floor_days (cert.not_after -ℤ now)
        (cert.not_after -ℤ later)
        (omega (arith, h, -ℤ_parts cert.not_after now, -ℤ_parts cert.not_after later)) (early.0 d))
