-- ===== src/Common/Validate/Values.antt =====
-- What `validate_acme_value`, `validate_ttl_range` and `validate_zone` accept.
use cheti.Prelude.{
  ℕ, ◌≤◌, ◌≡◌, ◌≢◌, ◌↔◌, refl, ap, ◌∙◌, true, false, List, [], ◌∷◌, arith, all, ◌==◌, any-append,
  All, &&-eq_true,
}
use cheti.Text.{
  Text, trim_end_matches, contains, join, is_whitespace, trim, trim_matches, trim_end_by,
}
use cheti.Text.Trim.{trim_start_none, trim_end_none}
use cheti.Text.Utf8.{byte_length}
use cheti.Text.Pieces.{Free}
use cheti.Error.{ok, >>=-eq-ok}
use cheti.Common.Validate.{
  is_allowed, validate_acme_value, validate_ttl_range, validate_fqdn, validate_zone,
}
use cheti.Common.Validate.Hostname.{
  IsHostname, IsLabel, validate_fqdn_iff, byte_length-pos, byte_length-empty, allowed_without,
}

-- `validate_acme_value` accepts exactly the values of 1 to 128 letters, digits, hyphens and
-- underscores.
pub validate_acme_value_iff :
    (v : Text)
    → (validate_acme_value v ≡ ok tt)
      ↔ ((1 ≤ byte_length v) × (byte_length v ≤ 128) × (all is_allowed v ≡ true))
unfolding validate_acme_value
validate_acme_value_iff v = (
  λ h. (ground (arith, byte_length-pos v), ground arith, ground arith),
  λ h. ground (arith, byte_length-empty v),
)

-- A value that was accepted holds no quote, so it survives quoting and unquoting.
pub validate_acme_value-Free :
    (v : Text) (c : ℕ) → is_allowed c ≡ false → validate_acme_value v ≡ ok tt → Free c v
validate_acme_value-Free v c n h = allowed_without c v n ((validate_acme_value_iff v).0 h).2

-- `validate_ttl_range` returns the TTL itself, exactly when it lies in the range.
pub validate_ttl_range_iff :
    (ttl lo hi t : ℕ)
    → (validate_ttl_range ttl lo hi ≡ ok t) ↔ ((t ≡ ttl) × (lo ≤ ttl) × (ttl ≤ hi))
unfolding validate_ttl_range
validate_ttl_range_iff ttl lo hi t =
    (λ h. (ground arith, ground arith, ground arith), λ h. ground arith)

dot_in_join : (l : Text) (ls : List Text) → ls ≢ [] → contains b'.' (join b'.' (l ∷ ls)) ≡ true
unfolding join
dot_in_join l [] h = absurd (h refl)
dot_in_join l (k ∷ ls) h =
    rw (any-append (λ d. d == b'.') l (b'.' ∷ join b'.' (k ∷ ls))) (ground arith)

no_dot_alone : (l : Text) → IsLabel l → contains b'.' (join b'.' (l ∷ [])) ≡ false
unfolding join
no_dot_alone l h = allowed_without b'.' l refl h.characters

validate_zone_sound :
    (z : Text)
    → validate_zone z ≡ ok tt
    → (h : IsHostname (trim_end_matches b'.' z)) × (h.others ≢ [])
unfolding validate_zone
validate_zone_sound z h =
    let (u, accepted, rest) = >>=-eq-ok (validate_fqdn z) _ h in
    let n = (validate_fqdn_iff z).0 accepted in
    (
      n,
      λ e. ground (
        arith,
        no_dot_alone n.first n.labels.0,
        n.spelled,
        ap (λ (o : List Text). join b'.' (n.first ∷ o)) e,
      ),
    )

-- `validate_zone` accepts exactly the names that `validate_fqdn` accepts and that have at least
-- two labels.
pub validate_zone_iff :
    (z : Text)
    → (validate_zone z ≡ ok tt) ↔ ((h : IsHostname (trim_end_matches b'.' z)) × (h.others ≢ []))
unfolding validate_zone
validate_zone_iff z = (
  validate_zone_sound z,
  λ h.
      rw ((validate_fqdn_iff z).1 h.0)
        (ground (arith, h.0.spelled, dot_in_join h.0.first h.0.others h.1)),
)

-- Trimming leaves a value that passes the check as it is.
allowed-plain : (c : ℕ) → is_allowed c ≡ true → (is_whitespace c ≡ false) × ((c == b'"') ≡ false)
unfolding is_whitespace
allowed-plain c h = ground arith

allowed-All :
    (s : Text)
    → all is_allowed s ≡ true
    → All (λ c. is_whitespace c ≡ false) s × All (λ c. (c == b'"') ≡ false) s
allowed-All [] h = (tt, tt)
allowed-All (c ∷ s) h =
    let (here, rest) = &&-eq_true (is_allowed c) (all is_allowed s) h in
    let (w, q) = allowed-plain c here in let (ws, qs) = allowed-All s rest in ((w, ws), (q, qs))

pub validate_acme_value-trim :
    (value : Text)
    → validate_acme_value value ≡ ok tt
    → (trim value ≡ value) × (trim_matches b'"' value ≡ value)
validate_acme_value-trim value h =
    let (w, q) = allowed-All value ((validate_acme_value_iff value).0 h).2 in
    (
      ap (trim_end_by is_whitespace) (trim_start_none is_whitespace value w)
          ∙ trim_end_none is_whitespace value w,
      ap (trim_end_by (λ c. c == b'"')) (trim_start_none (λ c. c == b'"') value q)
          ∙ trim_end_none (λ c. c == b'"') value q,
    )

pub validate_acme_value-unquoted :
    (value : Text) → validate_acme_value value ≡ ok tt → contains b'"' value ≡ false
validate_acme_value-unquoted value h = validate_acme_value-Free value b'"' refl h
