-- ===== src/Common/Validate.antt =====
-- The checks on names, challenge values and TTLs of src/providers/common.rs.
pub mod Hostname
pub mod Lowercase
pub mod Values
use cheti.Prelude.{
  ℕ, ◌^◌, ◌-◌, Bool, not, ◌&&◌, ◌||◌, List, [], ◌∷◌, ◌++◌, ltb, leb, ◌==◌, if◌then◌else◌, all,
  length,
}
use cheti.Text.{
  Text, text, trim_end_matches, is_empty, contains, split, is_ascii_alphanumeric, decimal,
}
use cheti.Text.Utf8.{byte_length}
use cheti.Error.{Result, ok, err, other, ◌>>◌}

-- The bytes allowed in a label and in a challenge value. A character beyond ASCII has only bytes
-- that fail the test, so the characters are tested.
abbrev pub is_allowed : ℕ → Bool
is_allowed b = is_ascii_alphanumeric b || b == b'-' || b == b'_'

unfoldable pub validate_acme_value : Text → Result (Unit {0})
validate_acme_value value =
    if is_empty value || ltb 128 (byte_length value)
    then err (other (text "invalid ACME value length: " ++ decimal (byte_length value)))
    else if not (all is_allowed value)
    then err (other (text "ACME value must be base64url (A-Z a-z 0-9 - _)"))
    else ok tt

unfoldable pub validate_labels : Text → List Text → Result (Unit {0})
validate_labels fqdn [] = ok tt
validate_labels fqdn (label ∷ labels) =
    let rest = validate_labels fqdn labels in
    if is_empty label || ltb 63 (byte_length label)
    then err (other (text "invalid label in " ++ fqdn))
    else if contains 0 label
    then err (other (text "fqdn contains null byte"))
    else if not (all is_allowed label)
    then err (other (text "invalid character in " ++ fqdn))
    else rest

unfoldable pub validate_fqdn : Text → Result (Unit {0})
validate_fqdn fqdn =
    let trimmed = trim_end_matches b'.' fqdn in
    if is_empty trimmed || ltb 253 (byte_length trimmed)
    then err (other (text "invalid fqdn length: " ++ fqdn))
    else validate_labels fqdn (split b'.' trimmed)

unfoldable pub validate_zone : Text → Result (Unit {0})
validate_zone zone = do
  validate_fqdn zone
  if not (contains b'.' (trim_end_matches b'.' zone))
      then err (other (text "zone must have at least two labels, got " ++ zone))
      else ok tt

-- `i32::MAX as u32`.
abbrev pub max_ttl : ℕ
max_ttl = 2 ^ 31 - 1

unfoldable pub validate_ttl_range : ℕ → ℕ → ℕ → Result ℕ
validate_ttl_range ttl min max =
    if not (leb min ttl && leb ttl max)
    then err (
        other (
          text "TTL must be between "
          ++ (decimal min ++ (text " and " ++ (decimal max ++ (text ", got " ++ decimal ttl))))))
    else ok ttl

unfoldable pub validate_ttl : ℕ → Result ℕ
unfolding validate_ttl_range
validate_ttl ttl = validate_ttl_range ttl 0 max_ttl
