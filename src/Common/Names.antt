-- ===== src/Common/Names.antt =====
-- `relative_name`, `encode_path`, `api_error` and `validate_https_base` of
-- src/providers/common.rs. The URL parser and the percent encoder are third-party crates: they
-- are arguments.
use cheti.Prelude.{
  ℕ, ◌≡◌, ◌↔◌, ◌⊎◌, inl, inr, sym, ap, Bool, false, ◌&&◌, ◌||◌, Option, none, some, ◌∷◌, ◌++◌,
  arith, leb, ◌==◌, if◌then◌else◌, Bool-cases, Option-cases, length-append,
}
use cheti.Text.{Text, text, text_eq, trim_end_matches, strip_suffix}
use cheti.Text.Suffix.{text_eq_iff, text_eq_longer, strip_suffix-append, strip_suffix_sound}
use cheti.Error.{Result, ok, err, other}

unfoldable pub relative_name : Text → Text → Result Text
relative_name fqdn zone =
    let name = trim_end_matches b'.' fqdn in
    let apex = trim_end_matches b'.' zone in
    if text_eq name apex then ok (text "@") else elim (strip_suffix (b'.' ∷ apex) name) [
      | some relative ↦ ok relative
      | none ↦ err (other (text "fqdn " ++ (name ++ (text " is not within zone " ++ apex))))
    ]

-- `relative_name` succeeds exactly on the zone's own name, with `@`, and on the names that extend
-- the zone by labels, with those labels; trailing dots do not count.
pub relative_name_iff :
    (fqdn zone r : Text)
    → (relative_name fqdn zone ≡ ok r) ↔ (
        (trim_end_matches b'.' fqdn ≡ trim_end_matches b'.' zone) × (r ≡ text "@")
        ⊎ (trim_end_matches b'.' fqdn ≡ r ++ (b'.' ∷ trim_end_matches b'.' zone)))
unfolding relative_name
relative_name_iff fqdn zone r = (sound, complete)
  where
    name : Text
    name = trim_end_matches b'.' fqdn

    apex : Text
    apex = trim_end_matches b'.' zone

    sound :
        relative_name fqdn zone ≡ ok r
        → (name ≡ apex) × (r ≡ text "@") ⊎ (name ≡ r ++ (b'.' ∷ apex))
    sound h = elim (Bool-cases (text_eq name apex)) [
      | inl e ↦ inl ((text_eq_iff name apex).0 e, ground arith)
      | inr e ↦ elim (Option-cases (strip_suffix (b'.' ∷ apex) name)) [
        | inl n ↦ ground arith
        | inr (s, y) ↦ inr (ground (arith, strip_suffix_sound name (b'.' ∷ apex) y))
      ]
    ]

    complete :
        (name ≡ apex) × (r ≡ text "@") ⊎ (name ≡ r ++ (b'.' ∷ apex))
        → relative_name fqdn zone ≡ ok r
    complete (inl (e, a)) = rw ((text_eq_iff name apex).1 e) (ap ok (sym a))
    complete (inr e) = rw (
      e,
      text_eq_longer (r ++ (b'.' ∷ apex)) apex (omega (arith, length-append r (b'.' ∷ apex))),
      strip_suffix-append r (b'.' ∷ apex),
    )

-- The set of characters that `encode_path` escapes: `CONTROLS` and the ones that it adds.
abbrev pub path_segment : ℕ → Bool
path_segment c =
    leb c 31
    || c == 127
    || c == b' '
    || c == 34
    || c == b'#'
    || c == b'%'
    || c == b'/'
    || c == b'<'
    || c == b'>'
    || c == b'?'
    || c == 92
    || c == b'^'
    || c == 96
    || c == b'{'
    || c == b'|'
    || c == b'}'

-- `percent_encoding::utf8_percent_encode`, given the set to escape.
abbrev pub PercentEncode : Type 0
PercentEncode = (ℕ → Bool) → Text → Text

abbrev pub encode_path : PercentEncode → Text → Text
encode_path utf8_percent_encode segment = utf8_percent_encode path_segment segment

-- What `url::Url` says of a base that it can parse.
pub record Url : Type 0 where
  pub scheme : Text
  pub host_str : Option Text

unfoldable pub is_local : Option Text → Bool
is_local none = false
is_local (some host) =
    text_eq host (text "localhost") || text_eq host (text "127.0.0.1") || text_eq host (text "::1")

unfoldable pub validate_https_base : (Text → Option Url) → Text → Text → Result (Unit {0})
unfolding is_local
validate_https_base url_parse base provider = elim (url_parse base) [
  | none ↦ err (other (provider ++ (text " api_base is not a valid URL: " ++ base)))
  | some parsed ↦
      if text_eq parsed.scheme (text "https")
        || (text_eq parsed.scheme (text "http") && is_local parsed.host_str)
      then ok tt
      else err
          (other (provider ++ (text " api_base must use https:// (got " ++ (base ++ text ")"))))
]

-- The names of this machine that may be asked without TLS.
pub data IsThisMachine : Option Text → Type 0 where
  localhost : IsThisMachine (some (text "localhost"))
  ipv4 : IsThisMachine (some (text "127.0.0.1"))
  ipv6 : IsThisMachine (some (text "::1"))
