-- ===== src/Common/Validate/Lowercase.antt =====
-- The providers validate a name first and lowercase it afterwards: the check is not undone.
use cheti.Prelude.{ℕ, ◌≡◌, ◌∙◌, ◌++◌, refl, ap, List, [], ◌∷◌, arith, all, All, map}
use cheti.Text.{Text, trim_end_matches, to_ascii_lowercase, lower, join}
use cheti.Text.Utf8.{byte_length, len_utf8}
use cheti.Text.Case.{trim_end_matches-lowercase}
use cheti.Error.{ok}
use cheti.Common.Validate.{is_allowed, validate_fqdn}
use cheti.Common.Validate.Hostname.{IsHostname, IsLabel, validate_fqdn_iff}

len_utf8-lower : (c : ℕ) → len_utf8 (lower c) ≡ len_utf8 c
unfolding lower len_utf8
len_utf8-lower c = ground arith

pub byte_length-lowercase : (s : Text) → byte_length (to_ascii_lowercase s) ≡ byte_length s
unfolding byte_length to_ascii_lowercase
byte_length-lowercase [] = refl
byte_length-lowercase (c ∷ s) = cc (len_utf8-lower c, byte_length-lowercase s)

is_allowed-lower : (c : ℕ) → is_allowed (lower c) ≡ is_allowed c
unfolding lower
is_allowed-lower c = ground arith

all-is_allowed-lowercase : (s : Text) → all is_allowed (to_ascii_lowercase s) ≡ all is_allowed s
unfolding to_ascii_lowercase
all-is_allowed-lowercase [] = refl
all-is_allowed-lowercase (c ∷ s) = rw (is_allowed-lower c, all-is_allowed-lowercase s)

lowercase-append :
    (s t : Text) → to_ascii_lowercase (s ++ t) ≡ to_ascii_lowercase s ++ to_ascii_lowercase t
unfolding to_ascii_lowercase
lowercase-append [] t = refl
lowercase-append (c ∷ s) t = ap (◌∷◌ (lower c)) (lowercase-append s t)

lowercase-dot : (s : Text) → to_ascii_lowercase (b'.' ∷ s) ≡ b'.' ∷ to_ascii_lowercase s
unfolding to_ascii_lowercase
lowercase-dot s = refl

lowercase-join :
    (l : Text) (ls : List Text)
    → to_ascii_lowercase (join b'.' (l ∷ ls))
      ≡ join b'.' (to_ascii_lowercase l ∷ map to_ascii_lowercase ls)
unfolding join
lowercase-join l [] = refl
lowercase-join l (k ∷ ls) =
    rw (lowercase-append l (b'.' ∷ join b'.' (k ∷ ls)), lowercase-dot (join b'.' (k ∷ ls)))
      (ap (λ (r : Text). to_ascii_lowercase l ++ (b'.' ∷ r)) (lowercase-join k ls))

IsLabel-lowercase : (ls : List Text) → All IsLabel ls → All IsLabel (map to_ascii_lowercase ls)
IsLabel-lowercase [] h = tt
IsLabel-lowercase (l ∷ ls) h = (
  record {
    lower_bound = rw (byte_length-lowercase l) h.0.lower_bound;
    upper_bound = rw (byte_length-lowercase l) h.0.upper_bound;
    characters = rw (all-is_allowed-lowercase l) h.0.characters;
  },
  IsLabel-lowercase ls h.1,
)

IsHostname-lowercase : (s : Text) → IsHostname s → IsHostname (to_ascii_lowercase s)
IsHostname-lowercase s h = record {
  first = to_ascii_lowercase h.first;
  others = map to_ascii_lowercase h.others;
  spelled = ap to_ascii_lowercase h.spelled ∙ lowercase-join h.first h.others;
  labels = IsLabel-lowercase (h.first ∷ h.others) h.labels;
  short = rw (byte_length-lowercase s) h.short;
}

-- A name that `validate_fqdn` accepts is accepted in lower case too.
pub validate_fqdn-lowercase :
    (s : Text) → validate_fqdn s ≡ ok tt → validate_fqdn (to_ascii_lowercase s) ≡ ok tt
validate_fqdn-lowercase s h = (validate_fqdn_iff (to_ascii_lowercase s)).1 (
    rw (trim_end_matches-lowercase s)
      (IsHostname-lowercase (trim_end_matches b'.' s) ((validate_fqdn_iff s).0 h)))
