-- ===== src/Common/Validate/Hostname.antt =====
-- What `validate_fqdn` and `validate_zone` accept, against a description by labels.
use cheti.Prelude.{ℕ, ◌≤◌, ◌≡◌, ◌↔◌, refl, true, false, List, [], ◌∷◌, sym, arith, all, All, ◌≢◌}
use cheti.Text.{Text, trim_end_matches, is_empty, split, join}
use cheti.Text.Utf8.{byte_length, len_utf8_bounds}
use cheti.Text.Pieces.{Free, join-split, split-join, split-ne-nil}
use cheti.Error.{ok}
use cheti.Common.Validate.{is_allowed, validate_labels, validate_fqdn}

-- A label: 1 to 63 letters, digits, hyphens and underscores.
pub record IsLabel (l : Text) : Type 0 where
  pub lower_bound : 1 ≤ byte_length l
  pub upper_bound : byte_length l ≤ 63
  pub characters : all is_allowed l ≡ true

-- A name: labels with dots between them, 253 bytes at most.
pub record IsHostname (name : Text) : Type 0 where
  pub first : Text
  pub others : List Text
  pub spelled : name ≡ join b'.' (first ∷ others)
  pub labels : All IsLabel (first ∷ others)
  pub short : byte_length name ≤ 253

pub byte_length-pos : (s : Text) → is_empty s ≡ false → 1 ≤ byte_length s
unfolding byte_length
byte_length-pos [] h = cc
byte_length-pos (c ∷ s) h = omega (arith, len_utf8_bounds c)

pub byte_length-empty : (s : Text) → 1 ≤ byte_length s → is_empty s ≡ false
unfolding byte_length
byte_length-empty [] h = absurd (omega arith)
byte_length-empty (c ∷ s) h = refl

pub allowed_without : (c : ℕ) (s : Text) → is_allowed c ≡ false → all is_allowed s ≡ true → Free c s
allowed_without c [] n h = refl
allowed_without c (d ∷ s) n h = ground (arith, allowed_without c s n)

IsLabel-of_tests :
    (l : Text) → is_empty l ≡ false → byte_length l ≤ 63 → all is_allowed l ≡ true → IsLabel l
IsLabel-of_tests l e u c = record {
  lower_bound = byte_length-pos l e;
  upper_bound = u;
  characters = c;
}

validate_labels_sound :
    (fqdn : Text) (ls : List Text) → validate_labels fqdn ls ≡ ok tt → All IsLabel ls
unfolding validate_labels
validate_labels_sound fqdn [] h = tt
validate_labels_sound fqdn (l ∷ ls) h =
    (ground (arith, IsLabel-of_tests l), validate_labels_sound fqdn ls (ground arith))

validate_labels_complete :
    (fqdn : Text) (ls : List Text) → All IsLabel ls → validate_labels fqdn ls ≡ ok tt
unfolding validate_labels
validate_labels_complete fqdn [] h = refl
validate_labels_complete fqdn (l ∷ ls) h = ground (
  arith,
  byte_length-empty l,
  h.0.lower_bound,
  h.0.upper_bound,
  h.0.characters,
  allowed_without 0 l refl,
  validate_labels_complete fqdn ls h.1,
)

All-Free : (ls : List Text) → All IsLabel ls → All (Free b'.') ls
All-Free [] h = tt
All-Free (l ∷ ls) h = (allowed_without b'.' l refl h.0.characters, All-Free ls h.1)

hostname_of_pieces :
    (name : Text) (ls : List Text)
    → ls ≢ []
    → join b'.' ls ≡ name
    → All IsLabel ls
    → byte_length name ≤ 253
    → IsHostname name
hostname_of_pieces name [] ne e h u = absurd (ne refl)
hostname_of_pieces name (l ∷ ls) ne e h u = record {
  first = l;
  others = ls;
  spelled = sym e;
  labels = h;
  short = u;
}

validate_fqdn_sound : (s : Text) → validate_fqdn s ≡ ok tt → IsHostname (trim_end_matches b'.' s)
unfolding validate_fqdn
validate_fqdn_sound s h =
    let t = trim_end_matches b'.' s in
    hostname_of_pieces t (split b'.' t) (split-ne-nil b'.' t) (join-split b'.' t)
      (validate_labels_sound s (split b'.' t) (ground arith)) (ground arith)

labels_nonempty :
    (l : Text) (ls : List Text) → 1 ≤ byte_length l → is_empty (join b'.' (l ∷ ls)) ≡ false
unfolding join byte_length
labels_nonempty [] ls h = absurd (omega arith)
labels_nonempty (c ∷ l) [] h = refl
labels_nonempty (c ∷ l) (k ∷ ls) h = refl

validate_fqdn_complete : (s : Text) → IsHostname (trim_end_matches b'.' s) → validate_fqdn s ≡ ok tt
unfolding validate_fqdn
validate_fqdn_complete s h = ground (
  arith,
  labels_nonempty h.first h.others h.labels.0.lower_bound,
  h.spelled,
  h.short,
  split-join b'.' h.first h.others (All-Free (h.first ∷ h.others) h.labels),
  validate_labels_complete s (h.first ∷ h.others) h.labels,
)

-- `validate_fqdn` accepts a name exactly when, without its trailing dots, it is a sequence of one
-- or more labels joined by dots, each of 1 to 63 letters, digits, hyphens and underscores, of 253
-- bytes at most in all.
pub validate_fqdn_iff :
    (s : Text) → (validate_fqdn s ≡ ok tt) ↔ IsHostname (trim_end_matches b'.' s)
validate_fqdn_iff s = (validate_fqdn_sound s, validate_fqdn_complete s)
