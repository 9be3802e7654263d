-- ===== src/Text/Case.antt =====
-- Lowercasing: it can be repeated, and it commutes with what looks at dots and letters.
use cheti.Prelude.{ℕ, ◌≡◌, refl, Bool, true, false, List, [], ◌∷◌, arith, ◌==◌, map}
use cheti.Text.{
  Text, lower, to_ascii_lowercase, is_ascii_alphanumeric, trim_end_matches, trim_end_by, split,
  push_piece,
}

pub lower_idem : (c : ℕ) → lower (lower c) ≡ lower c
unfolding lower
lower_idem c = ground arith

pub lower-dot : (c : ℕ) → (lower c == b'.') ≡ (c == b'.')
unfolding lower
lower-dot c = ground arith

pub is_ascii_alphanumeric-lower :
    (c : ℕ) → is_ascii_alphanumeric (lower c) ≡ is_ascii_alphanumeric c
unfolding lower
is_ascii_alphanumeric-lower c = ground arith

pub lowercase_idem : (s : Text) → to_ascii_lowercase (to_ascii_lowercase s) ≡ to_ascii_lowercase s
unfolding to_ascii_lowercase
lowercase_idem [] = refl
lowercase_idem (c ∷ s) = cc (lower_idem c, lowercase_idem s)

pub trim_end_matches-lowercase :
    (s : Text)
    → trim_end_matches b'.' (to_ascii_lowercase s) ≡ to_ascii_lowercase (trim_end_matches b'.' s)
unfolding trim_end_by to_ascii_lowercase
trim_end_matches-lowercase [] = refl
trim_end_matches-lowercase (c ∷ s) = rw (lower-dot c, trim_end_matches-lowercase s) (ground arith)

push_piece-lowercase :
    (b : Bool) (c : ℕ) (ps : List Text)
    → push_piece b (lower c) (map to_ascii_lowercase ps)
      ≡ map to_ascii_lowercase (push_piece b c ps)
unfolding to_ascii_lowercase
push_piece-lowercase true c ps = refl
push_piece-lowercase false c [] = refl
push_piece-lowercase false c (p ∷ ps) = refl

-- The labels of a lowercased name are the lowercased labels.
pub split-lowercase :
    (s : Text) → split b'.' (to_ascii_lowercase s) ≡ map to_ascii_lowercase (split b'.' s)
unfolding split to_ascii_lowercase
split-lowercase [] = refl
split-lowercase (c ∷ s) =
    rw (lower-dot c, split-lowercase s) (push_piece-lowercase (c == b'.') c (split b'.' s))
