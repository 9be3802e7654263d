-- ===== src/Common/Body.antt =====
-- `truncate_error_body` and `api_error` of src/providers/common.rs.
use mathlib.Core.Option
use cheti.Prelude.{
  ℕ, zero, suc, ◌+◌, ◌≤◌, ◌<◌, ◌≡◌, refl, sym, ap, ◌∙◌, inl, inr, true, false, Option, some, ◌++◌,
  arith, leb, if◌then◌else◌, Bool-cases, leb-eq_false, leb→le,
}
use cheti.Text.{Text, text}
use cheti.Text.Utf8.{
  byte_length, len_utf8, is_char_boundary, slice_to, is_char_boundary-byte_length,
  slice_to-byte_length, boundary_prefix, byte_length-append,
}

abbrev pub max_error_body : ℕ
max_error_body = 512

-- `while cut > 0 && !raw.is_char_boundary(cut) { cut -= 1 }`.
pub floor_boundary : Text → ℕ → ℕ
floor_boundary raw zero = 0
floor_boundary raw (suc cut) =
    let rest = floor_boundary raw cut in if is_char_boundary raw (suc cut) then suc cut else rest

-- `none` is the panic of a slice inside a character.
unfoldable pub truncate_error_body : Text → Option Text
truncate_error_body raw =
    if leb (byte_length raw) max_error_body
    then some raw
    else Option.map (λ (kept : Text). kept ++ text "…(truncated)")
        (slice_to raw (floor_boundary raw max_error_body))

floor_boundary-is_char_boundary :
    (raw : Text) (n : ℕ) → is_char_boundary raw (floor_boundary raw n) ≡ true
unfolding floor_boundary
floor_boundary-is_char_boundary raw zero = unfold is_char_boundary in refl
floor_boundary-is_char_boundary raw (suc n) = elim (Bool-cases (is_char_boundary raw (suc n))) [
  | inl e ↦ rw e e
  | inr e ↦ rw e (floor_boundary-is_char_boundary raw n)
]

floor_boundary-le : (raw : Text) (n : ℕ) → floor_boundary raw n ≤ n
unfolding floor_boundary
floor_boundary-le raw zero = omega arith
floor_boundary-le raw (suc n) = ground (arith, floor_boundary-le raw n)

-- No boundary up to the start of the search lies above the one found.
floor_boundary_greatest :
    (raw : Text) (n k : ℕ) → k ≤ n → is_char_boundary raw k ≡ true → k ≤ floor_boundary raw n
unfolding floor_boundary
floor_boundary_greatest raw zero k le h = omega arith
floor_boundary_greatest raw (suc n) k le h = elim (Bool-cases (is_char_boundary raw (suc n))) [
  | inl e ↦ rw e le
  | inr e ↦ rw e (floor_boundary_greatest raw n k (below k le h e) h)
]
  where
    below :
        (k : ℕ)
        → k ≤ suc n
        → is_char_boundary raw k ≡ true
        → is_char_boundary raw (suc n) ≡ false
        → k ≤ n
    below k le yes_k no_n = elim (Bool-cases (leb k n)) [
      | inl e ↦ ground arith
      | inr e ↦ let same : k ≡ suc n = omega (arith, leb-eq_false k n e) in cc
    ]

-- What is kept of a long text: the longest prefix, cut between characters, of at most
-- `max_error_body` bytes.
pub record IsLongestPrefix (kept raw : Text) : Type 0 where
  pub rest : Text
  pub split : raw ≡ kept ++ rest
  pub fits : byte_length kept ≤ max_error_body
  pub longest :
      (p q : Text)
      → raw ≡ p ++ q
      → byte_length p ≤ max_error_body
      → byte_length p ≤ byte_length kept

lt→leb_false : (a b : ℕ) → b < a → leb a b ≡ false
lt→leb_false a b h = ground arith

len_mark : byte_length (text "…(truncated)") ≡ 14
unfolding text byte_length len_utf8
len_mark = refl

cut_IsLongestPrefix :
    (raw p t : Text)
    → raw ≡ p ++ t
    → byte_length p ≡ floor_boundary raw max_error_body
    → IsLongestPrefix p raw
cut_IsLongestPrefix raw p t e l = record {
  rest = t;
  split = e;
  fits = rw l (floor_boundary-le raw max_error_body);
  longest = λ q r eq le. rw l (
      floor_boundary_greatest raw max_error_body (byte_length q) le
        (rw eq (is_char_boundary-byte_length q r)));
}

cut_slice :
    (raw p t : Text)
    → raw ≡ p ++ t
    → byte_length p ≡ floor_boundary raw max_error_body
    → slice_to raw (floor_boundary raw max_error_body) ≡ some p
cut_slice raw p t e l =
    ap (slice_to raw) (sym l)
    ∙ ap (λ (s : Text). slice_to s (byte_length p)) e
    ∙ slice_to-byte_length p t

-- A text of more than 512 bytes is cut without a panic, between characters, to the longest prefix
-- of at most 512 bytes, and marked as truncated.
pub truncate_error_body_long :
    (raw : Text)
    → max_error_body < byte_length raw
    → (kept : Text) × IsLongestPrefix kept raw
      × (truncate_error_body raw ≡ some (kept ++ text "…(truncated)"))
unfolding truncate_error_body
truncate_error_body_long raw h =
    let (p, t, e, l) =
      boundary_prefix raw (floor_boundary raw max_error_body)
        (floor_boundary-is_char_boundary raw max_error_body) in
    (
      p,
      cut_IsLongestPrefix raw p t e l,
      rw (lt→leb_false (byte_length raw) max_error_body h, cut_slice raw p t e l),
    )

-- Whatever the text, the result exists, and is the text itself or at most 526 bytes long.
pub truncate_error_body_bounded :
    (raw : Text)
    → (shown : Text) × (truncate_error_body raw ≡ some shown)
      × (byte_length shown ≤ max_error_body + 14)
truncate_error_body_bounded raw = elim (Bool-cases (leb (byte_length raw) max_error_body)) [
  | inl e ↦ (
    raw,
    unfold truncate_error_body in rw e,
    omega (arith, leb→le (byte_length raw) max_error_body e),
  )
  | inr e ↦
      let (kept, p, eq) =
        truncate_error_body_long raw (leb-eq_false (byte_length raw) max_error_body e) in
      (
        kept ++ text "…(truncated)",
        eq,
        omega (arith, p.fits, byte_length-append kept (text "…(truncated)"), len_mark),
      )
]
