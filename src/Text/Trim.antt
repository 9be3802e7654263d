-- ===== src/Text/Trim.antt =====
-- What trimming leaves alone.
use mathlib.Core.Bool.{◌&&◌}
use cheti.Prelude.{
  ℕ, ◌≡◌, refl, inl, inr, Bool, true, false, [], ◌∷◌, ◌++◌, arith, Bool-cases, All, ◌==◌, length,
  ◌≤◌,
}
use cheti.Text.{
  Text, trim_start_by, trim_end_by, trim_matches, trim, is_whitespace, is_empty, contains,
}

module _ (p : ℕ → Bool) where
  -- A text none of whose characters is dropped.
  pub trim_end_none : (s : Text) → All (λ c. p c ≡ false) s → trim_end_by p s ≡ s
  unfolding trim_end_by
  trim_end_none [] h = refl
  trim_end_none (c ∷ s) h = ground (arith, trim_end_none s h.1)

  pub trim_start_none : (s : Text) → All (λ c. p c ≡ false) s → trim_start_by p s ≡ s
  unfolding trim_start_by
  trim_start_none [] h = refl
  trim_start_none (c ∷ s) h = rw h.0 refl

  -- A text whose last character is kept.
  pub trim_end_kept :
      (s : Text) (c : ℕ) → p c ≡ false → trim_end_by p (s ++ (c ∷ [])) ≡ s ++ (c ∷ [])
  unfolding trim_end_by
  trim_end_kept [] c h = ground arith
  trim_end_kept (d ∷ []) c h = ground (arith, trim_end_kept [] c h)
  trim_end_kept (d ∷ e ∷ s) c h = ground (arith, trim_end_kept (e ∷ s) c h)

  -- A last character that is dropped.
  pub trim_end_dropped :
      (s : Text) (c : ℕ) → p c ≡ true → trim_end_by p (s ++ (c ∷ [])) ≡ trim_end_by p s
  unfolding trim_end_by
  trim_end_dropped [] c h = ground arith
  trim_end_dropped (d ∷ s) c h = ground (arith, trim_end_dropped s c h)

  pub trim_end_idem : (s : Text) → trim_end_by p (trim_end_by p s) ≡ trim_end_by p s
  unfolding trim_end_by
  trim_end_idem [] = refl
  trim_end_idem (c ∷ s) = elim (Bool-cases (is_empty (trim_end_by p s) && p c)) [
    | inl e ↦ rw e refl
    | inr e ↦ rw e (ground (arith, trim_end_idem s))
  ]

  pub length-trim_end_le : (s : Text) → length (trim_end_by p s) ≤ length s
  unfolding trim_end_by
  length-trim_end_le [] = omega arith
  length-trim_end_le (c ∷ s) = ground (arith, length-trim_end_le s)

-- The quoted form of a text.
abbrev pub quoted : Text → Text
quoted v = b'"' ∷ (v ++ (b'"' ∷ []))

pub trim-quoted : (v : Text) → trim (quoted v) ≡ quoted v
unfolding trim_start_by is_whitespace
trim-quoted v = trim_end_kept is_whitespace (b'"' ∷ v) b'"' refl

All-of_free : (c : ℕ) (s : Text) → contains c s ≡ false → All (λ d. (d == c) ≡ false) s
All-of_free c [] h = tt
All-of_free c (d ∷ s) h = (ground arith, All-of_free c s (ground arith))

trim_start_quote :
    (c : ℕ) (v : Text)
    → contains b'"' (c ∷ v) ≡ false
    → trim_start_by (λ d. d == b'"') (quoted (c ∷ v)) ≡ (c ∷ v) ++ (b'"' ∷ [])
unfolding trim_start_by
trim_start_quote c v h = ground arith

pub trim_matches-quoted : (v : Text) → contains b'"' v ≡ false → trim_matches b'"' (quoted v) ≡ v
unfolding trim_start_by trim_end_by
trim_matches-quoted [] h = refl
trim_matches-quoted (c ∷ v) h =
    rw (trim_start_quote c v h, trim_end_dropped (λ d. d == b'"') (c ∷ v) b'"' refl)
      (trim_end_none (λ d. d == b'"') (c ∷ v) (All-of_free b'"' (c ∷ v) h))
