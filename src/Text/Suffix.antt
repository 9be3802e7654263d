-- ===== src/Text/Suffix.antt =====
-- `==`, `strip_prefix` and `strip_suffix` take apart what `++` puts together.
use cheti.Prelude.{
  ◌<◌, ◌≡◌, refl, ap, ◌↔◌, inl, inr, true, false, some, [], ◌∷◌, ◌++◌, arith, Bool-cases,
  Option-cases, length, length-append,
}
use cheti.Text.{Text, text_eq, strip_prefix, strip_suffix}

pub text_eq_refl : (s : Text) → text_eq s s ≡ true
text_eq_refl [] = refl
text_eq_refl (c ∷ s) = ground (arith, text_eq_refl s)

pub text_eq_sound : (s t : Text) → text_eq s t ≡ true → s ≡ t
text_eq_sound [] [] h = refl
text_eq_sound [] (d ∷ t) h = cc
text_eq_sound (c ∷ s) [] h = cc
text_eq_sound (c ∷ s) (d ∷ t) h = ground (arith, text_eq_sound s t)

pub text_eq_iff : (s t : Text) → (text_eq s t ≡ true) ↔ (s ≡ t)
text_eq_iff s t = (text_eq_sound s t, λ e. rw e (text_eq_refl t))

-- A longer text is another text.
pub text_eq_longer : (s t : Text) → length t < length s → text_eq s t ≡ false
text_eq_longer s t h = elim (Bool-cases (text_eq s t)) [
  | inl e ↦ absurd (omega (arith, ap length (text_eq_sound s t e)))
  | inr e ↦ e
]

pub strip_prefix-append : (p s : Text) → strip_prefix p (p ++ s) ≡ some s
unfolding strip_prefix
strip_prefix-append [] s = refl
strip_prefix-append (c ∷ p) s = ground (arith, strip_prefix-append p s)

pub strip_prefix_sound : (p s : Text) {r : Text} → strip_prefix p s ≡ some r → s ≡ p ++ r
unfolding strip_prefix
strip_prefix_sound [] s h = ground arith
strip_prefix_sound (c ∷ p) [] h = cc
strip_prefix_sound (c ∷ p) (d ∷ s) {r} h = ground (arith, strip_prefix_sound p s {r = r})

pub strip_suffix-append : (s p : Text) → strip_suffix p (s ++ p) ≡ some s
unfolding strip_suffix
strip_suffix-append [] [] = refl
strip_suffix-append [] (d ∷ p) = rw (text_eq_refl (d ∷ p))
strip_suffix-append (c ∷ s) p =
    rw (text_eq_longer (c ∷ (s ++ p)) p (omega (arith, length-append s p)), strip_suffix-append s p)

pub strip_suffix_sound : (s p : Text) {r : Text} → strip_suffix p s ≡ some r → s ≡ r ++ p
unfolding strip_suffix
strip_suffix_sound [] [] h = ground arith
strip_suffix_sound [] (d ∷ p) h = cc
strip_suffix_sound (c ∷ s) p {r} h = elim (Bool-cases (text_eq (c ∷ s) p)) [
  | inl e ↦ ground (arith, text_eq_sound (c ∷ s) p e)
  | inr e ↦ elim (Option-cases (strip_suffix p s)) [
    | inl n ↦ ground arith
    | inr (r', y) ↦ ground (arith, strip_suffix_sound s p {r = r'} y)
  ]
]
