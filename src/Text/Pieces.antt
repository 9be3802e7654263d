-- ===== src/Text/Pieces.antt =====
-- `split`, `join` and `split_once` are inverse to one another.
use cheti.Prelude.{
  ℕ, ◌≡◌, ◌≢◌, refl, ap, inl, inr, Bool, true, false, none, some, List, [], ◌∷◌, ◌++◌, arith, ◌==◌,
  Bool-cases, Option-cases, All, length, ◌<◌, length-append,
}
use cheti.Text.{Text, split, join, split_once, push_piece, contains}

pub split-ne-nil : (sep : ℕ) (s : Text) → split sep s ≢ []
unfolding split
split-ne-nil sep [] h = cc
split-ne-nil sep (c ∷ s) h = ground arith

join-push_piece_sep :
    (sep c : ℕ) (ps : List Text) → ps ≢ [] → join sep (push_piece true c ps) ≡ sep ∷ join sep ps
unfolding join
join-push_piece_sep sep c [] h = absurd (h refl)
join-push_piece_sep sep c (p ∷ ps) h = refl

join-push_piece_char :
    (sep c : ℕ) (ps : List Text) → ps ≢ [] → join sep (push_piece false c ps) ≡ c ∷ join sep ps
unfolding join
join-push_piece_char sep c [] h = absurd (h refl)
join-push_piece_char sep c (p ∷ []) h = refl
join-push_piece_char sep c (p ∷ q ∷ ps) h = refl

-- Joining the pieces gives the text back.
pub join-split : (sep : ℕ) (s : Text) → join sep (split sep s) ≡ s
unfolding split
join-split sep [] = unfold join in refl
join-split sep (c ∷ s) = elim (Bool-cases (c == sep)) [
  | inl e ↦
      rw (e, join-push_piece_sep sep c (split sep s) (split-ne-nil sep s), join-split sep s)
        (ground arith)
  | inr e ↦
      rw (e, join-push_piece_char sep c (split sep s) (split-ne-nil sep s), join-split sep s) refl
]

abbrev pub Free : ℕ → Text → Type 0
Free sep p = contains sep p ≡ false

-- No piece holds the separator.
pub split-Free : (sep : ℕ) (s : Text) → All (Free sep) (split sep s)
unfolding split
split-Free sep [] = (refl, tt)
split-Free sep (c ∷ s) = go (c == sep) (split sep s) refl (split-Free sep s)
  where
    go :
        (b : Bool) (ps : List Text)
        → (c == sep) ≡ b
        → All (Free sep) ps
        → All (Free sep) (push_piece b c ps)
    go true ps e h = (refl, h)
    go false [] e h = (ground arith, tt)
    go false (p ∷ ps) e h = (ground arith, h.1)

split-Free' : (sep : ℕ) (p : Text) → Free sep p → split sep p ≡ p ∷ []
unfolding split
split-Free' sep [] h = refl
split-Free' sep (c ∷ p) h = ground (arith, split-Free' sep p)

pub split-append_sep :
    (sep : ℕ) (p s : Text) → Free sep p → split sep (p ++ (sep ∷ s)) ≡ p ∷ split sep s
unfolding split
split-append_sep sep [] s h = ground arith
split-append_sep sep (c ∷ p) s h = ground (arith, split-append_sep sep p s)

-- Splitting joined pieces gives the pieces back, if none holds the separator.
pub split-join :
    (sep : ℕ) (p : Text) (ps : List Text)
    → All (Free sep) (p ∷ ps)
    → split sep (join sep (p ∷ ps)) ≡ p ∷ ps
unfolding join
split-join sep p [] h = split-Free' sep p h.0
split-join sep p (q ∷ ps) h =
    rw (split-append_sep sep p (join sep (q ∷ ps)) h.0, split-join sep q ps h.1)

pub split_once_sound :
    (sep : ℕ) (s a b : Text) → split_once sep s ≡ some (a, b) → (s ≡ a ++ (sep ∷ b)) × Free sep a
unfolding split_once
split_once_sound sep [] a b h = cc
split_once_sound sep (c ∷ s) a b h = elim (Option-cases (split_once sep s)) [
  | inl e ↦ ground arith
  | inr ((a', b'), e) ↦ ground (arith, split_once_sound sep s a' b' e)
]

pub split_once-none : (sep : ℕ) (s : Text) → split_once sep s ≡ none → Free sep s
unfolding split_once
split_once-none sep [] h = refl
split_once-none sep (c ∷ s) h = ground (arith, split_once-none sep s)

pub split_once_shorter :
    (sep : ℕ) (s a b : Text) → split_once sep s ≡ some (a, b) → length b < length s
split_once_shorter sep s a b h =
    omega (arith, ap length (split_once_sound sep s a b h).0, length-append a (sep ∷ b))

pub split_once-append :
    (sep : ℕ) (p s : Text) → Free sep p → split_once sep (p ++ (sep ∷ s)) ≡ some (p, s)
unfolding split_once
split_once-append sep [] s h = ground arith
split_once-append sep (c ∷ p) s h = ground (arith, split_once-append sep p s)

pub join-more :
    (sep : ℕ) (p q : Text) (ps : List Text) → join sep (p ∷ q ∷ ps) ≡ p ++ (sep ∷ join sep (q ∷ ps))
unfolding join
join-more sep p q ps = refl

pub join_one : (sep : ℕ) (p : Text) → join sep (p ∷ []) ≡ p
unfolding join
join_one sep p = refl
