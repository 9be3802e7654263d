-- ===== src/Text.antt =====
-- The `str` methods of the standard library that the program calls, over lists of characters. A
-- character is its code point; `len` counts the bytes of UTF-8, as Rust's does.
pub mod Utf8
pub mod Pieces
pub mod Suffix
pub mod Trim
pub mod Case
use Prim.Native.Char.{code}
use Prim.Native.String.{String}
use mathlib.Core.Option
use cheti.Prelude.{
  ℕ, zero, suc, ◌+◌, ◌-◌, ◌*◌, ◌/◌, ◌%◌, Bool, true, false, not, ◌&&◌, ◌||◌, Option, none, some,
  List, [], ◌∷◌, ◌++◌, map, ltb, leb, ◌==◌, if◌then◌else◌, any,
}

abbrev pub Text : Type 0
Text = List ℕ

codes : String → Text
codes String.[] = []
codes (String.◌∷◌ c s) = code c ∷ codes s

-- A literal of the program. It is shut, so that a message is one unknown to a proof.
unfoldable pub text : String → Text
unfolding codes
text s = codes s

-- `==` on `str`.
abbrev pub text_eq : Text → Text → Bool
text_eq [] [] = true
text_eq (c ∷ s) (d ∷ t) = c == d && text_eq s t
text_eq [] (d ∷ t) = false
text_eq (c ∷ s) [] = false

abbrev pub is_empty {ℓ} : {A : Type ℓ} → List A → Bool
is_empty [] = true
is_empty (x ∷ xs) = false

-- `str::contains` of a character.
abbrev pub contains : ℕ → Text → Bool
contains c = any (λ d. d == c)

-- `trim_start_matches`, `trim_end_matches` and `trim_matches`, of the characters that pass a test.
unfoldable pub trim_start_by : (ℕ → Bool) → Text → Text
trim_start_by p [] = []
trim_start_by p (c ∷ s) = let rest = trim_start_by p s in if p c then rest else c ∷ s

unfoldable pub trim_end_by : (ℕ → Bool) → Text → Text
trim_end_by p [] = []
trim_end_by p (c ∷ s) = let rest = trim_end_by p s in if is_empty rest && p c then [] else c ∷ rest

-- `char::is_whitespace`: the code points with the property White_Space.
unfoldable pub is_whitespace : ℕ → Bool
is_whitespace c =
    (leb 9 c && leb c 13)
    || c == 32
    || c == 133
    || c == 160
    || c == 5760
    || (leb 8192 c && leb c 8202)
    || c == 8232
    || c == 8233
    || c == 8239
    || c == 8287
    || c == 12288

abbrev pub trim_end_matches : ℕ → Text → Text
trim_end_matches c = trim_end_by (λ d. d == c)

abbrev pub trim_matches : ℕ → Text → Text
trim_matches c s = trim_end_by (λ d. d == c) (trim_start_by (λ d. d == c) s)

abbrev pub trim : Text → Text
trim s = trim_end_by is_whitespace (trim_start_by is_whitespace s)

-- `strip_prefix` and `strip_suffix`.
unfoldable pub strip_prefix : Text → Text → Option Text
strip_prefix [] s = some s
strip_prefix (c ∷ p) [] = none
strip_prefix (c ∷ p) (d ∷ s) = let rest = strip_prefix p s in if c == d then rest else none

unfoldable pub strip_suffix : Text → Text → Option Text
strip_suffix p [] = if is_empty p then some [] else none
strip_suffix p (c ∷ s) =
    let rest = Option.map (λ (r : Text). c ∷ r) (strip_suffix p s) in
    if text_eq (c ∷ s) p then some [] else rest

-- `split` at a character: there is always a first piece.
abbrev pub push_piece : Bool → ℕ → List Text → List Text
push_piece true c ps = [] ∷ ps
push_piece false c [] = (c ∷ []) ∷ []
push_piece false c (p ∷ ps) = (c ∷ p) ∷ ps

unfoldable pub split : ℕ → Text → List Text
split sep [] = [] ∷ []
split sep (c ∷ s) = push_piece (c == sep) c (split sep s)

-- `join`.
unfoldable pub join : ℕ → List Text → Text
join sep [] = []
join sep (p ∷ []) = p
join sep (p ∷ q ∷ ps) = p ++ (sep ∷ join sep (q ∷ ps))

-- `split_once` at a character.
unfoldable pub split_once : ℕ → Text → Option (Text × Text)
split_once sep [] = none
split_once sep (c ∷ s) =
    let rest = Option.map (λ (r : Text × Text). (c ∷ r.0, r.1)) (split_once sep s) in
    if c == sep then some ([], s) else rest

abbrev pub is_upper : ℕ → Bool
is_upper c = leb b'A' c && leb c b'Z'

abbrev pub is_ascii_alphanumeric : ℕ → Bool
is_ascii_alphanumeric c = is_upper c || (leb b'a' c && leb c b'z') || (leb b'0' c && leb c b'9')

unfoldable pub lower : ℕ → ℕ
lower c = if is_upper c then c + 32 else c

unfoldable pub to_ascii_lowercase : Text → Text
unfolding lower
to_ascii_lowercase = map lower

abbrev pub eq_ignore_ascii_case : Text → Text → Bool
eq_ignore_ascii_case s t = text_eq (to_ascii_lowercase s) (to_ascii_lowercase t)

-- A number as `{}` prints it. There are at most `suc n` digits.
digits_onto : ℕ → ℕ → Text → Text
digits_onto zero n out = out
digits_onto (suc fuel) n out =
    let more = digits_onto fuel (n / 10) ((48 + n % 10) ∷ out) in
    if ltb n 10 then (48 + n) ∷ out else more

unfoldable pub decimal : ℕ → Text
unfolding digits_onto
decimal n = digits_onto (suc n) n []
