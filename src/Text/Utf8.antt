-- ===== src/Text/Utf8.antt =====
-- Lengths and cuts in bytes of UTF-8, over lists of code points.
use mathlib.Core.Option
use cheti.Prelude.{
  ◌/◌, ◌%◌, length, length-append, ℕ, zero, suc, ◌+◌, ◌-◌, ◌≤◌, ◌≡◌, refl, ap, inl, inr, Bool, true,
  false, Option, none, some, List, [], ◌∷◌, ◌++◌, arith, ltb, if◌then◌else◌, Bool-cases,
  le→ltb_false, ltb-eq_false,
}

-- `char::len_utf8`.
unfoldable pub len_utf8 : ℕ → ℕ
len_utf8 c = if ltb c 128 then 1 else if ltb c 2048 then 2 else if ltb c 65536 then 3 else 4

-- `str::len`.
unfoldable pub byte_length : List ℕ → ℕ
byte_length [] = 0
byte_length (c ∷ s) = len_utf8 c + byte_length s

-- `str::is_char_boundary`.
unfoldable pub is_char_boundary : List ℕ → ℕ → Bool
is_char_boundary s zero = true
is_char_boundary [] (suc k) = false
is_char_boundary (c ∷ s) (suc k) =
    let rest = is_char_boundary s (suc k - len_utf8 c) in
    if ltb (suc k) (len_utf8 c) then false else rest

-- `&s[..k]`; `none` is the panic of a cut inside a character or past the end.
unfoldable pub slice_to : List ℕ → ℕ → Option (List ℕ)
slice_to s zero = some []
slice_to [] (suc k) = none
slice_to (c ∷ s) (suc k) =
    let rest = Option.map (λ (r : List ℕ). c ∷ r) (slice_to s (suc k - len_utf8 c)) in
    if ltb (suc k) (len_utf8 c) then none else rest

pub len_utf8_bounds : (c : ℕ) → (1 ≤ len_utf8 c) × (len_utf8 c ≤ 4)
unfolding len_utf8
len_utf8_bounds c = ground arith

pub byte_length-append : (s t : List ℕ) → byte_length (s ++ t) ≡ byte_length s + byte_length t
unfolding byte_length
byte_length-append [] t = omega arith
byte_length-append (c ∷ s) t = omega (arith, byte_length-append s t)

is_char_boundary-add :
    (c : ℕ) (s : List ℕ) (k : ℕ) → is_char_boundary (c ∷ s) (len_utf8 c + k) ≡ is_char_boundary s k
unfolding is_char_boundary
is_char_boundary-add c s k =
    let e : len_utf8 c + k ≡ suc (len_utf8 c + k - 1) = omega (arith, len_utf8_bounds c) in
    rw e (
      rw (le→ltb_false (suc (len_utf8 c + k - 1)) (len_utf8 c) (omega (arith, len_utf8_bounds c)))
        (ap (is_char_boundary s) (omega (arith, len_utf8_bounds c))))

slice_to-add :
    (c : ℕ) (s : List ℕ) (k : ℕ)
    → slice_to (c ∷ s) (len_utf8 c + k) ≡ Option.map (λ (r : List ℕ). c ∷ r) (slice_to s k)
unfolding slice_to
slice_to-add c s k =
    let e : len_utf8 c + k ≡ suc (len_utf8 c + k - 1) = omega (arith, len_utf8_bounds c) in
    rw e (
      rw (le→ltb_false (suc (len_utf8 c + k - 1)) (len_utf8 c) (omega (arith, len_utf8_bounds c))) (
        ap (λ (n : ℕ). Option.map (λ (r : List ℕ). c ∷ r) (slice_to s n))
          (omega (arith, len_utf8_bounds c))))

-- The end of a prefix is a boundary, and the cut there is the prefix.
pub is_char_boundary-byte_length : (s t : List ℕ) → is_char_boundary (s ++ t) (byte_length s) ≡ true
unfolding byte_length
is_char_boundary-byte_length [] t = unfold is_char_boundary in refl
is_char_boundary-byte_length (c ∷ s) t =
    rw (is_char_boundary-add c (s ++ t) (byte_length s)) (is_char_boundary-byte_length s t)

pub slice_to-byte_length : (s t : List ℕ) → slice_to (s ++ t) (byte_length s) ≡ some s
unfolding byte_length
slice_to-byte_length [] t = unfold slice_to in refl
slice_to-byte_length (c ∷ s) t =
    rw (slice_to-add c (s ++ t) (byte_length s), slice_to-byte_length s t)

-- Every boundary is the end of a prefix.
pub boundary_prefix :
    (s : List ℕ) (k : ℕ)
    → is_char_boundary s k ≡ true
    → (p : List ℕ) × (t : List ℕ) × (s ≡ p ++ t) × (byte_length p ≡ k)
unfolding is_char_boundary byte_length
boundary_prefix s zero h = ([], s, refl, refl)
boundary_prefix [] (suc k) h = cc
boundary_prefix (c ∷ s) (suc k) h = elim (Bool-cases (ltb (suc k) (len_utf8 c))) [
  | inl e ↦ ground arith
  | inr e ↦
      cons_prefix c s k (ltb-eq_false (suc k) (len_utf8 c) e)
        (boundary_prefix s (suc k - len_utf8 c) (ground arith))
]
  where
    cons_prefix :
        (c : ℕ) (s : List ℕ) (k : ℕ)
        → len_utf8 c ≤ suc k
        → (p : List ℕ) × (t : List ℕ) × (s ≡ p ++ t) × (byte_length p ≡ suc k - len_utf8 c)
        → (p : List ℕ) × (t : List ℕ) × (c ∷ s ≡ p ++ t) × (byte_length p ≡ suc k)
    cons_prefix c s k le (p, t, e, l) = (c ∷ p, t, ap (◌∷◌ c) e, omega arith)

-- The bytes of a text.
encode_char : ℕ → List ℕ
encode_char c =
    if ltb c 128
    then c ∷ []
    else if ltb c 2048
    then (192 + c / 64) ∷ (128 + c % 64) ∷ []
    else if ltb c 65536
    then (224 + c / 4096) ∷ (128 + (c / 64) % 64) ∷ (128 + c % 64) ∷ []
    else (240 + c / 262144) ∷ (128 + (c / 4096) % 64) ∷ (128 + (c / 64) % 64) ∷ (128 + c % 64) ∷ []

unfoldable pub encode : List ℕ → List ℕ
unfolding encode_char
encode [] = []
encode (c ∷ s) = encode_char c ++ encode s

length-encode_char : (c : ℕ) → length (encode_char c) ≡ len_utf8 c
unfolding encode_char len_utf8
length-encode_char c = ground arith

-- `len` counts the bytes.
pub length-encode : (s : List ℕ) → length (encode s) ≡ byte_length s
unfolding byte_length encode
length-encode [] = refl
length-encode (c ∷ s) =
    omega (arith, length-append (encode_char c) (encode s), length-encode_char c, length-encode s)
