-- ===== src/Dns/Zone/Nearest.antt =====
-- The zone that the walk finds, against a description by labels.
use cheti.Prelude.{
  any, ℕ, zero, suc, ◌≤◌, ◌≡◌, refl, ap, inl, inr, Bool, true, false, Option, none, some, List, [],
  ◌∷◌, ◌++◌, arith, length, ◌==◌, if◌then◌else◌, All, Bool-cases, any-append, length-append, not,
  ◌||◌,
}
use cheti.Text.{Text, is_empty, contains, join, trim_end_matches}
use cheti.Text.Pieces.{split_once-append, join-more, join_one}
use cheti.Error.{Result, ok, err, zone_not_found}
use cheti.Common.Validate.Hostname.{IsLabel, IsHostname, allowed_without, byte_length-empty}
use cheti.Dns.Client.{Client, soa_type}
use cheti.Dns.Zone.{starts_with_dot, has_answer, parent, walk, find_zone, shared_resolver}

-- The longest name with two labels or more, from these labels on, that passes the test.
pub nearest : (Text → Bool) → List Text → Option Text
nearest has_soa [] = none
nearest has_soa (l ∷ []) = none
nearest has_soa (l ∷ k ∷ ls) =
    let rest = nearest has_soa (k ∷ ls) in
    if has_soa (join b'.' (l ∷ k ∷ ls)) then some (join b'.' (l ∷ k ∷ ls)) else rest

abbrev pub or_not_found : Text → Option Text → Result Text
or_not_found fqdn none = err (zone_not_found fqdn)
or_not_found fqdn (some z) = ok z

first_character :
    (k : Text) (ls : List Text)
    → IsLabel k
    → (is_empty (join b'.' (k ∷ ls)) || starts_with_dot (join b'.' (k ∷ ls))) ≡ false
unfolding join
first_character [] ls h = cc (byte_length-empty [] h.lower_bound)
first_character (c ∷ k) [] h = ground (arith, h.characters)
first_character (c ∷ k) (l ∷ ls) h = ground (arith, h.characters)

parent-join :
    (l k : Text) (ls : List Text)
    → IsLabel l
    → IsLabel k
    → parent (join b'.' (l ∷ k ∷ ls)) ≡ some (join b'.' (k ∷ ls))
unfolding parent
parent-join l k ls hl hk =
    rw
      (
        join-more b'.' l k ls,
        split_once-append b'.' l (join b'.' (k ∷ ls)) (allowed_without b'.' l refl hl.characters),
      )
      (rw (first_character k ls hk))

several_labels :
    (l k : Text) (ls : List Text)
    → (is_empty (join b'.' (l ∷ k ∷ ls)) || not (contains b'.' (join b'.' (l ∷ k ∷ ls)))) ≡ false
several_labels l k ls =
    rw (join-more b'.' l k ls, any-append (λ d. d == b'.') l (b'.' ∷ join b'.' (k ∷ ls)))
      (nonempty l)
  where
    nonempty :
        (l : Text)
        → (is_empty (l ++ (b'.' ∷ join b'.' (k ∷ ls))) || not (any (λ d. d == b'.') l || true))
          ≡ false
    nonempty [] = refl
    nonempty (c ∷ l) = ground arith

one_label : (l : Text) → IsLabel l → (is_empty l || not (contains b'.' l)) ≡ true
one_label l h = rw (allowed_without b'.' l refl h.characters) (ground arith)

module _ {E R Ip : Type 0} (c : Client E R Ip) (has_soa : Text → Bool)
    (agrees : (r : R) (name : Text) (e : E)
      → has_answer (c.lookup r name soa_type e).0 ≡ has_soa name) where
  walk-nearest :
      (r : R) (fqdn : Text) (fuel : ℕ) (l : Text) (ls : List Text) (e : E)
      → All IsLabel (l ∷ ls)
      → length (join b'.' (l ∷ ls)) ≤ fuel
      → (walk c r fqdn fuel (join b'.' (l ∷ ls)) e).0 ≡ or_not_found fqdn (nearest has_soa (l ∷ ls))
  unfolding walk nearest
  walk-nearest r fqdn zero l [] e h f = refl
  walk-nearest r fqdn (suc fuel) l [] e h f = rw (join_one b'.' l, one_label l h.0)
  walk-nearest r fqdn zero l (k ∷ ls) e h f = absurd (
      omega (arith, ap length (join-more b'.' l k ls), length-append l (b'.' ∷ join b'.' (k ∷ ls))))
  walk-nearest r fqdn (suc fuel) l (k ∷ ls) e h f =
      let later =
        walk-nearest r fqdn fuel k ls (c.lookup r (join b'.' (l ∷ k ∷ ls)) soa_type e).1 h.1 (
          omega (
            arith,
            ap length (join-more b'.' l k ls),
            length-append l (b'.' ∷ join b'.' (k ∷ ls)),
          )) in
      elim (Bool-cases (has_soa (join b'.' (l ∷ k ∷ ls)))) [
        | inl y ↦ rw (several_labels l k ls, agrees r (join b'.' (l ∷ k ∷ ls)) e, y)
        | inr n ↦
            rw
              (
                several_labels l k ls,
                agrees r (join b'.' (l ∷ k ∷ ls)) e,
                n,
                parent-join l k ls h.0 h.1.0,
              )
              later
      ]

  -- Where each name keeps one answer to the question whether an SOA lookup finds a record (`agrees`)
  -- and the resolver can be built: `find_zone` finds, for a valid hostname, the longest ancestor of
  -- two labels or more (the name itself included) that has an SOA record, and fails with
  -- `ZoneNotFound` exactly if there is none.
  pub find_zone-nearest :
      (r : R) (fqdn : Text) (e e' : E) (name : IsHostname (trim_end_matches b'.' fqdn))
      → shared_resolver c e ≡ (ok r, e')
      → (find_zone c fqdn e).0 ≡ or_not_found fqdn (nearest has_soa (name.first ∷ name.others))
  unfolding find_zone
  find_zone-nearest r fqdn e e' name h =
      rw (h, name.spelled)
        (walk-nearest r fqdn (length (join b'.' (name.first ∷ name.others))) name.first name.others
          e' name.labels (omega arith))
