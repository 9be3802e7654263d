-- ===== src/Testing/Newest.antt =====
-- A double of src/testing.rs tells what the newest call about a record was.
use cheti.Prelude.{
  ◌≡◌, ◌∙◌, refl, ap, inl, inr, Bool, true, false, not, ◌||◌, Bool-cases, &&-eq_true, List, [], ◌∷◌,
  any, keep, any-append, arith, if◌then◌else◌,
}
use cheti.Text.{Text, text_eq}
use cheti.Text.Suffix.{text_eq_sound}
use cheti.Testing.Provider.{Records, is_record, new, present, cleanup, has_record}

-- A call of the provider, and the records after some calls, the newest first.
pub data Call : Type 0 where
  presented cleaned : Text → Text → Call

abbrev pub after : Call → Records → Records
after (presented fqdn value) records = (present false fqdn value records).1
after (cleaned fqdn value) records = (cleanup fqdn value records).1

abbrev pub records_after : List Call → Records
records_after [] = new
records_after (c ∷ calls) = after c (records_after calls)

-- Whether the newest call about a record presented it.
abbrev pub newest_presented : Text → Text → List Call → Bool
newest_presented fqdn value [] = false
newest_presented fqdn value (presented f v ∷ calls) =
    let earlier = newest_presented fqdn value calls in
    if is_record fqdn value (f, v) then true else earlier
newest_presented fqdn value (cleaned f v ∷ calls) =
    let earlier = newest_presented fqdn value calls in
    if is_record fqdn value (f, v) then false else earlier

any-keep_same :
    (f v : Text) (records : Records)
    → any (is_record f v) (keep (λ r. not (is_record f v r)) records) ≡ false
any-keep_same f v [] = refl
any-keep_same f v (r ∷ records) = ground (arith, any-keep_same f v records)

-- A record is another than the one that is taken out.
any-keep_other :
    (f v g w : Text) (records : Records)
    → is_record g w (f, v) ≡ false
    → any (is_record g w) (keep (λ r. not (is_record f v r)) records) ≡ any (is_record g w) records
any-keep_other f v g w [] h = refl
any-keep_other f v g w (r ∷ records) h = elim (Bool-cases (is_record f v r)) [
  | inl e ↦
      let same : is_record g w r ≡ false = other_record r.0 r.1 e in
      rw (e, same) (any-keep_other f v g w records h)
  | inr e ↦ rw e (ap (λ b. is_record g w r || b) (any-keep_other f v g w records h))
]
  where
    other_record : (a b : Text) → is_record f v (a, b) ≡ true → is_record g w (a, b) ≡ false
    other_record a b e =
        let both = &&-eq_true (text_eq a f) (text_eq b v) e in
        rw (text_eq_sound a f both.0, text_eq_sound b v both.1) h

has_record-present :
    (fqdn value f v : Text) (records : Records)
    → has_record fqdn value (present false f v records).1
      ≡ (if is_record fqdn value (f, v) then true else has_record fqdn value records)
unfolding has_record present
has_record-present fqdn value f v records =
    any-append (is_record fqdn value) records ((f, v) ∷ []) ∙ ground arith

has_record-cleanup :
    (fqdn value f v : Text) (records : Records)
    → has_record fqdn value (cleanup f v records).1
      ≡ (if is_record fqdn value (f, v) then false else has_record fqdn value records)
unfolding has_record cleanup
has_record-cleanup fqdn value f v records = elim (Bool-cases (is_record fqdn value (f, v))) [
  | inl e ↦
      let both = &&-eq_true (text_eq f fqdn) (text_eq v value) e in
      simp e (
        rw (text_eq_sound f fqdn both.0, text_eq_sound v value both.1)
          (any-keep_same fqdn value records))
  | inr e ↦ simp e (any-keep_other f v fqdn value records e)
]

-- After any calls of `present` and `cleanup`, the double has a record exactly if the newest call
-- about that record, if there is one, was a `present`.
pub has_record-newest :
    (fqdn value : Text) (calls : List Call)
    → has_record fqdn value (records_after calls) ≡ newest_presented fqdn value calls
has_record-newest fqdn value [] = unfold has_record in refl
has_record-newest fqdn value (presented f v ∷ calls) =
    has_record-present fqdn value f v (records_after calls)
    ∙ rw (has_record-newest fqdn value calls) refl
has_record-newest fqdn value (cleaned f v ∷ calls) =
    has_record-cleanup fqdn value f v (records_after calls)
    ∙ rw (has_record-newest fqdn value calls) refl
