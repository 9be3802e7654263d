-- ===== src/Providers/PowerDns/Served.antt =====
-- The values that the records of an RRSet in src/providers/powerdns.rs have, and those that are
-- served: a disabled record is not.
use cheti.Prelude.{
  not, all, true, ◌&&◌, &&-eq_true, arith, ℕ, ◌≡◌, refl, ap, inl, inr, Bool, ◌||◌, Bool-cases,
  Option, none, some, List, [], ◌∷◌, ◌++◌, any, map,
}
use cheti.Text.{Text}
use cheti.Text.Trim.{quoted}
use cheti.Providers.Sets.Shown.{shows, left as left_of}
use cheti.Providers.Gandi.{unquote}
use cheti.Providers.PowerDns.{PdnsRecord, shows_value, record_of}
use cheti.Providers.PowerDns.Server.{Rrset}
use cheti.Providers.PowerDns.Changes.{records_at, with_value, left}

abbrev pub contents : List PdnsRecord → List Text
contents records = map (λ r. r.content) records

pub contents-append :
    (rs : List PdnsRecord) (v : Text)
    → contents (rs ++ (record_of v ∷ [])) ≡ contents rs ++ (quoted v ∷ [])
contents-append [] v = refl
contents-append (r ∷ rs) v = ap (λ (l : List Text). r.content ∷ l) (contents-append rs v)

pub contents-with_value :
    (ttl : ℕ) (v : Text) (o : Option Rrset)
    → contents (records_at (with_value ttl v o)) ≡ contents (records_at o) ++ (quoted v ∷ [])
contents-with_value ttl v none = refl
contents-with_value ttl v (some (t, rs)) = contents-append rs v

pub contents-left :
    (v : Text) (rs : List PdnsRecord) → contents (left v rs) ≡ left_of unquote v (contents rs)
contents-left v [] = refl
contents-left v (r ∷ rs) = elim (Bool-cases (shows_value v r)) [
  | inl e ↦ rw e (contents-left v rs)
  | inr e ↦ rw e (ap (λ (l : List Text). r.content ∷ l) (contents-left v rs))
]

pub any-contents :
    (v : Text) (rs : List PdnsRecord) → any (shows_value v) rs ≡ any (shows unquote v) (contents rs)
any-contents v [] = refl
any-contents v (r ∷ rs) = ap (λ (b : Bool). shows_value v r || b) (any-contents v rs)

-- The records that are served show the value.
abbrev pub serves : Text → PdnsRecord → Bool
serves value r = not r.disabled && shows_value value r

abbrev pub enabled : PdnsRecord → Bool
enabled r = not r.disabled

pub any-serves :
    (v : Text) (rs : List PdnsRecord)
    → all enabled rs ≡ true
    → any (serves v) rs ≡ any (shows unquote v) (contents rs)
any-serves v [] h = refl
any-serves v (r ∷ rs) h =
    let (first, rest) = &&-eq_true (enabled r) (all enabled rs) h in
    rw first (ap (λ (b : Bool). shows_value v r || b) (any-serves v rs rest))

pub enabled-append :
    (v : Text) (rs : List PdnsRecord)
    → all enabled rs ≡ true
    → all enabled (rs ++ (record_of v ∷ [])) ≡ true
enabled-append v [] h = refl
enabled-append v (r ∷ rs) h = ground (arith, enabled-append v rs)

pub enabled-with_value :
    (ttl : ℕ) (v : Text) (o : Option Rrset)
    → all enabled (records_at o) ≡ true
    → all enabled (records_at (with_value ttl v o)) ≡ true
enabled-with_value ttl v none h = refl
enabled-with_value ttl v (some (t, rs)) h = enabled-append v rs h

pub enabled-left :
    (v : Text) (rs : List PdnsRecord) → all enabled rs ≡ true → all enabled (left v rs) ≡ true
enabled-left v [] h = refl
enabled-left v (r ∷ rs) h = ground (arith, enabled-left v rs)
