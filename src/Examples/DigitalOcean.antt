-- ===== src/Examples/DigitalOcean.antt =====
-- A server for the provider of src/providers/digitalocean.rs, and calls of it.
use cheti.Prelude.{
  ℕ, zero, suc, ◌-◌, ◌*◌, ◌≤◌, ◌<◌, ◌≡◌, ◌∙◌, refl, sym, ap, ap₂, All, inl, inr, Bool, true, ◌&&◌,
  Bool-cases, if◌then◌else◌, none, some, List, [], ◌∷◌, ◌++◌, ltb, ◌==◌, length, take, drop, arith,
  &&-eq_true,
}
use cheti.Text.{Text, text, text_eq, decimal, trim_end_matches, trim_end_by}
use cheti.Text.Suffix.{text_eq_refl}
use cheti.Error.{Result, ok}
use cheti.Dns.Client.{answered}
use cheti.Common.Names.{PercentEncode}
use cheti.Common.Validate.{validate_acme_value}
use cheti.Common.Retry.{get, Request, Response, Transport}
use cheti.Providers.Http.{Reader}
use cheti.Text.Utf8.{byte_length, len_utf8}
use cheti.Providers.Records.Removes.{Removed}
use cheti.Providers.Records.{Server}
use cheti.Examples.RecordStore
use cheti.Examples.RecordStore.{Store, view, reply, sent_get, Apart, apart, store-Distinct}
use cheti.Providers.DigitalOcean.{
  DoRecord, DoRecordList, CreateRecordBody, page_query, has_next, records_url,
  list_matching_records, add_value, remove_value,
}
use cheti.Providers.DigitalOcean.Config.{DigitalOceanConfig, new, per_page, max_pages}
use cheti.Providers.DigitalOcean.Listed.{Lists, Listed, list_matching_records-Listed}
use cheti.Providers.DigitalOcean.Changes.{
  item, carries, key_of, shows, Presented, add_value-Shown, remove_value_clears,
}

-- A name in a body is relative to the zone `b`.
abbrev full_name : Text → Text → Text
full_name url rname = rname ++ (b'.' ∷ b'b' ∷ [])

-- The number of a page, from its text.
abbrev page_from : ℕ → Text → ℕ
page_from zero t = 0
page_from (suc n) t = let rest = page_from n t in if text_eq (decimal n) t then n else rest

abbrev below : ℕ → (ℕ → Bool) → Bool
below zero test = true
below (suc n) test = test n && below n test

below_all : (n : ℕ) (test : ℕ → Bool) → below n test ≡ true → (p : ℕ) → p < n → test p ≡ true
below_all zero test h p b = absurd (omega arith)
below_all (suc n) test h p b =
    let (here, rest) = &&-eq_true (test n) (below n test) h in
    elim (Bool-cases (p == n)) [
      | inl e ↦ ground arith
      | inr e ↦ below_all n test rest p (ground arith)
    ]

pages_read : below 51 (λ p. page_from 51 (decimal p) == p) ≡ true
unfolding decimal
pages_read = refl

-- The record of page `page`, and whether another page follows.
abbrev page_body : List DoRecord → ℕ → DoRecordList
page_body all page = record {
  domain_records = take per_page (drop ((page - 1) * per_page) all);
  links =
      if ltb (page * per_page) (length all)
      then some (record { pages = some (record { next = some [] }) })
      else none;
}

abbrev empty_body : DoRecordList
empty_body = record { domain_records = []; links = none }

abbrev second : List (Text × Text) → Text
second [] = []
second (a ∷ []) = []
second (a ∷ b ∷ rest) = b.1

abbrev fourth : List (Text × Text) → Text
fourth [] = []
fourth (a ∷ []) = []
fourth (a ∷ b ∷ rest) = second rest

-- A record as it is made of a body.
abbrev make : ℕ → CreateRecordBody → DoRecord
make id b = record { id = id; data_ = b.data_ }

abbrev serve : Request CreateRecordBody → Store DoRecord → Response DoRecordList
serve r s = reply 200 (page_body (view s (r.url, second r.query)) (page_from 51 (fourth r.query)))

abbrev api : Transport (Store DoRecord) CreateRecordBody DoRecordList
api = RecordStore.api item (key_of full_name) make empty_body serve

abbrev reader : Reader DoRecordList DoRecordList
reader = record { body_text = λ b. answered []; json = λ b. answered b; status_text = λ n. [] }

server : Server view item api (key_of full_name) carries
server =
    RecordStore.server item (key_of full_name) make empty_body serve carries
      (λ b n. text_eq_refl b.data_)

page_found : (page : ℕ) → page ≤ max_pages → page_from 51 (decimal page) ≡ page
page_found page h =
    let test = below_all 51 (λ p. page_from 51 (decimal p) == p) pages_read page (omega arith) in
    ground (arith, test)

page_body-has_next :
    (all : List DoRecord) (page : ℕ)
    → has_next (page_body all page) ≡ ltb (page * per_page) (length all)
page_body-has_next all page = elim (Bool-cases (ltb (page * per_page) (length all))) [
  | inl e ↦ rw e refl
  | inr e ↦ rw e refl
]

answered_page :
    (r : Request CreateRecordBody) (s : Store DoRecord) (name : Text) (page : ℕ)
    (a : Response DoRecordList) (b : DoRecordList)
    → r.method ≡ get
    → r.query ≡ page_query name page
    → page ≤ max_pages
    → (api.send r s).0 ≡ ok a
    → reader.json a.body ≡ answered b
    → b ≡ page_body (view s (r.url, name)) page
answered_page r s name page a b m q most h j =
    let sent : ok
          (reply 200 (page_body (view s (r.url, second r.query)) (page_from 51 (fourth r.query))))
        ≡ ok a =
      ap (λ (d : Result (Response DoRecordList) × Store DoRecord). d.0)
        (sym (sent_get item (key_of full_name) make empty_body serve r s m))
      ∙ h in
    let same : reply 200
          (page_body (view s (r.url, second r.query)) (page_from 51 (fourth r.query)))
        ≡ a =
      cc in
    let body : a.body ≡ b = cc in
    sym body
    ∙ ap (λ (x : Response DoRecordList). x.body) (sym same)
    ∙ ap₂ (λ (n : Text) (p : ℕ). page_body (view s (r.url, n)) p) (ap second q)
        (ap (λ (l : List (Text × Text)). page_from 51 (fourth l)) q ∙ page_found page most)

lists : Lists view api reader
lists = record {
  list_same = λ r s m k. rw (sent_get item (key_of full_name) make empty_body serve r s m) refl;
  list_page = λ r s name page a b m q one most h y j.
      let is_page = answered_page r s name page a b m q most h j in
      (
        ap (λ (x : DoRecordList). x.domain_records) is_page,
        ap has_next is_page ∙ page_body-has_next (view s (r.url, name)) page,
      );
}

abbrev encode : PercentEncode
encode must s = s

abbrev config : DigitalOceanConfig
config = new []

abbrev name : Text
name = b'a' ∷ b'.' ∷ b'b' ∷ []

abbrev url : Text
url = records_url config encode (b'b' ∷ [])

abbrev value : Text
value = b'v' ∷ []

-- Two records of the name, one of which shows the value, and one of another name.
abbrev store : Store DoRecord
store =
    ((url, name), record { id = 1; data_ = value })
    ∷ ((url, name), record { id = 2; data_ = b'w' ∷ [] })
    ∷ ((url, b'c' ∷ []), record { id = 3; data_ = value })
    ∷ []

accepted : validate_acme_value (b'x' ∷ []) ≡ ok tt
unfolding validate_acme_value byte_length len_utf8
accepted = refl

named : full_name url (b'a' ∷ []) ≡ trim_end_matches b'.' name
unfolding trim_end_by
named = refl

entries-Apart : All (λ e. All (λ f. Apart item e.0 e.1 f.0 f.1) store) store
unfolding text records_url decimal new
entries-Apart = (
  ((λ h. (refl, refl)), (apart item _ _ _ _ refl, (apart item _ _ _ _ refl, tt))),
  (
    (apart item _ _ _ _ refl, ((λ h. (refl, refl)), (apart item _ _ _ _ refl, tt))),
    ((apart item _ _ _ _ refl, (apart item _ _ _ _ refl, ((λ h. (refl, refl)), tt))), tt),
  ),
)

list_matching_records-Listed_example :
    let done = list_matching_records config encode api reader (b'b' ∷ []) name store in
    Listed view api reader server.steady lists config encode (b'b' ∷ []) name store done.0 done.1
list_matching_records-Listed_example =
    list_matching_records-Listed view api reader server.steady lists config encode (b'b' ∷ []) name
      store

add_value-Shown_example :
    let done = add_value config encode api reader (b'b' ∷ []) (b'a' ∷ []) name (b'x' ∷ []) store in
    Presented view api reader full_name server lists config encode
      (b'b' ∷ [])
      name
      (b'a' ∷ [])
      (b'x' ∷ [])
      store
      done.0
      done.1
add_value-Shown_example =
    add_value-Shown view api reader full_name server lists config encode (b'b' ∷ []) name
      (b'a' ∷ []) (b'x' ∷ []) store accepted named

remove_value_clears_example :
    let done = remove_value config encode api reader (b'b' ∷ []) name value store in
    Removed view (shows value) (url, name) store done.0 done.1
unfolding trim_end_by
remove_value_clears_example =
    remove_value_clears view api reader full_name server lists config encode (b'b' ∷ []) name value
      store (store-Distinct item store entries-Apart)
