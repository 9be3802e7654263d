-- ===== src/Providers/DigitalOcean/Listed.antt =====
-- `list_matching_records` of src/providers/digitalocean.rs: the pages make up the whole list.
use cheti.Prelude.{
  ℕ, zero, suc, subst, ◌-◌, ◌*◌, ◌≤◌, ◌≡◌, ◌∙◌, refl, sym, ap, inl, inr, true, Bool-cases, List,
  ◌++◌, ltb, ◌==◌, length, take, drop, take-append_drop, take_all, ltb-eq_false, arith,
}
use cheti.Text.{Text, trim_end_matches}
use cheti.Error.{Result, ok, err}
use cheti.Exec.{Exec, Post, >>=_rule, lift, ◌>>=◌}
use cheti.Dns.Client.{Reply, answered, failed}
use cheti.Common.Names.{PercentEncode}
use cheti.Common.Retry.{Request, Response, Transport, get, send_retrying}
use cheti.Common.Retry.Rule.{send_retrying_rule}
use cheti.Providers.Http.{Reader, is_success, http_error}
use cheti.Providers.Writes.{Same, Steady}
use cheti.Providers.Records.{Key}
use cheti.Providers.DigitalOcean.{
  DoRecord, DoRecordList, CreateRecordBody, has_next, page_query, records_url, list_request, listed,
  after_page, list_loop, list_matching_records, too_many,
}
use cheti.Providers.DigitalOcean.Config.{DigitalOceanConfig, per_page, max_pages}

module _ {S B : Type 0} (view : S → Key → List DoRecord) (api : Transport S CreateRecordBody B)
    (reader : Reader B DoRecordList) where
  -- What the provider relies on: a GET changes nothing, and a success carries one page of the
  -- records of the name and tells whether there are more.
  pub record Lists : Type 0 where
    pub list_same :
        (r : Request CreateRecordBody) (s : S) → r.method ≡ get → Same view s (api.send r s).1
    pub list_page :
        (r : Request CreateRecordBody) (s : S) (name : Text) (page : ℕ) (a : _) (b : DoRecordList)
        → r.method ≡ get
        → r.query ≡ page_query name page
        → 1 ≤ page
        → page ≤ max_pages
        → (api.send r s).0 ≡ ok a
        → is_success a.status ≡ true
        → reader.json a.body ≡ answered b
        → let all : List DoRecord = view s (r.url, name) in
          (b.domain_records ≡ take per_page (drop ((page - 1) * per_page) all))
          × (has_next b ≡ ltb (page * per_page) (length all))

  module _ (steady : Steady view api) (lists : Lists) (config : DigitalOceanConfig)
      (encode : PercentEncode) (zone fqdn : Text) where
    abbrev pub key : Key
    key = (records_url config encode zone, trim_end_matches b'.' fqdn)

    abbrev IsPage : S → ℕ → DoRecordList → Type 0
    IsPage s page b =
        (b.domain_records ≡ take per_page (drop ((page - 1) * per_page) (view s key)))
        × (has_next b ≡ ltb (page * per_page) (length (view s key)))

    abbrev Got : S → ℕ → Post S (Response B)
    Got s page (err e) s' = Same view s s'
    Got s page (ok a) s' =
        Same view s s'
        × ((b : DoRecordList)
            → is_success a.status ≡ true
            → reader.json a.body ≡ answered b
            → IsPage s page b)

    got_sent :
        (s w : S) (page : ℕ)
        → (1 ≤ page) × (page ≤ max_pages)
        → Same view s w
        → (x : Result (Response B)) → (api.send (list_request config encode zone fqdn page) w).0 ≡ x
        → Got s page x (api.send (list_request config encode zone fqdn page) w).1
    got_sent s w page bound h (err e) q =
        λ k. lists.list_same (list_request config encode zone fqdn page) w refl k ∙ h k
    got_sent s w page bound h (ok a) q = (
      λ k. lists.list_same (list_request config encode zone fqdn page) w refl k ∙ h k,
      λ b y j.
          let (p, n) =
            lists.list_page (list_request config encode zone fqdn page) w
              (trim_end_matches b'.' fqdn) page a b refl refl bound.0 bound.1 q y j in
          (
            p ∙ ap (λ (l : List DoRecord). take per_page (drop ((page - 1) * per_page) l)) (h key),
            n ∙ ap (λ (l : List DoRecord). ltb (page * per_page) (length l)) (h key),
          ),
    )

    got :
        (s w : S) (page : ℕ)
        → (1 ≤ page) × (page ≤ max_pages)
        → Same view s w
        → let done = send_retrying api (list_request config encode zone fqdn page) w in
          Got s page done.0 done.1
    got s w page bound h =
        send_retrying_rule api (list_request config encode zone fqdn page) (Same view s)
          (Got s page)
          (record {
            same = λ n e. steady.cloned (list_request config encode zone fqdn page) n e;
            sent = λ w h.
                got_sent s w page bound h (api.send (list_request config encode zone fqdn page) w).0
                  refl;
            paused = λ a d w y q k. steady.slept d w k ∙ q.0 k;
          })
          w h

    -- The whole list, or an error; nothing is changed.
    abbrev pub Listed : S → Post S (List DoRecord)
    Listed s (err e) s' = Same view s s'
    Listed s (ok all) s' = Same view s s' × (all ≡ view s key)

    -- The records of the first pages.
    abbrev first : S → ℕ → List DoRecord
    first s page = take (page * per_page) (view s key)

    page_Listed :
        (s w : S) (left page : ℕ) (next : List DoRecord → Exec S (List DoRecord)) (b : DoRecordList)
        → 1 ≤ page
        → Same view s w
        → ((w : S) → Same view s w → Listed s (next (first s page) w).0 (next (first s page) w).1)
        → IsPage s page b
        → let done = after_page config encode api reader next (first s (page - 1)) b w in
          Listed s done.0 done.1
    unfolding after_page
    page_Listed s w left page next b one h k (p, n) =
        let grown : first s (page - 1) ++ b.domain_records ≡ first s page =
          ap (λ (l : List DoRecord). first s (page - 1) ++ l) p
          ∙ take-append_drop ((page - 1) * per_page) per_page (view s key)
          ∙ ap (λ m. take m (view s key)) (omega arith) in
        elim (Bool-cases (has_next b)) [
          | inl y ↦ rw (y, grown) (k w h)
          | inr y ↦
              rw y
                (h, grown ∙ take_all (page * per_page) (view s key) (ltb-eq_false _ _ (sym n ∙ y)))
        ]

    body_Listed :
        (s w : S) (page : ℕ) (next : List DoRecord → Exec S (List DoRecord)) (a : Response B)
        → 1 ≤ page
        → ((w : S) → Same view s w → Listed s (next (first s page) w).0 (next (first s page) w).1)
        → Got s page (ok a) w
        → let done =
            (lift (listed config encode reader zone a)
                >>= after_page config encode api reader next (first s (page - 1)))
              w in
          Listed s done.0 done.1
    unfolding listed
    body_Listed s w page next a one k (h, f) = elim (Bool-cases (a.status == 404)) [
      | inl m ↦ rw m h
      | inr m ↦ elim (Bool-cases (is_success a.status)) [
        | inr n ↦ rw (m, n) h
        | inl y ↦ rw (m, y) (parsed (reader.json a.body) (λ b j. f b y j))
      ]
    ]
      where
        parsed :
            (j : Reply DoRecordList)
            → ((b : DoRecordList) → j ≡ answered b → IsPage s page b)
            → let done =
                (lift (http_error j)
                    >>= after_page config encode api reader next (first s (page - 1)))
                  w in
              Listed s done.0 done.1
        parsed (failed e) p = h
        parsed (answered b) p = page_Listed s w 0 page next b one h k (p b refl)

    loop_Listed :
        (s : S) (left : ℕ) (w : S)
        → suc left ≤ max_pages
        → Same view s w
        → let done =
            list_loop config encode api reader left zone fqdn (first s (max_pages - left - 1)) w in
          Listed s done.0 done.1
    unfolding list_loop
    loop_Listed s zero w b h =
        >>=_rule (Got s max_pages) (Listed s)
          (send_retrying api (list_request config encode zone fqdn max_pages)) _ w
          (got s w max_pages (omega arith, omega arith) h) (λ e t k. k)
          (λ a t g.
            body_Listed s t max_pages (λ all t. (err (too_many config encode reader zone), t)) a
              (omega arith) (λ u k. k) g)
    loop_Listed s (suc left) w b h =
        let page = max_pages - suc left in
        >>=_rule (Got s page) (Listed s)
          (send_retrying api (list_request config encode zone fqdn page)) _ w
          (got s w page (omega arith, omega arith) h) (λ e t k. k)
          (λ a t g.
            body_Listed s t page (list_loop config encode api reader left zone fqdn) a (omega arith)
              (λ u k.
                subst
                  (λ (p : ℕ).
                    let done = list_loop config encode api reader left zone fqdn (first s p) u in
                    Listed s done.0 done.1)
                  (omega arith) (loop_Listed s left u (omega arith) k))
              g)

    -- A list that succeeds has all records of the name, in their order, however many pages they
    -- take up; listing changes nothing.
    pub list_matching_records-Listed :
        (s : S)
        → let done = list_matching_records config encode api reader zone fqdn s in
          Listed s done.0 done.1
    unfolding list_matching_records
    list_matching_records-Listed s = loop_Listed s (max_pages - 1) s (omega arith) (λ k. refl)
