-- ===== src/Providers/Cloudflare/Changes.antt =====
-- What `present` and `cleanup` of src/providers/cloudflare.rs do to the records of a name.
use mathlib.Core.List.{append_assoc}
use cheti.Prelude.{
  ℕ, ◌≤◌, ◌≡◌, ◌∙◌, refl, sym, ap, subst, inl, inr, Bool, true, not, ◌||◌, Bool-cases, List, [],
  ◌∷◌, ◌++◌, ◌==◌, any, keep, length, take, take_all, arith, zero, suc,
}
use cheti.Text.{Text, text, text_eq, trim_end_matches}
use cheti.Text.Suffix.{text_eq_refl, text_eq_sound}
use cheti.Text.Trim.{quoted, trim_matches-quoted}
use cheti.Error.{ok}
use cheti.Exec.{Post, >>=_rule, lift}
use cheti.Common.Validate.{validate_acme_value}
use cheti.Common.Validate.Values.{validate_acme_value-unquoted}
use cheti.Common.Names.{PercentEncode, encode_path}
use cheti.Common.Retry.{Response, Transport, post, delete, send_retrying}
use cheti.Providers.Http.{is_success, plain, with_json}
use cheti.Providers.Records.{Key, Distinct, Server, delete_each}
use cheti.Providers.Records.Deleted.{Gone, Deleted, delete_Deleted, Deleted-Gone}
use cheti.Providers.Records.Removes.{Removed, Removed-after, Distinct-Same, delete_each-Removed}
use cheti.Providers.Records.Adds.{Grown-Same, Posted, post_Posted, Shown, Posted-Shown, Shown-after}
use cheti.Providers.Cloudflare.{
  CfDnsRecord, CfReader, CreateRecordBody, content_shows, records_url, record_item_url, created,
  deleted, create_body, create_record, delete_record, add_value, remove_value,
  list_matching_records,
}
use cheti.Providers.Cloudflare.Config.{CloudflareConfig}
use cheti.Providers.Cloudflare.Listed.{Lists, Listed, page_size, list_matching_records-first}

-- The URL of a record, and the record that a POST makes: the server keeps its content.
abbrev pub item : PercentEncode → Key → CfDnsRecord → Text
item encode k x = k.0 ++ (text "/" ++ encode_path encode x.id)

abbrev pub carries : CreateRecordBody → CfDnsRecord → Bool
carries b x = text_eq x.content b.content

abbrev pub key_of : Text → CreateRecordBody → Key
key_of url b = (url, b.name)

carries-content_shows :
    (value : Text) (b : CreateRecordBody) (x : CfDnsRecord)
    → validate_acme_value value ≡ ok tt
    → b.content ≡ quoted value
    → carries b x ≡ true
    → content_shows value x ≡ true
unfolding content_shows
carries-content_shows value b x h e c =
    let same : x.content ≡ quoted value = text_eq_sound x.content b.content c ∙ e in
    rw (same, trim_matches-quoted value (validate_acme_value-unquoted value h)) (text_eq_refl value)

reassociated :
    (a b c d e f : Text) → a ++ (b ++ (c ++ ((d ++ e) ++ f))) ≡ (a ++ (b ++ (c ++ d))) ++ (e ++ f)
reassociated a b c d e f = simp append_assoc refl

slash : text "/dns_records/" ≡ text "/dns_records" ++ text "/"
unfolding text
slash = refl

any-take :
    (p : CfDnsRecord → Bool) (n : ℕ) (xs : List CfDnsRecord)
    → any p (take n xs) ≡ true
    → any p xs ≡ true
any-take p zero xs h = cc
any-take p (suc n) [] h = h
any-take p (suc n) (x ∷ xs) h = ground (arith, any-take p n xs)

module _ {S B : Type 0} (view : S → Key → List CfDnsRecord) (api : Transport S CreateRecordBody B)
    (reader : CfReader B) (encode : PercentEncode) (config : CloudflareConfig) (zone_id fqdn : Text)
    (server : Server view (item encode) api key_of carries)
    (lists : Lists view api reader encode config zone_id fqdn) where
  abbrev pub name_key : Key
  name_key = (records_url config encode zone_id, trim_end_matches b'.' fqdn)

  record_item_url_lem :
      (x : CfDnsRecord) → record_item_url config encode zone_id x.id ≡ item encode name_key x
  unfolding record_item_url records_url
  record_item_url_lem x =
      ap
        (λ (p : Text).
          config.api_base
          ++ (text "/zones/" ++ (encode_path encode zone_id ++ (p ++ encode_path encode x.id))))
        slash
      ∙ reassociated config.api_base (text "/zones/") (encode_path encode zone_id)
          (text "/dns_records") (text "/") (encode_path encode x.id)

  deleted-ok :
      (a : Response B)
      → deleted config encode reader zone_id a ≡ ok tt
      → (is_success a.status || (a.status == 404)) ≡ true
  unfolding deleted
  deleted-ok a h = ground arith

  created-ok :
      (a : Response B) → created config encode reader zone_id a ≡ ok tt → is_success a.status ≡ true
  unfolding created
  created-ok a h = elim (Bool-cases (is_success a.status)) [ inl y ↦ y | inr n ↦ cc (rw n at h) ]

  deleted_Gone :
      (x : CfDnsRecord) (s : S) (url : Text)
      → record_item_url config encode zone_id x.id ≡ url
      → let done = delete_record config encode api reader zone_id x.id s in
        Gone view (item encode) url s done.0 done.1
  unfolding delete_record
  deleted_Gone x s url e =
      let own = record_item_url config encode zone_id x.id in
      let request = plain delete own in
      let done = delete_record config encode api reader zone_id x.id s in
      subst (λ (u : Text). Gone view (item encode) u s done.0 done.1) e
        (>>=_rule (Deleted view (item encode) api server.steady server.deletes own s)
          (Gone view (item encode) own s) (send_retrying api request)
          (λ a. lift (deleted config encode reader zone_id a)) s
          (delete_Deleted view (item encode) api server.steady server.deletes request s refl)
          (λ e t h. h)
          (λ a t h.
            Deleted-Gone view (item encode) api server.steady server.deletes own s a t
              (deleted config encode reader zone_id a) (deleted-ok a) h))

  -- The call under the lock of `present`.
  abbrev pub Presented : Text → S → Post S (Unit {0})
  Presented value =
      Shown view (carries (create_body config encode api reader fqdn value)) (content_shows value)
        name_key

  create_record-Shown :
      (value : Text) (s : S)
      → validate_acme_value value ≡ ok tt
      → let done = create_record config encode api reader zone_id fqdn value s in
        Presented value s done.0 done.1
  unfolding create_record
  create_record-Shown value s h =
      let url = records_url config encode zone_id in
      let b = create_body config encode api reader fqdn value in
      >>=_rule (Posted view api server.steady key_of carries server.posts url b s)
        (Presented value s) (send_retrying api (with_json post url b))
        (λ a. lift (created config encode reader zone_id a)) s
        (post_Posted view api server.steady key_of carries server.posts (with_json post url b) b s
          refl refl)
        (λ e t p. p)
        (λ a t p.
          Posted-Shown view api server.steady key_of carries server.posts url b
            (content_shows value) s a t (created config encode reader zone_id a)
            (λ x c. carries-content_shows value b x h refl c) (created-ok a) p)

  -- On a server that keeps the records, and for a value that passes the check: the part of
  -- `present` under the lock leaves the records of every other name as they are, and those of this
  -- name too, adding one with the value at most; if it succeeds, a record of the name shows the
  -- value.
  pub add_value-Presented :
      (value : Text) (s : S)
      → validate_acme_value value ≡ ok tt
      → let done = add_value config encode api reader zone_id fqdn value s in
        Presented value s done.0 done.1
  unfolding add_value
  add_value-Presented value s h =
      >>=_rule (Listed view api reader encode config zone_id fqdn server.steady lists s)
        (Presented value s) (list_matching_records config encode api reader zone_id fqdn) _ s
        (list_matching_records-first view api reader encode config zone_id fqdn server.steady lists
          s)
        (λ e t k. Grown-Same view _ name_key s t k)
        (λ rs t k. elim (Bool-cases (any (content_shows value) rs)) [
          | inl y ↦ rw y (
            Grown-Same view _ name_key s t k.0,
            ap (any (content_shows value)) (k.0 name_key)
                ∙ any-take (content_shows value) page_size (view s name_key)
                    (ap (any (content_shows value)) (sym k.1) ∙ y),
          )
          | inr y ↦ rw y (
              Shown-after view _ (content_shows value) name_key s t _ _ k.0
                (create_record-Shown value t h))
        ])

  -- On a server that keeps the records, no two under one URL, and 100 of the name at most: the
  -- part of `cleanup` under the lock leaves the records of every other name as they are, and keeps
  -- those of this name that do not show the value, in their order; if it succeeds, those that show
  -- the value are gone.
  pub remove_value-Cleared :
      (value : Text) (s : S)
      → Distinct view (item encode) s
      → length (view s name_key) ≤ page_size
      → let done = remove_value config encode api reader zone_id fqdn value s in
        Removed view (content_shows value) name_key s done.0 done.1
  unfolding remove_value
  remove_value-Cleared value s d few =
      >>=_rule (Listed view api reader encode config zone_id fqdn server.steady lists s)
        (Removed view (content_shows value) name_key s)
        (list_matching_records config encode api reader zone_id fqdn) _ s
        (list_matching_records-first view api reader encode config zone_id fqdn server.steady lists
          s)
        (λ e t k. (λ x n. k x, ap (keep (λ y. not (content_shows value y))) (k name_key)))
        (λ rs t k. Removed-after view (content_shows value) name_key s t _ _ k.0 (
          subst
            (λ (l : List CfDnsRecord).
              let done =
                delete_each (content_shows value)
                  (λ x. delete_record config encode api reader zone_id x.id) l t in
              Removed view (content_shows value) name_key t done.0 done.1)
            (k.0 name_key ∙ sym (k.1 ∙ take_all page_size (view s name_key) few))
            (delete_each-Removed view (item encode) name_key (content_shows value)
              (λ x. delete_record config encode api reader zone_id x.id)
              (λ x u. deleted_Gone x u (item encode name_key x) (record_item_url_lem x)) t
              (Distinct-Same view (item encode) s t k.0 d))))
