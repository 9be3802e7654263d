-- ===== src/Providers/Cloudflare/Listed.antt =====
-- `list_matching_records` of src/providers/cloudflare.rs.
use cheti.Prelude.{
  ℕ, ◌≡◌, ◌∙◌, refl, ap, inl, inr, true, Bool-cases, some, Option, none, List, take,
}
use cheti.Text.{Text, trim_end_matches}
use cheti.Error.{DnsError, ok, err, ok_or, ◌>>=◌ as and_then}
use cheti.Exec.{Post, >>=_rule, lift}
use cheti.Dns.Client.{Reply, answered, failed}
use cheti.Common.Names.{PercentEncode}
use cheti.Common.Retry.{Request, Response, Transport, get, send_retrying}
use cheti.Providers.Http.{is_success, plain, http_error}
use cheti.Providers.Writes.{Same, Steady, Read, send_retrying-Read}
use cheti.Providers.Records.{Key}
use cheti.Providers.Cloudflare.{
  CfEnvelope, CfDnsRecord, CfReader, CreateRecordBody, records_url, list_url, listed, into_result,
  list_matching_records,
}
use cheti.Providers.Cloudflare.Config.{CloudflareConfig}

-- What the request asks for at most.
abbrev pub page_size : ℕ
page_size = 100

module _ {S B : Type 0} (view : S → Key → List CfDnsRecord) (api : Transport S CreateRecordBody B)
    (reader : CfReader B) (encode : PercentEncode) (config : CloudflareConfig)
    (zone_id fqdn : Text) where
  abbrev pub key : Key
  key = (records_url config encode zone_id, trim_end_matches b'.' fqdn)

  abbrev pub request : Request CreateRecordBody
  request =
      plain get
        (list_url config encode (records_url config encode zone_id) (trim_end_matches b'.' fqdn))

  -- What the provider relies on: the request for the records of the name changes nothing, and a
  -- success carries the first of them, 100 at most.
  pub record Lists : Type 0 where
    pub list_same : (s : S) → Same view s (api.send request s).1
    pub list_page :
        (s : S) (a : _) (b : CfEnvelope (List CfDnsRecord)) (rs : List CfDnsRecord)
        → (api.send request s).0 ≡ ok a
        → is_success a.status ≡ true
        → reader.text_of.json a.body ≡ answered b
        → b.success ≡ true
        → b.result ≡ some rs
        → rs ≡ take page_size (view s key)

  module _ (steady : Steady view api) (lists : Lists) where
    -- The first records of the name, or an error; nothing is changed.
    abbrev pub Listed : S → Post S (List CfDnsRecord)
    Listed s (err e) s' = Same view s s'
    Listed s (ok rs) s' = Same view s s' × (rs ≡ take page_size (view s key))

    abbrev Told : S → Response B → Type 0
    Told s a =
        (b : CfEnvelope (List CfDnsRecord)) (rs : List CfDnsRecord)
        → is_success a.status ≡ true
        → reader.text_of.json a.body ≡ answered b
        → b.success ≡ true
        → b.result ≡ some rs
        → rs ≡ take page_size (view s key)

    result_Listed :
        (s s' : S) (label : Text) (b : CfEnvelope (List CfDnsRecord))
        → Same view s s'
        → ((rs : List CfDnsRecord)
            → b.success ≡ true
            → b.result ≡ some rs
            → rs ≡ take page_size (view s key))
        → Listed s (into_result label b) s'
    unfolding into_result
    result_Listed s s' label b h k = elim (Bool-cases b.success) [
      | inr n ↦ rw n h
      | inl y ↦ rw y (go _ b.result (λ rs e. k rs y e))
    ]
      where
        go :
            (x : DnsError) (o : Option (List CfDnsRecord))
            → ((rs : List CfDnsRecord) → o ≡ some rs → rs ≡ take page_size (view s key))
            → Listed s (ok_or x o) s'
        go x none k = h
        go x (some rs) k = (h, k rs refl)

    listed_Listed :
        (s s' : S) (a : Response B)
        → Read view api (Told s) s (ok a) s'
        → Listed s (listed config encode reader zone_id a) s'
    unfolding listed
    listed_Listed s s' a (h, f) = elim (Bool-cases (is_success a.status)) [
      | inr n ↦ rw n h
      | inl y ↦ rw y (parsed _ (reader.text_of.json a.body) (λ b rs j. f b rs y j))
    ]
      where
        parsed :
            (label : Text) (j : Reply (CfEnvelope (List CfDnsRecord)))
            → ((b : CfEnvelope (List CfDnsRecord)) (rs : List CfDnsRecord)
                → j ≡ answered b
                → b.success ≡ true
                → b.result ≡ some rs
                → rs ≡ take page_size (view s key))
            → Listed s (and_then (http_error j) (into_result label)) s'
        parsed label (failed e) p = h
        parsed label (answered b) p = result_Listed s s' label b h (λ rs y e. p b rs refl y e)

    pub list_matching_records-first :
        (s : S)
        → let done = list_matching_records config encode api reader zone_id fqdn s in
          Listed s done.0 done.1
    unfolding list_matching_records
    list_matching_records-first s =
        >>=_rule (Read view api (Told s) s) (Listed s) (send_retrying api request)
          (λ a. lift (listed config encode reader zone_id a)) s
          (send_retrying-Read view api steady request (Told s) s lists.list_same
            (λ w h a q b rs y j t e.
              lists.list_page w a b rs q y j t e ∙ ap (take page_size) (h key)))
          (λ e t h. h) (λ a t h. listed_Listed s t a h)
