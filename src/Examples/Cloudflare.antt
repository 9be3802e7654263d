-- ===== src/Examples/Cloudflare.antt =====
-- A server for the provider of src/providers/cloudflare.rs, and calls of it.
use cheti.Prelude.{ℕ, ◌≤◌, ◌≡◌, ◌∙◌, refl, ap, true, some, List, [], ◌∷◌, length, take, All, arith}
use cheti.Text.{Text, text, trim_end_by, trim_end_matches}
use cheti.Text.Suffix.{text_eq_refl}
use cheti.Text.Utf8.{byte_length, len_utf8}
use cheti.Error.{ok}
use cheti.Dns.Client.{answered}
use cheti.Common.Names.{PercentEncode}
use cheti.Common.Validate.{validate_acme_value}
use cheti.Common.Retry.{Request, Response, Transport}
use cheti.Providers.Records.{Server}
use cheti.Providers.Records.Removes.{Removed}
use cheti.Providers.Cloudflare.{
  CfEnvelope, CfDnsRecord, CfReader, CreateRecordBody, content_shows, records_url, add_value,
  remove_value,
}
use cheti.Providers.Cloudflare.Config.{CloudflareConfig, new}
use cheti.Providers.Cloudflare.Listed.{Lists, page_size}
use cheti.Providers.Cloudflare.Changes.{
  item, carries, key_of, Presented, add_value-Presented, remove_value-Cleared,
}
use cheti.Examples.RecordStore
use cheti.Examples.RecordStore.{Store, view, reply, sent_get, Apart, apart, store-Distinct}

abbrev encode : PercentEncode
encode must s = s

abbrev config : CloudflareConfig
config = new []

abbrev zone_id : Text
zone_id = b'z' ∷ []

abbrev name : Text
name = b'a' ∷ b'.' ∷ b'b' ∷ []

abbrev value : Text
value = b'v' ∷ []

abbrev make : ℕ → CreateRecordBody → CfDnsRecord
make id b = record { id = id ∷ []; content = b.content }

abbrev body : List CfDnsRecord → CfEnvelope (List CfDnsRecord)
body rs = record { success = true; errors = []; result = some rs }

abbrev url : Text
url = records_url config encode zone_id

-- The server answers the one request that is made.
abbrev serve :
    Request CreateRecordBody → Store CfDnsRecord → Response (CfEnvelope (List CfDnsRecord))
serve r s = reply 200 (body (take page_size (view s (url, trim_end_matches b'.' name))))

abbrev api : Transport (Store CfDnsRecord) CreateRecordBody (CfEnvelope (List CfDnsRecord))
api = RecordStore.api (item encode) key_of make (body []) serve

abbrev reader : CfReader (CfEnvelope (List CfDnsRecord))
reader = record {
  text_of = record { body_text = λ b. answered []; json = λ b. answered b; status_text = λ n. [] };
  zones_json = λ b. answered (record { success = true; errors = []; result = some [] });
  record_json = λ b.
      answered
        (record { success = true; errors = []; result = some (record { id = []; content = [] }) });
}

server : Server view (item encode) api key_of carries
server =
    RecordStore.server (item encode) key_of make (body []) serve carries
      (λ b n. text_eq_refl b.content)

page_of :
    (rs all : List CfDnsRecord) (a : Response (CfEnvelope (List CfDnsRecord)))
    (b : CfEnvelope (List CfDnsRecord))
    → ok (reply 200 (body all)) ≡ ok a
    → reader.text_of.json a.body ≡ answered b
    → b.result ≡ some rs
    → rs ≡ all
page_of rs all a b h j e =
    let same : reply 200 (body all) ≡ a = cc in
    let read : a.body ≡ b = cc in
    let result : some all ≡ some rs =
      ap (λ (x : Response (CfEnvelope (List CfDnsRecord))). x.body.result) same
      ∙ ap (λ (x : CfEnvelope (List CfDnsRecord)). x.result) read
      ∙ e in
    cc

lists : Lists view api reader encode config zone_id name
lists = record {
  list_same = λ s k. refl;
  list_page = λ s a b rs h y j t e.
      page_of rs (take page_size (view s (url, trim_end_matches b'.' name))) a b h j e;
}

-- Two records of the name, one of which shows the value, and one of another name.
abbrev store : Store CfDnsRecord
store =
    ((url, name), record { id = b'1' ∷ []; content = b'"' ∷ b'v' ∷ b'"' ∷ [] })
    ∷ ((url, name), record { id = b'2' ∷ []; content = b'w' ∷ [] })
    ∷ ((url, b'c' ∷ []), record { id = b'3' ∷ []; content = value })
    ∷ []

entries-Apart : All (λ e. All (λ f. Apart (item encode) e.0 e.1 f.0 f.1) store) store
unfolding text records_url new
entries-Apart = (
  ((λ h. (refl, refl)), (apart (item encode) _ _ _ _ refl, (apart (item encode) _ _ _ _ refl, tt))),
  (
    (
      apart (item encode) _ _ _ _ refl,
      ((λ h. (refl, refl)), (apart (item encode) _ _ _ _ refl, tt)),
    ),
    (
      (
        apart (item encode) _ _ _ _ refl,
        (apart (item encode) _ _ _ _ refl, ((λ h. (refl, refl)), tt)),
      ),
      tt,
    ),
  ),
)

accepted : validate_acme_value (b'x' ∷ []) ≡ ok tt
unfolding validate_acme_value byte_length len_utf8
accepted = refl

add_value-Presented_example :
    let done = add_value config encode api reader zone_id name (b'x' ∷ []) store in
    Presented view api reader encode config zone_id name server lists
      (b'x' ∷ [])
      store
      done.0
      done.1
add_value-Presented_example =
    add_value-Presented view api reader encode config zone_id name server lists (b'x' ∷ []) store
      accepted

two_of_name : length (view store (url, trim_end_matches b'.' name)) ≤ page_size
unfolding trim_end_by
two_of_name = rw (text_eq_refl url) (omega arith)

remove_value-Cleared_example :
    let done = remove_value config encode api reader zone_id name value store in
    Removed view (content_shows value) (url, trim_end_matches b'.' name) store done.0 done.1
remove_value-Cleared_example =
    remove_value-Cleared view api reader encode config zone_id name server lists value store
      (store-Distinct (item encode) store entries-Apart) two_of_name
