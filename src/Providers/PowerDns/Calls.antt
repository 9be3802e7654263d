-- ===== src/Providers/PowerDns/Calls.antt =====
-- What the requests of src/providers/powerdns.rs do to the RRSets that the server keeps.
use mathlib.Core.Option
use cheti.Prelude.{◌≡◌, ◌∙◌, refl, inl, inr, true, Bool-cases, Option, List}
use cheti.Text.{Text}
use cheti.Error.{ok, err, ◌>>=◌ as and_then}
use cheti.Exec.{Post, >>=_rule, lift}
use cheti.Dns.Client.{Reply, answered, failed}
use cheti.Common.Names.{PercentEncode}
use cheti.Common.Retry.{Response, Transport, send_retrying}
use cheti.Providers.Http.{is_success, http_error}
use cheti.Providers.Writes.{Same, Wrote, Read, Writes, Sent, send_retrying-Read, send_retrying-Sent}
use cheti.Providers.PowerDns.{
  PdnsRrset, Change, PdnsPatch, PdnsReader, find_rrset, zone_path, url, rrset_of, fetch_rrset,
  patched, patch_rrset, write_of,
}
use cheti.Providers.PowerDns.Config.{PowerDnsConfig}
use cheti.Providers.PowerDns.Server.{
  Rrset, rrset_data, Stored, result_of, get_rrset, patch_of, Server,
}

module _ {S B : Type 0} (pdns : Transport S PdnsPatch B) (reader : PdnsReader B) (view : Stored S)
    (server : Server pdns reader view) where
  -- What an answer tells of the RRSet of a name.
  abbrev Told : Text → Text → S → Response B → Type 0
  Told url name s a =
      (rrsets : List PdnsRrset)
      → is_success a.status ≡ true
      → reader.rrsets_json a.body ≡ answered rrsets
      → Option.map rrset_data (find_rrset name rrsets) ≡ view s (url, name)

  abbrev pub Fetched : Text → Text → S → Post S (Option PdnsRrset)
  Fetched url name s (err e) s' = Same view s s'
  Fetched url name s (ok o) s' = Same view s s' × (Option.map rrset_data o ≡ view s (url, name))

  rrset_of-Fetched :
      (path name u : Text) (s s' : S) (a : Response B)
      → Same view s s'
      → Told u name s a
      → Fetched u name s (rrset_of reader path name a) s'
  unfolding rrset_of
  rrset_of-Fetched path name u s s' a h f = elim (Bool-cases (is_success a.status)) [
    | inr n ↦ simp n h
    | inl y ↦ simp y (read (reader.rrsets_json a.body) (λ rrsets j. f rrsets y j))
  ]
    where
      read :
          (j : Reply (List PdnsRrset))
          → ((rrsets : List PdnsRrset)
              → j ≡ answered rrsets
              → Option.map rrset_data (find_rrset name rrsets) ≡ view s (u, name))
          → Fetched u name s (and_then (http_error j) (λ rrsets. ok (find_rrset name rrsets))) s'
      read (failed e) g = h
      read (answered rrsets) g = (h, g rrsets refl)

  module _ (config : PowerDnsConfig) (encode : PercentEncode) where
    pub fetch_rrset-Fetched :
        (zone name : Text) (s : S)
        → let u = url config encode (zone_path config encode zone) in
          let done = fetch_rrset config encode pdns reader zone name s in
          Fetched u name s done.0 done.1
    unfolding fetch_rrset
    fetch_rrset-Fetched zone name s =
        let u = url config encode (zone_path config encode zone) in
        >>=_rule (Read view pdns (Told u name s) s) (Fetched u name s)
          (send_retrying pdns (get_rrset u name))
          (λ response. lift (rrset_of reader (zone_path config encode zone) name response)) s
          (send_retrying-Read view pdns server.steady (get_rrset u name) (Told u name s) s
            (server.get_same u name)
            (λ w h a q rrsets y j. server.get_found u name w a rrsets q y j ∙ h (u, name)))
          (λ e s' h. h)
          (λ a s' h. rrset_of-Fetched (zone_path config encode zone) name u s s' a h.0 h.1)

    -- What a call that changes an RRSet makes true.
    abbrev pub Changed : Text → Text → Option Rrset → S → Post S (Unit {0})
    Changed u name after s (err e) s' = Wrote view (u, name) after s s'
    Changed u name after s (ok x) s' = Wrote view (u, name) after s s' × (view s' (u, name) ≡ after)

    patched-Changed :
        (path u name : Text) (after : Option Rrset) (s s' : S) (a : Response B)
        → Sent view pdns is_success (u, name) after s (ok a) s'
        → Changed u name after s (patched reader path a) s'
    unfolding patched
    patched-Changed path u name after s s' a h = elim (Bool-cases (is_success a.status)) [
      | inl y ↦ simp y (h.0, h.1 y)
      | inr n ↦ simp n h.0
    ]

    patch_Writes :
        (u name : Text) (change : Change)
        → Writes view pdns (patch_of u name change) (u, name) (result_of change) is_success
    patch_Writes u name change = record {
      wrote = λ s. server.patch_wrote u name change s;
      all_done = λ s a e y. server.patch_done u name change s a e y;
    }

    pub patch_rrset-Changed :
        (zone name : Text) (change : Change) (s : S)
        → let u = url config encode (zone_path config encode zone) in
          let done = patch_rrset config encode pdns reader zone (write_of name change) s in
          Changed u name (result_of change) s done.0 done.1
    unfolding patch_rrset
    patch_rrset-Changed zone name change s =
        let u = url config encode (zone_path config encode zone) in
        >>=_rule (Sent view pdns is_success (u, name) (result_of change) s)
          (Changed u name (result_of change) s) (send_retrying pdns (patch_of u name change))
          (λ response. lift (patched reader (zone_path config encode zone) response)) s
          (send_retrying-Sent view pdns server.steady (patch_of u name change) (u, name)
            (result_of change) is_success s (patch_Writes u name change))
          (λ e s' h. h)
          (λ a s' h.
            patched-Changed (zone_path config encode zone) u name (result_of change) s s' a h)
