-- ===== src/Providers/Gandi/Present.antt =====
-- What `present` and `cleanup` of src/providers/gandi.rs do, from the name to the values.
use cheti.Prelude.{◌≡◌, refl, sym, ap, subst, ◌⊎◌, inl, inr}
use cheti.Text.{Text, to_ascii_lowercase}
use cheti.Error.{DnsError, Result, ok, err}
use cheti.Exec.{Exec, Post, >>=_rule, lift_rule, ◌>>=◌, lift}
use cheti.Dns.Client.{Client}
use cheti.Common.Validate.{validate_fqdn, validate_acme_value}
use cheti.Common.Names.{PercentEncode, relative_name}
use cheti.Common.Retry.{Transport}
use cheti.Providers.Http.{Reader, on_dns, on_api}
use cheti.Providers.Gandi.{
  GandiConfig, TxtRecordBody, record_url, resolve_zone, add_value, remove_value, present, cleanup,
}
use cheti.Providers.Writes.{Same}
use cheti.Providers.Gandi.Server.{Stored, Server}
use cheti.Providers.Gandi.Added.{AddedOk, add_value-AddedOk}
use cheti.Providers.Gandi.Removed.{RemovedOk, remove_value-RemovedOk}

module _ {S B E R Ip : Type 0} (api : Transport S TxtRecordBody B) (reader : Reader B TxtRecordBody)
    (view : Stored S) (server : Server api reader view) (config : GandiConfig)
    (encode : PercentEncode) (dns : Client E R Ip) where
  -- The zone and the relative name of a name, as looked up in the world `e`.
  abbrev pub Located : Text → E → Text → Text → Type 0
  Located name e zone rname =
      ((resolve_zone dns config (to_ascii_lowercase name) e).0 ≡ ok zone)
      × (relative_name (to_ascii_lowercase name) zone ≡ ok rname)

  module _ (Done : Text → Post S (Unit {0})) (name : Text) (e : E) (s : S) where
    -- Nothing has changed, or the call was made at the URL of the name, and has done what it does.
    abbrev pub Reached : Post (E × S) (Unit {0})
    Reached (err x) w =
        Same view s w.1
        ⊎ (zone rname : Text) × Located name e zone rname
          × Done (record_url config encode zone rname) (err x) w.1
    Reached (ok u) w =
        (zone rname : Text) × Located name e zone rname
        × Done (record_url config encode zone rname) (ok u) w.1

    abbrev Does : (Text → Text → Exec S (Unit {0})) → Type 0
    Does call =
        (zone rname : Text)
        → Done (record_url config encode zone rname) (call zone rname s).0 (call zone rname s).1

    called :
        (zone rname : Text) (e' : E) (r : Result (Unit {0})) (s' : S)
        → Located name e zone rname
        → Done (record_url config encode zone rname) r s'
        → Reached r (e', s')
    called zone rname e' (err x) s' l d = inr (zone, rname, l, d)
    called zone rname e' (ok u) s' l d = (zone, rname, l, d)

    abbrev Is : {A : Type 0} → Result A → Post (E × S) A
    Is r r' w = (w.1 ≡ s) × (r' ≡ r)

    unchanged : (x : DnsError) (w : E × S) → w.1 ≡ s → Reached (err x) w
    unchanged x w h = inl (λ u. ap (λ (t : S). view t u) h)

    -- From the zone on.
    named :
        (call : Text → Text → Exec S (Unit {0}))
        → Does call
        → (zone : Text) (w : E × S) → w.1 ≡ s
        → (resolve_zone dns config (to_ascii_lowercase name) e).0 ≡ ok zone
        → let done : Result (Unit {0}) × (E × S) =
            (lift (relative_name (to_ascii_lowercase name) zone) >>= λ rname.
            on_api (call zone rname))
              w in
          Reached done.0 done.1
    named call does zone w h z =
        >>=_rule (Is (relative_name (to_ascii_lowercase name) zone)) Reached
          (lift (relative_name (to_ascii_lowercase name) zone)) (λ rname. on_api (call zone rname))
          w (h, refl) (λ x w' p. unchanged x w' p.0)
          (λ rname w' p.
            called zone rname w'.0 (call zone rname w'.1).0 (call zone rname w'.1).1 (z, sym p.1)
              (subst
                (λ (t : S).
                  Done (record_url config encode zone rname) (call zone rname t).0
                    (call zone rname t).1)
                (sym p.0) (does zone rname)))

    located :
        (call : Text → Text → Exec S (Unit {0}))
        → Does call
        → let fqdn : Text = to_ascii_lowercase name in
          let done : Result (Unit {0}) × (E × S) =
            (on_dns (resolve_zone dns config fqdn) >>= λ zone.
            lift (relative_name fqdn zone) >>= λ rname. on_api (call zone rname))
              (e, s) in
          Reached done.0 done.1
    located call does =
        let fqdn = to_ascii_lowercase name in
        >>=_rule (Is (resolve_zone dns config fqdn e).0) Reached
          (on_dns (resolve_zone dns config fqdn)) _ (e, s) (refl, refl)
          (λ x w' p. unchanged x w' p.0) (λ zone w' p. named call does zone w' p.0 (sym p.1))

  -- On a server that keeps the values by URL (the record `Server`), and whatever the DNS and the
  -- API answer: `present` changes the values of the name's URL at most, where it keeps each value
  -- that was there; if it succeeds, the value is among them.
  pub present-Reached :
      (name value : Text) (e : E) (s : S)
      → let done = present config encode api reader dns name value (e, s) in
        Reached
          (λ url. AddedOk api reader view server config encode url value s)
          name
          e
          s
          done.0
          done.1
  unfolding present
  present-Reached name value e s =
      let Done : Text → Post S (Unit {0}) =
        λ url. AddedOk api reader view server config encode url value s in
      lift_rule (Reached Done name e s) (validate_fqdn name) _ (e, s)
        (λ x q. unchanged Done name e s x (e, s) refl)
        (λ u q.
          lift_rule (Reached Done name e s) (validate_acme_value value) _ (e, s)
            (λ x r. unchanged Done name e s x (e, s) refl)
            (λ v r.
              located Done name e s
                (λ zone rname. add_value config encode api reader zone rname value)
                (λ zone rname.
                  add_value-AddedOk api reader view server config encode zone rname value s)))

  -- On a server that keeps the values by URL (the record `Server`), and whatever the DNS and the
  -- API answer: `cleanup` changes the values of the name's URL at most, where it takes out all
  -- values that show the challenge's and keeps the others in their order, or changes nothing; if
  -- it succeeds, the values that show the challenge's are gone.
  pub cleanup-Reached :
      (name value : Text) (e : E) (s : S)
      → let done = cleanup config encode api reader dns name value (e, s) in
        Reached
          (λ url. RemovedOk api reader view server config encode url value s)
          name
          e
          s
          done.0
          done.1
  unfolding cleanup
  cleanup-Reached name value e s =
      let Done : Text → Post S (Unit {0}) =
        λ url. RemovedOk api reader view server config encode url value s in
      lift_rule (Reached Done name e s) (validate_fqdn name) _ (e, s)
        (λ x q. unchanged Done name e s x (e, s) refl)
        (λ u q.
          located Done name e s
            (λ zone rname. remove_value config encode api reader zone rname value)
            (λ zone rname.
              remove_value-RemovedOk api reader view server config encode zone rname value s))
