-- ===== src/Providers/Gandi/Config.antt =====
-- The configurations that src/providers/gandi.rs can build.
use cheti.Prelude.{ℕ, refl, subst, ◌≡◌, ◌⊎◌, inl, inr, ◌≤◌, Option, none, some, arith}
use cheti.Text.{Text, to_ascii_lowercase, trim_end_matches}
use cheti.Error.{ok, >>=-eq-ok}
use cheti.Common.Validate.{validate_zone, validate_ttl_range}
use cheti.Common.Validate.Values.{validate_ttl_range_iff}
use cheti.Common.Names.{Url, validate_https_base}
use cheti.Providers.Gandi.{
  GandiConfig, new, with_api_base, with_zone, with_ttl, with_timeout, provider, gandi_api_base,
}

module _ (url_parse : Text → Option Url) where
  -- The calls that lead to a configuration.
  pub data Built : GandiConfig → Type 0 where
    fresh : (token : Text) → Built (new token)
    based :
        (c d : GandiConfig) (base : Text)
        → Built c
        → with_api_base url_parse base c ≡ ok d
        → Built d
    zoned : (c d : GandiConfig) (zone : Text) → Built c → with_zone zone c ≡ ok d → Built d
    lived : (c d : GandiConfig) (ttl : ℕ) → Built c → with_ttl ttl c ≡ ok d → Built d
    timed : (c : GandiConfig) (timeout : ℕ) → Built c → Built (with_timeout timeout c)

  abbrev pub IsZone : Option Text → Type 0
  IsZone none = Unit
  IsZone (some z) =
      (given : Text) × (validate_zone given ≡ ok tt)
      × (z ≡ to_ascii_lowercase (trim_end_matches b'.' given))

  pub record IsValid (c : GandiConfig) : Type 0 where
    pub ttl_low : 300 ≤ c.ttl
    pub ttl_high : c.ttl ≤ 2592000
    pub zone : IsZone c.zone_override
    pub base :
        (c.api_base ≡ gandi_api_base)
        ⊎ (given : Text) × (validate_https_base url_parse given provider ≡ ok tt)
          × (c.api_base ≡ trim_end_matches b'/' given)

  -- Every configuration that can be built has a TTL that the API accepts, a zone, if any, that
  -- passed the check and is in lower case, and a base URL that is the default or passed the check.
  pub Built-IsValid : (c : GandiConfig) → Built c → IsValid c
  unfolding new with_api_base with_zone with_ttl with_timeout
  Built-IsValid _ (Built.fresh token) = record {
    ttl_low = omega arith;
    ttl_high = omega arith;
    zone = tt;
    base = inl refl;
  }
  Built-IsValid _ (Built.based c d base b e) =
      let h = Built-IsValid c b in
      let (u, checked, same) = >>=-eq-ok (validate_https_base url_parse base provider) _ e in
      let built : record c { api_base = trim_end_matches b'/' base } ≡ d = cc in
      subst IsValid built (record {
        ttl_low = h.ttl_low;
        ttl_high = h.ttl_high;
        zone = h.zone;
        base = inr (base, checked, refl);
      })
  Built-IsValid _ (Built.zoned c d zone b e) =
      let h = Built-IsValid c b in
      let (u, checked, same) = >>=-eq-ok (validate_zone zone) _ e in
      let kept = to_ascii_lowercase (trim_end_matches b'.' zone) in
      let built : record c { zone_override = some kept } ≡ d = cc in
      subst IsValid built (record {
        ttl_low = h.ttl_low;
        ttl_high = h.ttl_high;
        zone = (zone, checked, refl);
        base = h.base;
      })
  Built-IsValid _ (Built.lived c d ttl b e) =
      let h = Built-IsValid c b in
      let (t, checked, same) = >>=-eq-ok (validate_ttl_range ttl 300 2592000) _ e in
      let bounds = (validate_ttl_range_iff ttl 300 2592000 t).0 checked in
      let built : record c { ttl = t } ≡ d = cc in
      subst IsValid built (record {
        ttl_low = omega (arith, bounds);
        ttl_high = omega (arith, bounds);
        zone = h.zone;
        base = h.base;
      })
  Built-IsValid _ (Built.timed c timeout b) =
      let h = Built-IsValid c b in
      record { ttl_low = h.ttl_low; ttl_high = h.ttl_high; zone = h.zone; base = h.base }
