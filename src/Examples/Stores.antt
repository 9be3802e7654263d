-- ===== src/Examples/Stores.antt =====
-- A store by keys, from which the tests build their servers of the providers in src/providers.
use cheti.Prelude.{◌≡◌, ◌≢◌, refl, inl, inr, Bool-cases, if◌then◌else◌}
use cheti.Providers.Sets.Refined.{KeyTest}

module _ {K V : Type 0} (test : KeyTest K) where
  abbrev pub store_at : K → V → (K → V) → K → V
  store_at key value s k = if test.key_eq k key then value else s k

  pub store_at-here : (key : K) (value : V) (s : K → V) → store_at key value s key ≡ value
  store_at-here key value s = rw (test.own key) refl

  pub store_at-other :
      (key : K) (value : V) (s : K → V) (k : K) → k ≢ key → store_at key value s k ≡ s k
  store_at-other key value s k n = elim (Bool-cases (test.key_eq k key)) [
    | inl e ↦ absurd (n (test.sound k key e))
    | inr e ↦ rw e refl
  ]
