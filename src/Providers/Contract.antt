-- ===== src/Providers/Contract.antt =====
-- What the solver relies on of a provider (the trait `DnsProvider` of src/provider.rs): a set of
-- values for each name, to which `present` adds and from which `cleanup` takes away.
use cheti.Prelude.{
  ◌≡◌, ◌∙◌, refl, ap, Bool, true, false, ◌&&◌, ◌||◌, arith, any, if◌then◌else◌, List, [], ◌∷◌,
}
use cheti.Text.{Text, text_eq}
use cheti.Error.{Result, ok, err}
use cheti.Exec.{Exec, Post, ◌>>◌, >>=_rule}

-- The values, as a test: whether the name of this key has this value.
abbrev pub Values : Type 0 → Type 0
Values K = K → Text → Bool

module _ {K : Type 0} (key_eq : K → K → Bool) where
  abbrev pub is_entry : K → Text → K → Text → Bool
  is_entry k v k' v' = key_eq k' k && text_eq v' v

  abbrev pub insert : K → Text → Values K → Values K
  insert k v values k' v' = if is_entry k v k' v' then true else values k' v'

  abbrev pub remove : K → Text → Values K → Values K
  remove k v values k' v' = if is_entry k v k' v' then false else values k' v'

-- A call: `present` or `cleanup` of a value at a name of the type `N`.
pub data Call (N : Type 0) : Type 0 where
  presents cleans : N → Text → Call N

or_false : (a b : Bool) → (a || b) ≡ false → (a ≡ false) × (b ≡ false)
or_false a b h = ground arith

abbrev pub name_of : {N : Type 0} → Call N → N
name_of (presents n v) = n
name_of (cleans n v) = n

abbrev pub value_of : {N : Type 0} → Call N → Text
value_of (presents n v) = v
value_of (cleans n v) = v

module _ {K N : Type 0} (key_eq : K → K → Bool) (key : N → K) where
  abbrev pub is_about : K → Text → Call N → Bool
  is_about k v c = is_entry key_eq (key (name_of c)) (value_of c) k v

  abbrev pub effect : Call N → Values K → Values K
  effect (presents n v) = insert key_eq (key n) v
  effect (cleans n v) = remove key_eq (key n) v

  abbrev pub replay : List (Call N) → Values K → Values K
  replay [] values = values
  replay (c ∷ calls) values = replay calls (effect c values)

  abbrev pub Same : Values K → Values K → Type 0
  Same f g = (k : K) (v : Text) → f k v ≡ g k v

  effect-Same : (c : Call N) (f g : Values K) → Same f g → Same (effect c f) (effect c g)
  effect-Same (presents n v) f g h k w =
      ap (λ (b : Bool). if is_entry key_eq (key n) v k w then true else b) (h k w)
  effect-Same (cleans n v) f g h k w =
      ap (λ (b : Bool). if is_entry key_eq (key n) v k w then false else b) (h k w)

  effect_other :
      (c : Call N) (f : Values K) (k : K) (v : Text)
      → is_about k v c ≡ false
      → effect c f k v ≡ f k v
  effect_other (presents n w) f k v e = rw e refl
  effect_other (cleans n w) f k v e = rw e refl

  module _ {S : Type 0} (holds : S → Values K) where
    -- A call that succeeds has its effect, and one that fails changes its own entry at most.
    abbrev pub Does : Call N → S → Post S (Unit {0})
    Does c s (ok u) s' = Same (holds s') (effect c (holds s))
    Does c s (err e) s' = (k : K) (v : Text) → is_about k v c ≡ false → holds s' k v ≡ holds s k v

    module _ (present cleanup : N → Text → Exec S (Unit {0})) where
      abbrev pub perform : Call N → Exec S (Unit {0})
      perform (presents n v) = present n v
      perform (cleans n v) = cleanup n v

      pub record Provider : Type 0 where
        pub does : (c : Call N) (s : S) → Does c s (perform c s).0 (perform c s).1

      -- Calls one after the other, until one fails.
      abbrev pub run : List (Call N) → Exec S (Unit {0})
      run [] s = (ok tt, s)
      run (c ∷ calls) s = (perform c >> run calls) s

      -- After calls that all succeed, the values are those of the calls replayed; after a failure,
      -- the entries that no call is about are as they were.
      abbrev pub Replayed : List (Call N) → Values K → Post S (Unit {0})
      Replayed calls values (ok u) s' = Same (holds s') (replay calls values)
      Replayed calls values (err e) s' =
          (k : K) (v : Text) → any (is_about k v) calls ≡ false → holds s' k v ≡ values k v

      module _ (provider : Provider) where
        then_Replayed :
            (c : Call N) (calls : List (Call N)) (values : Values K) (r : Result (Unit {0})) (s : S)
            → Replayed calls (effect c values) r s
            → Replayed (c ∷ calls) values r s
        then_Replayed c calls values (ok u) s h = h
        then_Replayed c calls values (err e) s h = λ k v n.
            let (own, rest) = or_false (is_about k v c) (any (is_about k v) calls) n in
            h k v rest ∙ effect_other c values k v own

        pub run-Replayed :
            (calls : List (Call N)) (values : Values K) (s : S)
            → Same (holds s) values
            → Replayed calls values (run calls s).0 (run calls s).1
        run-Replayed [] values s h = h
        run-Replayed (c ∷ calls) values s h =
            >>=_rule (Does c s) (Replayed (c ∷ calls) values) (perform c) (λ u. run calls) s
              (provider.does c s)
              (λ e t d k v n.
                d k v (or_false (is_about k v c) (any (is_about k v) calls) n).0 ∙ h k v)
              (λ u t d. then_Replayed c calls values _ _ (
                run-Replayed calls (effect c values) t
                  (λ k v. d k v ∙ effect-Same c (holds s) values h k v)))

      -- What every call keeps, a run of calls keeps.
      pub run-Keeps :
          (I : S → Type 0)
          → ((c : Call N) (s : S) → I s → I (perform c s).1)
          → (calls : List (Call N)) (s : S) → I s
          → I (run calls s).1
      run-Keeps I keeps [] s i = i
      run-Keeps I keeps (c ∷ calls) s i =
          >>=_rule (λ r t. I t) (λ r t. I t) (perform c) (λ u. run calls) s (keeps c s i)
            (λ e t j. j) (λ u t j. run-Keeps I keeps calls t j)
