-- ===== src/Exec.antt =====
-- Calls that change the world outside (an HTTP server, the clock) and may fail. What was done
-- before an error stays done, so the world comes back beside the error too.
use cheti.Prelude.{◌≡◌, refl}
use cheti.Error.{DnsError, Result, ok, err}

abbrev pub Exec : Type 0 → Type 0 → Type 0
Exec W A = W → Result A × W

module _ {W A B : Type 0} where
  abbrev continue : Result A → (A → Exec W B) → Exec W B
  continue (ok a) f w = f a w
  continue (err e) f w = (err e, w)

  -- `.await?`
  infixl 10 ◌>>=◌ ◌>>◌
  abbrev pub ◌>>=◌ : Exec W A → (A → Exec W B) → Exec W B
  ◌>>=◌ m f w = continue (m w).0 f (m w).1

  abbrev pub ◌>>◌ : Exec W A → Exec W B → Exec W B
  m >> k = m >>= λ _. k

module _ {W A : Type 0} where
  abbrev pub pure : A → Exec W A
  pure a w = (ok a, w)

  abbrev pub fail : DnsError → Exec W A
  fail e w = (err e, w)

  -- A pure step.
  abbrev pub lift : Result A → Exec W A
  lift r w = (r, w)

-- What a call makes true of its result and of the world after it.
abbrev pub Post : Type 0 → Type 0 → Type 1
Post W A = Result A → W → Type 0

module _ {W A B : Type 0} where
  -- Where the first step makes `P` true and the second takes `P` to `Q`, both together make `Q`
  -- true; an error of the first step ends the call.
  pub >>=_rule :
      (P : Post W A) (Q : Post W B) (m : Exec W A) (f : A → Exec W B) (w : W)
      → P (m w).0 (m w).1
      → ((e : DnsError) (w' : W) → P (err e) w' → Q (err e) w')
      → ((a : A) (w' : W) → P (ok a) w' → Q (f a w').0 (f a w').1)
      → Q ((m >>= f) w).0 ((m >>= f) w).1
  >>=_rule P Q m f w h fails goes = go (m w).0 (m w).1 h
    where
      go : (r : Result A) (w' : W) → P r w' → Q (continue r f w').0 (continue r f w').1
      go (ok a) w' h = goes a w' h
      go (err e) w' h = fails e w' h

module _ {W A B : Type 0} where
  -- A pure step leaves the world as it is.
  pub lift_rule :
      (Q : Post W B) (r : Result A) (f : A → Exec W B) (w : W)
      → ((e : DnsError) → r ≡ err e → Q (err e) w)
      → ((a : A) → r ≡ ok a → Q (f a w).0 (f a w).1)
      → Q ((lift r >>= f) w).0 ((lift r >>= f) w).1
  lift_rule Q (ok a) f w fails goes = goes a refl
  lift_rule Q (err e) f w fails goes = fails e refl

-- A call that keeps `I` true, whatever it returns.
module _ {W : Type 0} (I : W → Type 0) where
  abbrev pub Keeps : {A : Type 0} → Exec W A → Type 0
  Keeps m = (w : W) → I w → I (m w).1

module _ {W A B : Type 0} (I : W → Type 0) where
  pub Keeps-bind :
      (m : Exec W A) (f : A → Exec W B) (w : W)
      → I (m w).1
      → ((a : A) → Keeps I (f a))
      → I ((m >>= f) w).1
  Keeps-bind m f w i h = go (m w).0 (m w).1 i
    where
      go : (r : Result A) (w' : W) → I w' → I ((lift r >>= f) w').1
      go (ok a) w' i = h a w' i
      go (err e) w' i = i
