-- ===== src/Providers/Records.antt =====
-- What the providers that keep one record per value (src/providers/digitalocean.rs and
-- src/providers/cloudflare.rs) rely on of their APIs: the TXT records of each name, each with a URL
-- of its own, which nobody else writes to in the meantime.
pub mod Filters
pub mod Deleted
pub mod Removes
pub mod Adds
use cheti.Prelude.{
  ℕ, ◌≡◌, ◌≢◌, ◌⊎◌, Bool, true, false, not, ◌||◌, some, List, [], ◌∷◌, ◌++◌, ◌==◌, if◌then◌else◌,
  All, any, keep,
}
use cheti.Text.{Text, text_eq}
use cheti.Error.{ok}
use cheti.Exec.{Exec, ◌>>◌}
use cheti.Common.Retry.{Request, Transport, post, delete}
use cheti.Providers.Http.{is_success}
use cheti.Providers.Writes.{SameBut, Same, Steady}

-- The records of a name, under a key made of the collection's URL and the name.
abbrev pub Key : Type 0
Key = Text × Text

-- `for rec in existing { if … { self.delete_record(…).await?; } }`
unfoldable pub delete_each :
    {S R : Type 0} → (R → Bool) → (R → Exec S (Unit {0})) → List R → Exec S (Unit {0})
delete_each matches delete_record [] s = (ok tt, s)
delete_each matches delete_record (x ∷ xs) s =
    let rest = delete_each matches delete_record xs in
    (if matches x then delete_record x >> rest else rest) s

module _ {S R P B : Type 0} (view : S → Key → List R) (api : Transport S P B) where
  -- A POST adds at most one record with the content of its body, under the key of the body. A
  -- success means that it is there, and a 429 (too many requests) that nothing has been done.
  pub record Posts (key_of : Text → P → Key) (carries : P → R → Bool) : Type 0 where
    pub not_idempotent : api.is_idempotent post ≡ false
    pub post_others :
        (r : Request P) (s : S) (b : P)
        → r.method ≡ post
        → r.payload ≡ some b
        → SameBut view (key_of r.url b) s (api.send r s).1
    pub post_here :
        (r : Request P) (s : S) (b : P)
        → r.method ≡ post
        → r.payload ≡ some b
        → (view (api.send r s).1 (key_of r.url b) ≡ view s (key_of r.url b))
          ⊎ (x : R) × (carries b x ≡ true)
            × (view (api.send r s).1 (key_of r.url b) ≡ view s (key_of r.url b) ++ (x ∷ []))
    pub post_done :
        (r : Request P) (s : S) (b : P) (a : _)
        → r.method ≡ post
        → r.payload ≡ some b
        → (api.send r s).0 ≡ ok a
        → is_success a.status ≡ true
        → (x : R) × (carries b x ≡ true)
          × (view (api.send r s).1 (key_of r.url b) ≡ view s (key_of r.url b) ++ (x ∷ []))
    pub post_refused :
        (r : Request P) (s : S) (a : _)
        → r.method ≡ post
        → (api.send r s).0 ≡ ok a
        → (a.status == 429) ≡ true
        → Same view s (api.send r s).1

module _ {S R : Type 0} (view : S → Key → List R) (item : Key → R → Text) where
  -- The record at the URL.
  abbrev pub is_at : Key → Text → R → Bool
  is_at k url y = text_eq (item k y) url

  abbrev pub without : Text → Key → List R → List R
  without url k = keep (λ y. not (is_at k url y))

  -- No two records have the same URL.
  abbrev pub Distinct : S → Type 0
  Distinct s =
      (k k' : Key)
      → All (λ y. All (λ x. is_at k (item k' x) y ≡ true → (k ≡ k') × (y ≡ x)) (view s k'))
          (view s k)

  module _ {P B : Type 0} (api : Transport S P B) where
    -- A DELETE removes at most the record at its URL. A success or a 404 means that it is gone.
    pub record Deletes : Type 0 where
      pub delete_here :
          (r : Request P) (s : S) (k : Key)
          → r.method ≡ delete
          → (view (api.send r s).1 k ≡ view s k)
            ⊎ (view (api.send r s).1 k ≡ without r.url k (view s k))
      pub delete_done :
          (r : Request P) (s : S) (a : _)
          → r.method ≡ delete
          → (api.send r s).0 ≡ ok a
          → (is_success a.status || (a.status == 404)) ≡ true
          → (k : Key) → view (api.send r s).1 k ≡ without r.url k (view s k)

    pub record Server (key_of : Text → P → Key) (carries : P → R → Bool) : Type 0 where
      pub steady : Steady view api
      pub deletes : Deletes
      pub posts : Posts view api key_of carries
