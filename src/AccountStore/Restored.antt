-- ===== src/AccountStore/Restored.antt =====
-- What src/account_store.rs loads after it has saved.
use cheti.Prelude.{ℕ, ◌≡◌, refl, Option, none, some, List, []}
use cheti.Error.{Result, ok, err}
use cheti.Exec.{Post}
use cheti.Dns.Client.{Reply, answered, failed}
use cheti.AccountStore.{PathBuf, ReadReply, bytes, not_found, Files, load, save}
use cheti.AccountStore.Atomic.{View, FileSystem, recorded, Saved, save-Saved}

abbrev pub reply_of : Option (List ℕ) → ReadReply
reply_of none = not_found
reply_of (some b) = bytes b

-- A read gives the contents, and JSON is read back as it was written.
pub record Reads {W C : Type 0} (files : Files W C) (view : View W) : Type 0 where
  pub contents : (p : PathBuf) (w : W) → files.read p w ≡ reply_of (view w p)
  pub parsed : (c : C) (b : List ℕ) → files.to_vec c ≡ answered b → files.from_slice b ≡ answered c

module _ {W C : Type 0} (files : Files W C) (view : View W) (fs : FileSystem files view)
    (reads : Reads files view) (path : PathBuf) where
  -- With `before` what was loaded before.
  abbrev pub LoadsBack : C → Result (Option C) → Post (W × List W) (Unit {0})
  LoadsBack c before (err e) s = load files path s.0 ≡ before
  LoadsBack c before (ok u) s = load files path s.0 ≡ ok (some c)

  load_same : (w w' : W) → view w' path ≡ view w path → load files path w' ≡ load files path w
  unfolding load
  load_same w w' h = rw (reads.contents path w, reads.contents path w', h) refl

  load_bytes :
      (c : C) (b : List ℕ) (w : W)
      → files.to_vec c ≡ answered b
      → view w path ≡ some b
      → load files path w ≡ ok (some c)
  unfolding load
  load_bytes c b w e h = rw (reads.contents path w, h, reads.parsed c b e) refl

  Saved-LoadsBack :
      (c : C) (b : List ℕ) (w : W) (r : Result (Unit {0})) (s : W × List W)
      → files.to_vec c ≡ answered b
      → Saved view path (view w path) b r s
      → LoadsBack c (load files path w) r s
  Saved-LoadsBack c b w (err x) s e h = load_same w s.0 h.0
  Saved-LoadsBack c b w (ok u) s e h = load_bytes c b s.0 e h.0

  -- On a file system that changes only the file that a call is about (the record `FileSystem`) and
  -- gives back its contents, with JSON that is read back (the record `Reads`): `load` after `save`
  -- gives the credentials if `save` succeeded, and what it gave before if `save` failed.
  pub load-save :
      (credentials : C) (w : W)
      → let done = save (recorded files) path credentials (w, []) in
        LoadsBack credentials (load files path w) done.0 done.1
  unfolding save
  load-save credentials w = by_reply (files.to_vec credentials) refl
    where
      by_reply :
          (r : Reply (List ℕ))
          → files.to_vec credentials ≡ r
          → let done = save (recorded files) path credentials (w, []) in
            LoadsBack credentials (load files path w) done.0 done.1
      by_reply (failed x) e = rw e refl
      by_reply (answered b) e =
          Saved-LoadsBack credentials b w _ _ e (save-Saved files view fs path credentials b w e)
