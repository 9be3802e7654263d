-- ===== src/AccountStore/Atomic.antt =====
-- A crash while src/account_store.rs saves leaves the old file or the new one, whole.
use cheti.Prelude.{ℕ, ◌≡◌, ◌≢◌, ◌∙◌, refl, ◌⊎◌, inl, inr, Option, some, List, [], ◌∷◌, ◌++◌, All}
use cheti.Text.{Text, text}
use cheti.Error.{ok, err, storage, ok_or}
use cheti.Exec.{Post, >>=_rule, lift_rule}
use cheti.Dns.Client.{Reply, answered, failed}
use cheti.AccountStore.{
  PathBuf, Files, parent, temp_name, unique_temp_path, and_io, write_private, or_remove, write_temp,
  rename_temp, create_parent, replace, save, storage_error,
}
use cheti.AccountStore.Paths.{temp_name-ne}

-- The contents of a path; `none` where there is no file.
abbrev pub View : Type 0 → Type 0
View W = W → PathBuf → Option (List ℕ)

-- What the file system does: a call changes the file that it is about at most.
pub record FileSystem {W C : Type 0} (files : Files W C) (view : View W) : Type 0 where
  pub created : (dir p : PathBuf) (w : W) → view (files.create_dir_all dir w).1 p ≡ view w p
  pub counted : (p : PathBuf) (w : W) → view (files.fetch_add w).1 p ≡ view w p
  pub opened_others : (t p : PathBuf) (w : W) → p ≢ t → view (files.open_new t w).1 p ≡ view w p
  -- A file that is opened is new, hence empty.
  pub opened :
      (t : PathBuf) (w : W)
      → (files.open_new t w).0 ≡ answered tt
      → view (files.open_new t w).1 t ≡ some []
  pub written_others :
      (t p : PathBuf) (b : List ℕ) (w : W) → p ≢ t → view (files.write_all t b w).1 p ≡ view w p
  pub written :
      (t : PathBuf) (b : List ℕ) (w : W)
      → view w t ≡ some []
      → (files.write_all t b w).0 ≡ answered tt
      → view (files.write_all t b w).1 t ≡ some b
  pub synced : (t p : PathBuf) (w : W) → view (files.sync_all t w).1 p ≡ view w p
  pub removed_others : (t p : PathBuf) (w : W) → p ≢ t → view (files.remove_file t w).1 p ≡ view w p
  pub renamed :
      (t p : PathBuf) (w : W)
      → (files.rename t p w).0 ≡ answered tt
      → view (files.rename t p w).1 p ≡ view w t
  pub not_renamed :
      (t p : PathBuf) (w : W) (e : Text)
      → (files.rename t p w).0 ≡ failed e
      → view (files.rename t p w).1 p ≡ view w p

-- The state after a call goes into the log.
abbrev logged : {A W : Type 0} → A × W → List W → A × (W × List W)
logged (a, w) log = (a, (w, w ∷ log))

module _ {W C : Type 0} where
  -- The files, with a log of the states after each call, the newest first.
  abbrev pub recorded : Files W C → Files (W × List W) C
  recorded files = record {
    read = λ p s. files.read p s.0;
    create_dir_all = λ p s. logged (files.create_dir_all p s.0) s.1;
    open_new = λ p s. logged (files.open_new p s.0) s.1;
    write_all = λ p b s. logged (files.write_all p b s.0) s.1;
    sync_all = λ p s. logged (files.sync_all p s.0) s.1;
    rename = λ p q s. logged (files.rename p q s.0) s.1;
    remove_file = λ p s. logged (files.remove_file p s.0) s.1;
    fetch_add = λ s. logged (files.fetch_add s.0) s.1;
    process_id = files.process_id;
    display = files.display;
    to_vec = files.to_vec;
    from_slice = files.from_slice;
  }

module _ {W : Type 0} (view : View W) (path : PathBuf) (old : Option (List ℕ)) where
  -- A state in which the file is the old one, or the new one of these bytes.
  abbrev pub IsWhole : List ℕ → W → Type 0
  IsWhole b w = (view w path ≡ old) ⊎ (view w path ≡ some b)

  abbrev pub Saved : List ℕ → Post (W × List W) (Unit {0})
  Saved b (err x) s = (view s.0 path ≡ old) × All (IsWhole b) s.1
  Saved b (ok u) s = (view s.0 path ≡ some b) × All (IsWhole b) s.1

module _ {W C : Type 0} (files : Files W C) (view : View W) (fs : FileSystem files view)
    (path : PathBuf) (old : Option (List ℕ)) where
  -- The file is still the old one, and all states so far were whole.
  abbrev Untouched : List ℕ → W × List W → Type 0
  Untouched b s = (view s.0 path ≡ old) × All (IsWhole view path old b) s.1

  keeps :
      (b : List ℕ) (s : W × List W) (w : W)
      → Untouched b s
      → view w path ≡ view s.0 path
      → Untouched b (w, w ∷ s.1)
  keeps b s w u h = (h ∙ u.0, (inl (h ∙ u.0), u.1))

  -- The temporary file is being written: after a success it has the contents `c`.
  abbrev FilledBy : PathBuf → List ℕ → List ℕ → Reply (Unit {0}) → W × List W → Type 0
  FilledBy t b c (failed e) s = Untouched b s
  FilledBy t b c (answered u) s = Untouched b s × (view s.0 t ≡ some c)

  filled :
      (t : PathBuf) (b c : List ℕ) (s : W × List W) (w : W) (r real : Reply (Unit {0}))
      → Untouched b s
      → view w path ≡ view s.0 path
      → (real ≡ answered tt → view w t ≡ some c)
      → real ≡ r
      → FilledBy t b c r (w, w ∷ s.1)
  filled t b c s w (failed e) real u h f q = keeps b s w u h
  filled t b c s w (answered x) real u h f q = (keeps b s w u h, f q)

  and_io_rule :
      (P Q : Reply (Unit {0}) → W × List W → Type 0) (r : Reply (Unit {0})) (s : W × List W)
      (next : W × List W → Reply (Unit {0}) × (W × List W))
      → P r s
      → ((e : Text) → P (failed e) s → Q (failed e) s)
      → (P (answered tt) s → Q (next s).0 (next s).1)
      → Q (and_io (r, s) next).0 (and_io (r, s) next).1
  and_io_rule P Q (failed e) s next h fails goes = fails e h
  and_io_rule P Q (answered u) s next h fails goes = goes h

  write_private-Filled :
      (t : PathBuf) (b : List ℕ) (s : W × List W)
      → path ≢ t
      → Untouched b s
      → let done = write_private (recorded files) path t b s in FilledBy t b b done.0 done.1
  unfolding write_private
  write_private-Filled t b s n u =
      let fs' = recorded files in
      and_io_rule (FilledBy t b []) (FilledBy t b b) (fs'.open_new t s).0 (fs'.open_new t s).1 _
        (filled t b [] s (files.open_new t s.0).1 (files.open_new t s.0).0 (files.open_new t s.0).0
          u (fs.opened_others t path s.0 n) (fs.opened t s.0) refl)
        (λ e h. h)
        (λ h1.
          let s1 = (fs'.open_new t s).1 in
          and_io_rule (FilledBy t b b) (FilledBy t b b) (fs'.write_all t b s1).0
            (fs'.write_all t b s1).1 _
            (filled t b b s1 (files.write_all t b s1.0).1 (files.write_all t b s1.0).0
              (files.write_all t b s1.0).0 h1.0 (fs.written_others t path b s1.0 n)
              (fs.written t b s1.0 h1.1) refl)
            (λ e h. h)
            (λ h2.
              let s2 = (fs'.write_all t b s1).1 in
              filled t b b s2 (files.sync_all t s2.0).1 (files.sync_all t s2.0).0
                (files.sync_all t s2.0).0 h2.0 (fs.synced t path s2.0)
                (λ q. fs.synced t t s2.0 ∙ h2.1) refl))

  removed :
      (t : PathBuf) (b : List ℕ) (s : W × List W)
      → path ≢ t
      → Untouched b s
      → Untouched b ((recorded files).remove_file t s).1
  removed t b s n u = keeps b s (files.remove_file t s.0).1 u (fs.removed_others t path s.0 n)

  abbrev Temp : PathBuf → List ℕ → Post (W × List W) (Unit {0})
  Temp t b (err x) s = Untouched b s
  Temp t b (ok u) s = Untouched b s × (view s.0 t ≡ some b)

  or_remove-Temp :
      (t : PathBuf) (label : Text) (b : List ℕ) (r : Reply (Unit {0})) (s : W × List W)
      → path ≢ t
      → FilledBy t b b r s
      → let done = or_remove (recorded files) path t label (r, s) in Temp t b done.0 done.1
  or_remove-Temp t label b (answered u) s n h = h
  or_remove-Temp t label b (failed e) s n h = removed t b s n h

  write_temp-Temp :
      (t : PathBuf) (b : List ℕ) (s : W × List W)
      → path ≢ t
      → Untouched b s
      → Temp t b
          (write_temp (recorded files) path t b s).0
          (write_temp (recorded files) path t b s).1
  unfolding write_temp
  write_temp-Temp t b s n u =
      or_remove-Temp t _ b (write_private (recorded files) path t b s).0
        (write_private (recorded files) path t b s).1 n (write_private-Filled t b s n u)

  or_remove-Saved :
      (t : PathBuf) (label : Text) (b : List ℕ) (w : W) (s : W × List W) (r real : Reply (Unit {0}))
      → path ≢ t
      → Untouched b s
      → (real ≡ answered tt → view w path ≡ some b)
      → ((e : Text) → real ≡ failed e → view w path ≡ view s.0 path)
      → real ≡ r
      → let done = or_remove (recorded files) path t label (r, (w, w ∷ s.1)) in
        Saved view path old b done.0 done.1
  or_remove-Saved t label b w s (answered x) real n u f g q = (f q, (inr (f q), u.1))
  or_remove-Saved t label b w s (failed e) real n u f g q =
      removed t b (w, w ∷ s.1) n (keeps b s w u (g e q))

  rename_temp-Saved :
      (t : PathBuf) (b : List ℕ) (s : W × List W)
      → path ≢ t
      → Untouched b s
      → view s.0 t ≡ some b
      → Saved view path old b
          (rename_temp (recorded files) path t s).0
          (rename_temp (recorded files) path t s).1
  unfolding rename_temp
  rename_temp-Saved t b s n u f =
      or_remove-Saved t _ b (files.rename t path s.0).1 s (files.rename t path s.0).0
        (files.rename t path s.0).0 n u (λ q. fs.renamed t path s.0 q ∙ f)
        (λ e q. fs.not_renamed t path s.0 e q) refl

  replace-Saved :
      (b : List ℕ) (s : W × List W)
      → Untouched b s
      → Saved view path old b
          (replace (recorded files) path b s).0
          (replace (recorded files) path b s).1
  unfolding replace unique_temp_path
  replace-Saved b s u =
      let t = temp_name (recorded files) path (files.fetch_add s.0).0 in
      let n = temp_name-ne (recorded files) path (files.fetch_add s.0).0 in
      let s1 = ((recorded files).fetch_add s).1 in
      >>=_rule (Temp t b) (Saved view path old b) (write_temp (recorded files) path t b)
        (λ x. rename_temp (recorded files) path t) s1
        (write_temp-Temp t b s1 n (keeps b s (files.fetch_add s.0).1 u (fs.counted path s.0)))
        (λ e s' h. h) (λ x s' h. rename_temp-Saved t b s' n h.0 h.1)

  abbrev Kept : List ℕ → Post (W × List W) (Unit {0})
  Kept b r s = Untouched b s

  created_reply :
      (label : Text) (b : List ℕ) (s : W × List W) (r : Reply (Unit {0}))
      → Untouched b s
      → Kept b (storage_error label r) s
  created_reply label b s (answered x) u = u
  created_reply label b s (failed e) u = u

  create_parent-Kept :
      (dir : PathBuf) (b : List ℕ) (s : W × List W)
      → Untouched b s
      → Kept b
          (create_parent (recorded files) path dir s).0
          (create_parent (recorded files) path dir s).1
  unfolding create_parent
  create_parent-Kept [] b s u = u
  create_parent-Kept (d ∷ ds) b s u =
      created_reply (text "create parent " ++ (files.display (d ∷ ds) ++ text ": ")) b
        ((files.create_dir_all (d ∷ ds) s.0).1, (files.create_dir_all (d ∷ ds) s.0).1 ∷ s.1)
        (files.create_dir_all (d ∷ ds) s.0).0
        (keeps b s (files.create_dir_all (d ∷ ds) s.0).1 u (fs.created (d ∷ ds) path s.0))

-- On a file system that changes only the file that a call is about (the record `FileSystem`),
-- whatever fails while credentials are saved: in every state after a call of the file system the
-- file of the store is the one before, or whole with the new bytes; it is the one before if `save`
-- reports an error, and has the new bytes if it succeeds.
pub save-Saved :
    {W C : Type 0} (files : Files W C) (view : View W)
    → FileSystem files view
    → (path : PathBuf) (credentials : C) (b : List ℕ) (w : W)
    → files.to_vec credentials ≡ answered b
    → let done = save (recorded files) path credentials (w, []) in
      Saved view path (view w path) b done.0 done.1
unfolding save
save-Saved files view fs path credentials b w e =
    let Q = Saved view path (view w path) b in
    rw e (
      lift_rule Q
        (ok_or (storage (text "account store path has no parent: " ++ files.display path))
          (parent path))
        _ (w, []) (λ x q. (refl, tt))
        (λ dir q.
          >>=_rule (Kept files view fs path (view w path) b) Q
            (create_parent (recorded files) path dir) (λ u. replace (recorded files) path b) (w, [])
            (create_parent-Kept files view fs path (view w path) dir b (w, []) (refl, tt))
            (λ x s h. h) (λ u s h. replace-Saved files view fs path (view w path) b s h)))
