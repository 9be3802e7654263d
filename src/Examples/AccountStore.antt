-- ===== src/Examples/AccountStore.antt =====
-- A file system in memory for the store of src/account_store.rs.
use cheti.Prelude.{
  ℕ, suc, ◌≡◌, ◌≢◌, refl, sym, Bool, true, false, ◌&&◌, &&-eq_true, Bool-cases, inl, inr,
  if◌then◌else◌, Option, none, some, List, [], ◌∷◌, ◌++◌,
}
use cheti.Text.{Text, text_eq}
use cheti.Text.Suffix.{text_eq_refl, text_eq_sound}
use cheti.Error.{Result}
use cheti.Dns.Client.{Reply, answered, failed}
use cheti.AccountStore.{PathBuf, Files, load, save}
use cheti.AccountStore.Atomic.{View, FileSystem, recorded, Saved, save-Saved}
use cheti.AccountStore.Restored.{reply_of, Reads, LoadsBack, load-save}

abbrev path_eq : PathBuf → PathBuf → Bool
path_eq [] [] = true
path_eq [] (d ∷ ds) = false
path_eq (c ∷ cs) [] = false
path_eq (c ∷ cs) (d ∷ ds) = text_eq c d && path_eq cs ds

path_eq_refl : (p : PathBuf) → path_eq p p ≡ true
path_eq_refl [] = refl
path_eq_refl (c ∷ cs) = rw (text_eq_refl c) (path_eq_refl cs)

path_eq_sound : (p q : PathBuf) → path_eq p q ≡ true → p ≡ q
path_eq_sound [] [] h = refl
path_eq_sound [] (d ∷ ds) h = cc
path_eq_sound (c ∷ cs) [] h = cc
path_eq_sound (c ∷ cs) (d ∷ ds) h =
    let both = &&-eq_true (text_eq c d) (path_eq cs ds) h in
    cc (text_eq_sound c d both.0, path_eq_sound cs ds both.1)

-- The counter of temporary files, and the contents.
abbrev Disk : Type 0
Disk = ℕ × (PathBuf → Option (List ℕ))

abbrev view : View Disk
view w = w.1

abbrev put_file : PathBuf → Option (List ℕ) → Disk → Disk
put_file t b w = (w.0, λ p. if path_eq p t then b else w.1 p)

abbrev opened_new : PathBuf → Option (List ℕ) → Disk → Reply (Unit {0}) × Disk
opened_new t none w = (answered tt, put_file t (some []) w)
opened_new t (some b) w = (failed [], w)

abbrev appended : PathBuf → List ℕ → Option (List ℕ) → Disk → Reply (Unit {0}) × Disk
appended t b none w = (failed [], w)
appended t b (some c) w = (answered tt, put_file t (some (c ++ b)) w)

abbrev moved : PathBuf → PathBuf → Option (List ℕ) → Disk → Reply (Unit {0}) × Disk
moved t p none w = (failed [], w)
moved t p (some b) w = (answered tt, put_file p (some b) (put_file t none w))

abbrev files : Files Disk (List ℕ)
files = record {
  read = λ p w. reply_of (w.1 p);
  create_dir_all = λ p w. (answered tt, w);
  open_new = λ t w. opened_new t (w.1 t) w;
  write_all = λ t b w. appended t b (w.1 t) w;
  sync_all = λ t w. (answered tt, w);
  rename = λ t p w. moved t p (w.1 t) w;
  remove_file = λ t w. (answered tt, put_file t none w);
  fetch_add = λ w. (w.0, (suc w.0, w.1));
  process_id = 7;
  display = λ p. [];
  to_vec = λ c. answered c;
  from_slice = λ b. answered b;
}

put_here : (t : PathBuf) (b : Option (List ℕ)) (w : Disk) → (put_file t b w).1 t ≡ b
put_here t b w = rw (path_eq_refl t) refl

put_other : (t p : PathBuf) (b : Option (List ℕ)) (w : Disk) → p ≢ t → (put_file t b w).1 p ≡ w.1 p
put_other t p b w n = elim (Bool-cases (path_eq p t)) [
  | inl e ↦ absurd (n (path_eq_sound p t e))
  | inr e ↦ rw e refl
]

opened_other :
    (t p : PathBuf) (o : Option (List ℕ)) (w : Disk) → p ≢ t → (opened_new t o w).1.1 p ≡ w.1 p
opened_other t p none w n = put_other t p (some []) w n
opened_other t p (some b) w n = refl

opened_here :
    (t : PathBuf) (o : Option (List ℕ)) (w : Disk)
    → (opened_new t o w).0 ≡ answered tt
    → (opened_new t o w).1.1 t ≡ some []
opened_here t none w h = put_here t (some []) w
opened_here t (some b) w h = cc

appended_other :
    (t p : PathBuf) (b : List ℕ) (o : Option (List ℕ)) (w : Disk)
    → p ≢ t
    → (appended t b o w).1.1 p ≡ w.1 p
appended_other t p b none w n = refl
appended_other t p b (some c) w n = put_other t p (some (c ++ b)) w n

appended_here :
    (t : PathBuf) (b : List ℕ) (o : Option (List ℕ)) (w : Disk)
    → o ≡ some []
    → (appended t b o w).1.1 t ≡ some b
appended_here t b none w h = cc
appended_here t b (some []) w h = put_here t (some b) w
appended_here t b (some (c ∷ cs)) w h = cc

moved_here :
    (t p : PathBuf) (o : Option (List ℕ)) (w : Disk)
    → (moved t p o w).0 ≡ answered tt
    → (moved t p o w).1.1 p ≡ o
moved_here t p none w h = cc
moved_here t p (some b) w h = put_here p (some b) (put_file t none w)

moved_not :
    (t p : PathBuf) (o : Option (List ℕ)) (w : Disk) (e : Text)
    → (moved t p o w).0 ≡ failed e
    → (moved t p o w).1.1 p ≡ w.1 p
moved_not t p none w e h = refl
moved_not t p (some b) w e h = cc

file_system : FileSystem files view
file_system = record {
  created = λ dir p w. refl;
  counted = λ p w. refl;
  opened_others = λ t p w n. opened_other t p (w.1 t) w n;
  opened = λ t w h. opened_here t (w.1 t) w h;
  written_others = λ t p b w n. appended_other t p b (w.1 t) w n;
  written = λ t b w h a. appended_here t b (w.1 t) w h;
  synced = λ t p w. refl;
  removed_others = λ t p w n. put_other t p none w n;
  renamed = λ t p w h. moved_here t p (w.1 t) w h;
  not_renamed = λ t p w e h. moved_not t p (w.1 t) w e h;
}

abbrev store : PathBuf
store = (b'd' ∷ []) ∷ (b'a' ∷ []) ∷ []

abbrev account : List ℕ
account = 1 ∷ 2 ∷ 3 ∷ []

-- A disk with an old file of the store and nothing else.
abbrev disk : Disk
disk = put_file store (some (9 ∷ [])) (0, λ p. none)

save-Saved_example :
    let done : Result (Unit {0}) × (Disk × List Disk) =
      save (recorded files) store account (disk, []) in
    Saved view store (view disk store) account done.0 done.1
save-Saved_example = save-Saved files view file_system store account account disk refl

reads : Reads files view
reads = record { contents = λ p w. refl; parsed = λ c b e. sym e }

load-save_example :
    let done : Result (Unit {0}) × (Disk × List Disk) =
      save (recorded files) store account (disk, []) in
    LoadsBack files view file_system reads store account (load files store disk) done.0 done.1
load-save_example = load-save files view file_system reads store account disk
