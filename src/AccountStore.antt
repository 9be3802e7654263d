-- ===== src/AccountStore.antt =====
-- src/account_store.rs: account credentials in a file. A path is the list of its components, all of
-- them names.
pub mod Paths
pub mod Atomic
pub mod Restored
use cheti.Prelude.{ℕ, suc, Option, none, some, List, [], ◌∷◌, ◌++◌, if◌then◌else◌}
use cheti.Text.{Text, text, is_empty, decimal}
use cheti.Error.{DnsError, Result, ok, err, storage, ok_or}
use cheti.Exec.{Exec, ◌>>=◌, ◌>>◌, lift, pure}
use cheti.Dns.Client.{Reply, answered, failed}

abbrev pub PathBuf : Type 0
PathBuf = List Text

-- `Path::parent`, `file_name` and `with_file_name`.
pub parent : PathBuf → Option PathBuf
parent [] = none
parent (c ∷ []) = some []
parent (c ∷ d ∷ cs) = elim (parent (d ∷ cs)) [ none ↦ none | some p ↦ some (c ∷ p) ]

pub file_name : PathBuf → Text
file_name [] = []
file_name (c ∷ []) = c
file_name (c ∷ d ∷ cs) = file_name (d ∷ cs)

pub with_file_name : Text → PathBuf → PathBuf
with_file_name name [] = name ∷ []
with_file_name name (c ∷ []) = name ∷ []
with_file_name name (c ∷ d ∷ cs) = c ∷ with_file_name name (d ∷ cs)

pub data ReadReply : Type 0 where
  bytes : List ℕ → ReadReply
  not_found : ReadReply
  read_failed : Text → ReadReply

-- The calls of the file system, in the state `W`; the process id and the counter of temporary
-- files; and JSON.
pub record Files (W C : Type 0) : Type 0 where
  pub read : PathBuf → W → ReadReply
  pub create_dir_all : PathBuf → W → Reply (Unit {0}) × W
  -- With `create_new` and the mode 0600.
  pub open_new : PathBuf → W → Reply (Unit {0}) × W
  pub write_all : PathBuf → List ℕ → W → Reply (Unit {0}) × W
  pub sync_all : PathBuf → W → Reply (Unit {0}) × W
  pub rename : PathBuf → PathBuf → W → Reply (Unit {0}) × W
  pub remove_file : PathBuf → W → Reply (Unit {0}) × W
  pub fetch_add : W → ℕ × W
  pub process_id : ℕ
  pub display : PathBuf → Text
  pub to_vec : C → Reply (List ℕ)
  pub from_slice : List ℕ → Reply C

-- `map_err` into `DnsError::Storage`.
abbrev pub storage_error : {A : Type 0} → Text → Reply A → Result A
storage_error label (answered a) = ok a
storage_error label (failed e) = err (storage (label ++ e))

module _ {W : Type 0} where
  abbrev pub and_io : Reply (Unit {0}) × W → (W → Reply (Unit {0}) × W) → Reply (Unit {0}) × W
  and_io (answered u, w) next = next w
  and_io (failed e, w) next = (failed e, w)

module _ {W C : Type 0} (files : Files W C) (path : PathBuf) where
  abbrev parsed : Reply C → Result (Option C)
  parsed (answered creds) = ok (some creds)
  parsed (failed e) =
      err (storage (text "parse account store " ++ (files.display path ++ (text ": " ++ e))))

  abbrev loaded : ReadReply → Result (Option C)
  loaded (bytes b) = parsed (files.from_slice b)
  loaded not_found = ok none
  loaded (read_failed e) =
      err (storage (text "read account store " ++ (files.display path ++ (text ": " ++ e))))

  pub load : W → Result (Option C)
  load w = loaded (files.read path w)

  pub temp_name : ℕ → PathBuf
  temp_name n =
      with_file_name
        (file_name path
          ++ (text "." ++ (decimal files.process_id ++ (text "." ++ (decimal n ++ text ".tmp")))))
        path

  pub unique_temp_path : W → PathBuf × W
  unfolding temp_name
  unique_temp_path w = let counted = files.fetch_add w in (temp_name counted.0, counted.1)

  pub write_private : PathBuf → List ℕ → W → Reply (Unit {0}) × W
  write_private tmp b w =
      and_io (files.open_new tmp w)
        λ w1. and_io (files.write_all tmp b w1) λ w2. files.sync_all tmp w2

  -- A failure removes the temporary file, whatever comes of that.
  abbrev pub or_remove : PathBuf → Text → Reply (Unit {0}) × W → Result (Unit {0}) × W
  or_remove tmp label (answered u, w) = (ok tt, w)
  or_remove tmp label (failed e, w) = (err (storage (label ++ e)), (files.remove_file tmp w).1)

  pub write_temp : PathBuf → List ℕ → Exec W (Unit {0})
  unfolding write_private
  write_temp tmp b w =
      or_remove tmp (text "write " ++ (files.display tmp ++ text ": ")) (write_private tmp b w)

  pub rename_temp : PathBuf → Exec W (Unit {0})
  rename_temp tmp w =
      or_remove tmp
        (text "rename "
          ++ (files.display tmp ++ (text " -> " ++ (files.display path ++ text ": "))))
        (files.rename tmp path w)

  pub create_parent : PathBuf → Exec W (Unit {0})
  create_parent dir w =
      if is_empty dir
      then (ok tt, w)
      else (let made = files.create_dir_all dir w in
          (
            storage_error (text "create parent " ++ (files.display dir ++ text ": ")) made.0,
            made.1,
          ))

  -- What `save` does with the bytes.
  pub replace : List ℕ → Exec W (Unit {0})
  unfolding unique_temp_path write_temp rename_temp
  replace b w = let tmp = unique_temp_path w in (write_temp tmp.0 b >> rename_temp tmp.0) tmp.1

  pub save : C → Exec W (Unit {0})
  unfolding create_parent replace parent
  save credentials = do
    b ← lift (storage_error (text "serialize account credentials: ") (files.to_vec credentials))
    dir ← lift (
        ok_or (storage (text "account store path has no parent: " ++ files.display path))
          (parent path))
    create_parent dir
    replace b
