-- ===== src/AccountStore/Paths.antt =====
-- The temporary file of src/account_store.rs stands beside the store and is another file.
use cheti.Prelude.{ℕ, ◌≤◌, ◌≡◌, ◌≢◌, refl, ap, ◌∙◌, [], ◌∷◌, ◌++◌, arith, length, length-append}
use cheti.Text.{Text, text}
use cheti.AccountStore.{PathBuf, Files, file_name, with_file_name, temp_name}

pub file_name-with_file_name :
    (name : Text) (path : PathBuf) → file_name (with_file_name name path) ≡ name
unfolding file_name with_file_name
file_name-with_file_name name [] = refl
file_name-with_file_name name (c ∷ []) = refl
file_name-with_file_name name (c ∷ d ∷ []) = refl
file_name-with_file_name name (c ∷ d ∷ e ∷ cs) = file_name-with_file_name name (d ∷ e ∷ cs)

longer : (a b : Text) → 1 ≤ length b → a ≢ a ++ b
longer a b h e = omega (arith, ap length e, length-append a b)

pub temp_name-ne :
    {W C : Type 0} (files : Files W C) (path : PathBuf) (n : ℕ) → path ≢ temp_name files path n
unfolding temp_name text
temp_name-ne files path n e =
    longer (file_name path) _ (omega arith) (ap file_name e ∙ file_name-with_file_name _ path)
