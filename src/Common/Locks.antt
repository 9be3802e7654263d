-- ===== src/Common/Locks.antt =====
-- `KeyedMutex` of src/providers/common.rs: the table of locks that all providers share, and the
-- tasks that wait for a lock or hold it, in steps.
pub mod Exclusive
use cheti.Prelude.{
  ℕ, zero, suc, Bool, true, false, not, ◌&&◌, Option, none, some, List, [], ◌∷◌, ◌++◌, ◌==◌, any,
  keep, if◌then◌else◌,
}
use cheti.Text.{Text, text_eq}

-- A clone of the `Arc` of a mutex outside the table: a task that waits for it, or its guard.
pub record Clone : Type 0 where
  pub task : ℕ
  pub key : Text
  pub mutex : ℕ
  pub held : Bool

-- The table, by key (the namespace is part of it), the next mutex to be made, and the clones.
pub record Locks : Type 0 where
  pub table : List (Text × ℕ)
  pub next : ℕ
  pub clones : List Clone

abbrev pub namespaced : Text → Text → Text
namespaced namespace key = namespace ++ (b'|' ∷ key)

abbrev pub no_locks : Locks
no_locks = record { table = []; next = 0; clones = [] }

pub find_entry : Text → List (Text × ℕ) → Option ℕ
find_entry key [] = none
find_entry key ((k, m) ∷ table) =
    let rest = find_entry key table in if text_eq k key then some m else rest

-- `Arc::strong_count(m) > 1`: the table has one.
abbrev pub is_cloned : List Clone → Text × ℕ → Bool
is_cloned clones entry = any (λ c. c.mutex == entry.1) clones

abbrev pub retained : Locks → List (Text × ℕ)
retained s = keep (is_cloned s.clones) s.table

abbrev waiting : ℕ → Text → ℕ → Clone
waiting task key mutex = record { task = task; key = key; mutex = mutex; held = false }

-- `entry(key).or_insert_with(…).clone()`, in the table after `retain`.
abbrev pub entered : ℕ → Text → Locks → Option ℕ → Locks
entered task key s (some m) = record {
  table = retained s;
  next = s.next;
  clones = waiting task key m ∷ s.clones;
}
entered task key s none = record {
  table = (key, s.next) ∷ retained s;
  next = suc s.next;
  clones = waiting task key s.next ∷ s.clones;
}

-- The first part of `lock`, under the lock of the table.
pub enter : ℕ → Text → Locks → Locks
unfolding find_entry
enter task key s = entered task key s (find_entry key (retained s))

abbrev pub is_waiting : ℕ → Clone → Bool
is_waiting task c = c.task == task && not c.held

pub find_waiting : ℕ → List Clone → Option Clone
find_waiting task [] = none
find_waiting task (c ∷ cs) =
    let rest = find_waiting task cs in if is_waiting task c then some c else rest

pub hold : ℕ → List Clone → List Clone
hold task [] = []
hold task (c ∷ cs) =
    let rest = hold task cs in if is_waiting task c then record c { held = true } ∷ cs else c ∷ rest

abbrev pub holds : ℕ → Clone → Bool
holds m c = c.held && (c.mutex == m)

abbrev pub taken : ℕ → Locks → Option Clone → Locks
taken task s none = s
taken task s (some c) =
    if any (holds c.mutex) s.clones then s else record s { clones = hold task s.clones }

-- `lock_owned().await` is over: possible only while nobody holds the mutex.
pub acquire : ℕ → Locks → Locks
unfolding find_waiting hold
acquire task s = taken task s (find_waiting task s.clones)

-- The guard is dropped, or the task gives up waiting.
pub leave : ℕ → Locks → Locks
leave task s = record s { clones = keep (λ c. not (c.task == task)) s.clones }

pub data Step : Type 0 where
  enters : ℕ → Text → Step
  acquires leaves : ℕ → Step

pub step : Locks → Step → Locks
unfolding enter acquire leave
step s (enters task key) = enter task key s
step s (acquires task) = acquire task s
step s (leaves task) = leave task s

pub run : Locks → List Step → Locks
unfolding step
run s [] = s
run s (a ∷ as') = run (step s a) as'
