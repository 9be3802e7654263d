-- ===== src/Examples/Locks.antt =====
-- Tasks that compete for the locks of src/providers/common.rs.
use cheti.Prelude.{◌≤◌, List, [], ◌∷◌}
use cheti.Text.{Text}
use cheti.Common.Locks.{Step, enters, acquires, leaves, no_locks, run}
use cheti.Common.Locks.Exclusive.{key_holders, run-exclusive}

abbrev key : Text
key = b'k' ∷ []

-- Task 1 holds the lock while task 2 waits; the entry is dropped and made again for task 3.
abbrev competing : List Step
competing =
    enters 1 key
    ∷ acquires 1
    ∷ enters 2 key
    ∷ acquires 2
    ∷ leaves 1
    ∷ leaves 2
    ∷ enters 3 key
    ∷ acquires 3
    ∷ []

run-exclusive_example : key_holders key (run no_locks competing).clones ≤ 1
run-exclusive_example = run-exclusive competing key
