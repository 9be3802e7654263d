-- ===== src/Cleanup.antt =====
-- src/cleanup.rs: the guard over what a solver has put in place.
pub mod Cancel
use cheti.Prelude.{List, [], ◌∷◌, ◌++◌}

-- `CleanupGuard`: the items pending, oldest first; `cleanup` of one item changes the world `E`.
pub record Guard (A : Type 0) : Type 0 where
  pub pending : List A

module _ {A : Type 0} where
  abbrev pub empty_guard : Guard A
  empty_guard = record { pending = [] }

  abbrev pub push : Guard A → A → Guard A
  push g item = record { pending = g.pending ++ (item ∷ []) }

module _ {E A : Type 0} (cleanup : A → E → E) where
  -- `while let Some(item) = self.pending.first().cloned() { … self.pending.remove(0) }`
  unfoldable pub run_pending : List A → E → E
  run_pending [] e = e
  run_pending (item ∷ rest) e = run_pending rest (cleanup item e)

  unfoldable pub run : Guard A → E → Guard A × E
  unfolding run_pending
  run g e = (record { pending = [] }, run_pending g.pending e)
