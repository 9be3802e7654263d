-- ===== src/Cleanup/Cancel.antt =====
-- A guard whose future may be dropped at any moment: the same loop in single steps, with `Drop`.
use mathlib.Core.List.{append_assoc, append-nil}
use cheti.Prelude.{
  Bool-cases, inl, inr, ap₂, ℕ, suc, ◌+◌, ◌≤◌, ◌≡◌, refl, ap, sym, ◌∙◌, Bool, true, false, ◌||◌,
  not, List, [], ◌∷◌, ◌++◌, arith, length, if◌then◌else◌, length-append,
}

-- The guard, the task that `Drop` spawns, and what has been seen of the cleanups: `started` and
-- `finished` list the items whose cleanup began and ended, oldest first, and `placed` all that was
-- ever pushed.
pub record Run (A : Type 0) : Type 0 where
  pub pending : List A
  pub in_flight : Bool
  pub dropped : Bool
  pub spawned : List A
  pub spawned_in_flight : Bool
  pub placed : List A
  pub started : List A
  pub finished : List A

pub data Action (A : Type 0) : Type 0 where
  pushes : A → Action A
  starts finishes drops task_starts task_finishes : Action A

abbrev pub one_if : Bool → ℕ
one_if b = if b then 1 else 0

module _ {A : Type 0} where
  abbrev pub fresh : Run A
  fresh = record {
    pending = [];
    in_flight = false;
    dropped = false;
    spawned = [];
    spawned_in_flight = false;
    placed = [];
    started = [];
    finished = [];
  }

  -- `run` calls the cleanup of the first item pending.
  start : List A → Run A → Run A
  start [] g = g
  start (item ∷ rest) g = record g { in_flight = true; started = g.started ++ (item ∷ []) }

  -- The cleanup has completed: `remove(0)`.
  finish : List A → Run A → Run A
  finish [] g = g
  finish (item ∷ rest) g = record g {
    in_flight = false;
    pending = rest;
    finished = g.finished ++ (item ∷ []);
  }

  task_start : List A → Run A → Run A
  task_start [] g = g
  task_start (item ∷ rest) g = record g {
    spawned_in_flight = true;
    started = g.started ++ (item ∷ []);
  }

  task_finish : List A → Run A → Run A
  task_finish [] g = g
  task_finish (item ∷ rest) g = record g {
    spawned_in_flight = false;
    spawned = rest;
    finished = g.finished ++ (item ∷ []);
  }

  -- One step; an action that is not possible changes nothing. `runtime` says whether there is a
  -- current Tokio runtime when the guard is dropped.
  pub step : Bool → Run A → Action A → Run A
  unfolding start finish task_start task_finish
  step runtime g (pushes item) =
      if g.dropped || g.in_flight
      then g
      else record g { pending = g.pending ++ (item ∷ []); placed = g.placed ++ (item ∷ []) }
  step runtime g starts = if g.dropped || g.in_flight then g else start g.pending g
  step runtime g finishes = if g.dropped || not g.in_flight then g else finish g.pending g
  step runtime g drops = if g.dropped then g else record g {
    dropped = true;
    in_flight = false;
    pending = [];
    spawned = if runtime then g.pending else [];
  }
  step runtime g task_starts = if g.spawned_in_flight then g else task_start g.spawned g
  step runtime g task_finishes = if not g.spawned_in_flight then g else task_finish g.spawned g

  pub steps : Bool → Run A → List (Action A) → Run A
  steps runtime g [] = g
  steps runtime g (a ∷ as') = steps runtime (step runtime g a) as'

  pub record Accounted (g : Run A) : Type 0 where
    -- Every item placed has been cleaned up or is still to be, in the order of placing.
    pub exact : g.placed ≡ g.finished ++ (g.pending ++ g.spawned)
    -- Before the drop the guard has the rest, after it the task.
    pub alive : g.dropped ≡ false → g.spawned ≡ []
    pub gone : g.dropped ≡ true → g.pending ≡ []
    -- Only a cleanup that the drop interrupted is begun once more.
    pub begun :
        length g.started
        ≤ length g.finished + one_if g.in_flight + one_if g.spawned_in_flight + one_if g.dropped

  move_on :
      (placed finished : List A) (item : A) (rest : List A)
      → placed ≡ finished ++ (item ∷ rest)
      → placed ≡ (finished ++ (item ∷ [])) ++ rest
  move_on placed finished item rest e = e ∙ sym (append_assoc finished (item ∷ []) rest)

  add_last :
      (placed finished pending : List A) (item : A)
      → placed ≡ finished ++ (pending ++ [])
      → placed ++ (item ∷ []) ≡ finished ++ ((pending ++ (item ∷ [])) ++ [])
  add_last placed finished pending item e =
      rw (e, append-nil pending, append-nil (pending ++ (item ∷ [])))
        (append_assoc finished pending (item ∷ []))

  length-snoc : (l : List A) (a : A) → length (l ++ (a ∷ [])) ≡ suc (length l)
  length-snoc l a = omega (arith, length-append l (a ∷ []))

  start-Accounted :
      (p : List A) (g : Run A) → g.in_flight ≡ false → Accounted g → Accounted (start p g)
  unfolding start
  start-Accounted [] g i h = h
  start-Accounted (item ∷ rest) g i h = record {
    exact = h.exact;
    alive = h.alive;
    gone = h.gone;
    begun = ground (arith, h.begun, length-snoc g.started item);
  }

  task_start-Accounted :
      (p : List A) (g : Run A)
      → g.spawned_in_flight ≡ false
      → Accounted g
      → Accounted (task_start p g)
  unfolding task_start
  task_start-Accounted [] g i h = h
  task_start-Accounted (item ∷ rest) g i h = record {
    exact = h.exact;
    alive = h.alive;
    gone = h.gone;
    begun = ground (arith, h.begun, length-snoc g.started item);
  }

  finish-Accounted :
      (p : List A) (g : Run A)
      → g.pending ≡ p
      → g.dropped ≡ false
      → g.in_flight ≡ true
      → Accounted g
      → Accounted (finish p g)
  unfolding finish
  finish-Accounted [] g e d i h = h
  finish-Accounted (item ∷ rest) g e d i h = record {
    exact =
        move_on g.placed g.finished item (rest ++ g.spawned)
          (h.exact ∙ ap (λ (l : List A). g.finished ++ (l ++ g.spawned)) e);
    alive = h.alive;
    gone = λ t. cc;
    begun = ground (arith, h.begun, length-snoc g.finished item);
  }

  task_finish-Accounted :
      (p : List A) (g : Run A)
      → g.spawned ≡ p
      → g.spawned_in_flight ≡ true
      → Accounted g
      → Accounted (task_finish p g)
  unfolding task_finish
  task_finish-Accounted [] g e i h = h
  task_finish-Accounted (item ∷ rest) g e i h =
      let d : g.dropped ≡ true = ground (arith, h.alive) in
      record {
        exact = rw (h.gone d) (
            move_on g.placed g.finished item rest
              (h.exact ∙ ap₂ (λ (l m : List A). g.finished ++ (l ++ m)) (h.gone d) e));
        alive = λ t. cc;
        gone = h.gone;
        begun = ground (arith, h.begun, length-snoc g.finished item);
      }

  step-Accounted : (g : Run A) (a : Action A) → Accounted g → Accounted (step true g a)
  unfolding step
  step-Accounted g (pushes item) h = elim (Bool-cases (g.dropped || g.in_flight)) [
    | inl b ↦ rw b h
    | inr b ↦
        let d : g.dropped ≡ false = ground arith in
        rw b (record {
          exact = rw (h.alive d) (
              add_last g.placed g.finished g.pending item
                (h.exact ∙ ap (λ (l : List A). g.finished ++ (g.pending ++ l)) (h.alive d)));
          alive = h.alive;
          gone = λ t. cc;
          begun = h.begun;
        })
  ]
  step-Accounted g starts h = elim (Bool-cases (g.dropped || g.in_flight)) [
    | inl b ↦ rw b h
    | inr b ↦ rw b (start-Accounted g.pending g (ground arith) h)
  ]
  step-Accounted g finishes h = elim (Bool-cases (g.dropped || not g.in_flight)) [
    | inl b ↦ rw b h
    | inr b ↦ rw b (finish-Accounted g.pending g refl (ground arith) (ground arith) h)
  ]
  step-Accounted g drops h = elim (Bool-cases g.dropped) [
    | inl b ↦ simp b h
    | inr b ↦ simp b (record {
      exact =
          h.exact
          ∙ ap (λ (l : List A). g.finished ++ (g.pending ++ l)) (h.alive b)
          ∙ ap (λ (l : List A). g.finished ++ l) (append-nil g.pending);
      alive = λ t. cc;
      gone = λ t. refl;
      begun = ground (arith, h.begun);
    })
  ]
  step-Accounted g task_starts h = elim (Bool-cases g.spawned_in_flight) [
    | inl b ↦ simp b h
    | inr b ↦ simp b (task_start-Accounted g.spawned g b h)
  ]
  step-Accounted g task_finishes h = elim (Bool-cases g.spawned_in_flight) [
    | inl b ↦ simp b (task_finish-Accounted g.spawned g refl b h)
    | inr b ↦ simp b h
  ]

  -- Wherever the future is dropped, if there is a runtime then (`true`), and from a state that is
  -- accounted for, as a new guard is: at every moment the items placed
  -- are, in order, those whose cleanup has completed and those that the guard or the spawned task
  -- still has; and the cleanups begun outnumber those completed by the ones that are running and by
  -- the one that the drop may have interrupted, at most.
  pub steps-Accounted :
      (g : Run A) (as' : List (Action A)) → Accounted g → Accounted (steps true g as')
  unfolding steps
  steps-Accounted g [] h = h
  steps-Accounted g (a ∷ as') h = steps-Accounted (step true g a) as' (step-Accounted g a h)

  pub fresh-Accounted : Accounted fresh
  fresh-Accounted = record {
    exact = refl;
    alive = λ t. refl;
    gone = λ t. refl;
    begun = omega arith;
  }
