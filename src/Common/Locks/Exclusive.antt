-- ===== src/Common/Locks/Exclusive.antt =====
-- At most one task holds the lock of a key.
use cheti.Prelude.{
  ℕ, suc, ◌≤◌, ◌≡◌, refl, ap, subst, inl, inr, Bool, true, false, not, ◌&&◌, Bool-cases,
  Option-cases, if◌then◌else◌, Option, none, some, List, [], ◌∷◌, ◌==◌, any, keep, length, All,
  arith, ==_refl, ==_iff,
}
use cheti.Text.{Text, text_eq}
use cheti.Text.Suffix.{text_eq_refl, text_eq_sound}
use cheti.Common.Locks.{
  Clone, Locks, no_locks, find_entry, is_cloned, retained, entered, enter, is_waiting, find_waiting,
  hold, holds, taken, acquire, leave, Step, enters, acquires, leaves, step, run,
}

-- How many clones hold a mutex, and how many hold the lock of a key.
abbrev pub holders : ℕ → List Clone → ℕ
holders m cs = length (keep (holds m) cs)

abbrev pub holds_key : Text → Clone → Bool
holds_key key c = c.held && text_eq c.key key

abbrev pub key_holders : Text → List Clone → ℕ
key_holders key cs = length (keep (holds_key key) cs)

-- Every clone is of the mutex that the table has for its key, and no mutex is held twice.
abbrev IsListed : List (Text × ℕ) → Clone → Type 0
IsListed table c = find_entry c.key table ≡ some c.mutex

pub record IsConsistent (s : Locks) : Type 0 where
  listed : All (IsListed s.table) s.clones
  once : (m : ℕ) → holders m s.clones ≤ 1

All-map : (P Q : Clone → Type 0) (cs : List Clone) → All P cs → ((c : Clone) → P c → Q c) → All Q cs
All-map P Q [] h f = tt
All-map P Q (c ∷ cs) h f = (f c h.0, All-map P Q cs h.1 f)

All-keep : (P : Clone → Type 0) (p : Clone → Bool) (cs : List Clone) → All P cs → All P (keep p cs)
All-keep P p [] h = tt
All-keep P p (c ∷ cs) h = elim (Bool-cases (p c)) [
  | inl e ↦ rw e (h.0, All-keep P p cs h.1)
  | inr e ↦ rw e (All-keep P p cs h.1)
]

-- `retain` keeps the entry of a key whose mutex has a clone.
find_entry-keep :
    (clones : List Clone) (key : Text) (m : ℕ) (table : List (Text × ℕ))
    → find_entry key table ≡ some m
    → any (λ c. c.mutex == m) clones ≡ true
    → find_entry key (keep (is_cloned clones) table) ≡ some m
unfolding find_entry
find_entry-keep clones key m [] h y = cc
find_entry-keep clones key m ((k, n) ∷ table) h y = elim (Bool-cases (text_eq k key)) [
  | inl e ↦
      let same : n ≡ m = ground arith in
      let kept : is_cloned clones (k, n) ≡ true = rw same y in simp (kept, e) (ap some same)
  | inr e ↦ ground (arith, find_entry-keep clones key m table)
]

holders-le : (m : ℕ) (p : Clone → Bool) (cs : List Clone) → holders m (keep p cs) ≤ holders m cs
holders-le m p [] = omega arith
holders-le m p (c ∷ cs) = ground (arith, holders-le m p cs)

holders-hold :
    (task m : ℕ) (c : Clone) (cs : List Clone)
    → find_waiting task cs ≡ some c
    → holders m (hold task cs) ≡ (if c.mutex == m then suc (holders m cs) else holders m cs)
unfolding find_waiting hold
holders-hold task m c [] h = cc
holders-hold task m c (d ∷ cs) h = ground (arith, holders-hold task m c cs)

none_holds : (m : ℕ) (cs : List Clone) → any (holds m) cs ≡ false → holders m cs ≡ 0
none_holds m [] h = refl
none_holds m (c ∷ cs) h = ground (arith, none_holds m cs)

hold-listed :
    (task : ℕ) (table : List (Text × ℕ)) (cs : List Clone)
    → All (IsListed table) cs
    → All (IsListed table) (hold task cs)
unfolding hold
hold-listed task table [] h = tt
hold-listed task table (c ∷ cs) h = elim (Bool-cases (is_waiting task c)) [
  | inl e ↦ simp e (h.0, h.1)
  | inr e ↦ simp e (h.0, hold-listed task table cs h.1)
]

clone_of :
    (c : Clone) (cs : List Clone) (m : ℕ) → c.mutex ≡ m → any (λ d. d.mutex == m) (c ∷ cs) ≡ true
clone_of c cs m e = ground (arith, ==_refl m)

any-more :
    (p : Clone → Bool) (c : Clone) (cs : List Clone) → any p cs ≡ true → any p (c ∷ cs) ≡ true
any-more p c cs h = ground arith

-- `retain` keeps the entries of all clones.
retained-listed :
    (table : List (Text × ℕ)) (all cs : List Clone)
    → All (IsListed table) cs
    → ((m : ℕ) → any (λ d. d.mutex == m) cs ≡ true → any (λ d. d.mutex == m) all ≡ true)
    → All (IsListed (keep (is_cloned all) table)) cs
retained-listed table all [] h f = tt
retained-listed table all (c ∷ cs) h f = (
  find_entry-keep all c.key c.mutex table h.0 (f c.mutex (clone_of c cs c.mutex refl)),
  retained-listed table all cs h.1 (λ m y. f m (any-more (λ d. d.mutex == m) c cs y)),
)

new_entry :
    (key : Text) (m : ℕ) (table : List (Text × ℕ)) (c : Clone)
    → find_entry key table ≡ none
    → IsListed table c
    → IsListed ((key, m) ∷ table) c
unfolding find_entry
new_entry key m table c e l = elim (Bool-cases (text_eq key c.key)) [
  | inl y ↦
      let gone : find_entry c.key table ≡ none =
        subst (λ k. find_entry k table ≡ none) (text_eq_sound key c.key y) e in
      cc
  | inr n ↦ rw n l
]

hold_once :
    (task m : ℕ) (c : Clone) (cs : List Clone)
    → find_waiting task cs ≡ some c
    → any (holds c.mutex) cs ≡ false
    → holders m cs ≤ 1
    → holders m (hold task cs) ≤ 1
hold_once task m c cs e b h = elim (Bool-cases (c.mutex == m)) [
  | inl y ↦
      let free : holders m cs ≡ 0 =
        subst (λ k. holders k cs ≡ 0) ((==_iff c.mutex m).0 y) (none_holds c.mutex cs b) in
      ground (arith, holders-hold task m c cs e)
  | inr n ↦ ground (arith, holders-hold task m c cs e)
]

entered-IsConsistent :
    (task : ℕ) (key : Text) (s : Locks) (o : Option ℕ)
    → find_entry key (retained s) ≡ o
    → IsConsistent s
    → IsConsistent (entered task key s o)
unfolding find_entry
entered-IsConsistent task key s (some m) e h = record {
  listed = (e, retained-listed s.table s.clones s.clones h.listed (λ m y. y));
  once = λ m. h.once m;
}
entered-IsConsistent task key s none e h = record {
  listed = (
    rw (text_eq_refl key) refl,
    All-map (IsListed (retained s)) (IsListed ((key, s.next) ∷ retained s)) s.clones
        (retained-listed s.table s.clones s.clones h.listed (λ m y. y))
        (λ c l. new_entry key s.next (retained s) c e l),
  );
  once = λ m. h.once m;
}

taken-IsConsistent :
    (task : ℕ) (s : Locks) (o : Option Clone)
    → find_waiting task s.clones ≡ o
    → IsConsistent s
    → IsConsistent (taken task s o)
taken-IsConsistent task s none e h = h
taken-IsConsistent task s (some c) e h = elim (Bool-cases (any (holds c.mutex) s.clones)) [
  | inl b ↦ simp b h
  | inr b ↦ simp b (record {
    listed = hold-listed task s.table s.clones h.listed;
    once = λ m. hold_once task m c s.clones e b (h.once m);
  })
]

leave-IsConsistent : (task : ℕ) (s : Locks) → IsConsistent s → IsConsistent (leave task s)
unfolding leave
leave-IsConsistent task s h = record {
  listed = All-keep (IsListed s.table) (λ c. not (c.task == task)) s.clones h.listed;
  once = λ m. omega (arith, holders-le m (λ c. not (c.task == task)) s.clones, h.once m);
}

step-IsConsistent : (s : Locks) (a : Step) → IsConsistent s → IsConsistent (step s a)
unfolding step enter acquire
step-IsConsistent s (enters task key) h =
    entered-IsConsistent task key s (find_entry key (retained s)) refl h
step-IsConsistent s (acquires task) h =
    taken-IsConsistent task s (find_waiting task s.clones) refl h
step-IsConsistent s (leaves task) h = leave-IsConsistent task s h

run-IsConsistent : (s : Locks) (as' : List Step) → IsConsistent s → IsConsistent (run s as')
unfolding run
run-IsConsistent s [] h = h
run-IsConsistent s (a ∷ as') h = run-IsConsistent (step s a) as' (step-IsConsistent s a h)

-- Who holds the lock of a key holds the mutex of that key.
key_holders-le :
    (key : Text) (m : ℕ) (table : List (Text × ℕ)) (cs : List Clone)
    → find_entry key table ≡ some m
    → All (IsListed table) cs
    → key_holders key cs ≤ holders m cs
key_holders-le key m table [] e h = omega arith
key_holders-le key m table (c ∷ cs) e h = elim (Bool-cases (text_eq c.key key)) [
  | inl y ↦
      let found : find_entry key table ≡ some c.mutex =
        subst (λ k. find_entry k table ≡ some c.mutex) (text_eq_sound c.key key y) h.0 in
      let same : c.mutex ≡ m = cc in
      ground (arith, key_holders-le key m table cs e h.1, ==_iff c.mutex m)
  | inr n ↦ ground (arith, key_holders-le key m table cs e h.1)
]

key_holders-none :
    (key : Text) (table : List (Text × ℕ)) (cs : List Clone)
    → find_entry key table ≡ none
    → All (IsListed table) cs
    → key_holders key cs ≡ 0
key_holders-none key table [] e h = refl
key_holders-none key table (c ∷ cs) e h = elim (Bool-cases (text_eq c.key key)) [
  | inl y ↦
      let found : find_entry key table ≡ some c.mutex =
        subst (λ k. find_entry k table ≡ some c.mutex) (text_eq_sound c.key key y) h.0 in
      cc
  | inr n ↦ ground (arith, key_holders-none key table cs e h.1)
]

-- However the calls of `lock`, the grants, the drops of guards and the tasks that give up waiting
-- follow one another, at most one task holds the lock of a key, although the table forgets the
-- entries that nobody uses.
pub run-exclusive : (as' : List Step) (key : Text) → key_holders key (run no_locks as').clones ≤ 1
run-exclusive as' key =
    let s = run no_locks as' in
    let h = run-IsConsistent no_locks as' (record { listed = tt; once = λ m. omega arith }) in
    elim (Option-cases (find_entry key s.table)) [
      | inl n ↦ omega (arith, key_holders-none key s.table s.clones n h.listed)
      | inr (m, e) ↦ omega (arith, key_holders-le key m s.table s.clones e h.listed, h.once m)
    ]
