-- ===== src/Registry/Locking.antt =====
-- `with_exclusive_lock` and `LockGuard` of src/registry.rs, run by any number of processes at a
-- time. Each step of one process is atomic: taking the lock, reading the file, renaming the new
-- file over it, releasing the lock. A process can die at any point, and the kernel then releases
-- its lock.
use fastenv.Base.{
  ℕ, List, [], ◌∷◌, Option, none, some, false, Result, ok, err, ◌≡◌, refl, ◌==◌, eq_iff, nat_Eq,
  if◌then◌else◌, arith, ◌≢◌, subst,
}
use native.Mathlib.Decide.{ℕ_discrete}
use fastenv.Schema.{RegistryDoc}
use fastenv.Registry.{RegistryError}

-- What a closure passed to `with_exclusive_lock` does to the document.
abbrev pub Update : Type 0
Update = RegistryDoc → Result RegistryError RegistryDoc

-- Where a process is in `with_exclusive_lock`.
pub data Pc : Type 0 where
  idle : Pc
  waiting locked : Update → Pc
  loaded : Update → RegistryDoc → Pc
  finished : Pc

pub record Shared : Type 0 where
  pub holder : Option ℕ
  pub file : RegistryDoc
  pub pcs : ℕ → Pc
  -- The updates that were written, newest first.
  pub log : List Update

abbrev pub move : ℕ → Pc → Shared → Shared
move p pc s = record s { pcs = λ q. if q == p then pc else s.pcs q }

pub data Step (s : Shared) : Shared → Type 0 where
  enter : (p : ℕ) (f : Update) → s.pcs p ≡ idle → Step s (move p (waiting f) s)
  acquire :
      (p : ℕ) (f : Update)
      → s.pcs p ≡ waiting f
      → s.holder ≡ none
      → Step s (move p (locked f) (record s { holder = some p }))
  read : (p : ℕ) (f : Update) → s.pcs p ≡ locked f → Step s (move p (loaded f s.file) s)
  write :
      (p : ℕ) (f : Update) (doc doc' : RegistryDoc)
      → s.pcs p ≡ loaded f doc
      → f doc ≡ ok doc'
      → Step s (move p finished (record s { file = doc'; log = f ∷ s.log }))
  reject :
      (p : ℕ) (f : Update) (doc : RegistryDoc) (e : RegistryError)
      → s.pcs p ≡ loaded f doc
      → f doc ≡ err e
      → Step s (move p finished s)
  release : (p : ℕ) → s.pcs p ≡ finished → Step s (move p idle (record s { holder = none }))
  -- The process dies, or a call in it fails, before the rename.
  abandon : (p : ℕ) → s.holder ≡ some p → Step s (move p idle (record s { holder = none }))

pub data Reach (s : Shared) : Shared → Type 0 where
  here : Reach s s
  next : {t u : Shared} → Reach s t → Step t u → Reach s u

abbrev applied : RegistryDoc → Result RegistryError RegistryDoc → RegistryDoc
applied doc (ok doc') = doc'
applied doc (err e) = doc

-- The updates made one after another, oldest first, with nothing in between.
abbrev pub replay : RegistryDoc → List Update → RegistryDoc
replay start [] = start
replay start (f ∷ log) = applied (replay start log) (f (replay start log))

-- Between taking the lock and releasing it.
abbrev pub IsInside : Pc → Type 0
IsInside idle = ⊥
IsInside (waiting f) = ⊥
IsInside (locked f) = Unit
IsInside (loaded f doc) = Unit
IsInside finished = Unit

abbrev Saw : RegistryDoc → Pc → Type 0
Saw file (loaded f doc) = file ≡ doc
Saw file idle = Unit
Saw file (waiting f) = Unit
Saw file (locked f) = Unit
Saw file finished = Unit

record Inv (start : RegistryDoc) (s : Shared) : Type 0 where
  serial : s.file ≡ replay start s.log
  holds : (p : ℕ) → IsInside (s.pcs p) → s.holder ≡ some p
  saw : (p : ℕ) → Saw s.file (s.pcs p)

pub record IsStart (s : Shared) : Type 0 where
  pub free : s.holder ≡ none
  pub idles : (p : ℕ) → s.pcs p ≡ idle
  pub fresh : s.log ≡ []

same_holder : {o : Option ℕ} {p q : ℕ} → o ≡ some p → o ≡ some q → p ≡ q
same_holder h k = cc

ne→false : (a b : ℕ) → a ≢ b → (a == b) ≡ false
ne→false a b n = ground (arith, eq_iff a b)

moved_cases :
    (Q : Pc → Type 0) (p q : ℕ) (pc old : Pc)
    → (q ≡ p → Q pc)
    → (q ≢ p → Q old)
    → Q (if q == p then pc else old)
moved_cases Q p q pc old self away = elim (ℕ_discrete q p) [
  | yes e ↦ rw ((eq_iff q p).1 e) (self e)
  | no n ↦ rw (ne→false q p n) (away n)
]

-- A process outside has seen nothing that could grow old.
Saw-outside : (file : RegistryDoc) (pc : Pc) → ¬ IsInside pc → Saw file pc
Saw-outside file idle out = tt
Saw-outside file (waiting f) out = tt
Saw-outside file (locked f) out = tt
Saw-outside file (loaded f doc) out = absurd (out tt)
Saw-outside file finished out = tt

module _ {start : RegistryDoc} (s : Shared) (v : Inv start s) where
  alone : (p q : ℕ) → IsInside (s.pcs p) → q ≢ p → ¬ IsInside (s.pcs q)
  alone p q inside ne other = ne (same_holder (v.holds q other) (v.holds p inside))

  IsInside-of : (p : ℕ) {pc : Pc} → s.pcs p ≡ pc → IsInside pc → IsInside (s.pcs p)
  IsInside-of p e inside = rw e inside

  -- A process that goes on inside keeps the lock.
  stay_holds :
      (p q : ℕ) {pc : Pc} (pc' : Pc)
      → s.pcs p ≡ pc
      → IsInside pc
      → IsInside (if q == p then pc' else s.pcs q)
      → s.holder ≡ some q
  stay_holds p q pc' e inside =
      moved_cases (λ x. IsInside x → s.holder ≡ some q) p q pc' (s.pcs q)
        (λ self _. rw self (v.holds p (IsInside-of p e inside))) (λ _. v.holds q)

  -- A process that leaves, or dies, was alone inside.
  leave-Inv : (p : ℕ) → s.holder ≡ some p → Inv start (move p idle (record s { holder = none }))
  leave-Inv p held = record {
    serial = v.serial;
    holds = λ q.
        moved_cases (λ x. IsInside x → none ≡ some q) p q idle (s.pcs q) (λ _ h. absurd h)
          λ ne inside. absurd (ne (same_holder (v.holds q inside) held));
    saw = λ q. moved_cases (Saw s.file) p q idle (s.pcs q) (λ _. tt) (λ _. v.saw q);
  }

  saw_file : (p : ℕ) {f : Update} {doc : RegistryDoc} → s.pcs p ≡ loaded f doc → s.file ≡ doc
  saw_file p e = subst (Saw s.file) e (v.saw p)

  write-Inv :
      (p : ℕ) (f : Update) (doc doc' : RegistryDoc)
      → s.pcs p ≡ loaded f doc
      → f doc ≡ ok doc'
      → Inv start (move p finished (record s { file = doc'; log = f ∷ s.log }))
  write-Inv p f doc doc' e changed = record {
    serial = rw (← v.serial, saw_file p e, changed) refl;
    holds = λ q. stay_holds p q finished e tt;
    saw = λ q.
        moved_cases (Saw doc') p q finished (s.pcs q) (λ _. tt)
          λ ne. Saw-outside doc' (s.pcs q) (alone p q (IsInside-of p e tt) ne);
  }

  acquire-Inv :
      (p : ℕ) (f : Update)
      → s.holder ≡ none
      → Inv start (move p (locked f) (record s { holder = some p }))
  acquire-Inv p f free = record {
    serial = v.serial;
    holds = λ q.
        moved_cases (λ x. IsInside x → some p ≡ some q) p q (locked f) (s.pcs q) (λ self _. rw self)
          (λ _ inside. cc (v.holds q inside, free));
    saw = λ q. moved_cases (Saw s.file) p q (locked f) (s.pcs q) (λ _. tt) (λ _. v.saw q);
  }

  -- Any other move changes neither the file nor the lock.
  plain-Inv :
      (p : ℕ) (pc' : Pc)
      → Saw s.file pc'
      → (IsInside pc' → s.holder ≡ some p)
      → Inv start (move p pc' s)
  plain-Inv p pc' seen held = record {
    serial = v.serial;
    holds = λ q.
        moved_cases (λ x. IsInside x → s.holder ≡ some q) p q pc' (s.pcs q) (λ self. rw self held)
          (λ _. v.holds q);
    saw = λ q. moved_cases (Saw s.file) p q pc' (s.pcs q) (λ _. seen) (λ _. v.saw q);
  }

Step-Inv : {start : RegistryDoc} {s t : Shared} → Step s t → Inv start s → Inv start t
Step-Inv {s = s} (enter p f e) v = plain-Inv s v p (waiting f) tt (λ h. absurd h)
Step-Inv {s = s} (acquire p f e free) v = acquire-Inv s v p f free
Step-Inv {s = s} (read p f e) v =
    plain-Inv s v p (loaded f s.file) refl (λ _. v.holds p (IsInside-of s v p e tt))
Step-Inv {s = s} (write p f doc doc' e changed) v = write-Inv s v p f doc doc' e changed
Step-Inv {s = s} (reject p f doc x e rejected) v =
    plain-Inv s v p finished tt (λ _. v.holds p (IsInside-of s v p e tt))
Step-Inv {s = s} (release p e) v = leave-Inv s v p (v.holds p (IsInside-of s v p e tt))
Step-Inv {s = s} (abandon p held) v = leave-Inv s v p held

start-Inv : {s : Shared} → IsStart s → Inv s.file s
start-Inv {s} i = record {
  serial = rw i.fresh;
  holds = λ p. rw (i.idles p) (λ h. absurd h);
  saw = λ p. rw (i.idles p) tt;
}

Reach-Inv : {s t : Shared} → IsStart s → Reach s t → Inv s.file t
Reach-Inv i here = start-Inv i
Reach-Inv i (next r step) = Step-Inv step (Reach-Inv i r)

-- From a start with a free lock and idle processes, whatever the processes do inside
-- with_exclusive_lock and wherever some of them die: the file is what the written updates give when
-- they are made one after another in the order of their writes, and two processes are never inside
-- at once.
pub file-replay :
    {s t : Shared}
    → IsStart s
    → Reach s t
    → (t.file ≡ replay s.file t.log) × ((p q : ℕ) → IsInside (t.pcs p) → IsInside (t.pcs q) → p ≡ q)
file-replay {t = t} i r =
    let v = Reach-Inv i r in (v.serial, λ p q hp hq. same_holder (v.holds p hp) (v.holds q hq))
