-- ===== src/Lock/Exclusive.antt =====
-- The lock of src/daemon/entrance.c excludes a second daemon.
use entrance.Lock.{
  LockSystem, until_nul, newline_to_nul, process_name, lock_text, entrance_lock_create, lock_pid,
  entrance_lock_get,
}
use entrance.Common.{
  ℕ, zero, suc, ◌<◌, ◌≡◌, ◌≢◌, refl, sym, ◌∙◌, ap, subst, inl, inr, Bool, true, false, not, ◌&&◌,
  ◌==◌, [], ◌∷◌, ◌++◌, Option, none, some, Str, take, length, arith, str_eq, str_eq_iff, Bool-cases,
}

abbrev pub nul_free : Str → Bool
nul_free [] = true
nul_free (c ∷ s) = not (c == 0) && nul_free s

-- The name of a process whose command line begins with the program and a NUL.
first_word :
    (n : ℕ) (p rest after : Str)
    → length p < n
    → nul_free p ≡ true
    → until_nul (newline_to_nul (take n (p ++ 0 ∷ rest)) ++ after) ≡ p
unfolding until_nul newline_to_nul
first_word zero p rest after l f = absurd (omega arith)
first_word (suc n) [] rest after l f = by_rest (take n rest)
  where
    by_rest : (r : Str) → until_nul (newline_to_nul (0 ∷ r) ++ after) ≡ []
    by_rest [] = refl
    by_rest (d ∷ s) = refl
first_word (suc zero) (c ∷ p) rest after l f = absurd (omega arith)
first_word (suc (suc n)) (c ∷ []) rest after l f = ground (arith, first_word (suc n) [] rest after)
first_word (suc (suc n)) (c ∷ d ∷ p) rest after l f =
    ground (arith, first_word (suc n) (d ∷ p) rest after)

-- The lock file's text is read back as the pid.
abbrev pub Reads : LockSystem → ℕ → Type 0
Reads sys pid = lock_pid sys (lock_text pid) ≡ pid

created :
    (sys : LockSystem) (file t : Option Str)
    → entrance_lock_create sys sys.getpid file ≡ (true, t)
    → t ≡ some (lock_text sys.getpid)
unfolding entrance_lock_create
created sys file t e = ground arith

taken :
    (sys : LockSystem) (text : Str) (t : Option Str)
    → (lock_pid sys text == sys.getpid) ≡ false
    → entrance_lock_get sys (some text) ≡ (true, t)
    → entrance_lock_create sys sys.getpid (some text) ≡ (true, t)
unfolding entrance_lock_get
taken sys text t n e = by_name (str_eq (process_name sys (lock_pid sys text)) sys.program) refl
  where
    by_name :
        (b : Bool)
        → str_eq (process_name sys (lock_pid sys text)) sys.program ≡ b
        → entrance_lock_create sys sys.getpid (some text) ≡ (true, t)
    by_name true h = ground arith
    by_name false h = ground arith

-- A daemon that gets the lock leaves a lock file that names it.
pub entrance_lock_get-names :
    (sys : LockSystem) (file t : Option Str)
    → Reads sys sys.getpid
    → entrance_lock_get sys file ≡ (true, t)
    → (text : Str) × ((t ≡ some text) × (lock_pid sys text ≡ sys.getpid))
unfolding entrance_lock_get
entrance_lock_get-names sys none t r e = (lock_text sys.getpid, (created sys none t e, r))
entrance_lock_get-names sys (some text) t r e =
    elim (Bool-cases (lock_pid sys text == sys.getpid)) [
      | inl y ↦ (text, (ground arith, ground arith))
      | inr n ↦ (lock_text sys.getpid, (created sys (some text) t (taken sys text t n e), r))
    ]

-- A process that runs the daemon's program: its command line begins with the program and a NUL.
pub record Runs (sys : LockSystem) (pid : ℕ) : Type 0 where
  pub rest : Str
  pub command : sys.cmdline pid ≡ some (sys.program ++ 0 ∷ rest)

program_name :
    (sys : LockSystem) (pid : ℕ)
    → nul_free sys.program ≡ true
    → length sys.program < 1024
    → Runs sys pid
    → process_name sys pid ≡ sys.program
unfolding process_name
program_name sys pid f l r = rw (r.command, process_name) (first_word 1024 sys.program r.rest _ l f)

-- While the daemon that got the lock runs, a second daemon with another pid, which reads the lock file's
-- number as the first does, does not get the lock and leaves the lock file as it was.
pub entrance_lock_get-excludes :
    (first second : LockSystem) (file t : Option Str)
    → Reads first first.getpid
    → ((text : Str) → lock_pid second text ≡ lock_pid first text)
    → entrance_lock_get first file ≡ (true, t)
    → nul_free second.program ≡ true
    → length second.program < 1024
    → Runs second first.getpid
    → first.getpid ≢ second.getpid
    → entrance_lock_get second t ≡ (false, t)
unfolding entrance_lock_get
entrance_lock_get-excludes first second file t reads same got f l runs other =
    let (text, (at, pid)) = entrance_lock_get-names first file t reads got in
    let named : lock_pid second text ≡ first.getpid = same text ∙ pid in
    let name : process_name second (lock_pid second text) ≡ second.program =
      ap (process_name second) named ∙ program_name second first.getpid f l runs in
    subst (λ o. entrance_lock_get second o ≡ (false, o)) (sym at)
      (ground (arith, str_eq_iff (process_name second (lock_pid second text)) second.program))

-- When the lock file can be opened and written, and the process that it names, if any, does not bear the
-- daemon's name, a daemon gets the lock: a stale lock file does not keep it out.
pub entrance_lock_get-recycles :
    (sys : LockSystem) (file : Option Str)
    → sys.can_open ≡ true
    → sys.can_write ≡ true
    → ((text : Str) → file ≡ some text → process_name sys (lock_pid sys text) ≢ sys.program)
    → (t : Option Str) × (entrance_lock_get sys file ≡ (true, t))
unfolding entrance_lock_get entrance_lock_create
entrance_lock_get-recycles sys none o w stale = (some (lock_text sys.getpid), ground arith)
entrance_lock_get-recycles sys (some text) o w stale =
    elim (Bool-cases (lock_pid sys text == sys.getpid)) [
      | inl y ↦ (some text, ground arith)
      | inr n ↦ (
        some (lock_text sys.getpid),
        ground
            (arith, stale text refl, str_eq_iff (process_name sys (lock_pid sys text)) sys.program),
      )
    ]
