-- ===== src/Lock.antt =====
-- src/daemon/entrance.c: the lock file, by which one daemon of the machine runs. The state is what the
-- lock file has, none where it cannot be opened.
pub mod Exclusive
use entrance.Common.{
  ℕ, zero, suc, ◌-◌, Bool, true, false, not, ◌&&◌, ◌==◌, List, [], ◌∷◌, ◌++◌, Option, none, some,
  Str, codes, truncate, decimal, take, length, if◌then◌else◌, str_eq,
}

-- What a daemon sees: its own pid, the daemon's program, whether the lock file can be opened and written,
-- `fgets` into a buffer of some size, `atoi` of the line, and the command lines of the processes, with
-- their NUL bytes. A negative number is left out.
pub record LockSystem : Type 0 where
  pub getpid : ℕ
  pub program : Str
  pub can_open : Bool
  pub can_write : Bool
  pub fgets : ℕ → Str → Option Str
  pub atoi : Str → ℕ
  pub cmdline : ℕ → Option Str

abbrev drop : ℕ → Str → Str
drop zero s = s
drop (suc n) [] = []
drop (suc n) (c ∷ s) = drop n s

-- The C string in a buffer.
unfoldable pub until_nul : Str → Str
until_nul [] = []
until_nul (c ∷ s) = let rest = until_nul s in if c == 0 then [] else c ∷ rest

-- A newline at the end of what was read is replaced by a NUL.
unfoldable pub newline_to_nul : Str → Str
newline_to_nul [] = []
newline_to_nul (c ∷ []) = if c == 10 then 0 ∷ [] else c ∷ []
newline_to_nul (c ∷ d ∷ s) = c ∷ newline_to_nul (d ∷ s)

-- The buffer holds the path in /proc, over which the command line is read, without a NUL of its own.
unfoldable pub process_name : LockSystem → ℕ → Str
unfolding until_nul newline_to_nul decimal
process_name sys pid =
    let path = truncate 1024 (codes "/proc/" ++ decimal pid ++ codes "/cmdline") in
    elim (sys.cmdline pid) [
      | none ↦ path
      | some text ↦
          let contents = take 1024 text in
          until_nul (newline_to_nul contents ++ drop (length contents) path)
    ]

unfoldable pub lock_text : ℕ → Str
unfolding decimal
lock_text pid = truncate 128 (decimal pid)

unfoldable pub entrance_lock_create : LockSystem → ℕ → Option Str → Bool × Option Str
unfolding lock_text
entrance_lock_create sys pid file =
    if not sys.can_open
    then (false, file)
    else if sys.can_write
    then (true, some (lock_text pid))
    else (false, some [])

-- The pid that the lock file names, 0 when there is nothing to read.
unfoldable pub lock_pid : LockSystem → Str → ℕ
lock_pid sys text = elim (sys.fgets 128 text) [ none ↦ 0 | some line ↦ sys.atoi line ]

unfoldable pub entrance_lock_get : LockSystem → Option Str → Bool × Option Str
unfolding entrance_lock_create lock_pid process_name str_eq
entrance_lock_get sys none = entrance_lock_create sys sys.getpid none
entrance_lock_get sys (some text) =
    let pid = lock_pid sys text in
    let created = entrance_lock_create sys sys.getpid (some text) in
    if pid == sys.getpid
    then (true, some text)
    else if str_eq (process_name sys pid) sys.program
    then (false, some text)
    else created

-- `remove` of the lock file, which may fail.
unfoldable pub entrance_lock_remove : Bool → Option Str → Option Str
entrance_lock_remove removed file = if removed then none else file
