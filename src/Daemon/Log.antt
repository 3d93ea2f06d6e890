-- ===== src/Daemon/Log.antt =====
-- src/daemon/entrance.c: what the daemon logs of a client's output, the log file, the end of a process,
-- and the array of the clients.
use entrance.Client.{Client}
use entrance.Client.Start.{Starter, Handler}
use entrance.Lock.{until_nul}
use entrance.Common.{
  ℕ, zero, suc, ◌≡◌, refl, Bool, true, false, ◌&&◌, ◌||◌, ◌==◌, List, [], ◌∷◌, ◌++◌, map, Option,
  none, some, Str, codes, contains, take, if◌then◌else◌, replicate, M, Slot, get_elem?,
}

-- The two levels that are used.
pub data Level : Type 0 where
  warn info : Level

abbrev is_warn : Level → Bool
is_warn warn = true
is_warn info = false

-- The buffer of 4096 bytes as a string.
unfoldable pub log_buffer : Str → Str
unfolding until_nul
log_buffer text = until_nul (take 4095 text)

-- The messages, one for each line that `strtok_r` finds; noise among the warnings is left out.
unfoldable pub entrance_client_log_msg : (Str → List Str) → Level → Str → List (Level × Str)
unfolding log_buffer contains
entrance_client_log_msg lines level text =
    let buf = log_buffer text in
    if is_warn level && (contains (codes "/lib") buf || contains (codes "fixed") buf)
    then []
    else map (λ line. (level, line)) (lines buf)

unfoldable pub entrance_client_data : (Str → List Str) → Str → List (Level × Str)
unfolding entrance_client_log_msg
entrance_client_data lines text = entrance_client_log_msg lines info text

unfoldable pub entrance_client_error : (Str → List Str) → Str → List (Level × Str)
unfolding entrance_client_log_msg
entrance_client_error lines text = entrance_client_log_msg lines warn text

-- The log file with the standard output and error on it; a failing `freopen` is only logged.
pub record LogFile : Type 0 where
  pub stdout_open : Bool
  pub stderr_open : Bool

-- Whether the log file can be opened, and reopened as the standard output and as the error.
pub record LogSystem : Type 0 where
  pub can_open : Bool
  pub reopen_stdout : Bool
  pub reopen_stderr : Bool

unfoldable pub open_log_file : LogSystem → LogFile → Bool × LogFile
open_log_file sys s =
    if sys.can_open
    then (true, record { stdout_open = sys.reopen_stdout; stderr_open = sys.reopen_stderr })
    else (false, s)

unfoldable pub entrance_close_log : LogFile → LogFile
entrance_close_log s = record { stdout_open = false; stderr_open = false }

-- The signal after which the log file is opened anew.
unfoldable pub signal_log : LogSystem → LogFile → LogFile
unfolding open_log_file entrance_close_log
signal_log sys s = (open_log_file sys (entrance_close_log s)).1

-- The loop after the `kill`, over the answers of `waitpid`: whether each is more than 0. The result is
-- how often it slept; none is a wait that goes on.
unfoldable pub wait_for_end : List Bool → Option ℕ
wait_for_end [] = none
wait_for_end (false ∷ answers) = some 0
wait_for_end (true ∷ answers) = elim (wait_for_end answers) [ none ↦ none | some n ↦ some (suc n) ]

unfoldable pub entrance_clients_init : ℕ → List (Slot Client)
entrance_clients_init count = replicate count Slot.null

-- The handlers of the other seats.
unfoldable pub handlers_del : ℕ → List (ℕ × Handler) → List (ℕ × Handler)
handlers_del id [] = []
handlers_del id ((i, h) ∷ hs) =
    let rest = handlers_del id hs in if i == id then rest else (i, h) ∷ rest

-- The seats from `id` on. A client that was freed, or an index out of range, is a fault.
unfoldable pub clients_shutdown : ℕ → ℕ → M Starter (Unit {0})
unfolding handlers_del
clients_shutdown id zero s = some (tt, s)
clients_shutdown id (suc n) s = elim (get_elem? s.clients id) [
  | none ↦ none
  | some Slot.null ↦ clients_shutdown (suc id) n s
  | some Slot.freed ↦ none
  | some (Slot.live c) ↦
      clients_shutdown (suc id) n (record s { handlers = handlers_del id s.handlers })
]

-- A process that ends after so many rounds: the loop returns then, whatever the answers after it are.
wait_for_end-replicate :
    (n : ℕ) (more : List Bool) → wait_for_end (replicate n true ++ false ∷ more) ≡ some n
unfolding wait_for_end
wait_for_end-replicate zero more = refl
wait_for_end-replicate (suc n) more = rw (wait_for_end-replicate n more) refl
