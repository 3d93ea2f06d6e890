-- ===== src/Client/Stop.antt =====
-- src/daemon/entrance.c: the handler of the signals that end the daemon.
pub mod Kills
use entrance.Session.Defs.{Seats, entrance_session_pid_get}
use entrance.Client.{Client}
use entrance.Common.{
  ℕ, zero, suc, Bool, true, false, List, [], ◌∷◌, ◌++◌, Option, none, some, M, ◌>>=◌, ◌>>◌, ret,
  get, modify, deref, Slot, slot_get, if◌then◌else◌, is_some,
}

-- `clients` is none before the array is made; `killed` the pids that a signal was sent to, in their order.
pub record Stopper : Type 0 where
  pub clients : Option (List (Slot Client))
  pub seats : Seats
  pub seat_count : ℕ
  pub signal : ℕ
  pub killed : List ℕ
  pub quit : Bool

unfoldable pub kill_pid : ℕ → M Stopper (Unit {0})
kill_pid pid = modify λ s. record s { killed = s.killed ++ pid ∷ [] }

-- The loop over the clients from a seat on; a client that is NULL or freed is a fault.
unfoldable pub kill_clients : List (Slot Client) → ℕ → ℕ → M Stopper (Unit {0})
unfolding kill_pid
kill_clients clients i zero = ret tt
kill_clients clients i (suc n) = do
  client ← deref (slot_get clients i)
  (if is_some client.exe then kill_pid client.pid else ret tt)
  kill_clients clients (suc i) n

unfoldable pub session_pid : ℕ → M Stopper ℕ
session_pid id s = elim (entrance_session_pid_get id s.seats) [
  | none ↦ none
  | some (pid, seats) ↦ some (pid, record s { seats = seats })
]

abbrev kill_session : ℕ → M Stopper (Unit {0})
kill_session zero = ret tt
kill_session (suc pid) = kill_pid (suc pid)

unfoldable pub kill_sessions : ℕ → ℕ → M Stopper (Unit {0})
unfolding kill_pid session_pid
kill_sessions i zero = ret tt
kill_sessions i (suc n) = do pid ← session_pid i; kill_session pid; kill_sessions (suc i) n

abbrev kill_all : Option (List (Slot Client)) → ℕ → M Stopper (Unit {0})
kill_all none count = kill_sessions 0 count
kill_all (some clients) count = kill_clients clients 0 count

unfoldable pub signal_cb : ℕ → M Stopper (Unit {0})
unfolding kill_clients kill_sessions
signal_cb sig = do
  modify (λ s. record s { signal = sig })
  s ← get
  kill_all s.clients s.seat_count
  modify (λ t. record t { quit = true })
