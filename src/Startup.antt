-- ===== src/Startup.antt =====
-- src/daemon/entrance.c: the start of the X servers and the sessions of all seats, and their end.
pub mod Runs
use entrance.Pam.{entrance_pams_init}
use entrance.Client.{Client}
use entrance.Session.Defs.{with_pam, Seats, entrance_sessions_init, entrance_session_start}
use entrance.Xserver.{
  Xservers, entrance_xservers_init, entrance_xserver_start, entrance_xserver_shutdown,
  entrance_xservers_shutdown,
}
use entrance.Common.{
  ℕ, zero, suc, ◌+◌, Bool, true, false, List, [], ◌∷◌, ◌++◌, Option, none, some, Str, M, ◌>>=◌,
  ◌>>◌, ret, get, modify, Slot, replicate,
}

-- `xserver_pids` is none before the start; `killed` the pids that `kill` was given, in their order, where
-- none is -1.
pub record Boot : Type 0 where
  pub seats : Seats
  pub xservers : Xservers
  pub clients : List (Slot Client)
  pub seat_count : ℕ
  pub xserver_pids : Option (List (Option ℕ))
  pub killed : List (Option ℕ)

-- What the seats need of the system: `strdup` and the random device for a session, `fork` for each X
-- server, and the display of a seat, which is printed from the configured one.
pub record BootSystem : Type 0 where
  pub strdup : Str → Option Str
  pub random : ℕ → List (Option ℕ × ℕ)
  pub fork : ℕ → Option ℕ
  pub display : ℕ → Str
  pub vtnr : ℕ
  pub auto_login : Bool

unfoldable pub with_sessions : {A : Type 0} → M Seats A → M Boot A
with_sessions m s = elim (m s.seats) [
  | none ↦ none
  | some (a, t) ↦ some (a, record s { seats = t })
]

unfoldable pub with_xservers : {A : Type 0} → M Xservers A → M Boot A
with_xservers m s = elim (m s.xservers) [
  | none ↦ none
  | some (a, t) ↦ some (a, record s { xservers = t })
]

-- `_entrance_kill_and_wait`, for a pid that is not 0; its wait, which ends with the process, is left out.
unfoldable pub kill_xserver : Option ℕ → M Boot (Unit {0})
kill_xserver (some zero) = ret tt
kill_xserver (some (suc pid)) = modify λ s. record s { killed = s.killed ++ some (suc pid) ∷ [] }
kill_xserver none = modify λ s. record s { killed = s.killed ++ none ∷ [] }

unfoldable pub kill_xservers : List (Option ℕ) → M Boot (Unit {0})
unfolding kill_xserver
kill_xservers [] = ret tt
kill_xservers (pid ∷ pids) = do kill_xserver pid; kill_xservers pids

abbrev kill_started : Option (List (Option ℕ)) → M Boot (Unit {0})
kill_started none = ret tt
kill_started (some pids) = kill_xservers pids

module _ (sys : BootSystem) where
  -- `_entrance_xserver_start` of src/daemon/entrance.c.
  unfoldable pub seat_xserver_start : ℕ → M Boot (Option ℕ)
  unfolding with_sessions with_xservers
  seat_xserver_start id = do
    with_sessions
        (entrance_session_start sys.strdup (sys.random id) id (sys.display id) (sys.vtnr + id))
    with_xservers
        (entrance_xserver_start sys.fork sys.auto_login id (sys.display id) (sys.vtnr + id))

  -- The loop over the seats from `id` on, which answers their pids.
  unfoldable pub start_seats : ℕ → ℕ → M Boot (List (Option ℕ))
  unfolding seat_xserver_start
  start_seats id zero = ret []
  start_seats id (suc n) = do
    pid ← seat_xserver_start id
    pids ← start_seats (suc id) n
    ret (pid ∷ pids)

  -- `_entrance_xservers_init`, with the number of seats.
  unfoldable pub seats_init : ℕ → M Boot (Unit {0})
  unfolding start_seats with_sessions with_xservers
  seats_init count = do
    modify (λ s. record s { seat_count = count })
    with_xservers (entrance_xservers_init count)
    with_sessions (entrance_sessions_init count)
    modify (λ s. record s { clients = replicate count Slot.null })
    with_sessions (with_pam (entrance_pams_init count))
    pids ← start_seats 0 count
    modify (λ s. record s { xserver_pids = some pids })

  unfoldable pub shutdown_xservers : ℕ → ℕ → M Boot (Unit {0})
  unfolding with_xservers
  shutdown_xservers id zero = ret tt
  shutdown_xservers id (suc n) = do
    with_xservers (entrance_xserver_shutdown sys.fork sys.auto_login id)
    shutdown_xservers (suc id) n

  -- `_entrance_xservers_shutdown`.
  unfoldable pub seats_shutdown : M Boot (Unit {0})
  unfolding kill_xservers shutdown_xservers with_xservers
  seats_shutdown = do
    s ← get
    kill_started s.xserver_pids
    shutdown_xservers 0 s.seat_count
    with_xservers (entrance_xservers_shutdown sys.fork sys.auto_login)
