-- ===== src/Client.antt =====
-- src/daemon/entrance.c: the daemon's supervision of a seat's client. When the client ends, the daemon
-- waits for the user's session, and then restarts the seat's X server or leaves its main loop. What the
-- daemon sees of the session's process is a list of ticks, one for each test of a loop's condition.
pub mod Restart
pub mod Start
pub mod Stop
pub mod Wait
use entrance.Session.Defs.{
  Seats, entrance_session_pid_get, entrance_session_shutdown, entrance_session_start,
}
use entrance.Common.{
  ℕ, zero, suc, Bool, true, false, not, ◌&&◌, ◌||◌, ◌==◌, List, [], ◌∷◌, Option, none, some,
  if◌then◌else◌, M, ◌>>=◌, ◌>>◌, ret, get, modify, deref, Slot, slot_get, slot_set, set, get_elem?,
  replicate, Str, ◌+◌,
}

pub record Client : Type 0 where
  pub id : ℕ
  pub pid : ℕ
  pub exe : Option ℕ

-- The answer of `waitpid` without blocking: the process has ended, still runs, is not a child of the
-- daemon, or another error.
pub data Waited : Type 0 where
  exited running echild failed : Waited

-- `signal` is whether a signal to end has come; `in_proc` is whether /proc has the process.
pub record Tick : Type 0 where
  pub signal : Bool
  pub waited : Waited
  pub in_proc : Bool

-- Why the wait returned; `still_waiting` is a wait that has not returned.
pub data WaitEnd : Type 0 where
  no_session signalled child_exited proc_gone wait_failed still_waiting : WaitEnd

unfoldable pub poll_proc : List Tick → WaitEnd
poll_proc [] = still_waiting
poll_proc (t ∷ ticks) =
    let rest = poll_proc ticks in
    if t.signal then signalled else if t.in_proc then rest else proc_gone

unfoldable pub wait_pid : List Tick → WaitEnd
unfolding poll_proc
wait_pid [] = still_waiting
wait_pid (t ∷ ticks) =
    let rest = wait_pid ticks in
    if t.signal then signalled else elim t.waited [
      | exited ↦ child_exited
      | running ↦ rest
      | echild ↦ poll_proc ticks
      | failed ↦ wait_failed
    ]

unfoldable pub session_wait : List Tick → ℕ → M Seats WaitEnd
unfolding wait_pid
session_wait ticks id = do
  pid ← entrance_session_pid_get id
  ret (elim pid [ zero ↦ no_session | suc n ↦ wait_pid ticks ])

-- What the supervision asks of the system.
pub data Call : Type 0 where
  xserver_shutdown xserver_start handlers_del : ℕ → Call
  kill_and_wait : ℕ → Call
  main_loop_quit : Call

pub record Supervisor : Type 0 where
  pub clients : List (Slot Client)
  pub seats : Seats
  pub xserver_pids : List ℕ
  pub signal : Bool
  pub xephyr : Bool
  pub calls : List Call

-- The outcome of a handler of an event; `waiting` is one that has not returned.
pub data Handled : Type 0 where
  pass_on done waiting : Handled

seats_step : {A : Type 0} → M Seats A → M Supervisor A
seats_step m s = elim (m s.seats) [ none ↦ none | some (a, t) ↦ some (a, record s { seats = t }) ]

note : Call → M Supervisor (Unit {0})
note c = modify λ s. record s { calls = c ∷ s.calls }

abbrev is_signalled : WaitEnd → Bool
is_signalled signalled = true
is_signalled _ = false

-- `==` of two pointers of which the second may be NULL.
abbrev pub same_exe : ℕ → Option ℕ → Bool
same_exe exe none = false
same_exe exe (some e) = exe == e

-- What a start of a seat needs of the system, from what was asked before: `strdup`, the random device for
-- the session, the X server's process; and the display of a seat and the first virtual terminal, of the
-- configuration.
pub record SeatSystem : Type 0 where
  pub strdup : Str → Option Str
  pub random : List Call → ℕ → List (Option ℕ × ℕ)
  pub xserver : List Call → ℕ → ℕ
  pub display : ℕ → Str
  pub vtnr : ℕ

module _ (sys : SeatSystem) where
  -- `_entrance_xserver_start`, and the record of the process that it answers.
  unfoldable pub start_seat : ℕ → M Supervisor (Unit {0})
  unfolding seats_step note
  start_seat id = do
    s ← get
    seats_step (
        entrance_session_start sys.strdup (sys.random s.calls id) id (sys.display id)
          (sys.vtnr + id))
    note (xserver_start id)
    modify (λ t. record t { xserver_pids = set t.xserver_pids id (sys.xserver t.calls id) })

  restart : ℕ → M Supervisor (Unit {0})
  unfolding seats_step note start_seat
  restart id = do
    note (xserver_shutdown id)
    s ← get
    pid ← deref (get_elem? s.xserver_pids id)
    note (kill_and_wait pid)
    seats_step (entrance_session_shutdown id)
    note (handlers_del id)
    modify (λ t. record t { clients = set t.clients id Slot.null })
    start_seat id

  leave : ℕ → M Supervisor (Unit {0})
  unfolding seats_step note
  leave id = do seats_step (entrance_session_shutdown id); note main_loop_quit

  -- The part of the handler after the wait.
  after_wait : ℕ → WaitEnd → M Supervisor Handled
  unfolding restart leave
  after_wait id still_waiting = ret waiting
  after_wait id ended = do
    modify (λ s. record s { signal = s.signal || is_signalled ended })
    s ← get
    if not s.signal && not s.xephyr then restart id else leave id
    ret done

  unfoldable pub entrance_client_del : List Tick → ℕ → ℕ → M Supervisor Handled
  unfolding after_wait session_wait
  entrance_client_del ticks id exe = do
    s ← get
    client ← deref (slot_get s.clients id)
    if not (same_exe exe client.exe) then ret pass_on else do
      modify (λ t. record t { clients = slot_set t.clients id (record client { exe = none }) })
      ended ← seats_step (session_wait ticks id)
      after_wait id ended

-- The loop over the seats at the end of `main`, from a seat on.
unfoldable pub shutdown_seats : ℕ → ℕ → M Seats (Unit {0})
shutdown_seats id zero = ret tt
shutdown_seats id (suc count) = do entrance_session_shutdown id; shutdown_seats (suc id) count
