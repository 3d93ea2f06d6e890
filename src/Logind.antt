-- ===== src/Logind.antt =====
-- src/daemon/entrance_logind.c: the seats that logind knows, and the watch for their changes; and the
-- number of seats that the daemon then serves (_entrance_xservers_init of src/daemon/entrance.c).
pub mod Monitor
use entrance.Common.{
  ℕ, zero, suc, Bool, true, false, List, [], ◌∷◌, Option, none, some, Str, codes, M, ◌>>=◌, ◌>>◌,
  ret, get, modify, Slot, if◌then◌else◌, head?, length, ltb,
}

-- `Entrance_Logind_Seat`.
pub record LogindSeat : Type 0 where
  pub name : Str
  pub can_graphical : Bool
  pub can_tty : Bool
  pub active_session : Option Str

-- What logind answers about seats: whether one can show graphics and has terminals, its active session,
-- and all seats; none is an error. `sd_seat_get_active` may succeed without a session.
pub record Seating : Type 0 where
  pub can_graphical : Str → Option Bool
  pub can_tty : Str → Option Bool
  pub get_active : Str → Option (Option Str)
  pub get_seats : Option (List Str)

abbrev is_true : Option Bool → Bool
is_true none = false
is_true (some b) = b

abbrev session_of : Option (Option Str) → Option Str
session_of none = none
session_of (some s) = s

abbrev head_of : Option (List Str) → Option Str
head_of none = none
head_of (some seats) = head? seats

unfoldable pub seat_name : Option Str → Str
seat_name none = codes "seat0"
seat_name (some name) = name

unfoldable pub entrance_logind_seat_get : Seating → Option Str → LogindSeat
unfolding seat_name
entrance_logind_seat_get sys name = record {
  name = seat_name name;
  can_graphical = is_true (sys.can_graphical (seat_name name));
  can_tty = is_true (sys.can_tty (seat_name name));
  active_session = session_of (sys.get_active (seat_name name));
}

-- The array of the names, NULL on an error, and `*count`.
unfoldable pub entrance_logind_seats_list : Seating → Option (List Str) × ℕ
entrance_logind_seats_list sys = elim sys.get_seats [
  | none ↦ (none, 0)
  | some seats ↦ (some seats, length seats)
]

-- `_entrance_seat_count`, and what is looked up of the first seat.
unfoldable pub seats_served : Seating → ℕ × Option LogindSeat
unfolding entrance_logind_seats_list entrance_logind_seat_get
seats_served sys =
    let (seats, count) = entrance_logind_seats_list sys in
    if ltb 0 count
    then (
      count,
      elim (head_of seats) [ none ↦ none | some s ↦ some (entrance_logind_seat_get sys (some s)) ],
    )
    else (1, none)

-- The monitor, its handler in the main loop, and the callback; `unreferenced` is the number of monitors
-- that are alive but that no variable holds, `noticed` how often the callback was called.
pub record Monitoring : Type 0 where
  pub monitor : Slot (Unit {0})
  pub handler : Slot (Unit {0})
  pub callback : Bool
  pub unreferenced : ℕ
  pub noticed : ℕ

-- Whether a monitor can be made, has a descriptor, and gets a handler.
pub record MonitorSystem : Type 0 where
  pub monitor_new : Bool
  pub get_fd : Bool
  pub fd_handler_add : Bool

-- A monitor that is replaced stays alive.
abbrev lost : Slot (Unit {0}) → ℕ → ℕ
lost (Slot.live m) n = suc n
lost _ n = n

abbrev end_monitor : Monitoring → Monitoring
end_monitor s = record s { monitor = Slot.null }

-- With a new monitor and its descriptor.
unfoldable pub watch : MonitorSystem → Monitoring → Bool × Monitoring
watch sys s =
    if sys.fd_handler_add
    then (true, record s { callback = true; handler = Slot.live tt })
    else (false, record s { callback = true; handler = Slot.null; monitor = Slot.null })

unfoldable pub entrance_logind_monitor_start : MonitorSystem → Monitoring → Bool × Monitoring
unfolding watch
entrance_logind_monitor_start sys s =
    let t = record s { monitor = Slot.live tt; unreferenced = lost s.monitor s.unreferenced } in
    if sys.monitor_new
    then (if sys.get_fd then watch sys t else (false, end_monitor t))
    else (false, s)

-- The answer to Ecore: keep the handler, or delete it.
pub data Renewal : Type 0 where
  renew cancel : Renewal

abbrev notice : Monitoring → Monitoring
notice s = record s { noticed = if s.callback then suc s.noticed else s.noticed }

-- `_entrance_logind_monitor_cb`, with whether the monitor can be flushed.
unfoldable pub logind_monitor_cb : Bool → M Monitoring Renewal
logind_monitor_cb flushed s = elim s.monitor [
  | Slot.null ↦ some (cancel, s)
  | Slot.freed ↦ none
  | Slot.live m ↦ if flushed then some (renew, notice s) else some (cancel, s)
]

-- Ecore frees a handler whose callback answers `cancel`, and the variable keeps its address.
abbrev renewed : Renewal → M Monitoring (Unit {0})
renewed renew s = some (tt, s)
renewed cancel s = some (tt, record s { handler = Slot.freed })

-- The main loop when the descriptor can be read: the callback runs while its handler is there.
unfoldable pub fd_readable : Bool → M Monitoring (Unit {0})
unfolding logind_monitor_cb
fd_readable flushed s = elim s.handler [
  | Slot.live h ↦ (logind_monitor_cb flushed >>= renewed) s
  | _ ↦ some (tt, s)
]

unfoldable pub fd_events : List Bool → M Monitoring (Unit {0})
unfolding fd_readable
fd_events [] = ret tt
fd_events (flushed ∷ events) = do fd_readable flushed; fd_events events

-- The deletion of a handler that was freed, and a monitor that was freed, are faults.
unfoldable pub delete_handler : M Monitoring (Unit {0})
delete_handler s = elim s.handler [
  | Slot.null ↦ some (tt, s)
  | Slot.freed ↦ none
  | Slot.live h ↦ some (tt, record s { handler = Slot.null })
]

unfoldable pub unref_monitor : M Monitoring (Unit {0})
unref_monitor s = elim s.monitor [
  | Slot.null ↦ some (tt, s)
  | Slot.freed ↦ none
  | Slot.live m ↦ some (tt, end_monitor s)
]

unfoldable pub entrance_logind_monitor_stop : M Monitoring (Unit {0})
unfolding delete_handler unref_monitor
entrance_logind_monitor_stop = do
  delete_handler
  unref_monitor
  modify (λ s. record s { callback = false })
