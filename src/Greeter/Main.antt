-- ===== src/Greeter/Main.antt =====
-- src/bin/entrance_client.c: the greeter's main program, with the start and the end of its connection
-- (entrance_connect and entrance_connect_shutdown of src/bin/entrance_connect.c) and the watch over the
-- daemon's process.
pub mod Stopped
pub mod Unprivileged
use entrance.Greeter.Defs.{Greeter}
use entrance.Greeter.Connect.{GreeterEvent, of_server, pid, greeter_step}
use entrance.Common.{
  ℕ, zero, suc, ◌+◌, Bool, true, false, not, List, [], ◌∷◌, ◌++◌, Option, none, some, Str, codes,
  if◌then◌else◌, ◌==◌,
}

-- An `int`.
pub data ℤ : Type 0 where
  pos negsuc : ℕ → ℤ

-- The variables of `main` after the command line was read; `port` is an unsigned short.
pub record Options : Type 0 where
  pub display : Option Str
  pub theme : Option Str
  pub gid : ℤ
  pub id : ℤ
  pub port : ℕ
  pub uid : ℤ

-- What `ecore_getopt_parse` makes of the command line: an error, an option such as --help, or the rest.
pub data Parsed : Type 0 where
  parse_error quit_option : Parsed
  parsed : Options → Parsed

-- The libraries and parts that are started and shut down.
pub data Part : Type 0 where
  eina ecore ecore_x elementary login connection events gui : Part

-- The handlers of the events of the connection.
pub data ConnectHandler : Type 0 where
  server_add server_del server_data : ConnectHandler

pub data MainCall : Type 0 where
  setgid setuid : ℕ → MainCall
  force_runtime_dir run_loop timer_del terminate_self : MainCall
  init shut_down : Part → MainCall
  -- The display that ecore_x_init opens and the theme of entrance_gui_init.
  open_display show_theme : Str → MainCall
  connect_server : ℕ → MainCall
  delete_server : MainCall
  handler_added handler_deleted : ConnectHandler → MainCall
  kill_zero timer_add : ℕ → MainCall

-- `calls` has what was called, the newest first; `server` is whether `_entrance_connect` is not NULL;
-- `esrch` whether `errno` is ESRCH; `has_gui` whether the greeter's windows were made.
pub record Process : Type 0 where
  pub calls : List MainCall
  pub client_id : ℕ
  pub server : Bool
  pub handlers : List ConnectHandler
  pub server_pid : ℕ
  pub timer : Bool
  pub esrch : Bool
  pub has_gui : Bool

-- `faulted` is a program that a fault in its main loop has ended.
pub data Exit : Type 0 where
  success failure faulted : Exit

-- What reaches the greeter in its main loop: the daemon's connection ends; an event of the user or of the
-- daemon, which the callbacks of Greeter/Connect handle; a list asks for an item's text or content, when the
-- answer may be a fault; or the timer of five seconds fires, when `kill` answers success or an error.
pub data LoopEvent : Type 0 where
  disconnected : LoopEvent
  handled : GreeterEvent → LoopEvent
  content_asked : Bool → LoopEvent
  timer_fired : Option Bool → LoopEvent

-- The answers of the system, from what was called before: whether the call succeeds; and the number
-- of screens; and what happens in the main loop, which begins with the windows as in `greeter`. In
-- `content_asked` the answer is false for a fault. In `timer_fired` the error, if any, says whether it is ESRCH.
pub record MainSystem : Type 0 where
  pub answer : List MainCall → MainCall → Bool
  pub xinerama_screens : ℕ
  pub data_dir : Str
  pub greeter : Greeter
  pub loop : List LoopEvent

unfoldable pub called : MainCall → Process → Process
called c s = record s { calls = c ∷ s.calls }

unfoldable pub entrance_connect_del : Process → Process
entrance_connect_del s = record s { server = false }

unfoldable pub entrance_monitor_server_pid : ℕ → Process → Process
unfolding called
entrance_monitor_server_pid p s = record (called (timer_add p) s) { server_pid = p; timer = true }

-- A `kill` that fails sets `errno`; one that succeeds leaves it.
unfoldable pub errno_after : Option Bool → Bool → Bool
errno_after none esrch = esrch
errno_after (some error) esrch = error

unfoldable pub server_alive_cb : Option Bool → Process → Process
unfolding called errno_after
server_alive_cb killed s =
    let t = record (called (kill_zero s.server_pid) s) { esrch = errno_after killed s.esrch } in
    if t.esrch then called terminate_self t else t

-- The pid that the daemon tells.
abbrev pub pid_of : GreeterEvent → Option ℕ
pid_of (of_server (pid p)) = some p
pid_of _ = none

-- What an event does to the process, beside the greeter's windows.
unfoldable pub loop_event : LoopEvent → Process → Process
unfolding entrance_connect_del entrance_monitor_server_pid server_alive_cb
loop_event disconnected s = entrance_connect_del s
loop_event (handled e) s = elim (pid_of e) [ none ↦ s | some p ↦ entrance_monitor_server_pid p s ]
loop_event (content_asked back) s = s
loop_event (timer_fired killed) s = server_alive_cb killed s

unfoldable pub add_handler : ConnectHandler → Process → Process
unfolding called
add_handler h s = record (called (handler_added h) s) { handlers = s.handlers ++ h ∷ [] }

unfoldable pub delete_handlers : List ConnectHandler → Process → Process
unfolding called
delete_handlers [] s = record s { handlers = [] }
delete_handlers (h ∷ hs) s = delete_handlers hs (called (handler_deleted h) s)

unfoldable pub delete_connection : Process → Process
unfolding called
delete_connection s = if s.server then called delete_server s else s

unfoldable pub entrance_connect_shutdown : Process → Process
unfolding delete_connection delete_handlers called
entrance_connect_shutdown s =
    let t = delete_connection s in
    called (shut_down connection) (called (shut_down events) (delete_handlers t.handlers t))

-- `nobody`, the user and the group for one that is not given or is root's.
abbrev pub nobody : ℕ
nobody = 65534

unfoldable pub allowed : ℤ → ℕ
allowed (pos zero) = nobody
allowed (pos (suc n)) = suc n
allowed (negsuc n) = nobody

unfoldable pub client_id_of : ℤ → ℕ
client_id_of (pos n) = n
client_id_of (negsuc n) = 0

unfoldable pub port_of : ℕ → ℕ
port_of zero = 42
port_of (suc n) = suc n

unfoldable pub given_or : Option Str → Str → Str
given_or none default = default
given_or (some s) default = s

module _ (sys : MainSystem) where
  -- entrance_connect.
  unfoldable pub entrance_connect : ℕ → ℕ → Process → Bool × Process
  unfolding called add_handler
  entrance_connect id port s =
      let t = called (init events) (called (init connection) s) in
      let u = called (connect_server port) t in
      let v = record u { server = true; client_id = id } in
      if sys.answer t.calls (connect_server port)
      then (true, add_handler server_data (add_handler server_del (add_handler server_add v)))
      else (false, record u { server = false })

  unfoldable pub entrance_gui_shutdown : Process → Process
  unfolding called
  entrance_gui_shutdown s = if s.has_gui then called (shut_down gui) s else s

  -- The end of `main`, from the message about the server monitor on.
  unfoldable pub shutdown_all : Process → Process
  unfolding called entrance_connect_shutdown entrance_gui_shutdown
  shutdown_all s =
      let t = entrance_gui_shutdown (entrance_connect_shutdown (called timer_del s)) in
      called (shut_down eina) (
        called (shut_down ecore)
          (called (shut_down ecore_x) (called (shut_down elementary) (called (shut_down login) t))))

  -- The number of screens that entrance_gui_init shows, which it answers.
  unfoldable pub gui_screens : ℕ
  gui_screens = if sys.xinerama_screens == 0 then 1 else sys.xinerama_screens

  unfoldable pub entrance_gui_init : Str → Process → ℕ × Process
  unfolding called gui_screens
  entrance_gui_init theme s =
      (gui_screens, record (called (init gui) (called (show_theme theme) s)) { has_gui = true })

  -- What an event does to the greeter's windows; none is a fault.
  unfoldable pub loop_step : LoopEvent → Greeter → Option (Unit {0} × Greeter)
  unfolding greeter_step
  loop_step (handled e) g = greeter_step sys.data_dir e g
  loop_step (content_asked back) g = if back then some (tt, g) else none
  loop_step disconnected g = some (tt, g)
  loop_step (timer_fired killed) g = some (tt, g)

  -- The main loop: whether it ends without a fault, and what it leaves.
  unfoldable pub run_events : List LoopEvent → Greeter → Process → Bool × Process
  unfolding loop_event loop_step
  run_events [] g s = (true, s)
  run_events (e ∷ es) g s = elim (loop_step e g) [
    | none ↦ (false, s)
    | some (u, h) ↦ run_events es h (loop_event e s)
  ]

  -- After the main loop.
  abbrev pub end_loop : Bool × Process → Exit × Process
  end_loop (false, s) = (faulted, s)
  end_loop (true, s) = (success, shutdown_all s)

  -- The part of `main` in which the greeter is shown, when it is connected.
  unfoldable pub show_gui : ℕ × Process → Exit × Process
  unfolding called run_events shutdown_all
  show_gui (zero, s) = (failure, s)
  show_gui (suc n, s) = end_loop (run_events sys.loop sys.greeter (called run_loop s))

  unfoldable pub run_connected : Str → Bool × Process → Exit × Process
  unfolding entrance_gui_init show_gui shutdown_all
  run_connected theme (false, s) = (success, shutdown_all s)
  run_connected theme (true, s) = show_gui (entrance_gui_init theme s)

  -- The part of `main` after the user and the group are set.
  unfoldable pub start_greeter : Options → Process → Exit × Process
  unfolding called client_id_of port_of given_or entrance_connect run_connected
  start_greeter o s =
      let display = given_or o.display (codes ":0") in
      let t = called (init ecore) (called (init eina) (called force_runtime_dir s)) in
      let u = called (init ecore_x) (called (open_display display) t) in
      let v = called (init login) (called (init elementary) u) in
      if sys.answer t.calls (open_display display)
      then run_connected (given_or o.theme (codes "default"))
          (entrance_connect (client_id_of o.id) (port_of o.port) v)
      else (failure, called (open_display display) t)

  -- A step of the change of user: a failure ends `main`.
  unfoldable pub change_user : ℤ → Options → Process → Exit × Process
  unfolding called allowed start_greeter
  change_user uid o s =
      let c = setuid (allowed uid) in
      if sys.answer s.calls c then start_greeter o (called c s) else (failure, called c s)

  unfoldable pub change_group : Options → Process → Exit × Process
  unfolding called allowed change_user
  change_group o s =
      let c = setgid (allowed o.gid) in
      if sys.answer s.calls c then change_user o.uid o (called c s) else (failure, called c s)

  unfoldable pub greeter_main : Parsed → Process → Exit × Process
  unfolding change_group
  greeter_main parse_error s = (failure, s)
  greeter_main quit_option s = (success, s)
  greeter_main (parsed o) s = change_group o s
