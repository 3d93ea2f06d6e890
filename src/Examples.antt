-- ===== src/Examples.antt =====
-- Runs of the operations on one concrete system.
mod Greeter
mod Main
mod Start
use Prim.Native.Nat.{Ordering}
use mathlib.Core.List.{Memᴰ, Nodup}
use mathlib.Core.List.Perm
use entrance.Image.{Passwd, Files, FileInfo, entrance_image_readdir, is_target}
use entrance.Image.Pools.{entrance_image_readdir_lem}
use entrance.Pam.{
  PamLib, PamState, PamCall, Pam, PamResult, success, perm_denied, PamMessage, text_info,
  prompt_echo_off, pam_end, pam_setcred, pam_open_session, pam_authenticate, pam_acct_mgmt,
  establish_cred, delete_cred, entrance_pam_authenticate, entrance_pam_session_open,
  entrance_pam_conv, run_op, op_session_close,
}
use entrance.Pam.Auth.{entrance_pam_authenticate_lem, after_call, called}
use entrance.Pam.Conv.{entrance_pam_conv_lem, with_msgs}
use entrance.Pam.Open.{entrance_pam_session_open_lem}
use entrance.Pam.Frame.{run_op_frame}
use entrance.Session.Defs.{
  Session, Seats, cookie_of, entrance_session_start, entrance_session_shutdown,
}
use entrance.Session.Desktops.{Xsession, Desktops, desktops_init}
use entrance.Session.Names.{names, desktops_init-Nodup}
use entrance.Session.Seat.{IsHex, Gone, started, cookie_of_lem, entrance_session_shutdown_lem}
use entrance.Session.Command.{Paths}
use entrance.Session.Lookup.{Lookup, entrance_session_find_command_lem}
use entrance.Session.Run.{Host, Commands, Child, execle, session_child}
use entrance.Session.Run.Drop.{Requests, dropped, session_child_drops}
use entrance.Action.{
  Actions, ActionCommands, ActionData, Action, entrance_action_init, entrance_action_run, run_func,
  action_steps, requested, exe_del,
}
use entrance.Action.Requests.{Ended, quit_needs_command, shown_action_runs}
use entrance.History.{
  entrance_history_shutdown, HistoryState, EntranceLogin, no_image, new_login,
  entrance_history_check,
}
use entrance.History.Check.{CheckedView}
use entrance.History.Live.{AllLive, entrance_history_check_total}
use entrance.Server.Defs.{System, Config, Daemon, Launch}
use entrance.Server.Login.{ClientEvent, auth, other, entrance_server_read_cb, read_all}
use entrance.Server.Starts.{Effect, entrance_server_read_cb-Effect}
use entrance.Event.{
  EventType, entrance_event_type_set, entrance_event_type_get, entrance_event_new,
  entrance_event_auth_dd,
}
use entrance.Event.Names.{lookup, entrance_event_type_set_lem, entrance_event_new_lem}
use entrance.Client.{
  Client, Tick, WaitEnd, running, exited, echild, wait_pid, still_waiting, signalled, child_exited,
  SeatSystem, Supervisor, done, entrance_client_del, shutdown_seats, xserver_start, handlers_del,
  kill_and_wait, xserver_shutdown, main_loop_quit,
}
use entrance.Client.Wait.{Seen, wait_pid-returns, wait_pid-Seen}
use entrance.Client.Restart.{entrance_client_del_restarts, entrance_client_del_leaves}
use entrance.History.Shutdown.{Distinct, entrance_history_shutdown_total}
use entrance.Server.Trace.{AskedFor, StartedIn, session_process, read_all-AskedFor}
use entrance.Common.{
  ℕ, ◌≡◌, refl, ◌⊎◌, ap, ◌≢◌, ◌↔◌, Bool, true, false, List, [], ◌∷◌, ◌++◌, Option, none, some, Str,
  codes, Slot, slot_get, length, get_elem?, All, SameElsewhere, arith,
}

abbrev alice : Passwd
alice = record {
  pw_name = codes "alice";
  pw_uid = 1000;
  pw_gid = 100;
  pw_dir = codes "/home/alice";
  pw_shell = codes "/bin/sh";
}

-- A library that grants every call and knows the user.
abbrev kind_pam : PamLib
kind_pam = record {
  result = λ before c. success;
  handle = λ before c. some 7;
  item = λ before c. some (codes "alice");
  environment = λ before c. [];
  messages = λ before c. [];
}

abbrev host : Host
host = record {
  path_max = 4096;
  answer = λ before r. true;
  getusershell = some (codes "/bin/sh");
  term = none;
}

abbrev paths : Paths
paths = record { path_max = 4096; can_exec = λ p. false; exists = λ p. true }

abbrev commands : Commands
commands = record {
  session_path = codes "/usr/bin";
  session_start = codes "start";
  session_login = codes "login";
  xauth_path = none;
}

abbrev action_commands : ActionCommands
action_commands = record {
  shutdown = codes "halt";
  reboot = codes "reboot";
  suspend = codes "suspend";
}

abbrev system_ : System
system_ = record {
  lib = kind_pam;
  host = host;
  paths = paths;
  getpwnam = λ n. some alice;
  strdup = λ s. some s;
  exe_run = λ before c. some 1;
  fork = λ launched. some 42;
  getpid = 1;
  icons = [];
  backgrounds = [];
}

abbrev config : Config
config = record {
  bg = no_image;
  bg_random = false;
  req_passwd = true;
  showlogin = true;
  autoselect_last_user = true;
  theme = none;
  xsessions = true;
  custom_conf = false;
  userlogin = codes "alice";
  commands = commands;
  actions = action_commands;
}

abbrev xsession : Xsession
xsession = record {
  name = codes "E";
  command = some (codes "enlightenment_start");
  icon = none;
  is_wayland = false;
}

abbrev seat_session : Session
seat_session = record {
  pid = 0;
  vt = 1;
  login = none;
  mcookie = some (codes "00");
  display = some (codes ":0");
}

abbrev idle : Daemon
idle = record {
  seats = record {
    sessions = Slot.live seat_session ∷ [];
    pam = record { pams = Slot.null ∷ []; calls = [] };
  };
  history = record {
    store = [];
    history = [];
    lusers = [];
    history_update = false;
    written = none;
  };
  xsessions = xsession ∷ [];
  actions = record {
    actions = entrance_action_init [];
    action_exe = none;
    launched = [];
    quit = false;
  };
  auto_login = false;
  clients = Slot.live 9 ∷ [];
  launched = [];
  sent = [];
}

abbrev after : {S : Type 0} → Option (Unit {0} × S) → S → S
after none s = s
after (some (u, t)) s = t

abbrev login_event : ClientEvent
login_event = auth 0 (codes "alice") (codes "secret") (some (codes "E"))

abbrev logged_in : Daemon
logged_in = after (entrance_server_read_cb system_ config login_event idle) idle

starts_once : length logged_in.launched ≡ 1
unfolding entrance_server_read_cb entrance.Session.Defs.entrance_session_authenticate slot_get
    entrance.Common.slot_set entrance.Pam.entrance_pam_start entrance.Pam.entrance_pam_passwd_set
    entrance_pam_authenticate entrance.Session.Defs.entrance_session_login_get
    entrance.Pam.entrance_pam_item_get entrance_history_check
    entrance.Session.Command.entrance_session_find_command entrance.Common.str_eq
    entrance.Session.Run.session_parent
starts_once = refl

entrance_server_read_cb-Effect_example : Effect system_ config idle logged_in login_event
unfolding entrance_server_read_cb entrance.Session.Defs.entrance_session_authenticate slot_get
    entrance.Common.slot_set entrance.Pam.entrance_pam_start entrance.Pam.entrance_pam_passwd_set
    entrance_pam_authenticate entrance.Session.Defs.entrance_session_login_get
    entrance.Pam.entrance_pam_item_get entrance_history_check
    entrance.Session.Command.entrance_session_find_command entrance.Common.str_eq
    entrance.Session.Run.session_parent
entrance_server_read_cb-Effect_example =
    entrance_server_read_cb-Effect system_ config login_event idle logged_in refl

abbrev seat_pam : Pam
seat_pam = record {
  id = 0;
  passwd = some (codes "secret");
  last_result = success;
  opened = false;
  handle = some 7;
  msgs = [];
}

abbrev one_seat : PamState
one_seat = record { pams = Slot.live seat_pam ∷ Slot.live seat_pam ∷ []; calls = [] }

abbrev at_end : {S A : Type 0} → Option (A × S) → S → S
at_end none s = s
at_end (some (a, t)) s = t

abbrev child : Child
child = record {
  seats = record { sessions = Slot.live seat_session ∷ []; pam = one_seat };
  requests = [];
}

abbrev in_shell : Child
in_shell =
    at_end
      (session_child host commands kind_pam 0 alice none (codes "startx") (codes "/c") false child)
      child

session_child_drops_example :
    (before : Requests) × (later : Requests) × (line : Str) × (env : List Str) × (in_shell.requests
      ≡ (execle (codes "/bin/sh") line env, true) ∷ later ++ dropped alice before)
unfolding session_child entrance_pam_session_open slot_get entrance.Common.slot_set
    entrance.Pam.entrance_pam_env_set entrance.Pam.entrance_pam_env_list_get
    entrance.Pam.entrance_pam_session_close entrance.Pam.entrance_pam_shutdown
session_child_drops_example =
    session_child_drops host commands kind_pam 0 alice none (codes "startx") (codes "/c") false
      child in_shell refl

entrance_pam_authenticate_lem_example :
    let c = pam_authenticate (some 7) in
    entrance_pam_authenticate kind_pam 0 one_seat
    ≡ some (
      false,
      after_call kind_pam 0
          (after_call kind_pam 0 one_seat seat_pam c)
          (called kind_pam 0 one_seat seat_pam c)
          (pam_acct_mgmt (some 7)),
    )
unfolding slot_get
entrance_pam_authenticate_lem_example =
    entrance_pam_authenticate_lem kind_pam 0 one_seat seat_pam refl

-- Grants everything but to open a session.
abbrev closed_pam : PamLib
closed_pam = record kind_pam {
  result = λ before c. elim c [ pam_open_session h ↦ perm_denied | _ ↦ success ];
}

entrance_pam_session_open_lem_example :
    entrance_pam_session_open closed_pam 0 one_seat
    ≡ some (
      false,
      record {
        pams =
            Slot.live (record seat_pam { last_result = perm_denied; handle = none; opened = true })
            ∷ Slot.live seat_pam
            ∷ [];
        calls =
            pam_end (some 7) perm_denied
            ∷ pam_setcred (some 7) delete_cred
            ∷ pam_open_session (some 7)
            ∷ pam_setcred (some 7) establish_cred
            ∷ [];
      },
    )
unfolding slot_get entrance.Common.slot_set
entrance_pam_session_open_lem_example =
    entrance_pam_session_open_lem closed_pam 0 one_seat seat_pam refl

abbrev ended_seat : PamState
ended_seat = after (run_op kind_pam (λ s. some s) 0 op_session_close one_seat) one_seat

run_op_frame_example :
    SameElsewhere 0 one_seat.pams ended_seat.pams
    × ((cs : List PamCall) × (ended_seat.calls ≡ cs ++ []))
unfolding run_op entrance.Pam.entrance_pam_session_close slot_get
run_op_frame_example =
    run_op_frame kind_pam (λ s. some s) 0 op_session_close one_seat ended_seat refl

abbrev remembered : HistoryState
remembered = record {
  store = Slot.live (new_login (codes "alice") (some (codes "E"))) ∷ [];
  history = 0 ∷ [];
  lusers = [];
  history_update = false;
  written = none;
}

remembered_live : AllLive remembered.store remembered.history
unfolding entrance.Common.slot_get
remembered_live l (Memᴰ.head e) =
    (new_login (codes "alice") (some (codes "E")), ap (slot_get remembered.store) e)
remembered_live l (Memᴰ.tail m) = elim m [ ]

entrance_history_check_total_example :
    (t : HistoryState) × (o : Option EntranceLogin) × (entrance_history_check
        (codes "alice")
        (some (codes "X"))
        remembered
      ≡ some (tt, t))
    × CheckedView (codes "alice") (some (codes "X")) remembered t o
    × AllLive t.store t.history
entrance_history_check_total_example =
    entrance_history_check_total (codes "alice") (some (codes "X")) remembered remembered_live

abbrev run_1 : List Str → Str → Option ℕ
run_1 before command = some 1

abbrev daemon_actions : Actions
daemon_actions = record {
  actions = entrance_action_init [];
  action_exe = none;
  launched = [];
  quit = false;
}

quit_needs_command_example :
    Ended action_commands run_1
      (action_steps action_commands run_1 daemon_actions (requested 0 ∷ exe_del (some 1) ∷ []))
unfolding action_steps entrance_action_init
quit_needs_command_example =
    quit_needs_command action_commands run_1 daemon_actions (requested 0 ∷ exe_del (some 1) ∷ [])
      refl refl refl

abbrev reboot_shown : Action
reboot_shown = record { id = 1; label = codes "Reboot"; icon = codes "system-reboot" }

entrance_session_find_command_lem_example :
    Lookup paths
      (xsession ∷ [])
      (codes "/home/alice")
      (codes "E")
      (some (codes "enlightenment_start"))
unfolding entrance.Session.Command.entrance_session_find_command entrance.Common.str_eq
entrance_session_find_command_lem_example =
    entrance_session_find_command_lem paths (xsession ∷ []) (codes "/home/alice") (codes "E")

abbrev desktops : Desktops
desktops = record {
  path_max = 4096;
  list_dir = λ d. some (codes "e.desktop" ∷ codes "e2.desktop" ∷ []);
  desktop_get =
      λ p. some (record { name = some (codes "E"); icon = none; commands = codes "e" ∷ [] });
  strcasecmp = λ a b. Ordering.eq;
  sorted_insert = λ cmp xs x. x ∷ xs;
}

abbrev listed_once : List Xsession
listed_once = elim (desktops_init desktops) [ none ↦ [] | some xs ↦ xs ]

desktops_init-Nodup_example : Nodup (names listed_once)
unfolding desktops_init entrance.Common.str_eq
desktops_init-Nodup_example =
    desktops_init-Nodup desktops (λ cmp xs x. Perm.refl (x ∷ xs)) listed_once refl

abbrev seats : Seats
seats = record { sessions = Slot.null ∷ []; pam = one_seat }

abbrev photo : FileInfo
photo = record { path = codes "/i/a.png"; name_start = 3; is_regular = true }

abbrev files : Files
files = record {
  path_max = 4096;
  data_dir = codes "/usr";
  stat_ls = λ d. some (photo ∷ []);
  can_load = λ p. true;
  getpwnam = λ n. some alice;
}

entrance_event_type_set_lem_example :
    (entrance_event_type_set (codes "EntranceEventAuth") EventType.unknown false
      ≡ (EventType.auth, true))
    ↔ (entrance_event_type_get EventType.auth ≡ some (codes "EntranceEventAuth"))
entrance_event_type_set_lem_example =
    entrance_event_type_set_lem (codes "EntranceEventAuth") EventType.unknown EventType.auth

abbrev runs : Tick
runs = record { signal = false; waited = running; in_proc = true }

abbrev orphan : Tick
orphan = record { signal = false; waited = echild; in_proc = true }

abbrev over : Tick
over = record { signal = false; waited = exited; in_proc = false }

abbrev stop : Tick
stop = record { signal = true; waited = running; in_proc = true }

orphan_not_running : orphan.waited ≢ running
orphan_not_running e = cc

wait_pid-returns_example : wait_pid (runs ∷ orphan ∷ runs ∷ over ∷ []) ≢ still_waiting
wait_pid-returns_example =
    wait_pid-returns (runs ∷ []) (runs ∷ []) [] orphan over orphan_not_running refl

abbrev greeter : Client
greeter = record { id = 0; pid = 12; exe = some 3 }

abbrev in_session : Session
in_session = record seat_session { pid = 42 }

abbrev supervised : Supervisor
supervised = record {
  clients = Slot.live greeter ∷ [];
  seats = record { sessions = Slot.live in_session ∷ []; pam = one_seat };
  xserver_pids = 77 ∷ [];
  signal = false;
  xephyr = false;
  calls = [];
}

child_exited_waits : child_exited ≢ still_waiting
child_exited_waits e = cc

child_exited_unsignalled : child_exited ≢ signalled
child_exited_unsignalled e = cc

abbrev seat_system : SeatSystem
seat_system = record {
  strdup = some;
  random = λ calls id. (some 1, 0) ∷ [];
  xserver = λ calls id. 78;
  display = λ id. codes ":0.0";
  vtnr = 7;
}

entrance_client_del_restarts_example :
    (t : Supervisor) × (entrance_client_del seat_system (runs ∷ over ∷ []) 0 3 supervised
      ≡ some (done, t))
    × (t.calls ≡ xserver_start 0 ∷ handlers_del 0 ∷ kill_and_wait 77 ∷ xserver_shutdown 0 ∷ [])
    × (get_elem? t.clients 0 ≡ some Slot.null)
    × (get_elem? t.xserver_pids 0 ≡ some 78)
    × (get_elem? t.seats.sessions 0
        ≡ some (
            Slot.live (record {
              pid = 0;
              vt = 7;
              login = none;
              mcookie = some (cookie_of ((some 1, 0) ∷ []));
              display = some (codes ":0.0");
            })))
    × (get_elem? t.seats.sessions 1 ≡ get_elem? supervised.seats.sessions 1)
unfolding slot_get entrance.Client.session_wait entrance.Session.Defs.entrance_session_pid_get
entrance_client_del_restarts_example =
    entrance_client_del_restarts seat_system supervised 0 3 greeter in_session refl refl refl
      (runs ∷ over ∷ []) child_exited 77 1 child_exited_waits child_exited_unsignalled refl refl
      refl refl (λ h. omega (arith, h))

entrance_client_del_leaves_example :
    (t : Supervisor) × (entrance_client_del seat_system (runs ∷ stop ∷ []) 0 3 supervised
      ≡ some (done, t))
    × (t.calls ≡ main_loop_quit ∷ [])
    × (shutdown_seats 0 1 t.seats ≡ none)
unfolding slot_get entrance.Client.session_wait entrance.Session.Defs.entrance_session_pid_get
entrance_client_del_leaves_example =
    entrance_client_del_leaves seat_system supervised 0 3 greeter in_session refl refl refl
      (runs ∷ stop ∷ []) 1 refl (omega arith)

-- The user's structure stands in both lists.
abbrev listed : HistoryState
listed = record remembered { lusers = 0 ∷ [] }

once : Distinct (0 ∷ [])
once = (λ k m. elim m [ ], tt)

entrance_history_shutdown_total_example :
    (t : HistoryState) × (entrance_history_shutdown listed ≡ some (tt, t))
    × (t.history ≡ [])
    × (t.lusers ≡ [])
entrance_history_shutdown_total_example =
    entrance_history_shutdown_total listed remembered_live once remembered_live once

abbrev events : List ClientEvent
events = other ∷ login_event ∷ []

abbrev all_read : Daemon
all_read = after (read_all system_ config events idle) idle

abbrev alice_launch : Launch
alice_launch = record {
  id = 0;
  pwd = alice;
  session = some (codes "E");
  cmd = codes "enlightenment_start";
  cookie = codes "/home/alice/.Xauthority";
  is_wayland = false;
}

read_all-AskedFor_example :
    StartedIn (session_process alice_launch) idle
    ⊎ AskedFor system_ config idle.actions.actions events (session_process alice_launch)
unfolding read_all entrance.Session.Defs.entrance_session_authenticate slot_get
    entrance.Common.slot_set entrance.Pam.entrance_pam_start entrance.Pam.entrance_pam_passwd_set
    entrance_pam_authenticate entrance.Session.Defs.entrance_session_login_get
    entrance.Pam.entrance_pam_item_get entrance_history_check
    entrance.Session.Command.entrance_session_find_command entrance.Common.str_eq
    entrance.Session.Run.session_parent entrance.Session.Run.entrance_session_shell_set
    entrance.Session.Command.entrance_session_is_wayland
read_all-AskedFor_example =
    read_all-AskedFor system_ config events idle all_read (session_process alice_launch) refl
      (Memᴰ.head refl)
