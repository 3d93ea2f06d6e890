-- ===== src/Examples/Main.antt =====
-- Runs of the two main programs, and of the watch for the seats' changes.
use entrance.Lock.{LockSystem, entrance_lock_get}
use entrance.Config.{ConfigSystem}
use entrance.Logind.{MonitorSystem, entrance_logind_monitor_start}
use entrance.Logind.Monitor.{unwatched, Watch, monitor_start-Watch}
use entrance.Daemon.{Passwd, FileKind, Users, UserSystem, nobody_name, entrance_uid_gid_init}
use entrance.Daemon.Home.{Settled, entrance_uid_gid_init-Settled}
use entrance.Daemon.Greeters.{greeter_main-RunsAs}
use entrance.Daemon.Main.{DaemonSystem, DaemonState, with_options, entrance_main, all_return}
use entrance.Daemon.Stopped.{Ended, entrance_main_stops}
use entrance.Image.{Image}
use entrance.Session.Xauth.{xauth_file_name, xauthority, seat_file, xauth_file_name-seat_file}
use entrance.Event.{EventType, Descriptor, users_name, entrance_event_new, entrance_event_type_set}
use entrance.Event.Names.{lookup}
use entrance.Event.Fields.{mismatches, struct_of, wrong, entrance_event_new-mismatches}
use entrance.Greeter.Defs.{Xsession, Gui}
use entrance.Greeter.Gui.{string_words}
use entrance.Greeter.Fill.{
  Filling, entrance_fill, fill_hoversell_func_cb, login_xsession_text_get, is_grid, is_selector,
}
use entrance.Greeter.Fill.Items.{entrance_fill-selects}
use entrance.Greeter.Words.{stringlist_loop, stringlist_loop_ends}
use entrance.Greeter.Strings.{spaceless, join}
use entrance.Greeter.Theme.{ThemeSystem, theme_icons_cache_fill}
use entrance.Greeter.Theme.Icons.{icon_of_word, ShowsTheme, theme_icons-ShowsTheme}
use entrance.Examples.Greeter.{form}
use entrance.Greeter.Connect.{of_server, of_user, check, pid, greeter_step}
use entrance.Greeter.Main
use entrance.Greeter.Main.{
  Options, Process, MainSystem, LoopEvent, ℤ, pos, negsuc, parsed, allowed, greeter_main,
}
use entrance.Greeter.Main.Unprivileged.{Dropped, greeter_main-Dropped}
use entrance.Greeter.Main.Stopped.{AllStopped, greeter_main_stops}
use entrance.Common.{
  decimal, ℕ, ◌<◌, ◌≡◌, refl, true, false, List, [], ◌∷◌, ◌++◌, Option, none, some, Str, codes,
  arith, str_eq, if◌then◌else◌, get_elem?, map, All,
}

abbrev entrance_user : Passwd
entrance_user = record { uid = 120; gid = 121; dir = some (codes "/var/lib/entrance") }

abbrev nobody_user : Passwd
nobody_user = record { uid = 65534; gid = 65534; dir = some (codes "/") }

abbrev passwd : Str → Option Passwd
passwd name =
    if str_eq name (codes "entrance")
    then some entrance_user
    else if str_eq name nobody_name
    then some nobody_user
    else none

abbrev user_system : UserSystem
user_system = record {
  start_user = some (codes "entrance");
  getpwnam = passwd;
  dirname = λ path. codes "/var/lib";
  client_home_path = codes "/var/cache/entrance/client";
  can_mkdir = true;
  can_remove = true;
}

abbrev no_users : Users
no_users = record {
  user = none;
  uid = 0;
  gid = 0;
  home_path = none;
  client_home = FileKind.missing;
  chowned = [];
}

entrance_uid_gid_init-Settled_example :
    Settled user_system (entrance_uid_gid_init user_system no_users)
unfolding str_eq
entrance_uid_gid_init-Settled_example =
    entrance_uid_gid_init-Settled user_system nobody_user no_users refl

-- The greeter's window is shown, the daemon tells its pid, the form is sent, and the daemon ends.
abbrev main_system : MainSystem
main_system = record {
  answer = λ calls call. true;
  xinerama_screens = 2;
  data_dir = [];
  greeter = form;
  loop =
      LoopEvent.handled (of_server (pid 412))
      ∷ LoopEvent.handled (of_user check)
      ∷ LoopEvent.content_asked true
      ∷ LoopEvent.timer_fired none
      ∷ LoopEvent.disconnected
      ∷ LoopEvent.timer_fired (some true)
      ∷ [];
}

abbrev options : Options
options = record {
  display = some (codes ":0.0");
  theme = none;
  gid = pos 121;
  id = negsuc 0;
  port = 0;
  uid = pos 120;
}

abbrev process : Process
process = record {
  calls = [];
  client_id = 0;
  server = false;
  handlers = [];
  server_pid = 0;
  timer = false;
  esrch = false;
  has_gui = false;
}

greeter_main-Dropped_example :
    (0 < allowed (pos 121))
    × ((0 < allowed (pos 120))
        × Dropped main_system
            (allowed (pos 121))
            (allowed (pos 120))
            process
            (greeter_main main_system (parsed options) process))
greeter_main-Dropped_example = greeter_main-Dropped main_system options process

greeter_main_stops_example :
    ((greeter_main main_system (parsed options) process).0 ≡ Main.success)
    × AllStopped main_system (greeter_main main_system (parsed options) process).1
unfolding greeter_step entrance.Greeter.Login.login_check_auth
    entrance.Greeter.Main.Stopped.comes_back Main.loop_step
greeter_main_stops_example =
    greeter_main_stops main_system options process (refl, refl) (refl, (refl, refl)) refl

greeter_main-RunsAs_example :
    Dropped main_system 121 120 process (greeter_main main_system (parsed options) process)
unfolding entrance_uid_gid_init
greeter_main-RunsAs_example =
    greeter_main-RunsAs user_system main_system b'e' (codes "ntrance") entrance_user no_users
      options process refl refl (omega arith) (omega arith) refl refl

abbrev lock_system : LockSystem
lock_system = record {
  getpid = 412;
  program = codes "/usr/sbin/entrance";
  can_open = true;
  can_write = true;
  fgets = λ size text. some text;
  atoi = λ text. 0;
  cmdline = λ pid. none;
}

abbrev config_system : ConfigSystem
config_system = record {
  config_dir = codes "/etc";
  now = 1000;
  undump = λ text. none;
  unwritten = λ cache. cache;
}

abbrev daemon_system : DaemonSystem
daemon_system = record {
  getuid = 0;
  options = with_options false;
  config = config_system;
  lock = lock_system;
  users = user_system;
  can_open_log = true;
  can_set_login_lock = true;
  can_remove_login_lock = true;
  can_remove_lock = true;
  has_monitor = true;
  signalled = false;
  seat_count = 2;
  returns = λ calls call. true;
}

abbrev daemon : DaemonState
daemon = record {
  configured = record { cache = none; conf = none; config = none };
  lock = none;
  users = no_users;
  auto_login = record { file = false; enabled = false };
  xephyr = false;
  calls = [];
}

entrance_main_stops_example :
    (t : DaemonState) × ((entrance_main daemon_system daemon
        ≡ (if all_return daemon_system t.calls then some (0, t) else none))
      × Ended daemon_system t)
unfolding entrance_lock_get
entrance_main_stops_example =
    entrance_main_stops daemon_system daemon false _ refl refl refl refl refl

abbrev monitor_system : MonitorSystem
monitor_system = record { monitor_new = true; get_fd = true; fd_handler_add = true }

monitor_start-Watch_example :
    Watch (true ∷ false ∷ true ∷ []) (entrance_logind_monitor_start monitor_system unwatched)
monitor_start-Watch_example = monitor_start-Watch monitor_system (true ∷ false ∷ true ∷ [])

abbrev session_list : List Xsession
session_list =
    (record { name = some (codes "E"); icon = some (codes "e.png") })
    ∷ (record { name = some (codes "Sway"); icon = none })
    ∷ []

abbrev empty_selector : Filling Xsession
empty_selector = record {
  items = [];
  reported = [];
  allocated = 0;
  has_class = false;
  selects = false;
}

entrance_fill-selects_example :
    (t : Filling Xsession) × ((entrance_fill
          (some (codes "elm_hoversel"))
          (some login_xsession_text_get)
          session_list
          empty_selector
        ≡ some (tt, t))
      × ((i : ℕ) → fill_hoversell_func_cb i t ≡ get_elem? session_list i))
unfolding is_grid is_selector login_xsession_text_get
entrance_fill-selects_example =
    entrance_fill-selects (codes "elm_hoversel") login_xsession_text_get session_list empty_selector
      (((_, refl), (_, refl)), (((_, refl), (_, refl)), tt)) refl refl refl

stringlist_loop_ends_example :
    stringlist_loop 6 (codes "ab cd" ++ 0 ∷ b'x' ∷ []) 0 0 []
    ≡ some (string_words [] (codes "ab cd"))
stringlist_loop_ends_example = stringlist_loop_ends (codes "ab cd") (b'x' ∷ []) refl

-- A theme with the icons "cat" and "dog".
abbrev theme_system : ThemeSystem
theme_system = record {
  data_dir = codes "/d";
  file_set = λ path group. true;
  items = λ path. some (some (codes "cat dog"));
}

abbrev plain : Image
plain = record { group = none; path = none }

abbrev themed_gui : Gui
themed_gui = record {
  xsessions = [];
  users = [];
  actions = [];
  background_pool = [];
  icon_pool = [];
  theme_icon_pool = [];
  theme = some (codes "default");
  bg = plain;
  conf_bg = plain;
  conf_bg_random = false;
  changed = 0;
  req_passwd = false;
  showlogin = true;
  vkbd_enabled = false;
  autoselect_last_user = true;
}

theme_icons-ShowsTheme_example :
    (theme_icons_cache_fill theme_system (codes "default")
      ≡ map (icon_of_word theme_system (codes "default")) (codes "cat" ∷ codes "dog" ∷ []))
    × All
        (ShowsTheme theme_system (codes "default") themed_gui)
        (theme_icons_cache_fill theme_system (codes "default"))
unfolding spaceless join
theme_icons-ShowsTheme_example =
    theme_icons-ShowsTheme theme_system (codes "default") themed_gui (codes "cat")
      (codes "dog" ∷ []) refl refl refl (refl, (refl, tt)) (refl, (refl, tt))

entrance_event_new-mismatches_example :
    (dd : Descriptor) × ((lookup users_name entrance_event_new ≡ some dd)
      × (mismatches (struct_of EventType.users) dd ≡ wrong EventType.users))
unfolding entrance_event_type_set str_eq
entrance_event_new-mismatches_example =
    entrance_event_new-mismatches users_name EventType.unknown EventType.users refl

xauth_file_name-seat_file_example :
    (xauth_file_name [] (codes "/run/entrance.auth") 3 ≡ some (seat_file (codes "/run/entrance") 3))
    × (xauthority (seat_file (codes "/run/entrance") 3)
        ≡ some (codes "XAUTHORITY=" ++ seat_file (codes "/run/entrance") 3))
unfolding decimal
xauth_file_name-seat_file_example =
    xauth_file_name-seat_file [] (codes "/run/entrance") 3 (omega arith)
