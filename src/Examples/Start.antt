-- ===== src/Examples/Start.antt =====
-- Runs of what the daemon starts with, and of the system information of the greeter.
use entrance.Lock.{LockSystem, entrance_lock_get, lock_text, lock_pid, process_name}
use entrance.Lock.Exclusive.{Runs, entrance_lock_get-excludes}
use entrance.Xserver.{Xserver, Xservers, Xinit}
use entrance.Config.{ConfigSystem, ConfText, Configured, EntranceConfig, defaults, config_start}
use entrance.Config.Start.{config_start-Edited}
use entrance.Client.{Client}
use entrance.Client.Stop.{Stopper, signal_cb}
use entrance.Client.Stop.Kills.{Signalled, signal_cb-Signalled}
use entrance.Client.Start.{Starter, StarterSystem}
use entrance.Startup.{Boot, BootSystem, seats_init, seats_shutdown}
use entrance.Startup.Runs.{LiveFrom, seats_shutdown_total}
use entrance.Keyboard.{Xcb, mods, KeyboardConfig, Keyboard, entrance_keyboard_init}
use entrance.Keyboard.Masks.{Answers}
use entrance.Keyboard.Closes.{Finished, Closed, entrance_keyboard_init_total}
use entrance.Greeter.System.{Machine, SystemInfo}
use entrance.Common.{
  All, ℕ, inl, Slot, ◌+◌, ◌*◌, ◌-◌, ◌≡◌, ◌≢◌, refl, sym, ◌∙◌, true, false, List, [], ◌∷◌, ◌++◌,
  Option, none, some, Str, codes, arith, str_eq,
}

-- The number of a line of digits.
abbrev number : ℕ → Str → ℕ
number n [] = n
number n (c ∷ s) = number (n * 10 + (c - 48)) s

abbrev program : Str
program = codes "/usr/sbin/entrance"

abbrev first_daemon : LockSystem
first_daemon = record {
  getpid = 412;
  program = program;
  can_open = true;
  can_write = true;
  fgets = λ size text. some text;
  atoi = number 0;
  cmdline = λ pid. none;
}

abbrev second_daemon : LockSystem
second_daemon = record first_daemon { getpid = 500; cmdline = λ pid. some (program ++ 0 ∷ []) }

first-Runs : Runs second_daemon 412
first-Runs = record { rest = []; command = refl }

pids_ne : ◌≢◌ {A = ℕ} 412 500
pids_ne e = omega (arith, e)

entrance_lock_get-excludes_example :
    entrance_lock_get second_daemon (some (lock_text 412)) ≡ (false, some (lock_text 412))
unfolding lock_pid lock_text entrance_lock_get
entrance_lock_get-excludes_example =
    entrance_lock_get-excludes first_daemon second_daemon none (some (lock_text 412)) refl
      (λ text. refl) refl refl (omega arith) first-Runs pids_ne

-- The process of the lock file runs something else.
abbrev other_shell : LockSystem
other_shell = record first_daemon { cmdline = λ pid. some (codes "/bin/sh" ++ 0 ∷ []) }

shell_name : (pid : ℕ) → process_name other_shell pid ≡ codes "/bin/sh"
unfolding process_name
shell_name pid = refl

shell_ne : codes "/bin/sh" ≢ program
shell_ne e = cc

stale_name :
    (text : Str)
    → some (lock_text 413) ≡ some text
    → process_name other_shell (lock_pid other_shell text) ≢ other_shell.program
stale_name text e h = shell_ne (sym (shell_name (lock_pid other_shell text)) ∙ h)

abbrev xcb : Xcb
xcb = record {
  connect = true;
  extension_error = false;
  indicator_names = some (5 ∷ 6 ∷ []);
  names_error = false;
  atom_name = λ atom. some (codes "Num Lock");
  indicator_map = λ i. mods 16;
}

abbrev keyboard_config : KeyboardConfig
keyboard_config = record { numlock = true; capslock = false }

abbrev keyboard : Keyboard
keyboard = record {
  mask_capslock = 0;
  mask_numlock = 0;
  connected = false;
  opened = 0;
  closed = 0;
  latched = [];
}

keyboard-Closed : Closed keyboard
keyboard-Closed = record { balanced = refl; released = refl }

atoms_named : (atoms : List ℕ) → All (λ atom. (name : Str) × (xcb.atom_name atom ≡ some name)) atoms
atoms_named [] = tt
atoms_named (atom ∷ atoms) = ((codes "Num Lock", refl), atoms_named atoms)

atoms-Answers : (atoms : List ℕ) → Answers xcb atoms
atoms-Answers atoms = record { all_named = atoms_named atoms; masks = λ i e. cc }

entrance_keyboard_init_total_example :
    (l : Keyboard) × ((entrance_keyboard_init xcb keyboard_config keyboard ≡ some (tt, l))
      × Finished xcb keyboard_config keyboard l)
entrance_keyboard_init_total_example =
    entrance_keyboard_init_total xcb keyboard_config keyboard keyboard-Closed
      (λ atoms e. atoms-Answers atoms)

abbrev machine : Machine
machine = record {
  etc_os_release = some (codes "NAME=Gentoo" ∷ []);
  usr_os_release = none;
  sscanf = λ line. some (codes "NAME", codes "Gentoo");
  gethostname = some (codes "box.lan");
  file_exists = λ path. str_eq path (codes "/usr/share/icons/gentoo/48x48/gentoo.png");
}

abbrev fresh : SystemInfo
fresh = record { hostname = none; distro = none; logo_path = none }

abbrev xinit : Xinit
xinit = record { xinit_path = codes "/usr/bin/X"; xinit_args = codes "-br" ∷ codes "-ac" ∷ [] }

abbrev seat_server : Xserver
seat_server = record { vt = 7; id = 0; display = codes ":0.0" }

abbrev two_seats : Xservers
two_seats = record {
  xservers = Slot.null ∷ Slot.null ∷ [];
  xserver_count = 2;
  forked = [];
  display_env = none;
  clients = [];
}

abbrev forks : ℕ → Option ℕ
forks id = some 77

-- Eet reads every text as the defaults with numlock on.
abbrev read_defaults : EntranceConfig
read_defaults =
    record (defaults
      (record { config_dir = []; now = 0; undump = λ text. none; unwritten = λ c. c })) {
        numlock = true;
      }

abbrev config_system : ConfigSystem
config_system = record {
  config_dir = codes "/etc";
  now = 9;
  undump = λ text. some read_defaults;
  unwritten = λ c. c;
}

abbrev conf_text : ConfText
conf_text = record { mtime = 4; text = codes "group" }

abbrev unconfigured : Configured
unconfigured = record { cache = none; conf = some conf_text; config = none }

config_start-Edited_example :
    (t : Configured) × (u : Configured) × ((config_start config_system unconfigured ≡ some (tt, t))
      × ((t.config ≡ some read_defaults)
          × ((config_start config_system t ≡ some (tt, u)) × (u.config ≡ some read_defaults))))
config_start-Edited_example =
    config_start-Edited config_system config_system unconfigured conf_text b'g' (codes "roup")
      read_defaults refl (inl refl) refl refl (omega arith)

abbrev boot_system : BootSystem
boot_system = record {
  strdup = λ s. some s;
  random = λ id. [];
  fork = forks;
  display = λ id. codes ":0.0";
  vtnr = 7;
  auto_login = false;
}

abbrev boot : Boot
boot = record {
  seats = record { sessions = []; pam = record { pams = []; calls = [] } };
  xservers = two_seats;
  clients = [];
  seat_count = 1;
  xserver_pids = none;
  killed = [];
}

forks_ne : (id : ℕ) → forks id ≢ some 0
forks_ne id e = cc

seats_shutdown_total_example :
    (t : Boot) × (u : Boot) × ((seats_init boot_system 2 boot ≡ some (tt, t))
      × (LiveFrom 0 2 t.xservers
          × ((seats_shutdown boot_system t ≡ some (tt, u))
              × ((u.killed ≡ some 77 ∷ some 77 ∷ []) × (u.xservers.xservers ≡ [])))))
seats_shutdown_total_example = seats_shutdown_total boot_system 2 boot forks_ne

abbrev starter_system : StarterSystem
starter_system = record {
  open_fd = some 5;
  flock = true;
  fstat = some (0, 0);
  exe_run = λ cmd. some (3, 88);
  home_path = codes "/var/lib/entrance";
  user = codes "nobody";
  lib_dir = codes "/usr/lib/entrance";
  bin_dir = codes "/usr/bin";
  session_login = none;
  theme = codes "default";
  port = 42;
  gid = 99;
  uid = 99;
}

abbrev starter : Starter
starter = record { clients = Slot.null ∷ []; handlers = []; calls = []; quit = false }

abbrev two_clients : List (Slot Client)
two_clients =
    Slot.live (record { id = 0; pid = 88; exe = some 3 })
    ∷ Slot.live (record { id = 1; pid = 89; exe = none })
    ∷ []

abbrev stopper : Stopper
stopper = record {
  clients = some two_clients;
  seats = record { sessions = []; pam = record { pams = []; calls = [] } };
  seat_count = 2;
  signal = 0;
  killed = [];
  quit = false;
}

signal_cb-Signalled_example : Signalled 15 two_clients stopper (signal_cb 15 stopper)
signal_cb-Signalled_example = signal_cb-Signalled 15 two_clients stopper refl
