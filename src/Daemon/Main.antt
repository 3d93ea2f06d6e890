-- ===== src/Daemon/Main.antt =====
-- `main` of src/daemon/entrance.c: the order in which the daemon's parts start and end, and what has to
-- hold before any of them does. Most parts have modules of their own; here a part's start, its end, or a
-- call of it is an entry of the list of calls.
use entrance.Daemon.{
  Users, UserSystem, AutoLogin, entrance_uid_gid_init, entrance_autologin_lock_set,
  entrance_autologin_lock_get, entrance_autologin_lock_del, chown,
}
use entrance.Config.{EntranceConfig, ConfigSystem, Configured, config_start}
use entrance.Lock.{LockSystem, entrance_lock_get, entrance_lock_remove}
use entrance.Common.{
  ℕ, zero, suc, Bool, true, false, ◌&&◌, List, [], ◌∷◌, Option, none, some, Str, codes,
  if◌then◌else◌, ◌==◌,
}

pub data DaemonPart : Type 0 where
  eina ecore eet efreet configuration log logind_monitor xservers sessions clients pams history
        keyboard :
      DaemonPart
  actions server : DaemonPart

pub data DaemonCall : Type 0 where
  init shut_down : DaemonPart → DaemonCall
  -- `_entrance_start_client` and the calls for a seat's session.
  start_client session_start session_wait : ℕ → DaemonCall
  pam_start : ℕ → Option Str → DaemonCall
  session_login : ℕ → Option Str → DaemonCall
  session_shutdown : ℕ → DaemonCall
  -- `entrance_server_init` gives the socket to this user and group.
  server_owner : ℕ → ℕ → DaemonCall
  main_loop : DaemonCall

-- `calls` has the newest first; `lock` is the lock file's text.
pub record DaemonState : Type 0 where
  pub configured : Configured
  pub lock : Option Str
  pub users : Users
  pub auto_login : AutoLogin
  pub xephyr : Bool
  pub calls : List DaemonCall

pub data DaemonOptions : Type 0 where
  bad_options quits : DaemonOptions
  with_options : Bool → DaemonOptions

-- The answers of the system. `xephyr` is the option's value in `with_options`; `signalled` is whether a signal
-- ended the wait for the session of the automatic login; `seat_count` the number of seats that logind answers
-- when the X servers are started; `returns` whether a part's call, after the calls before it, comes back: one
-- that does not is a fault of the part, or a part that does not end.
pub record DaemonSystem : Type 0 where
  pub getuid : ℕ
  pub options : DaemonOptions
  pub config : ConfigSystem
  pub lock : LockSystem
  pub users : UserSystem
  pub can_open_log : Bool
  pub can_set_login_lock : Bool
  pub can_remove_login_lock : Bool
  pub can_remove_lock : Bool
  pub has_monitor : Bool
  pub signalled : Bool
  pub seat_count : ℕ
  pub returns : List DaemonCall → DaemonCall → Bool

unfoldable pub noted : DaemonCall → DaemonState → DaemonState
noted c s = record s { calls = c ∷ s.calls }

module _ (sys : DaemonSystem) where
  abbrev pub users_step : (Users → Users) → DaemonState → DaemonState
  users_step f s = record s { users = f s.users }

  -- The user of the greeters, or the lock of the automatic login.
  unfoldable pub init_user : DaemonState → DaemonState
  unfolding entrance_uid_gid_init entrance_autologin_lock_set
  init_user s =
      if s.auto_login.enabled
      then record s { auto_login = entrance_autologin_lock_set sys.can_set_login_lock s.auto_login }
      else users_step (entrance_uid_gid_init sys.users) s

  unfoldable pub init_monitor : DaemonState → DaemonState
  unfolding noted
  init_monitor s = if sys.has_monitor then noted (init logind_monitor) s else s

  abbrev init_sessions : DaemonState → DaemonState
  init_sessions s = noted (init pams) (noted (init clients) (noted (init sessions) s))

  -- The one session under Xephyr, or the X servers with all sessions.
  unfoldable pub seats_by : Bool → DaemonState → DaemonState
  unfolding noted
  seats_by true s = noted (start_client 0) (noted (session_start 0) (init_sessions s))
  seats_by false s = init_sessions (noted (init xservers) s)

  unfoldable pub init_seats : DaemonState → DaemonState
  unfolding seats_by
  init_seats s = seats_by s.xephyr s

  -- The end of the session of the automatic login: the greeter follows unless a signal came.
  unfoldable pub after_autologin : DaemonState → DaemonState
  unfolding noted entrance_uid_gid_init entrance_autologin_lock_del
  after_autologin s =
      let removed = entrance_autologin_lock_del sys.can_remove_login_lock s.auto_login in
      let t = record s { auto_login = removed } in
      let u = record t { auto_login = record removed { enabled = false } } in
      if sys.signalled
      then t
      else noted (start_client 0) (users_step (entrance_uid_gid_init sys.users) u)

  unfoldable pub run_autologin : EntranceConfig → DaemonState → DaemonState
  unfolding noted after_autologin entrance_autologin_lock_get
  run_autologin config s =
      let t = noted (session_start 0) (noted (pam_start 0 config.userlogin) s) in
      let u = noted (session_wait 0) (noted (session_login 0 config.session) t) in
      if s.auto_login.enabled && entrance_autologin_lock_get s.auto_login
      then after_autologin u
      else s

  unfoldable pub init_server : DaemonState → DaemonState
  unfolding noted
  init_server s =
      noted (server_owner s.users.uid s.users.gid) (noted (init server) (noted (init actions) s))

  unfoldable pub stop_monitor : DaemonState → DaemonState
  unfolding noted
  stop_monitor s = if sys.has_monitor then noted (shut_down logind_monitor) s else s

  unfoldable pub end_xservers : Bool → DaemonState → DaemonState
  unfolding noted
  end_xservers true s = s
  end_xservers false s = noted (shut_down xservers) s

  -- The end of the seats' sessions, from the seat `id` on.
  unfoldable pub end_sessions : ℕ → ℕ → DaemonState → DaemonState
  unfolding noted
  end_sessions id zero s = s
  end_sessions id (suc count) s = end_sessions (suc id) count (noted (session_shutdown id) s)

  -- Under Xephyr there is one seat.
  abbrev pub seats_of : Bool → ℕ
  seats_of true = 1
  seats_of false = sys.seat_count

  -- The directory above the home goes back to root, and the path of a home that is NULL is `.`.
  abbrev home_dir : Option Str → Str
  home_dir none = codes "."
  home_dir (some home) = sys.users.dirname home

  -- From the end of the main loop on.
  unfoldable pub end_main : DaemonState → DaemonState
  unfolding noted stop_monitor end_xservers end_sessions entrance_lock_remove chown
  end_main s =
      let t = noted (shut_down server) (noted (shut_down clients) (stop_monitor s)) in
      let x = end_xservers s.xephyr (noted (shut_down history) (noted (shut_down actions) t)) in
      let u = end_sessions 0 (seats_of s.xephyr) x in
      let v = noted (shut_down ecore) (noted (shut_down pams) (noted (shut_down sessions) u)) in
      let w = record v { lock = entrance_lock_remove sys.can_remove_lock v.lock } in
      let y = noted (shut_down eet) (noted (shut_down configuration) w) in
      let z = users_step (λ m. chown (home_dir m.home_path) 0 0 m) y in
      noted (shut_down efreet) (noted (shut_down log) z)

  -- From the message about the init on, with every call coming back.
  unfoldable pub run_main : EntranceConfig → DaemonState → DaemonState
  unfolding noted init_user init_monitor init_seats run_autologin init_server end_main
  run_main config s =
      let t = init_seats (init_monitor (init_user s)) in
      let u = run_autologin config (noted (init keyboard) (noted (init history) t)) in
      end_main (noted main_loop (init_server u))

  -- Whether each of the calls comes back.
  unfoldable pub all_return : List DaemonCall → Bool
  all_return [] = true
  all_return (c ∷ calls) = let rest = all_return calls in sys.returns calls c && rest

  -- The result of a run is none when one of its calls does not come back, since nothing is done after it.
  abbrev pub completed : DaemonState → Option (ℕ × DaemonState)
  completed t = if all_return t.calls then some (0, t) else none

  -- With the lock, or without it: the log is opened.
  unfoldable pub open_log : EntranceConfig → DaemonState → Option (ℕ × DaemonState)
  unfolding noted run_main all_return
  open_log config s =
      if sys.can_open_log
      then completed (run_main config (noted (init log) s))
      else some (1, noted (shut_down configuration) s)

  unfoldable pub with_lock :
      EntranceConfig → DaemonState → Bool × Option Str → Option (ℕ × DaemonState)
  unfolding open_log
  with_lock config s (got, lock) =
      let t = record s {
        auto_login = record s.auto_login { enabled = config.autologin };
        lock = lock;
      } in
      if got then open_log config t else some (1, t)

  unfoldable pub take_lock : EntranceConfig → DaemonState → Option (ℕ × DaemonState)
  unfolding with_lock
  take_lock config s = with_lock config s (entrance_lock_get sys.lock s.lock)

  abbrev pub with_config : Option EntranceConfig → DaemonState → Option (ℕ × DaemonState)
  with_config none s = some (1, s)
  with_config (some config) s = take_lock config s

  abbrev pub configure : DaemonState → Option (ℕ × DaemonState)
  configure s = elim (config_start sys.config s.configured) [
    | none ↦ none
    | some (u, c) ↦ with_config c.config (record s { configured = c })
  ]

  -- After the options are read; the configuration counts as set up once it was looked for.
  unfoldable pub start_main : Bool → DaemonState → Option (ℕ × DaemonState)
  unfolding noted config_start take_lock
  start_main xephyr s =
      let t = noted (init efreet) (noted (init eet) (noted (init ecore) (noted (init eina) s))) in
      configure (noted (init configuration) (record t { xephyr = xephyr }))

  -- The exit status, where -1 is 255, unless a call does not come back.
  unfoldable pub entrance_main : DaemonState → Option (ℕ × DaemonState)
  unfolding start_main
  entrance_main s =
      if sys.getuid == 0
      then elim sys.options [
        | bad_options ↦ some (255, s)
        | quits ↦ some (0, s)
        | with_options xephyr ↦ start_main xephyr s
      ]
      else some (1, s)
