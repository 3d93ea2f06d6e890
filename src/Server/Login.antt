-- ===== src/Server/Login.antt =====
-- `entrance_session_login` of src/daemon/entrance_session.c, and the handlers of a new client and of a
-- client's event of src/daemon/entrance_server.c.
use entrance.Image.{Passwd}
use entrance.Pam.{entrance_pam_item_get, entrance_pam_conv_msgs_get, entrance_pam_end, ItemType}
use entrance.History.{entrance_history_check, entrance_history_get}
use entrance.Session.Defs.{
  with_pam, update, entrance_session_login_get, entrance_session_authenticate, session_at,
}
use entrance.Session.Command.{entrance_session_find_command, entrance_session_is_wayland}
use entrance.Session.Run.{entrance_session_shell_set, session_parent}
use entrance.Action.{entrance_action_run, entrance_action_get}
use entrance.Server.Defs.{Config, System, Message, Launch, Daemon, with_seats, with_history, send}
use entrance.Server.Defs.{LoginText, no_login, dangling, text, status}
use entrance.Common.{
  ℕ, Bool, true, false, List, [], ◌∷◌, ◌++◌, Option, none, some, Str, codes, truncate,
  if◌then◌else◌, M, ◌>>=◌, ◌>>◌, ret, get, modify, deref, slot_get, slot_set,
}

-- What a client sends.
pub data ClientEvent : Type 0 where
  auth : ℕ → Str → Str → Option Str → ClientEvent
  action : ℕ → ClientEvent
  client_pid : ℕ → ℕ → ClientEvent
  other : ClientEvent

abbrev login_text : Option Str → LoginText
login_text none = no_login
login_text (some l) = text l

-- The same pointer after `free` of what it points to.
abbrev released : Option Str → LoginText
released none = no_login
released (some l) = dangling

module _ (sys : System) (cfg : Config) where
  -- `fork`, and the parent's half of `_entrance_session_run`.
  unfoldable pub session_run : Launch → M Daemon (Unit {0})
  unfolding with_seats
  session_run launch = do
    s ← get
    let pid = sys.fork s.launched
    with_seats (session_parent launch.id pid)
    elim pid [ none ↦ ret tt | some p ↦ modify (λ t. record t { launched = launch ∷ t.launched }) ]

  -- With automatic login, a session without a login gets the configured one.
  unfoldable pub auto_login_name : ℕ → M Daemon (Unit {0})
  unfolding with_seats
  auto_login_name id = do
    s ← get
    p ← with_seats (session_at id)
    elim p.login [
      | none ↦
          if s.auto_login
          then with_seats (update id (λ q. record q { login = sys.strdup cfg.userlogin }))
          else ret tt
      | some l ↦ ret tt
    ]

  unfoldable pub launch_session : ℕ → Passwd → Option Str → Str → M Daemon Bool
  unfolding session_run auto_login_name with_seats
  launch_session id pwd session cmd = do
    auto_login_name id
    s ← get
    session_run (record {
      id = id;
      pwd = pwd;
      session = session;
      cmd = cmd;
      cookie = truncate sys.host.path_max (pwd.pw_dir ++ codes "/.Xauthority");
      is_wayland = entrance_session_is_wayland s.xsessions session;
    })
    with_seats (update id (λ p. record p { login = none }))
    ret true

  unfoldable pub login_user : ℕ → Passwd → Option Str → Bool → M Daemon Bool
  unfolding launch_session with_history
  login_user id pwd session history = do
    if history then with_history (entrance_history_check pwd.pw_name session) else ret tt
    s ← get
    elim (entrance_session_find_command sys.paths s.xsessions pwd.pw_dir session) [
      | none ↦ ret false
      | some cmd ↦ launch_session id pwd session cmd
    ]

  unfoldable pub user_entry : Option Str → Option Passwd
  user_entry none = none
  user_entry (some user) = sys.getpwnam user

  unfoldable pub entrance_session_login : ℕ → Option Str → Bool → M Daemon Bool
  unfolding login_user with_seats user_entry
  entrance_session_login id session history = do
    user ← with_seats (with_pam (entrance_pam_item_get sys.lib id ItemType.user))
    elim (user_entry user) [
      | none ↦ ret false
      | some pwd ↦ login_user id (entrance_session_shell_set sys.host pwd) session history
    ]

  unfoldable pub granted : ℕ → Option Str → M Daemon (Unit {0})
  unfolding with_seats send entrance_session_login
  granted id session = do
    login ← with_seats (entrance_session_login_get id)
    started ← entrance_session_login id session true
    send (status (if started then released login else login_text login) true none)

  unfoldable pub refused : ℕ → M Daemon (Unit {0})
  unfolding with_seats send
  refused id = do
    msgs ← with_seats (with_pam (entrance_pam_conv_msgs_get id))
    ended ← with_seats (with_pam (entrance_pam_end sys.lib id))
    send (status no_login false (some msgs))

  unfoldable pub entrance_server_read_cb : ClientEvent → M Daemon (Unit {0})
  unfolding with_seats granted refused
  entrance_server_read_cb (auth id login password session) = do
    ok ← with_seats (entrance_session_authenticate sys.lib sys.strdup id login password)
    if ok then granted id session else refused id
  entrance_server_read_cb (action a) =
      modify λ s. record s { actions = entrance_action_run cfg.actions sys.exe_run s.actions a }
  entrance_server_read_cb (client_pid id p) = do
    s ← get
    client ← deref (slot_get s.clients id)
    modify (λ t. record t { clients = slot_set t.clients id p })
  entrance_server_read_cb other = ret tt

  unfoldable pub read_all : List ClientEvent → M Daemon (Unit {0})
  unfolding entrance_server_read_cb
  read_all [] = ret tt
  read_all (e ∷ es) = do entrance_server_read_cb e; read_all es

  -- What a client is sent when it connects.
  unfoldable pub entrance_server_add : M Daemon (Unit {0})
  unfolding send with_history
  entrance_server_add = do
    send (Message.pid sys.getpid)
    s ← get
    send (Message.actions (entrance_action_get s.actions.actions))
    if cfg.xsessions then send (Message.xsessions s.xsessions) else ret tt
    if cfg.custom_conf
        then send (
            Message.conf_gui cfg.bg cfg.bg_random cfg.req_passwd cfg.showlogin
              cfg.autoselect_last_user cfg.theme)
        else ret tt
    users ← with_history entrance_history_get
    send (Message.users users)
    send (Message.pools sys.icons sys.backgrounds)
