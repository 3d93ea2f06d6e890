-- ===== src/Greeter/Connect.antt =====
-- src/bin/entrance_connect.c: the events that the daemon sends, dispatched to the form and the window;
-- and the greeter as a machine that takes the daemon's events and the user's.
pub mod Requests
use entrance.History.{EntranceLogin}
use entrance.Image.{Image}
use entrance.Action.{Action}
use entrance.Server.Login.{action, client_pid}
use entrance.Greeter.Defs.{Xsession, Gui, Greeter}
use entrance.Greeter.Login.{
  login_check_auth, login_entry_changed_cb, login_login_changed_cb, login_login_unfocused_cb,
  login_login_timer_cb, login_xsession_clicked_cb, login_auth_cb,
}
use entrance.Greeter.Gui.{
  ConfGui, entrance_gui_conf_set, entrance_gui_users_set, entrance_gui_xsessions_set,
  entrance_gui_actions_set, entrance_gui_pools_set, gui_user_sel_cb,
}
use entrance.Common.{
  ℕ, Bool, true, false, List, [], ◌∷◌, Option, none, some, Str, M, ◌>>=◌, ◌>>◌, ret, get, modify,
  if◌then◌else◌,
}

-- The callbacks of the list, which all are the form's. A callback removes at most itself.
unfoldable pub auth_callbacks : List ℕ → Bool → Option Str → M Greeter (Unit {0})
auth_callbacks [] granted msgs = ret tt
auth_callbacks (h ∷ hs) granted msgs = do login_auth_cb granted msgs; auth_callbacks hs granted msgs

unfoldable pub connect_auth : Bool → Option Str → M Greeter (Unit {0})
unfolding auth_callbacks
connect_auth granted msgs = do
  s ← get
  auth_callbacks s.auth_list granted msgs
  if granted then modify (λ t. record t { exited = true }) else ret tt

-- What the daemon sends to a greeter.
pub data ServerEvent : Type 0 where
  status : Bool → Option Str → ServerEvent
  xsessions : List Xsession → ServerEvent
  users : List EntranceLogin → ServerEvent
  actions : List Action → ServerEvent
  conf_gui : ConfGui → ServerEvent
  pid : ℕ → ServerEvent
  pools : List Image → List Image → ServerEvent
  other : ServerEvent

unfoldable pub connect_read_cb : Str → ServerEvent → M Greeter (Unit {0})
unfolding connect_auth
connect_read_cb data_dir (status granted msgs) = connect_auth granted msgs
connect_read_cb data_dir (xsessions xs) = entrance_gui_xsessions_set xs
connect_read_cb data_dir (users us) = entrance_gui_users_set us
connect_read_cb data_dir (actions shown) = entrance_gui_actions_set shown
connect_read_cb data_dir (conf_gui conf) = entrance_gui_conf_set data_dir conf
connect_read_cb data_dir (pid p) = modify λ s. record s { server_pid = some p }
connect_read_cb data_dir (pools icons backgrounds) = entrance_gui_pools_set icons backgrounds
connect_read_cb data_dir other = ret tt

-- The first event that a greeter sends.
unfoldable pub connect_add : ℕ → M Greeter (Unit {0})
connect_add getpid = modify λ s. record s { sent = client_pid s.client_id getpid ∷ s.sent }

-- A click on an item of the actions.
unfoldable pub gui_action_clicked_cb : Option Action → M Greeter (Unit {0})
gui_action_clicked_cb none = ret tt
gui_action_clicked_cb (some ea) = modify λ s. record s { sent = action ea.id ∷ s.sent }

-- What the user does. `check` is the login button, or the return key in the password's entry.
pub data UserEvent : Type 0 where
  check unfocused timer : UserEvent
  login_typed password_typed : Str → UserEvent
  session_clicked : Option Xsession → UserEvent
  user_selected : ℕ → EntranceLogin → UserEvent
  action_clicked : Option Action → UserEvent

unfoldable pub user_event : Str → UserEvent → M Greeter (Unit {0})
unfolding gui_action_clicked_cb
user_event data_dir check = login_check_auth
user_event data_dir unfocused = login_login_unfocused_cb
user_event data_dir timer = login_login_timer_cb
user_event data_dir (login_typed text) = do
  modify (λ s. record s { login_text = text })
  login_login_changed_cb
user_event data_dir (password_typed text) = do
  modify (λ s. record s { password_text = text })
  login_entry_changed_cb
user_event data_dir (session_clicked x) = login_xsession_clicked_cb x
user_event data_dir (user_selected rand eu) = gui_user_sel_cb data_dir rand eu
user_event data_dir (action_clicked ea) = gui_action_clicked_cb ea

-- Any event, and any sequence of events.
pub data GreeterEvent : Type 0 where
  of_user : UserEvent → GreeterEvent
  of_server : ServerEvent → GreeterEvent

unfoldable pub greeter_step : Str → GreeterEvent → M Greeter (Unit {0})
unfolding user_event connect_read_cb
greeter_step data_dir (of_user e) = user_event data_dir e
greeter_step data_dir (of_server e) = connect_read_cb data_dir e

unfoldable pub greeter_steps : Str → List GreeterEvent → M Greeter (Unit {0})
unfolding greeter_step
greeter_steps data_dir [] = ret tt
greeter_steps data_dir (e ∷ es) = do greeter_step data_dir e; greeter_steps data_dir es
