-- ===== src/Examples/Greeter.antt =====
-- Runs of the greeter of src/bin.
use mathlib.Core.List.{Memᴰ}
use entrance.Image.{Image}
use entrance.History.{EntranceLogin, no_image}
use entrance.Server.Login.{auth, entrance_server_read_cb}
use entrance.Examples.{system_, config, idle, login_event, logged_in, after}
use entrance.Greeter.Defs.{Xsession, Greeter, Gui, Screen, Button}
use entrance.Greeter.Login.{login_xsession_guess, login_login_unfocused_cb, login_check_auth}
use entrance.Greeter.Connect.{
  connect_auth, GreeterEvent, of_user, of_server, check, status, password_typed, greeter_step,
  greeter_steps,
}
use entrance.Greeter.Connect.Requests.{Registered}
use entrance.Greeter.Connect.Requests.Answers.{answered, result, connect_auth-answered}
use entrance.Greeter.Connect.Requests.Steps.{Sends, greeter_step-Sends, greeter_steps-Registered}
use entrance.Greeter.Connect.Requests.Served.{Asks, Served, greeter_steps-Asks, greeter_step-Served}
use entrance.Greeter.Sessions.{Submitted, unfocused_check-Submitted}
use entrance.Common.{
  ℕ, ◌≡◌, refl, ◌⊎◌, Bool, true, false, List, [], ◌∷◌, Option, none, some, Str, codes, M, ◌>>=◌,
  ◌>>◌,
}

abbrev xsession : Xsession
xsession = record { name = some (codes "E"); icon = none }

abbrev photo : Image
photo = record { group = none; path = some (codes "/i/a.png") }

abbrev user : EntranceLogin
user = record (entrance.History.new_login (codes "alice") (some (codes "E"))) {
  icon_pool = photo ∷ [];
  background_pool = photo ∷ [];
}

abbrev gui : Gui
gui = record {
  xsessions = xsession ∷ [];
  users = user ∷ [];
  actions = [];
  background_pool = photo ∷ [];
  icon_pool = [];
  theme_icon_pool = photo ∷ [];
  theme = none;
  bg = no_image;
  conf_bg = no_image;
  conf_bg_random = true;
  changed = 0;
  req_passwd = true;
  showlogin = true;
  vkbd_enabled = false;
  autoselect_last_user = false;
}

abbrev screen : Screen
screen = record {
  session_items = [];
  user_items = [];
  action_items = [];
  first_selected = false;
  wallpaper = none;
}

abbrev button : Button
button = record { label = none; icon = none }

abbrev pub form : Greeter
form = record {
  client_id = 0;
  login_text = codes "alice";
  password_text = codes "secret";
  write_timer = false;
  session = some xsession;
  button = button;
  auth = none;
  error = false;
  wait = false;
  auth_list = [];
  next_auth = 0;
  gui = gui;
  screen = screen;
  server_pid = none;
  signals = [];
  sent = [];
  exited = false;
}

form_Registered : Registered form
form_Registered = record { callbacks = refl; waits = refl }

abbrev asked : Greeter
asked = after (greeter_step [] (of_user check) form) form

greeter_step-Sends_example : Sends form asked (of_user check)
unfolding greeter_step login_check_auth
greeter_step-Sends_example = greeter_step-Sends [] (of_user check) form asked form_Registered refl

-- A request, a refusal, another password and another request.
abbrev events : List GreeterEvent
events =
    of_user check
    ∷ of_server (status false (some []))
    ∷ of_user (password_typed (codes "other"))
    ∷ of_user check
    ∷ []

abbrev asked_again : Greeter
asked_again = after (greeter_steps [] events form) form

greeter_steps-Registered_example : Registered asked_again
unfolding greeter_steps login_check_auth entrance.Greeter.Login.login_auth_cb
    entrance.Greeter.Login.login_entry_changed_cb
greeter_steps-Registered_example =
    greeter_steps-Registered [] events form asked_again form_Registered refl

greeter_steps-Asks_example :
    Memᴰ (auth 0 (codes "alice") (codes "other") (some (codes "E"))) []
    ⊎ Asks 0 0 (codes "alice") (some (codes "E"))
unfolding greeter_steps login_check_auth entrance.Greeter.Login.login_auth_cb
    entrance.Greeter.Login.login_entry_changed_cb
greeter_steps-Asks_example =
    greeter_steps-Asks [] events form asked_again 0 (codes "alice") (codes "other")
      (some (codes "E")) form_Registered refl (Memᴰ.head refl)

asked_Registered : Registered asked
unfolding greeter_step login_check_auth
asked_Registered = record { callbacks = refl; waits = refl }

connect_auth-answered_example :
    connect_auth false (some (codes "no")) asked ≡ result (answered false (some (codes "no")) asked)
connect_auth-answered_example =
    connect_auth-answered false (some (codes "no")) asked asked_Registered

greeter_step-Served_example : Served system_ config form idle logged_in (of_user check)
unfolding greeter_step login_check_auth entrance_server_read_cb
    entrance.Session.Defs.entrance_session_authenticate entrance.Common.slot_get
    entrance.Common.slot_set entrance.Pam.entrance_pam_start entrance.Pam.entrance_pam_passwd_set
    entrance.Pam.entrance_pam_authenticate entrance.Session.Defs.entrance_session_login_get
    entrance.Pam.entrance_pam_item_get entrance.History.entrance_history_check
    entrance.Session.Command.entrance_session_find_command entrance.Common.str_eq
    entrance.Session.Run.session_parent
greeter_step-Served_example =
    greeter_step-Served [] system_ config (of_user check) login_event form asked idle logged_in
      form_Registered refl refl refl

unfocused_check-Submitted_example :
    (t : Greeter) × (((login_login_unfocused_cb >> login_check_auth) form ≡ some (tt, t))
      × Submitted form t)
unfocused_check-Submitted_example =
    unfocused_check-Submitted form xsession [] refl ((codes "E", (refl, refl)), tt) refl refl
