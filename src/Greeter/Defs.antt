-- ===== src/Greeter/Defs.antt =====
-- The state of the greeter: the login form of src/bin/entrance_login.c, the connection of
-- src/bin/entrance_connect.c, and the window of src/bin/entrance_gui.c with one screen. The text of an
-- entry is never NULL.
use entrance.History.{EntranceLogin}
use entrance.Image.{Image}
use entrance.Action.{Action}
use entrance.Server.Login.{ClientEvent}
use entrance.Common.{
  ℕ, Bool, true, List, [], ◌∷◌, Option, none, some, Str, M, ◌>>◌, modify, if◌then◌else◌, str_eq,
}

-- A desktop session as the greeter receives it. The name is NULL when it was not sent.
pub record Xsession : Type 0 where
  pub name : Option Str
  pub icon : Option Str

-- What is emitted to the theme of the form.
pub data Signal : Type 0 where
  auth_checking auth_changed auth_valid login_show users_enabled action_enabled : Signal
  auth_error : Str → Signal

-- The icon of the session button: one of the icon theme, or a file.
pub data Icon : Type 0 where
  standard file : Str → Icon

pub record Button : Type 0 where
  pub label : Option Str
  pub icon : Option Icon

-- `Entrance_Gui`: `changed` is a byte of flags, `conf_bg` the background of the configuration.
pub record Gui : Type 0 where
  pub xsessions : List Xsession
  pub users : List EntranceLogin
  pub actions : List Action
  pub background_pool : List Image
  pub icon_pool : List Image
  pub theme_icon_pool : List Image
  pub theme : Option Str
  pub bg : Image
  pub conf_bg : Image
  pub conf_bg_random : Bool
  pub changed : ℕ
  pub req_passwd : Bool
  pub showlogin : Bool
  pub vkbd_enabled : Bool
  pub autoselect_last_user : Bool

-- The items that the screen's widgets hold, the selected user, and the wallpaper.
pub record Screen : Type 0 where
  pub session_items : List Xsession
  pub user_items : List EntranceLogin
  pub action_items : List Action
  pub first_selected : Bool
  pub wallpaper : Option Image

pub record Greeter : Type 0 where
  pub client_id : ℕ
  pub login_text : Str
  pub password_text : Str
  pub write_timer : Bool
  pub session : Option Xsession
  pub button : Button
  -- `auth` is the handle of the callback that the form has registered.
  pub auth : Option ℕ
  pub error : Bool
  pub wait : Bool
  -- `auth_list` holds the handles of the registered callbacks; the next one is `next_auth`.
  pub auth_list : List ℕ
  pub next_auth : ℕ
  pub gui : Gui
  pub screen : Screen
  pub server_pid : Option ℕ
  pub signals : List Signal
  pub sent : List ClientEvent
  pub exited : Bool

unfoldable pub emit : Signal → M Greeter (Unit {0})
emit x = modify λ s. record s { signals = x ∷ s.signals }

-- `ALERT_ERROR`.
unfoldable pub alert_error : Str → M Greeter (Unit {0})
unfolding emit
alert_error text = do emit (auth_error text); modify (λ s. record s { error = true })

-- The first structure of the list with the login.
unfoldable pub user_of : List EntranceLogin → Str → Option EntranceLogin
user_of [] user = none
user_of (eu ∷ users) user =
    let rest = user_of users user in if str_eq eu.login user then some eu else rest
