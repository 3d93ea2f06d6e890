-- ===== src/Server/Defs.antt =====
-- The state of the daemon that a client's events change, and the events sent to the clients, of
-- src/daemon/entrance_server.c and the parts that it calls.
use entrance.Image.{Passwd, Image}
use entrance.Pam.{PamLib}
use entrance.History.{HistoryState}
use entrance.Session.Defs.{Seats}
use entrance.Session.Desktops.{Xsession}
use entrance.Session.Command.{Paths}
use entrance.Session.Run.{Host, Commands}
use entrance.Action.{Actions, ActionCommands, Action}
use entrance.Common.{ℕ, Bool, List, ◌∷◌, Option, none, some, Str, M, modify, Slot}

-- The fields of the configuration that the server and a login use.
pub record Config : Type 0 where
  pub bg : Image
  pub bg_random : Bool
  pub req_passwd : Bool
  pub showlogin : Bool
  pub autoselect_last_user : Bool
  pub theme : Option Str
  pub xsessions : Bool
  pub custom_conf : Bool
  pub userlogin : Str
  pub commands : Commands
  pub actions : ActionCommands

-- A session that was started: the seat, the user, the command and whether it is a Wayland session.
pub record Launch : Type 0 where
  pub id : ℕ
  pub pwd : Passwd
  pub session : Option Str
  pub cmd : Str
  pub cookie : Str
  pub is_wayland : Bool

-- What the daemon runs on.
pub record System : Type 0 where
  pub lib : PamLib
  pub host : Host
  pub paths : Paths
  pub getpwnam : Str → Option Passwd
  pub strdup : Str → Option Str
  pub exe_run : List Str → Str → Option ℕ
  pub fork : List Launch → Option ℕ
  pub getpid : ℕ
  pub icons : List Image
  pub backgrounds : List Image

-- The login of a status message: a NULL pointer, a text, or memory that was freed before the
-- message is sent.
pub data LoginText : Type 0 where
  no_login dangling : LoginText
  text : Str → LoginText

-- What the server tells its clients. A field that the code leaves unset is not here.
pub data Message : Type 0 where
  pid : ℕ → Message
  actions : List Action → Message
  xsessions : List Xsession → Message
  conf_gui : Image → Bool → Bool → Bool → Bool → Option Str → Message
  users : List ℕ → Message
  pools : List Image → List Image → Message
  status : LoginText → Bool → Option Str → Message

-- `launched` are the sessions whose process was forked, newest first; `clients` the process of
-- each seat's client.
pub record Daemon : Type 0 where
  pub seats : Seats
  pub history : HistoryState
  pub xsessions : List Xsession
  pub actions : Actions
  pub auto_login : Bool
  pub clients : List (Slot ℕ)
  pub launched : List Launch
  pub sent : List Message

unfoldable pub with_seats : {A : Type 0} → M Seats A → M Daemon A
with_seats m s = elim (m s.seats) [ none ↦ none | some (a, t) ↦ some (a, record s { seats = t }) ]

unfoldable pub with_history : {A : Type 0} → M HistoryState A → M Daemon A
with_history m s = elim (m s.history) [
  | none ↦ none
  | some (a, t) ↦ some (a, record s { history = t })
]

unfoldable pub send : Message → M Daemon (Unit {0})
send m = modify λ s. record s { sent = m ∷ s.sent }
