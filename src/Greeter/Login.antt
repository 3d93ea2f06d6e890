-- ===== src/Greeter/Login.antt =====
-- src/bin/entrance_login.c: the callbacks of the login form.
use entrance.History.{EntranceLogin}
use entrance.Server.Login.{auth}
use entrance.Greeter.Defs.{
  Xsession, auth_checking, auth_changed, auth_valid, Icon, standard, file, Greeter, emit,
  alert_error, user_of,
}
use entrance.Common.{
  ℕ, suc, Bool, true, false, ◌&&◌, List, [], ◌∷◌, ◌++◌, Option, none, some, Str, codes, M, ◌>>=◌,
  ◌>>◌, ret, get, modify, if◌then◌else◌, str_eq, head?, ◌==◌,
}

abbrev pub is_nil : Str → Bool
is_nil [] = true
is_nil (c ∷ s) = false

-- `entrance_connect_auth_cb_add` and `entrance_connect_auth_cb_del` of src/bin/entrance_connect.c.
unfoldable pub auth_cb_add : M Greeter ℕ
auth_cb_add = do
  s ← get
  modify
      (λ t. record t { auth_list = t.auth_list ++ t.next_auth ∷ []; next_auth = suc t.next_auth })
  ret s.next_auth

unfoldable pub remove_handle : ℕ → List ℕ → List ℕ
remove_handle h [] = []
remove_handle h (k ∷ ks) = if k == h then ks else k ∷ remove_handle h ks

unfoldable pub auth_cb_del : Option ℕ → M Greeter (Unit {0})
unfolding remove_handle
auth_cb_del none = ret tt
auth_cb_del (some h) = modify λ s. record s { auth_list = remove_handle h s.auth_list }

-- `entrance_connect_auth_send` of src/bin/entrance_connect.c.
unfoldable pub auth_send : Str → Str → Str → M Greeter (Unit {0})
auth_send login password session =
    modify λ s. record s { sent = auth s.client_id login password (some session) ∷ s.sent }

unfoldable pub register : Option ℕ → M Greeter (Unit {0})
unfolding auth_cb_add
register (some h) = ret tt
register none = do h ← auth_cb_add; modify (λ s. record s { auth = some h })

-- The request, once the form is complete.
unfoldable pub request_auth : Str → M Greeter (Unit {0})
unfolding register auth_send emit
request_auth name = do
  modify (λ s. record s { wait = true })
  s ← get
  register s.auth
  auth_send s.login_text s.password_text name
  emit auth_checking

unfoldable pub no_session : M Greeter (Unit {0})
unfolding alert_error
no_session = alert_error (codes "Please choose a login session")

-- A session without a name, or with an empty one, is none.
unfoldable pub session_name : Option Xsession → Option Str
session_name none = none
session_name (some x) = elim x.name [
  | none ↦ none
  | some name ↦ if is_nil name then none else some name
]

unfoldable pub login_check_auth : M Greeter (Unit {0})
unfolding request_auth no_session alert_error session_name
login_check_auth = do
  s ← get
  if is_nil s.login_text
      then alert_error (codes "Please enter your user name")
      else (if s.gui.req_passwd && is_nil s.password_text
          then alert_error (codes "Please enter your password")
          else elim (session_name s.session) [ none ↦ no_session | some name ↦ request_auth name ])

unfoldable pub login_entry_changed_cb : M Greeter (Unit {0})
unfolding emit
login_entry_changed_cb = do
  s ← get
  if s.error then (do emit auth_changed; modify (λ t. record t { error = false })) else ret tt

-- An icon's name that begins with a slash is a file.
abbrev icon_of : Str → Icon
icon_of [] = standard []
icon_of (c ∷ s) = if c == b'/' then file (c ∷ s) else standard (c ∷ s)

abbrev shown_icon : Option Str → Option Icon
shown_icon none = none
shown_icon (some []) = none
shown_icon (some (c ∷ s)) = some (icon_of (c ∷ s))

abbrev pub with_session : Option Xsession → Greeter → Greeter
with_session none s = s
with_session (some x) s = record s { button = record { label = x.name; icon = shown_icon x.icon } }

unfoldable pub login_xsession_update : M Greeter (Unit {0})
login_xsession_update = modify λ s. with_session s.session s

unfoldable pub session_named : List Xsession → Str → Option Xsession
session_named [] name = none
session_named (x ∷ xs) name =
    let rest = session_named xs name in
    elim x.name [ none ↦ rest | some n ↦ if str_eq n name then some x else rest ]

-- The session of the list with this name, or the first of the list.
unfoldable pub session_or_first : List Xsession → Option Str → Option Xsession
unfolding session_named
session_or_first xsessions none = head? xsessions
session_or_first xsessions (some name) = elim (session_named xsessions name) [
  | none ↦ head? xsessions
  | some x ↦ some x
]

unfoldable pub entrance_login_session_set : Option Str → M Greeter (Unit {0})
unfolding session_or_first login_xsession_update
entrance_login_session_set name = do
  modify (λ s. record s { session = session_or_first s.gui.xsessions name })
  login_xsession_update

-- The session that the user's entry names.
abbrev pub last_session : Option EntranceLogin → Option Str
last_session none = none
last_session (some eu) = eu.session

unfoldable pub login_xsession_guess : Str → M Greeter (Unit {0})
unfolding entrance_login_session_set user_of
login_xsession_guess user = do
  s ← get
  entrance_login_session_set (last_session (user_of s.gui.users user))

unfoldable pub login_login_unfocused_cb : M Greeter (Unit {0})
unfolding login_xsession_guess
login_login_unfocused_cb = do
  modify (λ s. record s { write_timer = false })
  s ← get
  login_xsession_guess s.login_text

unfoldable pub login_login_timer_cb : M Greeter (Unit {0})
unfolding login_xsession_guess
login_login_timer_cb = do
  s ← get
  login_xsession_guess s.login_text
  modify (λ t. record t { write_timer = false })

unfoldable pub login_login_changed_cb : M Greeter (Unit {0})
unfolding login_entry_changed_cb
login_login_changed_cb = do login_entry_changed_cb; modify (λ s. record s { write_timer = true })

unfoldable pub login_xsession_clicked_cb : Option Xsession → M Greeter (Unit {0})
unfolding login_xsession_update
login_xsession_clicked_cb x = do modify (λ s. record s { session = x }); login_xsession_update

-- `strnlen` of a NULL text is a fault.
unfoldable pub login_refused : Option Str → M Greeter (Unit {0})
unfolding alert_error
login_refused none s = none
login_refused (some msgs) s =
    (do
      alert_error (if is_nil msgs then codes "Login failed" else msgs)
      modify (λ t. record t { password_text = [] }))
      s

unfoldable pub login_auth_cb : Bool → Option Str → M Greeter (Unit {0})
unfolding auth_cb_del login_refused emit
login_auth_cb granted msgs = do
  s ← get
  if s.wait
      then (do
        modify (λ t. record t { wait = false })
        auth_cb_del s.auth
        modify (λ t. record t { auth = none })
        if granted then emit auth_valid else login_refused msgs)
      else ret tt

unfoldable pub entrance_login_xsessions_populate : List Xsession → M Greeter (Unit {0})
unfolding login_xsession_update
entrance_login_xsessions_populate xsessions = do
  modify (λ s. record s {
    screen = record (s.screen) { session_items = s.screen.session_items ++ xsessions };
    session = head? xsessions;
  })
  login_xsession_update

-- The callback of the entry whose text is set is an event of its own.
unfoldable pub entrance_login_login_set : Str → M Greeter (Unit {0})
unfolding login_xsession_guess
entrance_login_login_set user = do
  modify (λ s. record s { login_text = user })
  login_xsession_guess user
