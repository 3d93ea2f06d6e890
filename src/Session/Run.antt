-- ===== src/Session/Run.antt =====
-- `_entrance_session_run` of src/daemon/entrance_session.c: what the forked child does up to the user's
-- shell, and what the parent keeps. The system's answers are a parameter, and each request is recorded
-- with its answer.
pub mod Drop
use entrance.Image.{Passwd}
use entrance.Pam.{
  PamLib, PamState, entrance_pam_session_open, entrance_pam_env_set, entrance_pam_env_list_get,
  entrance_pam_session_close, entrance_pam_end, entrance_pam_shutdown,
}
use entrance.Session.Defs.{Session, Seats, session_at, update}
use entrance.Common.{
  ℕ, suc, Bool, true, false, not, ◌||◌, List, [], ◌∷◌, ◌++◌, Option, none, some, Str, codes,
  decimal, truncate, if◌then◌else◌, M, ◌>>=◌, ◌>>◌, ret, get, modify, deref, slot_get, ◌==◌, map,
}

pub data Request : Type 0 where
  setsid : Request
  system chdir remove : Str → Request
  initgroups : Str → ℕ → Request
  setgid setuid : ℕ → Request
  popen : Str → Str → Request
  execle : Str → Str → List Str → Request

-- The answer (true is success) from the requests before, newest first.
pub record Host : Type 0 where
  pub path_max : ℕ
  pub answer : List (Request × Bool) → Request → Bool
  pub getusershell : Option Str
  pub term : Option Str

-- The commands of the configuration that a session uses.
pub record Commands : Type 0 where
  pub session_path : Str
  pub session_start : Str
  pub session_login : Str
  pub xauth_path : Option Str

pub record Child : Type 0 where
  pub seats : Seats
  pub requests : List (Request × Bool)

-- How the child's code ends: `exit(1)`, a return into the daemon's code, or the user's shell.
pub data ChildEnd : Type 0 where
  exited returned execed : ChildEnd

unfoldable pub attempt : Host → Request → M Child Bool
attempt host r s =
    some
      (host.answer s.requests r, record s { requests = (r, host.answer s.requests r) ∷ s.requests })

unfoldable pub pam : {A : Type 0} → M PamState A → M Child A
pam m s = elim (m s.seats.pam) [
  | none ↦ none
  | some (a, p) ↦ some (a, record s { seats = record (s.seats) { pam = p } })
]

abbrev pub child_session : ℕ → M Child Session
child_session id s = deref (slot_get s.seats.sessions id) s

-- 0 is success.
unfoldable pub entrance_session_userid_set : Host → Passwd → M Child Bool
unfolding attempt
entrance_session_userid_set host pwd = do
  groups ← attempt host (initgroups pwd.pw_name pwd.pw_gid)
  if not groups then ret true else do
    gid ← attempt host (setgid pwd.pw_gid)
    if not gid then ret true else do uid ← attempt host (setuid pwd.pw_uid); ret (not uid)

-- An empty shell is replaced by the system's first one.
unfoldable pub entrance_session_shell_set : Host → Passwd → Passwd
entrance_session_shell_set host pwd = elim pwd.pw_shell [
  | [] ↦ elim host.getusershell [
    | none ↦ pwd
    | some shell ↦ record pwd { pw_shell = truncate host.path_max shell }
  ]
  | c ∷ cs ↦ pwd
]

cookie_lines : Str → Str → Str
cookie_lines display mcookie =
    codes "remove "
    ++ display
    ++ codes "\nadd "
    ++ display
    ++ codes " . "
    ++ mcookie
    ++ codes "\nexit\n"

-- 0 is success.
unfoldable pub entrance_session_cookie_add : Host → Str → Str → Option Str → Str → M Child Bool
unfolding attempt cookie_lines
entrance_session_cookie_add host mcookie display none auth_file = ret true
entrance_session_cookie_add host mcookie display (some xauth) auth_file = do
  opened ← attempt host (
      popen (truncate host.path_max (xauth ++ codes " -f " ++ auth_file ++ codes " -q"))
        (cookie_lines display mcookie))
  ret (not opened)

-- Line ends in the first 128 bytes of TERM become spaces.
sanitized : ℕ → Str → Str
sanitized ℕ.zero s = s
sanitized (suc n) [] = []
sanitized (suc n) (c ∷ cs) = (if (c == 10) || (c == 13) then b' ' else c) ∷ sanitized n cs

term_value : Option Str → Str
unfolding sanitized
term_value none = codes "xterm"
term_value (some t) = truncate 128 (sanitized 128 t)

-- The variables that the session gets, in order; TERM is left out when it is empty.
unfoldable pub session_env :
    Host → Commands → ℕ → Session → Passwd → Option Str → Str → Bool → List (Str × Option Str)
unfolding term_value
session_env host cfg id p pwd session cookie is_wayland =
    let vars =
      (codes "HOME", some pwd.pw_dir)
      ∷ (codes "SHELL", some pwd.pw_shell)
      ∷ (codes "USER", some pwd.pw_name)
      ∷ (codes "LOGNAME", some pwd.pw_name)
      ∷ (codes "PATH", some cfg.session_path)
      ∷ (codes "DISPLAY", p.display)
      ∷ (codes "MAIL", some (truncate host.path_max (codes "/var/mail/" ++ pwd.pw_name)))
      ∷ (codes "XAUTHORITY", some cookie)
      ∷ (codes "XDG_SEAT", some (truncate 64 (codes "seat" ++ decimal id)))
      ∷ (
        codes "XDG_SEAT_PATH",
        some (truncate 128 (codes "/org/freedesktop/DisplayManager/Seat" ++ decimal id)),
      )
      ∷ (codes "XDG_SESSION_CLASS", some (codes "user"))
      ∷ (codes "XDG_SESSION_DESKTOP", session)
      ∷ (
        codes "XDG_SESSION_PATH",
        some (truncate 128 (codes "/org/freedesktop/DisplayManager/Session" ++ decimal id)),
      )
      ∷ (codes "XDG_SESSION_TYPE", some (if is_wayland then codes "wayland" else codes "x11"))
      ∷ (codes "XDG_VTNR", some (truncate 64 (decimal p.vt)))
      ∷ [] in
    elim (term_value host.term) [ [] ↦ vars | c ∷ cs ↦ (codes "TERM", some (c ∷ cs)) ∷ vars ]

module _ (host : Host) (cfg : Commands) (lib : PamLib) (id : ℕ) (pwd : Passwd) where
  set_env : List (Str × Option Str) → M PamState (Unit {0})
  set_env [] = ret tt
  set_env ((name, value) ∷ vars) = do
    failed ← entrance_pam_env_set lib id (some name) value
    set_env vars

  abbrev log_file : Str
  log_file = pwd.pw_dir ++ codes "/.entrance_session.log"

  -- `%s` of a NULL pointer in the C library's `printf`.
  abbrev shown : Option Str → Str
  shown none = codes "(null)"
  shown (some s) = s

  abbrev pub old_log : Str
  old_log = truncate host.path_max log_file

  -- What the user's shell is to run.
  abbrev pub shell_line : Str → Str
  shell_line cmd =
      truncate host.path_max
        (cfg.session_login ++ codes " " ++ cmd ++ codes " > \"" ++ log_file ++ codes "\" 2>&1")

  abbrev start_line : Session → Str
  start_line p =
      truncate host.path_max
        (cfg.session_start ++ codes " " ++ shown p.display ++ codes " " ++ pwd.pw_name)

  -- The child once the privileges are dropped.
  launch : Session → Str → Str → List Str → M Child ChildEnd
  unfolding attempt pam entrance_session_cookie_add
  launch p cmd cookie env = do
    failed ←
        entrance_session_cookie_add host (shown p.mcookie) (shown p.display) cfg.xauth_path cookie
    moved ← attempt host (chdir pwd.pw_dir)
    if not moved then ret returned else do
      pam (entrance_pam_session_close lib id)
      ended ← pam (entrance_pam_end lib id)
      pam (entrance_pam_shutdown id)
      removed ← attempt host (remove old_log)
      ran ← attempt host (execle pwd.pw_shell (shell_line cmd) env)
      ret (if ran then execed else returned)

  drop_and_launch : Session → Str → Str → List Str → M Child ChildEnd
  unfolding entrance_session_userid_set launch
  drop_and_launch p cmd cookie env = do
    denied ← entrance_session_userid_set host pwd
    if denied then ret returned else launch p cmd cookie env

  unfoldable pub session_child : Option Str → Str → Str → Bool → M Child ChildEnd
  unfolding attempt pam set_env session_env drop_and_launch
  session_child session cmd cookie is_wayland = do
    leader ← attempt host setsid
    if not leader then ret exited else do
      refused ← pam (entrance_pam_session_open lib id)
      if refused then ret exited else do
        p ← child_session id
        pam (set_env (session_env host cfg id p pwd session cookie is_wayland))
        env ← pam (entrance_pam_env_list_get lib id)
        started ← attempt host (system (start_line p))
        drop_and_launch p cmd cookie env

-- `fork` in the parent: the child's pid, or a failure.
unfoldable pub session_parent : ℕ → Option ℕ → M Seats (Unit {0})
unfolding update
session_parent id none = ret tt
session_parent id (some pid) = update id (λ p. record p { pid = pid })
