-- ===== src/Session/Defs.antt =====
-- src/daemon/entrance_session.c: the state of the sessions and the operations on one seat, its start
-- and shutdown, authentication, and the seat's cookie. The PAM library and `strdup` are parameters.
use entrance.Pam.{
  PamLib, PamState, entrance_pam_start, entrance_pam_passwd_set, entrance_pam_authenticate,
}
use entrance.Common.{
  ℕ, ◌/◌, ◌%◌, Bool, false, not, List, [], ◌∷◌, ◌++◌, Option, none, some, Str, codes, decimal,
  truncate, if◌then◌else◌, M, ◌>>=◌, ◌>>◌, ret, get, modify, deref, Slot, slot_get, slot_set,
  get_elem?, set, replicate,
}

pub record Session : Type 0 where
  pub pid : ℕ
  pub vt : ℕ
  pub login : Option Str
  pub mcookie : Option Str
  pub display : Option Str

pub record Seats : Type 0 where
  pub sessions : List (Slot Session)
  pub pam : PamState

-- A step of the PAM module.
unfoldable pub with_pam : {A : Type 0} → M PamState A → M Seats A
with_pam m s = elim (m s.pam) [ none ↦ none | some (a, p) ↦ some (a, record s { pam = p }) ]

abbrev pub session_at : ℕ → M Seats Session
session_at id s = deref (slot_get s.sessions id) s

unfoldable pub update : ℕ → (Session → Session) → M Seats (Unit {0})
update id f = do
  p ← session_at id
  modify (λ s. record s { sessions = slot_set s.sessions id (f p) })

-- `_sessions` is an array of NULL pointers at first.
unfoldable pub entrance_sessions_init : ℕ → M Seats (Unit {0})
entrance_sessions_init count = modify λ s. record s { sessions = replicate count Slot.null }

unfoldable pub entrance_session_pid_get : ℕ → M Seats ℕ
entrance_session_pid_get id = do p ← session_at id; ret p.pid

unfoldable pub entrance_session_login_get : ℕ → M Seats (Option Str)
entrance_session_login_get id = do p ← session_at id; ret p.login

abbrev pub hex_digit : ℕ → ℕ
hex_digit n = elim (get_elem? (codes "0123456789abcdef") n) [ none ↦ 0 | some d ↦ d ]

-- One round of the loop over a random number: the low word's digits, low byte first.
unfoldable pub cookie_word : ℕ → Str
cookie_word rand =
    let word = rand % 65536 in
    let lo = word % 256 in
    let hi = word / 256 in
    hex_digit (lo % 16) ∷ hex_digit (lo / 16) ∷ hex_digit (hi % 16) ∷ hex_digit (hi / 16) ∷ []

-- The eight rounds: what `fread` of the random device yields, or the clock where it yields none.
unfoldable pub cookie_of : List (Option ℕ × ℕ) → Str
unfolding cookie_word
cookie_of [] = []
cookie_of ((read, clock) ∷ rounds) =
    cookie_word (elim read [ none ↦ clock | some r ↦ r ]) ++ cookie_of rounds

-- The cookie part of `entrance_session_cookie`; writing it to the X authority
-- file is left out, and the file's name is in Session/Xauth.
unfoldable pub entrance_session_cookie : List (Option ℕ × ℕ) → ℕ → M Seats (Unit {0})
unfolding cookie_of update
entrance_session_cookie rounds id = update id (λ p. record p { mcookie = some (cookie_of rounds) })

unfoldable pub start_at : Option (Slot Session) → ℕ → Session → M Seats (Unit {0})
start_at none id p s = none
start_at (some old) id p s = some (tt, record s { sessions = slot_set s.sessions id p })

unfoldable pub entrance_session_start :
    (Str → Option Str) → List (Option ℕ × ℕ) → ℕ → Str → ℕ → M Seats (Unit {0})
unfolding start_at entrance_session_cookie
entrance_session_start strdup rounds id display vt = do
  s ← get
  start_at (get_elem? s.sessions id) id
      (record { pid = 0; vt = vt; login = none; mcookie = none; display = strdup display })
  entrance_session_cookie rounds id

unfoldable pub shutdown_slot : Option (Slot Session) → ℕ → M Seats (Unit {0})
shutdown_slot none id s = none
shutdown_slot (some Slot.null) id s = some (tt, s)
shutdown_slot (some Slot.freed) id s = none
shutdown_slot (some (Slot.live p)) id s =
    some (tt, record s { sessions = set s.sessions id Slot.freed })

-- `_sessions[id]` keeps the address of what it frees.
unfoldable pub entrance_session_shutdown : ℕ → M Seats (Unit {0})
unfolding shutdown_slot
entrance_session_shutdown id s = shutdown_slot (get_elem? s.sessions id) id s

module _ (lib : PamLib) (strdup : Str → Option Str) where
  unfoldable pub authenticate_pam : ℕ → Session → Str → Str → M Seats Bool
  unfolding with_pam
  authenticate_pam id p login passwd = do
    let tty_name = truncate 16 (codes "tty" ++ decimal p.vt)
    started ← with_pam (entrance_pam_start lib id (some (codes "entrance")) (some tty_name) login)
    failed ← with_pam (entrance_pam_passwd_set strdup id passwd)
    if failed
        then ret false
        else do refused ← with_pam (entrance_pam_authenticate lib id); ret (not refused)

  unfoldable pub entrance_session_authenticate : ℕ → Str → Str → M Seats Bool
  unfolding authenticate_pam update
  entrance_session_authenticate id login passwd = do
    update id (λ p. record p { login = strdup login })
    p ← session_at id
    elim p.login [ none ↦ ret false | some l ↦ authenticate_pam id p login passwd ]
