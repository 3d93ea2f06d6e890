-- ===== src/Server/Starts.antt =====
-- `_entrance_server_read_cb` of src/daemon/entrance_server.c: which events start a session or a command.
use entrance.Action.{ActionData, command_of, entrance_action_run, run_func}
use entrance.Pam.{
  PamState, PamCall, ItemType, entrance_pam_item_get, entrance_pam_conv_msgs_get, entrance_pam_end,
}
use entrance.Pam.Auth.{Accepted}
use entrance.Pam.Frame.{Grown, item_get_grows}
use entrance.Session.Defs.{Seats, with_pam, entrance_session_authenticate}
use entrance.Server.Defs.{System, Config, Daemon, Launch, with_seats}
use entrance.Server.Grant.{AcceptedSince, session_authenticate-Accepted}
use entrance.Server.Launches.{
  Starts, starts_of, AnyPam, OnSeats, Still, Only, AtMost, AddsFor, StartedFor, still_seats,
  still_send, granted_adds,
}
use entrance.Server.Login.{
  ClientEvent, auth, action, client_pid, other, entrance_server_read_cb, granted, refused,
}
use entrance.Common.{
  ℕ, ◌≡◌, refl, ◌∙◌, subst, ◌⊎◌, inl, inr, Bool, true, false, List, [], ◌∷◌, Option, none, some,
  Str, arith, M, Ensures, >>=-Ensures, slot_get, if◌then◌else◌, Option-cases, get_elem?,
}

-- Whether an event asks for no action that there is.
abbrev pub NoAction : Daemon → ClientEvent → Type 0
NoAction s (action a) = get_elem? s.actions.actions a ≡ none
NoAction s _ = Unit {0}

-- What the handler of an event has started: nothing, unless it asks for an action that there is; the
-- command of that action; or, for an authentication event that the library accepted meanwhile, one session.
pub data Effect (sys : System) (cfg : Config) (s t : Daemon) : ClientEvent → Type 0 where
  unchanged : {ev : ClientEvent} → NoAction s ev → starts_of t ≡ starts_of s → Effect sys cfg s t ev
  command_run :
      {a : ℕ} (ead : ActionData)
      → get_elem? s.actions.actions a ≡ some ead
      → t.launched ≡ s.launched
      → t.actions.actions ≡ s.actions.actions
      → t.actions.launched ≡ command_of cfg.actions sys.exe_run ead.func ∷ s.actions.launched
      → Effect sys cfg s t (action a)
  started :
      {id : ℕ} {login password : Str} {session : Option Str} (l : Launch)
      → starts_of t ≡ (l ∷ s.launched, s.actions)
      → StartedFor sys id session l
      → AcceptedSince sys.lib s.seats.pam.calls t.seats.pam.calls
      → Effect sys cfg s t (auth id login password session)

module _ (sys : System) (cfg : Config) (base : Starts) (start : List PamCall) where
  AcceptedPam : PamState → Type 0
  AcceptedPam p = AcceptedSince sys.lib start p.calls

  -- Reading the user's name keeps the acceptance.
  item_accepted :
      (id : ℕ)
      → OnSeats
          (Only sys cfg base AcceptedPam)
          AcceptedPam
          (with_pam (entrance_pam_item_get sys.lib id ItemType.user))
  unfolding OnSeats AcceptedPam with_pam
  item_accepted id = record {
    ensures = λ s a t (b, acc, g, ok, later) e.
        go s a t b acc g ok later (entrance_pam_item_get sys.lib id ItemType.user s.pam) refl e;
  }
    where
      go :
          (s : Seats) (a : Option Str) (t : Seats) (b acc : List PamCall)
          → Grown start b
          → Accepted sys.lib b acc
          → Grown acc s.pam.calls
          → (o : Option (Option Str × PamState))
          → entrance_pam_item_get sys.lib id ItemType.user s.pam ≡ o
          → ◌≡◌ {A = Option (Option Str × Seats)}
              (elim o [ none ↦ none | some (a, p) ↦ some (a, record s { pam = p }) ])
              (some (a, t))
          → AcceptedPam t.pam
      go s a t b acc g ok later none q e = cc
      go s a t b acc g ok later (some (x, u)) q e =
          let same : u ≡ t.pam = ground arith in
          (
            b,
            acc,
            g,
            ok,
            subst (λ y. Grown acc y.calls) same
                ((item_get_grows sys.lib sys.strdup id acc ItemType.user).ensures s.pam x u later
                  q),
          )

  Before : Daemon → Type 0
  Before s = (starts_of s ≡ base) × Grown start s.seats.pam.calls

  Answered : Bool → Daemon → Type 0
  Answered b t = (starts_of t ≡ base) × (b ≡ true → AcceptedPam t.seats.pam)

  Outcome : ℕ → Option Str → Daemon → Type 0
  Outcome id session t =
      (starts_of t ≡ base)
      ⊎ ((l : Launch) × (starts_of t ≡ (l ∷ base.0, base.1))
          × StartedFor sys id session l
          × AcceptedPam t.seats.pam)

  authenticate-Answered :
      (id : ℕ) (login password : Str)
      → Ensures Before
          (with_seats (entrance_session_authenticate sys.lib sys.strdup id login password))
          Answered
  unfolding with_seats Before Answered AcceptedPam
  authenticate-Answered id login password = record {
    ensures = λ s b t p e.
        go s b t p (entrance_session_authenticate sys.lib sys.strdup id login password s.seats) refl
          e;
  }
    where
      go :
          (s : Daemon) (b : Bool) (t : Daemon)
          → Before s
          → (o : Option (Bool × Seats))
          → entrance_session_authenticate sys.lib sys.strdup id login password s.seats ≡ o
          → ◌≡◌ {A = Option (Bool × Daemon)}
              (elim o [ none ↦ none | some (a, u) ↦ some (a, record s { seats = u }) ])
              (some (b, t))
          → Answered b t
      go s b t p none q e = cc
      go s b t p (some (c, u)) q e =
          let same : record s { seats = u } ≡ t = ground arith in
          let result : c ≡ b = ground arith in
          subst (Answered b) same (
            p.0,
            λ yes.
                (session_authenticate-Accepted sys.lib sys.strdup start id login password).ensures
                  s.seats c u p.1 q (result ∙ yes),
          )

  grant-Outcome :
      (id : ℕ) (session : Option Str)
      → Ensures (Answered true) (granted sys cfg id session) (λ u. Outcome id session)
  unfolding Answered Outcome AddsFor Only AtMost
  grant-Outcome id session = record {
    ensures = λ s a t p e.
        let (atmost, ok) =
          (granted_adds sys cfg base AcceptedPam id session (item_accepted id)).ensures s a t
            (p.0, p.1 refl) e in
        elim atmost [ inl same ↦ inl same | inr (l, more, for_it) ↦ inr (l, more, for_it, ok) ];
  }

  refuse-Outcome :
      (id : ℕ) (session : Option Str)
      → Ensures (Answered false) (refused sys cfg id) (λ u. Outcome id session)
  unfolding Answered Outcome refused Still OnSeats Only
  refuse-Outcome id session = record {
    ensures = λ s a t p e. inl (still.ensures s a t (p.0, tt) e).0;
  }
    where
      L : Starts → Type 0
      L = Only sys cfg base AnyPam

      any : {A : Type 0} (m : M Seats A) → OnSeats L AnyPam m
      any m = record { ensures = λ s a t p e. tt }

      still : Still L AnyPam (refused sys cfg id)
      still =
          >>=-Ensures (still_seats L AnyPam _ (any (with_pam (entrance_pam_conv_msgs_get id))))
            λ msgs.
              >>=-Ensures (still_seats L AnyPam _ (any (with_pam (entrance_pam_end sys.lib id))))
                λ ended. still_send L AnyPam _

  auth-Outcome :
      (id : ℕ) (login password : Str) (session : Option Str)
      → Ensures Before
          (entrance_server_read_cb sys cfg (auth id login password session))
          (λ u. Outcome id session)
  unfolding entrance_server_read_cb
  auth-Outcome id login password session =
      >>=-Ensures (authenticate-Answered id login password) λ ok. by_answer ok
    where
      by_answer :
          (ok : Bool)
          → Ensures
              (Answered ok)
              (if ok then granted sys cfg id session else refused sys cfg id)
              (λ u. Outcome id session)
      by_answer true = grant-Outcome id session
      by_answer false = refuse-Outcome id session

client_starts :
    (sys : System) (cfg : Config) (id p : ℕ) (s t : Daemon)
    → entrance_server_read_cb sys cfg (client_pid id p) s ≡ some (tt, t)
    → starts_of t ≡ starts_of s
unfolding entrance_server_read_cb
client_starts sys cfg id p s t e = elim (Option-cases (slot_get s.clients id)) [
  | inl n ↦ ground arith
  | inr (c, f) ↦ ground arith
]

action-Effect :
    (sys : System) (cfg : Config) (a : ℕ) (s t : Daemon)
    → entrance_server_read_cb sys cfg (action a) s ≡ some (tt, t)
    → Effect sys cfg s t (action a)
unfolding entrance_server_read_cb entrance_action_run run_func
action-Effect sys cfg a s t e =
    let same : record s { actions = entrance_action_run cfg.actions sys.exe_run s.actions a } ≡ t =
      ground arith in
    subst (λ u. Effect sys cfg s u (action a)) same (by_entry (get_elem? s.actions.actions a) refl)
  where
    by_entry :
        (o : Option ActionData)
        → get_elem? s.actions.actions a ≡ o
        → Effect sys cfg s
            (record s { actions = entrance_action_run cfg.actions sys.exe_run s.actions a })
            (action a)
    by_entry none q = unchanged q (rw (q, entrance_action_run) refl)
    by_entry (some ead) q =
        command_run ead q refl (rw (q, entrance_action_run) refl) (rw (q, entrance_action_run) refl)

other_starts :
    (sys : System) (cfg : Config) (s t : Daemon)
    → entrance_server_read_cb sys cfg other s ≡ some (tt, t)
    → starts_of t ≡ starts_of s
unfolding entrance_server_read_cb
other_starts sys cfg s t e = ground arith

-- What the daemon starts for an event of a client. An authentication event starts no command, and one
-- session at most, for the seat and the session of the event and as a user of the password database, and
-- then the PAM library has accepted the authentication and the account during the handler. An action event
-- starts no session, and runs one command, that of the action that it names, without any authentication,
-- or nothing when there is no such action. Every other event starts nothing.
pub entrance_server_read_cb-Effect :
    (sys : System) (cfg : Config) (ev : ClientEvent) (s t : Daemon)
    → entrance_server_read_cb sys cfg ev s ≡ some (tt, t)
    → Effect sys cfg s t ev
unfolding Outcome AcceptedPam Before
entrance_server_read_cb-Effect sys cfg (auth id login password session) s t e =
    elim ((auth-Outcome sys cfg (starts_of s) s.seats.pam.calls id login password session).ensures s
      tt t (refl, ([], refl)) e) [
        | inl same ↦ unchanged tt same
        | inr (l, more, for_it, ok) ↦ started l more for_it ok
      ]
entrance_server_read_cb-Effect sys cfg (action a) s t e = action-Effect sys cfg a s t e
entrance_server_read_cb-Effect sys cfg (client_pid id p) s t e =
    unchanged tt (client_starts sys cfg id p s t e)
entrance_server_read_cb-Effect sys cfg other s t e = unchanged tt (other_starts sys cfg s t e)
