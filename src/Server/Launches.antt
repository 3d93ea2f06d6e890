-- ===== src/Server/Launches.antt =====
-- `entrance_session_login` of src/daemon/entrance_session.c: what it may start.
use entrance.Image.{Passwd}
use entrance.Action.{Actions}
use entrance.Pam.{PamState, ItemType, entrance_pam_item_get}
use entrance.Session.Defs.{Seats, Session, with_pam, update, session_at, entrance_session_login_get}
use entrance.Session.Command.{entrance_session_find_command}
use entrance.Session.Run.{entrance_session_shell_set, session_parent}
use entrance.History.{HistoryState, entrance_history_check}
use entrance.Server.Defs.{System, Config, Daemon, Launch, Message, with_seats, with_history, send}
use entrance.Server.Login.{
  entrance_session_login, granted, session_run, auto_login_name, launch_session, login_user,
  user_entry,
}
use entrance.Common.{
  ℕ, ◌≡◌, refl, sym, ap, ◌∙◌, subst, ◌⊎◌, inl, inr, Bool, true, false, List, ◌∷◌, Option, none,
  some, Str, arith, M, Ensures, ret-Ensures, >>=-Ensures, deref-Ensures, if-Ensures, slot_get, ret,
  if◌then◌else◌,
}

-- What was started: the sessions, and the actions with the commands that they have run.
abbrev pub Starts : Type 0
Starts = List Launch × Actions

abbrev pub starts_of : Daemon → Starts
starts_of s = (s.launched, s.actions)

-- A predicate on what was started and one on the PAM state, together.
abbrev pub Inv : (Starts → Type 0) → (PamState → Type 0) → Daemon → Type 0
Inv L Q s = L (starts_of s) × Q s.seats.pam

abbrev pub AnyPam : PamState → Type 0
AnyPam p = Unit {0}

module _ (L : Starts → Type 0) (Q : PamState → Type 0) where
  unfoldable pub OnSeats : {A : Type 0} → M Seats A → Type 0
  OnSeats {A} m = Ensures (λ s. Q s.pam) m (λ a s. Q s.pam)

  unfoldable pub Still : {A : Type 0} → M Daemon A → Type 0
  Still {A} m = Ensures (Inv L Q) m (λ a. Inv L Q)

  pub still_seats : {A : Type 0} (m : M Seats A) → OnSeats m → Still (with_seats m)
  unfolding with_seats OnSeats Still
  still_seats {A} m k = record { ensures = λ s a t p e. go s a t p (m s.seats) refl e }
    where
      go :
          (s : Daemon) (a : A) (t : Daemon)
          → Inv L Q s
          → (o : Option (A × Seats)) → m s.seats ≡ o
          → ◌≡◌ {A = Option (A × Daemon)}
              (elim o [ none ↦ none | some (a, u) ↦ some (a, record s { seats = u }) ])
              (some (a, t))
          → Inv L Q t
      go s a t p none q e = cc
      go s a t p (some (b, u)) q e =
          let same : record s { seats = u } ≡ t = ground arith in
          subst (Inv L Q) same (p.0, k.ensures s.seats b u p.1 q)

  still_history : {A : Type 0} (m : M HistoryState A) → Still (with_history m)
  unfolding with_history Still
  still_history {A} m = record { ensures = λ s a t p e. go s a t p (m s.history) e }
    where
      go :
          (s : Daemon) (a : A) (t : Daemon)
          → Inv L Q s
          → (o : Option (A × HistoryState))
          → ◌≡◌ {A = Option (A × Daemon)}
              (elim o [ none ↦ none | some (a, u) ↦ some (a, record s { history = u }) ])
              (some (a, t))
          → Inv L Q t
      go s a t p none e = cc
      go s a t p (some (b, u)) e =
          let same : record s { history = u } ≡ t = ground arith in subst (Inv L Q) same p

  pub still_send : (m : Message) → Still (send m)
  unfolding send Still
  still_send m = record {
    ensures = λ s a t p e.
        let same : record s { sent = m ∷ s.sent } ≡ t = ground arith in subst (Inv L Q) same p;
  }

  pub still_get : Still (λ s. some (s, s))
  unfolding Still
  still_get = record {
    ensures = λ s a t p e. let same : s ≡ t = ground arith in subst (Inv L Q) same p;
  }

  pub still_ret : {A : Type 0} (a : A) → Still (λ s. some (a, s))
  unfolding Still
  still_ret a = ret-Ensures a (λ s p. p)

  seats_at : (id : ℕ) → OnSeats (session_at id)
  unfolding OnSeats
  seats_at id = deref-Ensures (λ s. slot_get s.sessions id) (λ s a p. p)

  seats_update : (id : ℕ) (f : Session → Session) → OnSeats (update id f)
  unfolding update OnSeats seats_at
  seats_update id f = >>=-Ensures (seats_at id) λ p. record {
    ensures = λ s a t p e. let same : s.pam ≡ t.pam = ground arith in subst Q same p;
  }

  seats_parent : (id : ℕ) (pid : Option ℕ) → OnSeats (session_parent id pid)
  unfolding session_parent OnSeats seats_update
  seats_parent id none = ret-Ensures tt (λ s p. p)
  seats_parent id (some pid) = seats_update id (λ p. record p { pid = pid })

  still_name : (sys : System) (cfg : Config) (id : ℕ) → Still (auto_login_name sys cfg id)
  unfolding auto_login_name Still still_seats seats_at seats_update still_get still_ret
  still_name sys cfg id =
      >>=-Ensures still_get
        λ s. >>=-Ensures (still_seats (session_at id) (seats_at id)) λ p. by_login s p.login
    where
      by_login :
          (s : Daemon) (o : Option Str)
          → Ensures
              (Inv L Q)
              (elim o [
                | none ↦
                    if s.auto_login
                    then with_seats (update id (λ q. record q { login = sys.strdup cfg.userlogin }))
                    else ret tt
                | some l ↦ ret tt
              ])
              (λ a. Inv L Q)
      by_login s none =
          if-Ensures s.auto_login (λ e. still_seats (update id _) (seats_update id _))
            (λ e. still_ret tt)
      by_login s (some l) = still_ret tt

-- A process that was started for the seat and the session of a request, as the user that the
-- password database has under some name.
pub record StartedFor (sys : System) (id : ℕ) (session : Option Str) (l : Launch) : Type 0 where
  pub at_seat : l.id ≡ id
  pub of_session : l.session ≡ session
  pub user : Str
  pub entry : Passwd
  pub in_database : sys.getpwnam user ≡ some entry
  pub as_user : l.pwd ≡ entrance_session_shell_set sys.host entry

module _ (sys : System) (cfg : Config) (base : Starts) (Q : PamState → Type 0) where
  unfoldable pub Only : Starts → Type 0
  Only now = now ≡ base

  unfoldable pub AtMost : ℕ → Option Str → Starts → Type 0
  AtMost id session now =
      (now ≡ base) ⊎ ((l : Launch) × (now ≡ (l ∷ base.0, base.1)) × StartedFor sys id session l)

  unfoldable pub AddsFor : ℕ → Option Str → {A : Type 0} → M Daemon A → Type 0
  AddsFor id session {A} m = Ensures (Inv Only Q) m (λ a. Inv (AtMost id session) Q)

  pub nothing_added :
      (id : ℕ) (session : Option Str) {A : Type 0} (a : A) → AddsFor id session (λ s. some (a, s))
  unfolding AddsFor AtMost Only
  nothing_added id session a = ret-Ensures a (λ s p. (inl p.0, p.1))

  run_adds :
      (id : ℕ) (session : Option Str) (l : Launch)
      → StartedFor sys id session l
      → AddsFor id session (session_run sys cfg l)
  unfolding session_run AddsFor Only AtMost Still still_get still_seats seats_parent
  run_adds id session l ok = >>=-Ensures (still_get Only Q) λ s.
      >>=-Ensures
        (still_seats Only Q (session_parent l.id (sys.fork s.launched))
          (seats_parent Only Q l.id (sys.fork s.launched)))
        λ u. by_pid (sys.fork s.launched)
    where
      by_pid :
          (o : Option ℕ)
          → AddsFor id session (elim o [
            | none ↦ ret tt
            | some p ↦ λ t. some (tt, record t { launched = l ∷ t.launched })
          ])
      by_pid none = nothing_added id session tt
      by_pid (some p) = record {
        ensures = λ s a t q e.
            let same : (l ∷ s.launched, s.actions) ≡ starts_of t = ground arith in
            let pam : s.seats.pam ≡ t.seats.pam = ground arith in
            (inr (l, sym same ∙ ap (λ (b : Starts). (l ∷ b.0, b.1)) q.0, ok), subst Q pam q.1);
      }

  launch_adds :
      (id : ℕ) (entry : Passwd) (user : Str) (session : Option Str) (cmd : Str)
      → sys.getpwnam user ≡ some entry
      → AddsFor id session
          (launch_session sys cfg id (entrance_session_shell_set sys.host entry) session cmd)
  unfolding launch_session AddsFor Still still_name still_get still_seats seats_update
  launch_adds id entry user session cmd known = >>=-Ensures (still_name Only Q sys cfg id) λ u.
      >>=-Ensures (still_get Only Q) λ s.
        >>=-Ensures
          (run_adds id session _ (record {
            at_seat = refl;
            of_session = refl;
            user = user;
            entry = entry;
            in_database = known;
            as_user = refl;
          }))
          λ v.
            >>=-Ensures
              (still_seats (AtMost id session) Q (update id (λ p. record p { login = none }))
                (seats_update (AtMost id session) Q id (λ p. record p { login = none })))
              λ w. still_ret (AtMost id session) Q true

  user_adds :
      (id : ℕ) (entry : Passwd) (user : Str) (session : Option Str) (history : Bool)
      → sys.getpwnam user ≡ some entry
      → AddsFor id session
          (login_user sys cfg id (entrance_session_shell_set sys.host entry) session history)
  unfolding login_user AddsFor Still still_history still_get still_ret launch_adds
  user_adds id entry user session history known =
      let pwd = entrance_session_shell_set sys.host entry in
      >>=-Ensures
        (if-Ensures history (λ e. still_history Only Q (entrance_history_check pwd.pw_name session))
          (λ e. still_ret Only Q tt))
        λ u.
          >>=-Ensures (still_get Only Q)
            λ s. by_command (entrance_session_find_command sys.paths s.xsessions pwd.pw_dir session)
    where
      by_command :
          (o : Option Str)
          → AddsFor id session (elim o [
            | none ↦ ret false
            | some cmd ↦
                launch_session sys cfg id (entrance_session_shell_set sys.host entry) session cmd
          ])
      by_command none = nothing_added id session false
      by_command (some cmd) = launch_adds id entry user session cmd known

  login_adds :
      (id : ℕ) (session : Option Str) (history : Bool)
      → OnSeats Only Q (with_pam (entrance_pam_item_get sys.lib id ItemType.user))
      → AddsFor id session (entrance_session_login sys cfg id session history)
  unfolding entrance_session_login AddsFor Still still_seats user_entry user_adds
  login_adds id session history item =
      >>=-Ensures
        (still_seats Only Q (with_pam (entrance_pam_item_get sys.lib id ItemType.user)) item)
        λ name. by_name name
    where
      by_entry :
          (user : Str) (o : Option Passwd)
          → sys.getpwnam user ≡ o
          → AddsFor id session (elim o [
            | none ↦ ret false
            | some pwd ↦
                login_user sys cfg id (entrance_session_shell_set sys.host pwd) session history
          ])
      by_entry user none e = nothing_added id session false
      by_entry user (some entry) e = user_adds id entry user session history e

      by_name :
          (name : Option Str)
          → AddsFor id session (elim (user_entry sys cfg name) [
            | none ↦ ret false
            | some pwd ↦
                login_user sys cfg id (entrance_session_shell_set sys.host pwd) session history
          ])
      by_name none = nothing_added id session false
      by_name (some user) = by_entry user (sys.getpwnam user) refl

  pub granted_adds :
      (id : ℕ) (session : Option Str)
      → OnSeats Only Q (with_pam (entrance_pam_item_get sys.lib id ItemType.user))
      → AddsFor id session (granted sys cfg id session)
  unfolding granted entrance_session_login_get AddsFor Still still_seats login_adds still_send
  granted_adds id session item =
      >>=-Ensures
        (still_seats Only Q (entrance_session_login_get id)
          (>>=-Ensures (seats_at Only Q id) λ p. ret-Ensures p.login (λ s q. q)))
        λ login.
          >>=-Ensures (login_adds id session true item)
            λ started. still_send (AtMost id session) Q _
