-- ===== src/Greeter/Connect/Requests/Served.antt =====
-- What the greeter has sent after any sequence of events, and what `_entrance_server_read_cb` of
-- src/daemon/entrance_server.c makes of what src/bin/entrance_connect.c sends.
use mathlib.Core.List.{Memᴰ}
use entrance.Action.{Action, ActionData, command_of}
use entrance.Server.Defs.{System, Config, Daemon, Launch}
use entrance.Server.Grant.{AcceptedSince}
use entrance.Server.Launches.{starts_of, StartedFor}
use entrance.Server.Login.{ClientEvent, auth, action, entrance_server_read_cb}
use entrance.Server.Starts.{
  Effect, NoAction, unchanged, command_run, started, entrance_server_read_cb-Effect,
}
use entrance.Greeter.Defs.{Greeter, Xsession}
use entrance.Greeter.Login.{is_nil, session_name}
use entrance.Greeter.Connect.{
  GreeterEvent, of_user, check, action_clicked, greeter_step, greeter_steps,
}
use entrance.Greeter.Connect.Requests.{Registered, Complete}
use entrance.Greeter.Connect.Requests.Steps.{
  Sends, nothing, request, click, greeter_step-Sends, Step, any-Step,
}
use entrance.Common.{
  ℕ, ◌≡◌, sym, ◌∙◌, ap, subst, ◌⊎◌, inl, inr, false, List, [], ◌∷◌, Option, none, some, Str, arith,
  Option-cases, if◌then◌else◌, length, get_elem?,
}

-- The session's name that the form takes is not empty.
session_name-nil :
    (o : Option Xsession) (name : Str) → session_name o ≡ some name → is_nil name ≡ false
unfolding session_name
session_name-nil none name e = cc
session_name-nil (some x) name e = by_name x.name e
  where
    by_name :
        (o : Option Str)
        → ◌≡◌ {A = Option Str}
            (elim o [ none ↦ none | some n ↦ if is_nil n then none else some n ])
            (some name)
        → is_nil name ≡ false
    by_name none h = cc
    by_name (some []) h = cc
    by_name (some (c ∷ n)) h = let same : c ∷ n ≡ name = cc in ap is_nil (sym same)

-- An authentication that names its sender, and in which no text that the daemon needs is empty.
pub record Asks (client_id id : ℕ) (login : Str) (session : Option Str) : Type 0 where
  pub sender : id ≡ client_id
  pub login_given : is_nil login ≡ false
  pub name : Str
  pub session_given : session ≡ some name
  pub name_given : is_nil name ≡ false

cons_ne : {A : Type 0} (x : A) (xs : List A) → xs ≡ x ∷ xs → ⊥
cons_ne x xs e = omega (arith, ap length e)

one_sent :
    (e : GreeterEvent) (s t : Greeter) (id : ℕ) (login password : Str) (session : Option Str)
    → Sends s t e
    → Memᴰ (auth id login password session) t.sent
    → Memᴰ (auth id login password session) s.sent ⊎ Asks s.client_id id login session
one_sent e s t id login password session (nothing silent same) m =
    inl (subst (Memᴰ (auth id login password session)) same m)
one_sent _ s t id login password session (request {name} c w same) m =
    newest (subst (Memᴰ (auth id login password session)) same m)
  where
    newest :
        Memᴰ
          (auth id login password session)
          (auth s.client_id s.login_text s.password_text (some name) ∷ s.sent)
        → Memᴰ (auth id login password session) s.sent ⊎ Asks s.client_id id login session
    newest (Memᴰ.tail n) = inl n
    newest (Memᴰ.head h) =
        let by : login ≡ s.login_text = cc in
        inr (record {
          sender = cc;
          login_given = ap is_nil by ∙ c.login;
          name = name;
          session_given = cc;
          name_given = session_name-nil s.session name c.chosen;
        })
one_sent _ s t id login password session (click {ea} same) m =
    newest (subst (Memᴰ (auth id login password session)) same m)
  where
    newest :
        Memᴰ (auth id login password session) (action ea.id ∷ s.sent)
        → Memᴰ (auth id login password session) s.sent ⊎ Asks s.client_id id login session
    newest (Memᴰ.tail n) = inl n
    newest (Memᴰ.head h) = cc

after-Step :
    (e : GreeterEvent) (s u : Greeter) (id : ℕ) (login password : Str) (session : Option Str)
    → Step e s u
    → Memᴰ (auth id login password session) u.sent ⊎ Asks u.client_id id login session
    → Memᴰ (auth id login password session) s.sent ⊎ Asks s.client_id id login session
after-Step e s u id login password session st (inl earlier) =
    one_sent e s u id login password session st.sends earlier
after-Step e s u id login password session st (inr a) =
    inr (subst (λ c. Asks c id login session) st.client_id a)

-- After any sequence of events of the user and of the daemon, an authentication that the greeter has sent
-- was sent before them, or names the greeter's own id, a user name that is not empty and a session whose
-- name is not empty.
pub greeter_steps-Asks :
    (data_dir : Str) (events : List GreeterEvent) (s t : Greeter) (id : ℕ) (login password : Str)
    (session : Option Str)
    → Registered s
    → greeter_steps data_dir events s ≡ some (tt, t)
    → Memᴰ (auth id login password session) t.sent
    → Memᴰ (auth id login password session) s.sent ⊎ Asks s.client_id id login session
unfolding greeter_steps
greeter_steps-Asks data_dir [] s t id login password session r h m =
    let same : t ≡ s = ground arith in
    inl (subst (λ x. Memᴰ (auth id login password session) x.sent) same m)
greeter_steps-Asks data_dir (e ∷ events) s t id login password session r h m =
    elim (Option-cases (greeter_step data_dir e s)) [
      | inl fault ↦ ground arith
      | inr ((tt, u), first) ↦
          let st : Step e s u = any-Step data_dir e s u r first in
          after-Step e s u id login password session st (
            greeter_steps-Asks data_dir events u t id login password session (st.registered r)
              (ground arith) m)
    ]

-- What the daemon starts for what an event makes the greeter send: nothing, one session for the check of a
-- complete form, or the command of a clicked action.
pub data Served (sys : System) (cfg : Config) (s : Greeter) (d u : Daemon)
    : GreeterEvent → Type 0 where
  nothing_started :
      {name : Str}
      → Complete s name
      → starts_of u ≡ starts_of d
      → Served sys cfg s d u (of_user check)
  session_started :
      {name : Str} (l : Launch)
      → Complete s name
      → starts_of u ≡ (l ∷ d.launched, d.actions)
      → StartedFor sys s.client_id (some name) l
      → AcceptedSince sys.lib d.seats.pam.calls u.seats.pam.calls
      → Served sys cfg s d u (of_user check)
  no_action :
      {ea : Action}
      → get_elem? d.actions.actions ea.id ≡ none
      → starts_of u ≡ starts_of d
      → Served sys cfg s d u (of_user (action_clicked (some ea)))
  action_run :
      {ea : Action} (ead : ActionData)
      → get_elem? d.actions.actions ea.id ≡ some ead
      → u.launched ≡ d.launched
      → u.actions.launched ≡ command_of cfg.actions sys.exe_run ead.func ∷ d.actions.launched
      → Served sys cfg s d u (of_user (action_clicked (some ea)))

module _ (sys : System) (cfg : Config) (s : Greeter) (d u : Daemon) where
  request-Served :
      (name : Str) (ev : ClientEvent)
      → Complete s name
      → Effect sys cfg d u ev
      → ev ≡ auth s.client_id s.login_text s.password_text (some name)
      → Served sys cfg s d u (of_user check)
  request-Served name ev c (unchanged idle same) e = nothing_started c same
  request-Served name _ c (command_run ead at_a l k new) e = cc
  request-Served name _ c (started {id} {login} {password} {session} l more for_it ok) e =
      let by_id : id ≡ s.client_id = cc in
      let by_session : session ≡ some name = cc in
      session_started l c more
        (subst (λ i. StartedFor sys i (some name) l) by_id
          (subst (λ o. StartedFor sys id o l) by_session for_it))
        ok

  click-Served :
      (ea : Action) (ev : ClientEvent)
      → Effect sys cfg d u ev
      → ev ≡ action ea.id
      → Served sys cfg s d u (of_user (action_clicked (some ea)))
  click-Served ea ev (unchanged idle same) e = no_action (subst (NoAction d) e idle) same
  click-Served ea _ (command_run {a} ead at_a l k new) e =
      let by_id : a ≡ ea.id = cc in
      action_run ead (subst (λ i. get_elem? d.actions.actions i ≡ some ead) by_id at_a) l new
  click-Served ea _ (started l more for_it ok) e = cc

-- What the daemon does with an event that one step of the greeter sends. For the check of the form, which
-- was complete, it starts no command, and one session at most, at the greeter's seat, for the session
-- chosen in the form and as a user of the password database, after the library accepted the authentication
-- meanwhile. For a click on an action it starts no session, and runs the command of the daemon's action
-- with that id, which asks for no authentication, or nothing when the daemon has no such action. No other
-- step sends anything.
pub greeter_step-Served :
    (data_dir : Str) (sys : System) (cfg : Config) (e : GreeterEvent) (ev : ClientEvent)
    (s t : Greeter) (d u : Daemon)
    → Registered s
    → greeter_step data_dir e s ≡ some (tt, t)
    → t.sent ≡ ev ∷ s.sent
    → entrance_server_read_cb sys cfg ev d ≡ some (tt, u)
    → Served sys cfg s d u e
greeter_step-Served data_dir sys cfg e ev s t d u r h new read =
    by_sends e (greeter_step-Sends data_dir e s t r h)
      (entrance_server_read_cb-Effect sys cfg ev d u read)
  where
    by_sends : (e : GreeterEvent) → Sends s t e → Effect sys cfg d u ev → Served sys cfg s d u e
    by_sends e (nothing silent same) f = absurd (cons_ne ev s.sent (sym same ∙ new))
    by_sends _ (request {name} c w same) f = request-Served sys cfg s d u name ev c f (cc)
    by_sends _ (click {ea} same) f = click-Served sys cfg s d u ea ev f (cc)
