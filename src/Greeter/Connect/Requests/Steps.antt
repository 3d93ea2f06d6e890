-- ===== src/Greeter/Connect/Requests/Steps.antt =====
-- The greeter as a machine: what each event, and any sequence of events of the user and of the daemon,
-- makes src/bin/entrance_connect.c send.
use entrance.Action.{Action}
use entrance.Server.Login.{auth, action}
use entrance.Greeter.Defs.{Greeter}
use entrance.Greeter.Connect.{
  connect_auth, ServerEvent, status, xsessions, users, actions, conf_gui, pid, pools, other,
  connect_read_cb, gui_action_clicked_cb, UserEvent, check, unfocused, timer, login_typed,
  password_typed, session_clicked, user_selected, action_clicked, user_event, GreeterEvent, of_user,
  of_server, greeter_step, greeter_steps,
}
use entrance.Greeter.Quiet.{
  Asking, Quiet, QuietStep, ret-Quiet, modify-Quiet, >>=-Quiet, entry_changed-Quiet,
  unfocused-Quiet, timer-Quiet, login_changed-Quiet, session_clicked-Quiet,
}
use entrance.Greeter.Quiet.Window.{
  conf_set-Quiet, user_sel-Quiet, users_set-Quiet, xsessions_set-Quiet, actions_set-Quiet,
  pools_set-Quiet,
}
use entrance.Greeter.Connect.Requests.{
  Registered, handles, requested, requested-sent, requested-Registered, requested-wait,
  requested-client_id, Complete, check-cases,
}
use entrance.Greeter.Connect.Requests.Answers.{
  connect_auth-answer, answered-Registered, answered-sent, answered-client_id,
}
use entrance.Common.{
  ℕ, ◌≡◌, refl, sym, ◌∙◌, ap, subst, inl, inr, List, [], ◌∷◌, Option, none, some, Str, arith, true,
  Bool, is_some, Option-cases,
}

-- Whether an event asks the daemon for nothing: it is no click on an action, and no check of a complete form.
abbrev pub Silent : Greeter → GreeterEvent → Type 0
Silent s (of_user check) = (name : Str) → ¬ Complete s name
Silent s (of_user (action_clicked (some ea))) = ⊥
Silent s _ = Unit {0}

-- What an event makes the greeter send: the request of a complete form, a clicked action, or nothing when
-- it asks for nothing.
pub data Sends (s t : Greeter) : GreeterEvent → Type 0 where
  nothing : {e : GreeterEvent} → Silent s e → t.sent ≡ s.sent → Sends s t e
  request :
      {name : Str}
      → Complete s name
      → t.wait ≡ true
      → t.sent ≡ auth s.client_id s.login_text s.password_text (some name) ∷ s.sent
      → Sends s t (of_user check)
  click :
      {ea : Action}
      → t.sent ≡ action ea.id ∷ s.sent
      → Sends s t (of_user (action_clicked (some ea)))

-- The two facts that hold of every step.
pub record Step (e : GreeterEvent) (s t : Greeter) : Type 0 where
  pub sends : Sends s t e
  pub registered : Registered s → Registered t
  pub client_id : t.client_id ≡ s.client_id

Quiet-Step : {e : GreeterEvent} (s t : Greeter) → Silent s e → Quiet s t → Step e s t
Quiet-Step s t silent q =
    let auth = ap (λ (a : Asking). a.auth) q in
    record {
      sends = nothing silent (ap (λ (a : Asking). a.sent) q);
      registered = λ r. record {
        callbacks = ap (λ (a : Asking). a.auth_list) q ∙ (r.callbacks ∙ ap handles (sym auth));
        waits = ap (λ (a : Asking). a.wait) q ∙ (r.waits ∙ ap is_some (sym auth));
      };
      client_id = ap (λ (a : Asking). a.client_id) q;
    }

login_typed-Quiet : (data_dir text : Str) → QuietStep (user_event data_dir (login_typed text))
unfolding user_event
login_typed-Quiet data_dir text =
    >>=-Quiet (modify-Quiet (λ s. record s { login_text = text }) (λ s. refl))
      λ u. login_changed-Quiet

password_typed-Quiet : (data_dir text : Str) → QuietStep (user_event data_dir (password_typed text))
unfolding user_event
password_typed-Quiet data_dir text =
    >>=-Quiet (modify-Quiet (λ s. record s { password_text = text }) (λ s. refl))
      λ u. entry_changed-Quiet

pid-Quiet : (data_dir : Str) (p : ℕ) → QuietStep (connect_read_cb data_dir (pid p))
unfolding connect_read_cb
pid-Quiet data_dir p = modify-Quiet (λ s. record s { server_pid = some p }) (λ s. refl)

requested-Step :
    (s t : Greeter) (name : Str) → Complete s name → t ≡ requested name s → Step (of_user check) s t
requested-Step s t name c same = subst (Step (of_user check) s) (sym same) (record {
  sends = request c (requested-wait name s) (requested-sent name s);
  registered = requested-Registered name s;
  client_id = requested-client_id name s;
})

clicked-Step :
    (s t : Greeter) (ea : Action)
    → record s { sent = action ea.id ∷ s.sent } ≡ t
    → Step (of_user (action_clicked (some ea))) s t
clicked-Step s t ea same = subst (Step (of_user (action_clicked (some ea))) s) same (record {
  sends = click refl;
  registered = λ r. record { callbacks = r.callbacks; waits = r.waits };
  client_id = refl;
})

user-Step :
    (data_dir : Str) (e : UserEvent) (s t : Greeter)
    → user_event data_dir e s ≡ some (tt, t)
    → Step (of_user e) s t
unfolding user_event gui_action_clicked_cb
user-Step data_dir check s t h = elim (check-cases s t h) [
  | inl (q, none_asked) ↦ Quiet-Step s t none_asked q
  | inr (name, (c, same)) ↦ requested-Step s t name c same
]
user-Step data_dir unfocused s t h = Quiet-Step s t tt (unfocused-Quiet.keeps s tt t h)
user-Step data_dir timer s t h = Quiet-Step s t tt (timer-Quiet.keeps s tt t h)
user-Step data_dir (login_typed text) s t h =
    Quiet-Step s t tt ((login_typed-Quiet data_dir text).keeps s tt t h)
user-Step data_dir (password_typed text) s t h =
    Quiet-Step s t tt ((password_typed-Quiet data_dir text).keeps s tt t h)
user-Step data_dir (session_clicked x) s t h =
    Quiet-Step s t tt ((session_clicked-Quiet x).keeps s tt t h)
user-Step data_dir (user_selected rand eu) s t h =
    Quiet-Step s t tt ((user_sel-Quiet data_dir rand eu).keeps s tt t h)
user-Step data_dir (action_clicked none) s t h = Quiet-Step s t tt ((ret-Quiet tt).keeps s tt t h)
user-Step data_dir (action_clicked (some ea)) s t h = clicked-Step s t ea (ground arith)

status-Step :
    (granted : Bool) (msgs : Option Str) (s t : Greeter)
    → Registered s
    → connect_auth granted msgs s ≡ some (tt, t)
    → Step (of_server (status granted msgs)) s t
status-Step granted msgs s t r h =
    let a = connect_auth-answer granted msgs s t r h in
    record {
      sends = nothing tt (answered-sent granted msgs s t a);
      registered = λ r'. answered-Registered granted msgs s t r' a;
      client_id = answered-client_id granted msgs s t a;
    }

server-Step :
    (data_dir : Str) (e : ServerEvent) (s t : Greeter)
    → Registered s
    → connect_read_cb data_dir e s ≡ some (tt, t)
    → Step (of_server e) s t
unfolding connect_read_cb
server-Step data_dir (status granted msgs) s t r h = status-Step granted msgs s t r h
server-Step data_dir (xsessions xs) s t r h =
    Quiet-Step s t tt ((xsessions_set-Quiet xs).keeps s tt t h)
server-Step data_dir (users us) s t r h = Quiet-Step s t tt ((users_set-Quiet us).keeps s tt t h)
server-Step data_dir (actions shown) s t r h =
    Quiet-Step s t tt ((actions_set-Quiet shown).keeps s tt t h)
server-Step data_dir (conf_gui conf) s t r h =
    Quiet-Step s t tt ((conf_set-Quiet data_dir conf).keeps s tt t h)
server-Step data_dir (pid p) s t r h = Quiet-Step s t tt ((pid-Quiet data_dir p).keeps s tt t h)
server-Step data_dir (pools icons backgrounds) s t r h =
    Quiet-Step s t tt ((pools_set-Quiet icons backgrounds).keeps s tt t h)
server-Step data_dir other s t r h = Quiet-Step s t tt ((ret-Quiet tt).keeps s tt t h)

pub any-Step :
    (data_dir : Str) (e : GreeterEvent) (s t : Greeter)
    → Registered s
    → greeter_step data_dir e s ≡ some (tt, t)
    → Step e s t
unfolding greeter_step
any-Step data_dir (of_user e) s t r h = user-Step data_dir e s t h
any-Step data_dir (of_server e) s t r h = server-Step data_dir e s t r h

-- What an event of the user or of the daemon makes the greeter send. A click on an action sends that action's
-- id. The check of the form sends one authentication, of the form's texts and the chosen session's name
-- under the greeter's id, and waits for the answer, when the user name, the session's name and a required
-- password are not empty; otherwise it sends nothing. Any other event sends nothing.
pub greeter_step-Sends :
    (data_dir : Str) (e : GreeterEvent) (s t : Greeter)
    → Registered s
    → greeter_step data_dir e s ≡ some (tt, t)
    → Sends s t e
greeter_step-Sends data_dir e s t r h = (any-Step data_dir e s t r h).sends

-- Any sequence of events, of the user and of the daemon, keeps the form registered for the daemon's answer
-- exactly while it waits for one, with a single callback then and none otherwise.
pub greeter_steps-Registered :
    (data_dir : Str) (events : List GreeterEvent) (s t : Greeter)
    → Registered s
    → greeter_steps data_dir events s ≡ some (tt, t)
    → Registered t
unfolding greeter_steps
greeter_steps-Registered data_dir [] s t r h = subst Registered (ground arith) r
greeter_steps-Registered data_dir (e ∷ events) s t r h =
    elim (Option-cases (greeter_step data_dir e s)) [
      | inl fault ↦ ground arith
      | inr ((tt, u), first) ↦
          greeter_steps-Registered data_dir events u t
            ((any-Step data_dir e s u r first).registered r) (ground arith)
    ]
