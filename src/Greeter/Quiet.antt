-- ===== src/Greeter/Quiet.antt =====
-- The callbacks of the greeter that neither ask the daemon for anything nor touch the registration for
-- its answer: the form's here, the window's in the child.
pub mod Window
use entrance.History.{EntranceLogin}
use entrance.Server.Login.{ClientEvent}
use entrance.Greeter.Defs.{Xsession, Gui, Greeter, Signal, emit, alert_error, user_of, login_show}
use entrance.Greeter.Login.{
  is_nil, with_session, login_entry_changed_cb, login_xsession_update, entrance_login_session_set,
  session_or_first, login_xsession_guess, login_login_unfocused_cb, login_login_timer_cb,
  login_login_changed_cb, login_xsession_clicked_cb, entrance_login_xsessions_populate,
  entrance_login_login_set,
}
use entrance.Greeter.Gui.{gui_set}
use entrance.Action.{Action}
use entrance.Image.{Image}
use entrance.Common.{
  ℕ, ◌≡◌, refl, ◌∙◌, sym, ap, Bool, true, false, List, [], ◌∷◌, ◌++◌, Option, none, some, Str, M,
  ◌>>=◌, ◌>>◌, ret, if◌then◌else◌, head?, ◌==◌, Keeps, ret-Keeps, modify-Keeps, >>=-Keeps, if-Keeps,
}

-- What a greeter has asked for, and its registration for the answer.
pub record Asking : Type 0 where
  pub sent : List ClientEvent
  pub auth : Option ℕ
  pub auth_list : List ℕ
  pub wait : Bool
  pub client_id : ℕ

abbrev pub asking : Greeter → Asking
asking s = record {
  sent = s.sent;
  auth = s.auth;
  auth_list = s.auth_list;
  wait = s.wait;
  client_id = s.client_id;
}

abbrev pub Quiet : Greeter → Greeter → Type 0
Quiet s t = asking t ≡ asking s

Quiet-refl : (s : Greeter) → Quiet s s
Quiet-refl s = refl

Quiet-trans : (s t u : Greeter) → Quiet s t → Quiet t u → Quiet s u
Quiet-trans s t u a b = b ∙ a

abbrev pub QuietStep : {A : Type 0} → M Greeter A → Type 0
QuietStep m = Keeps Quiet m

pub ret-Quiet : {A : Type 0} (a : A) → QuietStep (λ s. some (a, s))
ret-Quiet a = ret-Keeps Quiet Quiet-refl Quiet-trans a

pub modify-Quiet :
    (f : Greeter → Greeter) → ((s : Greeter) → Quiet s (f s)) → QuietStep (λ s. some (tt, f s))
modify-Quiet f h = modify-Keeps Quiet Quiet-refl Quiet-trans f h

pub >>=-Quiet :
    {A B : Type 0} {m : M Greeter A} {f : A → M Greeter B}
    → QuietStep m
    → ((a : A) → QuietStep (f a))
    → QuietStep (λ s. elim (m s) [ none ↦ none | some (a, t) ↦ f a t ])
>>=-Quiet km kf = >>=-Keeps Quiet Quiet-refl Quiet-trans km kf

get-Quiet : QuietStep (λ s. some (s, s))
get-Quiet = record { keeps = λ s a t e. let same : s ≡ t = cc in ap asking (sym same) }

if-Quiet :
    {A : Type 0} (c : Bool) {m n : M Greeter A}
    → QuietStep m
    → QuietStep n
    → QuietStep (if c then m else n)
if-Quiet c km kn = if-Keeps Quiet Quiet-refl Quiet-trans c km kn

pub emit-Quiet : (x : Signal) → QuietStep (emit x)
unfolding emit
emit-Quiet x = modify-Quiet (λ s. record s { signals = x ∷ s.signals }) (λ s. refl)

-- A change of other fields.
pub alert_error-Quiet : (text : Str) → QuietStep (alert_error text)
unfolding alert_error
alert_error-Quiet text =
    >>=-Quiet (emit-Quiet _) λ u. modify-Quiet (λ s. record s { error = true }) (λ s. refl)

pub gui_set-Quiet : (f : Gui → Gui) → QuietStep (gui_set f)
unfolding gui_set
gui_set-Quiet f = modify-Quiet (λ s. record s { gui = f s.gui }) (λ s. refl)

pub entry_changed-Quiet : QuietStep login_entry_changed_cb
unfolding login_entry_changed_cb
entry_changed-Quiet = >>=-Quiet get-Quiet λ s.
    if-Quiet s.error
      (>>=-Quiet (emit-Quiet _) λ u. modify-Quiet (λ t. record t { error = false }) (λ t. refl))
      (ret-Quiet tt)

with_session-Quiet : (o : Option Xsession) (s : Greeter) → Quiet s (with_session o s)
with_session-Quiet none s = Quiet-refl s
with_session-Quiet (some x) s = refl

pub xsession_update-Quiet : QuietStep login_xsession_update
unfolding login_xsession_update
xsession_update-Quiet = modify-Quiet _ λ s. with_session-Quiet s.session s

pub session_set-Quiet : (name : Option Str) → QuietStep (entrance_login_session_set name)
unfolding entrance_login_session_set
session_set-Quiet name =
    >>=-Quiet
      (modify-Quiet (λ s. record s { session = session_or_first s.gui.xsessions name }) (λ s. refl))
      λ u. xsession_update-Quiet

pub xsession_guess-Quiet : (user : Str) → QuietStep (login_xsession_guess user)
unfolding login_xsession_guess
xsession_guess-Quiet user = >>=-Quiet get-Quiet λ s. session_set-Quiet _

pub unfocused-Quiet : QuietStep login_login_unfocused_cb
unfolding login_login_unfocused_cb
unfocused-Quiet =
    >>=-Quiet (modify-Quiet (λ s. record s { write_timer = false }) (λ s. refl))
      λ u. >>=-Quiet get-Quiet λ s. xsession_guess-Quiet s.login_text

pub timer-Quiet : QuietStep login_login_timer_cb
unfolding login_login_timer_cb
timer-Quiet = >>=-Quiet get-Quiet λ s.
    >>=-Quiet (xsession_guess-Quiet s.login_text)
      λ u. modify-Quiet (λ s. record s { write_timer = false }) (λ s. refl)

pub login_changed-Quiet : QuietStep login_login_changed_cb
unfolding login_login_changed_cb
login_changed-Quiet =
    >>=-Quiet entry_changed-Quiet
      λ u. modify-Quiet (λ s. record s { write_timer = true }) (λ s. refl)

pub session_clicked-Quiet : (x : Option Xsession) → QuietStep (login_xsession_clicked_cb x)
unfolding login_xsession_clicked_cb
session_clicked-Quiet x =
    >>=-Quiet (modify-Quiet (λ s. record s { session = x }) (λ s. refl)) λ u. xsession_update-Quiet

pub populate-Quiet :
    (xsessions : List Xsession) → QuietStep (entrance_login_xsessions_populate xsessions)
unfolding entrance_login_xsessions_populate
populate-Quiet xsessions = >>=-Quiet (modify-Quiet _ (λ s. refl)) λ u. xsession_update-Quiet

pub login_set-Quiet : (user : Str) → QuietStep (entrance_login_login_set user)
unfolding entrance_login_login_set
login_set-Quiet user =
    >>=-Quiet (modify-Quiet (λ s. record s { login_text = user }) (λ s. refl))
      λ u. xsession_guess-Quiet user
